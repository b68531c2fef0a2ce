-- ===== src/Core/Keypair/Position.antt =====
-- The positions of a keypair: each signature consumes the next one.
use winterwallet.Prelude.{
  ℕ, zero, suc, ◌+◌, ◌*◌, ◌<◌, ◌≤◌, ◌≡◌, ◌↔◌, refl, ap, List, [], ◌∷◌, ◌++◌, arith, none, some,
  true, length, All, length-take, length-drop, Option-cases, inl, inr,
}
use winterwallet.Bytes.{Bytes, u32_mod, u64_mod}
use winterwallet.Core.Hash.{Hasher}
use winterwallet.Core.Layout.{IsLaidOut, IsScalar}
use winterwallet.Core.Merkle.{merklize}
use winterwallet.Core.Privkey
use winterwallet.Core.Privkey.{WinternitzPrivkey, sign, to_pubkey}
use winterwallet.Core.Signature.{WinternitzSignature}
use winterwallet.Core.Verify.{verify, verify-sign}
use winterwallet.Core.Keypair.{
  hardened, to_be_bytes, Hmac, WinternitzKeypair, increment_child, derive_child, walk,
  derive_scalars, derive, sign_and_increment,
}

-- The position within a wallet as one number.
abbrev pub position : WinternitzKeypair → ℕ
position kp = kp.parent * u32_mod + kp.child

-- The indices are u32s.
pub record IsInRange (kp : WinternitzKeypair) : Type 0 where
  pub parent : kp.parent < u32_mod
  pub child : kp.child < u32_mod

-- For a keypair whose indices are u32s, where `increment_child` returns it goes to the next
-- position, in range, and keeps the wallet index, the key and the chain code.
pub increment_child-position :
    (kp kp' : WinternitzKeypair)
    → IsInRange kp
    → increment_child kp ≡ some kp'
    → (position kp' ≡ position kp + 1)
      × IsInRange kp'
      × (kp'.wallet ≡ kp.wallet)
      × (kp'.key ≡ kp.key)
      × (kp'.chain_code ≡ kp.chain_code)
unfolding increment_child
increment_child-position kp kp' r h = ground arith

-- For a keypair whose indices are u32s, `increment_child` panics exactly at the last of the 2 ^ 64
-- positions.
pub increment_child-last :
    (kp : WinternitzKeypair)
    → IsInRange kp
    → (increment_child kp ≡ none) ↔ (position kp + 1 ≡ u64_mod)
unfolding increment_child
increment_child-last kp r = (λ h. ground arith, λ h. ground arith)

module _ ⦃mac : Hmac⦄ where
  derive_child_lengths :
      (k c : Bytes) (index : ℕ)
      → IsScalar (derive_child k c index).0 × IsScalar (derive_child k c index).1
  unfolding derive_child
  derive_child_lengths k c index =
      let message = 0 ∷ (k ++ to_be_bytes 4 (hardened index)) in
      let i = mac.length-hmac_sha512 c message in
      (
        omega (arith, length-take 32 (mac.hmac_sha512 c message), i),
        omega (arith, length-drop 32 (mac.hmac_sha512 c message), i),
      )

  derive_scalars_shape :
      (kc : Bytes × Bytes) (first count : ℕ)
      → (length (derive_scalars kc first count) ≡ count)
        × All IsScalar (derive_scalars kc first count)
  unfolding derive_scalars
  derive_scalars_shape kc first zero = (refl, tt)
  derive_scalars_shape (k, c) first (suc count) =
      let (l, all) = derive_scalars_shape (k, c) (first + 1) count in
      (ap suc l, ((derive_child_lengths k c first).0, all))

  -- The derived private key has N scalars of 32 bytes and two checksum scalars.
  pub derive-IsLaidOut :
      (n : ℕ) (kp : WinternitzKeypair) → IsLaidOut n (Privkey.fields (derive n kp))
  unfolding derive
  derive-IsLaidOut n kp =
      let kc = walk (kp.key, kp.chain_code) (kp.wallet ∷ kp.parent ∷ kp.child ∷ []) in
      let (l, all) = derive_scalars_shape kc 0 n in
      (l, all, (derive_child_lengths kc.0 kc.1 n).0, (derive_child_lengths kc.0 kc.1 (n + 1)).0)

  module _ ⦃sha : Hasher⦄ where
    -- The signature is the current position's, and the keypair goes on to the next.
    pub sign_and_increment_inv :
        (n : ℕ) (kp : WinternitzKeypair) (message : List Bytes) {sig : WinternitzSignature}
        {kp' : WinternitzKeypair}
        → sign_and_increment n kp message ≡ some (sig, kp')
        → (sig ≡ sign n (derive n kp) message) × (increment_child kp ≡ some kp')
    unfolding sign_and_increment
    sign_and_increment_inv n kp message h = elim (Option-cases (increment_child kp)) [
      | inl last ↦ cc (last, h)
      | inr (next, e) ↦ let h' = rw e at h in (cc h', cc (e, h'))
    ]

    -- For N up to 32 and a keypair whose indices are u32s, what `sign_and_increment` returns
    -- verifies against the root of the position that the keypair was at, and the keypair is at the
    -- next position, in range.
    pub sign_and_increment-verify :
        (n : ℕ) (kp : WinternitzKeypair) (message : List Bytes) (sig : WinternitzSignature)
        (kp' : WinternitzKeypair)
        → n ≤ 32
        → IsInRange kp
        → sign_and_increment n kp message ≡ some (sig, kp')
        → (verify n sig message (merklize (to_pubkey (derive n kp))) ≡ true)
          × (position kp' ≡ position kp + 1)
          × IsInRange kp'
    sign_and_increment-verify n kp message sig kp' hn r h =
        let (e, next) = sign_and_increment_inv n kp message h in
        let (pos, range, _, _, _) = increment_child-position kp kp' r next in
        (rw e (verify-sign n (derive n kp) message hn (derive-IsLaidOut n kp).0), pos, range)
