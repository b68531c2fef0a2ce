-- ===== src/Core/Privkey/Recover.antt =====
-- The public key that a verifier recovers from a signature is the signer's.
use winterwallet.Prelude.{
  ℕ, suc, ◌-◌, ◌≤◌, ◌<◌, ◌≡◌, refl, ap, sym, ◌∙◌, List, [], ◌∷◌, arith, length, map, All,
}
use winterwallet.Bytes.{Bytes, IsBytes}
use winterwallet.Core.Hash.{
  Hasher, chain, hash, chain-chain, length-chain, length-hash, hash-IsBytes,
}
use winterwallet.Core.Layout.{IsLaidOut, IsScalar}
use winterwallet.Core.Privkey
use winterwallet.Core.Signature
use winterwallet.Core.Signature.{
  WinternitzSignature, add_digit, high_byte, low_byte, recover_loop, recover_pubkey_prehashed,
  recover_pubkey,
}
use winterwallet.Core.Privkey.{WinternitzPrivkey, sign_loop, sign_prehashed, sign, to_pubkey}

module _ ⦃sha : Hasher⦄ where
  -- The verifier completes what the signer began.
  chain_completed :
      (seed : Bytes) (b : ℕ) → b < 256 → chain (chain seed b) (255 - b) ≡ chain seed 255
  chain_completed seed b h = chain-chain seed b (255 - b) ∙ ap (chain seed) (omega arith)

  recover_loop-sign_loop :
      (ss : List Bytes) (bs : Bytes) (sum : ℕ)
      → length ss ≡ length bs
      → IsBytes bs
      → recover_loop (sign_loop ss bs sum).0 bs sum
        ≡ (map (λ s. chain s 255) ss, (sign_loop ss bs sum).1)
  unfolding recover_loop sign_loop
  recover_loop-sign_loop [] [] sum e h = refl
  recover_loop-sign_loop [] (b ∷ bs) sum e h = absurd (omega arith)
  recover_loop-sign_loop (s ∷ ss) [] sum e h = absurd (omega arith)
  recover_loop-sign_loop (s ∷ ss) (b ∷ bs) sum e h =
      let ih = recover_loop-sign_loop ss bs (add_digit sum b) (omega arith) h.1 in
      λ i. (chain_completed s b h.0 i ∷ (ih i).0, (ih i).1)

  -- For every digest of as many bytes as the key has scalars, the public key recovered from the
  -- signature of that digest is the private key's public key.
  pub recover_pubkey_prehashed-sign_prehashed :
      (sk : WinternitzPrivkey) (digest : Bytes)
      → length sk.scalars ≡ length digest
      → IsBytes digest
      → recover_pubkey_prehashed (sign_prehashed sk digest) digest ≡ to_pubkey sk
  unfolding recover_pubkey_prehashed sign_prehashed to_pubkey
  recover_pubkey_prehashed-sign_prehashed sk digest e h =
      let r = recover_loop-sign_loop sk.scalars digest 0 e h in
      let sum = (sign_loop sk.scalars digest 0).1 in
      rw (
        r,
        chain_completed sk.checksum.0 (high_byte sum) (omega arith),
        chain_completed sk.checksum.1 (low_byte sum) (omega arith),
      )

  -- For a message, the digest is the hash cut to as many bytes as the key has scalars.
  pub recover_pubkey-sign :
      (n : ℕ) (sk : WinternitzPrivkey) (message : List Bytes)
      → n ≤ 32
      → length sk.scalars ≡ n
      → recover_pubkey n (sign n sk message) message ≡ to_pubkey sk
  unfolding recover_pubkey sign
  recover_pubkey-sign n sk message h e =
      recover_pubkey_prehashed-sign_prehashed sk (hash n message)
        (e ∙ sym (length-hash n message h)) (hash-IsBytes n message)

  sign_loop_shape :
      (ss : List Bytes) (bs : Bytes) (sum : ℕ)
      → length ss ≡ length bs
      → All IsScalar ss
      → (length (sign_loop ss bs sum).0 ≡ length ss) × All IsScalar (sign_loop ss bs sum).0
  unfolding sign_loop
  sign_loop_shape [] [] sum e h = (refl, tt)
  sign_loop_shape [] (b ∷ bs) sum e h = absurd (omega arith)
  sign_loop_shape (s ∷ ss) [] sum e h = absurd (omega arith)
  sign_loop_shape (s ∷ ss) (b ∷ bs) sum e h =
      let (l, all) = sign_loop_shape ss bs (add_digit sum b) (omega arith) h.1 in
      (ap suc l, (length-chain s b h.0, all))

  -- A signature has as many scalars as the private key.
  pub sign-IsLaidOut :
      (n : ℕ) (sk : WinternitzPrivkey) (message : List Bytes)
      → n ≤ 32
      → IsLaidOut n (Privkey.fields sk)
      → IsLaidOut n (Signature.fields (sign n sk message))
  unfolding sign sign_prehashed
  sign-IsLaidOut n sk message h (hn, hs, h0, h1) =
      let digest = hash n message in
      let (l, all) = sign_loop_shape sk.scalars digest 0 (hn ∙ sym (length-hash n message h)) hs in
      (l ∙ hn, all, length-chain sk.checksum.0 _ h0, length-chain sk.checksum.1 _ h1)
