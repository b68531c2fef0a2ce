-- ===== src/Core/Keypair.antt =====
-- core/src/keypair.rs: derivation of the private key at a position, and the advance of the position.
pub mod Position
pub mod Folding
pub mod Mnemonic
use winterwallet.Prelude.{
  ℕ, zero, suc, ◌+◌, ◌*◌, ◌%◌, ◌^◌, ◌≡◌, List, [], ◌∷◌, ◌++◌, arith, ltb, if◌then◌else◌, Option,
  none, some, take, drop, length,
}
use mathlib.Core.List.{reverse}
use mathlib.Core.Option
use winterwallet.Bytes.{Bytes, to_le_bytes, u32_mod}
use winterwallet.Core.Hash.{Hasher}
use winterwallet.Core.Privkey.{WinternitzPrivkey, sign}
use winterwallet.Core.Signature.{WinternitzSignature}

-- HMAC-SHA512 of the crates hmac and sha2, by key and message: 64 bytes.
pub record Hmac : Type 0 where
  pub hmac_sha512 : Bytes → Bytes → Bytes
  pub length-hmac_sha512 : (key message : Bytes) → length (hmac_sha512 key message) ≡ 64

-- `WinternitzKeypair`; `wallet`, `parent` and `child` are u32.
pub record WinternitzKeypair : Type 0 where
  pub key : Bytes
  pub chain_code : Bytes
  pub wallet : ℕ
  pub parent : ℕ
  pub child : ℕ

-- `index | 0x8000_0000` of a u32: the top bit is set.
abbrev pub hardened : ℕ → ℕ
hardened index = index % 2 ^ 31 + 2 ^ 31

abbrev pub to_be_bytes : ℕ → ℕ → Bytes
to_be_bytes w v = reverse (to_le_bytes w v)

-- `checked_add(1)` on a u32.
abbrev pub checked_suc : ℕ → Option ℕ
checked_suc n = if ltb (n + 1) u32_mod then some (n + 1) else none

-- `increment_parent`; `none` is the panic "parent overflow".
unfoldable pub increment_parent : WinternitzKeypair → Option WinternitzKeypair
increment_parent kp = Option.map (λ p. record kp { parent = p; child = 0 }) (checked_suc kp.parent)

-- `increment_child`
unfoldable pub increment_child : WinternitzKeypair → Option WinternitzKeypair
unfolding increment_parent
increment_child kp = elim (checked_suc kp.child) [
  | some c ↦ some (record kp { child = c })
  | none ↦ increment_parent (record kp { child = 0 })
]

module _ ⦃mac : Hmac⦄ where
  -- `derive_child`: the child's key and chain code.
  unfoldable pub derive_child : Bytes → Bytes → ℕ → Bytes × Bytes
  derive_child key chain_code index =
      let i = mac.hmac_sha512 chain_code (0 ∷ (key ++ to_be_bytes 4 (hardened index))) in
      (take 32 i, drop 32 i)

  -- `for idx in [wallet, parent, child]`
  unfoldable pub walk : Bytes × Bytes → List ℕ → Bytes × Bytes
  walk kc [] = kc
  walk (k, c) (index ∷ indices) = walk (derive_child k c index) indices

  -- The scalars of indices `first` to `first + count - 1`.
  unfoldable pub derive_scalars : Bytes × Bytes → ℕ → ℕ → List Bytes
  derive_scalars kc first zero = []
  derive_scalars (k, c) first (suc count) =
      (derive_child k c first).0 ∷ derive_scalars (k, c) (first + 1) count

  -- `derive::<N>`
  unfoldable pub derive : ℕ → WinternitzKeypair → WinternitzPrivkey
  derive n kp =
      let (k, c) = walk (kp.key, kp.chain_code) (kp.wallet ∷ kp.parent ∷ kp.child ∷ []) in
      record {
        scalars = derive_scalars (k, c) 0 n;
        checksum = ((derive_child k c n).0, (derive_child k c (n + 1)).0);
      }

  -- `sign_and_increment`: the signature and the keypair after it; `none` is the panic of
  -- `increment_parent`.
  unfoldable pub sign_and_increment :
      ⦃sha : Hasher⦄
      → ℕ
      → WinternitzKeypair
      → List Bytes
      → Option (WinternitzSignature × WinternitzKeypair)
  sign_and_increment n kp message =
      let sig = sign n (derive n kp) message in Option.map (λ kp'. (sig, kp')) (increment_child kp)
