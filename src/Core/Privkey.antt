-- ===== src/Core/Privkey.antt =====
-- core/src/privkey.rs: WinternitzPrivkey, signing, and the public key of a private one.
pub mod Recover
use winterwallet.Prelude.{
  ℕ, ◌+◌, ◌-◌, ◌*◌, ◌/◌, ◌%◌, ◌≡◌, refl, List, [], ◌∷◌, arith, ◌==◌, length, if◌then◌else◌, Result,
  ok, err, map,
}
use winterwallet.Bytes.{Bytes}
use winterwallet.Core.Hash.{Hasher, chain, hash}
use winterwallet.Core.Error.{WinternitzError, invalid_length}
use winterwallet.Core.Layout.{Fields, raw_bytes, cast}
use winterwallet.Core.Pubkey.{WinternitzPubkey}
use winterwallet.Core.Signature.{WinternitzSignature, add_digit, high_byte, low_byte}

-- `WinternitzPrivkey<N>`
pub record WinternitzPrivkey : Type 0 where
  pub scalars : List Bytes
  pub checksum : Bytes × Bytes

abbrev pub fields : WinternitzPrivkey → Fields
fields k = (k.scalars, k.checksum.0, k.checksum.1)

abbrev pub of_fields : Fields → WinternitzPrivkey
of_fields (scalars, c0, c1) = record { scalars = scalars; checksum = (c0, c1) }

-- `WinternitzPrivkey::as_bytes`
unfoldable pub as_bytes : WinternitzPrivkey → Bytes
as_bytes k = raw_bytes (fields k)

-- `TryFrom<&[u8]>`
unfoldable pub try_from : ℕ → Bytes → Result WinternitzError WinternitzPrivkey
try_from n value =
    if length value == (n + 2) * 32 then ok (of_fields (cast n value)) else err invalid_length

module _ ⦃sha : Hasher⦄ where
  -- The loop of `sign_prehashed` over `self.scalars[i]` and `hash[i]`, from `checksum_sum`.
  unfoldable pub sign_loop : List Bytes → Bytes → ℕ → List Bytes × ℕ
  sign_loop (s ∷ ss) (b ∷ bs) checksum_sum =
      let (sig, total) = sign_loop ss bs (add_digit checksum_sum b) in (chain s b ∷ sig, total)
  sign_loop _ _ checksum_sum = ([], checksum_sum)

  -- `sign_prehashed`
  unfoldable pub sign_prehashed : WinternitzPrivkey → Bytes → WinternitzSignature
  sign_prehashed sk digest =
      let (sig, checksum_sum) = sign_loop sk.scalars digest 0 in
      record {
        scalars = sig;
        checksum = (
          chain sk.checksum.0 (high_byte checksum_sum),
          chain sk.checksum.1 (low_byte checksum_sum),
        );
      }

  -- `sign`
  unfoldable pub sign : ℕ → WinternitzPrivkey → List Bytes → WinternitzSignature
  sign n sk message = sign_prehashed sk (hash n message)

  -- `to_pubkey`, and the two `From` conversions that call it
  unfoldable pub to_pubkey : WinternitzPrivkey → WinternitzPubkey
  to_pubkey sk = record {
    scalars = map (λ s. chain s 255) sk.scalars;
    checksum = (chain sk.checksum.0 255, chain sk.checksum.1 255);
  }
