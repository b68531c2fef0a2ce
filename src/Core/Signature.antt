-- ===== src/Core/Signature.antt =====
-- core/src/signature.rs: WinternitzSignature and the recovery of the public key that a signature
-- implies. `verify` is in Core/Verify.antt.
use winterwallet.Prelude.{
  ℕ, ◌+◌, ◌-◌, ◌*◌, ◌/◌, ◌%◌, List, [], ◌∷◌, ◌==◌, length, if◌then◌else◌, Result, ok, err,
}
use winterwallet.Bytes.{Bytes, u16_mod}
use winterwallet.Core.Hash.{Hasher, chain, hash}
use winterwallet.Core.Error.{WinternitzError, invalid_length}
use winterwallet.Core.Layout.{Fields, raw_bytes, cast}
use winterwallet.Core.Pubkey.{WinternitzPubkey}

-- `WinternitzSignature<N>`
pub record WinternitzSignature : Type 0 where
  pub scalars : List Bytes
  pub checksum : Bytes × Bytes

abbrev pub fields : WinternitzSignature → Fields
fields k = (k.scalars, k.checksum.0, k.checksum.1)

abbrev pub of_fields : Fields → WinternitzSignature
of_fields (scalars, c0, c1) = record { scalars = scalars; checksum = (c0, c1) }

-- `WinternitzSignature::as_bytes`
unfoldable pub as_bytes : WinternitzSignature → Bytes
as_bytes k = raw_bytes (fields k)

-- `TryFrom<&[u8]>`
unfoldable pub try_from : ℕ → Bytes → Result WinternitzError WinternitzSignature
try_from n value =
    if length value == (n + 2) * 32 then ok (of_fields (cast n value)) else err invalid_length

-- `checksum_sum += 255u16 - b as u16`, on a u16.
abbrev pub add_digit : ℕ → ℕ → ℕ
add_digit checksum_sum b = (checksum_sum + (255 - b)) % u16_mod

-- The two bytes of the u16: `(checksum_sum >> 8) as u8` and `checksum_sum as u8`.
abbrev pub high_byte : ℕ → ℕ
high_byte checksum_sum = checksum_sum / 256 % 256

abbrev pub low_byte : ℕ → ℕ
low_byte checksum_sum = checksum_sum % 256

module _ ⦃sha : Hasher⦄ where
  -- The loop of `recover_pubkey_prehashed` over `self.scalars[i]` and `hash[i]`, from
  -- `checksum_sum`: the scalars of the public key and the sum.
  unfoldable pub recover_loop : List Bytes → Bytes → ℕ → List Bytes × ℕ
  recover_loop (s ∷ ss) (b ∷ bs) checksum_sum =
      let (pk, total) = recover_loop ss bs (add_digit checksum_sum b) in
      (chain s (255 - b) ∷ pk, total)
  recover_loop _ _ checksum_sum = ([], checksum_sum)

  -- `recover_pubkey_prehashed`
  unfoldable pub recover_pubkey_prehashed : WinternitzSignature → Bytes → WinternitzPubkey
  recover_pubkey_prehashed sig digest =
      let (pk, checksum_sum) = recover_loop sig.scalars digest 0 in
      record {
        scalars = pk;
        checksum = (
          chain sig.checksum.0 (255 - high_byte checksum_sum),
          chain sig.checksum.1 (255 - low_byte checksum_sum),
        );
      }

  -- `recover_pubkey`
  unfoldable pub recover_pubkey : ℕ → WinternitzSignature → List Bytes → WinternitzPubkey
  recover_pubkey n sig message = recover_pubkey_prehashed sig (hash n message)
