-- ===== src/Core/Pubkey.antt =====
-- core/src/pubkey.rs: WinternitzPubkey and WinternitzRoot. `merklize` is in Core/Merkle.antt.
use winterwallet.Prelude.{ℕ, ◌+◌, ◌*◌, List, ◌==◌, length, if◌then◌else◌, Result, ok, err}
use winterwallet.Bytes.{Bytes}
use winterwallet.Core.Error.{WinternitzError, invalid_length}
use winterwallet.Core.Layout.{Fields, raw_bytes, cast}

-- `WinternitzPubkey<N>`; N is an argument of the functions that use it.
pub record WinternitzPubkey : Type 0 where
  pub scalars : List Bytes
  pub checksum : Bytes × Bytes

abbrev pub fields : WinternitzPubkey → Fields
fields k = (k.scalars, k.checksum.0, k.checksum.1)

abbrev pub of_fields : Fields → WinternitzPubkey
of_fields (scalars, c0, c1) = record { scalars = scalars; checksum = (c0, c1) }

-- `WinternitzPubkey::as_bytes`
unfoldable pub as_bytes : WinternitzPubkey → Bytes
as_bytes k = raw_bytes (fields k)

-- `TryFrom<&[u8]>`
unfoldable pub try_from : ℕ → Bytes → Result WinternitzError WinternitzPubkey
try_from n value =
    if length value == (n + 2) * 32 then ok (of_fields (cast n value)) else err invalid_length
