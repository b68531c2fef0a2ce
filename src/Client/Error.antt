-- ===== src/Client/Error.antt =====
-- client/src/error.rs.
use Prim.Native.String.{String}
use winterwallet.Prelude.{ℕ}
use winterwallet.Core.Error.{WinternitzError}

pub data Error : Type 0 where
  invalid_account_data : Error
  winternitz : WinternitzError → Error
  root_mismatch : Error
  -- the expected and the actual (wallet, parent, child)
  signer_position_mismatch : (ℕ × ℕ × ℕ) → (ℕ × ℕ × ℕ) → Error
  position_overflow : Error
  payload_too_large : String → Error
  -- the estimated size and the limit
  transaction_too_large : ℕ → ℕ → Error
  unsupported_transaction : String → Error
