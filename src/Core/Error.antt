-- ===== src/Core/Error.antt =====
-- core/src/error.rs.
pub data WinternitzError : Type 0 where
  invalid_mnemonic invalid_length signature_error : WinternitzError
