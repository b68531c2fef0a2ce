-- ===== src/Program/Close.antt =====
-- program/src/instructions/close.rs: the Close instruction.
pub mod Sweep
use winterwallet.Prelude.{
  ℕ, ◌+◌, ◌≡◌, List, [], ◌∷◌, ◌==◌, ltb, length, Result, ok, err, ◌>>=◌, ◌>>◌, fail_if, not,
}
use winterwallet.Bytes.{Bytes, bytes_eq}
use winterwallet.Solana.{
  Account, AccountView, Ledger, Runtime, ProgramError, ProgramResult, missing_required_signature,
  invalid_account_data, invalid_instruction_data,
}
use winterwallet.Program.Withdraw.{two_accounts, saturating_add, set_lamports}

pub record Close : Type 0 where
  pub wallet : AccountView
  pub receiver : AccountView

-- `TryFrom<(accounts, instruction_data)>`
unfoldable pub try_from : List AccountView → Bytes → Ledger → Result ProgramError Close
try_from inputs input ledger = do
  (wallet, receiver) ← two_accounts inputs
  fail_if (not wallet.is_signer) missing_required_signature
  fail_if (bytes_eq wallet.address receiver.address) invalid_account_data
  let account = ledger wallet.address
  fail_if (length account.contents == 0) invalid_account_data
  fail_if (ltb 0 (length input)) invalid_instruction_data
  ok (record { wallet = wallet; receiver = receiver })

module _ ⦃rt : Runtime⦄ where
  -- `execute`
  unfoldable pub execute : Close → Ledger → ProgramResult
  execute self ledger =
      let wallet = ledger self.wallet.address in
      let receiver = ledger self.receiver.address in
      rt.close_account self.wallet
        (set_lamports self.receiver (saturating_add receiver.lamports wallet.lamports) ledger)

  -- `process`
  unfoldable pub process : List AccountView → Bytes → Ledger → ProgramResult
  process accounts instruction_data ledger = do
    self ← try_from accounts instruction_data ledger
    execute self ledger
