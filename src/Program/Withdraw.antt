-- ===== src/Program/Withdraw.antt =====
-- program/src/instructions/withdraw.rs: the Withdraw instruction.
pub mod Balance
pub mod Data
use winterwallet.Prelude.{
  ℕ, ◌+◌, ◌-◌, ◌^◌, ◌≡◌, List, [], ◌∷◌, ◌==◌, ltb, length, Result, ok, err, ◌>>=◌, ◌>>◌, fail_if,
  not, min,
}
use winterwallet.Bytes.{Bytes, from_le_bytes, u64_mod}
use winterwallet.Common.{wallet_account_len}
use winterwallet.Solana.{
  Account, AccountView, Ledger, Runtime, update, ProgramError, ProgramResult,
  not_enough_account_keys, missing_required_signature, invalid_account_data,
  invalid_instruction_data, insufficient_funds,
}

pub record Withdraw : Type 0 where
  pub wallet : AccountView
  pub receiver : AccountView
  pub lamports : ℕ

-- `let [a, b] = inputs.0 else ..`
abbrev pub two_accounts : List AccountView → Result ProgramError (AccountView × AccountView)
two_accounts [] = err not_enough_account_keys
two_accounts (a ∷ []) = err not_enough_account_keys
two_accounts (a ∷ b ∷ []) = ok (a, b)
two_accounts (a ∷ b ∷ c ∷ r) = err not_enough_account_keys

-- `u64::saturating_add`; `saturating_sub` is the subtraction of ℕ.
abbrev pub saturating_add : ℕ → ℕ → ℕ
saturating_add a b = min (a + b) (u64_mod - 1)

-- `set_lamports`
unfoldable pub set_lamports : AccountView → ℕ → Ledger → Ledger
set_lamports view lamports ledger =
    let account = ledger view.address in
    update ledger view.address (record account { lamports = lamports })

-- `TryFrom<(accounts, instruction_data)>`
unfoldable pub try_from : List AccountView → Bytes → Ledger → Result ProgramError Withdraw
try_from inputs input ledger = do
  (wallet, receiver) ← two_accounts inputs
  fail_if (not wallet.is_signer) missing_required_signature
  let account = ledger wallet.address
  fail_if (length account.contents == 0) invalid_account_data
  fail_if (not (length input == 8)) invalid_instruction_data
  ok (record { wallet = wallet; receiver = receiver; lamports = from_le_bytes input })

module _ ⦃rt : Runtime⦄ where
  -- `execute`
  unfoldable pub execute : Withdraw → Ledger → ProgramResult
  execute self ledger = do
    let account = ledger self.wallet.address
    let balance = account.lamports
    rent_exempt_lamports ← rt.minimum_balance wallet_account_len
    fail_if (ltb (balance - self.lamports) rent_exempt_lamports) insufficient_funds
    let ledger = set_lamports self.wallet (balance - self.lamports) ledger
    let receiver = ledger self.receiver.address
    ok (set_lamports self.receiver (saturating_add receiver.lamports self.lamports) ledger)

  -- `process`
  unfoldable pub process : List AccountView → Bytes → Ledger → ProgramResult
  process accounts instruction_data ledger = do
    self ← try_from accounts instruction_data ledger
    execute self ledger
