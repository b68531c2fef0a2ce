-- ===== src/Program/Initialize.antt =====
-- program/src/instructions/initialize.rs: the Initialize instruction.
pub mod Opening
use winterwallet.Prelude.{
  ℕ, ◌-◌, ◌*◌, List, [], ◌∷◌, ◌==◌, ltb, length, Result, ok, err, ◌>>=◌, ◌>>◌, fail_if, ok_or,
  map_err, not, if◌then◌else◌,
}
use winterwallet.Bytes.{Bytes, bytes_eq, split_first_chunk}
use winterwallet.Common.{
  winternitz_scalars, winterwallet_initialize, winterwallet_seed, wallet_account_len,
}
use winterwallet.Core.Hash.{Hasher}
use winterwallet.Core.Merkle.{merklize}
use winterwallet.Core.Signature
use winterwallet.Core.Signature.{WinternitzSignature, recover_pubkey}
use winterwallet.Solana.{
  AccountView, Ledger, Runtime, Programs, ProgramError, ProgramResult, not_enough_account_keys,
  invalid_account_owner, invalid_instruction_data, invalid_seeds,
}
use winterwallet.Program.State

pub record Initialize : Type 0 where
  pub payer : AccountView
  pub wallet : AccountView
  pub signature : WinternitzSignature
  pub root : Bytes

-- `let [payer, wallet, _system_program] = inputs.0 else ..`
abbrev pub three_accounts : List AccountView → Result ProgramError (AccountView × AccountView)
three_accounts (payer ∷ wallet ∷ system_program ∷ []) = ok (payer, wallet)
three_accounts _ = err not_enough_account_keys

module _ ⦃ids : Programs⦄ where
  -- `TryFrom<(accounts, instruction_data)>`
  unfoldable pub try_from : List AccountView → Bytes → Ledger → Result ProgramError Initialize
  try_from inputs input ledger = do
    (payer, wallet) ← three_accounts inputs
    let account = ledger wallet.address
    fail_if (not (bytes_eq account.owner ids.system_id)) invalid_account_owner
    (sig_bytes, root_bytes) ← ok_or (split_first_chunk (32 * 24) input) invalid_instruction_data
    signature ←
        map_err (λ _. invalid_instruction_data) (Signature.try_from winternitz_scalars sig_bytes)
    fail_if (not (length root_bytes == 32)) invalid_instruction_data
    ok (record { payer = payer; wallet = wallet; signature = signature; root = root_bytes })

module _ ⦃sha : Hasher⦄ where
  unfoldable pub recover_initialize_id : Initialize → Bytes
  recover_initialize_id self =
      merklize (recover_pubkey winternitz_scalars self.signature (winterwallet_initialize ∷ []))

module _ ⦃ids : Programs⦄ ⦃rt : Runtime⦄ where
  -- The rest of the rent, where the account does not hold it already.
  unfoldable pub top_up : Initialize → ℕ → ℕ → List Bytes → Ledger → ProgramResult
  top_up self lamports rent_exempt_lamports seeds ledger =
      if ltb lamports rent_exempt_lamports
      then rt.transfer self.payer self.wallet (rent_exempt_lamports - lamports) seeds ledger
      else ok ledger

  -- `create_account` for an address that holds lamports already.
  unfoldable pub claim_account : Initialize → ℕ → ℕ → List Bytes → Ledger → ProgramResult
  claim_account self lamports rent_exempt_lamports seeds ledger = do
    ledger ← top_up self lamports rent_exempt_lamports seeds ledger
    ledger ← rt.allocate self.wallet wallet_account_len seeds ledger
    rt.assign self.wallet ids.winterwallet_id seeds ledger

  unfoldable pub create_account : Initialize → List Bytes → Ledger → ProgramResult
  create_account self seeds ledger = do
    let account = ledger self.wallet.address
    let lamports = account.lamports
    rent_exempt_lamports ← rt.minimum_balance wallet_account_len
    if lamports == 0
        then rt.create_account self.payer self.wallet rent_exempt_lamports wallet_account_len
            ids.winterwallet_id seeds ledger
        else claim_account self lamports rent_exempt_lamports seeds ledger

module _ ⦃sha : Hasher⦄ ⦃ids : Programs⦄ ⦃rt : Runtime⦄ where
  -- `execute`
  unfoldable pub execute : Initialize → Ledger → ProgramResult
  execute self ledger = do
    let id = recover_initialize_id self
    (wallet_address, bump) ←
        ok_or (rt.derive_program_address (winterwallet_seed ∷ id ∷ []) ids.winterwallet_id)
          invalid_seeds
    fail_if (not (bytes_eq wallet_address self.wallet.address)) invalid_seeds
    ledger ← create_account self (winterwallet_seed ∷ id ∷ (bump ∷ []) ∷ []) ledger
    State.initialize self.wallet id self.root bump ledger

  -- `process`
  unfoldable pub process : List AccountView → Bytes → Ledger → ProgramResult
  process accounts instruction_data ledger = do
    self ← try_from accounts instruction_data ledger
    execute self ledger
