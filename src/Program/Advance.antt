-- ===== src/Program/Advance.antt =====
-- program/src/instructions/advance.rs: the Advance instruction.
pub mod Authorised
pub mod Calls
pub mod Rotation
use winterwallet.Prelude.{
  ℕ, zero, suc, ◌+◌, ◌-◌, ◌≡◌, refl, List, [], ◌∷◌, ◌++◌, map, arith, ◌==◌, ltb, length, take, drop,
  get_elem?, Result, ok, err, ◌>>=◌, ◌>>◌, fail_if, ok_or, map_err, not, ◌||◌, Bool, if◌then◌else◌,
  Option, some, none,
}
use winterwallet.Bytes.{Bytes, bytes_eq, split_first, split_first_chunk, from_le_bytes, u64_mod}
use winterwallet.Common.{
  winternitz_scalars, signature_len, max_passthrough_accounts, max_cpi_instruction_accounts,
  winterwallet_advance, winterwallet_seed,
}
use winterwallet.Core.Hash.{Hasher}
use winterwallet.Core.Signature
use winterwallet.Core.Signature.{WinternitzSignature}
use winterwallet.Core.Verify.{verify}
use winterwallet.Solana.{
  Account, AccountView, InstructionAccount, InstructionView, Ledger, Runtime, ProgramError,
  ProgramResult, invalid_argument, invalid_instruction_data, incorrect_program_id,
  missing_required_signature, not_enough_account_keys, panic, of_view,
}
use winterwallet.Program.State
use winterwallet.Program.State.{WinterWallet}

pub record Advance : Type 0 where
  pub wallet : AccountView
  pub accounts : List AccountView
  pub signature : WinternitzSignature
  pub root : Bytes
  pub payload : Bytes

-- `let [wallet, accounts @ ..] = inputs.0 else ..`
abbrev pub split_wallet : List AccountView → Result ProgramError (AccountView × List AccountView)
split_wallet [] = err not_enough_account_keys
split_wallet (wallet ∷ accounts) = ok (wallet, accounts)

-- `TryFrom<(accounts, instruction_data)>`
unfoldable pub try_from : List AccountView → Bytes → Result ProgramError Advance
try_from inputs input = do
  (wallet, accounts) ← split_wallet inputs
  (sig_bytes, rest) ← ok_or (split_first_chunk signature_len input) invalid_instruction_data
  signature ←
      map_err (λ _. invalid_instruction_data) (Signature.try_from winternitz_scalars sig_bytes)
  (root, payload) ← ok_or (split_first_chunk 32 rest) invalid_instruction_data
  ok (record {
    wallet = wallet;
    accounts = accounts;
    signature = signature;
    root = root;
    payload = payload;
  })

-- `read_u8` and `read_u16`: the value and the payload after it.
unfoldable pub read_u8 : Bytes → Result ProgramError (ℕ × Bytes)
read_u8 payload = ok_or (split_first payload) invalid_instruction_data

unfoldable pub read_u16 : Bytes → Result ProgramError (ℕ × Bytes)
read_u16 payload = do
  (chunk, rest) ← ok_or (split_first_chunk 2 payload) invalid_instruction_data
  ok (from_le_bytes chunk, rest)

-- The preimage parts of `verify_signature`: tag, id, current root, new root, addresses, payload.
unfoldable pub preimage_parts : Advance → Bytes → Bytes → List Bytes
preimage_parts self id current_root =
    winterwallet_advance
    ∷ id
    ∷ current_root
    ∷ self.root
    ∷ (map (λ acc. acc.address) self.accounts ++ (self.payload ∷ []))

-- `invoke_next` promotes the wallet to a signer.
unfoldable pub promote : Bytes → AccountView → InstructionAccount
promote wallet_address view =
    let meta = of_view view in
    if bytes_eq view.address wallet_address then record meta { is_signer = Bool.true } else meta

module _ ⦃sha : Hasher⦄ where
  unfoldable pub verify_signature : Advance → Bytes → Bytes → Result ProgramError (Unit {0})
  verify_signature self id current_root = do
    fail_if (ltb max_passthrough_accounts (length self.accounts)) invalid_argument
    fail_if
        (not (
          verify winternitz_scalars self.signature (preimage_parts self id current_root)
            current_root))
        missing_required_signature
    ok tt

-- What `invoke_next` decodes and checks: the call, its accounts, the payload and the cursor after it.
unfoldable pub decode_next :
    List AccountView
    → Bytes
    → Bytes
    → ℕ
    → Result ProgramError (InstructionView × List AccountView × Bytes × ℕ)
decode_next remaining wallet_address payload cursor = do
  (num_accounts, payload) ← read_u8 payload
  (data_len, payload) ← read_u16 payload
  fail_if (ltb max_cpi_instruction_accounts num_accounts || ltb (length payload) data_len)
      invalid_instruction_data
  let data_bytes = take data_len payload
  let payload = drop data_len payload
  let end = cursor + (1 + num_accounts)
  fail_if (not (ltb end u64_mod)) invalid_instruction_data
  fail_if (ltb (length remaining) end) not_enough_account_keys
  program_view ← ok_or (get_elem? remaining cursor) panic
  fail_if (not program_view.executable) incorrect_program_id
  let account_views = take num_accounts (drop (cursor + 1) remaining)
  let instruction : InstructionView = record {
    program_id = program_view.address;
    accounts = map (promote wallet_address) account_views;
    data_bytes = data_bytes;
  }
  ok (instruction, account_views, payload, end)

module _ ⦃rt : Runtime⦄ where
  -- `invoke_next`: the payload, the cursor and the ledger after it.
  unfoldable pub invoke_next :
      List AccountView
      → List Bytes
      → Bytes
      → Bytes
      → ℕ
      → Ledger
      → Result ProgramError (Bytes × ℕ × Ledger)
  invoke_next remaining seeds wallet_address payload cursor ledger = do
    (instruction, account_views, payload, end) ← decode_next remaining wallet_address payload cursor
    ledger ← rt.invoke_signed instruction account_views seeds ledger
    ok (payload, end, ledger)

  -- `for _ in 0..num_instructions`
  unfoldable pub invoke_loop :
      ℕ
      → List AccountView
      → List Bytes
      → Bytes
      → Bytes
      → ℕ
      → Ledger
      → Result ProgramError (Bytes × ℕ × Ledger)
  invoke_loop zero remaining seeds wallet_address payload cursor ledger =
      ok (payload, cursor, ledger)
  invoke_loop (suc rounds) remaining seeds wallet_address payload cursor ledger = do
    (payload, cursor, ledger) ← invoke_next remaining seeds wallet_address payload cursor ledger
    invoke_loop rounds remaining seeds wallet_address payload cursor ledger

  -- The end of `execute`, from the decoding of the payload on.
  unfoldable pub replay : List AccountView → List Bytes → Bytes → Bytes → Ledger → ProgramResult
  replay accounts seeds wallet_address payload ledger = do
    (num_instructions, payload) ← read_u8 payload
    (payload, cursor, ledger) ←
        invoke_loop num_instructions accounts seeds wallet_address payload 0 ledger
    fail_if (ltb 0 (length payload) || not (cursor == length accounts)) invalid_instruction_data
    ok ledger

module _ ⦃sha : Hasher⦄ ⦃rt : Runtime⦄ where
  -- `execute`
  unfoldable pub execute : Advance → Ledger → ProgramResult
  execute self ledger = do
    wallet_account ← State.try_from self.wallet ledger
    let current_root = wallet_account.root
    let ledger = State.write self.wallet (record wallet_account { root = self.root }) ledger
    verify_signature self wallet_account.id current_root
    replay self.accounts (winterwallet_seed ∷ wallet_account.id ∷ wallet_account.bump ∷ [])
        self.wallet.address self.payload ledger

  -- `process`
  unfoldable pub process : List AccountView → Bytes → Ledger → ProgramResult
  process accounts instruction_data ledger = do
    self ← try_from accounts instruction_data
    execute self ledger
