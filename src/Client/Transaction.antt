-- ===== src/Client/Transaction.antt =====
-- client/src/transaction.rs: the compute budget, and the size of a legacy transaction.
pub mod Accounts
use winterwallet.Prelude.{
  ℕ, zero, suc, ◌+◌, ◌*◌, ◌/◌, Bool, true, false, not, ◌&&◌, ◌||◌, List, [], ◌∷◌, leb, ltb,
  if◌then◌else◌, length, Result, ok, err, ◌>>=◌, ◌>>◌, fail_if,
}
use winterwallet.Bytes.{bytes_eq, to_le_bytes, u8_max}
use winterwallet.Solana.{Address, AccountMeta, Instruction, Programs}
use winterwallet.Client.Error.{Error, transaction_too_large, unsupported_transaction}

abbrev pub legacy_transaction_size_limit : ℕ
legacy_transaction_size_limit = 1232

abbrev pub default_advance_compute_unit_limit : ℕ
default_advance_compute_unit_limit = 800000

module _ ⦃ids : Programs⦄ where
  unfoldable pub set_compute_unit_limit : ℕ → Instruction
  set_compute_unit_limit units = record {
    program_id = ids.compute_budget_id;
    accounts = [];
    data_bytes = 2 ∷ to_le_bytes 4 units;
  }

  unfoldable pub set_compute_unit_price : ℕ → Instruction
  set_compute_unit_price micro_lamports = record {
    program_id = ids.compute_budget_id;
    accounts = [];
    data_bytes = 3 ∷ to_le_bytes 8 micro_lamports;
  }

  unfoldable pub with_compute_budget : List Instruction → ℕ → ℕ → List Instruction
  with_compute_budget instructions unit_limit unit_price_micro_lamports =
      set_compute_unit_limit unit_limit
      ∷ set_compute_unit_price unit_price_micro_lamports
      ∷ instructions

pub record AccountEntry : Type 0 where
  pub pubkey : Address
  pub is_signer : Bool
  pub is_writable : Bool

unfoldable pub upsert : List AccountEntry → Address → Bool → Bool → List AccountEntry
upsert [] pubkey is_signer is_writable =
    record { pubkey = pubkey; is_signer = is_signer; is_writable = is_writable } ∷ []
upsert (existing ∷ accounts) pubkey is_signer is_writable =
    let rest = upsert accounts pubkey is_signer is_writable in
    if bytes_eq existing.pubkey pubkey
    then record existing {
      is_signer = existing.is_signer || is_signer;
      is_writable = existing.is_writable || is_writable;
    }
      ∷ accounts
    else existing ∷ rest

-- The loop over the accounts of one instruction.
unfoldable pub upsert_metas : List AccountEntry → List AccountMeta → List AccountEntry
upsert_metas accounts [] = accounts
upsert_metas accounts (meta ∷ metas) =
    upsert_metas (upsert accounts meta.pubkey meta.is_signer meta.is_writable) metas

-- The loop over the instructions.
unfoldable pub upsert_all : List AccountEntry → List Instruction → List AccountEntry
upsert_all accounts [] = accounts
upsert_all accounts (ix ∷ ixs) =
    upsert_all (upsert_metas (upsert accounts ix.program_id false false) ix.accounts) ixs

-- The sort key.
unfoldable pub rank : AccountEntry → ℕ
rank entry =
    if entry.is_signer
    then (if entry.is_writable then 0 else 1)
    else (if entry.is_writable then 2 else 3)

-- `sort_by_key`, which is stable.
unfoldable pub insert_entry : AccountEntry → List AccountEntry → List AccountEntry
insert_entry entry [] = entry ∷ []
insert_entry entry (x ∷ xs) =
    let rest = insert_entry entry xs in
    if leb (rank entry) (rank x) then entry ∷ x ∷ xs else x ∷ rest

unfoldable pub sort_entries : List AccountEntry → List AccountEntry
sort_entries [] = []
sort_entries (x ∷ xs) = insert_entry x (sort_entries xs)

unfoldable pub collect_accounts : Address → List Instruction → Result Error (List AccountEntry)
collect_accounts payer instructions =
    let accounts = sort_entries (upsert_all (upsert [] payer true true) instructions) in
    if ltb (u8_max + 1) (length accounts)
    then err (unsupported_transaction "legacy message account indexes exceed u8 range")
    else ok accounts

-- The `while` of `compact_u16_len`, with rounds for any usize.
unfoldable pub compact_loop : ℕ → ℕ → ℕ → ℕ
compact_loop zero value len = len
compact_loop (suc rounds) value len =
    let longer = compact_loop rounds (value / 128) (len + 1) in
    if leb 128 value then longer else len

unfoldable pub compact_u16_len : ℕ → ℕ
compact_u16_len value = compact_loop 9 value 1

-- `accounts.iter().all(|a| a.pubkey != key)`
unfoldable pub is_missing : Address → List AccountEntry → Bool
is_missing key [] = true
is_missing key (a ∷ accounts) = not (bytes_eq a.pubkey key) && is_missing key accounts

unfoldable pub check_metas : List AccountEntry → List AccountMeta → Result Error (Unit {0})
check_metas accounts [] = ok tt
check_metas accounts (meta ∷ metas) = do
  fail_if (is_missing meta.pubkey accounts)
      (unsupported_transaction "instruction account missing from account list")
  check_metas accounts metas

-- What one instruction adds to the size.
unfoldable pub instruction_size : Instruction → ℕ
instruction_size ix =
    1
    + compact_u16_len (length ix.accounts)
    + length ix.accounts
    + compact_u16_len (length ix.data_bytes)
    + length ix.data_bytes

-- The loop of `legacy_message_size`, from `size` on.
unfoldable pub size_loop : List AccountEntry → List Instruction → ℕ → Result Error ℕ
size_loop accounts [] size = ok size
size_loop accounts (ix ∷ ixs) size = do
  fail_if (is_missing ix.program_id accounts)
      (unsupported_transaction "instruction program id missing from account list")
  check_metas accounts ix.accounts
  size_loop accounts ixs (size + instruction_size ix)

unfoldable pub legacy_message_size : List AccountEntry → List Instruction → Result Error ℕ
legacy_message_size accounts instructions = size_loop accounts instructions (
    3
    + compact_u16_len (length accounts)
    + length accounts * 32
    + 32
    + compact_u16_len (length instructions))

-- `accounts.iter().filter(|a| a.is_signer).count()`
unfoldable pub count_signers : List AccountEntry → ℕ
count_signers [] = 0
count_signers (a ∷ accounts) = (if a.is_signer then 1 else 0) + count_signers accounts

unfoldable pub estimate_legacy_transaction_size : Address → List Instruction → Result Error ℕ
estimate_legacy_transaction_size payer instructions = do
  accounts ← collect_accounts payer instructions
  message_size ← legacy_message_size accounts instructions
  let required_signatures = count_signers accounts
  ok (compact_u16_len required_signatures + required_signatures * 64 + message_size)

unfoldable pub validate_legacy_transaction_size : Address → List Instruction → Result Error ℕ
validate_legacy_transaction_size payer instructions = do
  estimated ← estimate_legacy_transaction_size payer instructions
  fail_if (ltb legacy_transaction_size_limit estimated)
      (transaction_too_large estimated legacy_transaction_size_limit)
  ok estimated

-- The inner loop of `validate_payer_only_signers`.
unfoldable pub check_signers : Address → List AccountMeta → Result Error (Unit {0})
check_signers payer [] = ok tt
check_signers payer (meta ∷ metas) = do
  fail_if (meta.is_signer && not (bytes_eq meta.pubkey payer))
      (unsupported_transaction "transaction requires a non-payer signature")
  check_signers payer metas

unfoldable pub validate_payer_only_signers : Address → List Instruction → Result Error (Unit {0})
validate_payer_only_signers payer [] = ok tt
validate_payer_only_signers payer (ix ∷ ixs) = do
  check_signers payer ix.accounts
  validate_payer_only_signers payer ixs
