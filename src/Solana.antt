-- ===== src/Solana.antt =====
-- The types and services of Solana that the program and the clients are written against (the crates
-- solana_address, solana_instruction, pinocchio and pinocchio_system). The types are records; the
-- services are interfaces, and what a theorem relies on of them is among its hypotheses.
pub mod System
use winterwallet.Prelude.{
  ℕ, ◌≡◌, Bool, true, false, List, Option, Result, if◌then◌else◌, Bool-cases, inl, inr, ◌≢◌,
}
use winterwallet.Bytes.{Bytes, bytes_eq, bytes_eq→eq, bytes_eq_refl}

-- 32 bytes
abbrev pub Address : Type 0
Address = Bytes

-- solana_instruction
pub record AccountMeta : Type 0 where
  pub pubkey : Address
  pub is_signer : Bool
  pub is_writable : Bool

pub record Instruction : Type 0 where
  pub program_id : Address
  pub accounts : List AccountMeta
  pub data_bytes : Bytes

-- `AccountMeta::new` and `AccountMeta::new_readonly`
abbrev pub writable : Address → Bool → AccountMeta
writable pubkey is_signer = record { pubkey = pubkey; is_signer = is_signer; is_writable = true }

abbrev pub readonly : Address → Bool → AccountMeta
readonly pubkey is_signer = record { pubkey = pubkey; is_signer = is_signer; is_writable = false }

-- pinocchio::error::ProgramError; `custom` stands for what other programs return, and `panic` for a
-- Rust panic, which aborts the program.
pub data ProgramError : Type 0 where
  invalid_argument invalid_instruction_data invalid_account_data insufficient_funds : ProgramError
  incorrect_program_id missing_required_signature not_enough_account_keys : ProgramError
  account_borrow_failed invalid_seeds invalid_account_owner panic : ProgramError
  custom : ℕ → ProgramError

-- What the ledger holds at an address. `borrowed` is the run-time flag of a RefMut that is alive.
pub record Account : Type 0 where
  pub lamports : ℕ
  pub owner : Address
  pub contents : Bytes
  pub borrowed : Bool

abbrev pub Ledger : Type 0
Ledger = Address → Account

-- Views of one address share the account, also where it is passed twice.
unfoldable pub update : Ledger → Address → Account → Ledger
update ledger a account b = if bytes_eq a b then account else ledger b

-- pinocchio::AccountView: what an instruction's account list says of an account.
pub record AccountView : Type 0 where
  pub address : Address
  pub is_signer : Bool
  pub is_writable : Bool
  pub executable : Bool

-- pinocchio::instruction; `InstructionAccount::from(view)` copies the view's flags.
pub record InstructionAccount : Type 0 where
  pub address : Address
  pub is_signer : Bool
  pub is_writable : Bool

abbrev pub of_view : AccountView → InstructionAccount
of_view v = record { address = v.address; is_signer = v.is_signer; is_writable = v.is_writable }

pub record InstructionView : Type 0 where
  pub program_id : Address
  pub accounts : List InstructionAccount
  pub data_bytes : Bytes

-- The addresses that `declare_id!` and the libraries fix.
pub record Programs : Type 0 where
  pub winterwallet_id : Address
  pub system_id : Address
  pub compute_budget_id : Address

-- `Address::find_program_address`, by the seeds and the program.
pub record AddressFinder : Type 0 where
  pub find_program_address : List Bytes → Address → Address × ℕ

abbrev pub ProgramResult : Type 0
ProgramResult = Result ProgramError Ledger

-- What the program calls. A signer is the list of its seeds. Each call returns the ledger after it.
pub record Runtime : Type 0 where
  -- `invoke_signed_with_bounds::<16, _>`
  pub invoke_signed : InstructionView → List AccountView → List Bytes → Ledger → ProgramResult
  -- `Rent::get()?.try_minimum_balance(len)`
  pub minimum_balance : ℕ → Result ProgramError ℕ
  -- `Address::derive_program_address`
  pub derive_program_address : List Bytes → Address → Option (Address × ℕ)
  -- The system program's CreateAccount (from, to, lamports, space, owner), Transfer (from, to,
  -- lamports), Allocate (account, space) and Assign (account, owner), signed by the seeds.
  pub create_account :
      AccountView → AccountView → ℕ → ℕ → Address → List Bytes → Ledger → ProgramResult
  pub transfer : AccountView → AccountView → ℕ → List Bytes → Ledger → ProgramResult
  pub allocate : AccountView → ℕ → List Bytes → Ledger → ProgramResult
  pub assign : AccountView → Address → List Bytes → Ledger → ProgramResult
  -- `AccountView::close`
  pub close_account : AccountView → Ledger → ProgramResult

pub update_self : (l : Ledger) (a : Address) (x : Account) → update l a x a ≡ x
unfolding update
update_self l a x = rw (bytes_eq_refl a)

pub update_ne : (l : Ledger) (a b : Address) (x : Account) → a ≢ b → update l a x b ≡ l b
unfolding update
update_ne l a b x ne = elim (Bool-cases (bytes_eq a b)) [
  | inl e ↦ absurd (ne (bytes_eq→eq a b e))
  | inr e ↦ rw e
]
