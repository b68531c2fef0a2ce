-- ===== src/Client/Wallet.antt =====
-- client/src/wallet.rs: the life of an Advance at the client. It is planned, signed (which consumes
-- the keypair's position), persisted, and only then sent.
pub mod Signing
pub mod Planning
use winterwallet.Prelude.{
  ℕ, ◌≡◌, true, false, List, [], ◌∷◌, Bool, Option, none, some, Result, ok, err, ◌>>=◌, ◌>>◌,
  fail_if, not,
}
use mathlib.Core.Option
use winterwallet.Bytes.{Bytes, bytes_eq, to_le_bytes}
use winterwallet.Common.{winternitz_scalars}
use winterwallet.Core.Hash.{Hasher}
use winterwallet.Core.Keypair.{Hmac, WinternitzKeypair, derive, sign_and_increment}
use winterwallet.Core.Merkle.{merklize}
use winterwallet.Core.Privkey.{to_pubkey}
use winterwallet.Core.Signature
use winterwallet.Solana.{Address, Instruction, Programs, AddressFinder, writable, readonly}
use winterwallet.Client.Error.{Error, signer_position_mismatch, root_mismatch}
use winterwallet.Client.Pda.{find_wallet_address}
use winterwallet.Client.Plan
use winterwallet.Client.Plan.{AdvancePlan}
use winterwallet.Client.Position
use winterwallet.Client.Position.{SigningPosition, from_keypair, tuple, same, ensure_can_advance}
use winterwallet.Client.State.{WinterWalletAccount}
use winterwallet.Client.Transaction.{with_compute_budget, default_advance_compute_unit_limit}

-- `token_transfer`
unfoldable pub token_transfer : Address → Address → Address → ℕ → Address → Instruction
token_transfer source destination authority amount token_program = record {
  program_id = token_program;
  accounts = writable source false ∷ writable destination false ∷ readonly authority false ∷ [];
  data_bytes = 3 ∷ to_le_bytes 8 amount;
}

pub record WinterWallet : Type 0 where
  pub id : Bytes
  pub pda : Address
  pub current_root : Bytes
  pub position : SigningPosition

pub record UnsignedAdvance : Type 0 where
  pub wallet_id : Bytes
  pub current_root : Bytes
  pub position : SigningPosition
  pub plan : AdvancePlan

pub record SignedAdvance : Type 0 where
  pub wallet_id : Bytes
  pub signing_position : SigningPosition
  pub next_position : SigningPosition
  pub signature : Bytes
  pub plan : AdvancePlan

-- A value of this type is made by `persist` alone.
pub record PersistedAdvance : Type 0 where
  pub signed : SignedAdvance

module _ ⦃ids : Programs⦄ ⦃finder : AddressFinder⦄ where
  -- `WinterWallet::new`
  unfoldable pub new : Bytes → Bytes → SigningPosition → WinterWallet
  new id current_root position =
      let (pda, _) = find_wallet_address id in
      record { id = id; pda = pda; current_root = current_root; position = position }

  -- `WinterWallet::from_account`
  unfoldable pub from_account : WinterWalletAccount → SigningPosition → WinterWallet
  from_account account position = new account.id account.root position

-- The UnsignedAdvance around a plan.
unfoldable pub unsigned : WinterWallet → AdvancePlan → UnsignedAdvance
unsigned self plan = record {
  wallet_id = self.id;
  current_root = self.current_root;
  position = self.position;
  plan = plan;
}

unfoldable pub advance_plan : WinterWallet → Bytes → List Instruction → Result Error UnsignedAdvance
advance_plan self new_root inner_instructions = do
  plan ← Plan.new self.pda new_root inner_instructions
  ok (unsigned self plan)

-- `WinterWallet::transfer_plan`
unfoldable pub transfer_plan :
    WinterWallet → Address → Address → Address → ℕ → Bytes → Result Error UnsignedAdvance
transfer_plan self source destination token_program amount new_root =
    advance_plan self new_root
      (token_transfer source destination self.pda amount token_program ∷ [])

module _ ⦃ids : Programs⦄ where
  -- `WinterWallet::withdraw_plan`
  unfoldable pub withdraw_plan : WinterWallet → Address → ℕ → Bytes → Result Error UnsignedAdvance
  withdraw_plan self receiver lamports new_root = do
    plan ← Plan.withdraw_plan self.pda receiver lamports new_root
    ok (unsigned self plan)

  -- `WinterWallet::close_plan`
  unfoldable pub close_plan : WinterWallet → Address → Bytes → Result Error UnsignedAdvance
  close_plan self receiver new_root = do
    plan ← Plan.close_plan self.pda receiver new_root
    ok (unsigned self plan)

-- `UnsignedAdvance::preimage`
unfoldable pub preimage : UnsignedAdvance → List Bytes
preimage self = Plan.preimage self.plan self.wallet_id self.current_root

-- What `sign` returns once the keypair has signed and gone on.
unfoldable pub signed : UnsignedAdvance → Bytes → WinternitzKeypair → SignedAdvance
signed self signature keypair = record {
  wallet_id = self.wallet_id;
  signing_position = self.position;
  next_position = from_keypair keypair;
  signature = signature;
  plan = self.plan;
}

-- `?` in code that may panic: the rest runs where the check is passed.
abbrev pub go_on {ℓ κ} :
    {E : Type ℓ} {A : Type κ} → Result E (Unit {0}) → Option (Result E A) → Option (Result E A)
go_on (ok _) rest = rest
go_on (err e) rest = some (err e)

module _ ⦃mac : Hmac⦄ ⦃sha : Hasher⦄ where
  -- The checks of `sign`, which leave the keypair as it is.
  unfoldable pub check_signer : UnsignedAdvance → WinternitzKeypair → Result Error (Unit {0})
  check_signer self keypair = do
    let actual = from_keypair keypair
    fail_if (not (same actual self.position))
        (signer_position_mismatch (tuple self.position) (tuple actual))
    ensure_can_advance actual
    let derived_root = merklize (to_pubkey (derive winternitz_scalars keypair))
    fail_if (not (bytes_eq derived_root self.current_root)) root_mismatch
    ok tt

  -- `UnsignedAdvance::sign`: the signed operation and the keypair after it; `none` is the panic of
  -- `sign_and_increment`.
  unfoldable pub sign :
      UnsignedAdvance
      → WinternitzKeypair
      → Option (Result Error (SignedAdvance × WinternitzKeypair))
  sign self keypair = go_on (check_signer self keypair) (
      Option.map (λ (sig, kp). ok (signed self (Signature.as_bytes sig) kp, kp))
        (sign_and_increment winternitz_scalars keypair (preimage self)))

-- `persist`, with the adapter as a function from its state.
unfoldable pub persist {ℓ κ} :
    {S : Type ℓ} {E : Type κ}
    → (S → SignedAdvance → Result E S)
    → SignedAdvance
    → S
    → Result E (PersistedAdvance × S)
persist persist_signed_advance self persistence = do
  persistence ← persist_signed_advance persistence self
  ok (record { signed = self }, persistence)

-- `send`, with the adapter as a function from its state.
unfoldable pub send {ℓ κ μ} :
    {S : Type ℓ} {E : Type κ} {A : Type μ}
    → (S → PersistedAdvance → Result E (A × S))
    → PersistedAdvance
    → S
    → Result E (A × S)
send send_persisted_advance self sender = send_persisted_advance sender self

module _ ⦃ids : Programs⦄ where
  -- `PersistedAdvance::advance_instruction`
  unfoldable pub advance_instruction : PersistedAdvance → Instruction
  advance_instruction self = Plan.instruction self.signed.plan self.signed.signature

  -- `PersistedAdvance::transaction_instructions`
  unfoldable pub transaction_instructions : PersistedAdvance → ℕ → ℕ → List Instruction
  transaction_instructions self unit_limit unit_price_micro_lamports =
      with_compute_budget (advance_instruction self ∷ []) unit_limit unit_price_micro_lamports

  -- `PersistedAdvance::default_transaction_instructions`
  unfoldable pub default_transaction_instructions : PersistedAdvance → ℕ → List Instruction
  default_transaction_instructions self unit_price_micro_lamports =
      transaction_instructions self default_advance_compute_unit_limit unit_price_micro_lamports
