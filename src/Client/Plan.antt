-- ===== src/Client/Plan.antt =====
-- client/src/plan.rs: AdvancePlan, the payload and the account order that are signed and sent.
use winterwallet.Prelude.{ℕ, List, [], ◌∷◌, map, Result, ok, ◌>>=◌}
use winterwallet.Bytes.{Bytes}
use winterwallet.Solana.{Address, Instruction, Programs}
use winterwallet.Client.Error.{Error}
use winterwallet.Client.Instruction.{AdvancePayload, encode_advance, advance, withdraw, close}
use winterwallet.Client.Preimage.{advance_preimage}
use winterwallet.Client.Transaction.{
  with_compute_budget, default_advance_compute_unit_limit, estimate_legacy_transaction_size,
  validate_legacy_transaction_size,
}

pub record AdvancePlan : Type 0 where
  pub wallet_pda : Address
  pub new_root : Bytes
  pub payload : AdvancePayload
  pub account_addresses : List Address

-- `AdvancePlan::new`
unfoldable pub new : Address → Bytes → List Instruction → Result Error AdvancePlan
new wallet_pda new_root inner_instructions = do
  payload ← encode_advance inner_instructions
  ok (record {
    wallet_pda = wallet_pda;
    new_root = new_root;
    payload = payload;
    account_addresses = map (λ meta. meta.pubkey) payload.accounts;
  })

-- `AdvancePlan::preimage`
unfoldable pub preimage : AdvancePlan → Bytes → Bytes → List Bytes
preimage plan wallet_id current_root =
    advance_preimage wallet_id current_root plan.new_root plan.account_addresses
      plan.payload.data_bytes

module _ ⦃ids : Programs⦄ where
  -- `AdvancePlan::withdraw`
  unfoldable pub withdraw_plan : Address → Address → ℕ → Bytes → Result Error AdvancePlan
  withdraw_plan wallet_pda receiver lamports new_root =
      new wallet_pda new_root (withdraw wallet_pda receiver lamports ∷ [])

  -- `AdvancePlan::close`
  unfoldable pub close_plan : Address → Address → Bytes → Result Error AdvancePlan
  close_plan wallet_pda receiver new_root = new wallet_pda new_root (close wallet_pda receiver ∷ [])

  -- `AdvancePlan::instruction`
  unfoldable pub instruction : AdvancePlan → Bytes → Instruction
  instruction plan signature_bytes =
      advance plan.wallet_pda plan.payload.accounts signature_bytes plan.new_root
        plan.payload.data_bytes

  -- `AdvancePlan::estimate_transaction_size`
  unfoldable pub estimate_transaction_size : AdvancePlan → Address → Bytes → Result Error ℕ
  estimate_transaction_size plan payer signature_bytes = estimate_legacy_transaction_size payer (
      with_compute_budget (instruction plan signature_bytes ∷ []) default_advance_compute_unit_limit
        0)

  -- `AdvancePlan::validate_transaction_size`
  unfoldable pub validate_transaction_size : AdvancePlan → Address → Bytes → Result Error ℕ
  validate_transaction_size plan payer signature_bytes = validate_legacy_transaction_size payer (
      with_compute_budget (instruction plan signature_bytes ∷ []) default_advance_compute_unit_limit
        0)
