-- ===== src/Client/Wallet/Planning.antt =====
-- client/src/wallet.rs: a plan keeps the wallet's id and position.
use winterwallet.Prelude.{ℕ, ◌≡◌, sym, ap, Result, ok, >>=-eq-ok, ok_injective}
use winterwallet.Bytes.{Bytes}
use winterwallet.Solana.{Address, Programs, AddressFinder}
use winterwallet.Client.Error.{Error}
use winterwallet.Client.Plan
use winterwallet.Client.Wallet.{
  WinterWallet, UnsignedAdvance, unsigned, withdraw_plan, close_plan, transfer_plan, advance_plan,
  token_transfer,
}
use winterwallet.Prelude.{[], ◌∷◌}

-- The plan is for this wallet at its position.
abbrev pub IsFor : WinterWallet → UnsignedAdvance → Type 0
IsFor self u = (u.wallet_id ≡ self.id) × (u.position ≡ self.position)

IsFor-unsigned :
    (self : WinterWallet) (plan : Plan.AdvancePlan) (u : UnsignedAdvance)
    → ◌≡◌ {A = Result Error UnsignedAdvance} (ok (unsigned self plan)) (ok u)
    → IsFor self u
unfolding unsigned
IsFor-unsigned self plan u h =
    let e = ok_injective h in
    (
      sym (ap (λ (v : UnsignedAdvance). v.wallet_id) e),
      sym (ap (λ (v : UnsignedAdvance). v.position) e),
    )

module _ ⦃ids : Programs⦄ where
  pub withdraw_plan-IsFor :
      (self : WinterWallet) (receiver : Address) (lamports : ℕ) (root : Bytes) (u : UnsignedAdvance)
      → withdraw_plan self receiver lamports root ≡ ok u
      → IsFor self u
  unfolding withdraw_plan
  withdraw_plan-IsFor self receiver lamports root u h =
      let (plan, _, e) = >>=-eq-ok (Plan.withdraw_plan self.pda receiver lamports root) _ h in
      IsFor-unsigned self plan u e

  pub close_plan-IsFor :
      (self : WinterWallet) (receiver : Address) (root : Bytes) (u : UnsignedAdvance)
      → close_plan self receiver root ≡ ok u
      → IsFor self u
  unfolding close_plan
  close_plan-IsFor self receiver root u h =
      let (plan, _, e) = >>=-eq-ok (Plan.close_plan self.pda receiver root) _ h in
      IsFor-unsigned self plan u e

pub transfer_plan-IsFor :
    ⦃ids : Programs⦄
    → ⦃finder : AddressFinder⦄
    → (self : WinterWallet) (source destination token_program : Address) (amount : ℕ) (root : Bytes)
      (u : UnsignedAdvance)
    → transfer_plan self source destination token_program amount root ≡ ok u
    → IsFor self u
unfolding transfer_plan advance_plan
transfer_plan-IsFor self source destination token_program amount root u h =
    let inner = token_transfer source destination self.pda amount token_program ∷ [] in
    let (plan, _, e) = >>=-eq-ok (Plan.new self.pda root inner) _ h in IsFor-unsigned self plan u e
