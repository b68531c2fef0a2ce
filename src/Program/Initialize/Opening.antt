-- ===== src/Program/Initialize/Opening.antt =====
-- program/src/instructions/initialize.rs: the account that `create_account` opens.
use winterwallet.Prelude.{
  ℕ, ◌+◌, ◌-◌, ◌≤◌, ◌<◌, ◌≡◌, ◌≢◌, refl, sym, ap, ◌∙◌, List, ◌==◌, ltb, false, ok, arith, replicate,
  Bool-cases, inl, inr,
}
use mathlib.Core.Path.{subst}
use winterwallet.Bytes.{Bytes, u64_mod}
use winterwallet.Common.{wallet_account_len}
use winterwallet.Solana.{
  Account, AccountView, Ledger, Programs, ProgramResult, Runtime, update, update_self, update_ne,
}
use winterwallet.Solana.System.{IsPlain, CanPay, Signs, SystemProgram, debit}
use winterwallet.Program.Initialize.{Initialize, top_up, claim_account, create_account}

-- The payer has paid `n` lamports, the target is `account`, and no other account has changed.
abbrev pub Paid : AccountView → AccountView → ℕ → Account → Ledger → Ledger → Type 0
Paid payer target n account l l' =
    (l' target.address ≡ account)
    × (l' payer.address ≡ record (l payer.address) { lamports = (l payer.address).lamports - n })
    × ((a : Bytes) → payer.address ≢ a → target.address ≢ a → l' a ≡ l a)

paid :
    (payer target : AccountView) (n : ℕ) (account : Account) (l : Ledger)
    → payer.address ≢ target.address
    → Paid payer target n account l (update (debit payer n l) target.address account)
paid payer target n account l ne = (
  update_self (debit payer n l) target.address account,
  update_ne (debit payer n l) target.address payer.address account (λ e. ne (sym e))
      ∙ update_self l payer.address _,
  λ a not_payer not_target.
      update_ne (debit payer n l) target.address a account not_target
      ∙ update_ne l payer.address a _ not_payer,
)

-- A further write to the target.
pub rewritten :
    (payer target : AccountView) (n : ℕ) (account next : Account) (l l' : Ledger)
    → payer.address ≢ target.address
    → Paid payer target n account l l'
    → Paid payer target n next l (update l' target.address next)
rewritten payer target n account next l l' ne (_, payer_paid, same) = (
  update_self l' target.address next,
  update_ne l' target.address payer.address next (λ e. ne (sym e)) ∙ payer_paid,
  λ a not_payer not_target.
      update_ne l' target.address a next not_target ∙ same a not_payer not_target,
)

module _ ⦃ids : Programs⦄ ⦃rt : Runtime⦄ (system : SystemProgram rt) (self : Initialize)
    (seeds : List Bytes) (l : Ledger) (rent : ℕ) (pays : CanPay self.payer self.wallet l)
    (plain : IsPlain (l self.wallet.address))
    (enough : rent - (l self.wallet.address).lamports ≤ (l self.payer.address).lamports)
    (small : rent < u64_mod) where
  abbrev missing : ℕ
  missing = rent - (l self.wallet.address).lamports

  abbrev funded : Account
  funded = record (l self.wallet.address) { lamports = (l self.wallet.address).lamports + missing }

  top_up_pays :
      (l' : Ledger) × (top_up self (l self.wallet.address).lamports rent seeds l ≡ ok l')
      × Paid self.payer self.wallet missing funded l l'
  unfolding top_up
  top_up_pays = elim (Bool-cases (ltb (l self.wallet.address).lamports rent)) [
    | inl less ↦ (
      _,
      rw less (
          system.transfers self.payer self.wallet missing seeds l pays plain.2 enough
            (ground arith)),
      paid self.payer self.wallet missing funded l pays.3,
    )
    | inr held ↦
        let x = (l self.wallet.address).lamports in
        let y = (l self.payer.address).lamports in
        let same : x ≡ x + missing = ground arith in
        let kept : y ≡ y - missing = ground arith in
        (
          l,
          rw held refl,
          (
            ap (λ n. record (l self.wallet.address) { lamports = n }) same,
            ap (λ n. record (l self.payer.address) { lamports = n }) kept,
            λ a p t. refl,
          ),
        )
  ]

  -- The wallet's account when it is open: the rent is covered, and the data are zeros.
  abbrev pub opened : Account
  opened = record {
    lamports = (l self.wallet.address).lamports + missing;
    owner = ids.winterwallet_id;
    contents = replicate wallet_account_len 0;
    borrowed = false;
  }

  abbrev pub Opens : (Ledger → ProgramResult) → Type 0
  Opens f = (l' : Ledger) × (f l ≡ ok l') × Paid self.payer self.wallet missing opened l l'

  claim_account-Opens :
      Signs rt seeds self.wallet.address
      → Opens (claim_account self (l self.wallet.address).lamports rent seeds)
  unfolding claim_account
  claim_account-Opens signs =
      let w = self.wallet.address in
      let (l1, topped, paid1) = top_up_pays in
      let here1 : l1 w ≡ funded = paid1.0 in
      let allocated : Account = record (l1 w) { contents = replicate wallet_account_len 0 } in
      let l2 = update l1 w allocated in
      let here2 : l2 w ≡ allocated = update_self l1 w allocated in
      let assigned : Account = record (l2 w) { owner = ids.winterwallet_id } in
      let paid2 = rewritten self.payer self.wallet missing funded allocated l l1 pays.3 paid1 in
      let paid3 = rewritten self.payer self.wallet missing allocated assigned l l2 pays.3 paid2 in
      let owner1 = ap (λ t. t.owner) here1 ∙ plain.0 in
      let free1 = ap (λ t. t.borrowed) here1 ∙ plain.2 in
      let done : assigned ≡ opened = λ i. record {
        lamports = (ap (λ t. t.lamports) here2 ∙ ap (λ t. t.lamports) here1) i;
        owner = ids.winterwallet_id;
        contents = ap (λ t. t.contents) here2 i;
        borrowed = (ap (λ t. t.borrowed) here2 ∙ free1) i;
      } in
      (
        update l2 w assigned,
        rw (
          topped,
          system.allocates self.wallet wallet_account_len seeds l1 pays.2 signs
              (owner1, ap (λ t. t.contents) here1 ∙ plain.1, free1) (omega arith),
          system.assigns self.wallet ids.winterwallet_id seeds l2 pays.2 signs
              (ap (λ t. t.owner) here2 ∙ owner1) (ap (λ t. t.borrowed) here2 ∙ free1),
        ),
        subst (λ x. Paid self.payer self.wallet missing x l (update l2 w assigned)) done paid3,
      )

  -- `create_account` opens the wallet's account, whether or not it holds lamports.
  pub create_account-Opens :
      Signs rt seeds self.wallet.address
      → rt.minimum_balance wallet_account_len ≡ ok rent
      → Opens (create_account self seeds)
  unfolding create_account
  create_account-Opens signs rents = elim (Bool-cases ((l self.wallet.address).lamports == 0)) [
    | inl none ↦
        let x = (l self.wallet.address).lamports in
        let empty : x ≡ 0 = ground arith in
        let all : rent ≡ missing = ground arith in
        let sum : missing ≡ x + missing = ground arith in
        let fresh : ℕ → Account = λ n. record opened { lamports = n } in
        (
          _,
          rw (
            rents,
            none,
            system.creates self.payer self.wallet rent wallet_account_len ids.winterwallet_id seeds
                l pays signs plain empty (ground arith) (omega arith),
          ),
          subst
              (λ n.
                Paid self.payer self.wallet missing (fresh n) l
                  (update (debit self.payer rent l) self.wallet.address (fresh rent)))
              (all ∙ sum)
              (subst
                (λ n.
                  Paid self.payer self.wallet n (fresh rent) l
                    (update (debit self.payer rent l) self.wallet.address (fresh rent)))
                all (paid self.payer self.wallet rent (fresh rent) l pays.3)),
        )
    | inr some ↦
        let (l', claimed, done) = claim_account-Opens signs in (l', rw (rents, some, claimed), done)
  ]
