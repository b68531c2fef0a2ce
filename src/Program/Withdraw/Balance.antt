-- ===== src/Program/Withdraw/Balance.antt =====
-- program/src/instructions/withdraw.rs: what a Withdraw of the client does to the balances.
use winterwallet.Prelude.{
  Bool-cases, inl, inr, ℕ, ◌+◌, ◌-◌, ◌≤◌, ◌<◌, ◌≡◌, ◌≢◌, refl, sym, ap, ◌∙◌, true, false, [], ◌∷◌,
  ok, err, ◌==◌, ltb, length, arith, le→ltb, lt→ltb,
}
use mathlib.Core.Path.{subst}
use winterwallet.Bytes.{bytes_eq, bytes_eq→eq, bytes_eq_refl, Bytes, u64_mod, from-to_u64}
use winterwallet.Common.{wallet_account_len}
use winterwallet.Core.Hash.{Hasher}
use winterwallet.Solana.{
  AccountView, Ledger, Runtime, Programs, update_self, update_ne, insufficient_funds,
}
use winterwallet.Client.Instruction
use winterwallet.Program.Withdraw
use winterwallet.Program.Withdraw.{set_lamports, saturating_add}
use winterwallet.Program.Entrypoint.{dispatch, process_instruction}

-- The ledger after `amount` has gone from `source` to `target`, and nothing else.
abbrev pub Moved : AccountView → AccountView → ℕ → Ledger → Ledger → Type 0
Moved source target amount l l' =
    (l' source.address
      ≡ record (l source.address) { lamports = (l source.address).lamports - amount })
    × (l' target.address
        ≡ record (l target.address) { lamports = (l target.address).lamports + amount })
    × ((a : Bytes) → source.address ≢ a → target.address ≢ a → l' a ≡ l a)

set_lamports_self :
    (v : AccountView) (x : ℕ) (l : Ledger)
    → set_lamports v x l v.address ≡ record (l v.address) { lamports = x }
unfolding set_lamports
set_lamports_self v x l = update_self l v.address _

pub set_lamports_ne :
    (v : AccountView) (x : ℕ) (l : Ledger) (a : Bytes) → v.address ≢ a → set_lamports v x l a ≡ l a
unfolding set_lamports
set_lamports_ne v x l a ne = update_ne l v.address a _ ne

-- The two writes of `execute` move the amount.
moves :
    (source target : AccountView) (amount : ℕ) (l : Ledger)
    → source.address ≢ target.address
    → (l target.address).lamports + amount < u64_mod
    → (let l1 = set_lamports source ((l source.address).lamports - amount) l in
        Moved source target amount l
          (set_lamports target (saturating_add (l1 target.address).lamports amount) l1))
moves source target amount l ne room =
    let l1 = set_lamports source ((l source.address).lamports - amount) l in
    let kept = set_lamports_ne source ((l source.address).lamports - amount) l target.address ne in
    let x = saturating_add (l1 target.address).lamports amount in
    let sum : x ≡ (l target.address).lamports + amount = omega (arith, ap (λ a. a.lamports) kept) in
    (
      set_lamports_ne target x l1 source.address (λ e. ne (sym e)) ∙ set_lamports_self source _ l,
      set_lamports_self target x l1 ∙ rw (sum, kept),
      λ a not_source not_target.
          set_lamports_ne target x l1 a not_target ∙ set_lamports_ne source _ l a not_source,
    )

-- With one address for both, the two writes give back the balance.
returns :
    (source target : AccountView) (amount : ℕ) (l : Ledger)
    → source.address ≡ target.address
    → amount ≤ (l source.address).lamports
    → (l source.address).lamports < u64_mod
    → (let l1 = set_lamports source ((l source.address).lamports - amount) l in
        let l2 = set_lamports target (saturating_add (l1 target.address).lamports amount) l1 in
        (a : Bytes) → l2 a ≡ l a)
returns source target amount l same enough small a =
    let before = (l source.address).lamports in
    let l1 = set_lamports source (before - amount) l in
    let x = saturating_add (l1 target.address).lamports amount in
    let here : l1 target.address ≡ record (l target.address) { lamports = before - amount } =
      rw (sym same) (set_lamports_self source (before - amount) l) in
    let back : x ≡ (l target.address).lamports =
      omega (arith, ap (λ t. t.lamports) here, ap (λ t. (l t).lamports) same) in
    elim (Bool-cases (bytes_eq target.address a)) [
      | inl b ↦
          let at : target.address ≡ a = bytes_eq→eq target.address a b in
          subst (λ t. set_lamports target x l1 t ≡ l t) at
            (set_lamports_self target x l1 ∙ rw (back, here))
      | inr b ↦
          let ne : target.address ≢ a = λ e. cc (rw (e, bytes_eq_refl a) at b) in
          set_lamports_ne target x l1 a ne
          ∙ set_lamports_ne source (before - amount) l a (λ e. ne (sym same ∙ e))
    ]

module _ ⦃sha : Hasher⦄ ⦃ids : Programs⦄ ⦃rt : Runtime⦄ where
  -- A client's Withdraw of a u64 amount to another account, signed by a wallet that has data,
  -- where the amount and the rent are within the balance and the receiver's balance stays a u64,
  -- succeeds, takes the amount from the wallet, adds it to the receiver, and changes nothing else.
  pub withdraw_moves :
      (wallet receiver : AccountView) (amount rent : ℕ) (l : Ledger)
      → wallet.is_signer ≡ true
      → wallet.address ≢ receiver.address
      → 0 < length (l wallet.address).contents
      → rt.minimum_balance wallet_account_len ≡ ok rent
      → amount < u64_mod
      → amount + rent ≤ (l wallet.address).lamports
      → (l receiver.address).lamports + amount < u64_mod
      → (l' : Ledger) × (process_instruction
            (wallet ∷ receiver ∷ [])
            (Instruction.withdraw wallet.address receiver.address amount).data_bytes
            l
          ≡ ok l')
        × Moved wallet receiver amount l l'
  unfolding process_instruction dispatch Withdraw.process Withdraw.try_from Withdraw.execute
      Instruction.withdraw
  withdraw_moves wallet receiver amount rent l signs ne held rent_is small enough room =
      let some_data : (length (l wallet.address).contents == 0) ≡ false = ground arith in
      let left : ltb ((l wallet.address).lamports - amount) rent ≡ false =
        le→ltb _ _ (omega arith) in
      (
        _,
        rw (signs, some_data, from-to_u64 amount small, rent_is, left) refl,
        moves wallet receiver amount l ne room,
      )

  -- A client's Withdraw of a u64 amount, signed by a wallet that has data, is refused for
  -- insufficient funds where the balance is less than the amount and a positive rent together.
  pub withdraw_refused :
      (wallet receiver : AccountView) (amount rent : ℕ) (l : Ledger)
      → wallet.is_signer ≡ true
      → 0 < length (l wallet.address).contents
      → rt.minimum_balance wallet_account_len ≡ ok rent
      → amount < u64_mod
      → 0 < rent
      → (l wallet.address).lamports < amount + rent
      → process_instruction
          (wallet ∷ receiver ∷ [])
          (Instruction.withdraw wallet.address receiver.address amount).data_bytes
          l
        ≡ err insufficient_funds
  unfolding process_instruction dispatch Withdraw.process Withdraw.try_from Withdraw.execute
      Instruction.withdraw
  withdraw_refused wallet receiver amount rent l signs held rent_is small positive short =
      let some_data : (length (l wallet.address).contents == 0) ≡ false = ground arith in
      let left : ltb ((l wallet.address).lamports - amount) rent ≡ true =
        lt→ltb _ _ (omega arith) in
      rw (signs, some_data, from-to_u64 amount small, rent_is, left)

  -- A client's Withdraw of a u64 amount from a wallet with data and a u64 balance to its own
  -- address, signed by the wallet, where the amount and the rent are within the balance, succeeds
  -- and changes no account.
  pub withdraw_to_self :
      (wallet receiver : AccountView) (amount rent : ℕ) (l : Ledger)
      → wallet.is_signer ≡ true
      → wallet.address ≡ receiver.address
      → 0 < length (l wallet.address).contents
      → rt.minimum_balance wallet_account_len ≡ ok rent
      → amount < u64_mod
      → amount + rent ≤ (l wallet.address).lamports
      → (l wallet.address).lamports < u64_mod
      → (l' : Ledger) × (process_instruction
            (wallet ∷ receiver ∷ [])
            (Instruction.withdraw wallet.address receiver.address amount).data_bytes
            l
          ≡ ok l')
        × ((a : Bytes) → l' a ≡ l a)
  unfolding process_instruction dispatch Withdraw.process Withdraw.try_from Withdraw.execute
      Instruction.withdraw
  withdraw_to_self wallet receiver amount rent l signs same held rent_is small enough room =
      let some_data : (length (l wallet.address).contents == 0) ≡ false = ground arith in
      let left : ltb ((l wallet.address).lamports - amount) rent ≡ false =
        le→ltb _ _ (omega arith) in
      (
        _,
        rw (signs, some_data, from-to_u64 amount small, rent_is, left) refl,
        returns wallet receiver amount l same (omega arith) room,
      )
