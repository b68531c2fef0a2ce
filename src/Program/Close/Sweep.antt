-- ===== src/Program/Close/Sweep.antt =====
-- program/src/instructions/close.rs: what a Close of the client does to the accounts.
use winterwallet.Prelude.{
  ◌+◌, ◌<◌, ◌≡◌, ◌≢◌, sym, ap, ◌∙◌, true, false, [], ◌∷◌, ok, ◌==◌, length, arith, Bool-cases, inl,
  inr,
}
use winterwallet.Bytes.{Bytes, u64_mod, bytes_eq, bytes_eq→eq}
use winterwallet.Core.Hash.{Hasher}
use winterwallet.Solana.{
  Account, AccountView, Ledger, Runtime, Programs, update, update_self, update_ne,
}
use winterwallet.Client.Instruction
use winterwallet.Program.Close
use winterwallet.Program.Withdraw.{set_lamports, saturating_add}
use winterwallet.Program.Withdraw.Balance.{set_lamports_ne}
use winterwallet.Program.Entrypoint.{dispatch, process_instruction}

module _ ⦃ids : Programs⦄ where
  -- An account that does not exist: no lamports, no data, and the system program's.
  abbrev pub vacant : Account
  vacant = record { lamports = 0; owner = ids.system_id; contents = []; borrowed = false }

  -- What pinocchio documents of `AccountView::close` where the account is not borrowed.
  abbrev pub Closes : Runtime → AccountView → Type 0
  Closes rt view =
      (l : Ledger)
      → (l view.address).borrowed ≡ false
      → rt.close_account view l ≡ ok (update l view.address vacant)

  -- The ledger after all of `source` has gone to `target`, and nothing else.
  abbrev pub Swept : AccountView → AccountView → Ledger → Ledger → Type 0
  Swept source target l l' =
      (l' source.address ≡ vacant)
      × (l' target.address ≡ record (l target.address) {
        lamports = (l target.address).lamports + (l source.address).lamports;
      })
      × ((a : Bytes) → source.address ≢ a → target.address ≢ a → l' a ≡ l a)

  sweeps :
      (source target : AccountView) (l : Ledger)
      → source.address ≢ target.address
      → (l target.address).lamports + (l source.address).lamports < u64_mod
      → Swept source target l (
          update
            (set_lamports target
              (saturating_add (l target.address).lamports (l source.address).lamports)
              l)
            source.address
            vacant)
  unfolding set_lamports
  sweeps source target l ne room =
      let x = saturating_add (l target.address).lamports (l source.address).lamports in
      let sum : x ≡ (l target.address).lamports + (l source.address).lamports = omega arith in
      let paid = set_lamports target x l in
      (
        update_self paid source.address vacant,
        update_ne paid source.address target.address vacant ne
            ∙ update_self l target.address _
            ∙ rw sum,
        λ a not_source not_target.
            update_ne paid source.address a vacant not_source
            ∙ update_ne l target.address a _ not_target,
      )

module _ ⦃sha : Hasher⦄ ⦃ids : Programs⦄ ⦃rt : Runtime⦄ where
  -- If closing the wallet's account, where it is unborrowed, leaves it vacant, a client's Close,
  -- signed by an unborrowed wallet that has data, to another account whose balance stays a u64,
  -- succeeds, gives all the wallet's lamports to the receiver, leaves the wallet's account vacant,
  -- and changes nothing else.
  pub close_sweeps :
      (wallet receiver : AccountView) (l : Ledger)
      → Closes rt wallet
      → (l wallet.address).borrowed ≡ false
      → wallet.is_signer ≡ true
      → wallet.address ≢ receiver.address
      → 0 < length (l wallet.address).contents
      → (l receiver.address).lamports + (l wallet.address).lamports < u64_mod
      → (l' : Ledger) × (process_instruction
            (wallet ∷ receiver ∷ [])
            (Instruction.close wallet.address receiver.address).data_bytes
            l
          ≡ ok l')
        × Swept wallet receiver l l'
  unfolding process_instruction dispatch Close.process Close.try_from Close.execute
      Instruction.close
  close_sweeps wallet receiver l closes free signs ne held room =
      let some_data : (length (l wallet.address).contents == 0) ≡ false = ground arith in
      let differ : bytes_eq wallet.address receiver.address ≡ false =
        elim (Bool-cases (bytes_eq wallet.address receiver.address)) [
          | inl b ↦ absurd (ne (bytes_eq→eq _ receiver.address b))
          | inr b ↦ b
        ] in
      let paid : Ledger =
        set_lamports receiver
          (saturating_add (l receiver.address).lamports (l wallet.address).lamports) l in
      let closed = closes paid (
        ap (λ t. t.borrowed) (set_lamports_ne receiver _ l wallet.address (λ e. ne (sym e)))
        ∙ free) in
      (_, simp (signs, differ, some_data, closed), sweeps wallet receiver l ne room)
