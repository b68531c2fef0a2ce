-- ===== src/Program/Advance/Rotation.antt =====
-- program/src/instructions/advance.rs: the root of the wallet's account across an Advance whose inner
-- calls are of other programs and of the program's own Withdraw.
use winterwallet.Prelude.{
  ◌≡◌, ◌≢◌, ap, ◌∙◌, List, [], ◌∷◌, length, ok, >>=-eq-ok, All, ◌⊎◌, inl, inr,
}
use mathlib.Core.Path.{subst}
use winterwallet.Bytes.{Bytes}
use winterwallet.Common.{winterwallet_seed}
use winterwallet.Common.Discriminator
use winterwallet.Core.Hash.{Hasher}
use winterwallet.Solana.{
  AccountView, InstructionAccount, InstructionView, Ledger, Programs, Runtime, update_self,
}
use winterwallet.Program.State
use winterwallet.Program.State.{WinterWallet}
use winterwallet.Program.State.Codec.{try_from_wallet, try_from_free}
use winterwallet.Program.Withdraw.Data.{SameData, SameData-refl, SameData-trans, process-SameData}
use winterwallet.Program.Advance.{Advance, try_from, verify_signature, execute, process}
use winterwallet.Program.Advance.Calls.{calls, replay_keeps}
use winterwallet.Program.Entrypoint.{dispatch, process_instruction}

-- The views that a called program gets: the caller's accounts with the flags of the call.
abbrev pub granted : List InstructionAccount → List AccountView → List AccountView
granted [] views = []
granted (m ∷ ms) [] = []
granted (m ∷ ms) (v ∷ views) =
    record v { is_signer = m.is_signer; is_writable = m.is_writable } ∷ granted ms views

module _ ⦃ids : Programs⦄ where
  abbrev pub OwnWithdraw : InstructionView → Type 0
  OwnWithdraw i =
      (i.program_id ≡ ids.winterwallet_id)
      × ((amount : Bytes) × (i.data_bytes ≡ Discriminator.withdraw ∷ amount))

  -- A call of another program, or of this program's Withdraw.
  abbrev pub IsOrdinary : InstructionView × List AccountView → Type 0
  IsOrdinary (i, views) = (i.program_id ≢ ids.winterwallet_id) ⊎ OwnWithdraw i

  -- Solana lets only the owner of an account change its owner and its data, and refuses a call that
  -- comes back to this program from another one. A borrow that the caller holds stays the caller's.
  abbrev pub ProtectsData : Runtime → Type 0
  ProtectsData rt =
      (i : InstructionView) (views : List AccountView) (seeds : List Bytes) (l l' : Ledger)
      (a : Bytes)
      → i.program_id ≢ ids.winterwallet_id
      → (l a).owner ≡ ids.winterwallet_id
      → rt.invoke_signed i views seeds l ≡ ok l'
      → SameData (l a) (l' a)

module _ ⦃sha : Hasher⦄ ⦃ids : Programs⦄ where
  -- A Withdraw that this program calls of itself runs its entrypoint.
  abbrev pub RunsWithdraw : Runtime → Type 0
  RunsWithdraw rt =
      (i : InstructionView) (views : List AccountView) (seeds : List Bytes) (l l' : Ledger)
      → OwnWithdraw i
      → rt.invoke_signed i views seeds l ≡ ok l'
      → process_instruction ⦃rt = rt⦄ (granted i.accounts views) i.data_bytes l ≡ ok l'

module _ ⦃sha : Hasher⦄ ⦃ids : Programs⦄ ⦃rt : Runtime⦄ where
  withdraw_entry :
      (views : List AccountView) (amount : Bytes) (l l' : Ledger) (a : Bytes)
      → process_instruction views (Discriminator.withdraw ∷ amount) l ≡ ok l'
      → SameData (l a) (l' a)
  unfolding process_instruction dispatch
  withdraw_entry views amount l l' a h = process-SameData views amount l l' a h

  ordinary-SameData :
      (i : InstructionView) (views : List AccountView) (seeds : List Bytes) (l l' : Ledger)
      (a : Bytes)
      → ProtectsData rt
      → RunsWithdraw rt
      → IsOrdinary (i, views)
      → (l a).owner ≡ ids.winterwallet_id
      → rt.invoke_signed i views seeds l ≡ ok l'
      → SameData (l a) (l' a)
  ordinary-SameData i views seeds l l' a protects runs (inl other) own call =
      protects i views seeds l l' a other own call
  ordinary-SameData i views seeds l l' a protects runs (inr (self, (amount, tag))) own call =
      withdraw_entry (granted i.accounts views) amount l l' a (
        subst (λ bs. process_instruction (granted i.accounts views) bs l ≡ ok l') tag
          (runs i views seeds l l' (self, (amount, tag)) call))

  -- If the runtime lets only the owner of an account change its owner and its data, and runs the
  -- program's entrypoint for a Withdraw that the program calls of itself, a successful Advance on
  -- an account that the program owns and that is read as a wallet's, with a new root of 32 bytes,
  -- whose inner calls are of other programs or such Withdraws, leaves the new root in the account,
  -- with the id and the bump that it held.
  pub process_advances_root :
      (accounts : List AccountView) (input : Bytes) (ledger ledger' : Ledger) (self : Advance)
      (w : WinterWallet)
      → ProtectsData rt
      → RunsWithdraw rt
      → try_from accounts input ≡ ok self
      → All IsOrdinary (calls self.accounts self.wallet.address self.payload)
      → (ledger self.wallet.address).owner ≡ ids.winterwallet_id
      → State.try_from self.wallet ledger ≡ ok w
      → State.IsLaidOut w
      → length self.root ≡ 32
      → process accounts input ledger ≡ ok ledger'
      → State.try_from self.wallet ledger' ≡ ok (record w { root = self.root })
  unfolding process execute State.write
  process_advances_root accounts input ledger ledger' self w protects runs parsed ordinary owned
        read laid root_len h =
      let a = self.wallet.address in
      let next = record w { root = self.root } in
      let start = State.write self.wallet next ledger in
      let (_, _, ran) = >>=-eq-ok (verify_signature self w.id w.root) _ (rw (parsed, read) at h) in
      let written = update_self ledger a (record (ledger a) { contents = State.to_bytes next }) in
      let own : (start a).owner ≡ ids.winterwallet_id = ap (λ t. t.owner) written ∙ owned in
      let (o, c, b) : SameData (start a) (ledger' a) =
        replay_keeps (λ l. SameData (start a) (l a)) IsOrdinary
          (λ i views seeds l l' fine same call.
            SameData-trans (start a) (l a) (l' a) same
              (ordinary-SameData i views seeds l l' a protects runs fine (same.0 ∙ own) call))
          self.accounts (winterwallet_seed ∷ w.id ∷ w.bump ∷ []) a self.payload start ledger'
          ordinary (SameData-refl (start a)) ran in
      try_from_wallet self.wallet ledger' next (laid.0, root_len, laid.2)
        (c ∙ ap (λ t. t.contents) written)
        (b ∙ ap (λ t. t.borrowed) written ∙ try_from_free self.wallet ledger w read)
