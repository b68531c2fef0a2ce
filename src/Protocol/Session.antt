-- ===== src/Protocol/Session.antt =====
-- The life of an Advance at the client (client/src/wallet.rs), through to the program.
use winterwallet.Prelude.{
  ◌≡◌, sym, ap, ◌∙◌, List, [], ◌∷◌, map, false, length, some, Result, ok, >>=-eq-ok, ok_injective,
}
use mathlib.Core.Path.{subst}
use winterwallet.Bytes.{Bytes}
use winterwallet.Common.{winterwallet_seed, winternitz_scalars}
use winterwallet.Core.Hash.{Hasher}
use winterwallet.Core.Keypair.{Hmac, WinternitzKeypair, sign_and_increment}
use winterwallet.Core.Signature
use winterwallet.Solana.{Instruction, AccountView, Ledger, Runtime, Programs}
use winterwallet.Client.Plan
use winterwallet.Client.Plan.{AdvancePlan}
use winterwallet.Client.Position.{SigningPosition}
use winterwallet.Client.Wallet
use winterwallet.Client.Wallet.{
  UnsignedAdvance, SignedAdvance, PersistedAdvance, persist, advance_instruction,
}
use winterwallet.Client.Wallet.Signing.{sign_inv}
use winterwallet.Program.State
use winterwallet.Program.State.{WinterWallet}
use winterwallet.Program.Entrypoint.{process_instruction}
use winterwallet.Protocol.Loaded.{Executable}
use winterwallet.Protocol.Advance.{advance_replays_plan}
use winterwallet.Protocol.Replay.{invoke_all}

-- What `persist` returns is the operation that was given.
persist_same {ℓ κ} :
    {S : Type ℓ} {E : Type κ} (store : S → SignedAdvance → Result E S) (s : SignedAdvance)
    (st st' : S) (p : PersistedAdvance)
    → persist store s st ≡ ok (p, st')
    → p.signed ≡ s
unfolding persist
persist_same store s st st' p h =
    let (_, _, rest) = >>=-eq-ok (store st s) _ h in sym (ap (λ t. t.0.signed) (ok_injective rest))

module _ ⦃sha : Hasher⦄ ⦃mac : Hmac⦄ ⦃ids : Programs⦄ ⦃rt : Runtime⦄ where
  -- The client's facade of a wallet whose unborrowed account has its layout plans inner
  -- instructions and a new root of 32 bytes, `sign` and then `persist` succeed, and the views
  -- passed to the program are the plan's accounts in order, with executable programs. Then the
  -- program's run on the persisted Advance is the write of the new root followed by the planned
  -- calls, in order.
  pub session_replays_plan {ℓ κ} :
      {S : Type ℓ} {E : Type κ} (store : S → SignedAdvance → Result E S) (st st' : S)
      (kp kp' : WinternitzKeypair) (w : WinterWallet) (position : SigningPosition)
      (ixs : List Instruction) (new_root : Bytes) (self : UnsignedAdvance) (s : SignedAdvance)
      (p : PersistedAdvance) (wallet : AccountView) (views : List AccountView) (ledger : Ledger)
      → State.IsLaidOut w
      → (ledger wallet.address).contents ≡ State.to_bytes w
      → (ledger wallet.address).borrowed ≡ false
      → length new_root ≡ 32
      → Wallet.advance_plan
          (record { id = w.id; pda = wallet.address; current_root = w.root; position = position })
          new_root
          ixs
        ≡ ok self
      → Wallet.sign self kp ≡ some (ok (s, kp'))
      → persist store s st ≡ ok (p, st')
      → map (λ v. v.address) views ≡ self.plan.account_addresses
      → Executable ixs views
      → process_instruction (wallet ∷ views) (advance_instruction p).data_bytes ledger
        ≡ invoke_all ixs views
            (winterwallet_seed ∷ w.id ∷ w.bump ∷ [])
            wallet.address
            (State.write wallet (record w { root = new_root }) ledger)
  unfolding Wallet.advance_plan Wallet.unsigned Wallet.preimage Wallet.signed advance_instruction
  session_replays_plan store st st' kp kp' w position ixs new_root self s p wallet views ledger laid
        here free root_len planned signed stored loaded exec =
      let (plan, made, rest) = >>=-eq-ok (Plan.new wallet.address new_root ixs) _ planned in
      let same = ok_injective rest in
      let (sig, done, eq, root, _, _) = sign_inv self kp kp' s signed in
      let kept : p.signed ≡ Wallet.signed self (Signature.as_bytes sig) kp' =
        persist_same store s st st' p stored ∙ eq in
      let plan_eq : plan ≡ self.plan = ap (λ t. t.plan) same in
      let done' : sign_and_increment winternitz_scalars kp (Plan.preimage plan w.id w.root)
          ≡ some (sig, kp') =
        subst (λ t. sign_and_increment winternitz_scalars kp (Wallet.preimage t) ≡ some (sig, kp'))
          (sym same) done in
      let run = λ (q : AdvancePlan) (bytes : Bytes).
        process_instruction (wallet ∷ views) (Plan.instruction q bytes).data_bytes ledger in
      ap (λ q. run q.plan q.signature) kept
      ∙ ap (λ q. run q (Signature.as_bytes sig)) (sym plan_eq)
      ∙ advance_replays_plan kp kp' w ixs new_root plan sig wallet views ledger laid
          (ap (λ t. t.current_root) same ∙ sym root) here free root_len made done'
          (loaded ∙ ap (λ q. q.account_addresses) (sym plan_eq)) exec
