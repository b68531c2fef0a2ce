-- ===== src/Protocol/Advance.antt =====
-- An Advance from end to end: the plan, its signature and its instruction (client/src/plan.rs), and
-- the program's handling of it (program/src/instructions/advance.rs).
use winterwallet.Prelude.{
  ◌≤◌, ◌≡◌, refl, sym, ap, ◌∙◌, List, [], ◌∷◌, ◌++◌, map, length, ok, arith, true, false, inl, inr,
  Result-cases, some, le→ltb, length-map,
}
use winterwallet.Bytes.{Bytes, split_first_chunk-append}
use winterwallet.Common.{
  winternitz_scalars, signature_len, winterwallet_seed, max_passthrough_accounts,
}
use winterwallet.Core.Hash.{Hasher}
use winterwallet.Core.Layout.{IsLaidOut}
use winterwallet.Core.Wire.{length-as_bytes, signature_parsed}
use winterwallet.Core.Merkle.{merklize}
use winterwallet.Core.Privkey.{WinternitzPrivkey, to_pubkey, sign}
use winterwallet.Core.Privkey.Recover.{sign-IsLaidOut}
use winterwallet.Core.Verify.{verify, verify-sign}
use winterwallet.Core.Keypair.Position.{sign_and_increment_inv, derive-IsLaidOut}
use winterwallet.Program.State.Codec.{try_from_wallet}
use winterwallet.Client.Preimage.{advance_preimage}
use winterwallet.Client
use winterwallet.Core.Signature
use winterwallet.Core.Signature.{WinternitzSignature}
use winterwallet.Core.Keypair.{Hmac, WinternitzKeypair, derive, sign_and_increment}
use winterwallet.Solana.{Address, Instruction, AccountView, Ledger, Runtime, Programs}
use winterwallet.Client.Instruction.{
  AdvancePayload, total_accounts, encode_advance, entry_accounts, passthrough,
}
use winterwallet.Client.Plan
use winterwallet.Client.Plan.{AdvancePlan}
use winterwallet.Program.State
use winterwallet.Program.State.{WinterWallet}
use winterwallet.Program.Advance
use winterwallet.Program.Advance.{Advance}
use winterwallet.Program.Entrypoint.{process_instruction}
use winterwallet.Protocol.Encoding.{all_accounts, encode_advance_lem}
use winterwallet.Protocol.Replay.{invoke_all, replay-bodies}
use winterwallet.Protocol.Loaded.{Executable, loaded-Serves, length-all_accounts}

-- What a plan holds.
plan_inv :
    (pda : Address) (new_root : Bytes) (ixs : List Instruction) (plan : AdvancePlan)
    → Plan.new pda new_root ixs ≡ ok plan
    → (encode_advance ixs ≡ ok plan.payload)
      × (plan.new_root ≡ new_root)
      × (plan.account_addresses ≡ map (λ m. m.pubkey) plan.payload.accounts)
unfolding Plan.new
plan_inv pda new_root ixs plan h = elim (Result-cases (encode_advance ixs)) [
  | inl (p, e) ↦ let same = rw e at h in (e ∙ cc same, cc same, cc same)
  | inr (x, e) ↦ cc (e, h)
]

-- The program parses the instruction data that the client laid out, after the discriminator.
pub try_from_lem :
    (wallet : AccountView) (accounts : List AccountView) (sig : WinternitzSignature)
    (root payload : Bytes)
    → IsLaidOut winternitz_scalars (Signature.fields sig)
    → length root ≡ 32
    → Advance.try_from (wallet ∷ accounts) (Signature.as_bytes sig ++ (root ++ payload))
      ≡ ok (record {
        wallet = wallet;
        accounts = accounts;
        signature = sig;
        root = root;
        payload = payload;
      })
unfolding Advance.try_from
try_from_lem wallet accounts sig root payload h l = rw (
  split_first_chunk-append signature_len (Signature.as_bytes sig) (root ++ payload)
      (length-as_bytes winternitz_scalars sig h),
  signature_parsed winternitz_scalars sig h,
  split_first_chunk-append 32 root payload l,
)

-- The program and the client build one preimage.
pub preimage_parts_lem :
    (self : Advance) (plan : AdvancePlan) (id root : Bytes)
    → map (λ v. v.address) self.accounts ≡ plan.account_addresses
    → plan.new_root ≡ self.root
    → plan.payload.data_bytes ≡ self.payload
    → Advance.preimage_parts self id root ≡ Plan.preimage plan id root
unfolding Advance.preimage_parts Plan.preimage advance_preimage
preimage_parts_lem self plan id root accounts root_eq payload = rw (accounts, root_eq, payload)

module _ ⦃sha : Hasher⦄ where
  -- The program's preimage is the client's, and a signature of it by the current root's key passes.
  verify_signature_lem :
      (self : Advance) (id root : Bytes) (sk : WinternitzPrivkey)
      → length self.accounts ≤ max_passthrough_accounts
      → root ≡ merklize (to_pubkey sk)
      → length sk.scalars ≡ winternitz_scalars
      → self.signature ≡ sign winternitz_scalars sk (Advance.preimage_parts self id root)
      → Advance.verify_signature self id root ≡ ok tt
  unfolding Advance.verify_signature
  verify_signature_lem self id root sk few e l s =
      let message = Advance.preimage_parts self id root in
      let good = verify-sign winternitz_scalars sk message (omega arith) l in
      let passed : verify winternitz_scalars self.signature message root ≡ true =
        ap (λ t. verify winternitz_scalars t message root) s
        ∙ ap (verify winternitz_scalars (sign winternitz_scalars sk message) message) e
        ∙ good in
      rw (le→ltb max_passthrough_accounts (length self.accounts) few, passed)

module _ ⦃sha : Hasher⦄ ⦃mac : Hmac⦄ ⦃ids : Programs⦄ ⦃rt : Runtime⦄ where
  -- A wallet's owner plans inner instructions and signs the plan's preimage with the key whose
  -- root the wallet's unborrowed account stores, and the new root has 32 bytes. If the views
  -- passed to the program are the plan's accounts in order, with executable programs, the
  -- program's run on the plan's instruction is the write of the new root followed by the planned
  -- calls, in order, each with its own data and accounts and with the wallet as a signer.
  pub advance_replays_plan :
      (kp kp' : WinternitzKeypair) (w : WinterWallet) (ixs : List Instruction) (new_root : Bytes)
      (plan : AdvancePlan) (sig : WinternitzSignature) (wallet : AccountView)
      (views : List AccountView) (ledger : Ledger)
      → State.IsLaidOut w
      → w.root ≡ merklize (to_pubkey (derive winternitz_scalars kp))
      → (ledger wallet.address).contents ≡ State.to_bytes w
      → (ledger wallet.address).borrowed ≡ false
      → length new_root ≡ 32
      → Plan.new wallet.address new_root ixs ≡ ok plan
      → sign_and_increment winternitz_scalars kp (Plan.preimage plan w.id w.root) ≡ some (sig, kp')
      → map (λ v. v.address) views ≡ plan.account_addresses
      → Executable ixs views
      → process_instruction
          (wallet ∷ views)
          (Plan.instruction plan (Signature.as_bytes sig)).data_bytes
          ledger
        ≡ invoke_all ixs views
            (winterwallet_seed ∷ w.id ∷ w.bump ∷ [])
            wallet.address
            (State.write wallet (record w { root = new_root }) ledger)
  unfolding process_instruction Advance.process Advance.execute Plan.instruction
      Client.Instruction.advance
  advance_replays_plan kp kp' w ixs new_root plan sig wallet views ledger laid root_of here free
        root_len planned signed loaded exec =
      let sk = derive winternitz_scalars kp in
      let message = Plan.preimage plan w.id w.root in
      let (encoded, same_root, addresses) = plan_inv wallet.address new_root ixs plan planned in
      let (data_eq, accounts_eq, _, total, fits) = encode_advance_lem ixs plan.payload encoded in
      let (sig_eq, _) = sign_and_increment_inv winternitz_scalars kp message signed in
      let sk_laid = derive-IsLaidOut winternitz_scalars kp in
      let sig_laid : IsLaidOut winternitz_scalars (Signature.fields sig) =
        rw sig_eq (sign-IsLaidOut winternitz_scalars sk message (omega arith) sk_laid) in
      let keys : map (λ v. v.address) views ≡ map (λ m. m.pubkey) (all_accounts ixs) =
        loaded ∙ addresses ∙ ap (map (λ m. m.pubkey)) accounts_eq in
      let few : length views ≤ max_passthrough_accounts = omega (
        arith,
        length-map views (λ v. v.address),
        ap length keys,
        length-map (all_accounts ixs) (λ m. m.pubkey),
        length-all_accounts ixs,
        total,
      ) in
      let self : Advance = record {
        wallet = wallet;
        accounts = views;
        signature = sig;
        root = new_root;
        payload = plan.payload.data_bytes;
      } in
      let parts : Advance.preimage_parts self w.id w.root ≡ message =
        preimage_parts_lem self plan w.id w.root loaded same_root refl in
      let verified =
        verify_signature_lem self w.id w.root sk few root_of sk_laid.0
          (sig_eq ∙ ap (sign winternitz_scalars sk) (sym parts)) in
      rw
        (
          same_root,
          try_from_lem wallet views sig new_root plan.payload.data_bytes sig_laid root_len,
          try_from_wallet wallet ledger w laid here free,
          verified,
          data_eq,
        )
        (replay-bodies ixs views _ wallet.address _ few fits (loaded-Serves ixs views keys exec))
