-- ===== src/Examples/Accounts.antt =====
-- Runs of the program (program/src) that open, rotate and close a wallet's account.
use winterwallet.Prelude.{
  ◌≡◌, ◌≢◌, refl, ap, sym, List, [], ◌∷◌, ◌++◌, true, false, arith, some, ok, All, drop,
  ok_injective, if◌then◌else◌, Bool-cases, inl, inr,
}
use winterwallet.Bytes.{Bytes, bytes_eq, bytes_eq→eq, bytes_eq_refl}
use winterwallet.Core.Keypair.{derive, increment_child, sign_and_increment}
use winterwallet.Core.Privkey.{sign}
use winterwallet.Core.Privkey.Recover.{sign-IsLaidOut}
use winterwallet.Core.Keypair.Position.{derive-IsLaidOut}
use winterwallet.Core.Layout.{IsLaidOut}
use winterwallet.Core.Signature
use winterwallet.Core.Signature.{WinternitzSignature}
use winterwallet.Solana.{AccountView, Instruction, Ledger, Runtime, update}
use winterwallet.Solana.System.{SystemProgram}
use winterwallet.Client
use winterwallet.Client.Instruction.{encode_advance, encode_loop}
use winterwallet.Client.Pda.{wallet_id}
use winterwallet.Client.Plan
use winterwallet.Client.Plan.{AdvancePlan}
use winterwallet.Program.State
use winterwallet.Program.State.Codec.{try_from_wallet}
use winterwallet.Program.Advance
use winterwallet.Program.Advance.{Advance}
use winterwallet.Program.Advance.Calls.{calls}
use winterwallet.Program.Advance.Rotation.{
  granted, IsOrdinary, ProtectsData, RunsWithdraw, process_advances_root,
}
use winterwallet.Program.Initialize.Opening.{Paid}
use winterwallet.Program.Withdraw
use winterwallet.Program.Withdraw.{set_lamports}
use winterwallet.Program.Close.Sweep.{Swept, close_sweeps}
use winterwallet.Program.Entrypoint.{dispatch, process_instruction}
use winterwallet.Protocol.Encoding.{bodies, all_accounts}
use winterwallet.Protocol.Advance.{try_from_lem, advance_replays_plan}
use winterwallet.Protocol.Registration.{first_signature, initialize_registers}
use winterwallet.Examples.World.{
  test_hasher, test_hmac, test_programs, test_runtime, keypair, next_keypair, address, view,
  program_view, wallet_bump,
}
use winterwallet.Examples.Wallets.{
  inner, wallet, stored, stored-IsLaidOut, new_root, ledger, held, free, signer, signer_ne,
}

-- Every account holds 400 lamports, and nothing else.
abbrev plain : Ledger
plain a = record { lamports = 400; owner = address 0; contents = []; borrowed = false }

test_system : SystemProgram test_runtime
test_system = record {
  creates = λ payer target n space owner seeds l p s f z e b. refl;
  transfers = λ payer target n seeds l p f e b. refl;
  allocates = λ target space seeds l w s p b. refl;
  assigns = λ target owner seeds l w s p b. refl;
}

abbrev payer : AccountView
payer = record (view 7) { is_signer = true }

payer_ne : payer.address ≢ wallet.address
payer_ne e = cc

-- The rent is 650: the payer adds 250 lamports.
initialize_registers_example :
    (l' : Ledger) × (process_instruction
        (payer ∷ wallet ∷ view 0 ∷ [])
        (Client.Instruction.initialize
          (address 7)
          (address 3)
          (Signature.as_bytes (first_signature keypair))
          new_root).data_bytes
        plain
      ≡ ok l')
    × Paid payer wallet 250
        (record {
          lamports = 650;
          owner = address 1;
          contents = wallet_id keypair ++ (new_root ++ (wallet_bump ∷ []));
          borrowed = false;
        })
        plain
        l'
initialize_registers_example =
    initialize_registers keypair payer wallet (view 0) new_root wallet_bump plain 650 test_system
      (refl, refl, refl, payer_ne, (refl, refl, refl)) (refl, refl, refl) refl (omega arith)
      (omega arith) refl refl

close_sweeps_example :
    (l' : Ledger) × (process_instruction
        (signer ∷ view 5 ∷ [])
        (Client.Instruction.close (address 3) (address 5)).data_bytes
        ledger
      ≡ ok l')
    × Swept signer (view 5) ledger l'
unfolding bytes_eq State.to_bytes
close_sweeps_example =
    close_sweeps signer (view 5) ledger (λ l free. refl) refl refl signer_ne (omega arith)
      (omega arith)

-- Calls of the program run its Withdraw; all others succeed and change nothing.
abbrev calling_runtime : Runtime
calling_runtime = record test_runtime {
  invoke_signed = λ i views seeds l.
      if bytes_eq i.program_id (address 1)
      then Withdraw.process (granted i.accounts views) (drop 1 i.data_bytes) l
      else ok l;
}

protects : ProtectsData calling_runtime
protects i views seeds l l' a other own call =
    elim (Bool-cases (bytes_eq i.program_id (address 1))) [
      | inl e ↦ absurd (other (bytes_eq→eq i.program_id (address 1) e))
      | inr e ↦
          let same : l ≡ l' = ok_injective (rw e at call) in
          (
            sym (ap (λ t. (t a).owner) same),
            sym (ap (λ t. (t a).contents) same),
            sym (ap (λ t. (t a).borrowed) same),
          )
    ]

runs : RunsWithdraw calling_runtime
unfolding process_instruction dispatch bytes_eq Withdraw.process Withdraw.execute
runs i views seeds l l' (self, (amount, tag)) call =
    let own : bytes_eq i.program_id (address 1) ≡ true = rw self (bytes_eq_refl (address 1)) in
    rw tag (rw (own, tag) at call)

-- The wallet withdraws 1000 lamports to account 5, and calls program 9.
abbrev own_withdraw : Instruction
own_withdraw = Client.Instruction.withdraw (address 3) (address 5) 1000

abbrev both : List Instruction
both = own_withdraw ∷ inner ∷ []

abbrev both_views : List AccountView
both_views = program_view 1 ∷ wallet ∷ view 5 ∷ program_view 9 ∷ view 5 ∷ []

abbrev both_plan : AdvancePlan
both_plan = record {
  wallet_pda = wallet.address;
  new_root = new_root;
  payload = record { data_bytes = 2 ∷ bodies both; accounts = all_accounts both };
  account_addresses = address 1 ∷ address 3 ∷ address 5 ∷ address 9 ∷ address 5 ∷ [];
}

both_planned : Plan.new wallet.address new_root both ≡ ok both_plan
unfolding Plan.new encode_advance encode_loop Client.Instruction.withdraw
both_planned = refl

abbrev both_signature : WinternitzSignature
both_signature = sign 22 (derive 22 keypair) (Plan.preimage both_plan stored.id stored.root)

both_signature-IsLaidOut : IsLaidOut 22 (Signature.fields both_signature)
both_signature-IsLaidOut =
    sign-IsLaidOut 22 (derive 22 keypair) (Plan.preimage both_plan stored.id stored.root)
      (omega arith) (derive-IsLaidOut 22 keypair)

both_signing :
    sign_and_increment 22 keypair (Plan.preimage both_plan stored.id stored.root)
    ≡ some (both_signature, next_keypair)
unfolding sign_and_increment increment_child
both_signing = refl

abbrev both_input : Bytes
both_input = Signature.as_bytes both_signature ++ (new_root ++ both_plan.payload.data_bytes)

abbrev both_parsed : Advance
both_parsed = record {
  wallet = wallet;
  accounts = both_views;
  signature = both_signature;
  root = new_root;
  payload = both_plan.payload.data_bytes;
}

-- The new root is stored, and the lamports have moved.
abbrev rotated : Ledger
rotated =
    set_lamports (view 5) 1070
      (set_lamports wallet 4000 (State.write wallet (record stored { root = new_root }) ledger))

both_succeeds :
    Advance.process ⦃rt = calling_runtime⦄ (wallet ∷ both_views) both_input ledger ≡ ok rotated
unfolding process_instruction dispatch Plan.instruction Client.Instruction.advance
    Client.Instruction.withdraw bytes_eq Withdraw.process Withdraw.try_from Withdraw.execute
    State.write State.to_bytes update set_lamports
both_succeeds =
    advance_replays_plan ⦃rt = calling_runtime⦄ keypair next_keypair stored both new_root both_plan
      both_signature wallet both_views ledger stored-IsLaidOut refl held free refl both_planned
      both_signing refl (refl, (refl, tt))

both_reads : Advance.try_from (wallet ∷ both_views) both_input ≡ ok both_parsed
both_reads =
    try_from_lem wallet both_views both_signature new_root both_plan.payload.data_bytes
      both_signature-IsLaidOut refl

both-IsOrdinary : All IsOrdinary (calls both_views wallet.address both_plan.payload.data_bytes)
unfolding Advance.read_u8 Advance.read_u16 Advance.decode_next Client.Instruction.withdraw
both-IsOrdinary = (inr (refl, (_, refl)), (inl λ e. cc, tt))

process_advances_root_example :
    State.try_from wallet rotated ≡ ok (record stored { root = new_root })
unfolding bytes_eq
process_advances_root_example =
    process_advances_root ⦃rt = calling_runtime⦄ (wallet ∷ both_views) both_input ledger rotated
      both_parsed stored protects runs both_reads both-IsOrdinary refl
      (try_from_wallet wallet ledger stored stored-IsLaidOut held free) stored-IsLaidOut refl
      both_succeeds
