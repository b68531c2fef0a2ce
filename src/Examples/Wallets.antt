-- ===== src/Examples/Wallets.antt =====
-- Runs of the program (program/src) on instructions of the client.
use winterwallet.Prelude.{
  ◌≤◌, ◌≡◌, ◌≢◌, refl, List, [], ◌∷◌, ◌++◌, true, false, arith, length, some, ok, err,
  if◌then◌else◌,
}
use winterwallet.Bytes.{Bytes, bytes_eq}
use winterwallet.Common.{winternitz_scalars, max_passthrough_accounts, winterwallet_seed}
use winterwallet.Core.Layout.{IsLaidOut}
use winterwallet.Core.Signature
use winterwallet.Core.Signature.{WinternitzSignature}
use winterwallet.Core.Merkle.{merklize}
use winterwallet.Core.Merkle.Width.{length-merklize}
use winterwallet.Core.Privkey.{sign, to_pubkey}
use winterwallet.Core.Privkey.Recover.{sign-IsLaidOut}
use winterwallet.Core.Verify.{verify}
use winterwallet.Core.Keypair.{derive, increment_child, sign_and_increment}
use winterwallet.Core.Keypair.Position.{derive-IsLaidOut}
use winterwallet.Solana.{AccountView, Instruction, Ledger, writable, insufficient_funds}
use winterwallet.Client
use winterwallet.Client.Instruction.{AdvancePayload, encode_advance, encode_loop, total_accounts}
use winterwallet.Client.Plan
use winterwallet.Client.Plan.{AdvancePlan}
use winterwallet.Program.State
use winterwallet.Program.State.{WinterWallet}
use winterwallet.Program.State.Codec.{try_from_wallet, try_from-write}
use winterwallet.Program.Advance
use winterwallet.Program.Advance.{Advance, replay}
use winterwallet.Program.Advance.Authorised.{process_authorised}
use winterwallet.Program.Withdraw.Balance.{
  Moved, withdraw_to_self, withdraw_moves, withdraw_refused,
}
use winterwallet.Program.Entrypoint.{dispatch, process_instruction}
use winterwallet.Protocol.Encoding.{Fits, bodies, all_accounts, encode_advance_lem}
use winterwallet.Protocol.Replay.{invoke_all, replay-bodies}
use winterwallet.Protocol.Advance.{try_from_lem, advance_replays_plan}
use winterwallet.Examples.World.{
  test_hasher, test_hmac, test_programs, test_runtime, keypair, next_keypair, address, view,
  program_view, wallet_bump,
}

-- A call of program 9 with account 5 and two bytes of data.
abbrev pub inner : Instruction
inner = record {
  program_id = address 9;
  accounts = writable (address 5) false ∷ [];
  data_bytes = 2 ∷ 1 ∷ [];
}

abbrev pub views : List AccountView
views = program_view 9 ∷ view 5 ∷ []

abbrev pub wallet : AccountView
wallet = view 3

abbrev pub stored : WinterWallet
stored = record {
  id = address 6;
  root = merklize (to_pubkey (derive 22 keypair));
  bump = wallet_bump ∷ [];
}

abbrev pub new_root : Bytes
new_root = address 4

abbrev pub plan : AdvancePlan
plan = record {
  wallet_pda = wallet.address;
  new_root = new_root;
  payload = record { data_bytes = 1 ∷ bodies (inner ∷ []); accounts = all_accounts (inner ∷ []) };
  account_addresses = address 9 ∷ address 5 ∷ [];
}

-- The wallet's account is the program's and holds `stored`; all others are empty.
abbrev pub ledger : Ledger
ledger a =
    if bytes_eq a wallet.address
    then record {
      lamports = 5000;
      owner = address 1;
      contents = State.to_bytes stored;
      borrowed = false;
    }
    else record { lamports = 70; owner = address 0; contents = []; borrowed = false }

pub planned : Plan.new wallet.address new_root (inner ∷ []) ≡ ok plan
unfolding Plan.new encode_advance encode_loop
planned = refl

pub held : (ledger wallet.address).contents ≡ State.to_bytes stored
unfolding bytes_eq
held = refl

pub free : (ledger wallet.address).borrowed ≡ false
unfolding bytes_eq
free = refl

pub stored-IsLaidOut : State.IsLaidOut stored
stored-IsLaidOut = (refl, length-merklize (to_pubkey (derive 22 keypair)), refl)

abbrev pub signature : WinternitzSignature
signature = sign 22 (derive 22 keypair) (Plan.preimage plan stored.id stored.root)

signature-IsLaidOut : IsLaidOut 22 (Signature.fields signature)
signature-IsLaidOut =
    sign-IsLaidOut 22 (derive 22 keypair) (Plan.preimage plan stored.id stored.root) (omega arith)
      (derive-IsLaidOut 22 keypair)

signing :
    sign_and_increment winternitz_scalars keypair (Plan.preimage plan stored.id stored.root)
    ≡ some (signature, next_keypair)
unfolding sign_and_increment increment_child
signing = refl

abbrev pub advanced : Ledger
advanced = State.write wallet (record stored { root = new_root }) ledger

advance_replays_plan_example :
    process_instruction
      (wallet ∷ views)
      (Plan.instruction plan (Signature.as_bytes signature)).data_bytes
      ledger
    ≡ ok advanced
advance_replays_plan_example =
    advance_replays_plan keypair next_keypair stored (inner ∷ []) new_root plan signature wallet
      views ledger stored-IsLaidOut refl held free refl planned signing refl (refl, tt)

-- The input of Advance behind the discriminator.
abbrev input : Bytes
input = Signature.as_bytes signature ++ (new_root ++ plan.payload.data_bytes)

abbrev parsed : Advance
parsed = record {
  wallet = wallet;
  accounts = views;
  signature = signature;
  root = new_root;
  payload = plan.payload.data_bytes;
}

input_reads : Advance.try_from (wallet ∷ views) input ≡ ok parsed
input_reads =
    try_from_lem wallet views signature new_root plan.payload.data_bytes signature-IsLaidOut refl

stored_read : State.try_from wallet ledger ≡ ok stored
stored_read = try_from_wallet wallet ledger stored stored-IsLaidOut held free

succeeds : Advance.process (wallet ∷ views) input ledger ≡ ok advanced
unfolding process_instruction dispatch Plan.instruction Client.Instruction.advance
succeeds =
    advance_replays_plan keypair next_keypair stored (inner ∷ []) new_root plan signature wallet
      views ledger stored-IsLaidOut refl held free refl planned signing refl (refl, tt)

process_authorised_example :
    (self : Advance) × (w : WinterWallet) × (Advance.try_from (wallet ∷ views) input ≡ ok self)
    × (State.try_from self.wallet ledger ≡ ok w)
    × (length self.accounts ≤ max_passthrough_accounts)
    × (verify winternitz_scalars self.signature (Advance.preimage_parts self w.id w.root) w.root
        ≡ true)
    × (replay self.accounts
          (winterwallet_seed ∷ w.id ∷ w.bump ∷ [])
          self.wallet.address
          self.payload
          (State.write self.wallet (record w { root = self.root }) ledger)
        ≡ ok advanced)
process_authorised_example = process_authorised (wallet ∷ views) input ledger advanced succeeds

try_from-write_example : State.try_from wallet (State.write wallet stored ledger) ≡ ok stored
try_from-write_example = try_from-write wallet ledger stored stored-IsLaidOut free

inner-Fits : Fits inner
inner-Fits = record { accounts = omega arith; data_bytes = omega arith }

replay-bodies_example :
    replay views (winterwallet_seed ∷ []) (address 3) (1 ∷ bodies (inner ∷ [])) ledger
    ≡ invoke_all (inner ∷ []) views (winterwallet_seed ∷ []) (address 3) ledger
replay-bodies_example =
    replay-bodies (inner ∷ []) views (winterwallet_seed ∷ []) (address 3) ledger (omega arith)
      (inner-Fits, tt) (refl, refl, refl, refl)

encode_advance_lem_example :
    (plan.payload.data_bytes ≡ 1 ∷ bodies (inner ∷ []))
    × (plan.payload.accounts ≡ all_accounts (inner ∷ []))
    × (1 ≤ 255)
    × (total_accounts (inner ∷ []) ≤ max_passthrough_accounts)
    × (Fits inner × Unit {0})
unfolding encode_advance encode_loop
encode_advance_lem_example = encode_advance_lem (inner ∷ []) plan.payload refl

-- The wallet, as the signer of an inner call.
abbrev pub signer : AccountView
signer = record wallet { is_signer = true }

pub signer_ne : signer.address ≢ (view 5).address
signer_ne e = cc

withdraw_moves_example :
    (l' : Ledger) × (process_instruction
        (signer ∷ view 5 ∷ [])
        (Client.Instruction.withdraw (address 3) (address 5) 4000).data_bytes
        ledger
      ≡ ok l')
    × Moved signer (view 5) 4000 ledger l'
unfolding bytes_eq State.to_bytes
withdraw_moves_example =
    withdraw_moves signer (view 5) 4000 650 ledger refl signer_ne (omega arith) refl (omega arith)
      (omega arith) (omega arith)

withdraw_refused_example :
    process_instruction
      (signer ∷ view 5 ∷ [])
      (Client.Instruction.withdraw (address 3) (address 5) 4900).data_bytes
      ledger
    ≡ err insufficient_funds
unfolding bytes_eq State.to_bytes
withdraw_refused_example =
    withdraw_refused signer (view 5) 4900 650 ledger refl (omega arith) refl (omega arith)
      (omega arith) (omega arith)

withdraw_to_self_example :
    (l' : Ledger) × (process_instruction
        (signer ∷ wallet ∷ [])
        (Client.Instruction.withdraw (address 3) (address 3) 4000).data_bytes
        ledger
      ≡ ok l')
    × ((a : Bytes) → l' a ≡ ledger a)
unfolding bytes_eq State.to_bytes
withdraw_to_self_example =
    withdraw_to_self signer wallet 4000 650 ledger refl refl (omega arith) refl (omega arith)
      (omega arith) (omega arith)
