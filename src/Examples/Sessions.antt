-- ===== src/Examples/Sessions.antt =====
-- A run of the client and the program together.
use winterwallet.Prelude.{ℕ, ◌+◌, ◌≡◌, refl, [], ◌∷◌, some, Result, ok}
use winterwallet.Bytes.{bytes_eq_refl}
use winterwallet.Core.Keypair.{derive, increment_child, sign_and_increment}
use winterwallet.Core.Merkle.{merklize}
use winterwallet.Core.Privkey.{to_pubkey}
use winterwallet.Core.Signature
use winterwallet.Client.Error.{Error}
use winterwallet.Client.Plan
use winterwallet.Client.Instruction.{encode_advance, encode_loop}
use winterwallet.Client.Position.{from_keypair, next, ensure_can_advance}
use winterwallet.Client.State.{from_bytes}
use winterwallet.Client.Wallet
use winterwallet.Client.Wallet.{
  UnsignedAdvance, SignedAdvance, PersistedAdvance, persist, advance_instruction,
}
use winterwallet.Program.State
use winterwallet.Program.Entrypoint.{process_instruction}
use winterwallet.Protocol.Account.{from_bytes-to_bytes}
use winterwallet.Protocol.Session.{session_replays_plan}
use winterwallet.Examples.World.{
  test_hasher, test_hmac, test_programs, test_runtime, keypair, next_keypair,
}
use winterwallet.Examples.Wallets.{
  inner, views, wallet, stored, new_root, plan, ledger, signature, advanced, held, free,
  stored-IsLaidOut,
}

abbrev facade : Wallet.WinterWallet
facade = record {
  id = stored.id;
  pda = wallet.address;
  current_root = stored.root;
  position = from_keypair keypair;
}

abbrev unsigned : UnsignedAdvance
unsigned = record {
  wallet_id = stored.id;
  current_root = stored.root;
  position = from_keypair keypair;
  plan = plan;
}

abbrev signed : SignedAdvance
signed = record {
  wallet_id = stored.id;
  signing_position = from_keypair keypair;
  next_position = from_keypair next_keypair;
  signature = Signature.as_bytes signature;
  plan = plan;
}

-- A store that counts what it has recorded.
abbrev store : ℕ → SignedAdvance → Result Error ℕ
store recorded advance = ok (recorded + 1)

plans : Wallet.advance_plan facade new_root (inner ∷ []) ≡ ok unsigned
unfolding Wallet.advance_plan Wallet.unsigned Plan.new encode_advance encode_loop
plans = refl

signs : Wallet.sign unsigned keypair ≡ some (ok (signed, next_keypair))
unfolding Wallet.sign Wallet.check_signer Wallet.signed Wallet.preimage ensure_can_advance next
    sign_and_increment increment_child
signs = rw (bytes_eq_refl (merklize (to_pubkey (derive 22 keypair))))

persists : persist store signed 0 ≡ ok (record { signed = signed }, 1)
unfolding persist
persists = refl

session_replays_plan_example :
    process_instruction
      (wallet ∷ views)
      (advance_instruction (record { signed = signed })).data_bytes
      ledger
    ≡ ok advanced
session_replays_plan_example =
    session_replays_plan store 0 1 keypair next_keypair stored (from_keypair keypair) (inner ∷ [])
      new_root unsigned signed (record { signed = signed }) wallet views ledger stored-IsLaidOut
      held free refl plans signs persists refl (refl, tt)

from_bytes-to_bytes_example :
    from_bytes (State.to_bytes stored)
    ≡ ok (record { id = stored.id; root = stored.root; bump = stored.bump })
from_bytes-to_bytes_example = from_bytes-to_bytes stored stored-IsLaidOut
