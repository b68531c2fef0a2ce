-- ===== src/Examples/Machines.antt =====
-- Runs of the command-line client (cli/src) on a small machine.
use winterwallet.Prelude.{
  ℕ, zero, suc, ◌+◌, ◌<◌, ◌%◌, ◌≡◌, ◌⊎◌, refl, List, [], ◌∷◌, ◌++◌, true, false, none, some, ok,
  err, arith, length, replicate, All,
}
use winterwallet.Bytes.{Bytes, IsByte}
use winterwallet.Common.{ascii}
use winterwallet.Core.Keypair.Mnemonic.{
  Digests, generate_mnemonic, validate, join_words, total_bits, split_ascii_whitespace, pieces,
  non_empty, is_ascii_whitespace, write_words, write_index, set_bits, position, wordlist_lines,
  lines, prepend, check_checksum, at,
}
use winterwallet.Core.Keypair.Mnemonic.Wordlist.{wordlist}
use winterwallet.Core.Keypair.Mnemonic.RoundTrip.{validate-generate_mnemonic}
use winterwallet.Cli.Json.{
  Json, null, string, list, map_of, get, lookup, items_of, fields_of, at_key, at_index, optional,
  nth, is_object, is_null, as_str,
}
use winterwallet.Cli.Host.{Host, World, WalletState, Message, format, ◌>>=◌, ◌>>◌, resume, lift}
use winterwallet.Cli.State.{
  state_path_in, save_in_dir, load_in_dir, ensure_state_dir, write_state, write_all,
  discard_on_error, discarded, syscall, attempt, unless, is_some, set_directory, tick,
}
use winterwallet.Cli.State.Save.{IsOldOrNew, saved, save_in_dir-IsOldOrNew, load_in_dir-save_in_dir}
use winterwallet.Cli.Send.{confirm_transaction, received, answered, verdict, is_final}
use winterwallet.Cli.Send.Confirm.{
  verdict_at, verdict_of, confirm_transaction-verdict_at, confirm_transaction-timeout,
}
use winterwallet.Cli.Commands.Main.{Cli, withdraw, main}
use winterwallet.Cli.Commands.Persisted.Sending.{IsCovered}
use winterwallet.Cli.Commands.Persisted.{main-IsCovered}
use winterwallet.Examples.World.{
  All-replicate, digest, total, test_hasher, test_hmac, test_programs, test_finder, address,
}

instance abbrev test_digests : Digests
test_digests = record {
  sha256 = digest;
  length-sha256 = λ message. refl;
  sha256-IsBytes = λ message. (omega arith, (omega arith, All-replicate IsByte 30 7 (omega arith)));
  pbkdf2_hmac_sha512 = λ password salt rounds. replicate 64 (total password % 256);
}

abbrev entropy : Bytes
entropy = replicate 32 1

validate-generate_mnemonic_example :
    (words : List Bytes) × (generate_mnemonic entropy ≡ some words)
    × (length words ≡ 24)
    × (validate (join_words words) ≡ ok tt)
validate-generate_mnemonic_example =
    validate-generate_mnemonic entropy refl (All-replicate IsByte 32 1 (omega arith))

-- The words of this entropy.
abbrev mnemonic : Bytes
mnemonic =
    ascii "absurd amount doctor acoustic avoid letter advice cage absurd amount doctor acoustic "
    ++ ascii "avoid letter advice cage absurd amount doctor acoustic avoid letter advice chimney"

test_mnemonic : validate mnemonic ≡ ok tt
unfolding validate total_bits split_ascii_whitespace pieces non_empty is_ascii_whitespace
    write_words write_index set_bits position wordlist_lines lines prepend wordlist check_checksum
    at winterwallet.Bytes.bytes_eq
test_mnemonic = refl

abbrev at_three : WalletState
at_three = record { wallet_id = 97 ∷ []; pda = 98 ∷ []; parent = 0; child = 3 }

-- A status that is confirmed.
abbrev confirmed : Json
confirmed = map_of (("confirmationStatus", string (ascii "confirmed")) ∷ [])

abbrev status_answer : Json → Json
status_answer status = map_of (("result", map_of (("value", list (status ∷ [])) ∷ [])) ∷ [])

-- The server of the empty address never knows a signature; any other one confirms it from the second
-- question on.
abbrev status_at : ℕ → Bytes → Json
status_at time [] = null
status_at zero (c ∷ cs) = null
status_at (suc time) (c ∷ cs) = confirmed

instance abbrev test_host : Host
test_host = record {
  fault = λ time. none;
  written = λ time. 1;
  new_mode = 420;
  process_id = ascii "7";
  home = some (ascii "/h");
  respond = λ time rpc_url body. ok (ok (status_answer (status_at time rpc_url)));
  is_terminal = true;
  prompt_password = λ time. ok mnemonic;
  read_line = λ time. ok mnemonic;
  random = λ time. ok (replicate 32 1);
  to_string_pretty = λ state. ok (state.child ∷ []);
  state_from_str = λ contents. ok at_three;
  bytes_from_str = λ contents. ok (replicate 64 1);
  encode_base64 = λ bytes. bytes;
  decode_base64 = λ bytes. ok bytes;
  decode_bs58 = λ bytes. ok bytes;
  display = λ a. a;
  parse = λ bytes. ok bytes;
  verifying_key = λ secret. secret;
  sign = λ secret message. replicate 64 2;
}

abbrev fresh_world : World
fresh_world = record {
  disk = λ path. none;
  directories = λ path. none;
  history = [];
  locks = [];
  printed = [];
  clock = 0;
}

-- A world with a payer's key and a wallet's position.
abbrev used_world : World
used_world = record fresh_world { disk = λ path. some (record { contents = 3 ∷ []; mode = 384 }) }

abbrev dir : Bytes
dir = ascii "/d"

save_in_dir-IsOldOrNew_example :
    (let path = state_path_in dir (97 ∷ []) in
      let (r, w') = save_in_dir dir at_three fresh_world in
      All (IsOldOrNew path none (saved (3 ∷ []))) w'.history
      × (((r ≡ ok tt) × (w'.disk path ≡ saved (3 ∷ [])))
          ⊎ (((e : Message) × (r ≡ err e))
              × ((w'.disk path ≡ none) ⊎ (w'.disk path ≡ saved (3 ∷ []))))))
save_in_dir-IsOldOrNew_example = save_in_dir-IsOldOrNew dir at_three (3 ∷ []) fresh_world refl refl

test_save : (save_in_dir dir at_three fresh_world).0 ≡ ok tt
unfolding save_in_dir ensure_state_dir write_state write_all discard_on_error discarded syscall
    attempt unless is_some set_directory tick ◌>>=◌ ◌>>◌ resume lift
test_save = refl

load_in_dir-save_in_dir_example :
    (load_in_dir dir (97 ∷ []) (save_in_dir dir at_three fresh_world).1).0 ≡ ok (some at_three)
load_in_dir-save_in_dir_example =
    load_in_dir-save_in_dir dir at_three (3 ∷ []) fresh_world refl refl test_save refl

test_confirmed : verdict_at (1 ∷ []) (5 ∷ []) 1 ≡ some (ok tt)
unfolding verdict_at verdict_of received answered get lookup map_of fields_of list items_of at_key
    at_index optional nth verdict is_object is_null is_final as_str winterwallet.Bytes.bytes_eq
test_confirmed = refl

test_unknown : (rpc_url : Bytes) → verdict_at rpc_url (5 ∷ []) 0 ≡ none
unfolding verdict_at verdict_of received answered get lookup map_of fields_of list items_of at_key
    at_index optional nth verdict is_object winterwallet.Bytes.bytes_eq
test_unknown [] = refl
test_unknown (c ∷ cs) = refl

test_never : (time : ℕ) → verdict_at [] (5 ∷ []) time ≡ none
unfolding verdict_at verdict_of received answered get lookup map_of fields_of list items_of at_key
    at_index optional nth verdict is_object winterwallet.Bytes.bytes_eq
test_never time = refl

confirm_transaction-verdict_at_example :
    ((confirm_transaction (1 ∷ []) (5 ∷ []) fresh_world).0 ≡ ok tt)
    × (length ((confirm_transaction (1 ∷ []) (5 ∷ []) fresh_world).1).history ≡ 0 + 2)
confirm_transaction-verdict_at_example =
    confirm_transaction-verdict_at (1 ∷ []) (5 ∷ []) 1 fresh_world (ok tt) (omega arith) before
      test_confirmed
  where
    before : (i : ℕ) → i < 1 → verdict_at (1 ∷ []) (5 ∷ []) (0 + i) ≡ none
    before zero h = test_unknown (1 ∷ [])
    before (suc i) h = absurd (omega arith)

confirm_transaction-timeout_example :
    ((confirm_transaction [] (5 ∷ []) fresh_world).0
      ≡ err (format "transaction confirmation timeout (30s)" []))
    × (length ((confirm_transaction [] (5 ∷ []) fresh_world).1).history ≡ 0 + 60)
confirm_transaction-timeout_example =
    confirm_transaction-timeout [] (5 ∷ []) fresh_world (λ i h. test_never (0 + i))

-- A withdrawal of 5 lamports.
abbrev withdrawal : Cli
withdrawal = record {
  rpc_url = 1 ∷ [];
  keypair = some (ascii "/k");
  json_output = true;
  dry_run = false;
  commitment = ascii "confirmed";
  priority_fee = 0;
  command = withdraw (address 4) 5;
}

main-IsCovered_example :
    All (IsCovered used_world.disk) ((main (address 9) withdrawal used_world).1).history
main-IsCovered_example = main-IsCovered (address 9) withdrawal used_world refl
