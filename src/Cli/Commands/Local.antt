-- ===== src/Cli/Commands/Local.antt =====
-- cli/src/commands/state.rs: what is stored for the entered mnemonic.
use winterwallet.Prelude.{Bool, Option, none, some, [], ◌∷◌, if◌then◌else◌}
use mathlib.Core.Option
use winterwallet.Bytes.{Bytes}
use winterwallet.Core.Hash.{Hasher}
use winterwallet.Core.Keypair.{Hmac}
use winterwallet.Core.Keypair.Mnemonic.{Digests}
use winterwallet.Client.Pda.{wallet_id_from_mnemonic}
use winterwallet.Cli.Json.{Json, string, number, optional, map_of}
use winterwallet.Cli.Host.{Host, WalletState, Command, text, count, println, ◌>>=◌, ◌>>◌}
use winterwallet.Cli.State.{hex_encode, load, state_path, state_dir}
use winterwallet.Cli.Send.{or_client, read_mnemonic}
use winterwallet.Cli.Commands.Session.{print_json}

abbrev pub state_json : WalletState → Json
state_json s =
    map_of (("pda", string s.pda) ∷ ("parent", number s.parent) ∷ ("child", number s.child) ∷ [])

unfoldable pub print_state : Option WalletState → Command (Unit {0})
print_state none = println "State:     not found" []
print_state (some local_state) = do
  println "PDA:       {}" (text local_state.pda ∷ [])
  println "Position:  ({}, {})" (count local_state.parent ∷ count local_state.child ∷ [])

module _ ⦃host : Host⦄ where
  unfoldable pub path : Bool → Command (Unit {0})
  path json_output =
      if json_output
      then print_json (("state_dir", string state_dir) ∷ [])
      else println "{}" (text state_dir ∷ [])

  -- What `show` prints.
  unfoldable pub report : Bool → Bytes → Option WalletState → Command (Unit {0})
  report json_output id_hex loaded =
      if json_output
      then print_json (
          ("wallet_id", string id_hex)
          ∷ ("path", string (state_path id_hex))
          ∷ ("state", optional (Option.map state_json loaded))
          ∷ [])
      else do
        println "Wallet ID: {wallet_id_hex}" (text id_hex ∷ [])
        println "Path:      {}" (text (state_path id_hex) ∷ [])
        print_state loaded

  unfoldable pub show :
      ⦃mac : Hmac⦄ → ⦃sha : Hasher⦄ → ⦃digests : Digests⦄ → Bool → Command (Unit {0})
  show json_output = do
    mnemonic ← read_mnemonic
    id ← or_client "failed to derive wallet ID: {e}" (wallet_id_from_mnemonic mnemonic)
    let id_hex = hex_encode id
    loaded ← load id_hex
    report json_output id_hex loaded
