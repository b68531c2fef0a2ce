-- ===== src/Cli/Commands/Rescan.antt =====
-- cli/src/commands/recover.rs: the command around the scan. The progress lines and the times of the
-- scan are left out.
use winterwallet.Prelude.{ℕ, Bool, Option, none, some, [], ◌∷◌, if◌then◌else◌}
use winterwallet.Common.{ascii}
use winterwallet.Bytes.{Bytes}
use winterwallet.Core.Hash.{Hasher}
use winterwallet.Core.Keypair.{Hmac}
use winterwallet.Core.Keypair.Mnemonic.{Digests}
use winterwallet.Solana.{Address, Programs, AddressFinder}
use winterwallet.Core.Keypair.Mnemonic.{from_mnemonic}
use winterwallet.Client.Pda.{find_wallet_address, wallet_id_from_mnemonic}
use winterwallet.Client.State.{from_bytes}
use winterwallet.Cli.Json.{string, number, map_of}
use winterwallet.Cli.Host.{Host, Command, format, text, count, fail, println, ◌>>=◌, ◌>>◌}
use winterwallet.Cli.Recover.{recover}
use winterwallet.Cli.State.{hex_encode, acquire_lock, save}
use winterwallet.Cli.Send.{or_client, read_mnemonic, get_account}
use winterwallet.Cli.Commands.Session.{or_core, print_json}

module _ ⦃host : Host⦄ where
  -- What is printed of a position that was found.
  unfoldable pub report : Bool → Bytes → Address → ℕ → Command (Unit {0})
  report json_output id_hex pda child =
      if json_output
      then print_json (
          ("action", string (ascii "recover"))
          ∷ ("wallet_id", string id_hex)
          ∷ ("pda", string (host.display pda))
          ∷ ("position", map_of (("parent", number 0) ∷ ("child", number child) ∷ []))
          ∷ ("scanned_positions", number child)
          ∷ [])
      else do
        println "Recovery successful!" []
        println "  Next signing position: {child}" (count child ∷ [])
        println "  PDA: {pda}" (text (host.display pda) ∷ [])
        println "  Scanned: {scanned} positions in {elapsed_ms} ms ({rate:.1}/s)" (count child ∷ [])

  -- `match found`: the position is saved and reported.
  unfoldable pub settle_scan : Bool → Bytes → Address → ℕ → Option ℕ → Command (Unit {0})
  settle_scan json_output id_hex pda max_depth none = fail (
      format
        "position not found within scan depth {max_depth}. Verify your mnemonic is correct, or increase --max-depth."
        (count max_depth ∷ []))
  settle_scan json_output id_hex pda max_depth (some child) = do
    save (record { wallet_id = id_hex; pda = host.display pda; parent = 0; child = child })
    report json_output id_hex pda child

  module _ ⦃mac : Hmac⦄ ⦃sha : Hasher⦄ ⦃digests : Digests⦄ ⦃ids : Programs⦄
      ⦃finder : AddressFinder⦄ where
    unfoldable pub run : Bytes → Bytes → ℕ → Bool → Command (Unit {0})
    run rpc_url commitment max_depth json_output = do
      mnemonic ← read_mnemonic
      id ← or_client "failed to derive wallet ID: {e}" (wallet_id_from_mnemonic mnemonic)
      let id_hex = hex_encode id
      let pda = (find_wallet_address id).0
      acquire_lock id_hex
      account ← get_account rpc_url commitment pda
      on_chain ← or_client "failed to deserialize wallet: {e}" (from_bytes account.data_bytes)
      println "Scanning positions 1 through {max_depth}..." (count max_depth ∷ [])
      master ← or_core "derivation error: {e}" (from_mnemonic mnemonic 0)
      settle_scan json_output id_hex pda max_depth (recover master on_chain.root max_depth)
