-- ===== src/Cli/Commands/Create.antt =====
-- cli/src/commands/create.rs.
use winterwallet.Prelude.{Bool, [], ◌∷◌, if◌then◌else◌}
use winterwallet.Bytes.{Bytes}
use winterwallet.Core.Hash.{Hasher}
use winterwallet.Core.Keypair.{Hmac}
use winterwallet.Core.Keypair.Mnemonic.{Digests}
use winterwallet.Solana.{Address, Programs, AddressFinder}
use winterwallet.Core.Keypair.Mnemonic.{generate_mnemonic, join_words}
use winterwallet.Client.Pda.{find_wallet_address, wallet_id_from_mnemonic}
use winterwallet.Cli.Json.{string}
use winterwallet.Cli.Host.{Host, Command, text, println, ◌>>=◌, ◌>>◌}
use winterwallet.Cli.State.{hex_encode, tick}
use winterwallet.Cli.Send.{or_client, or_foreign, ok_or_fail}
use winterwallet.Cli.Commands.Session.{print_json}

module _ ⦃host : Host⦄ where
  -- What is printed.
  unfoldable pub report : Bool → Bytes → Bytes → Address → Command (Unit {0})
  report json_output mnemonic id_hex pda =
      if json_output
      then print_json (
          ("mnemonic", string mnemonic)
          ∷ ("wallet_id", string id_hex)
          ∷ ("pda", string (host.display pda))
          ∷ [])
      else do
        println "Mnemonic (write this down, it will NOT be shown again):\n" []
        println "  {}\n" (text mnemonic ∷ [])
        println "Wallet ID:  {wallet_id_hex}" (text id_hex ∷ [])
        println "PDA:        {pda}" (text (host.display pda) ∷ [])

  -- `getrandom::fill`
  unfoldable pub fill_random : Command Bytes
  fill_random w = or_foreign "failed to get entropy: {e}" (host.random w.clock) (tick w)

  module _ ⦃mac : Hmac⦄ ⦃sha : Hasher⦄ ⦃digests : Digests⦄ ⦃ids : Programs⦄
      ⦃finder : AddressFinder⦄ where
    unfoldable pub run : Bool → Command (Unit {0})
    run json_output = do
      entropy ← fill_random
      words ← ok_or_fail (generate_mnemonic entropy) "panicked"
      let mnemonic = join_words words
      id ← or_client "failed to derive wallet ID: {e}" (wallet_id_from_mnemonic mnemonic)
      let pda = (find_wallet_address id).0
      let id_hex = hex_encode id
      report json_output mnemonic id_hex pda
