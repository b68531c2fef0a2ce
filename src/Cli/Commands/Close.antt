-- ===== src/Cli/Commands/Close.antt =====
-- cli/src/commands/close.rs.
use winterwallet.Prelude.{Bool, true, [], ◌∷◌, if◌then◌else◌}
use winterwallet.Bytes.{Bytes}
use winterwallet.Common.{ascii}
use winterwallet.Core.Hash.{Hasher}
use winterwallet.Core.Keypair.{Hmac}
use winterwallet.Core.Keypair.Mnemonic.{Digests}
use winterwallet.Solana.{Address, Programs, AddressFinder}
use winterwallet.Client.Position.{SigningPosition}
use winterwallet.Client.Wallet
use winterwallet.Cli.Json.{string, number, boolean}
use winterwallet.Cli.Host.{Host, Command, text, count, println, ◌>>=◌, ◌>>◌}
use winterwallet.Cli.Send.{TransactionPreview, or_client, or_foreign}
use winterwallet.Cli.Commands.Session.{
  Options, Session, open_session, wallet_of, transact, preview_fields, sent_fields, print_json,
  print_preview, print_burn_note,
}

module _ ⦃host : Host⦄ where
  unfoldable pub report_dry_run : Bool → Session → Address → TransactionPreview → Command (Unit {0})
  report_dry_run json_output s receiver preview =
      if json_output
      then print_json (
          ("dry_run", boolean true)
          ∷ ("action", string (ascii "close"))
          ∷ ("wallet_id", string s.id_hex)
          ∷ ("pda", string (host.display s.pda))
          ∷ ("receiver", string (host.display receiver))
          ∷ ("balance", number s.account.lamports)
          ∷ preview_fields s.next_position preview)
      else do
        println "Dry run: close" []
        println "  Balance:   {balance} lamports (will sweep entire balance)"
            (count s.account.lamports ∷ [])
        println "  Receiver:  {receiver}" (text (host.display receiver) ∷ [])
        print_preview s.next_position preview
        print_burn_note s.local_state

  unfoldable pub report_sent :
      Bool
      → Session
      → Bytes
      → Address
      → TransactionPreview
      → Bytes
      → SigningPosition
      → Command (Unit {0})
  report_sent json_output s to receiver preview signature position =
      if json_output
      then print_json (
          ("action", string (ascii "close"))
          ∷ ("wallet_id", string s.id_hex)
          ∷ ("pda", string (host.display s.pda))
          ∷ ("receiver", string (host.display receiver))
          ∷ ("balance", number s.account.lamports)
          ∷ sent_fields signature position preview)
      else do
        println "Wallet closed!" []
        println "  Swept:     {balance} lamports" (count s.account.lamports ∷ [])
        println "  Receiver:  {to}" (text to ∷ [])
        println "  Tx:        {signature}" (text signature ∷ [])
        println "  Note:      wallet PDA destroyed; local state at ({}, {}) is now stale"
            (count position.parent ∷ count position.child ∷ [])

  module _ ⦃mac : Hmac⦄ ⦃sha : Hasher⦄ ⦃digests : Digests⦄ ⦃ids : Programs⦄
      ⦃finder : AddressFinder⦄ where
    unfoldable pub run : Options → Bytes → Command (Unit {0})
    run options to = do
      s ← open_session options
      receiver ← or_foreign "invalid receiver address: {e}" (host.parse to)
      unsigned ←
          or_client "advance plan error: {e}" (Wallet.close_plan (wallet_of s) receiver s.new_root)
      transact options s unsigned (report_dry_run options.json_output s receiver)
          "Static checks passed. Signing burns position ({}, {}); local state will be advanced before network submission. The wallet PDA will be destroyed."
          (report_sent options.json_output s to receiver)
