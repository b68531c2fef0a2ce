-- ===== src/Cli/Commands/Withdraw.antt =====
-- cli/src/commands/withdraw.rs.
use winterwallet.Prelude.{ℕ, Bool, true, [], ◌∷◌, ◌==◌, if◌then◌else◌}
use winterwallet.Bytes.{Bytes}
use winterwallet.Common.{ascii}
use winterwallet.Core.Hash.{Hasher}
use winterwallet.Core.Keypair.{Hmac}
use winterwallet.Core.Keypair.Mnemonic.{Digests}
use winterwallet.Solana.{Address, Programs, AddressFinder}
use winterwallet.Client.Position.{SigningPosition}
use winterwallet.Client.Wallet
use winterwallet.Cli.Json.{string, number, boolean}
use winterwallet.Cli.Host.{Host, Command, format, text, count, fail_if, println, ◌>>=◌, ◌>>◌}
use winterwallet.Cli.Send.{TransactionPreview, or_client, or_foreign}
use winterwallet.Cli.Commands.Session.{
  Options, Session, open_session, wallet_of, transact, preview_fields, sent_fields, print_json,
  print_preview, print_position, print_burn_note,
}

module _ ⦃host : Host⦄ where
  unfoldable pub report_dry_run :
      Bool → Session → Address → ℕ → TransactionPreview → Command (Unit {0})
  report_dry_run json_output s receiver amount preview =
      if json_output
      then print_json (
          ("dry_run", boolean true)
          ∷ ("action", string (ascii "withdraw"))
          ∷ ("wallet_id", string s.id_hex)
          ∷ ("pda", string (host.display s.pda))
          ∷ ("receiver", string (host.display receiver))
          ∷ ("amount", number amount)
          ∷ preview_fields s.next_position preview)
      else do
        println "Dry run: withdraw" []
        println "  Amount:    {amount} lamports" (count amount ∷ [])
        println "  Receiver:  {receiver}" (text (host.display receiver) ∷ [])
        print_preview s.next_position preview
        print_burn_note s.local_state

  unfoldable pub report_sent :
      Bool
      → Session
      → Bytes
      → Address
      → ℕ
      → TransactionPreview
      → Bytes
      → SigningPosition
      → Command (Unit {0})
  report_sent json_output s to receiver amount preview signature position =
      if json_output
      then print_json (
          ("action", string (ascii "withdraw"))
          ∷ ("wallet_id", string s.id_hex)
          ∷ ("pda", string (host.display s.pda))
          ∷ ("receiver", string (host.display receiver))
          ∷ ("amount", number amount)
          ∷ sent_fields signature position preview)
      else do
        println "Withdrawal successful!" []
        println "  Amount:    {amount} lamports" (count amount ∷ [])
        println "  Receiver:  {to}" (text to ∷ [])
        println "  Tx:        {signature}" (text signature ∷ [])
        print_position position

  module _ ⦃mac : Hmac⦄ ⦃sha : Hasher⦄ ⦃digests : Digests⦄ ⦃ids : Programs⦄
      ⦃finder : AddressFinder⦄ where
    unfoldable pub run : Options → Bytes → ℕ → Command (Unit {0})
    run options to amount = do
      fail_if (amount == 0) (format "amount must be greater than zero" [])
      s ← open_session options
      receiver ← or_foreign "invalid receiver address: {e}" (host.parse to)
      unsigned ←
          or_client "advance plan error: {e}"
            (Wallet.withdraw_plan (wallet_of s) receiver amount s.new_root)
      transact options s unsigned (report_dry_run options.json_output s receiver amount)
          "Static checks passed. Signing burns position ({}, {}); local state will be advanced before network submission."
          (report_sent options.json_output s to receiver amount)
