-- ===== src/Cli/Commands/Transfer.antt =====
-- cli/src/commands/transfer.rs.
use Prim.Native.String.{String}
use winterwallet.Prelude.{ℕ, Bool, true, List, [], ◌∷◌, ◌==◌, if◌then◌else◌}
use winterwallet.Bytes.{Bytes}
use winterwallet.Common.{ascii}
use winterwallet.Core.Hash.{Hasher}
use winterwallet.Core.Keypair.{Hmac}
use winterwallet.Core.Keypair.Mnemonic.{Digests}
use winterwallet.Solana.{Address, Programs, AddressFinder}
use winterwallet.Client.Position.{SigningPosition}
use winterwallet.Client.Wallet
use winterwallet.Cli.Json.{Json, string, number, boolean}
use winterwallet.Cli.Host.{Host, Command, format, text, count, pure, fail_if, println, ◌>>=◌, ◌>>◌}
use winterwallet.Cli.Send.{TransactionPreview, or_client, or_foreign}
use winterwallet.Cli.Commands.Session.{
  Options, Session, open_session, wallet_of, transact, preview_fields, sent_fields, print_json,
  print_preview, print_position, print_burn_note,
}

-- The values that both reports of a transfer have.
pub record Transfer : Type 0 where
  pub amount : ℕ
  pub dest_owner : Address
  pub mint_addr : Address
  pub token_program : Address
  pub source_ata : Address
  pub dest_ata : Address

module _ ⦃host : Host⦄ where
  -- The fields after `action` that both JSON reports have.
  unfoldable pub transfer_fields : Session → Transfer → List (String × Json) → List (String × Json)
  transfer_fields s t rest =
      ("wallet_id", string s.id_hex)
      ∷ ("pda", string (host.display s.pda))
      ∷ ("recipient_owner", string (host.display t.dest_owner))
      ∷ ("mint", string (host.display t.mint_addr))
      ∷ ("amount", number t.amount)
      ∷ ("source_ata", string (host.display t.source_ata))
      ∷ ("destination_ata", string (host.display t.dest_ata))
      ∷ ("token_program", string (host.display t.token_program))
      ∷ rest

  unfoldable pub report_dry_run :
      Bool → Session → Transfer → TransactionPreview → Command (Unit {0})
  report_dry_run json_output s t preview =
      if json_output
      then print_json (
          ("dry_run", boolean true)
          ∷ ("action", string (ascii "transfer"))
          ∷ transfer_fields s t (preview_fields s.next_position preview))
      else do
        println "Dry run: token transfer" []
        println "  Amount:    {amount}" (count t.amount ∷ [])
        println "  Source:    {source_ata}" (text (host.display t.source_ata) ∷ [])
        println "  Dest:      {dest_ata}" (text (host.display t.dest_ata) ∷ [])
        print_preview s.next_position preview
        print_burn_note s.local_state

  unfoldable pub report_sent :
      Bool → Session → Transfer → TransactionPreview → Bytes → SigningPosition → Command (Unit {0})
  report_sent json_output s t preview signature position =
      if json_output
      then print_json (
          ("action", string (ascii "transfer"))
          ∷ transfer_fields s t (sent_fields signature position preview))
      else do
        println "Token transfer successful!" []
        println "  Amount:    {amount}" (count t.amount ∷ [])
        println "  Source:    {source_ata}" (text (host.display t.source_ata) ∷ [])
        println "  Dest:      {dest_ata}" (text (host.display t.dest_ata) ∷ [])
        println "  Tx:        {signature}" (text signature ∷ [])
        print_position position

  -- `derive_ata`; the address of the associated-token program is decoded by solana_address.
  unfoldable pub derive_ata :
      ⦃finder : AddressFinder⦄ → Address → Address → Address → Address → Address
  derive_ata ⦃finder⦄ ata_program owner mint token_program =
      (finder.find_program_address (owner ∷ token_program ∷ mint ∷ []) ata_program).0

  module _ ⦃mac : Hmac⦄ ⦃sha : Hasher⦄ ⦃digests : Digests⦄ ⦃ids : Programs⦄
      ⦃finder : AddressFinder⦄ where
    -- The addresses that are parsed, and those derived from them.
    unfoldable pub parse_transfer : Address → Session → Bytes → Bytes → ℕ → Bytes → Command Transfer
    parse_transfer ata_program s to mint amount token_program = do
      token_program ← or_foreign "invalid token program: {e}" (host.parse token_program)
      mint_addr ← or_foreign "invalid mint: {e}" (host.parse mint)
      dest_owner ← or_foreign "invalid recipient: {e}" (host.parse to)
      pure (record {
        amount = amount;
        dest_owner = dest_owner;
        mint_addr = mint_addr;
        token_program = token_program;
        source_ata = derive_ata ata_program s.pda mint_addr token_program;
        dest_ata = derive_ata ata_program dest_owner mint_addr token_program;
      })

    unfoldable pub run : Address → Options → Bytes → Bytes → ℕ → Bytes → Command (Unit {0})
    run ata_program options to mint amount token_program = do
      fail_if (amount == 0) (format "amount must be greater than zero" [])
      s ← open_session options
      t ← parse_transfer ata_program s to mint amount token_program
      unsigned ← or_client "{e}" (
          Wallet.transfer_plan (wallet_of s) t.source_ata t.dest_ata t.token_program amount
            s.new_root)
      transact options s unsigned (report_dry_run options.json_output s t)
          "Static checks passed. Signing burns position ({}, {}); local state will be advanced before network submission."
          (report_sent options.json_output s t)
