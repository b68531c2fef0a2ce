-- ===== src/Cli/Commands/Persisted/Spending.antt =====
-- cli/src/commands/{withdraw, close, transfer}.rs: the requests of each are covered.
use winterwallet.Prelude.{ℕ}
use winterwallet.Bytes.{Bytes}
use winterwallet.Core.Hash.{Hasher}
use winterwallet.Core.Keypair.{Hmac}
use winterwallet.Core.Keypair.Mnemonic.{Digests}
use winterwallet.Solana.{Address, Programs, AddressFinder}
use winterwallet.Client.Wallet.Planning.{
  IsFor, withdraw_plan-IsFor, close_plan-IsFor, transfer_plan-IsFor,
}
use winterwallet.Client.Wallet.{UnsignedAdvance, from_account, new}
use winterwallet.Cli.Host.{Host, World, Disk, ◌>>◌}
use winterwallet.Cli.Host.Invariant.{
  Turns, Yields-bind, Yields-Keeps, Yields-lift, Keeps-bind, Keeps-fail_if,
}
use winterwallet.Cli.Send.{or_client, or_foreign}
use winterwallet.Cli.Send.Exposure.{Keeps-or_foreign}
use winterwallet.Cli.Commands.Session.{Options, Session, wallet_of}
use winterwallet.Cli.Commands.Withdraw
use winterwallet.Cli.Commands.Close
use winterwallet.Cli.Commands.Transfer
use winterwallet.Cli.Commands.Persisted.Sending.{
  Covered, AtStart, IsOpen, IsPlanned, Turns-transact,
}
use winterwallet.Cli.Commands.Persisted.Opening.{Starts, map_err_inv, Yields-open_session}
use winterwallet.Cli.Commands.Persisted.Printing

module _ ⦃host : Host⦄ ⦃mac : Hmac⦄ ⦃sha : Hasher⦄ ⦃digests : Digests⦄ ⦃ids : Programs⦄
    ⦃finder : AddressFinder⦄ (start : Disk) where
  abbrev L : World → Type 0
  L = Covered start

  abbrev Done : Unit {0} → World → Type 0
  Done _ = L

  abbrev In : Session → World → Type 0
  In s w = IsOpen start s × AtStart start s.id_hex w

  -- The session's wallet is at the stored position.
  IsFor-IsPlanned :
      (s : Session) (u : UnsignedAdvance) → IsFor (wallet_of s) u → IsPlanned start s u
  unfolding from_account new
  IsFor-IsPlanned s u h = h

  pub Turns-withdraw :
      (options : Options) (to : Bytes) (amount : ℕ)
      → Turns (Starts start) L L (Withdraw.run options to amount)
  unfolding Withdraw.run ◌>>◌ or_foreign or_client
  Turns-withdraw options to amount =
      Yields-Keeps (Starts start) Done L _ _ (λ w h. h.1) (Keeps-fail_if (Starts start) _ _)
        (λ _.
          Yields-bind (Starts start) In Done L _ _ (Yields-open_session start options)
            (λ s w (is_open, h).
              let I = AtStart start s.id_hex in
              Yields-lift I Done L _ _ (λ w h. h.1)
                (λ receiver _.
                  Yields-lift I Done L _ _ (λ w h. h.1)
                    (λ u e.
                      Turns-transact start options s u _ _ _ is_open
                        (IsFor-IsPlanned s u (
                          withdraw_plan-IsFor (wallet_of s) receiver amount s.new_root u
                            (map_err_inv _ _ u e)))
                        (λ id file preview.
                          Printing.Keeps-withdraw_dry start id file options.json_output s receiver
                            amount preview)
                        (λ id file preview signature p.
                          Printing.Keeps-withdraw_sent start id file options.json_output s to
                            receiver amount preview signature p)))
                w h))

  pub Turns-close :
      (options : Options) (to : Bytes) → Turns (Starts start) L L (Close.run options to)
  unfolding Close.run or_foreign or_client
  Turns-close options to =
      Yields-bind (Starts start) In Done L _ _ (Yields-open_session start options)
        (λ s w (is_open, h).
          let I = AtStart start s.id_hex in
          Yields-lift I Done L _ _ (λ w h. h.1)
            (λ receiver _.
              Yields-lift I Done L _ _ (λ w h. h.1)
                (λ u e.
                  Turns-transact start options s u _ _ _ is_open
                    (IsFor-IsPlanned s u
                      (close_plan-IsFor (wallet_of s) receiver s.new_root u (map_err_inv _ _ u e)))
                    (λ id file preview.
                      Printing.Keeps-close_dry start id file options.json_output s receiver preview)
                    (λ id file preview signature p.
                      Printing.Keeps-close_sent start id file options.json_output s to receiver
                        preview signature p)))
            w h)

  pub Turns-transfer :
      (ata_program : Address) (options : Options) (to mint : Bytes) (amount : ℕ)
      (token_program : Bytes)
      → Turns (Starts start) L L (Transfer.run ata_program options to mint amount token_program)
  unfolding Transfer.run Transfer.parse_transfer ◌>>◌ or_client
  Turns-transfer ata_program options to mint amount token_program =
      Yields-Keeps (Starts start) Done L _ _ (λ w h. h.1) (Keeps-fail_if (Starts start) _ _)
        (λ _.
          Yields-bind (Starts start) In Done L _ _ (Yields-open_session start options)
            (λ s w (is_open, h).
              let I = AtStart start s.id_hex in
              Yields-Keeps I Done L _ _ (λ w h. h.1)
                (Keeps-bind I _ _ (Keeps-or_foreign I _ _) (λ token.
                  Keeps-bind I _ _ (Keeps-or_foreign I _ _)
                    (λ m. Keeps-bind I _ _ (Keeps-or_foreign I _ _) (λ owner w h. h))))
                (λ t.
                  Yields-lift I Done L _ _ (λ w h. h.1)
                    (λ u e.
                      Turns-transact start options s u _ _ _ is_open
                        (IsFor-IsPlanned s u (
                          transfer_plan-IsFor (wallet_of s) t.source_ata t.dest_ata t.token_program
                            amount s.new_root u (map_err_inv _ _ u e)))
                        (λ id file preview.
                          Printing.Keeps-transfer_dry start id file options.json_output s t preview)
                        (λ id file preview signature p.
                          Printing.Keeps-transfer_sent start id file options.json_output s t preview
                            signature p)))
                w h))
