-- ===== src/Cli/Commands/Persisted.antt =====
-- cli/src/commands: the position is on the disk before the server sees a signature.
pub mod Sending
pub mod Opening
pub mod Printing
pub mod Spending
pub mod Initializing
pub mod Inspecting
use winterwallet.Prelude.{◌≡◌, refl, List, [], All, Option}
use winterwallet.Bytes.{Bytes}
use winterwallet.Core.Hash.{Hasher}
use winterwallet.Core.Keypair.{Hmac}
use winterwallet.Core.Keypair.Mnemonic.{Digests}
use winterwallet.Solana.{Address, Programs, AddressFinder}
use winterwallet.Cli.Host.{Host, World, Disk, Command, ◌>>=◌, ◌>>◌, lift}
use winterwallet.Cli.Host.Invariant.{Turns, Yields-lift, Yields-Keeps, Turns→Leads, Keeps-fail_if}
use winterwallet.Cli.Send.{validate_commitment, ok_or_fail}
use winterwallet.Cli.Commands.Main.{
  Cli, Subcommand, create, init, info, withdraw, close, transfer, recover, state, StateCommand,
  show, path, repair, dispatch, main, required_keypair, options_of,
}
use Sending.{IsCovered, Covered}
use Opening.{Starts}
use Spending.{Turns-withdraw, Turns-close, Turns-transfer}
use Initializing.{Turns-init}
use Inspecting.{Turns-create, Turns-info, Turns-show, Turns-path, Turns-rescan}

module _ ⦃host : Host⦄ ⦃mac : Hmac⦄ ⦃sha : Hasher⦄ ⦃digests : Digests⦄ ⦃ids : Programs⦄
    ⦃finder : AddressFinder⦄ where
  module _ (start : Disk) where
    abbrev L : World → Type 0
    L = Covered start

    -- With a keypair, or not at all.
    with_keypair :
        (keypair : Option Bytes) (f : Bytes → Command (Unit {0}))
        → ((path : Bytes) → Turns (Starts start) L L (f path))
        → Turns
            (Starts start)
            L
            L
            (ok_or_fail keypair "--keypair is required for this command" >>= f)
    unfolding ok_or_fail
    with_keypair keypair f t =
        Yields-lift (Starts start) (λ _. L) L _ f (λ w h. h.1) (λ path _. t path)

    Turns-dispatch :
        (ata_program : Address) (cli : Cli) (command : Subcommand)
        → Turns (Starts start) L L (dispatch ata_program cli command)
    unfolding dispatch required_keypair
    Turns-dispatch ata_program cli create = Turns-create start cli.json_output
    Turns-dispatch ata_program cli init =
        with_keypair cli.keypair _ (λ keypair. Turns-init start (options_of cli keypair))
    Turns-dispatch ata_program cli info =
        Turns-info start cli.rpc_url cli.commitment cli.json_output
    Turns-dispatch ata_program cli (withdraw to amount) =
        with_keypair cli.keypair _
          (λ keypair. Turns-withdraw start (options_of cli keypair) to amount)
    Turns-dispatch ata_program cli (close to) =
        with_keypair cli.keypair _ (λ keypair. Turns-close start (options_of cli keypair) to)
    Turns-dispatch ata_program cli (transfer to mint amount token_program) =
        with_keypair cli.keypair _ (λ keypair.
          Turns-transfer start ata_program (options_of cli keypair) to mint amount token_program)
    Turns-dispatch ata_program cli (recover max_depth) =
        Turns-rescan start cli.rpc_url cli.commitment max_depth cli.json_output
    Turns-dispatch ata_program cli (state show) = Turns-show start cli.json_output
    Turns-dispatch ata_program cli (state path) = Turns-path start cli.json_output
    Turns-dispatch ata_program cli (state (repair max_depth)) =
        Turns-rescan start cli.rpc_url cli.commitment max_depth cli.json_output

  -- For every command line, machine and start without earlier events: whenever the program posts a
  -- request that carries a signature (`simulateTransaction` or `sendTransaction`), a wallet was at
  -- a position on the disk of the start (that of its file, or the first one without a file), and
  -- its file on the disk of that moment holds the complete text of the next position.
  pub main-IsCovered :
      (ata_program : Address) (cli : Cli) (w : World)
      → w.history ≡ []
      → All (IsCovered w.disk) ((main ata_program cli w).1).history
  unfolding main validate_commitment ◌>>◌
  main-IsCovered ata_program cli w fresh =
      let start = w.disk in
      Turns→Leads (Starts start) (L start) (main ata_program cli)
        (Yields-Keeps (Starts start) (λ _. L start) (L start) _ _ (λ v h. h.1)
          (Keeps-fail_if (Starts start) _ _)
          (λ _. Turns-dispatch start ata_program cli cli.command))
        w (refl, rw fresh tt)
