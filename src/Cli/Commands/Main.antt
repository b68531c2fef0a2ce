-- ===== src/Cli/Commands/Main.antt =====
-- cli/src/main.rs: the arguments, which the crate clap parses, and the choice of the command.
use winterwallet.Prelude.{ℕ, Bool, Option}
use winterwallet.Bytes.{Bytes}
use winterwallet.Core.Hash.{Hasher}
use winterwallet.Core.Keypair.{Hmac}
use winterwallet.Core.Keypair.Mnemonic.{Digests}
use winterwallet.Solana.{Address, Programs, AddressFinder}
use winterwallet.Cli.Host.{Host, Command, ◌>>=◌, ◌>>◌}
use winterwallet.Cli.Send.{validate_commitment, ok_or_fail}
use winterwallet.Cli.Commands.Session.{Options}
use winterwallet.Cli.Commands.Withdraw
use winterwallet.Cli.Commands.Close
use winterwallet.Cli.Commands.Transfer
use winterwallet.Cli.Commands.Init
use winterwallet.Cli.Commands.Create
use winterwallet.Cli.Commands.Info
use winterwallet.Cli.Commands.Rescan
use winterwallet.Cli.Commands.Local

pub data StateCommand : Type 0 where
  show path : StateCommand
  repair : ℕ → StateCommand

-- The enum `Command`.
pub data Subcommand : Type 0 where
  create init info : Subcommand
  withdraw : Bytes → ℕ → Subcommand
  close : Bytes → Subcommand
  -- to, mint, amount, token program
  transfer : Bytes → Bytes → ℕ → Bytes → Subcommand
  recover : ℕ → Subcommand
  state : StateCommand → Subcommand

pub record Cli : Type 0 where
  pub rpc_url : Bytes
  pub keypair : Option Bytes
  pub json_output : Bool
  pub dry_run : Bool
  pub commitment : Bytes
  pub priority_fee : ℕ
  pub command : Subcommand

unfoldable pub required_keypair : Cli → Command Bytes
required_keypair cli = ok_or_fail cli.keypair "--keypair is required for this command"

abbrev pub options_of : Cli → Bytes → Options
options_of cli keypair = record {
  keypair_path = keypair;
  rpc_url = cli.rpc_url;
  commitment = cli.commitment;
  json_output = cli.json_output;
  dry_run = cli.dry_run;
  priority_fee_micro_lamports = cli.priority_fee;
}

module _ ⦃host : Host⦄ ⦃mac : Hmac⦄ ⦃sha : Hasher⦄ ⦃digests : Digests⦄ ⦃ids : Programs⦄
    ⦃finder : AddressFinder⦄ where
  -- The `match` of `main`. The first argument is the address of the associated-token program.
  unfoldable pub dispatch : Address → Cli → Subcommand → Command (Unit {0})
  dispatch ata_program cli create = Create.run cli.json_output
  dispatch ata_program cli init =
      required_keypair cli >>= λ keypair. Init.run (options_of cli keypair)
  dispatch ata_program cli info = Info.run cli.rpc_url cli.commitment cli.json_output
  dispatch ata_program cli (withdraw to amount) =
      required_keypair cli >>= λ keypair. Withdraw.run (options_of cli keypair) to amount
  dispatch ata_program cli (close to) =
      required_keypair cli >>= λ keypair. Close.run (options_of cli keypair) to
  dispatch ata_program cli (transfer to mint amount token_program) =
      required_keypair cli >>= λ keypair.
      Transfer.run ata_program (options_of cli keypair) to mint amount token_program
  dispatch ata_program cli (recover max_depth) =
      Rescan.run cli.rpc_url cli.commitment max_depth cli.json_output
  dispatch ata_program cli (state show) = Local.show cli.json_output
  dispatch ata_program cli (state path) = Local.path cli.json_output
  dispatch ata_program cli (state (repair max_depth)) =
      Rescan.run cli.rpc_url cli.commitment max_depth cli.json_output

  -- `main`, without the exit code.
  unfoldable pub main : Address → Cli → Command (Unit {0})
  main ata_program cli = do validate_commitment cli.commitment; dispatch ata_program cli cli.command
