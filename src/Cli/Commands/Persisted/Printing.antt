-- ===== src/Cli/Commands/Persisted/Printing.antt =====
-- cli/src/commands: what is printed leaves the disk and the requests as they are.
use winterwallet.Prelude.{ℕ, Bool, Option, none, some}
use winterwallet.Bytes.{Bytes}
use winterwallet.Solana.{Address}
use winterwallet.Client.Position.{SigningPosition}
use winterwallet.Cli.Host.{Host, World, WalletState, File, Disk, println, ◌>>=◌, ◌>>◌, resume}
use winterwallet.Cli.Host.Invariant.{Keeps, Keeps-if, Keeps-seq}
use winterwallet.Cli.Send.{TransactionPreview, AccountResult}
use winterwallet.Client.State.{WinterWalletAccount}
use winterwallet.Cli.Commands.Session.{
  Session, print_json, print_position, print_preview, print_burn_note,
}
use winterwallet.Cli.Commands.Withdraw
use winterwallet.Cli.Commands.Close
use winterwallet.Cli.Commands.Transfer
use winterwallet.Cli.Commands.Init
use winterwallet.Cli.Commands.Create
use winterwallet.Cli.Commands.Info
use winterwallet.Cli.Commands.Rescan
use winterwallet.Cli.Commands.Local
use winterwallet.Cli.Commands.Info.{print_local, print_root, print_account}
use winterwallet.Cli.Commands.Local.{print_state}
use winterwallet.Cli.Commands.Persisted.Sending.{At}

module _ ⦃host : Host⦄ (start : Disk) (id : Bytes) (file : Option File) where
  abbrev I : World → Type 0
  I = At start id file

  pub Keeps-withdraw_dry :
      (json_output : Bool) (s : Session) (receiver : Address) (amount : ℕ)
      (preview : TransactionPreview)
      → Keeps I (Withdraw.report_dry_run json_output s receiver amount preview)
  unfolding Withdraw.report_dry_run print_json print_preview print_position print_burn_note println
      ◌>>◌ ◌>>=◌ resume
  Keeps-withdraw_dry json_output s receiver amount preview =
      Keeps-if I json_output _ _ (λ w h. h) (λ w h. h)

  pub Keeps-withdraw_sent :
      (json_output : Bool) (s : Session) (to : Bytes) (receiver : Address) (amount : ℕ)
      (preview : TransactionPreview) (signature : Bytes) (p : SigningPosition)
      → Keeps I (Withdraw.report_sent json_output s to receiver amount preview signature p)
  unfolding Withdraw.report_sent print_json print_preview print_position print_burn_note println
      ◌>>◌ ◌>>=◌ resume
  Keeps-withdraw_sent json_output s to receiver amount preview signature p =
      Keeps-if I json_output _ _ (λ w h. h) (λ w h. h)

  pub Keeps-close_dry :
      (json_output : Bool) (s : Session) (receiver : Address) (preview : TransactionPreview)
      → Keeps I (Close.report_dry_run json_output s receiver preview)
  unfolding Close.report_dry_run print_json print_preview print_position print_burn_note println
      ◌>>◌ ◌>>=◌ resume
  Keeps-close_dry json_output s receiver preview = Keeps-if I json_output _ _ (λ w h. h) (λ w h. h)

  pub Keeps-close_sent :
      (json_output : Bool) (s : Session) (to : Bytes) (receiver : Address)
      (preview : TransactionPreview) (signature : Bytes) (p : SigningPosition)
      → Keeps I (Close.report_sent json_output s to receiver preview signature p)
  unfolding Close.report_sent print_json print_preview print_position print_burn_note println ◌>>◌
      ◌>>=◌ resume
  Keeps-close_sent json_output s to receiver preview signature p =
      Keeps-if I json_output _ _ (λ w h. h) (λ w h. h)

  pub Keeps-transfer_dry :
      (json_output : Bool) (s : Session) (t : Transfer.Transfer) (preview : TransactionPreview)
      → Keeps I (Transfer.report_dry_run json_output s t preview)
  unfolding Transfer.report_dry_run print_json print_preview print_position print_burn_note println
      ◌>>◌ ◌>>=◌ resume
  Keeps-transfer_dry json_output s t preview = Keeps-if I json_output _ _ (λ w h. h) (λ w h. h)

  pub Keeps-transfer_sent :
      (json_output : Bool) (s : Session) (t : Transfer.Transfer) (preview : TransactionPreview)
      (signature : Bytes) (p : SigningPosition)
      → Keeps I (Transfer.report_sent json_output s t preview signature p)
  unfolding Transfer.report_sent print_json print_preview print_position print_burn_note println
      ◌>>◌ ◌>>=◌ resume
  Keeps-transfer_sent json_output s t preview signature p =
      Keeps-if I json_output _ _ (λ w h. h) (λ w h. h)

  pub Keeps-init_dry :
      (json_output : Bool) (s : Init.Start) (preview : TransactionPreview)
      → Keeps I (Init.report_dry_run json_output s preview)
  unfolding Init.report_dry_run print_json print_preview print_position print_burn_note println ◌>>◌
      ◌>>=◌ resume
  Keeps-init_dry json_output s preview = Keeps-if I json_output _ _ (λ w h. h) (λ w h. h)

  pub Keeps-init_sent :
      (json_output : Bool) (s : Init.Start) (signature : Bytes) (p : SigningPosition)
      → Keeps I (Init.report_sent json_output s signature p)
  unfolding Init.report_sent print_json print_preview print_position print_burn_note println ◌>>◌
      ◌>>=◌ resume
  Keeps-init_sent json_output s signature p = Keeps-if I json_output _ _ (λ w h. h) (λ w h. h)

  pub Keeps-print_local : (o : Option WalletState) → Keeps I (print_local o)
  unfolding print_local println
  Keeps-print_local none = λ w h. h
  Keeps-print_local (some s) = λ w h. h

  pub Keeps-print_state : (o : Option WalletState) → Keeps I (print_state o)
  unfolding print_state println ◌>>◌ ◌>>=◌ resume
  Keeps-print_state none = λ w h. h
  Keeps-print_state (some s) = λ w h. h

  Keeps-print_root : (o : Option WinterWalletAccount) → Keeps I (print_root o)
  unfolding print_root println
  Keeps-print_root none = λ w h. h
  Keeps-print_root (some s) = λ w h. h

  pub Keeps-print_account :
      (a : Option AccountResult) (o : Option WinterWalletAccount) → Keeps I (print_account a o)
  unfolding print_account println
  Keeps-print_account none o = λ w h. h
  Keeps-print_account (some a) o = Keeps-seq I _ _ (λ w h. h) (Keeps-print_root o)

  pub Keeps-create_report :
      (json_output : Bool) (mnemonic id_hex : Bytes) (pda : Address)
      → Keeps I (Create.report json_output mnemonic id_hex pda)
  unfolding Create.report print_json println ◌>>◌ ◌>>=◌ resume
  Keeps-create_report json_output mnemonic id_hex pda =
      Keeps-if I json_output _ _ (λ w h. h) (λ w h. h)

  pub Keeps-rescan_report :
      (json_output : Bool) (id_hex : Bytes) (pda : Address) (child : ℕ)
      → Keeps I (Rescan.report json_output id_hex pda child)
  unfolding Rescan.report print_json println ◌>>◌ ◌>>=◌ resume
  Keeps-rescan_report json_output id_hex pda child =
      Keeps-if I json_output _ _ (λ w h. h) (λ w h. h)

  pub Keeps-info_report :
      (json_output : Bool) (id_hex : Bytes) (address : Address × ℕ) (loaded : Option WalletState)
      (account : Option AccountResult) (wallet : Option WinterWalletAccount)
      → Keeps I (Info.report json_output id_hex address loaded account wallet)
  unfolding Info.report print_json println
  Keeps-info_report json_output id_hex (pda, bump) loaded account wallet =
      Keeps-if I json_output _ _ (λ w h. h)
        (Keeps-seq I _ _ (λ w h. h)
          (Keeps-seq I _ _ (λ w h. h)
            (Keeps-seq I _ _ (λ w h. h)
              (Keeps-seq I _ _ (Keeps-print_local loaded) (Keeps-print_account account wallet)))))

  pub Keeps-local_report :
      (json_output : Bool) (id_hex : Bytes) (loaded : Option WalletState)
      → Keeps I (Local.report json_output id_hex loaded)
  unfolding Local.report print_json println
  Keeps-local_report json_output id_hex loaded =
      Keeps-if I json_output _ _ (λ w h. h)
        (Keeps-seq I _ _ (λ w h. h) (Keeps-seq I _ _ (λ w h. h) (Keeps-print_state loaded)))

  pub Keeps-path : (json_output : Bool) → Keeps I (Local.path json_output)
  unfolding Local.path print_json println
  Keeps-path json_output = Keeps-if I json_output _ _ (λ w h. h) (λ w h. h)
