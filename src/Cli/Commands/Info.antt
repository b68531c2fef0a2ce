-- ===== src/Cli/Commands/Info.antt =====
-- cli/src/commands/info.rs.

use winterwallet.Prelude.{
  ℕ, Bool, Option, none, some, [], ◌∷◌, Result, ok, err, if◌then◌else◌, take, length,
}
use mathlib.Core.Option
use winterwallet.Bytes.{bytes_eq}
use winterwallet.Common.{ascii}
use winterwallet.Bytes.{Bytes}
use winterwallet.Core.Hash.{Hasher}
use winterwallet.Core.Keypair.{Hmac}
use winterwallet.Core.Keypair.Mnemonic.{Digests}
use winterwallet.Solana.{Address, Programs, AddressFinder}
use winterwallet.Client.Error.{Error}
use winterwallet.Client.Pda.{find_wallet_address, wallet_id_from_mnemonic}
use winterwallet.Client.State.{WinterWalletAccount, from_bytes}
use winterwallet.Cli.Json.{Json, string, number, optional, map_of}
use winterwallet.Cli.Host.{
  Host, WalletState, Command, Message, format, followed, text, count, pure, println, ◌>>=◌, ◌>>◌,
}
use winterwallet.Cli.State.{hex_encode, load}
use winterwallet.Cli.Send.{AccountResult, or_client, read_mnemonic, get_account}
use winterwallet.Cli.Commands.Session.{print_json}

-- `e.starts_with("account not found")`: no message of `get_account` begins with an argument.
unfoldable pub is_not_found : Message → Bool
is_not_found (format template args) =
    bytes_eq (take (length (ascii "account not found")) (ascii template))
      (ascii "account not found")
is_not_found (followed e more) = is_not_found e

unfoldable pub found_or_none : {A : Type 0} → Result Message A → Result Message (Option A)
found_or_none (ok a) = ok (some a)
found_or_none (err e) = if is_not_found e then ok none else err e

unfoldable pub try_account : {A : Type 0} → Command A → Command (Option A)
try_account m w = (found_or_none (m w).0, (m w).1)

-- `account.map(from_bytes).transpose()`
unfoldable pub read_wallet : Option AccountResult → Result Error (Option WinterWalletAccount)
read_wallet none = ok none
read_wallet (some account) = some_ok (from_bytes account.data_bytes)
  where
    some_ok : Result Error WinterWalletAccount → Result Error (Option WinterWalletAccount)
    some_ok (ok a) = ok (some a)
    some_ok (err e) = err e

abbrev pub position_of : WalletState → Json
position_of s = map_of (("parent", number s.parent) ∷ ("child", number s.child) ∷ [])

abbrev pub root_json : Option WinterWalletAccount → Json
root_json wallet =
    optional (Option.map (λ (w : WinterWalletAccount). string (hex_encode w.root)) wallet)

abbrev pub on_chain_json : Option WinterWalletAccount → AccountResult → Json
on_chain_json wallet a =
    map_of (("balance_lamports", number a.lamports) ∷ ("root", root_json wallet) ∷ [])

unfoldable pub print_local : Option WalletState → Command (Unit {0})
print_local none = println "Position:   (no local state)" []
print_local (some local_state) = println "Position:   {}" (count local_state.child ∷ [])

unfoldable pub print_root : Option WinterWalletAccount → Command (Unit {0})
print_root none = pure tt
print_root (some wallet) = println "Root:       {}" (text (hex_encode wallet.root) ∷ [])

unfoldable pub print_account :
    Option AccountResult → Option WinterWalletAccount → Command (Unit {0})
print_account none wallet = println "On-chain:   not initialized" []
print_account (some account) wallet = do
  println "Balance:    {} lamports ({:.9} SOL)"
      (count account.lamports ∷ count account.lamports ∷ [])
  print_root wallet

module _ ⦃host : Host⦄ where
  -- What is printed.
  unfoldable pub report :
      Bool
      → Bytes
      → Address × ℕ
      → Option WalletState
      → Option AccountResult
      → Option WinterWalletAccount
      → Command (Unit {0})
  report json_output id_hex (pda, bump) loaded account wallet =
      if json_output
      then print_json (
          ("wallet_id", string id_hex)
          ∷ ("pda", string (host.display pda))
          ∷ ("bump", number bump)
          ∷ ("position", optional (Option.map position_of loaded))
          ∷ ("on_chain", optional (Option.map (on_chain_json wallet) account))
          ∷ [])
      else do
        println "Wallet ID:  {wallet_id_hex}" (text id_hex ∷ [])
        println "PDA:        {pda}" (text (host.display pda) ∷ [])
        println "Bump:       {bump}" (count bump ∷ [])
        print_local loaded
        print_account account wallet

module _ ⦃host : Host⦄ ⦃mac : Hmac⦄ ⦃sha : Hasher⦄ ⦃digests : Digests⦄ ⦃ids : Programs⦄
    ⦃finder : AddressFinder⦄ where
  unfoldable pub run : Bytes → Bytes → Bool → Command (Unit {0})
  run rpc_url commitment json_output = do
    mnemonic ← read_mnemonic
    id ← or_client "failed to derive wallet ID: {e}" (wallet_id_from_mnemonic mnemonic)
    let id_hex = hex_encode id
    let address = find_wallet_address id
    loaded ← load id_hex
    account ← try_account (get_account rpc_url commitment address.0)
    wallet ← or_client "corrupted wallet account: {e}" (read_wallet account)
    report json_output id_hex address loaded account wallet
