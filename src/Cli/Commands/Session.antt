-- ===== src/Cli/Commands/Session.antt =====
-- cli/src/commands: what withdraw, transfer and close have in common, each in its own `run`. They
-- open the wallet at the stored position, plan an Advance, and then report it or sign, persist and
-- send it.
use Prim.Native.String.{String}
use winterwallet.Prelude.{
  ℕ, Bool, true, not, Option, none, some, List, [], ◌∷◌, Result, err, map_err, replicate,
  if◌then◌else◌,
}
use winterwallet.Bytes.{Bytes, bytes_eq}
use winterwallet.Common.{winternitz_scalars, signature_len}
use winterwallet.Core.Error.{WinternitzError}
use winterwallet.Core.Hash.{Hasher}
use winterwallet.Core.Keypair.{Hmac, WinternitzKeypair, derive}
use winterwallet.Core.Keypair.Mnemonic.{Digests, from_mnemonic_at}
use winterwallet.Core.Merkle.{merklize}
use winterwallet.Core.Privkey.{to_pubkey}
use winterwallet.Solana.{Address, Programs, AddressFinder}
use winterwallet.Client.Error.{Error}
use winterwallet.Client.Pda.{find_wallet_address, wallet_id_from_mnemonic}
use winterwallet.Client.Plan
use winterwallet.Client.Position.{SigningPosition, next}
use winterwallet.Client.State.{WinterWalletAccount, from_bytes}
use winterwallet.Client.Wallet.{
  UnsignedAdvance, SignedAdvance, PersistedAdvance, sign, from_account, WinterWallet,
}
use winterwallet.Cli.Json.{Json, string, number, boolean, map_of}
use winterwallet.Cli.Host.{
  Host, WalletState, Command, Message, format, followed, count, json, core_error, client_error,
  pure, lift, fail_if, on_error, println, ◌>>=◌, ◌>>◌,
}
use winterwallet.Cli.State.{hex_encode, acquire_lock, load, persist_signed_advance, unless}
use winterwallet.Cli.Send.{
  SigningKey, AccountResult, TransactionPreview, or_client, ok_or_fail, read_keypair, read_mnemonic,
  get_account, transaction_preview, send_persisted_advance,
}

-- The fields that every `RunArgs` has.
pub record Options : Type 0 where
  pub keypair_path : Bytes
  pub rpc_url : Bytes
  pub commitment : Bytes
  pub json_output : Bool
  pub dry_run : Bool
  pub priority_fee_micro_lamports : ℕ

-- The variables of `run` up to the plan.
pub record Session : Type 0 where
  pub payer : SigningKey
  pub id_hex : Bytes
  pub pda : Address
  pub local_state : WalletState
  pub next_position : SigningPosition
  pub account : AccountResult
  pub on_chain : WinterWalletAccount
  pub keypair : WinternitzKeypair
  pub new_root : Bytes

unfoldable pub or_core : {A : Type 0} → String → Result WinternitzError A → Command A
or_core template r = lift (map_err (λ e. format template (core_error e ∷ [])) r)

-- The position of a stored state.
abbrev pub stored_position : WalletState → SigningPosition
stored_position local_state = record {
  wallet = 0;
  parent = local_state.parent;
  child = local_state.child;
}

abbrev pub position_json : SigningPosition → Json
position_json position =
    map_of (("parent", number position.parent) ∷ ("child", number position.child) ∷ [])

-- The end of the JSON report of a dry run, and of its text.
unfoldable pub preview_fields : SigningPosition → TransactionPreview → List (String × Json)
preview_fields next_position preview =
    ("next_position", position_json next_position)
    ∷ ("estimated_transaction_size", number preview.estimated_size)
    ∷ ("compute_unit_limit", number preview.compute_unit_limit)
    ∷ ("priority_fee_micro_lamports", number preview.priority_fee_micro_lamports)
    ∷ ("requires_signature_before_simulation", boolean true)
    ∷ []

unfoldable pub print_position : SigningPosition → Command (Unit {0})
print_position position =
    println "  Position:  ({}, {})" (count position.parent ∷ count position.child ∷ [])

unfoldable pub print_preview : SigningPosition → TransactionPreview → Command (Unit {0})
print_preview next_position preview = do
  print_position next_position
  println "  Tx size:   {} bytes" (count preview.estimated_size ∷ [])
  println "  CU limit:  {}" (count preview.compute_unit_limit ∷ [])
  println "  Priority:  {} micro-lamports/CU" (count preview.priority_fee_micro_lamports ∷ [])

unfoldable pub print_burn_note : WalletState → Command (Unit {0})
print_burn_note local_state =
    println "  Note:      live simulation requires signing and burns position ({}, {})"
      (count local_state.parent ∷ count local_state.child ∷ [])

-- The end of the JSON report of a command that was sent.
unfoldable pub sent_fields : Bytes → SigningPosition → TransactionPreview → List (String × Json)
sent_fields signature position preview =
    ("signature", string signature)
    ∷ ("position", position_json position)
    ∷ ("estimated_transaction_size", number preview.estimated_size)
    ∷ ("position_persisted_before_send", boolean true)
    ∷ []

unfoldable pub print_json : List (String × Json) → Command (Unit {0})
print_json fields = println "{}" (json (map_of fields) ∷ [])

-- What `sign` returns, with its error as the command reports it.
unfoldable pub signed_or_fail :
    Option (Result Error (SignedAdvance × WinternitzKeypair))
    → Result Message (SignedAdvance × WinternitzKeypair)
signed_or_fail none = err (format "panicked" [])
signed_or_fail (some r) =
    map_err
      (λ e. format "{e}. Run `winterwallet recover` if local state is stale." (client_error e ∷ []))
      r

module _ ⦃host : Host⦄ ⦃mac : Hmac⦄ ⦃sha : Hasher⦄ ⦃digests : Digests⦄ ⦃ids : Programs⦄
    ⦃finder : AddressFinder⦄ where
  -- `run` up to the keypairs.
  unfoldable pub open_session : Options → Command Session
  open_session options = do
    payer ← read_keypair options.keypair_path
    mnemonic ← read_mnemonic
    id ← or_client "failed to derive wallet ID: {e}" (wallet_id_from_mnemonic mnemonic)
    let id_hex = hex_encode id
    let pda = (find_wallet_address id).0
    acquire_lock id_hex
    loaded ← load id_hex
    local_state ← ok_or_fail loaded "no local state found — run `winterwallet init` first"
    next_position ←
        or_client "failed to derive next position: {e}" (next (stored_position local_state))
    account ← get_account options.rpc_url options.commitment pda
    on_chain ← or_client "failed to deserialize wallet: {e}" (from_bytes account.data_bytes)
    fail_if (not (bytes_eq on_chain.id id))
        (format "on-chain wallet ID does not match mnemonic-derived PDA" [])
    keypair ←
        or_core "invalid mnemonic: {e}"
          (from_mnemonic_at mnemonic 0 local_state.parent local_state.child)
    next_keypair ←
        or_core "failed to derive next position: {e}"
          (from_mnemonic_at mnemonic next_position.wallet next_position.parent next_position.child)
    pure (record {
      payer = payer;
      id_hex = id_hex;
      pda = pda;
      local_state = local_state;
      next_position = next_position;
      account = account;
      on_chain = on_chain;
      keypair = keypair;
      new_root = merklize (to_pubkey (derive winternitz_scalars next_keypair));
    })

  abbrev pub wallet_of : Session → WinterWallet
  wallet_of s = from_account s.on_chain (stored_position s.local_state)

  -- `signed.persist(&mut store)`
  unfoldable pub persist : SignedAdvance → Command PersistedAdvance
  persist signed = do persist_signed_advance signed; pure (record { signed = signed })

  -- `run` from the signature on; `report` prints the result.
  unfoldable pub sign_and_send :
      Options
      → Session
      → UnsignedAdvance
      → String
      → (Bytes → SigningPosition → Command (Unit {0}))
      → Command (Unit {0})
  sign_and_send options s unsigned announcement report = do
    unless options.json_output
        (println announcement (count s.local_state.parent ∷ count s.local_state.child ∷ []))
    done ← lift (signed_or_fail (sign unsigned s.keypair))
    persisted ← persist done.0
    signature ←
        on_error (λ e. followed e "\n  Position burned. Run `winterwallet recover` if needed.")
          (send_persisted_advance options.rpc_url options.commitment s.payer
            options.priority_fee_micro_lamports persisted)
    report signature persisted.signed.next_position

  -- `run` from the preview on: `dry` reports a dry run.
  unfoldable pub transact :
      Options
      → Session
      → UnsignedAdvance
      → (TransactionPreview → Command (Unit {0}))
      → String
      → (TransactionPreview → Bytes → SigningPosition → Command (Unit {0}))
      → Command (Unit {0})
  transact options s unsigned dry announcement report = do
    preview ←
        transaction_preview s.payer
          (Plan.instruction unsigned.plan (replicate signature_len 0) ∷ [])
          options.priority_fee_micro_lamports
    if options.dry_run
        then dry preview
        else sign_and_send options s unsigned announcement (report preview)
