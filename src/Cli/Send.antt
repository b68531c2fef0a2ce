-- ===== src/Cli/Send.antt =====
-- cli/src/helpers.rs: the calls of the RPC server, and a transaction from its simulation to its
-- confirmation.
pub mod Confirm
pub mod Exposure
use Prim.Native.String.{String}
use winterwallet.Prelude.{
  ℕ, zero, suc, ◌+◌, Bool, true, false, not, ◌&&◌, ◌||◌, Option, none, some, List, [], ◌∷◌, ◌++◌,
  Result, ok, err, map_err, ok_or, if◌then◌else◌, take, length, ◌==◌,
}
use winterwallet.Bytes.{Bytes, bytes_eq}
use winterwallet.Common.{ascii}
use winterwallet.Solana.{Address, Instruction, Programs}
use winterwallet.Client.Error.{Error}
use winterwallet.Client.Transaction.{
  with_compute_budget, default_advance_compute_unit_limit, validate_payer_only_signers,
  validate_legacy_transaction_size,
}
use winterwallet.Client.Wallet.{PersistedAdvance, advance_instruction}
use winterwallet.Cli.Json.{
  Json, null, string, number, boolean, array, list, map_of, get, at_key, at_index, as_str, as_u64,
  is_null, is_object, strings,
}
use winterwallet.Cli.Host.{
  Host, World, Command, Message, format, Arg, text, json, count, client_error, foreign, posted,
  pure, fail, lift, fail_if, ◌>>=◌, ◌>>◌,
}
use winterwallet.Cli.Message.{
  Panic, build_message, build_unsigned_wire_tx, build_signed_wire_tx, padded_compute_unit_limit,
}
use winterwallet.Cli.State.{read_to_string}
use winterwallet.Cli.Terminal.{trim}

-- `format!("<template>: {e}")` of a crate's error, and `to_string` of a client's.
unfoldable pub or_foreign : {A : Type 0} → String → Result Bytes A → Command A
or_foreign template r = lift (map_err (λ e. format template (foreign e ∷ [])) r)

unfoldable pub or_client : {A : Type 0} → String → Result Error A → Command A
or_client template r = lift (map_err (λ e. format template (client_error e ∷ [])) r)

-- A panic ends the command, as an error does: the process exits without another call.
unfoldable pub or_panic : {A : Type 0} → Result Panic A → Command A
or_panic r = lift (map_err (λ _. format "panicked" []) r)

unfoldable pub ok_or_fail : {A : Type 0} → Option A → String → Command A
ok_or_fail o template = lift (ok_or o (format template []))

unfoldable pub is_commitment : Bytes → Bool
is_commitment commitment =
    bytes_eq commitment (ascii "processed")
    || bytes_eq commitment (ascii "confirmed")
    || bytes_eq commitment (ascii "finalized")

unfoldable pub validate_commitment : Bytes → Command (Unit {0})
validate_commitment commitment =
    fail_if (not (is_commitment commitment))
      (format "commitment must be one of: processed, confirmed, finalized" [])

-- What `rpc_post` makes of the server's answer.
unfoldable pub answered : Option Json → Option Json → Result Message Json
answered (some e) result = err (format "RPC error: {err}" (json e ∷ []))
answered none (some result) = ok result
answered none none = err (format "RPC response missing 'result'" [])

unfoldable pub received : Result Bytes (Result Bytes Json) → Result Message Json
received (err e) = err (format "RPC request failed: {e}" (foreign e ∷ []))
received (ok (err e)) = err (format "RPC response parse error: {e}" (foreign e ∷ []))
received (ok (ok resp)) = answered (get "error" resp) (get "result" resp)

unfoldable pub rpc_body : String → Json → Json
rpc_body method params = map_of (
    ("jsonrpc", string (ascii "2.0"))
    ∷ ("id", number 1)
    ∷ ("method", string (ascii method))
    ∷ ("params", params)
    ∷ [])

pub record AccountResult : Type 0 where
  pub data_bytes : Bytes
  pub lamports : ℕ

pub record TransactionPreview : Type 0 where
  pub estimated_size : ℕ
  pub compute_unit_limit : ℕ
  pub priority_fee_micro_lamports : ℕ

abbrev pub simulation_cu_ceiling : ℕ
simulation_cu_ceiling = 1400000

-- `SigningKey`, by its secret.
pub record SigningKey : Type 0 where
  pub secret : Bytes

-- What the round of `confirm_transaction` makes of a status: none where it goes on.
unfoldable pub is_final : Option Json → Bool
is_final none = false
is_final (some conf) = elim (as_str conf) [
  | none ↦ false
  | some level ↦ bytes_eq level (ascii "confirmed") || bytes_eq level (ascii "finalized")
]

unfoldable pub verdict : Json → Option (Result Message (Unit {0}))
verdict status =
    if not (is_object status)
    then none
    else if not (is_null (at_key status "err"))
    then some (err (format "transaction failed: {:?}" (json (at_key status "err") ∷ [])))
    else if is_final (get "confirmationStatus" status)
    then some (ok tt)
    else none

unfoldable pub settle : Option (Result Message (Unit {0})) → Command (Unit {0}) → Command (Unit {0})
settle none rest = rest
settle (some r) rest = lift r

-- The error of a failed simulation, with its logs.
unfoldable pub logs_of : Json → List Arg
logs_of (array items) = texts (strings items)
  where
    texts : List Bytes → List Arg
    texts [] = []
    texts (s ∷ ss) = text s ∷ texts ss
logs_of _ = []

module _ ⦃host : Host⦄ where
  unfoldable pub read_keypair : Bytes → Command SigningKey
  read_keypair path = do
    contents ← read_to_string path "failed to read keypair from {path}: {e}" (text path ∷ [])
    bytes ← or_foreign "invalid keypair JSON: {e}" (host.bytes_from_str contents)
    fail_if (not (length bytes == 64))
        (format "keypair must be 64 bytes, got {len}" (count (length bytes) ∷ []))
    pure (record { secret = take 32 bytes })

  unfoldable pub read_raw : Command Bytes
  read_raw w =
      let w' = record w { clock = suc w.clock } in
      if host.is_terminal
      then or_foreign "failed to read mnemonic: {e}" (host.prompt_password w.clock) w'
      else or_foreign "failed to read mnemonic from stdin: {e}" (host.read_line w.clock) w'

  unfoldable pub read_mnemonic : Command Bytes
  read_mnemonic = do raw ← read_raw; pure (trim raw)

  unfoldable pub pubkey : SigningKey → Address
  pubkey key = host.verifying_key key.secret

  unfoldable pub rpc_post : Bytes → String → Json → Command Json
  rpc_post rpc_url method params w = (
    received (host.respond w.clock rpc_url (rpc_body method params)),
    record w { clock = suc w.clock; history = posted w.disk method params ∷ w.history },
  )

  unfoldable pub bs58_decode_32 : Bytes → Command Bytes
  bs58_decode_32 s = do
    bytes ← or_foreign "bs58 decode error: {e}" (host.decode_bs58 s)
    fail_if (not (length bytes == 32)) (format "expected 32 bytes from bs58" [])
    pure bytes

  unfoldable pub get_latest_blockhash : Bytes → Bytes → Command Bytes
  get_latest_blockhash rpc_url commitment = do
    validate_commitment commitment
    result ←
        rpc_post rpc_url "getLatestBlockhash"
          (list (map_of (("commitment", string commitment) ∷ []) ∷ []))
    hash_str ← ok_or_fail (as_str (at_key (at_key result "value") "blockhash")) "missing blockhash"
    bs58_decode_32 hash_str

  unfoldable pub get_account : Bytes → Bytes → Address → Command AccountResult
  get_account rpc_url commitment address = do
    validate_commitment commitment
    result ← rpc_post rpc_url "getAccountInfo" (
        list (
          string (host.display address)
          ∷ map_of (("encoding", string (ascii "base64")) ∷ ("commitment", string commitment) ∷ [])
          ∷ []))
    fail_if (is_null (at_key result "value"))
        (format "account not found: {address}" (text (host.display address) ∷ []))
    data_b64 ←
        ok_or_fail (as_str (at_index (at_key (at_key result "value") "data") 0))
          "missing account data"
    data_bytes ← or_foreign "base64 decode error: {e}" (host.decode_base64 data_b64)
    lamports ← ok_or_fail (as_u64 (at_key (at_key result "value") "lamports")) "missing lamports"
    pure (record { data_bytes = data_bytes; lamports = lamports })

  unfoldable pub simulate_transaction : Bytes → Bytes → Bytes → Command ℕ
  simulate_transaction rpc_url commitment wire_tx = do
    result ← rpc_post rpc_url "simulateTransaction" (
        list (
          string (host.encode_base64 wire_tx)
          ∷ map_of (
              ("encoding", string (ascii "base64"))
              ∷ ("sigVerify", boolean false)
              ∷ ("commitment", string commitment)
              ∷ ("replaceRecentBlockhash", boolean true)
              ∷ [])
          ∷ []))
    let e = at_key (at_key result "value") "err"
    fail_if (not (is_null e)) (
        format "simulation failed: {err}\n  {logs}"
          (json e ∷ logs_of (at_key (at_key result "value") "logs")))
    ok_or_fail (as_u64 (at_key (at_key result "value") "unitsConsumed"))
        "simulation response missing 'unitsConsumed'"

  unfoldable pub send_transaction : Bytes → Bytes → Command Bytes
  send_transaction rpc_url wire_tx = do
    result ← rpc_post rpc_url "sendTransaction" (
        list (
          string (host.encode_base64 wire_tx)
          ∷ map_of (("encoding", string (ascii "base64")) ∷ ("skipPreflight", boolean true) ∷ [])
          ∷ []))
    ok_or_fail (as_str result) "unexpected sendTransaction response"

  -- The loop of `confirm_transaction`, for `rounds` rounds. The sleep has no effect here.
  unfoldable pub poll : Bytes → Bytes → ℕ → Command (Unit {0})
  poll rpc_url signature zero = fail (format "transaction confirmation timeout (30s)" [])
  poll rpc_url signature (suc rounds) = do
    result ← rpc_post rpc_url "getSignatureStatuses" (list (list (string signature ∷ []) ∷ []))
    settle (verdict (at_index (at_key result "value") 0)) (poll rpc_url signature rounds)

  unfoldable pub confirm_transaction : Bytes → Bytes → Command (Unit {0})
  confirm_transaction rpc_url signature = poll rpc_url signature 60

  module _ ⦃ids : Programs⦄ where
    unfoldable pub transaction_preview :
        SigningKey → List Instruction → ℕ → Command TransactionPreview
    transaction_preview payer instructions priority_fee_micro_lamports = do
      let payer_addr = pubkey payer
      let final_ixs =
          with_compute_budget instructions default_advance_compute_unit_limit
            priority_fee_micro_lamports
      or_client "{e}" (validate_payer_only_signers payer_addr final_ixs)
      estimated_size ← or_client "{e}" (validate_legacy_transaction_size payer_addr final_ixs)
      pure (record {
        estimated_size = estimated_size;
        compute_unit_limit = default_advance_compute_unit_limit;
        priority_fee_micro_lamports = priority_fee_micro_lamports;
      })

    unfoldable pub simulate_sign_send :
        Bytes → Bytes → SigningKey → List Instruction → ℕ → Command Bytes
    simulate_sign_send rpc_url commitment payer instructions priority_fee_micro_lamports = do
      let payer_addr = pubkey payer
      or_client "{e}" (validate_payer_only_signers payer_addr instructions)
      let sim_ixs = with_compute_budget instructions simulation_cu_ceiling 0
      blockhash ← get_latest_blockhash rpc_url commitment
      sim_message ← or_panic (build_message payer_addr sim_ixs blockhash)
      units_consumed ←
          simulate_transaction rpc_url commitment (build_unsigned_wire_tx sim_message 1)
      let cu_limit = padded_compute_unit_limit units_consumed
      let final_ixs = with_compute_budget instructions cu_limit priority_fee_micro_lamports
      size ← or_client "{e}" (validate_legacy_transaction_size payer_addr final_ixs)
      blockhash ← get_latest_blockhash rpc_url commitment
      message ← or_panic (build_message payer_addr final_ixs blockhash)
      let signed_tx = build_signed_wire_tx message (host.sign payer.secret message)
      tx_sig ← send_transaction rpc_url signed_tx
      confirm_transaction rpc_url tx_sig
      pure tx_sig

    -- `RpcAdvanceSender::send_persisted_advance`
    unfoldable pub send_persisted_advance :
        Bytes → Bytes → SigningKey → ℕ → PersistedAdvance → Command Bytes
    send_persisted_advance rpc_url commitment payer priority_fee_micro_lamports advance =
        simulate_sign_send rpc_url commitment payer (advance_instruction advance ∷ [])
          priority_fee_micro_lamports
