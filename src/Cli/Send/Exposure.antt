-- ===== src/Cli/Send/Exposure.antt =====
-- cli/src/helpers.rs: what is posted, and with which file on the disk.
use Prim.Native.String.{String}
use winterwallet.Prelude.{
  Bool-cases, inl, inr, ℕ, zero, suc, ◌≡◌, refl, Bool, false, ◌||◌, Option, none, some, List,
  Result,
}
use winterwallet.Bytes.{Bytes, bytes_eq}
use winterwallet.Common.{ascii}
use winterwallet.Client.Error.{Error}
use winterwallet.Client.Wallet.{PersistedAdvance}
use winterwallet.Solana.{Address, Instruction, Programs}
use winterwallet.Cli.Json.{Json}
use winterwallet.Cli.Host.{Host, World, File, Disk, Event, posted, Command, Message}
use winterwallet.Cli.Host.Invariant.{Keeps, Keeps-bind, Keeps-seq, Keeps-lift, Keeps-fail_if, Holds}
use winterwallet.Cli.Message.{Panic}
use winterwallet.Cli.Send.{
  SigningKey, or_foreign, or_client, or_panic, ok_or_fail, validate_commitment, rpc_post,
  bs58_decode_32, get_latest_blockhash, get_account, simulate_transaction, send_transaction, settle,
  poll, confirm_transaction, read_keypair, read_raw, read_mnemonic, transaction_preview,
  simulate_sign_send, send_persisted_advance,
}
use winterwallet.Cli.State.{tick}
use winterwallet.Cli.State.Access.{Keeps-read_to_string}

-- The requests that carry a wallet's one-time signature to the server.
unfoldable pub exposes : String → Bool
exposes method =
    bytes_eq (ascii method) (ascii "sendTransaction")
    || bytes_eq (ascii method) (ascii "simulateTransaction")

module _ (I : World → Type 0) where
  pub Keeps-or_foreign :
      {A : Type 0} (template : String) (r : Result Bytes A) → Keeps I (or_foreign template r)
  unfolding or_foreign
  Keeps-or_foreign template r = Keeps-lift I _

  pub Keeps-or_client :
      {A : Type 0} (template : String) (r : Result Error A) → Keeps I (or_client template r)
  unfolding or_client
  Keeps-or_client template r = Keeps-lift I _

  pub Keeps-or_panic : {A : Type 0} (r : Result Panic A) → Keeps I (or_panic r)
  unfolding or_panic
  Keeps-or_panic r = Keeps-lift I _

  pub Keeps-ok_or_fail :
      {A : Type 0} (o : Option A) (template : String) → Keeps I (ok_or_fail o template)
  unfolding ok_or_fail
  Keeps-ok_or_fail o template = Keeps-lift I _

  -- What is read leaves any invariant that does not look at the clock.
  pub Keeps-read_keypair :
      ⦃host : Host⦄ → (p : Bytes) → ((w : World) → I w → I (tick w)) → Keeps I (read_keypair p)
  unfolding read_keypair
  Keeps-read_keypair p ticks = Keeps-bind I _ _ (Keeps-read_to_string I p _ _ ticks) (λ contents.
      Keeps-bind I _ _ (Keeps-or_foreign _ _)
        (λ bytes. Keeps-seq I _ _ (Keeps-fail_if I _ _) (λ w h. h)))

  Keeps-read_raw : ⦃host : Host⦄ → ((w : World) → I w → I (tick w)) → Keeps I read_raw
  unfolding read_raw tick
  Keeps-read_raw ⦃host⦄ ticks w h = elim (Bool-cases host.is_terminal) [
    | inl e ↦ rw e (Keeps-or_foreign _ (host.prompt_password w.clock) _ (ticks w h))
    | inr e ↦ rw e (Keeps-or_foreign _ (host.read_line w.clock) _ (ticks w h))
  ]

  pub Keeps-read_mnemonic : ⦃host : Host⦄ → ((w : World) → I w → I (tick w)) → Keeps I read_mnemonic
  unfolding read_mnemonic
  Keeps-read_mnemonic ticks = Keeps-bind I _ _ (Keeps-read_raw ticks) (λ raw w h. h)

  Keeps-validate_commitment : (commitment : Bytes) → Keeps I (validate_commitment commitment)
  unfolding validate_commitment
  Keeps-validate_commitment commitment = Keeps-fail_if I _ _

  Keeps-bs58_decode_32 : ⦃host : Host⦄ → (s : Bytes) → Keeps I (bs58_decode_32 s)
  unfolding bs58_decode_32
  Keeps-bs58_decode_32 s =
      Keeps-bind I _ _ (Keeps-or_foreign _ _)
        (λ bytes. Keeps-seq I _ _ (Keeps-fail_if I _ _) (λ w h. h))

module _ ⦃host : Host⦄ (path : Bytes) (file : Option File) (Q : Event → Type 0) where
  abbrev I : World → Type 0
  I = Holds path file Q

  Keeps-rpc_post :
      (rpc_url : Bytes) (method : String) (params : Json)
      → ((d : Disk) → d path ≡ file → Q (posted d method params))
      → Keeps I (rpc_post rpc_url method params)
  unfolding rpc_post
  Keeps-rpc_post rpc_url method params seen w (here, past) = (here, (seen w.disk here, past))

  pub Keeps-transaction_preview :
      ⦃ids : Programs⦄
      → (payer : SigningKey) (ixs : List Instruction) (fee : ℕ)
      → Keeps I (transaction_preview payer ixs fee)
  unfolding transaction_preview
  Keeps-transaction_preview payer ixs fee =
      Keeps-seq I _ _ (Keeps-or_client I _ _)
        (Keeps-bind I _ _ (Keeps-or_client I _ _) (λ size w h. h))

  -- Requests without a signature.
  module _
      (quiet : (d : Disk) (m : String) (p : Json)
        → d path ≡ file
        → exposes m ≡ false
        → Q (posted d m p)) where
    pub Keeps-get_latest_blockhash :
        (rpc_url commitment : Bytes) → Keeps I (get_latest_blockhash rpc_url commitment)
    unfolding get_latest_blockhash exposes bytes_eq
    Keeps-get_latest_blockhash rpc_url commitment =
        Keeps-seq I _ _ (Keeps-validate_commitment I commitment) (
          Keeps-bind I _ _
            (Keeps-rpc_post rpc_url "getLatestBlockhash" _ (λ d e. quiet d _ _ e refl))
            (λ result. Keeps-bind I _ _ (Keeps-ok_or_fail I _ _) (λ s. Keeps-bs58_decode_32 I s)))

    pub Keeps-get_account :
        (rpc_url commitment : Bytes) (a : Address) → Keeps I (get_account rpc_url commitment a)
    unfolding get_account exposes bytes_eq
    Keeps-get_account rpc_url commitment a =
        Keeps-seq I _ _ (Keeps-validate_commitment I commitment) (
          Keeps-bind I _ _ (Keeps-rpc_post rpc_url "getAccountInfo" _ (λ d e. quiet d _ _ e refl))
            (λ result. Keeps-seq I _ _ (Keeps-fail_if I _ _) (
              Keeps-bind I _ _ (Keeps-ok_or_fail I _ _) (λ b64.
                Keeps-bind I _ _ (Keeps-or_foreign I _ _)
                  (λ bytes. Keeps-bind I _ _ (Keeps-ok_or_fail I _ _) (λ lamports w h. h))))))

  -- All requests.
  module _ (any : (d : Disk) (m : String) (p : Json) → d path ≡ file → Q (posted d m p)) where
    Keeps-settle :
        (v : Option (Result Message (Unit {0}))) (rest : Command (Unit {0}))
        → Keeps I rest
        → Keeps I (settle v rest)
    unfolding settle
    Keeps-settle none rest k = k
    Keeps-settle (some r) rest k = Keeps-lift I r

    Keeps-poll : (rpc_url signature : Bytes) (rounds : ℕ) → Keeps I (poll rpc_url signature rounds)
    unfolding poll
    Keeps-poll rpc_url signature zero = λ w h. h
    Keeps-poll rpc_url signature (suc rounds) =
        Keeps-bind I _ _ (Keeps-rpc_post rpc_url _ _ (λ d e. any d _ _ e))
          (λ result. Keeps-settle _ _ (Keeps-poll rpc_url signature rounds))

    Keeps-simulate_transaction :
        (rpc_url commitment tx : Bytes) → Keeps I (simulate_transaction rpc_url commitment tx)
    unfolding simulate_transaction
    Keeps-simulate_transaction rpc_url commitment tx =
        Keeps-bind I _ _ (Keeps-rpc_post rpc_url _ _ (λ d e. any d _ _ e))
          (λ result. Keeps-seq I _ _ (Keeps-fail_if I _ _) (Keeps-ok_or_fail I _ _))

    Keeps-send_transaction : (rpc_url tx : Bytes) → Keeps I (send_transaction rpc_url tx)
    unfolding send_transaction
    Keeps-send_transaction rpc_url tx =
        Keeps-bind I _ _ (Keeps-rpc_post rpc_url _ _ (λ d e. any d _ _ e))
          (λ result. Keeps-ok_or_fail I _ _)

    pub Keeps-simulate_sign_send :
        ⦃ids : Programs⦄
        → (rpc_url commitment : Bytes) (payer : SigningKey) (ixs : List Instruction) (fee : ℕ)
        → Keeps I (simulate_sign_send rpc_url commitment payer ixs fee)
    unfolding simulate_sign_send confirm_transaction
    Keeps-simulate_sign_send rpc_url commitment payer ixs fee =
        let blockhash = Keeps-get_latest_blockhash (λ d m p e _. any d m p e) rpc_url commitment in
        Keeps-seq I _ _ (Keeps-or_client I _ _) (
          Keeps-bind I _ _ blockhash (λ hash. Keeps-bind I _ _ (Keeps-or_panic I _) (λ sim_message.
            Keeps-bind I _ _ (Keeps-simulate_transaction rpc_url commitment _) (λ units.
              Keeps-bind I _ _ (Keeps-or_client I _ _) (λ size. Keeps-bind I _ _ blockhash (λ hash.
                Keeps-bind I _ _ (Keeps-or_panic I _) (λ message.
                  Keeps-bind I _ _ (Keeps-send_transaction rpc_url _)
                    (λ tx_sig. Keeps-seq I _ _ (Keeps-poll rpc_url tx_sig 60) (λ w h. h)))))))))

    pub Keeps-send_persisted_advance :
        ⦃ids : Programs⦄
        → (rpc_url commitment : Bytes) (payer : SigningKey) (fee : ℕ) (a : PersistedAdvance)
        → Keeps I (send_persisted_advance rpc_url commitment payer fee a)
    unfolding send_persisted_advance
    Keeps-send_persisted_advance rpc_url commitment payer fee a =
        Keeps-simulate_sign_send rpc_url commitment payer _ fee
