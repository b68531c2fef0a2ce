-- ===== src/Cli/Commands/Persisted/Sending.antt =====
-- cli/src/commands: from the plan of an Advance to its confirmation, what is on the disk when the
-- server sees the signature.
use Prim.Native.String.{String}
use winterwallet.Prelude.{
  ◌≡◌, refl, sym, ap, ◌∙◌, Bool, true, false, Option, none, some, [], ◌∷◌, Result, ok, err, All,
  Result-cases, inl, inr, ◌⊎◌, arith,
}
use winterwallet.Bytes.{Bytes}
use winterwallet.Core.Hash.{Hasher}
use winterwallet.Core.Keypair.{Hmac, WinternitzKeypair, increment_child, increment_parent}
use winterwallet.Core.Keypair.Mnemonic.{Digests}
use winterwallet.Solana.{Programs, AddressFinder}
use winterwallet.Client.Error.{Error}
use winterwallet.Client.Position.{SigningPosition, next, from_keypair, next-increment_child}
use winterwallet.Client.Wallet.{UnsignedAdvance, SignedAdvance, PersistedAdvance, sign, signed}
use winterwallet.Client.Wallet.Signing.{sign_inv}
use winterwallet.Cli.Host.{
  Host, World, WalletState, File, Disk, Event, wrote, posted, Command, println, count,
}
use winterwallet.Cli.Host.Invariant.{
  Keeps, Turns, Yields, Yields-bind, Yields-Keeps, Yields-lift, Yields-seq, Keeps→Turns,
  Keeps→Leads, Turns-if, Keeps-on_error, Keeps-println, Holds,
}
use winterwallet.Cli.State.{
  hex_encode, state_path, state_dir, state_after, persist_signed_advance, save, unless,
}
use winterwallet.Cli.State.Save.{saved, Turns-save_in_dir, Turns-unprinted}
use winterwallet.Cli.Send.{TransactionPreview}
use winterwallet.Cli.Send.Exposure.{
  exposes, Keeps-send_persisted_advance, Keeps-transaction_preview,
}
use winterwallet.Cli.Commands.Session.{
  Options, Session, stored_position, signed_or_fail, persist, sign_and_send, transact,
}

-- The position of a wallet on a disk: the one that its file says, or the first one without a file.
abbrev pub IsAt : ⦃host : Host⦄ → Disk → Bytes → SigningPosition → Type 0
IsAt ⦃host⦄ disk id position =
    ((file : File) × (state : WalletState) × (disk (state_path id) ≡ some file)
      × (host.state_from_str file.contents ≡ ok state)
      × (position ≡ stored_position state))
    ⊎ ((disk (state_path id) ≡ none) × (position ≡ record { wallet = 0; parent = 0; child = 0 }))

-- The disk that a request with a signature is sent from, after a start from the first disk: the
-- wallet was at a position, and its file now holds the one after it, in full.
abbrev pub IsBurned : ⦃host : Host⦄ → Disk → Disk → Type 0
IsBurned ⦃host⦄ start now =
    (old : SigningPosition) × (new : WalletState) × (after : Bytes) × IsAt start new.wallet_id old
    × (next old ≡ ok (stored_position new))
    × (host.to_string_pretty new ≡ ok after)
    × (now (state_path new.wallet_id) ≡ saved after)

abbrev pub IsCovered : ⦃host : Host⦄ → Disk → Event → Type 0
IsCovered start (wrote d) = Unit {0}
IsCovered start (posted d method _) = exposes method ≡ true → IsBurned start d

module _ ⦃host : Host⦄ (start : Disk) where
  abbrev pub Covered : World → Type 0
  Covered w = All (IsCovered start) w.history

  -- The position file of a wallet, with all requests so far covered.
  abbrev pub At : Bytes → Option File → World → Type 0
  At id file = Holds (state_path id) file (IsCovered start)

  module _ ⦃mac : Hmac⦄ ⦃sha : Hasher⦄ ⦃ids : Programs⦄ where
    pub increment_child-wallet :
        (kp kp' : WinternitzKeypair) → increment_child kp ≡ some kp' → kp'.wallet ≡ kp.wallet
    unfolding increment_child increment_parent
    increment_child-wallet kp kp' h = ground arith

    -- What `sign` leaves for the position file.
    signed_state :
        (self : UnsignedAdvance) (kp kp' : WinternitzKeypair) (s : SignedAdvance)
        (old : WalletState)
        → sign self kp ≡ some (ok (s, kp'))
        → self.position ≡ stored_position old
        → (s.wallet_id ≡ self.wallet_id)
          × (next (stored_position old) ≡ ok (stored_position (state_after s)))
    unfolding signed state_after
    signed_state self kp kp' s old h here =
        let (sig, done, eq, root, pos, step) = sign_inv self kp kp' s h in
        let zero_wallet : kp.wallet ≡ 0 = ap (λ (p : SigningPosition). p.wallet) (pos ∙ here) in
        let stays = increment_child-wallet kp kp' step ∙ zero_wallet in
        let on : next (from_keypair kp) ≡ ok (from_keypair kp') =
          next-increment_child kp ∙ rw step refl in
        let stored : from_keypair kp' ≡ stored_position (state_after s) =
          rw eq (ap (λ n. record { wallet = n; parent = kp'.parent; child = kp'.child }) stays) in
        (
          ap (λ (a : SignedAdvance). a.wallet_id) eq,
          ap next (sym here ∙ sym pos) ∙ (on ∙ ap (λ q. ok q) stored),
        )

  -- The position file of a wallet, as it was at the start.
  abbrev pub AtStart : Bytes → World → Type 0
  AtStart id = At id (start (state_path id))

  pub AtStart-eq : (id id' : Bytes) (w : World) → id ≡ id' → AtStart id w → AtStart id' w
  AtStart-eq id id' w e h = rw e at h

  pub Keeps-unless :
      (id : Bytes) (file : Option File) (test : Bool) (m : Command (Unit {0}))
      → Keeps (At id file) m
      → Keeps (At id file) (unless test m)
  unfolding unless
  Keeps-unless id file true m k = λ w h. h
  Keeps-unless id file false m k = k

  -- The new position is saved in full, or the command fails.
  abbrev pub Saved : WalletState → World → Type 0
  Saved new w =
      (after : Bytes) × (host.to_string_pretty new ≡ ok after) × At new.wallet_id (saved after) w

  pub Turns-save :
      (new : WalletState) → Turns (AtStart new.wallet_id) (Saved new) Covered (save new)
  unfolding save state_path
  Turns-save new w h = elim (Result-cases (host.to_string_pretty new)) [
    | inl (after, printed) ↦
        elim (Turns-save_in_dir state_dir new after (start (state_path new.wallet_id))
          (IsCovered start) printed (λ d e. tt) (λ d e. tt) w h) [
            | inl (u, e, there) ↦ inl (u, e, (after, printed, there))
            | inr (e, inl there) ↦ inr (e, there.1)
            | inr (e, inr there) ↦ inr (e, there.1)
          ]
    | inr (x, bad) ↦
        elim (Turns-unprinted state_dir new x (start (state_path new.wallet_id)) (IsCovered start)
          bad (Saved new) w h) [ inl there ↦ inl there | inr (e, there) ↦ inr (e, there.1) ]
  ]

  signed_or_fail_inv :
      (o : Option (Result Error (SignedAdvance × WinternitzKeypair)))
      (done : SignedAdvance × WinternitzKeypair)
      → signed_or_fail o ≡ ok done
      → o ≡ some (ok done)
  unfolding signed_or_fail
  signed_or_fail_inv none done h = cc
  signed_or_fail_inv (some (ok d)) done h = cc
  signed_or_fail_inv (some (err e)) done h = cc

  module _ ⦃mac : Hmac⦄ ⦃sha : Hasher⦄ ⦃digests : Digests⦄ ⦃ids : Programs⦄
      ⦃finder : AddressFinder⦄ where
    -- What is known of an open session and of a plan made in it.
    abbrev pub IsOpen : Session → Type 0
    IsOpen s =
        (hex_encode s.on_chain.id ≡ s.id_hex)
        × ((before : File) × (start (state_path s.id_hex) ≡ some before)
            × (host.state_from_str before.contents ≡ ok s.local_state))

    abbrev pub IsPlanned : Session → UnsignedAdvance → Type 0
    IsPlanned s u = (u.wallet_id ≡ s.on_chain.id) × (u.position ≡ stored_position s.local_state)

    Turns-persist :
        (a : SignedAdvance) (id : Bytes)
        → (state_after a).wallet_id ≡ id
        → Yields (AtStart id) (λ (_ : PersistedAdvance). Saved (state_after a)) Covered (persist a)
    unfolding persist persist_signed_advance
    Turns-persist a id same =
        let new = state_after a in
        Yields-seq (AtStart id) (Saved new) (λ _. Saved new) Covered _ _
          (λ w h. Turns-save new w (AtStart-eq id new.wallet_id w (sym same) h))
          (λ w h. inl (_, refl, h))

    Turns-sign_and_send :
        (options : Options) (s : Session) (u : UnsignedAdvance) (announcement : String)
        (report : Bytes → SigningPosition → Command (Unit {0}))
        → IsOpen s
        → IsPlanned s u
        → ((id : Bytes) (file : Option File) (signature : Bytes) (p : SigningPosition)
            → Keeps (At id file) (report signature p))
        → Turns (AtStart s.id_hex) Covered Covered (sign_and_send options s u announcement report)
    unfolding sign_and_send state_after
    Turns-sign_and_send options s u announcement report (hex, (before, was, read)) (id, here)
          prints =
        let I = AtStart s.id_hex in
        let announce =
          println announcement (count s.local_state.parent ∷ count s.local_state.child ∷ []) in
        Yields-seq I I (λ _. Covered) Covered _ _
          (Keeps→Turns I Covered (unless options.json_output announce) (λ w h. h.1)
            (Keeps-unless s.id_hex _ options.json_output announce (Keeps-println _ _ _ _ _)))
          (Yields-lift I (λ _. Covered) Covered _ _ (λ w h. h.1)
            (λ done e.
              let (same_id, on) =
                signed_state u s.keypair done.1 done.0 s.local_state (signed_or_fail_inv _ done e)
                  here in
              let new = state_after done.0 in
              let same : new.wallet_id ≡ s.id_hex = ap hex_encode (same_id ∙ id) ∙ hex in
              Yields-bind I (λ (_ : PersistedAdvance). Saved new) (λ _. Covered) Covered _ _
                (Turns-persist done.0 s.id_hex same)
                (λ persisted w (after, printed, there).
                  let burned : (d : Disk)
                      → d (state_path new.wallet_id) ≡ saved after
                      → IsBurned start d =
                    λ d now. (
                      stored_position s.local_state,
                      new,
                      after,
                      inl (before, s.local_state, rw same was, read, refl),
                      on,
                      printed,
                      now,
                    ) in
                  let file = saved after in
                  let J = At new.wallet_id file in
                  Yields-Keeps J (λ _. Covered) Covered _ _ (λ v k. k.1)
                    (Keeps-on_error J _ _ (
                      Keeps-send_persisted_advance (state_path new.wallet_id) file (IsCovered start)
                        (λ d m p now _. burned d now) options.rpc_url options.commitment s.payer _
                        persisted))
                    (λ signature.
                      Keeps→Leads J Covered (report signature persisted.signed.next_position)
                        (λ v k. k.1)
                        (prints new.wallet_id file signature persisted.signed.next_position))
                    w there)))

    pub Turns-transact :
        (options : Options) (s : Session) (u : UnsignedAdvance)
        (dry : TransactionPreview → Command (Unit {0})) (announcement : String)
        (report : TransactionPreview → Bytes → SigningPosition → Command (Unit {0}))
        → IsOpen s
        → IsPlanned s u
        → ((id : Bytes) (file : Option File) (preview : TransactionPreview)
            → Keeps (At id file) (dry preview))
        → ((id : Bytes) (file : Option File) (preview : TransactionPreview) (signature : Bytes)
              (p : SigningPosition)
            → Keeps (At id file) (report preview signature p))
        → Turns (AtStart s.id_hex) Covered Covered (transact options s u dry announcement report)
    unfolding transact
    Turns-transact options s u dry announcement report is_open planned dry_prints prints =
        let I = AtStart s.id_hex in
        Yields-Keeps I (λ _. Covered) Covered _ _ (λ w h. h.1)
          (Keeps-transaction_preview (state_path s.id_hex) _ (IsCovered start) s.payer _ _)
          (λ preview.
            Turns-if I Covered Covered options.dry_run (dry preview)
              (sign_and_send options s u announcement (report preview))
              (Keeps→Leads I Covered (dry preview) (λ w h. h.1) (dry_prints s.id_hex _ preview))
              (Turns-sign_and_send options s u announcement (report preview) is_open planned
                (λ id file. prints id file preview)))
