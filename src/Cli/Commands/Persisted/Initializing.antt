-- ===== src/Cli/Commands/Persisted/Initializing.antt =====
-- cli/src/commands/init.rs: the requests are covered.
use winterwallet.Prelude.{
  ℕ, ◌≡◌, refl, sym, ap, ◌∙◌, Option, none, some, ok, Result-cases, inl, inr, [], Option-cases,
}
use winterwallet.Bytes.{Bytes}
use winterwallet.Common.{winternitz_scalars}
use winterwallet.Core.Hash.{Hasher}
use winterwallet.Core.Keypair.{Hmac, WinternitzKeypair, increment_child, sign_and_increment}
use winterwallet.Core.Keypair.Mnemonic.{Digests, from_mnemonic}
use winterwallet.Core.Keypair.Mnemonic.Origin.{from_mnemonic-origin}
use winterwallet.Core.Signature.{WinternitzSignature}
use winterwallet.Solana.{Programs, AddressFinder}
use winterwallet.Client.Position.{SigningPosition, next, from_keypair, next-increment_child}
use winterwallet.Client.Preimage.{initialize_preimage}
use winterwallet.Cli.Host.{Host, World, WalletState, Disk, ◌>>◌, lift, println}
use winterwallet.Cli.Host.Invariant.{
  Turns, Turns-if, Yields, Yields-bind, Yields-Keeps, Yields-lift, Keeps→Leads, Keeps-fail_if,
  Keeps-println,
}
use winterwallet.Cli.State.{hex_encode, state_path, load, tick}
use winterwallet.Cli.State.Access.{Keeps-acquire_lock, Keeps-load, load-none}
use winterwallet.Cli.State.Save.{saved}
use winterwallet.Cli.Send.{or_client}
use winterwallet.Cli.Send.Exposure.{
  Keeps-read_keypair, Keeps-read_mnemonic, Keeps-transaction_preview, Keeps-simulate_sign_send,
}
use winterwallet.Cli.Commands.Session.{Options, or_core, stored_position}
use winterwallet.Cli.Commands.Init
use winterwallet.Cli.Commands.Init.{
  Start, refuse_existing, or_overflow, first_position, prepare, state_of, sign_and_send,
  report_dry_run,
}
use winterwallet.Cli.Commands.Persisted.Sending.{
  IsCovered, IsBurned, Covered, At, AtStart, Saved, Turns-save, Keeps-unless,
  increment_child-wallet,
}
use winterwallet.Cli.Commands.Persisted.Opening.{Starts, Starts-AtStart, map_err_inv}
use winterwallet.Cli.Commands.Persisted.Printing

or_overflow_inv :
    (o : Option (WinternitzSignature × WinternitzKeypair))
    (done : WinternitzSignature × WinternitzKeypair)
    → or_overflow o ≡ ok done
    → o ≡ some done
unfolding or_overflow
or_overflow_inv none done h = cc
or_overflow_inv (some d) done h = cc

sign_and_increment-position :
    ⦃mac : Hmac⦄
    → ⦃sha : Hasher⦄
    → (kp : WinternitzKeypair) (message : _) (done : WinternitzSignature × WinternitzKeypair)
    → sign_and_increment winternitz_scalars kp message ≡ some done
    → increment_child kp ≡ some done.1
unfolding sign_and_increment
sign_and_increment-position kp message done h = elim (Option-cases (increment_child kp)) [
  | inl last ↦ cc (rw last at h)
  | inr (kp', step) ↦ step ∙ ap (λ k. some k) (cc (rw step at h))
]

module _ ⦃host : Host⦄ (start : Disk) where
  abbrev pub L : World → Type 0
  L = Covered start

  IsAbsent : Bytes → Option WalletState → Type 0
  IsAbsent id loaded = loaded ≡ none → start (state_path id) ≡ none

  Yields-load_none :
      (id : Bytes)
      → Yields (AtStart start id) (λ loaded w. IsAbsent id loaded × AtStart start id w) L (load id)
  unfolding IsAbsent
  Yields-load_none id w h = elim (Result-cases (load id w).0) [
    | inl (loaded, e) ↦ inl (
      loaded,
      e,
      (
        (λ is. load-none id _ (IsCovered start) w h (e ∙ ap (λ o. ok o) is)),
        Keeps-load id _ (IsCovered start) w h,
      ),
    )
    | inr (x, e) ↦ inr ((x, e), (Keeps-load id _ (IsCovered start) w h).1)
  ]

  Turns-refuse_existing :
      (id : Bytes) (loaded : Option WalletState)
      → Turns
          (λ w. IsAbsent id loaded × AtStart start id w)
          (λ w. (start (state_path id) ≡ none) × AtStart start id w)
          L
          (refuse_existing loaded)
  unfolding refuse_existing lift IsAbsent
  Turns-refuse_existing id none w (absent, h) = inl (_, refl, (absent refl, h))
  Turns-refuse_existing id (some state) w (absent, h) = inr ((_, refl), h.1)

  module _ ⦃mac : Hmac⦄ ⦃sha : Hasher⦄ ⦃digests : Digests⦄ ⦃ids : Programs⦄
      ⦃finder : AddressFinder⦄ where
    -- A wallet without a file, and the keypair at the first position.
    abbrev IsFresh : Start → Type 0
    IsFresh s = (start (state_path s.id_hex) ≡ none) × (from_keypair s.keypair ≡ first_position)

    abbrev Ready : Start → World → Type 0
    Ready s w = IsFresh s × AtStart start s.id_hex w

    abbrev Done : Unit {0} → World → Type 0
    Done _ = L

    starts_first :
        (mnemonic : Bytes) (kp : WinternitzKeypair)
        → from_mnemonic mnemonic 0 ≡ ok kp
        → from_keypair kp ≡ first_position
    starts_first mnemonic kp e = let (a, b, c) = from_mnemonic-origin mnemonic 0 kp e in ap₃ a b c
      where
        ap₃ :
            {w p q : ℕ}
            → w ≡ 0
            → p ≡ 0
            → q ≡ 0
            → ◌≡◌ {A = SigningPosition}
                (record { wallet = w; parent = p; child = q })
                first_position
        ap₃ a b c = rw (a, b, c)

    -- The position after the first one is saved.
    first_step :
        (s : Start) (done : WinternitzSignature × WinternitzKeypair)
        → from_keypair s.keypair ≡ first_position
        → sign_and_increment winternitz_scalars s.keypair initialize_preimage ≡ some done
        → (increment_child s.keypair ≡ some done.1)
          × (next first_position ≡ ok (stored_position (state_of s done.1)))
    unfolding state_of
    first_step s done origin signs =
        let kp' = done.1 in
        let step = sign_and_increment-position s.keypair initialize_preimage done signs in
        let stays =
          increment_child-wallet start s.keypair kp' step
          ∙ ap (λ (p : SigningPosition). p.wallet) origin in
        let on : next (from_keypair s.keypair) ≡ ok (from_keypair kp') =
          next-increment_child s.keypair ∙ rw step refl in
        (
          step,
          ap next (sym origin)
              ∙ (on
                  ∙ ap (λ n. ok (record { wallet = n; parent = kp'.parent; child = kp'.child }))
                      stays),
        )

    Yields-prepare : (options : Options) → Yields (Starts start) Ready L (prepare options)
    unfolding prepare or_client or_core ◌>>◌ tick
    Yields-prepare options =
        let I0 = Starts start in
        Yields-Keeps I0 Ready L _ _ (λ w h. h.1)
          (Keeps-read_keypair I0 options.keypair_path (λ w h. h))
          (λ payer.
            Yields-Keeps I0 Ready L _ _ (λ w h. h.1) (Keeps-read_mnemonic I0 (λ w h. h))
              (λ mnemonic.
                Yields-lift I0 Ready L _ _ (λ w h. h.1)
                  (λ id _ w0 h0.
                    let hex = hex_encode id in
                    let I = AtStart start hex in
                    let Absent : World → Type 0 = λ w. (start (state_path hex) ≡ none) × I w in
                    Yields-Keeps I Ready L _ _ (λ w h. h.1)
                      (Keeps-acquire_lock hex _ (IsCovered start) (λ d e. tt))
                      (λ _.
                        Yields-bind I (λ loaded w. IsAbsent hex loaded × I w) Ready L _ _
                          (Yields-load_none hex)
                          (λ loaded.
                            Yields-bind (λ w. IsAbsent hex loaded × I w) (λ _. Absent) Ready L _ _
                              (Turns-refuse_existing hex loaded)
                              (λ _.
                                Yields-lift Absent Ready L _ _ (λ w h. h.1.1)
                                  (λ keypair e.
                                    Yields-lift Absent Ready L _ _ (λ w h. h.1.1)
                                      (λ next_position _.
                                        Yields-lift Absent Ready L _ _ (λ w h. h.1.1)
                                          (λ next_keypair _ w (absent, h). inl (
                                            _,
                                            refl,
                                            (
                                              (
                                                absent,
                                                starts_first mnemonic keypair
                                                    (map_err_inv _ _ keypair e),
                                              ),
                                              h,
                                            ),
                                          )))))))
                      w0 (Starts-AtStart start hex w0 h0))))

    Turns-sign_and_send :
        (options : Options) (s : Start)
        → IsFresh s
        → Turns (AtStart start s.id_hex) L L (sign_and_send options s)
    unfolding sign_and_send state_of ◌>>◌
    Turns-sign_and_send options s (absent, origin) =
        let I = AtStart start s.id_hex in
        let announce =
          println
            "Static checks passed. Signing burns position (0, 0); local state will be advanced before network submission."
            [] in
        Yields-Keeps I Done L _ _ (λ w h. h.1)
          (Keeps-unless start s.id_hex _ options.json_output announce (Keeps-println _ _ _ _ _))
          (λ _.
            Yields-lift I Done L _ _ (λ w h. h.1)
              (λ done e.
                let new = state_of s done.1 in
                let (step, on) = first_step s done origin (or_overflow_inv _ done e) in
                Yields-Keeps I Done L _ _ (λ w h. h.1) (Keeps-fail_if I _ _)
                  (λ _.
                    Yields-bind I (λ _. Saved start new) Done L _ _ (Turns-save start new)
                      (λ _ w (after, printed, there).
                        let J = At start s.id_hex (saved after) in
                        let burned : (d : Disk)
                            → d (state_path s.id_hex) ≡ saved after
                            → IsBurned start d =
                          λ d now.
                            (first_position, new, after, inr (absent, refl), on, printed, now) in
                        Yields-Keeps J Done L _ _ (λ v k. k.1)
                          (Keeps-simulate_sign_send (state_path s.id_hex) (saved after)
                            (IsCovered start) (λ d m p now _. burned d now) options.rpc_url
                            options.commitment s.payer _ _)
                          (λ signature.
                            Keeps→Leads J L
                              (Init.report_sent options.json_output s signature
                                (from_keypair done.1))
                              (λ v k. k.1)
                              (Printing.Keeps-init_sent start s.id_hex _ options.json_output s
                                signature _))
                          w there))))

    pub Turns-init : (options : Options) → Turns (Starts start) L L (Init.run options)
    unfolding Init.run
    Turns-init options =
        Yields-bind (Starts start) Ready Done L _ _ (Yields-prepare options) (λ s w (fresh, h).
          let I = AtStart start s.id_hex in
          Yields-Keeps I Done L _ _ (λ v k. k.1)
            (Keeps-transaction_preview (state_path s.id_hex) _ (IsCovered start) s.payer _ _)
            (λ preview.
              Turns-if I L L options.dry_run (report_dry_run options.json_output s preview)
                (sign_and_send options s)
                (Keeps→Leads I L (report_dry_run options.json_output s preview) (λ v k. k.1)
                  (Printing.Keeps-init_dry start s.id_hex _ options.json_output s preview))
                (Turns-sign_and_send options s fresh))
            w h)
