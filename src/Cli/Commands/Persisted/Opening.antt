-- ===== src/Cli/Commands/Persisted/Opening.antt =====
-- cli/src/commands: what is known once a session is open.
use winterwallet.Prelude.{
  ◌≡◌, refl, sym, ap, ◌∙◌, Bool, true, false, not, Option, none, some, Result, ok, err, map_err,
  ok_or, Bool-cases, inl, inr, Result-cases,
}
use winterwallet.Prelude
use winterwallet.Bytes.{Bytes, bytes_eq→eq}
use winterwallet.Core.Hash.{Hasher}
use winterwallet.Core.Keypair.{Hmac}
use winterwallet.Core.Keypair.Mnemonic.{Digests}
use winterwallet.Solana.{Programs, AddressFinder}
use winterwallet.Cli.Host.{Host, World, WalletState, File, Disk, ◌>>◌, lift, fail_if}
use winterwallet.Cli.Host.Invariant.{Yields, Yields-bind, Yields-Keeps, Yields-lift}
use winterwallet.Cli.State.{hex_encode, state_path, load, tick}
use winterwallet.Cli.State.Access.{Keeps-acquire_lock, Keeps-load, load_inv}
use winterwallet.Cli.Send.{or_client, ok_or_fail}
use winterwallet.Cli.Send.Exposure.{Keeps-read_keypair, Keeps-read_mnemonic, Keeps-get_account}
use winterwallet.Cli.Commands.Session.{Options, Session, open_session, or_core}
use winterwallet.Cli.Commands.Persisted.Sending.{IsCovered, Covered, AtStart, IsOpen}

pub fail_if_inv :
    {E : Type 0} (b : Bool) (e : E) (u : Unit {0}) → Prelude.fail_if (not b) e ≡ ok u → b ≡ true
fail_if_inv true e u h = refl
fail_if_inv false e u h = cc

pub map_err_inv :
    {A E F : Type 0} (f : E → F) (r : Result E A) (a : A) → map_err f r ≡ ok a → r ≡ ok a
map_err_inv f (ok b) a h = cc
map_err_inv f (err e) a h = cc

ok_or_inv : {A E : Type 0} (o : Option A) (e : E) (a : A) → ok_or o e ≡ ok a → o ≡ some a
ok_or_inv none e a h = cc
ok_or_inv (some b) e a h = cc

module _ ⦃host : Host⦄ (start : Disk) where
  -- A world on the disk of the start.
  abbrev pub Starts : World → Type 0
  Starts w = (w.disk ≡ start) × Covered start w

  pub Starts-AtStart : (id : Bytes) (w : World) → Starts w → AtStart start id w
  Starts-AtStart id w (same, past) = (ap (λ (d : Disk). d (state_path id)) same, past)

  -- What the stored position says.
  abbrev IsStored : Bytes → Option WalletState → Type 0
  IsStored id loaded =
      (state : WalletState)
      → loaded ≡ some state
      → (before : File) × (start (state_path id) ≡ some before)
        × (host.state_from_str before.contents ≡ ok state)

  Yields-load :
      (id : Bytes)
      → Yields
          (AtStart start id)
          (λ loaded w. IsStored id loaded × AtStart start id w)
          (Covered start)
          (load id)
  Yields-load id w h = elim (Result-cases (load id w).0) [
    | inl (loaded, e) ↦ inl (
      loaded,
      e,
      (
        (λ state is. load_inv id _ (IsCovered start) w state h (e ∙ ap (λ o. ok o) is)),
        Keeps-load id _ (IsCovered start) w h,
      ),
    )
    | inr (x, e) ↦ inr ((x, e), (Keeps-load id _ (IsCovered start) w h).1)
  ]

  module _ ⦃mac : Hmac⦄ ⦃sha : Hasher⦄ ⦃digests : Digests⦄ ⦃ids : Programs⦄
      ⦃finder : AddressFinder⦄ where
    abbrev Opened : Session → World → Type 0
    Opened s w = IsOpen start s × AtStart start s.id_hex w

    pub Yields-open_session :
        (options : Options) → Yields Starts Opened (Covered start) (open_session options)
    unfolding open_session or_client or_core ok_or_fail fail_if lift ◌>>◌ tick
    Yields-open_session options =
        let L = Covered start in
        Yields-Keeps Starts Opened L _ _ (λ w h. h.1)
          (Keeps-read_keypair Starts options.keypair_path (λ w h. h))
          (λ payer.
            Yields-Keeps Starts Opened L _ _ (λ w h. h.1) (Keeps-read_mnemonic Starts (λ w h. h))
              (λ mnemonic.
                Yields-lift Starts Opened L _ _ (λ w h. h.1)
                  (λ id _ w0 h0.
                    let hex = hex_encode id in
                    let I = AtStart start hex in
                    Yields-Keeps I Opened L _ _ (λ w h. h.1)
                      (Keeps-acquire_lock hex _ (IsCovered start) (λ d e. tt))
                      (λ _.
                        Yields-bind I (λ loaded w. IsStored hex loaded × I w) Opened L _ _
                          (Yields-load hex)
                          (λ loaded w1 (stored, h1).
                            Yields-lift I Opened L _ _ (λ w h. h.1)
                              (λ local_state is.
                                Yields-lift I Opened L _ _ (λ w h. h.1)
                                  (λ next_position _.
                                    Yields-Keeps I Opened L _ _ (λ w h. h.1)
                                      (Keeps-get_account (state_path hex) _ (IsCovered start)
                                        (λ d m p _ q x. cc) options.rpc_url options.commitment _)
                                      (λ account.
                                        Yields-lift I Opened L _ _ (λ w h. h.1)
                                          (λ on_chain _.
                                            Yields-lift I Opened L _ _ (λ w h. h.1)
                                              (λ u same.
                                                Yields-lift I Opened L _ _ (λ w h. h.1)
                                                  (λ keypair _.
                                                    Yields-lift I Opened L _ _ (λ w h. h.1)
                                                      (λ next_keypair _ w h. inl (
                                                        _,
                                                        refl,
                                                        (
                                                          (
                                                            ap hex_encode (
                                                            bytes_eq→eq on_chain.id id
                                                            (fail_if_inv _ _ u same)),
                                                            stored local_state
                                                            (ok_or_inv loaded _ local_state is),
                                                          ),
                                                          h,
                                                        ),
                                                      ))))))))
                              w1 h1))
                      w0 (Starts-AtStart hex w0 h0))))
