-- ===== src/Cli/State/Access.antt =====
-- cli/src/state.rs: taking the lock and reading the position leave the position file as it is.
use Prim.Native.String.{String}
use winterwallet.Prelude.{
  ◌≡◌, refl, sym, ap, ◌∙◌, List, Result-cases, Option, none, some, ok, Option-cases, inl, inr,
}
use winterwallet.Bytes.{Bytes}
use winterwallet.Cli.Host.{
  Host, World, Arg, WalletState, File, Disk, Event, wrote, ◌>>=◌, ◌>>◌, resume, lift,
}
use winterwallet.Cli.Host.Invariant.{Keeps, Keeps-bind, Keeps-seq, Keeps-lift, Holds}
use winterwallet.Cli.State.{
  state_path, state_path_in, state_dir, acquire_lock, acquire_lock_in_dir, load, load_in_dir,
  load_found, kept, tick, lock_path_in, found, read_to_string, syscall, attempt,
}
use winterwallet.Cli.State.Save.{lock_path_in-differs}
use winterwallet.Cli.State.Steps.{Keeps-syscall, Keeps-ensure_state_dir, Holds-change}

module _ (I : World → Type 0) where
  Keeps-found :
      (path : Bytes) (template : String) (args : List Arg)
      → Keeps I (λ w. found (w.disk path) template args w)
  unfolding found
  Keeps-found path template args w h = elim (Option-cases (w.disk path)) [
    | inl e ↦ rw e h
    | inr (f, e) ↦ rw e h
  ]

  -- For an invariant that does not look at the clock.
  pub Keeps-read_to_string :
      ⦃host : Host⦄
      → (path : Bytes) (template : String) (args : List Arg) → ((w : World) → I w → I (tick w))
      → Keeps I (read_to_string path template args)
  unfolding read_to_string
  Keeps-read_to_string path template args ticks =
      Keeps-seq I _ _ (Keeps-syscall I _ _ _ ticks ticks) (Keeps-found path template args)

module _ ⦃host : Host⦄ (id : Bytes) (file : Option File) (Q : Event → Type 0) where
  abbrev I : World → Type 0
  I = Holds (state_path id) file Q

  pub Keeps-acquire_lock :
      ((d : Disk) → d (state_path id) ≡ file → Q (wrote d)) → Keeps I (acquire_lock id)
  unfolding acquire_lock acquire_lock_in_dir tick state_path
  Keeps-acquire_lock quiet =
      Keeps-seq I _ _ (Keeps-ensure_state_dir (state_path id) file Q state_dir) (
        Keeps-seq I _ _
          (Keeps-syscall I _ _ _ (λ v k. k)
            (λ v k.
              Holds-change (state_path id) file Q quiet (lock_path_in state_dir id)
                (kept host.new_mode) (lock_path_in-differs state_dir id) (tick v) k))
          (Keeps-syscall I _ _ _ (λ v k. k) (λ v k. k)))

  Keeps-load_found : (path : Bytes) (o : Option File) → Keeps I (load_found path o)
  unfolding load_found tick
  Keeps-load_found path none = λ w h. h
  Keeps-load_found path (some f) =
      Keeps-bind I _ _ (Keeps-read_to_string I path _ _ (λ w h. h))
        (λ contents. Keeps-bind I _ _ (Keeps-lift I _) (λ state w h. h))

  pub Keeps-load : Keeps I (load id)
  unfolding load load_in_dir
  Keeps-load w h =
      Keeps-load_found (state_path_in state_dir id) (w.disk (state_path_in state_dir id)) w h

  load_found_inv :
      (path : Bytes) (o : Option File) (w : World) (state : WalletState)
      → w.disk path ≡ o
      → (load_found path o w).0 ≡ ok (some state)
      → (f : File) × (o ≡ some f) × (host.state_from_str f.contents ≡ ok state)
  unfolding load_found read_to_string found syscall attempt tick ◌>>=◌ ◌>>◌ resume lift
  load_found_inv path none w state here done = cc
  load_found_inv path (some f) w state here done = elim (Option-cases (host.fault w.clock)) [
    | inr (x, down) ↦ cc (rw down at done)
    | inl up ↦ elim (Result-cases (host.state_from_str f.contents)) [
      | inr (x, bad) ↦ cc (rw (up, here, bad) at done)
      | inl (read, good) ↦
          let same : read ≡ state = cc (rw (up, here, good) at done) in
          (f, refl, good ∙ ap (λ s. ok s) same)
    ]
  ]

  -- What `load` returns is what the file says.
  pub load_inv :
      (w : World) (state : WalletState)
      → I w
      → (load id w).0 ≡ ok (some state)
      → (f : File) × (file ≡ some f) × (host.state_from_str f.contents ≡ ok state)
  unfolding load load_in_dir state_path
  load_inv w state (here, past) done =
      let (f, e, good) =
        load_found_inv (state_path id) (w.disk (state_path id)) w state refl done in
      (f, sym here ∙ e, good)

  load_found-none :
      (path : Bytes) (o : Option File) (w : World)
      → w.disk path ≡ o
      → (load_found path o w).0 ≡ ok none
      → o ≡ none
  unfolding load_found read_to_string found syscall attempt tick ◌>>=◌ ◌>>◌ resume lift
  load_found-none path none w here done = refl
  load_found-none path (some f) w here done = elim (Option-cases (host.fault w.clock)) [
    | inr (x, down) ↦ cc (rw down at done)
    | inl up ↦ elim (Result-cases (host.state_from_str f.contents)) [
      | inr (x, bad) ↦ cc (rw (up, here, bad) at done)
      | inl (read, good) ↦ cc (rw (up, here, good) at done)
    ]
  ]

  -- Where `load` returns nothing, there is no file.
  pub load-none : (w : World) → I w → (load id w).0 ≡ ok none → file ≡ none
  unfolding load load_in_dir state_path
  load-none w (here, past) done =
      sym here ∙ load_found-none (state_path id) (w.disk (state_path id)) w refl done
