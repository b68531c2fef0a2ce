-- ===== src/Cli/State/Save.antt =====
-- cli/src/state.rs: saving and loading the position of a wallet.
use winterwallet.Prelude.{
  ◌<◌, ◌≡◌, refl, ap, ◌∙◌, false, Option, none, some, List, [], ◌∷◌, ◌++◌, ok, err, All, inl, inr,
  ◌⊎◌, arith, length, length-append, Bool-cases,
}
use winterwallet.Bytes.{Bytes, bytes_eq, bytes_eq→eq}
use winterwallet.Common.{ascii}
use winterwallet.Cli.Host.{
  Host, World, WalletState, Message, File, Disk, Event, wrote, posted, ◌>>=◌, ◌>>◌, resume, lift,
}
use winterwallet.Cli.Host.Invariant.{Turns, Turns-seq, Keeps→Turns, Holds}
use winterwallet.Cli.State.{
  join, separator, last, state_path_in, lock_path_in, tmp_path_in, private_file, ensure_state_dir,
  save_in_dir, load_in_dir, load_found, read_to_string, found, syscall, attempt, tick,
}
use winterwallet.Cli.State.Steps.{Keeps-ensure_state_dir}
use winterwallet.Cli.State.Atomic.{Turns-replace}

-- Names with a common beginning, and names of different lengths.
pub bytes_eq-append : (p a b : Bytes) → bytes_eq (p ++ a) (p ++ b) ≡ bytes_eq a b
unfolding bytes_eq
bytes_eq-append [] a b = refl
bytes_eq-append (c ∷ p) a b = ground (arith, bytes_eq-append p a b)

bytes_eq-longer : (a b : Bytes) → length b < length a → bytes_eq a b ≡ false
bytes_eq-longer a b h = elim (Bool-cases (bytes_eq a b)) [
  | inl e ↦ absurd (omega (arith, ap length (bytes_eq→eq a b e)))
  | inr e ↦ e
]

pub bytes_eq-join : (dir a b : Bytes) → bytes_eq (join dir a) (join dir b) ≡ bytes_eq a b
unfolding join
bytes_eq-join dir a b = bytes_eq-append dir _ _ ∙ bytes_eq-append (separator (last dir)) a b

-- The lock is not the state file.
pub lock_path_in-differs :
    (dir id : Bytes) → bytes_eq (lock_path_in dir id) (state_path_in dir id) ≡ false
unfolding lock_path_in state_path_in bytes_eq
lock_path_in-differs dir id =
    bytes_eq-join dir _ _ ∙ bytes_eq-append id (ascii ".lock") (ascii ".json")

module _ ⦃host : Host⦄ where
  tmp_path_in-differs :
      (dir id : Bytes) → bytes_eq (tmp_path_in dir id) (state_path_in dir id) ≡ false
  unfolding tmp_path_in state_path_in
  tmp_path_in-differs dir id =
      let name = id ++ ascii ".json" in
      bytes_eq-join dir _ _
      ∙ bytes_eq-longer _ name
          (omega (arith, length-append name (ascii ".tmp." ++ host.process_id)))

  -- The file that a completed save leaves.
  abbrev pub saved : Bytes → Option File
  saved contents = some (record { contents = contents; mode = private_file })

  pub Turns-save_in_dir :
      (dir : Bytes) (state : WalletState) (contents : Bytes) (old : Option File)
      (Q : Event → Type 0)
      → host.to_string_pretty state ≡ ok contents
      → ((d : Disk) → d (state_path_in dir state.wallet_id) ≡ old → Q (wrote d))
      → ((d : Disk) → d (state_path_in dir state.wallet_id) ≡ saved contents → Q (wrote d))
      → (let path = state_path_in dir state.wallet_id in
          Turns
            (Holds path old Q)
            (Holds path (saved contents) Q)
            (λ w. Holds path old Q w ⊎ Holds path (saved contents) Q w)
            (save_in_dir dir state))
  unfolding save_in_dir lift resume ◌>>=◌
  Turns-save_in_dir dir state contents old Q printed quiet_old quiet_new =
      let path = state_path_in dir state.wallet_id in
      let I = Holds path old Q in
      let J = Holds path (saved contents) Q in
      let L : World → Type 0 = λ w. I w ⊎ J w in
      Turns-seq I I J L (ensure_state_dir dir) _
        (Keeps→Turns I L (ensure_state_dir dir) (λ w h. inl h)
          (Keeps-ensure_state_dir path old Q dir))
        (λ w h. rw printed (
          Turns-replace path (tmp_path_in dir state.wallet_id) old contents Q
            (tmp_path_in-differs dir state.wallet_id) quiet_old quiet_new dir w h))

  -- A state that cannot be printed leaves the file alone.
  pub Turns-unprinted :
      (dir : Bytes) (state : WalletState) (e : Bytes) (old : Option File) (Q : Event → Type 0)
      → host.to_string_pretty state ≡ err e
      → (J : World → Type 0)
      → (let path = state_path_in dir state.wallet_id in
          Turns (Holds path old Q) J (Holds path old Q) (save_in_dir dir state))
  unfolding save_in_dir lift resume ◌>>=◌
  Turns-unprinted dir state e old Q bad J =
      let I = Holds (state_path_in dir state.wallet_id) old Q in
      Turns-seq I I J I (ensure_state_dir dir) _
        (Keeps→Turns I I (ensure_state_dir dir) (λ w h. h)
          (Keeps-ensure_state_dir (state_path_in dir state.wallet_id) old Q dir))
        (λ w h. rw bad (inr ((_, refl), h)))

-- At an event the file is what it was or the complete new one.
abbrev pub IsOldOrNew : Bytes → Option File → Option File → Event → Type 0
IsOldOrNew path old new (wrote d) = (d path ≡ old) ⊎ (d path ≡ new)
IsOldOrNew path old new (posted d _ _) = (d path ≡ old) ⊎ (d path ≡ new)

module _ ⦃host : Host⦄ where
  -- Whichever system calls of a save fail, if the state is printed and the start has no earlier
  -- events, the state file is the old or the complete new one, with mode 0600, after every write;
  -- it is the new one where the save succeeds, and one of the two where it fails.
  pub save_in_dir-IsOldOrNew :
      (dir : Bytes) (state : WalletState) (contents : Bytes) (w : World)
      → host.to_string_pretty state ≡ ok contents
      → w.history ≡ []
      → (let path = state_path_in dir state.wallet_id in
          let (r, w') = save_in_dir dir state w in
          All (IsOldOrNew path (w.disk path) (saved contents)) w'.history
          × (((r ≡ ok tt) × (w'.disk path ≡ saved contents))
              ⊎ (((e : Message) × (r ≡ err e))
                  × ((w'.disk path ≡ w.disk path) ⊎ (w'.disk path ≡ saved contents)))))
  save_in_dir-IsOldOrNew dir state contents w printed start =
      let path = state_path_in dir state.wallet_id in
      let Q = IsOldOrNew path (w.disk path) (saved contents) in
      let past : All Q w.history = rw start tt in
      elim (Turns-save_in_dir dir state contents (w.disk path) Q printed (λ d h. inl h)
        (λ d h. inr h) w (refl, past)) [
          | inl (u, e, (here, good)) ↦ (good, inl (e, here))
          | inr ((x, e), inl (here, good)) ↦ (good, inr ((x, e), inl here))
          | inr ((x, e), inr (here, good)) ↦ (good, inr ((x, e), inr here))
        ]

  -- If the text of a state parses as that state, and a save of it succeeds, then a load whose
  -- system call does not fail returns it.
  pub load_in_dir-save_in_dir :
      (dir : Bytes) (state : WalletState) (contents : Bytes) (w : World)
      → host.to_string_pretty state ≡ ok contents
      → host.state_from_str contents ≡ ok state
      → (save_in_dir dir state w).0 ≡ ok tt
      → host.fault (save_in_dir dir state w).1.clock ≡ none
      → (load_in_dir dir state.wallet_id (save_in_dir dir state w).1).0 ≡ ok (some state)
  unfolding load_in_dir load_found read_to_string syscall attempt found tick ◌>>=◌ ◌>>◌ resume lift
  load_in_dir-save_in_dir dir state contents w printed parsed done up =
      let path = state_path_in dir state.wallet_id in
      let Q : Event → Type 0 = λ _. Unit {0} in
      let all : (es : List Event) → All Q es = trivial in
      elim (Turns-save_in_dir dir state contents (w.disk path) Q printed (λ d h. tt) (λ d h. tt) w
        (refl, all w.history)) [
          | inl (_, _, (here, _)) ↦ rw (here, up, here, parsed)
          | inr ((x, e), _) ↦ cc
        ]
    where
      trivial : (es : List Event) → All (λ _. Unit {0}) es
      trivial [] = tt
      trivial (e ∷ es) = (tt, trivial es)
