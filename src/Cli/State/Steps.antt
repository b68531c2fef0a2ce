-- ===== src/Cli/State/Steps.antt =====
-- cli/src/state.rs: what the system calls keep of a file and of the events so far.
use Prim.Native.String.{String}
use winterwallet.Prelude.{◌≡◌, refl, ◌∙◌, false, Option, List, Option-cases, Bool-cases, inl, inr}
use winterwallet.Bytes.{Bytes, bytes_eq, bytes_eq_refl}
use winterwallet.Cli.Host.{Host, World, File, Disk, Event, wrote, Arg}
use winterwallet.Cli.Host.Invariant.{Keeps, Turns, Keeps-seq, Holds}
use winterwallet.Cli.State.{
  put_file, change_file, change_disk, tick, attempt, syscall, ensure_state_dir, unless,
  set_directory, is_some,
}

-- A write elsewhere.
pub put_file_ne :
    (path other : Bytes) (file : Option File) (disk : Disk)
    → bytes_eq other path ≡ false
    → put_file other file disk path ≡ disk path
unfolding put_file
put_file_ne path other file disk ne = rw ne

pub put_file_same :
    (path : Bytes) (file : Option File) (disk : Disk) → put_file path file disk path ≡ file
unfolding put_file
put_file_same path file disk = rw (bytes_eq_refl path)

module _ ⦃host : Host⦄ where
  pub Turns-syscall :
      (I J L : World → Type 0) (template : String) (args : List Arg) (effect : World → World)
      → ((w : World) → I w → L (tick w))
      → ((w : World) → I w → J (effect (tick w)))
      → Turns I J L (syscall template args effect)
  unfolding syscall attempt
  Turns-syscall I J L template args effect fails works w h =
      elim (Option-cases (host.fault w.clock)) [
        | inl e ↦ rw e (inl (tt, refl, works w h))
        | inr (x, e) ↦ rw e (inr ((_, refl), fails w h))
      ]

  pub Keeps-syscall :
      (I : World → Type 0) (template : String) (args : List Arg) (effect : World → World)
      → ((w : World) → I w → I (tick w))
      → ((w : World) → I w → I (effect (tick w)))
      → Keeps I (syscall template args effect)
  Keeps-syscall I template args effect fails works w h =
      elim (Turns-syscall I I I template args effect fails works w h) [
        | inl (_, _, k) ↦ k
        | inr (_, k) ↦ k
      ]

  module _ (path : Bytes) (file : Option File) (Q : Event → Type 0) where
    pub Holds-tick : (w : World) → Holds path file Q w → Holds path file Q (tick w)
    unfolding tick
    Holds-tick w h = h

    pub Keeps-ensure_state_dir : (dir : Bytes) → Keeps (Holds path file Q) (ensure_state_dir dir)
    unfolding ensure_state_dir unless set_directory tick
    Keeps-ensure_state_dir dir =
        Keeps-seq (Holds path file Q) _ _
          (λ w h. elim (Bool-cases (is_some (w.directories dir))) [
            | inl e ↦ rw e h
            | inr e ↦ rw e (Keeps-syscall (Holds path file Q) _ _ _ (λ v k. k) (λ v k. k) w h)
          ])
          (Keeps-syscall (Holds path file Q) _ _ _ (λ v k. k) (λ v k. k))

    -- A change of another file.
    pub Holds-change :
        ((d : Disk) → d path ≡ file → Q (wrote d))
        → (other : Bytes) (change : Option File → Option File) → bytes_eq other path ≡ false
        → (w : World) → Holds path file Q w
        → Holds path file Q (change_disk (change_file other change) w)
    unfolding change_disk change_file
    Holds-change quiet other change ne w (here, past) =
        let there = put_file_ne path other (change (w.disk other)) w.disk ne ∙ here in
        (there, (quiet _ there, past))
