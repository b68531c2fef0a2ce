-- ===== src/Cli/State/Atomic.antt =====
-- cli/src/state.rs: what a save leaves of the position file, also where it is interrupted.

use winterwallet.Prelude.{◌≡◌, refl, ap, ◌∙◌, false, Option, none, some, [], inl, inr, ◌⊎◌, take}
use winterwallet.Bytes.{Bytes, bytes_eq}
use winterwallet.Cli.Host.{Host, World, File, Disk, Event, wrote}
use winterwallet.Cli.Host.Invariant.{Turns, Turns-seq, Holds}
use winterwallet.Cli.State.{
  put_file, change_file, change_disk, tick, truncated, with_contents, with_mode, private_file,
  write_all, write_state, discard_on_error, discarded, remove_file,
}
use winterwallet.Cli.State.Steps.{put_file_ne, put_file_same, Turns-syscall, Holds-change}

module _ ⦃host : Host⦄ (path tmp : Bytes) (old : Option File) (contents : Bytes)
    (Q : Event → Type 0) (other : bytes_eq tmp path ≡ false)
    (quiet_old : (d : Disk) → d path ≡ old → Q (wrote d))
    (quiet_new : (d : Disk)
      → d path ≡ some (record { contents = contents; mode = private_file })
      → Q (wrote d)) where
  abbrev new_file : Option File
  new_file = some (record { contents = contents; mode = private_file })

  abbrev Before : World → Type 0
  Before = Holds path old Q

  abbrev After : World → Type 0
  After = Holds path new_file Q

  abbrev Either : World → Type 0
  Either w = Before w ⊎ After w

  -- The temporary file while it is written.
  abbrev Opened : World → Type 0
  Opened w = Before w × ((f : File) × (w.disk tmp ≡ some f))

  abbrev Filled : World → Type 0
  Filled w = Before w × ((f : File) × (w.disk tmp ≡ some f) × (f.contents ≡ contents))

  abbrev Ready : World → Type 0
  Ready w = Before w × (w.disk tmp ≡ new_file)

  opens : (o : Option File) → (f : File) × (truncated host.new_mode o ≡ some f)
  unfolding truncated
  opens none = (_, refl)
  opens (some f) = (_, refl)

  open_file :
      (w : World)
      → Before w
      → Opened (change_disk (change_file tmp (truncated host.new_mode)) (tick w))
  unfolding change_disk change_file tick
  open_file w h =
      let (f, e) = opens (w.disk tmp) in
      (
        Holds-change path old Q quiet_old tmp (truncated host.new_mode) other (tick w) h,
        (f, put_file_same tmp _ _ ∙ e),
      )

  -- A part of the contents, then the contents.
  fill :
      (part : Bytes) (w : World)
      → Opened w
      → Opened (change_disk (change_file tmp (with_contents part)) w)
        × ((f : File) × ((change_disk (change_file tmp (with_contents part)) w).disk tmp ≡ some f)
            × (f.contents ≡ part))
  unfolding change_disk change_file with_contents
  fill part w (h, (f, e)) =
      let written =
        put_file_same tmp (with_contents part (w.disk tmp)) w.disk ∙ ap (with_contents part) e in
      let kept = Holds-change path old Q quiet_old tmp (with_contents part) other w h in
      ((kept, (_, written)), (_, written, refl))

  set_mode :
      (w : World)
      → Filled w
      → Ready (change_disk (change_file tmp (with_mode private_file)) (tick w))
  unfolding change_disk change_file with_mode tick
  set_mode w (h, (f, e, full)) =
      let written =
        put_file_same tmp (with_mode private_file (w.disk tmp)) w.disk
        ∙ ap (with_mode private_file) e in
      (
        Holds-change path old Q quiet_old tmp (with_mode private_file) other (tick w) h,
        written ∙ ap (λ c. some (record { contents = c; mode = private_file })) full,
      )

  rename :
      (w : World)
      → Ready w
      → After (change_disk (λ disk. put_file tmp none (put_file path (disk tmp) disk)) (tick w))
  unfolding change_disk tick
  rename w ((here, past), ready) =
      let there =
        put_file_ne path tmp none (put_file path (w.disk tmp) w.disk) other
        ∙ (put_file_same path (w.disk tmp) w.disk ∙ ready) in
      (there, (quiet_new _ there, past))

  Turns-write_all : Turns Opened Filled Either (write_all tmp contents)
  unfolding write_all tick
  Turns-write_all w h =
      let part = take (host.written w.clock) contents in
      Turns-syscall Opened Filled Either _ _ _ (λ v k. inl k.0)
        (λ v k. ((fill contents (tick v) k).0.0, (fill contents (tick v) k).1))
        (change_disk (change_file tmp (with_contents part)) w) (fill part w h).0

  Turns-write_state : (dir : Bytes) → Turns Before After Either (write_state dir path tmp contents)
  unfolding write_state tick
  Turns-write_state dir =
      Turns-seq Before Opened After Either _ _
        (Turns-syscall Before Opened Either _ _ _ (λ v k. inl k) open_file)
        (Turns-seq Opened Filled After Either _ _ Turns-write_all (
          Turns-seq Filled Ready After Either _ _
            (Turns-syscall Filled Ready Either _ _ _ (λ v k. inl k.0) set_mode)
            (Turns-seq Ready Ready After Either _ _
              (Turns-syscall Ready Ready Either _ _ _ (λ v k. inl k.0) (λ v k. k))
              (Turns-seq Ready After After Either _ _
                (Turns-syscall Ready After Either _ _ _ (λ v k. inl k.0) rename)
                (Turns-seq After After After Either _ _
                  (Turns-syscall After After Either _ _ _ (λ v k. inr k) (λ v k. k))
                  (Turns-syscall After After Either _ _ _ (λ v k. inr k) (λ v k. k)))))))

  remove_tmp : (w : World) → Either w → Either (remove_file tmp w)
  unfolding remove_file tick
  remove_tmp w h =
      elim (Turns-syscall Either Either Either "" [] (change_disk (change_file tmp (λ _. none)))
        (λ v k. k) removed w h) [ inl (_, _, k) ↦ k | inr (_, k) ↦ k ]
    where
      removed : (v : World) → Either v → Either (change_disk (change_file tmp (λ _. none)) (tick v))
      removed v (inl h) = inl (Holds-change path old Q quiet_old tmp (λ _. none) other (tick v) h)
      removed v (inr h) =
          inr (Holds-change path new_file Q quiet_new tmp (λ _. none) other (tick v) h)

  pub Turns-replace :
      (dir : Bytes)
      → Turns Before After Either
          (discard_on_error (remove_file tmp) (write_state dir path tmp contents))
  unfolding discard_on_error discarded
  Turns-replace dir w h = elim (Turns-write_state dir w h) [
    | inl (u, e, k) ↦ rw e (inl (tt, refl, k))
    | inr ((x, e), k) ↦ rw e (inr ((x, refl), remove_tmp (write_state dir path tmp contents w).1 k))
  ]
