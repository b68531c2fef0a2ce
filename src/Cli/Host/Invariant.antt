-- ===== src/Cli/Host/Invariant.antt =====
-- cli/src: invariants of the world along a command.
use Prim.Native.String.{String}
use winterwallet.Prelude.{
  ◌≡◌, Bool, true, false, Option, List, Result, ok, err, All, Result-cases, inl, inr, ◌⊎◌, refl,
  if◌then◌else◌,
}
use winterwallet.Bytes.{Bytes}
use winterwallet.Cli.Host.{
  World, Message, Arg, File, Event, Command, resume, ◌>>=◌, ◌>>◌, lift, fail_if, on_error, println,
}

-- An invariant holds after a command, whether it succeeds or not.
abbrev pub Keeps : {A : Type 0} → (World → Type 0) → Command A → Type 0
Keeps I m = (w : World) → I w → I (m w).1

-- Where one invariant holds, a command that succeeds establishes the second, of its result too, and
-- one that fails the third.
abbrev pub Yields :
    {A : Type 0} → (World → Type 0) → (A → World → Type 0) → (World → Type 0) → Command A → Type 0
Yields {A} I J L m =
    (w : World)
    → I w
    → ((a : A) × ((m w).0 ≡ ok a) × J a (m w).1) ⊎ (((e : Message) × ((m w).0 ≡ err e)) × L (m w).1)

-- The same where nothing is said of the result.
abbrev pub Turns : {A : Type 0} → (I J L : World → Type 0) → Command A → Type 0
Turns I J L m = Yields I (λ _. J) L m

-- A command that keeps an invariant, where failure asks for less.
pub Keeps→Turns :
    {A : Type 0} (I L : World → Type 0) (m : Command A)
    → ((w : World) → I w → L w)
    → Keeps I m
    → Turns I I L m
Keeps→Turns I L m weaker km w h = elim (Result-cases (m w).0) [
  | inl (a, e) ↦ inl (a, e, km w h)
  | inr (x, e) ↦ inr ((x, e), weaker _ (km w h))
]

module _ {A B : Type 0} (I : World → Type 0) where
  pub Yields-bind :
      (J : A → World → Type 0) (K : B → World → Type 0) (L : World → Type 0) (m : Command A)
      (f : A → Command B)
      → Yields I J L m
      → ((a : A) → Yields (J a) K L (f a))
      → Yields I K L (m >>= f)
  unfolding ◌>>=◌ resume
  Yields-bind J K L m f tm tf w h = elim (tm w h) [
    | inl (a, e, j) ↦ rw e (tf a (m w).1 j)
    | inr ((x, e), l) ↦ rw e (inr ((x, refl), l))
  ]

  -- A first part that keeps the invariant.
  pub Yields-Keeps :
      (K : B → World → Type 0) (L : World → Type 0) (m : Command A) (f : A → Command B)
      → ((w : World) → I w → L w)
      → Keeps I m
      → ((a : A) → Yields I K L (f a))
      → Yields I K L (m >>= f)
  Yields-Keeps K L m f weaker km kf = Yields-bind (λ _. I) K L m f (Keeps→Turns I L m weaker km) kf

  -- A first part that is a value.
  pub Yields-lift :
      (K : B → World → Type 0) (L : World → Type 0) (r : Result Message A) (f : A → Command B)
      → ((w : World) → I w → L w)
      → ((a : A) → r ≡ ok a → Yields I K L (f a))
      → Yields I K L (lift r >>= f)
  unfolding ◌>>=◌ resume lift
  Yields-lift K L r f weaker kf w h = elim (Result-cases r) [
    | inl (a, e) ↦ rw e (kf a e w h)
    | inr (x, e) ↦ rw e (inr ((x, refl), weaker w h))
  ]

module _ {B : Type 0} (I J : World → Type 0) (K : B → World → Type 0) (L : World → Type 0) where
  pub Yields-seq :
      (m : Command (Unit {0})) (k : Command B)
      → Turns I J L m
      → Yields J K L k
      → Yields I K L (m >> k)
  unfolding ◌>>◌
  Yields-seq m k tm tk = Yields-bind I (λ _. J) K L m (λ _. k) tm (λ _. tk)

pub Turns-seq :
    {B : Type 0} (I J K L : World → Type 0) (m : Command (Unit {0})) (k : Command B)
    → Turns I J L m
    → Turns J K L k
    → Turns I K L (m >> k)
Turns-seq I J K L m k tm tk = Yields-seq I J (λ _. K) L m k tm tk

pub Keeps→Leads :
    {A : Type 0} (I L : World → Type 0) (m : Command A)
    → ((w : World) → I w → L w)
    → Keeps I m
    → Turns I L L m
Keeps→Leads I L m weaker km w h = elim (Result-cases (m w).0) [
  | inl (a, e) ↦ inl (a, e, weaker _ (km w h))
  | inr (x, e) ↦ inr ((x, e), weaker _ (km w h))
]

pub Turns-if :
    {A : Type 0} (I J L : World → Type 0) (test : Bool) (m n : Command A)
    → Turns I J L m
    → Turns I J L n
    → Turns I J L (if test then m else n)
Turns-if I J L true m n tm tn = tm
Turns-if I J L false m n tm tn = tn

-- Where success and failure establish the same, the command keeps it.
pub Turns→Leads :
    {A : Type 0} (I L : World → Type 0) (m : Command A)
    → Turns I L L m
    → (w : World) → I w
    → L (m w).1
Turns→Leads I L m t w h = elim (t w h) [ inl (_, _, l) ↦ l | inr (_, l) ↦ l ]

module _ (I : World → Type 0) where
  -- The rest may depend on what the first part returned.
  pub Keeps-bind :
      {A B : Type 0} (m : Command A) (f : A → Command B)
      → Keeps I m
      → ((a : A) → Keeps I (f a))
      → Keeps I (m >>= f)
  unfolding ◌>>=◌ resume
  Keeps-bind m f km kf w h = elim (Result-cases (m w).0) [
    | inl (a, e) ↦ rw e (kf a (m w).1 (km w h))
    | inr (x, e) ↦ rw e (km w h)
  ]

  pub Keeps-seq :
      {B : Type 0} (m : Command (Unit {0})) (k : Command B)
      → Keeps I m
      → Keeps I k
      → Keeps I (m >> k)
  unfolding ◌>>◌
  Keeps-seq m k km kk = Keeps-bind m (λ _. k) km (λ _. kk)

  pub Keeps-lift : {A : Type 0} (r : Result Message A) → Keeps I (lift r)
  unfolding lift
  Keeps-lift r w h = h

  pub Keeps-fail_if : (test : Bool) (e : Message) → Keeps I (fail_if test e)
  unfolding fail_if
  Keeps-fail_if test e w h = h

  pub Keeps-if :
      {A : Type 0} (test : Bool) (m n : Command A)
      → Keeps I m
      → Keeps I n
      → Keeps I (if test then m else n)
  Keeps-if true m n km kn = km
  Keeps-if false m n km kn = kn

  pub Keeps-on_error :
      {A : Type 0} (f : Message → Message) (m : Command A) → Keeps I m → Keeps I (on_error f m)
  unfolding on_error
  Keeps-on_error f m km w h = km w h

-- The file at a path, and what every event so far satisfies.
abbrev pub Holds : Bytes → Option File → (Event → Type 0) → World → Type 0
Holds path file Q w = (w.disk path ≡ file) × All Q w.history

pub Keeps-println :
    (path : Bytes) (file : Option File) (Q : Event → Type 0) (template : String) (args : List Arg)
    → Keeps (Holds path file Q) (println template args)
unfolding println
Keeps-println path file Q template args w h = h
