-- ===== src/Bytes.antt =====
-- Byte strings and the fixed-width integers that the wire formats hold: `&[u8]` is a list of numbers,
-- `[u8; N]` one of length N. What Rust's core library does to them (`to_le_bytes`, `split_at`,
-- `split_first_chunk`, slice equality) is written here once.
use winterwallet.Prelude.{
  ℕ, zero, suc, ◌+◌, ◌*◌, ◌/◌, ◌%◌, ◌^◌, ◌<◌, ◌≡◌, refl, ap, ap₂, Bool, true, false, ◌&&◌, Option,
  none, some, List, [], ◌∷◌, ◌++◌, arith, ◌==◌, leb, if◌then◌else◌, length, take, drop, All,
  take-append, drop-append, length-append, le→leb,
}

abbrev pub Bytes : Type 0
Bytes = List ℕ

abbrev pub IsByte : ℕ → Type 0
IsByte b = b < 256

abbrev pub IsBytes : Bytes → Type 0
IsBytes = All IsByte

abbrev pub u8_max : ℕ
u8_max = 255

abbrev pub u16_mod : ℕ
u16_mod = 2 ^ 16

abbrev pub u32_mod : ℕ
u32_mod = 2 ^ 32

abbrev pub u64_mod : ℕ
u64_mod = 2 ^ 64

-- `v.to_le_bytes()` of an integer of `w` bytes.
abbrev pub to_le_bytes : ℕ → ℕ → Bytes
to_le_bytes zero v = []
to_le_bytes (suc w) v = (v % 256) ∷ to_le_bytes w (v / 256)

-- `from_le_bytes`, at any width.
abbrev pub from_le_bytes : Bytes → ℕ
from_le_bytes [] = 0
from_le_bytes (b ∷ bs) = b + 256 * from_le_bytes bs

pub length-to_le_bytes : (w v : ℕ) → length (to_le_bytes w v) ≡ w
length-to_le_bytes zero v = refl
length-to_le_bytes (suc w) v = ap suc (length-to_le_bytes w (v / 256))

pub to_le_bytes-IsBytes : (w v : ℕ) → IsBytes (to_le_bytes w v)
to_le_bytes-IsBytes zero v = tt
to_le_bytes-IsBytes (suc w) v = (omega arith, to_le_bytes-IsBytes w (v / 256))

pub from-to_u16 : (v : ℕ) → v < 2 ^ 16 → from_le_bytes (to_le_bytes 2 v) ≡ v
from-to_u16 v h = omega arith

pub from-to_u64 : (v : ℕ) → v < 2 ^ 64 → from_le_bytes (to_le_bytes 8 v) ≡ v
from-to_u64 v h = omega arith

-- `==` on byte slices.
unfoldable pub bytes_eq : Bytes → Bytes → Bool
bytes_eq [] [] = true
bytes_eq [] (b ∷ bs) = false
bytes_eq (a ∷ as') [] = false
bytes_eq (a ∷ as') (b ∷ bs) = (a == b) && bytes_eq as' bs

pub bytes_eq_refl : (a : Bytes) → bytes_eq a a ≡ true
unfolding bytes_eq
bytes_eq_refl [] = refl
bytes_eq_refl (x ∷ xs) = ground (arith, bytes_eq_refl xs)

pub bytes_eq→eq : (a b : Bytes) → bytes_eq a b ≡ true → a ≡ b
unfolding bytes_eq
bytes_eq→eq [] [] h = refl
bytes_eq→eq [] (b ∷ bs) h = cc
bytes_eq→eq (a ∷ as') [] h = cc
bytes_eq→eq (a ∷ as') (b ∷ bs) h = ground (arith, bytes_eq→eq as' bs)

-- `slice.split_first_chunk::<n>()`.
abbrev pub split_first_chunk : ℕ → Bytes → Option (Bytes × Bytes)
split_first_chunk n bs = if leb n (length bs) then some (take n bs, drop n bs) else none

-- `slice.split_first()`.
abbrev pub split_first : Bytes → Option (ℕ × Bytes)
split_first [] = none
split_first (b ∷ bs) = some (b, bs)

pub split_first_chunk-append :
    (n : ℕ) (xs ys : Bytes) → length xs ≡ n → split_first_chunk n (xs ++ ys) ≡ some (xs, ys)
split_first_chunk-append n xs ys h =
    rw (le→leb n (length (xs ++ ys)) (omega (arith, length-append xs ys)))
      (ap₂ (λ a b. some (a, b)) (take-append n xs ys h) (drop-append n xs ys h))
