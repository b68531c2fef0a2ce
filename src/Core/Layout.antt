-- ===== src/Core/Layout.antt =====
-- The memory layout that WinternitzPrivkey, WinternitzSignature and WinternitzPubkey share:
-- `#[repr(C)]`, N scalars of 32 bytes and then two checksum scalars.
use winterwallet.Prelude.{
  ℕ, zero, suc, ◌+◌, ◌*◌, ◌≡◌, refl, ap, ap₂, sym, ◌∙◌, List, [], ◌∷◌, ◌++◌, arith, length, take,
  drop, concat, All, take-append, drop-append, length-append, length-concat, take-append-drop,
  length-take, length-drop, append-nil, append_assoc, concat-append, All-append, ◌≤◌, drop-drop,
}
use winterwallet.Bytes.{Bytes}

abbrev pub IsScalar : Bytes → Type 0
IsScalar s = length s ≡ 32

-- The fields as the compiler lays them out.
abbrev pub Fields : Type 0
Fields = List Bytes × Bytes × Bytes

-- What the array types `[[u8; 32]; N]` and `[[u8; 32]; 2]` say.
abbrev pub IsLaidOut : ℕ → Fields → Type 0
IsLaidOut n (scalars, c0, c1) =
    (length scalars ≡ n) × All IsScalar scalars × IsScalar c0 × IsScalar c1

abbrev pub all_scalars : Fields → List Bytes
all_scalars (scalars, c0, c1) = scalars ++ (c0 ∷ c1 ∷ [])

-- `slice::from_raw_parts(self, size_of::<Self>())`
unfoldable pub raw_bytes : Fields → Bytes
raw_bytes f = concat (all_scalars f)

-- `n` rows of 32 bytes
unfoldable pub rows : ℕ → Bytes → List Bytes
rows zero bs = []
rows (suc n) bs = take 32 bs ∷ rows n (drop 32 bs)

-- `&*value.as_ptr().cast()`
unfoldable pub cast : ℕ → Bytes → Fields
cast n bs = let tail = drop (n * 32) bs in (rows n bs, take 32 tail, drop 32 tail)

length-rows : (n : ℕ) (bs : Bytes) → length (rows n bs) ≡ n
unfolding rows
length-rows zero bs = refl
length-rows (suc n) bs = ap suc (length-rows n (drop 32 bs))

rows-IsScalar : (n : ℕ) (bs : Bytes) → n * 32 ≤ length bs → All IsScalar (rows n bs)
unfolding rows
rows-IsScalar zero bs h = tt
rows-IsScalar (suc n) bs h = (
  omega (arith, length-take 32 bs),
  rows-IsScalar n (drop 32 bs) (omega (arith, length-drop 32 bs)),
)

rows-concat :
    (n : ℕ) (xss : List Bytes) (rest : Bytes)
    → length xss ≡ n
    → All IsScalar xss
    → rows n (concat xss ++ rest) ≡ xss
unfolding rows
rows-concat zero [] rest e h = refl
rows-concat zero (x ∷ xss) rest e h = absurd (omega arith)
rows-concat (suc n) [] rest e h = absurd (omega arith)
rows-concat (suc n) (x ∷ xss) rest e h = rw (append_assoc x (concat xss) rest) (
    ap₂ ◌∷◌ (take-append 32 x _ h.0)
      (rw (drop-append 32 x (concat xss ++ rest) h.0) (rows-concat n xss rest (omega arith) h.1)))

concat-rows : (n : ℕ) (bs : Bytes) → concat (rows n bs) ++ drop (n * 32) bs ≡ bs
unfolding rows
concat-rows zero bs = refl
concat-rows (suc n) bs =
    rw (append_assoc (take 32 bs) (concat (rows n (drop 32 bs))) (drop (suc n * 32) bs)) (
      ap (λ t. take 32 bs ++ (concat (rows n (drop 32 bs)) ++ t))
        (sym (drop-drop 32 (n * 32) bs ∙ ap (λ k. drop k bs) (omega arith)))
      ∙ ap (λ t. take 32 bs ++ t) (concat-rows n (drop 32 bs))
      ∙ take-append-drop 32 bs)

pub length-raw_bytes : (n : ℕ) (f : Fields) → IsLaidOut n f → length (raw_bytes f) ≡ (n + 2) * 32
unfolding raw_bytes
length-raw_bytes n (ss, c0, c1) (hn, hs, h0, h1) = omega (
  arith,
  length-concat 32 (ss ++ (c0 ∷ c1 ∷ [])) (All-append IsScalar ss _ hs (h0, (h1, tt))),
  length-append ss (c0 ∷ c1 ∷ []),
)

-- A cast reads back the fields that were laid out.
pub cast-raw_bytes : (n : ℕ) (f : Fields) → IsLaidOut n f → cast n (raw_bytes f) ≡ f
unfolding cast raw_bytes
cast-raw_bytes n (ss, c0, c1) (hn, hs, h0, h1) =
    let tail = c0 ++ (c1 ++ []) in
    let cut : drop (n * 32) (concat ss ++ tail) ≡ tail =
      drop-append (n * 32) (concat ss) tail
        (omega (arith, length-concat 32 ss hs, ap (λ (k : ℕ). k * 32) hn)) in
    rw (
      concat-append ss (c0 ∷ c1 ∷ []),
      cut,
      rows-concat n ss tail hn hs,
      take-append 32 c0 (c1 ++ []) h0,
      drop-append 32 c0 (c1 ++ []) h0,
      append-nil c1,
    )

-- The bytes of a cast are the bytes that were cast.
pub raw_bytes-cast : (n : ℕ) (bs : Bytes) → raw_bytes (cast n bs) ≡ bs
unfolding cast raw_bytes
raw_bytes-cast n bs =
    let tail = drop (n * 32) bs in
    concat-append (rows n bs) (take 32 tail ∷ drop 32 tail ∷ [])
    ∙ rw (append-nil (drop 32 tail), take-append-drop 32 tail) (concat-rows n bs)

pub cast-IsLaidOut : (n : ℕ) (bs : Bytes) → length bs ≡ (n + 2) * 32 → IsLaidOut n (cast n bs)
unfolding cast
cast-IsLaidOut n bs h =
    let tail = drop (n * 32) bs in
    (
      length-rows n bs,
      rows-IsScalar n bs (omega arith),
      omega (arith, length-take 32 tail, length-drop (n * 32) bs),
      omega (arith, length-drop 32 tail, length-drop (n * 32) bs),
    )
