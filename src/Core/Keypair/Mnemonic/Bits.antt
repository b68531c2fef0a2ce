-- ===== src/Core/Keypair/Mnemonic/Bits.antt =====
-- core/src/keypair.rs: the bits that `generate_mnemonic` reads are those that `validate` writes.
use Prim.Native.Nat.{bit_or}
use native.Mathlib.Nat.{div-div-eq-div-mul, pow-suc, zero-add, suc-add}
use winterwallet.Prelude.{
  ℕ, zero, suc, ◌+◌, ◌*◌, ◌-◌, ◌/◌, ◌%◌, ◌^◌, ◌≤◌, ◌<◌, ◌≡◌, refl, sym, ap, ◌∙◌, Bool, true, false,
  ◌&&◌, [], ◌∷◌, ◌++◌, arith, length, replicate, ◌==◌, ==_iff, if◌then◌else◌, length-append,
}
use winterwallet.Bytes.{Bytes, IsByte, IsBytes, u16_mod}
use winterwallet.Core.Keypair.Mnemonic.{at, set_bits, get_bit, read_index, write_index}

-- A property of every number below a bound, by evaluation.
holds_below : ℕ → (ℕ → Bool) → Bool
holds_below zero p = true
holds_below (suc n) p = p n && holds_below n p

holds_below_lem : (n : ℕ) (p : ℕ → Bool) (x : ℕ) → holds_below n p ≡ true → x < n → p x ≡ true
unfolding holds_below
holds_below_lem zero p x h lt = absurd (omega arith)
holds_below_lem (suc n) p x h lt = ground (arith, holds_below_lem n p x)

pub at-append : (pre : Bytes) (b : ℕ) (post : Bytes) → at (pre ++ (b ∷ post)) (length pre) ≡ b
unfolding at
at-append [] b post = refl
at-append (c ∷ pre) b post = at-append pre b post

set_bits-append :
    (pre : Bytes) (b : ℕ) (post : Bytes) (mask : ℕ)
    → set_bits (pre ++ (b ∷ post)) (length pre) mask ≡ pre ++ (bit_or b mask ∷ post)
unfolding set_bits
set_bits-append [] b post mask = refl
set_bits-append (c ∷ pre) b post mask = ap (λ bs. c ∷ bs) (set_bits-append pre b post mask)

-- The bit j of a byte, from the highest, and the byte with that bit set or left.
abbrev byte_bit : ℕ → ℕ → ℕ
byte_bit b j = b / 2 ^ (7 - j) % 2

abbrev with_bit : ℕ → ℕ → ℕ → ℕ
with_bit b j x = if byte_bit b j == 1 then bit_or x (2 ^ (7 - j)) else x

fill_byte : ℕ → ℕ → ℕ → ℕ → ℕ
fill_byte b zero j x = x
fill_byte b (suc rounds) j x = fill_byte b rounds (j + 1) (with_bit b j x)

fill_byte_table : holds_below 256 (λ b. fill_byte b 8 0 0 == b) ≡ true
unfolding holds_below fill_byte
fill_byte_table = refl

fill_byte_lem : (b : ℕ) → IsByte b → fill_byte b 8 0 0 ≡ b
fill_byte_lem b h =
    (==_iff _ b).0 (holds_below_lem 256 (λ b. fill_byte b 8 0 0 == b) b fill_byte_table h)

-- The bit at a position of the source is set at that position.
abbrev put_bit : Bytes → Bytes → ℕ → Bytes
put_bit src bits pos =
    if get_bit src pos == 1 then set_bits bits (pos / 8) (2 ^ (7 - pos % 8)) else bits

unfoldable pub put : Bytes → ℕ → Bytes → ℕ → Bytes
put src zero bits pos = bits
put src (suc n) bits pos = put src n (put_bit src bits pos) (pos + 1)

pub put-put :
    (src : Bytes) (a b : ℕ) (bits : Bytes) (pos : ℕ)
    → put src (a + b) bits pos ≡ put src b (put src a bits pos) (pos + a)
unfolding put
put-put src zero b bits pos = rw zero-add (ap (put src b bits) (omega arith))
put-put src (suc a) b bits pos = rw suc-add (
    put-put src a b (put_bit src bits pos) (pos + 1)
    ∙ ap (put src b (put src a (put_bit src bits pos) (pos + 1))) (omega arith))

put_bit-byte :
    (pre : Bytes) (b : ℕ) (post : Bytes) (x : ℕ) (zs : Bytes) (j : ℕ)
    → j < 8
    → put_bit (pre ++ (b ∷ post)) (pre ++ (x ∷ zs)) (8 * length pre + j)
      ≡ pre ++ (with_bit b j x ∷ zs)
unfolding get_bit
put_bit-byte pre b post x zs j h =
    let quotient : (8 * length pre + j) / 8 ≡ length pre = omega arith in
    let rest : (8 * length pre + j) % 8 ≡ j = omega arith in
    rw (quotient, rest, at-append pre b post, set_bits-append pre x zs (2 ^ (7 - j)))
      (if-append (byte_bit b j == 1))
  where
    if-append :
        (test : Bool)
        → (if test then pre ++ (bit_or x (2 ^ (7 - j)) ∷ zs) else pre ++ (x ∷ zs))
          ≡ pre ++ ((if test then bit_or x (2 ^ (7 - j)) else x) ∷ zs)
    if-append true = refl
    if-append false = refl

-- The bits of one byte.
put-byte :
    (pre : Bytes) (b : ℕ) (post : Bytes) (zs : Bytes) (rounds : ℕ) (x j : ℕ)
    → j + rounds ≤ 8
    → put (pre ++ (b ∷ post)) rounds (pre ++ (x ∷ zs)) (8 * length pre + j)
      ≡ pre ++ (fill_byte b rounds j x ∷ zs)
unfolding put fill_byte
put-byte pre b post zs zero x j h = refl
put-byte pre b post zs (suc rounds) x j h =
    let next = put_bit-byte pre b post x zs j (omega arith) in
    ap (λ bits. put (pre ++ (b ∷ post)) rounds bits (8 * length pre + j + 1)) next
    ∙ (ap (put (pre ++ (b ∷ post)) rounds (pre ++ (with_bit b j x ∷ zs))) (omega arith)
        ∙ put-byte pre b post zs rounds (with_bit b j x) (j + 1) (omega arith))

-- All bits of the bytes that are left.
put-all :
    (pre post src bits : Bytes) (pos : ℕ)
    → IsBytes post
    → src ≡ pre ++ post
    → bits ≡ pre ++ replicate (length post) 0
    → pos ≡ 8 * length pre
    → put src (8 * length post) bits pos ≡ src
unfolding put
put-all pre [] src bits pos h is_src is_bits is_pos = is_bits ∙ sym is_src
put-all pre (b ∷ post) src bits pos h is_src is_bits is_pos =
    let zs : Bytes = replicate (length post) 0 in
    let source : Bytes = pre ++ (b ∷ post) in
    let start : put src 8 bits pos ≡ put source 8 (pre ++ (0 ∷ zs)) (8 * length pre + 0) =
      rw (is_src, is_bits) (ap (put source 8 (pre ++ (0 ∷ zs))) (is_pos ∙ omega arith)) in
    let byte : put src 8 bits pos ≡ pre ++ (b ∷ zs) =
      start
      ∙ (put-byte pre b post zs 8 0 0 (omega arith)
          ∙ ap (λ c. pre ++ (c ∷ zs)) (fill_byte_lem b h.0)) in
    let split : 8 * length (b ∷ post) ≡ 8 + 8 * length post = omega arith in
    ap (λ n. put src n bits pos) split
    ∙ (put-put src 8 (8 * length post) bits pos
        ∙ put-all (pre ++ (b ∷ [])) post src (put src 8 bits pos) (pos + 8) h.1
            (is_src ∙ seam pre b post) (byte ∙ seam pre b zs)
            (omega (arith, length-append pre (b ∷ []), is_pos)))
  where
    seam : (xs : Bytes) (y : ℕ) (ys : Bytes) → xs ++ (y ∷ ys) ≡ (xs ++ (y ∷ [])) ++ ys
    seam [] y ys = refl
    seam (x ∷ xs) y ys = ap (λ t. x ∷ t) (seam xs y ys)

-- All bits of a list of bytes, into as many zeros.
pub put_copies :
    (src : Bytes) → IsBytes src → put src (8 * length src) (replicate (length src) 0) 0 ≡ src
put_copies src h = put-all [] src src (replicate (length src) 0) 0 h refl refl refl

-- The indices that leave room for more bits of a u16.
abbrev room : ℕ → ℕ
room zero = u16_mod
room (suc n) = room n / 2

room_le : (n : ℕ) → room n ≤ 65536
room_le zero = omega arith
room_le (suc n) = omega (arith, room_le n)

get_bit_lt : (bits : Bytes) (pos : ℕ) → get_bit bits pos < 2
unfolding get_bit
get_bit_lt bits pos = omega arith

read_index-div : (src : Bytes) (pos x n : ℕ) → x < room n → read_index src pos x n / 2 ^ n ≡ x
unfolding read_index
read_index-div src pos x zero h = omega arith
read_index-div src pos x (suc n) h =
    let g = get_bit src pos in
    let y = x * 2 % u16_mod + g in
    let small = get_bit_lt src pos in
    let same : y ≡ x * 2 + g = omega (arith, room_le n) in
    let rec' = read_index-div src (pos + 1) y n (omega arith) in
    ap (λ p. read_index src (pos + 1) y n / p) (pow-suc 2 n)
    ∙ (sym (div-div-eq-div-mul (read_index src (pos + 1) y n) (2 ^ n) 2) ∙ omega arith)

pub write_index-read_index :
    (src : Bytes) (pos x n : ℕ) (bits : Bytes)
    → x < room n
    → write_index (read_index src pos x n) n bits pos ≡ put src n bits pos
unfolding write_index read_index put
write_index-read_index src pos x zero bits h = refl
write_index-read_index src pos x (suc n) bits h =
    let g = get_bit src pos in
    let y = x * 2 % u16_mod + g in
    let idx = read_index src (pos + 1) y n in
    let small = get_bit_lt src pos in
    let same : y ≡ x * 2 + g = omega (arith, room_le n) in
    let bit : idx / 2 ^ n % 2 ≡ g =
      ap (λ q. q % 2) (read_index-div src (pos + 1) y n (omega arith)) ∙ omega arith in
    rw bit (write_index-read_index src (pos + 1) y n (put_bit src bits pos) (omega arith))

pub read_index_lt : (src : Bytes) (pos : ℕ) → read_index src pos 0 11 < 2048
read_index_lt src pos = omega (arith, read_index-div src pos 0 11 (omega arith))
