-- ===== src/Core/Keypair/Mnemonic/Words.antt =====
-- core/src/wordlist.txt: the words are sorted, so that a word has one position, and hold no whitespace.
use winterwallet.Prelude.{
  ℕ, zero, suc, ◌<◌, ◌≡◌, refl, sym, ap, ◌∙◌, Bool, true, false, ◌&&◌, some, List, [], ◌∷◌, ltb,
  ◌==◌, length, not, ◌||◌, arith, get_elem?, Bool-cases, inl, inr,
}
use winterwallet.Bytes.{Bytes, bytes_eq, bytes_eq_refl, bytes_eq→eq}
use winterwallet.Core.Keypair.Mnemonic.{
  lines, prepend, wordlist_lines, is_ascii_whitespace, position,
}
use winterwallet.Core.Keypair.Mnemonic.Wordlist.{wordlist}

-- The order of words.
less : Bytes → Bytes → Bool
less [] [] = false
less [] (d ∷ ds) = true
less (c ∷ cs) [] = false
less (c ∷ cs) (d ∷ ds) = let rest = less cs ds in ltb c d || ((c == d) && rest)

less_trans : (a b c : Bytes) → less a b ≡ true → less b c ≡ true → less a c ≡ true
unfolding less
less_trans [] [] c h k = cc
less_trans [] (y ∷ b) [] h k = cc
less_trans [] (y ∷ b) (z ∷ c) h k = refl
less_trans (x ∷ a) [] c h k = cc
less_trans (x ∷ a) (y ∷ b) [] h k = cc
less_trans (x ∷ a) (y ∷ b) (z ∷ c) h k = ground (arith, less_trans a b c)

less_irrefl : (a : Bytes) → less a a ≡ false
unfolding less
less_irrefl [] = refl
less_irrefl (x ∷ a) = ground (arith, less_irrefl a)

sorted_after : Bytes → List Bytes → Bool
sorted_after x [] = true
sorted_after x (y ∷ r) = less x y && sorted_after y r

unfoldable pub dense : Bytes → Bool
dense [] = true
dense (c ∷ cs) = not (is_ascii_whitespace c) && dense cs

-- A word has characters, and no whitespace among them.
unfoldable pub is_word : Bytes → Bool
is_word [] = false
is_word (c ∷ cs) = dense (c ∷ cs)

unfoldable pub all_words : List Bytes → Bool
all_words [] = true
all_words (w ∷ ws) = is_word w && all_words ws

pub length-wordlist_lines : length wordlist_lines ≡ 2048
unfolding wordlist wordlist_lines lines prepend
length-wordlist_lines = refl

wordlist_lines-sorted : sorted_after [] wordlist_lines ≡ true
unfolding wordlist wordlist_lines lines prepend less sorted_after
wordlist_lines-sorted = refl

wordlist_lines-all_words : all_words wordlist_lines ≡ true
unfolding wordlist wordlist_lines lines prepend is_word dense all_words is_ascii_whitespace
wordlist_lines-all_words = refl

pub and_left : (a b : Bool) → (a && b) ≡ true → a ≡ true
and_left true b h = refl
and_left false b h = cc

pub and_right : (a b : Bool) → (a && b) ≡ true → b ≡ true
and_right true b h = h
and_right false b h = cc

-- What stands behind a word is greater.
sorted_after-less :
    (x : Bytes) (ws : List Bytes) (i : ℕ) (w : Bytes)
    → sorted_after x ws ≡ true
    → get_elem? ws i ≡ some w
    → less x w ≡ true
unfolding sorted_after
sorted_after-less x [] i w h g = cc
sorted_after-less x (y ∷ ws) zero w h g = ap (less x) (cc g) ∙ and_left _ _ h
sorted_after-less x (y ∷ ws) (suc i) w h g =
    less_trans x y w (and_left _ _ h) (sorted_after-less y ws i w (and_right (less x y) _ h) g)

position-get_elem :
    (x : Bytes) (ws : List Bytes) (i : ℕ) (w : Bytes)
    → sorted_after x ws ≡ true
    → get_elem? ws i ≡ some w
    → position w ws ≡ some i
unfolding position sorted_after
position-get_elem x [] i w h g = cc
position-get_elem x (y ∷ ws) zero w h g =
    let same : y ≡ w = cc g in rw (ap (λ v. bytes_eq v w) same ∙ bytes_eq_refl w) refl
position-get_elem x (y ∷ ws) (suc i) w h g = elim (Bool-cases (bytes_eq y w)) [
  | inr e ↦ rw (e, position-get_elem y ws i w (and_right (less x y) _ h) g) refl
  | inl e ↦
      let before = sorted_after-less y ws i w (and_right (less x y) _ h) g in
      cc (sym (less_irrefl y) ∙ (ap (less y) (bytes_eq→eq y w e) ∙ before))
]

pub position-wordlist_lines :
    (i : ℕ) (w : Bytes) → get_elem? wordlist_lines i ≡ some w → position w wordlist_lines ≡ some i
position-wordlist_lines i w g = position-get_elem [] wordlist_lines i w wordlist_lines-sorted g

all_words-get_elem :
    (ws : List Bytes) (i : ℕ) (w : Bytes)
    → all_words ws ≡ true
    → get_elem? ws i ≡ some w
    → is_word w ≡ true
unfolding all_words
all_words-get_elem [] i w h g = cc
all_words-get_elem (x ∷ ws) zero w h g = ap is_word (sym (cc g)) ∙ and_left _ _ h
all_words-get_elem (x ∷ ws) (suc i) w h g = all_words-get_elem ws i w (and_right (is_word x) _ h) g

pub is_word-wordlist_lines :
    (i : ℕ) (w : Bytes) → get_elem? wordlist_lines i ≡ some w → is_word w ≡ true
is_word-wordlist_lines i w g = all_words-get_elem wordlist_lines i w wordlist_lines-all_words g

get_elem?-some :
    {A : Type 0} (xs : List A) (i : ℕ) → i < length xs → (x : A) × (get_elem? xs i ≡ some x)
get_elem?-some [] i h = absurd (omega arith)
get_elem?-some (x ∷ xs) zero h = (x, refl)
get_elem?-some (x ∷ xs) (suc i) h = get_elem?-some xs i (omega arith)

pub wordlist_lines-some : (i : ℕ) → i < 2048 → (w : Bytes) × (get_elem? wordlist_lines i ≡ some w)
wordlist_lines-some i h = get_elem?-some wordlist_lines i (omega (arith, length-wordlist_lines))
