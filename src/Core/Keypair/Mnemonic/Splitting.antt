-- ===== src/Core/Keypair/Mnemonic/Splitting.antt =====
-- core/src/keypair.rs: words that are joined by spaces are split into the same words.
use winterwallet.Prelude.{
  ◌≡◌, refl, sym, ap, ◌∙◌, Bool, true, false, not, List, [], ◌∷◌, ◌++◌, append-nil,
}
use winterwallet.Bytes.{Bytes}
use winterwallet.Core.Keypair.Mnemonic.{
  pieces, non_empty, split_ascii_whitespace, is_ascii_whitespace, join_words,
}
use winterwallet.Core.Keypair.Mnemonic.Words.{is_word, dense, all_words, and_left, and_right}

not-true : (b : Bool) → not b ≡ true → b ≡ false
not-true true h = cc
not-true false h = refl

pieces-append : (w s : Bytes) → dense w ≡ true → pieces (w ++ s) ≡ (w ++ (pieces s).0, (pieces s).1)
unfolding pieces dense
pieces-append [] s h = refl
pieces-append (c ∷ w) s h =
    let later = pieces-append w s (and_right (not (is_ascii_whitespace c)) _ h) in
    let here = not-true (is_ascii_whitespace c) (and_left _ _ h) in rw (later, here) refl

is_word-dense : (w : Bytes) → is_word w ≡ true → dense w ≡ true
unfolding is_word
is_word-dense [] h = cc
is_word-dense (c ∷ w) h = h

pieces-join_words :
    (w : Bytes) (ws : List Bytes)
    → all_words (w ∷ ws) ≡ true
    → pieces (join_words (w ∷ ws)) ≡ (w, ws)
unfolding join_words all_words pieces is_ascii_whitespace
pieces-join_words w [] h =
    let whole = pieces-append w [] (is_word-dense w (and_left _ _ h)) in
    ap pieces (sym (append-nil w)) ∙ (whole ∙ ap (λ v. (v, [])) (append-nil w))
pieces-join_words w (x ∷ ws) h =
    let rest = 32 ∷ join_words (x ∷ ws) in
    let first = pieces-append w rest (is_word-dense w (and_left _ _ h)) in
    let later = pieces-join_words x ws (and_right (is_word w) _ h) in
    first ∙ rw later (ap (λ v. (v, x ∷ ws)) (append-nil w))

non_empty-all_words : (ws : List Bytes) → all_words ws ≡ true → non_empty ws ≡ ws
unfolding non_empty all_words is_word
non_empty-all_words [] h = refl
non_empty-all_words ([] ∷ ws) h = cc
non_empty-all_words ((c ∷ w) ∷ ws) h =
    ap (λ t. (c ∷ w) ∷ t) (non_empty-all_words ws (and_right (is_word (c ∷ w)) _ h))

pub split_ascii_whitespace-join_words :
    (w : Bytes) (ws : List Bytes)
    → all_words (w ∷ ws) ≡ true
    → split_ascii_whitespace (join_words (w ∷ ws)) ≡ w ∷ ws
unfolding split_ascii_whitespace
split_ascii_whitespace-join_words w ws h =
    rw (pieces-join_words w ws h) (non_empty-all_words (w ∷ ws) h)
