-- ===== src/Core/Keypair/Mnemonic/RoundTrip.antt =====
-- core/src/keypair.rs: a generated mnemonic is a valid one.
use winterwallet.Prelude.{
  ℕ, zero, suc, ◌+◌, ◌*◌, ◌%◌, ◌≡◌, refl, sym, ap, ◌∙◌, true, some, List, [], ◌∷◌, ◌++◌, arith,
  length, take, replicate, get_elem?, ok, take-append, length-append, length-take, All-append,
  All-take, ◌==◌, ==_iff,
}
use Prim.Native.Nat.{bit_and}
use winterwallet.Bytes.{Bytes, IsByte, IsBytes, u16_mod}
use winterwallet.Core.Keypair.Mnemonic.{
  Digests, wordlist_lines, read_index, fill, read_words, write_words, generate_mnemonic, validate,
  check_checksum, total_bits, join_words, split_ascii_whitespace, at,
}
use winterwallet.Core.Keypair.Mnemonic.Bits.{
  put, put-put, put_copies, write_index-read_index, read_index_lt, at-append,
}
use winterwallet.Core.Keypair.Mnemonic.Words.{
  all_words, wordlist_lines-some, position-wordlist_lines, is_word-wordlist_lines,
}
use winterwallet.Core.Keypair.Mnemonic.Splitting.{split_ascii_whitespace-join_words}

-- One word more.
write_words-cons :
    (src : Bytes) (pos slots : ℕ) (word : Bytes) (ws : List Bytes)
    → get_elem? wordlist_lines (read_index src pos 0 11) ≡ some word
    → ((bits : Bytes) → write_words ws bits (pos + 11) ≡ ok (put src (slots * 11) bits (pos + 11)))
    → (bits : Bytes) → write_words (word ∷ ws) bits pos ≡ ok (put src (suc slots * 11) bits pos)
unfolding write_words
write_words-cons src pos slots word ws here writes bits =
    let idx = read_index src pos 0 11 in
    let fits : idx % u16_mod ≡ idx = omega (arith, read_index_lt src pos) in
    let written = write_index-read_index src pos 0 11 bits (omega arith) in
    let split : suc slots * 11 ≡ 11 + slots * 11 = omega arith in
    rw (position-wordlist_lines idx word here, fits, written)
      (writes (put src 11 bits pos)
        ∙ ap (λ b. ok b)
            (sym (put-put src 11 (slots * 11) bits pos) ∙ ap (λ n. put src n bits pos) (sym split)))

-- The words of a number of slots, and what `validate` writes for them.
read_words-write_words :
    (src : Bytes) (slots pos : ℕ)
    → (ws : List Bytes) × (read_words src pos slots ≡ some ws)
      × (length ws ≡ slots)
      × (all_words ws ≡ true)
      × ((bits : Bytes) → write_words ws bits pos ≡ ok (put src (slots * 11) bits pos))
unfolding read_words fill write_words all_words put
read_words-write_words src zero pos = ([], refl, refl, refl, λ bits. refl)
read_words-write_words src (suc slots) pos =
    let idx = read_index src pos 0 11 in
    let small = read_index_lt src pos in
    let (word, here) = wordlist_lines-some idx small in
    let (ws, reads, count, good, writes) = read_words-write_words src slots (pos + 11) in
    (
      word ∷ ws,
      rw (here, reads) refl,
      ap suc count,
      rw (is_word-wordlist_lines idx word here, good) refl,
      write_words-cons src pos slots word ws here writes,
    )

split_words :
    (ws : List Bytes)
    → length ws ≡ 24
    → all_words ws ≡ true
    → split_ascii_whitespace (join_words ws) ≡ ws
split_words [] count good = absurd (omega arith)
split_words (w ∷ ws) count good = split_ascii_whitespace-join_words w ws good

module _ ⦃digests : Digests⦄ where
  -- The 33 bytes that hold the entropy and the checksum.
  abbrev source : Bytes → Bytes
  source entropy = entropy ++ take 1 (digests.sha256 entropy)

  take_head : (h : Bytes) → length h ≡ 32 → take 1 h ≡ at h 0 ∷ []
  unfolding at
  take_head [] e = absurd (omega arith)
  take_head (b ∷ h) e = refl

  check_checksum-source :
      (entropy : Bytes) → length entropy ≡ 32 → check_checksum 264 (source entropy) ≡ ok tt
  unfolding check_checksum
  check_checksum-source entropy h =
      let hash = digests.sha256 entropy in
      let head = take_head hash (digests.length-sha256 entropy) in
      let front : take 32 (source entropy) ≡ entropy = take-append 32 entropy (take 1 hash) h in
      let byte : at (source entropy) 32 ≡ at hash 0 =
        ap (λ t. at (entropy ++ t) 32) head
        ∙ (ap (at (entropy ++ (at hash 0 ∷ []))) (sym h) ∙ at-append entropy (at hash 0) []) in
      let same : (bit_and (at hash 0) 255 == bit_and (at hash 0) 255) ≡ true =
        (==_iff _ _).1 refl in
      rw (front, byte, same) refl

  -- Words that are found, and whose checksum holds, are valid.
  validate_words :
      (mnemonic : Bytes) (ws : List Bytes) (bits : Bytes)
      → split_ascii_whitespace mnemonic ≡ ws
      → length ws ≡ 24
      → write_words ws (replicate 33 0) 0 ≡ ok bits
      → check_checksum 264 bits ≡ ok tt
      → validate mnemonic ≡ ok tt
  unfolding validate total_bits
  validate_words mnemonic ws bits splits count writes checks =
      rw (splits, count, writes, checks) refl

  -- For 32 bytes of entropy, `generate_mnemonic` does not panic and returns 24 words, and
  -- `validate` accepts these words joined by spaces.
  pub validate-generate_mnemonic :
      (entropy : Bytes)
      → length entropy ≡ 32
      → IsBytes entropy
      → (words : List Bytes) × (generate_mnemonic entropy ≡ some words)
        × (length words ≡ 24)
        × (validate (join_words words) ≡ ok tt)
  unfolding generate_mnemonic
  validate-generate_mnemonic entropy h bytes =
      let hash = digests.sha256 entropy in
      let src = source entropy in
      let (ws, reads, count, good, writes) = read_words-write_words src 24 0 in
      let size : length src ≡ 33 = omega (
        arith,
        length-append entropy (take 1 hash),
        length-take 1 hash,
        digests.length-sha256 entropy,
      ) in
      let all : IsBytes src =
        All-append IsByte entropy (take 1 hash) bytes
          (All-take IsByte 1 hash (digests.sha256-IsBytes entropy)) in
      let copied : put src 264 (replicate 33 0) 0 ≡ src = rw size at (put_copies src all) in
      let written : write_words ws (replicate 33 0) 0 ≡ ok src =
        writes (replicate 33 0) ∙ ap (λ b. ok b) copied in
      (
        ws,
        reads,
        count,
        validate_words (join_words ws) ws src (split_words ws count good) count written
            (check_checksum-source entropy h),
      )
