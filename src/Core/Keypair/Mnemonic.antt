-- ===== src/Core/Keypair/Mnemonic.antt =====
-- core/src/keypair.rs: the BIP-39 mnemonic of 32 bytes of entropy, its validation, and the keypair
-- of a mnemonic. SHA-256, PBKDF2 and HMAC come from the crates sha2, pbkdf2 and hmac.
pub mod Wordlist
pub mod Words
pub mod Origin
pub mod Bits
pub mod Splitting
pub mod RoundTrip
use Prim.Native.Nat.{bit_and, bit_or}
use Prim.Native.Char.{code}
use winterwallet.Prelude.{
  ℕ, zero, suc, ◌+◌, ◌*◌, ◌-◌, ◌/◌, ◌%◌, ◌^◌, ◌≡◌, Bool, true, false, not, ◌||◌, Option, none, some,
  List, [], ◌∷◌, ◌++◌, length, take, drop, replicate, get_elem?, ltb, ◌==◌, if◌then◌else◌, Result,
  ok, err, ◌>>=◌, ◌>>◌, fail_if, ok_or,
}
use mathlib.Core.Option
use winterwallet.Bytes.{Bytes, IsBytes, bytes_eq, u16_mod}
use winterwallet.Common.{ascii, winternitz_scalars}
use winterwallet.Core.Error.{WinternitzError, invalid_mnemonic, invalid_length}
use winterwallet.Core.Keypair.{Hmac, WinternitzKeypair}
use Wordlist.{wordlist}

-- `Sha256::digest` and `pbkdf2_hmac::<Sha512>` by password, salt and rounds, into 64 bytes.
pub record Digests : Type 0 where
  pub sha256 : Bytes → Bytes
  pub length-sha256 : (message : Bytes) → length (sha256 message) ≡ 32
  pub sha256-IsBytes : (message : Bytes) → IsBytes (sha256 message)
  pub pbkdf2_hmac_sha512 : Bytes → Bytes → ℕ → Bytes

abbrev pub max_passphrase_len : ℕ
max_passphrase_len = 256

-- A character in front of the first line.
unfoldable pub prepend : ℕ → List Bytes → List Bytes
prepend c [] = (c ∷ []) ∷ []
prepend c (line ∷ rest) = (c ∷ line) ∷ rest

-- `str::lines`, of a text without carriage returns.
unfoldable pub lines : Bytes → List Bytes
lines [] = []
lines (c ∷ cs) = elim (c == 10) [ true ↦ [] ∷ lines cs | false ↦ prepend c (lines cs) ]

-- `WORDLIST.lines()`
unfoldable pub wordlist_lines : List Bytes
wordlist_lines = lines wordlist

unfoldable pub is_ascii_whitespace : ℕ → Bool
is_ascii_whitespace c = (c == 32) || (c == 9) || (c == 10) || (c == 12) || (c == 13)

-- The pieces between whitespace, of which there is at least one.
unfoldable pub pieces : Bytes → Bytes × List Bytes
pieces [] = ([], [])
pieces (c ∷ cs) =
    let (first, rest) = pieces cs in
    if is_ascii_whitespace c then ([], first ∷ rest) else (c ∷ first, rest)

unfoldable pub non_empty : List Bytes → List Bytes
non_empty [] = []
non_empty ([] ∷ rest) = non_empty rest
non_empty ((c ∷ cs) ∷ rest) = (c ∷ cs) ∷ non_empty rest

-- `split_ascii_whitespace`
unfoldable pub split_ascii_whitespace : Bytes → List Bytes
split_ascii_whitespace s = let (first, rest) = pieces s in non_empty (first ∷ rest)

-- `words.join(" ")`
unfoldable pub join_words : List Bytes → Bytes
join_words [] = []
join_words (word ∷ []) = word
join_words (word ∷ next ∷ words) = word ++ (32 ∷ join_words (next ∷ words))

-- `lines.position(|line| line == word)`
unfoldable pub position : Bytes → List Bytes → Option ℕ
position word [] = none
position word (line ∷ rest) =
    let later = Option.map suc (position word rest) in if bytes_eq line word then some 0 else later

-- `bits[i]`, where i is in bounds.
unfoldable pub at : Bytes → ℕ → ℕ
at [] i = 0
at (b ∷ bs) zero = b
at (b ∷ bs) (suc i) = at bs i

-- `bits[i] |= mask`, where i is in bounds.
unfoldable pub set_bits : Bytes → ℕ → ℕ → Bytes
set_bits [] i mask = []
set_bits (b ∷ bs) zero mask = bit_or b mask ∷ bs
set_bits (b ∷ bs) (suc i) mask = b ∷ set_bits bs i mask

-- `(bits[bit_pos / 8] >> (7 - (bit_pos % 8))) & 1`
unfoldable pub get_bit : Bytes → ℕ → ℕ
get_bit bits bit_pos = at bits (bit_pos / 8) / 2 ^ (7 - bit_pos % 8) % 2

-- The inner loop of `generate_mnemonic` for `rounds` bits, from `idx` on. `idx << 1` of a u16 has
-- its lowest bit clear, so that `|` adds.
unfoldable pub read_index : Bytes → ℕ → ℕ → ℕ → ℕ
read_index bits bit_pos idx zero = idx
read_index bits bit_pos idx (suc rounds) =
    read_index bits (bit_pos + 1) (idx * 2 % u16_mod + get_bit bits bit_pos) rounds

-- A slot filled, and the slots after it; `none` is the panic of `expect`.
unfoldable pub fill : Option Bytes → Option (List Bytes) → Option (List Bytes)
fill none rest = none
fill (some word) rest = Option.map (λ words. word ∷ words) rest

-- The outer loop, for `slots` words.
unfoldable pub read_words : Bytes → ℕ → ℕ → Option (List Bytes)
read_words bits bit_pos zero = some []
read_words bits bit_pos (suc slots) =
    fill (get_elem? wordlist_lines (read_index bits bit_pos 0 11))
      (read_words bits (bit_pos + 11) slots)

-- The loop of `validate` over the bits of one index, from the highest of `rounds` down.
unfoldable pub write_index : ℕ → ℕ → Bytes → ℕ → Bytes
write_index idx zero bits bit_pos = bits
write_index idx (suc b) bits bit_pos =
    write_index idx b
      (if idx / 2 ^ b % 2 == 1 then set_bits bits (bit_pos / 8) (2 ^ (7 - bit_pos % 8)) else bits)
      (bit_pos + 1)

-- The loop of `validate` over the words.
unfoldable pub write_words : List Bytes → Bytes → ℕ → Result WinternitzError Bytes
write_words [] bits bit_pos = ok bits
write_words (word ∷ words) bits bit_pos = do
  idx ← ok_or (position word wordlist_lines) invalid_mnemonic
  write_words words (write_index (idx % u16_mod) 11 bits bit_pos) (bit_pos + 11)

-- `total_bits`, by the number of words.
unfoldable pub total_bits : ℕ → Result WinternitzError ℕ
total_bits count =
    if count == 12
    then ok 132
    else if count == 15
    then ok 165
    else if count == 18
    then ok 198
    else if count == 21
    then ok 231
    else if count == 24
    then ok 264
    else err invalid_mnemonic

module _ ⦃digests : Digests⦄ where
  -- `generate_mnemonic`; `none` is the panic of `expect`.
  unfoldable pub generate_mnemonic : Bytes → Option (List Bytes)
  generate_mnemonic entropy = read_words (entropy ++ take 1 (digests.sha256 entropy)) 0 24

  -- The comparison at the end of `validate`.
  unfoldable pub check_checksum : ℕ → Bytes → Result WinternitzError (Unit {0})
  check_checksum total bits = do
    let entropy_bits = total * 32 / 33
    let cs_bits = total - entropy_bits
    let entropy_bytes = entropy_bits / 8
    let hash = digests.sha256 (take entropy_bytes bits)
    let mask = 255 * 2 ^ (8 - cs_bits) % 256
    fail_if (not (bit_and (at bits entropy_bytes) mask == bit_and (at hash 0) mask))
        invalid_mnemonic
    ok tt

  unfoldable pub validate : Bytes → Result WinternitzError (Unit {0})
  validate mnemonic = do
    total ← total_bits (length (split_ascii_whitespace mnemonic))
    bits ← write_words (split_ascii_whitespace mnemonic) (replicate 33 0) 0
    check_checksum total bits

  unfoldable pub raw_seed : Bytes → Bytes → Bytes
  raw_seed mnemonic passphrase =
      digests.pbkdf2_hmac_sha512 mnemonic (ascii "mnemonic" ++ passphrase) 2048

  unfoldable pub seed_with_passphrase : Bytes → Bytes → Result WinternitzError Bytes
  seed_with_passphrase mnemonic passphrase = do
    fail_if (ltb max_passphrase_len (length passphrase)) invalid_length
    validate mnemonic
    ok (raw_seed mnemonic passphrase)

  unfoldable pub seed : Bytes → Result WinternitzError Bytes
  seed mnemonic = seed_with_passphrase mnemonic []

  module _ ⦃mac : Hmac⦄ where
    unfoldable pub from_mnemonic_unchecked : Bytes → ℕ → WinternitzKeypair
    from_mnemonic_unchecked mnemonic wallet =
        let i = mac.hmac_sha512 (ascii "Winternitz seed") (raw_seed mnemonic []) in
        record { key = take 32 i; chain_code = drop 32 i; wallet = wallet; parent = 0; child = 0 }

    unfoldable pub from_mnemonic : Bytes → ℕ → Result WinternitzError WinternitzKeypair
    from_mnemonic mnemonic wallet = do
      validate mnemonic
      ok (from_mnemonic_unchecked mnemonic wallet)

    unfoldable pub from_mnemonic_at : Bytes → ℕ → ℕ → ℕ → Result WinternitzError WinternitzKeypair
    from_mnemonic_at mnemonic wallet parent child = do
      validate mnemonic
      let kp = from_mnemonic_unchecked mnemonic wallet
      ok (record kp { parent = parent; child = child })
