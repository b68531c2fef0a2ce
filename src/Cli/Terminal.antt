-- ===== src/Cli/Terminal.antt =====
-- cli/src/helpers.rs: `str::trim` of the line that holds the mnemonic. A string is its UTF-8 bytes.
use winterwallet.Prelude.{
  ℕ, zero, suc, Bool, true, false, ◌&&◌, List, [], ◌∷◌, map, length, drop, ◌==◌, if◌then◌else◌,
}
use mathlib.Core.List.{reverse}
use winterwallet.Bytes.{Bytes}

-- The characters that are white space: U+0009 to U+000D, U+0020, U+0085, U+00A0, U+1680, U+2000 to
-- U+200A, U+2028, U+2029, U+202F, U+205F and U+3000.
unfoldable pub white_space : List Bytes
white_space =
    (9 ∷ [])
    ∷ (10 ∷ [])
    ∷ (11 ∷ [])
    ∷ (12 ∷ [])
    ∷ (13 ∷ [])
    ∷ (32 ∷ [])
    ∷ (194 ∷ 133 ∷ [])
    ∷ (194 ∷ 160 ∷ [])
    ∷ (225 ∷ 154 ∷ 128 ∷ [])
    ∷ (226 ∷ 128 ∷ 128 ∷ [])
    ∷ (226 ∷ 128 ∷ 129 ∷ [])
    ∷ (226 ∷ 128 ∷ 130 ∷ [])
    ∷ (226 ∷ 128 ∷ 131 ∷ [])
    ∷ (226 ∷ 128 ∷ 132 ∷ [])
    ∷ (226 ∷ 128 ∷ 133 ∷ [])
    ∷ (226 ∷ 128 ∷ 134 ∷ [])
    ∷ (226 ∷ 128 ∷ 135 ∷ [])
    ∷ (226 ∷ 128 ∷ 136 ∷ [])
    ∷ (226 ∷ 128 ∷ 137 ∷ [])
    ∷ (226 ∷ 128 ∷ 138 ∷ [])
    ∷ (226 ∷ 128 ∷ 168 ∷ [])
    ∷ (226 ∷ 128 ∷ 169 ∷ [])
    ∷ (226 ∷ 128 ∷ 175 ∷ [])
    ∷ (226 ∷ 129 ∷ 159 ∷ [])
    ∷ (227 ∷ 128 ∷ 128 ∷ [])
    ∷ []

unfoldable pub starts_with : Bytes → Bytes → Bool
starts_with [] s = true
starts_with (b ∷ bs) [] = false
starts_with (b ∷ bs) (c ∷ s) = (b == c) && starts_with bs s

-- The length of the first of these characters that the string starts with, or 0.
unfoldable pub leading : List Bytes → Bytes → ℕ
leading [] s = 0
leading (p ∷ ps) s = let later = leading ps s in if starts_with p s then length p else later

-- The string without these characters at its start; a round for each byte is enough.
unfoldable pub strip : ℕ → List Bytes → Bytes → Bytes
strip zero ps s = s
strip (suc rounds) ps s = let k = leading ps s in if k == 0 then s else strip rounds ps (drop k s)

-- `trim`; the end is the start of the reversed string.
unfoldable pub trim : Bytes → Bytes
trim s =
    let rest = strip (length s) white_space s in
    reverse (strip (length rest) (map reverse white_space) (reverse rest))
