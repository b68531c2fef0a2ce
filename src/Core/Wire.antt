-- ===== src/Core/Wire.antt =====
-- core/src/{privkey,pubkey,signature}.rs: `as_bytes` against `TryFrom<&[u8]>`.
use winterwallet.Prelude.{
  ℕ, ◌+◌, ◌*◌, ◌≡◌, ap, sym, ◌∙◌, arith, ◌==◌, length, ok, Bool-cases, inl, inr, true,
}
use mathlib.Core.Path.{subst}
use winterwallet.Bytes.{Bytes}
use winterwallet.Core.Layout.{
  Fields, IsLaidOut, cast, raw_bytes, length-raw_bytes, cast-raw_bytes, raw_bytes-cast,
  cast-IsLaidOut,
}
use winterwallet.Core.Privkey
use winterwallet.Core.Privkey.{WinternitzPrivkey}
use winterwallet.Core.Pubkey
use winterwallet.Core.Pubkey.{WinternitzPubkey}
use winterwallet.Core.Signature
use winterwallet.Core.Signature.{WinternitzSignature}

-- A signature, a public key and a private key of N scalars are parsed back from their bytes.
pub try_from-as_bytes :
    (n : ℕ) (sig : WinternitzSignature) (pk : WinternitzPubkey) (sk : WinternitzPrivkey)
    → IsLaidOut n (Signature.fields sig)
    → IsLaidOut n (Pubkey.fields pk)
    → IsLaidOut n (Privkey.fields sk)
    → (Signature.try_from n (Signature.as_bytes sig) ≡ ok sig)
      × (Pubkey.try_from n (Pubkey.as_bytes pk) ≡ ok pk)
      × (Privkey.try_from n (Privkey.as_bytes sk) ≡ ok sk)
unfolding Signature.try_from Signature.as_bytes Pubkey.try_from Pubkey.as_bytes Privkey.try_from
    Privkey.as_bytes
try_from-as_bytes n sig pk sk hs hp hk = (
  rw (fits _ hs, cast-raw_bytes n (Signature.fields sig) hs),
  rw (fits _ hp, cast-raw_bytes n (Pubkey.fields pk) hp),
  rw (fits _ hk, cast-raw_bytes n (Privkey.fields sk) hk),
)
  where
    fits : (f : Fields) → IsLaidOut n f → (length (raw_bytes f) == (n + 2) * 32) ≡ true
    fits f h = ground (arith, length-raw_bytes n f h)

-- A byte slice that is accepted as a signature has (N + 2) * 32 bytes, and the signature has those
-- bytes and N scalars of 32 bytes.
pub as_bytes-try_from :
    (n : ℕ) (value : Bytes) (sig : WinternitzSignature)
    → Signature.try_from n value ≡ ok sig
    → (length value ≡ (n + 2) * 32)
      × (Signature.as_bytes sig ≡ value)
      × IsLaidOut n (Signature.fields sig)
unfolding Signature.try_from Signature.as_bytes
as_bytes-try_from n value sig h = elim (Bool-cases (length value == (n + 2) * 32)) [
  | inl long ↦
      let e : length value ≡ (n + 2) * 32 = ground arith in
      let same : Signature.of_fields (cast n value) ≡ sig = cc (long, h) in
      (
        e,
        ap (λ t. raw_bytes (Signature.fields t)) (sym same) ∙ raw_bytes-cast n value,
        subst (λ t. IsLaidOut n (Signature.fields t)) same (cast-IsLaidOut n value e),
      )
  | inr short ↦ cc (short, h)
]

pub length-as_bytes :
    (n : ℕ) (sig : WinternitzSignature)
    → IsLaidOut n (Signature.fields sig)
    → length (Signature.as_bytes sig) ≡ (n + 2) * 32
unfolding Signature.as_bytes
length-as_bytes n sig h = length-raw_bytes n (Signature.fields sig) h

-- The signature's part of `try_from-as_bytes`.
pub signature_parsed :
    (n : ℕ) (sig : WinternitzSignature)
    → IsLaidOut n (Signature.fields sig)
    → Signature.try_from n (Signature.as_bytes sig) ≡ ok sig
unfolding Signature.try_from Signature.as_bytes
signature_parsed n sig h =
    let fits : (length (raw_bytes (Signature.fields sig)) == (n + 2) * 32) ≡ true =
      ground (arith, length-raw_bytes n (Signature.fields sig) h) in
    rw (fits, cast-raw_bytes n (Signature.fields sig) h)
