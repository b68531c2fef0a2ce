-- ===== src/Core/Checksum.antt =====
-- core/src/privkey.rs: what `sign_prehashed` publishes of each chain, and why the two checksum
-- chains keep a signature from being moved to another message.
use winterwallet.Prelude.{
  ℕ, ◌+◌, ◌-◌, ◌*◌, ◌≤◌, ◌<◌, ◌≡◌, refl, sym, ap, ap₂, ◌∙◌, List, [], ◌∷◌, ◌++◌, arith, length,
}
use winterwallet.Bytes.{Bytes, IsBytes, u16_mod}
use winterwallet.Core.Hash.{Hasher, chain}
use winterwallet.Core.Layout.{all_scalars}
use winterwallet.Core.Privkey
use winterwallet.Core.Privkey.{WinternitzPrivkey, sign_loop, sign_prehashed}
use winterwallet.Core.Signature
use winterwallet.Core.Signature.{add_digit, high_byte, low_byte}

-- The checksum without a machine word: how far the digits are below 255, together.
unfoldable pub deficit : Bytes → ℕ
deficit [] = 0
deficit (b ∷ bs) = (255 - b) + deficit bs

-- Pointwise order of digit strings of one length.
abbrev pub Dominated : Bytes → Bytes → Type 0
Dominated [] [] = Unit
Dominated [] (b ∷ bs) = ⊥
Dominated (a ∷ as') [] = ⊥
Dominated (a ∷ as') (b ∷ bs) = (a ≤ b) × Dominated as' bs

deficit_bound : (bs : Bytes) → deficit bs ≤ length bs * 255
unfolding deficit
deficit_bound [] = omega arith
deficit_bound (b ∷ bs) = omega (arith, deficit_bound bs)

module _ ⦃sha : Hasher⦄ where
  -- Each chain of a list, advanced by its digit.
  abbrev pub chains : List Bytes → Bytes → List Bytes
  chains [] ds = []
  chains (s ∷ ss) [] = []
  chains (s ∷ ss) (d ∷ ds) = chain s d ∷ chains ss ds

  sign_loop_lem :
      (ss : List Bytes) (bs : Bytes) (sum : ℕ)
      → length ss ≡ length bs
      → sum + length bs * 255 < u16_mod
      → sign_loop ss bs sum ≡ (chains ss bs, sum + deficit bs)
  unfolding sign_loop deficit
  sign_loop_lem [] [] sum e h = ap (λ t. ([], t)) (omega arith)
  sign_loop_lem [] (b ∷ bs) sum e h = absurd (omega arith)
  sign_loop_lem (s ∷ ss) [] sum e h = absurd (omega arith)
  sign_loop_lem (s ∷ ss) (b ∷ bs) sum e h =
      let step : add_digit sum b ≡ sum + (255 - b) = omega arith in
      let ih = sign_loop_lem ss bs (sum + (255 - b)) (omega arith) (omega arith) in
      rw (step, ih) (ap (λ t. (chain s b ∷ chains ss bs, t)) (omega arith))

  sign_loop_scalars :
      (ss : List Bytes) (bs : Bytes) (sum : ℕ)
      → length ss ≡ length bs
      → (sign_loop ss bs sum).0 ≡ chains ss bs
  unfolding sign_loop
  sign_loop_scalars [] [] sum e = refl
  sign_loop_scalars [] (b ∷ bs) sum e = refl
  sign_loop_scalars (s ∷ ss) [] sum e = refl
  sign_loop_scalars (s ∷ ss) (b ∷ bs) sum e =
      ap (λ t. chain s b ∷ t) (sign_loop_scalars ss bs (add_digit sum b) (omega arith))

  chains-append :
      (ss ts : List Bytes) (ds es : Bytes)
      → length ss ≡ length ds
      → chains (ss ++ ts) (ds ++ es) ≡ chains ss ds ++ chains ts es
  chains-append [] ts [] es l = refl
  chains-append [] ts (d ∷ ds) es l = absurd (omega arith)
  chains-append (s ∷ ss) ts [] es l = absurd (omega arith)
  chains-append (s ∷ ss) ts (d ∷ ds) es l =
      ap (λ t. chain s d ∷ t) (chains-append ss ts ds es (omega arith))

  -- The rounds by which `sign_prehashed` advances the N + 2 chains.
  unfoldable pub rounds : WinternitzPrivkey → Bytes → Bytes
  rounds sk digest =
      let checksum_sum = (sign_loop sk.scalars digest 0).1 in
      digest ++ (high_byte checksum_sum ∷ low_byte checksum_sum ∷ [])

  -- For a digest of as many digits as the private key has scalars, the signature is the private
  -- key with every chain advanced by its rounds, checksum chains included.
  pub sign_prehashed-rounds :
      (sk : WinternitzPrivkey) (digest : Bytes)
      → length sk.scalars ≡ length digest
      → all_scalars (Signature.fields (sign_prehashed sk digest))
        ≡ chains (all_scalars (Privkey.fields sk)) (rounds sk digest)
  unfolding sign_prehashed rounds
  sign_prehashed-rounds sk digest e =
      rw (sign_loop_scalars sk.scalars digest 0 e) (sym (chains-append sk.scalars _ digest _ e))

  -- The u16 that holds the checksum does not overflow, for up to 257 digits and as many scalars:
  -- it is the plain sum of the digits' distances to 255.
  pub checksum_sum_exact :
      (sk : WinternitzPrivkey) (digest : Bytes)
      → length sk.scalars ≡ length digest
      → length digest ≤ 257
      → (sign_loop sk.scalars digest 0).1 ≡ deficit digest
  checksum_sum_exact sk digest e h =
      ap (λ t. t.1) (sign_loop_lem sk.scalars digest 0 e (omega arith)) ∙ omega arith

-- A dominated string has the larger deficit, and only an equal string an equal one.
Dominated-deficit : (as' bs : Bytes) → Dominated as' bs → deficit bs ≤ deficit as'
unfolding deficit
Dominated-deficit [] [] h = omega arith
Dominated-deficit [] (b ∷ bs) h = elim h [ ]
Dominated-deficit (a ∷ as') [] h = elim h [ ]
Dominated-deficit (a ∷ as') (b ∷ bs) h = omega (arith, Dominated-deficit as' bs h.1, h.0)

Dominated-eq :
    (as' bs : Bytes) → IsBytes bs → Dominated as' bs → deficit as' ≤ deficit bs → as' ≡ bs
unfolding deficit
Dominated-eq [] [] hb h le = refl
Dominated-eq [] (b ∷ bs) hb h le = elim h [ ]
Dominated-eq (a ∷ as') [] hb h le = elim h [ ]
Dominated-eq (a ∷ as') (b ∷ bs) hb h le =
    let below = Dominated-deficit as' bs h.1 in
    ap₂ ◌∷◌ (omega arith) (Dominated-eq as' bs hb.1 h.1 (omega arith))

Dominated-append :
    (as' bs cs ds : Bytes)
    → length as' ≡ length bs
    → Dominated (as' ++ cs) (bs ++ ds)
    → Dominated as' bs × Dominated cs ds
Dominated-append [] [] cs ds l h = (tt, h)
Dominated-append [] (b ∷ bs) cs ds l h = absurd (omega arith)
Dominated-append (a ∷ as') [] cs ds l h = absurd (omega arith)
Dominated-append (a ∷ as') (b ∷ bs) cs ds l h =
    let (p, q) = Dominated-append as' bs cs ds (omega arith) h.1 in ((h.0, p), q)

module _ ⦃sha : Hasher⦄ where
  -- For two digests of one length up to 257, of as many digits as the private key has scalars, the
  -- second of bytes: if no chain is advanced further for the first digest than for the second,
  -- checksum chains included, the two digests are equal.
  pub rounds_antichain :
      (sk : WinternitzPrivkey) (digest other : Bytes)
      → length sk.scalars ≡ length digest
      → length other ≡ length digest
      → length digest ≤ 257
      → IsBytes other
      → Dominated (rounds sk digest) (rounds sk other)
      → digest ≡ other
  unfolding rounds
  rounds_antichain sk digest other e l h hb d =
      let (below, sums) = Dominated-append digest other _ _ (sym l) d in
      let s : ℕ = (sign_loop sk.scalars digest 0).1 in
      let t : ℕ = (sign_loop sk.scalars other 0).1 in
      let hs : s ≡ deficit digest = checksum_sum_exact sk digest e h in
      let ht : t ≡ deficit other = checksum_sum_exact sk other (e ∙ sym l) (omega arith) in
      Dominated-eq digest other hb below
        (omega (arith, sums, hs, ht, deficit_bound digest, deficit_bound other))
