-- ===== src/Core/Merkle/Depth.antt =====
-- The arrays `stack` and `levels` of `merklize` have room for MAX_DEPTH = 5 entries.
use winterwallet.Prelude.{
  ℕ, ◌+◌, ◌-◌, ◌*◌, ◌^◌, ◌≤◌, ◌<◌, ◌≡◌, refl, ap, List, [], ◌∷◌, ◌++◌, take, arith, ◌==◌,
  Bool-cases, inl, inr, length, length-take, length-append,
}
use mathlib.Core.Logic.{◌⊎◌}
use native.Mathlib.Nat.{pow-le-pow_right, one-le-pow, two-pow-succ}
use native.Mathlib.Numerals.{towards_suc}
use winterwallet.Bytes.{Bytes}
use winterwallet.Core.Hash.{Hasher}
use winterwallet.Core.Layout.{all_scalars, Fields, IsLaidOut}
use winterwallet.Core.Merkle.{Stack, max_depth, leaf_hash, node_hash, collapse, push_leaves}
use winterwallet.Core.Merkle.Tree.{IsRising, collapse-IsRising}

-- The leaves below an entry of level `l` number 2 ^ l.
weight : Stack → ℕ
weight [] = 0
weight ((h, l) ∷ s) = 2 ^ l + weight s

two-pow-suc : (l : ℕ) → 2 ^ (l + 1) ≡ 2 ^ l + 2 ^ l
two-pow-suc l = simp towards_suc (omega arith)

module _ ⦃sha : Hasher⦄ where
  weight-collapse : (h : Bytes) (k : ℕ) (s : Stack) → weight (collapse h k s) ≡ 2 ^ k + weight s
  unfolding collapse weight
  weight-collapse h k [] = refl
  weight-collapse h k ((x, l) ∷ s) = elim (Bool-cases (l == k)) [
    | inl e ↦
        let same : l ≡ k = ground arith in
        rw (e, weight-collapse (node_hash x h) (k + 1) s, same) (omega (arith, two-pow-suc k))
    | inr e ↦ rw e
  ]

  -- After a prefix of the leaves the stack weighs as many leaves as were pushed.
  push_leaves-weight :
      (ls : List Bytes) (s : Stack)
      → IsRising 0 s
      → IsRising 0 (push_leaves ls s) × (weight (push_leaves ls s) ≡ length ls + weight s)
  unfolding push_leaves
  push_leaves-weight [] s r = (r, omega arith)
  push_leaves-weight (l ∷ ls) s r =
      let s' = collapse (leaf_hash l) 0 s in
      let (rising, eq) = push_leaves-weight ls s' (collapse-IsRising (leaf_hash l) 0 s r) in
      (rising, omega (arith, eq, weight-collapse (leaf_hash l) 0 s))

-- Entries that rise strictly weigh at least 2 ^ depth - 1.
depth_weight : (k : ℕ) (s : Stack) → IsRising k s → 2 ^ k * 2 ^ length s ≤ weight s + 2 ^ k
unfolding weight
depth_weight k [] r = omega arith
depth_weight k ((h, l) ∷ s) (le, r) =
    let d = 2 ^ l - 2 ^ k in
    let p = 2 ^ length s in
    let up : 2 ^ k ≤ 2 ^ l = pow-le-pow_right (omega arith) le in
    let split : 2 ^ l ≡ 2 ^ k + d = omega arith in
    let many : 1 ≤ p = one-le-pow (length s) 2 (omega arith) in
    let grow : d ≤ d * p = grind arith in
    omega (
      arith,
      ap (λ (t : ℕ). t * p) split,
      ap (λ (t : ℕ). t * p) (two-pow-suc l),
      two-pow-suc l,
      ap (λ (t : ℕ). 2 ^ k * t) (two-pow-succ (length s)),
      depth_weight (l + 1) s r,
    )

depth_bound : (s : Stack) → IsRising 0 s → weight s < 63 → length s ≤ max_depth
depth_bound s r light = elim (eq-or-lt_of_le_or (length s)) [
  | inl small ↦ small
  | inr big ↦ absurd (
      omega (
        arith,
        depth_weight 0 s r,
        pow-le-pow_right {n = 2} (omega arith) {i = 6} {j = length s} big,
      ))
]
  where
    eq-or-lt_of_le_or : (n : ℕ) → (n ≤ max_depth) ⊎ (6 ≤ n)
    eq-or-lt_of_le_or n = grind arith

module _ ⦃sha : Hasher⦄ where
  -- For every N up to 32 and after every prefix of the N + 2 leaves of a key, the stack has at
  -- most MAX_DEPTH entries.
  pub push_leaves_depth :
      (n : ℕ) (f : Fields) (i : ℕ)
      → n ≤ 32
      → IsLaidOut n f
      → length (push_leaves (take i (all_scalars f)) []) ≤ max_depth
  push_leaves_depth n (ss, c0, c1) i h (hn, _, _, _) =
      let leaves = ss ++ (c0 ∷ c1 ∷ []) in
      let (rising, eq) = push_leaves-weight (take i leaves) [] tt in
      depth_bound _ rising
        (unfold weight in omega (arith, eq, length-take i leaves, length-append ss (c0 ∷ c1 ∷ [])))
