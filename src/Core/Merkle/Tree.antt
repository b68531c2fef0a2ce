-- ===== src/Core/Merkle/Tree.antt =====
-- The stack of `merklize` computes the tree that its comment describes: level by level, with the
-- rightmost node of an odd level paired with itself.
use winterwallet.Prelude.{
  ℕ, zero, suc, ◌+◌, ◌-◌, ◌≤◌, ◌≡◌, refl, ap, sym, ◌∙◌, List, [], ◌∷◌, map, arith, ◌==◌, Bool-cases,
  inl, inr, true, false, length, length-map,
}
use winterwallet.Bytes.{Bytes}
use winterwallet.Core.Hash.{Hasher}
use winterwallet.Core.Layout.{all_scalars}
use winterwallet.Core.Pubkey.{WinternitzPubkey, fields}
use winterwallet.Core.Merkle.{
  Stack, leaf_hash, node_hash, collapse, push_leaves, lift, drain, drain_stack, merklize,
}

-- The levels rise strictly from the top down, and none is below `k`.
abbrev pub IsRising : ℕ → Stack → Type 0
IsRising k [] = Unit
IsRising k ((h, l) ∷ s) = (k ≤ l) × IsRising (l + 1) s

IsRising-weaken : (k j : ℕ) (s : Stack) → j ≤ k → IsRising k s → IsRising j s
IsRising-weaken k j [] h r = tt
IsRising-weaken k j ((x, l) ∷ s) h r = (omega arith, r.1)

module _ ⦃sha : Hasher⦄ where
  -- The specification: the next level of the tree, and the root over a level.
  unfoldable pub next_level : List Bytes → List Bytes
  next_level [] = []
  next_level (x ∷ []) = node_hash x x ∷ []
  next_level (x ∷ y ∷ r) = node_hash x y ∷ next_level r

  -- `rounds` bounds the number of levels.
  unfoldable pub tree_root : ℕ → List Bytes → Bytes
  tree_root rounds [] = []
  tree_root rounds (x ∷ []) = x
  tree_root zero (x ∷ y ∷ r) = []
  tree_root (suc rounds) (x ∷ y ∷ r) = tree_root rounds (next_level (x ∷ y ∷ r))

  -- Pushing hashes that stand at level `k` already.
  push_hashes : ℕ → List Bytes → Stack → Stack
  push_hashes k [] s = s
  push_hashes k (h ∷ hs) s = push_hashes k hs (collapse h k s)

  push_leaves-hashes :
      (ls : List Bytes) (s : Stack) → push_leaves ls s ≡ push_hashes 0 (map leaf_hash ls) s
  unfolding push_leaves push_hashes
  push_leaves-hashes [] s = refl
  push_leaves-hashes (l ∷ ls) s = push_leaves-hashes ls (collapse (leaf_hash l) 0 s)

  pub collapse-IsRising :
      (h : Bytes) (k : ℕ) (s : Stack) → IsRising k s → IsRising k (collapse h k s)
  unfolding collapse
  collapse-IsRising h k [] r = (omega arith, tt)
  collapse-IsRising h k ((x, l) ∷ s) (le, r) = elim (Bool-cases (l == k)) [
    | inl e ↦ rw e (
        let rising = IsRising-weaken (l + 1) (k + 1) s (ground arith) r in
        IsRising-weaken (k + 1) k _ (omega arith)
          (collapse-IsRising (node_hash x h) (k + 1) s rising))
    | inr e ↦ rw e (omega arith, (ground arith, r))
  ]

  -- Draining a stack whose top is pushed by `collapse` drains it as it stands.
  drain-collapse :
      (h : Bytes) (k : ℕ) (s : Stack) → IsRising k s → drain_stack (collapse h k s) ≡ drain h k s
  unfolding drain_stack drain collapse lift
  drain-collapse h k [] r = refl
  drain-collapse h k ((x, l) ∷ s) (le, r) = elim (Bool-cases (l == k)) [
    | inl e ↦
        let none_left : l - k ≡ 0 = ground arith in
        let up : k + 0 + 1 ≡ k + 1 = omega arith in
        let rising = IsRising-weaken (l + 1) (k + 1) s (ground arith) r in
        rw (e, none_left, up) (drain-collapse (node_hash x h) (k + 1) s rising)
    | inr e ↦ rw e
  ]

  -- Where no entry has level `k`, a push at level `k` is a plain push.
  collapse_above :
      (h : Bytes) (k : ℕ) (s : Stack) → IsRising (k + 1) s → collapse h k s ≡ (h, k) ∷ s
  unfolding collapse
  collapse_above h k [] r = refl
  collapse_above h k ((x, l) ∷ s) (le, r) = let other : (l == k) ≡ false = ground arith in rw other

  -- Two pushes at level `k` are one push of their parent at the level above.
  collapse-collapse :
      (x y : Bytes) (k : ℕ) (s : Stack)
      → IsRising (k + 1) s
      → collapse y k (collapse x k s) ≡ collapse (node_hash x y) (k + 1) s
  collapse-collapse x y k s r =
      let same : (k == k) ≡ true = ground arith in
      rw (collapse_above x k s r) (unfold collapse in rw same)

  length-collapse : (h : Bytes) (k : ℕ) (s : Stack) → 1 ≤ length (collapse h k s)
  unfolding collapse
  length-collapse h k [] = omega arith
  length-collapse h k ((x, l) ∷ s) = elim (Bool-cases (l == k)) [
    | inl e ↦ rw e (length-collapse (node_hash x h) (k + 1) s)
    | inr e ↦ rw e (omega arith)
  ]

  -- A last node without a neighbour counts as its own, one level up.
  drain_orphan :
      (x : Bytes) (k : ℕ) (s : Stack)
      → IsRising (k + 1) s
      → 1 ≤ length s
      → drain x k s ≡ drain (node_hash x x) (k + 1) s
  unfolding drain lift
  drain_orphan x k [] r h = elim h [ ]
  drain_orphan x k ((y, l) ∷ s) (le, r) h =
      let more : l - k ≡ suc (l - (k + 1)) = omega arith in
      let level : k + suc (l - (k + 1)) + 1 ≡ k + 1 + (l - (k + 1)) + 1 = omega arith in
      rw (more, level)

  -- Over entries that stand higher, a level may be replaced by the next one.
  drain_next_level :
      (k : ℕ) (hs : List Bytes) (s : Stack)
      → IsRising (k + 1) s
      → 1 ≤ length s
      → drain_stack (push_hashes k hs s) ≡ drain_stack (push_hashes (k + 1) (next_level hs) s)
  unfolding push_hashes next_level
  drain_next_level k [] s r h = refl
  drain_next_level k (x ∷ []) s r h =
      rw (collapse_above x k s r) (unfold drain_stack in drain_orphan x k s r h)
      ∙ sym (drain-collapse (node_hash x x) (k + 1) s r)
  drain_next_level k (x ∷ y ∷ hs) s r h = rw (collapse-collapse x y k s r) (
      drain_next_level k hs (collapse (node_hash x y) (k + 1) s)
        (collapse-IsRising (node_hash x y) (k + 1) s r) (length-collapse (node_hash x y) (k + 1) s))

  pub length-next_level : (hs : List Bytes) → length (next_level hs) ≤ length hs
  unfolding next_level
  length-next_level [] = omega arith
  length-next_level (x ∷ []) = omega arith
  length-next_level (x ∷ y ∷ hs) = omega (arith, length-next_level hs)

  drain-tree_root :
      (rounds k : ℕ) (hs : List Bytes)
      → length hs ≤ rounds
      → drain_stack (push_hashes k hs []) ≡ tree_root rounds hs
  unfolding push_hashes tree_root next_level
  drain-tree_root rounds k [] h = unfold drain_stack in refl
  drain-tree_root rounds k (x ∷ []) h = unfold drain_stack collapse drain in refl
  drain-tree_root zero k (x ∷ y ∷ hs) h = absurd (omega arith)
  drain-tree_root (suc rounds) k (x ∷ y ∷ hs) h =
      rw (collapse-collapse x y k [] tt) (
        drain_next_level k hs (collapse (node_hash x y) (k + 1) [])
          (collapse-IsRising (node_hash x y) (k + 1) [] tt)
          (length-collapse (node_hash x y) (k + 1) []))
      ∙ drain-tree_root rounds (k + 1) (next_level (x ∷ y ∷ hs))
          (omega (arith, length-next_level hs))

  -- `merklize` is the root of the tree over the leaf hashes, built level by level, where the
  -- rightmost node of an odd level is paired with itself.
  pub merklize-tree_root :
      (pk : WinternitzPubkey)
      → merklize pk
        ≡ tree_root (length (all_scalars (fields pk))) (map leaf_hash (all_scalars (fields pk)))
  unfolding merklize
  merklize-tree_root pk =
      let leaves = all_scalars (fields pk) in
      ap drain_stack (push_leaves-hashes leaves [])
      ∙ drain-tree_root (length leaves) 0 (map leaf_hash leaves)
          (omega (arith, length-map leaves leaf_hash))
