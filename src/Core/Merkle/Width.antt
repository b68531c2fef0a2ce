-- ===== src/Core/Merkle/Width.antt =====
-- core/src/pubkey.rs: a root has 32 bytes.
use winterwallet.Prelude.{ℕ, ◌+◌, ◌-◌, ◌≡◌, List, [], ◌∷◌, ◌++◌, ◌==◌, Bool-cases, inl, inr, length}
use winterwallet.Bytes.{Bytes}
use winterwallet.Core.Hash.{Hasher}
use winterwallet.Core.Pubkey.{WinternitzPubkey}
use winterwallet.Core.Merkle.{
  Stack, leaf_hash, leaf_tag, node_hash, node_tag, collapse, push_leaves, lift, drain, drain_stack,
  merklize,
}

module _ ⦃sha : Hasher⦄ where
  length-drain : (top : Bytes) (k : ℕ) (s : Stack) → length top ≡ 32 → length (drain top k s) ≡ 32
  unfolding drain
  length-drain top k [] h = h
  length-drain top k ((next, l) ∷ s) h =
      length-drain (node_hash next (lift (l - k) top)) (k + (l - k) + 1) s
        (sha.length-hashv (node_tag ∷ next ∷ lift (l - k) top ∷ []))

  length-collapse :
      (h : Bytes) (k : ℕ) (s : Stack) → length h ≡ 32 → length (drain_stack (collapse h k s)) ≡ 32
  unfolding drain_stack collapse drain
  length-collapse h k [] e = e
  length-collapse h k ((x, l) ∷ s) e = elim (Bool-cases (l == k)) [
    | inl b ↦
        rw b (length-collapse (node_hash x h) (k + 1) s (sha.length-hashv (node_tag ∷ x ∷ h ∷ [])))
    | inr b ↦ rw b (length-drain h k ((x, l) ∷ s) e)
  ]

  length-push_leaves :
      (ls : List Bytes) (s : Stack)
      → length (drain_stack s) ≡ 32
      → length (drain_stack (push_leaves ls s)) ≡ 32
  unfolding push_leaves
  length-push_leaves [] s h = h
  length-push_leaves (l ∷ ls) s h =
      length-push_leaves ls _
        (length-collapse (leaf_hash l) 0 s (sha.length-hashv (leaf_tag ∷ l ∷ [])))

  pub length-merklize : (pk : WinternitzPubkey) → length (merklize pk) ≡ 32
  unfolding merklize push_leaves
  length-merklize pk = start pk.scalars
    where
      first : (l : Bytes) (ls : List Bytes) → length (drain_stack (push_leaves (l ∷ ls) [])) ≡ 32
      first l ls =
          length-push_leaves ls _
            (length-collapse (leaf_hash l) 0 [] (sha.length-hashv (leaf_tag ∷ l ∷ [])))

      start :
          (ss : List Bytes)
          → length (drain_stack (push_leaves (ss ++ (pk.checksum.0 ∷ pk.checksum.1 ∷ [])) [])) ≡ 32
      start [] = first pk.checksum.0 (pk.checksum.1 ∷ [])
      start (s ∷ ss) = first s (ss ++ (pk.checksum.0 ∷ pk.checksum.1 ∷ []))
