-- ===== src/Core/Merkle/Inputs.antt =====
-- core/src/pubkey.rs: the byte strings that `merklize` digests for a public key.
use winterwallet.Prelude.{
  ℕ, zero, suc, ◌≡◌, ◌≢◌, ◌⊎◌, inl, inr, refl, List, [], ◌∷◌, ◌++◌, map, length, All, concat,
}
use winterwallet.Bytes.{Bytes}
use winterwallet.Core.Hash.{Hasher}
use winterwallet.Core.Layout.{all_scalars}
use winterwallet.Core.Pubkey.{WinternitzPubkey, fields}
use winterwallet.Core.Merkle.{leaf_hash, leaf_tag, node_tag}
use winterwallet.Core.Merkle.Tree.{next_level}

pub or_then {ℓ κ μ} : {A : Type ℓ} {B : Type κ} {C : Type μ} → A ⊎ C → (A → B ⊎ C) → B ⊎ C
or_then (inl a) f = f a
or_then (inr c) f = inr c

-- Membership of an input, by recursion.
abbrev pub In : List Bytes → List (List Bytes) → Type 0
In x [] = ⊥
In x (y ∷ ys) = (x ≡ y) ⊎ In x ys

pub All-mono {ℓ κ μ} :
    {A : Type ℓ} (P : A → Type κ) (Q : A → Type μ) (xs : List A)
    → ((x : A) → P x → Q x)
    → All P xs
    → All Q xs
All-mono P Q [] f h = tt
All-mono P Q (x ∷ xs) f h = (f x h.0, All-mono P Q xs f h.1)

pub All-In : (xs : List (List Bytes)) → All (λ x. In x xs) xs
All-In [] = tt
All-In (x ∷ xs) = (inl refl, All-mono (λ y. In y xs) _ xs (λ y h. inr h) (All-In xs))

pub All-append_inv {ℓ κ} :
    {A : Type ℓ} (P : A → Type κ) (xs ys : List A) → All P (xs ++ ys) → All P xs × All P ys
All-append_inv P [] ys h = (tt, h)
All-append_inv P (x ∷ xs) ys h = let (hx, hy) = All-append_inv P xs ys h.1 in ((h.0, hx), hy)

module _ ⦃sha : Hasher⦄ where
  -- An input among `us` and one among `vs` that differ as byte strings and have one digest.
  abbrev pub Collision : List (List Bytes) → List (List Bytes) → Type 0
  Collision us vs =
      (x : List Bytes) × (y : List Bytes) × In x us
      × In y vs
      × (sha.hashv x ≡ sha.hashv y)
      × (concat x ≢ concat y)

  -- What `merklize` digests: the leaves,
  abbrev pub leaf_inputs : List Bytes → List (List Bytes)
  leaf_inputs [] = []
  leaf_inputs (x ∷ xs) = (leaf_tag ∷ x ∷ []) ∷ leaf_inputs xs

  -- the pairs of one level,
  abbrev pub level_inputs : List Bytes → List (List Bytes)
  level_inputs [] = []
  level_inputs (x ∷ []) = (node_tag ∷ x ∷ x ∷ []) ∷ []
  level_inputs (x ∷ y ∷ r) = (node_tag ∷ x ∷ y ∷ []) ∷ level_inputs r

  -- and those of all levels above.
  unfoldable pub tree_inputs : ℕ → List Bytes → List (List Bytes)
  tree_inputs rounds [] = []
  tree_inputs rounds (x ∷ []) = []
  tree_inputs zero (x ∷ y ∷ r) = []
  tree_inputs (suc rounds) (x ∷ y ∷ r) =
      level_inputs (x ∷ y ∷ r) ++ tree_inputs rounds (next_level (x ∷ y ∷ r))

  unfoldable pub merklize_inputs : WinternitzPubkey → List (List Bytes)
  unfolding tree_inputs
  merklize_inputs pk =
      let leaves = all_scalars (fields pk) in
      leaf_inputs leaves ++ tree_inputs (length leaves) (map leaf_hash leaves)
