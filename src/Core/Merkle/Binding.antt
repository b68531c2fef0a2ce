-- ===== src/Core/Merkle/Binding.antt =====
-- A root commits to one public key: two keys with one root show a collision among the very byte
-- strings that `merklize` digests for them.
use winterwallet.Prelude.{
  ℕ, zero, suc, ◌≤◌, ◌≡◌, ◌⊎◌, inl, inr, refl, ap, ap₂, sym, ◌∙◌, List, [], ◌∷◌, ◌++◌, map, arith,
  Bool-cases, length, All, take, drop, concat, length-map, length-append, take-append, drop-append,
  append-nil,
}
use winterwallet.Bytes.{Bytes, bytes_eq, bytes_eq→eq, bytes_eq_refl}
use winterwallet.Core.Hash.{Hasher}
use winterwallet.Core.Layout.{all_scalars, IsLaidOut, IsScalar}
use winterwallet.Core.Pubkey.{WinternitzPubkey, fields}
use winterwallet.Core.Merkle.{leaf_hash, node_hash, leaf_tag, node_tag, merklize}
use winterwallet.Core.Merkle.Tree.{next_level, tree_root, merklize-tree_root, length-next_level}
use winterwallet.Core.Merkle.Inputs.{
  or_then, In, All-In, All-append_inv, Collision, leaf_inputs, level_inputs, tree_inputs,
  merklize_inputs,
}

module _ ⦃sha : Hasher⦄ (us vs : List (List Bytes)) where
  abbrev Or : Type 0 → Type 0
  Or A = A ⊎ Collision us vs

  hashv_inv :
      (x y : List Bytes) → In x us → In y vs → sha.hashv x ≡ sha.hashv y → Or (concat x ≡ concat y)
  hashv_inv x y mx my e = elim (Bool-cases (bytes_eq (concat x) (concat y))) [
    | inl same ↦ inl (bytes_eq→eq _ _ same)
    | inr other ↦ inr (
      x,
      y,
      mx,
      my,
      e,
      λ same. cc (other, ap (bytes_eq (concat x)) same, bytes_eq_refl (concat x)),
    )
  ]

  -- Two slices of one length in front of two others.
  front_eq : (a c b d : Bytes) → length a ≡ length c → a ++ b ≡ c ++ d → (a ≡ c) × (b ≡ d)
  front_eq a c b d l e = (
    sym (take-append (length a) a b refl)
        ∙ ap (take (length a)) e
        ∙ take-append (length a) c d (sym l),
    sym (drop-append (length a) a b refl)
        ∙ ap (drop (length a)) e
        ∙ drop-append (length a) c d (sym l),
  )

  leaf_inv :
      (a c : Bytes)
      → In (leaf_tag ∷ a ∷ []) us
      → In (leaf_tag ∷ c ∷ []) vs
      → leaf_hash a ≡ leaf_hash c
      → Or (a ≡ c)
  leaf_inv a c ma mc e =
      or_then (hashv_inv _ _ ma mc e)
        λ same. inl (sym (append-nil a) ∙ ap (drop 1) same ∙ append-nil c)

  node_inv :
      (a b c d : Bytes)
      → In (node_tag ∷ a ∷ b ∷ []) us
      → In (node_tag ∷ c ∷ d ∷ []) vs
      → IsScalar a
      → IsScalar c
      → node_hash a b ≡ node_hash c d
      → Or ((a ≡ c) × (b ≡ d))
  node_inv a b c d ma mc la lc e = or_then (hashv_inv _ _ ma mc e) λ same.
      let (p, q) = front_eq a c (b ++ []) (d ++ []) (la ∙ sym lc) (ap (drop 1) same) in
      inl (p, sym (append-nil b) ∙ q ∙ append-nil d)

  leaves_inv :
      (xs ys : List Bytes)
      → All (λ x. In x us) (leaf_inputs xs)
      → All (λ x. In x vs) (leaf_inputs ys)
      → map leaf_hash xs ≡ map leaf_hash ys
      → Or (xs ≡ ys)
  leaves_inv [] [] mx my e = inl refl
  leaves_inv [] (y ∷ ys) mx my e = cc
  leaves_inv (x ∷ xs) [] mx my e = cc
  leaves_inv (x ∷ xs) (y ∷ ys) mx my e =
      or_then (leaf_inv x y mx.0 my.0 (cc))
        λ p. or_then (leaves_inv xs ys mx.1 my.1 (cc)) λ q. inl (ap₂ ◌∷◌ p q)

  next_level_inv :
      (xs ys : List Bytes)
      → length xs ≡ length ys
      → All IsScalar xs
      → All IsScalar ys
      → All (λ x. In x us) (level_inputs xs)
      → All (λ x. In x vs) (level_inputs ys)
      → next_level xs ≡ next_level ys
      → Or (xs ≡ ys)
  unfolding next_level
  next_level_inv [] [] l hx hy mx my e = inl refl
  next_level_inv [] (y ∷ ys) l hx hy mx my e = absurd (omega arith)
  next_level_inv (x ∷ xs) [] l hx hy mx my e = absurd (omega arith)
  next_level_inv (x ∷ []) (y ∷ []) l hx hy mx my e =
      or_then (node_inv x x y y mx.0 my.0 hx.0 hy.0 (cc)) λ p. inl (ap (λ t. t ∷ []) p.0)
  next_level_inv (x ∷ []) (y ∷ y' ∷ ys) l hx hy mx my e = absurd (omega arith)
  next_level_inv (x ∷ x' ∷ xs) (y ∷ []) l hx hy mx my e = absurd (omega arith)
  next_level_inv (x ∷ x' ∷ xs) (y ∷ y' ∷ ys) l hx hy mx my e =
      or_then (node_inv x x' y y' mx.0 my.0 hx.0 hy.0 (cc)) λ p.
        or_then (next_level_inv xs ys (omega arith) hx.1.1 hy.1.1 mx.1 my.1 (cc))
          λ q. inl (ap₂ ◌∷◌ p.0 (ap₂ ◌∷◌ p.1 q))

  next_level-IsScalar : (xs : List Bytes) → All IsScalar (next_level xs)
  unfolding next_level
  next_level-IsScalar [] = tt
  next_level-IsScalar (x ∷ []) = (sha.length-hashv _, tt)
  next_level-IsScalar (x ∷ y ∷ xs) = (sha.length-hashv _, next_level-IsScalar xs)

  same_length :
      (xs ys : List Bytes) → length xs ≡ length ys → length (next_level xs) ≡ length (next_level ys)
  unfolding next_level
  same_length [] [] l = refl
  same_length [] (y ∷ ys) l = absurd (omega arith)
  same_length (x ∷ xs) [] l = absurd (omega arith)
  same_length (x ∷ []) (y ∷ []) l = refl
  same_length (x ∷ []) (y ∷ y' ∷ ys) l = absurd (omega arith)
  same_length (x ∷ x' ∷ xs) (y ∷ []) l = absurd (omega arith)
  same_length (x ∷ x' ∷ xs) (y ∷ y' ∷ ys) l = ap suc (same_length xs ys (omega arith))

  tree_root_inv :
      (rounds : ℕ) (xs ys : List Bytes)
      → length xs ≤ rounds
      → length xs ≡ length ys
      → All IsScalar xs
      → All IsScalar ys
      → All (λ x. In x us) (tree_inputs rounds xs)
      → All (λ x. In x vs) (tree_inputs rounds ys)
      → tree_root rounds xs ≡ tree_root rounds ys
      → Or (xs ≡ ys)
  unfolding tree_root tree_inputs
  tree_root_inv rounds [] [] h l hx hy mx my e = inl refl
  tree_root_inv rounds [] (y ∷ ys) h l hx hy mx my e = absurd (omega arith)
  tree_root_inv rounds (x ∷ xs) [] h l hx hy mx my e = absurd (omega arith)
  tree_root_inv rounds (x ∷ []) (y ∷ []) h l hx hy mx my e = inl (ap (λ t. t ∷ []) e)
  tree_root_inv rounds (x ∷ []) (y ∷ y' ∷ ys) h l hx hy mx my e = absurd (omega arith)
  tree_root_inv rounds (x ∷ x' ∷ xs) (y ∷ []) h l hx hy mx my e = absurd (omega arith)
  tree_root_inv zero (x ∷ x' ∷ xs) (y ∷ y' ∷ ys) h l hx hy mx my e = absurd (omega arith)
  tree_root_inv (suc rounds) (x ∷ x' ∷ xs) (y ∷ y' ∷ ys) h l hx hy mx my e =
      let xs' = x ∷ x' ∷ xs in
      let ys' = y ∷ y' ∷ ys in
      let (mx, mx') = All-append_inv _ (level_inputs xs') _ mx in
      let (my, my') = All-append_inv _ (level_inputs ys') _ my in
      or_then
        (tree_root_inv rounds (next_level xs') (next_level ys')
          (unfold next_level in omega (arith, length-next_level xs)) (same_length xs' ys' l)
          (next_level-IsScalar xs') (next_level-IsScalar ys') mx' my' e)
        (next_level_inv xs' ys' l hx hy mx my)

  leaf-IsScalar : (xs : List Bytes) → All IsScalar (map leaf_hash xs)
  leaf-IsScalar [] = tt
  leaf-IsScalar (x ∷ xs) = (sha.length-hashv _, leaf-IsScalar xs)

  merklize_inv :
      (n : ℕ) (pk pk' : WinternitzPubkey)
      → IsLaidOut n (fields pk)
      → IsLaidOut n (fields pk')
      → All (λ x. In x us) (merklize_inputs pk)
      → All (λ x. In x vs) (merklize_inputs pk')
      → merklize pk ≡ merklize pk'
      → Or (all_scalars (fields pk) ≡ all_scalars (fields pk'))
  unfolding merklize_inputs
  merklize_inv n pk pk' (hn, _, _, _) (hn', _, _, _) mx my e =
      let xs = all_scalars (fields pk) in
      let ys = all_scalars (fields pk') in
      let (mx, mx') = All-append_inv _ (leaf_inputs xs) _ mx in
      let (my, my') = All-append_inv _ (leaf_inputs ys) _ my in
      let long : length xs ≡ length ys =
        omega (arith, length-append pk.scalars _, length-append pk'.scalars _, hn, hn') in
      let roots = sym (merklize-tree_root pk) ∙ e ∙ merklize-tree_root pk' in
      or_then
        (tree_root_inv (length xs) (map leaf_hash xs) (map leaf_hash ys)
          (omega (arith, length-map xs leaf_hash))
          (omega (arith, long, length-map xs leaf_hash, length-map ys leaf_hash)) (leaf-IsScalar xs)
          (leaf-IsScalar ys) mx' (rw (← long) at my') (rw (← long) at roots))
        (leaves_inv xs ys mx my)

-- The fields follow from the list of all scalars.
scalars_inv :
    (ss ts : List Bytes) (c0 c1 d0 d1 : Bytes)
    → length ss ≡ length ts
    → ss ++ (c0 ∷ c1 ∷ []) ≡ ts ++ (d0 ∷ d1 ∷ [])
    → (ss ≡ ts) × (c0 ≡ d0) × (c1 ≡ d1)
scalars_inv [] [] c0 c1 d0 d1 l e = (refl, cc, cc)
scalars_inv [] (t ∷ ts) c0 c1 d0 d1 l e = absurd (omega arith)
scalars_inv (s ∷ ss) [] c0 c1 d0 d1 l e = absurd (omega arith)
scalars_inv (s ∷ ss) (t ∷ ts) c0 c1 d0 d1 l e =
    let (p, q, r) = scalars_inv ss ts c0 c1 d0 d1 (omega arith) (cc) in
    let h : s ≡ t = cc in (ap₂ ◌∷◌ h p, q, r)

module _ ⦃sha : Hasher⦄ where
  -- Two public keys of one N that have the same root are equal, or two different byte strings that
  -- `merklize` digests for the one and for the other have one digest.
  pub merklize_binding :
      (n : ℕ) (pk pk' : WinternitzPubkey)
      → IsLaidOut n (fields pk)
      → IsLaidOut n (fields pk')
      → merklize pk ≡ merklize pk'
      → (pk ≡ pk') ⊎ Collision (merklize_inputs pk) (merklize_inputs pk')
  merklize_binding n pk pk' h h' e =
      or_then
        (merklize_inv (merklize_inputs pk) (merklize_inputs pk') n pk pk' h h' (All-In _) (All-In _)
          e)
        λ same.
          let (p, q, r) = scalars_inv pk.scalars pk'.scalars _ _ _ _ (h.0 ∙ sym h'.0) same in
          inl (λ i. record { scalars = p i; checksum = (q i, r i) })
