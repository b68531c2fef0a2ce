-- ===== src/Core/Merkle.antt =====
-- core/src/pubkey.rs: `merklize`, the Merkle root over the N + 2 scalars of a public key.
pub mod Tree
pub mod Depth
pub mod Width
pub mod Inputs
pub mod Binding
use winterwallet.Prelude.{
  ℕ, zero, suc, ◌+◌, ◌-◌, ◌≡◌, refl, List, [], ◌∷◌, ◌++◌, arith, ◌==◌, if◌then◌else◌,
}
use winterwallet.Bytes.{Bytes}
use winterwallet.Core.Hash.{Hasher}
use winterwallet.Core.Layout.{all_scalars}
use winterwallet.Core.Pubkey.{WinternitzPubkey, fields}

-- LEAF_TAG and NODE_TAG
abbrev pub leaf_tag : Bytes
leaf_tag = 0 ∷ []

abbrev pub node_tag : Bytes
node_tag = 1 ∷ []

-- The arrays `stack` and `levels` up to `len`, the top first: an entry is a hash and its level. Both
-- arrays have room for MAX_DEPTH entries.
abbrev pub Stack : Type 0
Stack = List (Bytes × ℕ)

abbrev pub max_depth : ℕ
max_depth = 5

module _ ⦃sha : Hasher⦄ where
  abbrev pub leaf_hash : Bytes → Bytes
  leaf_hash leaf = sha.hashv (leaf_tag ∷ leaf ∷ [])

  abbrev pub node_hash : Bytes → Bytes → Bytes
  node_hash l r = sha.hashv (node_tag ∷ l ∷ r ∷ [])

  -- The inner `while` of the first loop and the write after it: `h` is combined with the top as
  -- long as the top has its level, and is then pushed.
  unfoldable pub collapse : Bytes → ℕ → Stack → Stack
  collapse h level [] = (h, level) ∷ []
  collapse h level ((top, l) ∷ s) =
      if l == level then collapse (node_hash top h) (level + 1) s else (h, level) ∷ (top, l) ∷ s

  -- The first loop: `for leaf in scalars.chain(checksum)`.
  unfoldable pub push_leaves : List Bytes → Stack → Stack
  push_leaves [] s = s
  push_leaves (leaf ∷ leaves) s = push_leaves leaves (collapse (leaf_hash leaf) 0 s)

  -- `while top_level < next_level`, for the rounds that are left: the top is its own neighbour.
  unfoldable pub lift : ℕ → Bytes → Bytes
  lift zero top = top
  lift (suc rounds) top = lift rounds (node_hash top top)

  -- The second loop, `while len > 1`, with the top of the stack in `top` and `top_level`.
  unfoldable pub drain : Bytes → ℕ → Stack → Bytes
  drain top top_level [] = top
  drain top top_level ((next, next_level) ∷ s) =
      let rounds = next_level - top_level in
      drain (node_hash next (lift rounds top)) (top_level + rounds + 1) s

  -- The code reads `stack[0]`; a public key always has the two checksum scalars, so that the stack
  -- is not empty.
  unfoldable pub drain_stack : Stack → Bytes
  drain_stack [] = []
  drain_stack ((top, level) ∷ s) = drain top level s

  -- `merklize`; WinternitzRoot is its 32 bytes.
  unfoldable pub merklize : WinternitzPubkey → Bytes
  merklize pk = drain_stack (push_leaves (all_scalars (fields pk)) [])
