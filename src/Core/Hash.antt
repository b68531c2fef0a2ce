-- ===== src/Core/Hash.antt =====
-- core/src/lib.rs: the hash chain and the truncated message digest. SHA-256 itself is the crate
-- solana_sha256_hasher, and stands here as the interface Hasher.
use winterwallet.Prelude.{
  ℕ, zero, suc, ◌+◌, ◌≡◌, List, [], ◌∷◌, arith, length, take, concat, length-take, All-take, ◌≤◌,
}
use winterwallet.Bytes.{Bytes, IsBytes}
use native.Mathlib.Nat.{suc-add, zero-add}

-- `hashv` digests the concatenation of its slices into 32 bytes, and `hash(m)` is `hashv(&[m])`.
pub record Hasher : Type 0 where
  pub hashv : List Bytes → Bytes
  pub length-hashv : (parts : List Bytes) → length (hashv parts) ≡ 32
  pub hashv-IsBytes : (parts : List Bytes) → IsBytes (hashv parts)
  pub hashv-concat : (parts : List Bytes) → hashv parts ≡ hashv (concat parts ∷ [])

module _ ⦃sha : Hasher⦄ where
  -- `chain(seed, iters)`
  unfoldable pub chain : Bytes → ℕ → Bytes
  chain current zero = current
  chain current (suc iters) = chain (sha.hashv (current ∷ [])) iters

  -- `hash::<N>(message)`
  unfoldable pub hash : ℕ → List Bytes → Bytes
  hash n message = take n (sha.hashv message)

  -- A chain continued is the longer chain.
  pub chain-chain : (seed : Bytes) (a b : ℕ) → chain (chain seed a) b ≡ chain seed (a + b)
  unfolding chain
  chain-chain seed zero b = rw zero-add
  chain-chain seed (suc a) b = rw suc-add (chain-chain (sha.hashv (seed ∷ [])) a b)

  pub length-chain : (seed : Bytes) (n : ℕ) → length seed ≡ 32 → length (chain seed n) ≡ 32
  unfolding chain
  length-chain seed zero h = h
  length-chain seed (suc n) h =
      length-chain (sha.hashv (seed ∷ [])) n (sha.length-hashv (seed ∷ []))

  pub length-hash : (n : ℕ) (message : List Bytes) → n ≤ 32 → length (hash n message) ≡ n
  unfolding hash
  length-hash n message h =
      omega (arith, length-take n (sha.hashv message), sha.length-hashv message)

  pub hash-IsBytes : (n : ℕ) (message : List Bytes) → IsBytes (hash n message)
  unfolding hash
  hash-IsBytes n message = All-take _ n (sha.hashv message) (sha.hashv-IsBytes message)
