-- ===== src/Core/Keypair/Folding.antt =====
-- Positions whose u32 indices differ in the top bit alone derive one private key, since the hardened
-- index sets that bit.
use winterwallet.Prelude.{ℕ, ◌+◌, ◌^◌, ◌<◌, ◌≡◌, arith}
use winterwallet.Bytes.{Bytes}
use winterwallet.Core.Keypair.{Hmac, WinternitzKeypair, hardened, derive_child, walk, derive}
use winterwallet.Core.Keypair.Position.{position, IsInRange}

module _ ⦃mac : Hmac⦄ where
  derive_child-folded :
      (k c : Bytes) (index : ℕ) → derive_child k c (index + 2 ^ 31) ≡ derive_child k c index
  unfolding derive_child
  derive_child-folded k c index =
      let same : hardened (index + 2 ^ 31) ≡ hardened index = omega arith in rw same

  -- For a keypair whose indices are u32s and a child index below 2 ^ 31, the position 2 ^ 31
  -- further on is in range and has the same private key: `derive` gives one one-time key to two
  -- positions.
  pub derive_folded :
      (n : ℕ) (kp : WinternitzKeypair)
      → IsInRange kp
      → kp.child < 2 ^ 31
      → let later = record kp { child = kp.child + 2 ^ 31 } in
        IsInRange later × (position later ≡ position kp + 2 ^ 31) × (derive n later ≡ derive n kp)
  unfolding derive walk
  derive_folded n kp r h = (omega arith, omega arith, rw derive_child-folded)
