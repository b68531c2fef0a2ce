-- ===== src/Client/Position.antt =====
-- client/src/wallet.rs: SigningPosition, the position of the next one-time signature.
use winterwallet.Prelude.{ℕ, ◌≡◌, Bool, ◌&&◌, ◌==◌, Result, ok, ◌>>=◌, ok_or, none, some, arith}
use mathlib.Core.Option
use winterwallet.Core.Keypair.{WinternitzKeypair, checked_suc, increment_child, increment_parent}
use winterwallet.Client.Error.{Error, position_overflow}

pub record SigningPosition : Type 0 where
  pub wallet : ℕ
  pub parent : ℕ
  pub child : ℕ

-- `SigningPosition::from_keypair`
abbrev pub from_keypair : WinternitzKeypair → SigningPosition
from_keypair keypair = record {
  wallet = keypair.wallet;
  parent = keypair.parent;
  child = keypair.child;
}

-- `next`
unfoldable pub next : SigningPosition → Result Error SigningPosition
next self = elim (checked_suc self.child) [
  | some child ↦ ok (record self { child = child })
  | none ↦ do
    parent ← ok_or (checked_suc self.parent) position_overflow
    ok (record self { parent = parent; child = 0 })
]

-- `tuple`
abbrev pub tuple : SigningPosition → ℕ × ℕ × ℕ
tuple self = (self.wallet, self.parent, self.child)

-- The derived `PartialEq`.
abbrev pub same : SigningPosition → SigningPosition → Bool
same a b = (a.wallet == b.wallet) && (a.parent == b.parent) && (a.child == b.child)

-- `ensure_can_advance`
unfoldable pub ensure_can_advance : SigningPosition → Result Error (Unit {0})
ensure_can_advance self = next self >>= λ _. ok tt

-- `next` is the position of the keypair after `increment_child`, and reports an overflow exactly
-- where `increment_child` panics.
pub next-increment_child :
    (kp : WinternitzKeypair)
    → next (from_keypair kp)
      ≡ ok_or (Option.map from_keypair (increment_child kp)) position_overflow
unfolding next increment_child increment_parent
next-increment_child kp = ground arith
