-- ===== src/Program/Withdraw/Data.antt =====
-- program/src/instructions/withdraw.rs: the owner, the data and the borrow flag of an account across a
-- Withdraw.
use winterwallet.Prelude.{
  ℕ, ◌-◌, ◌≡◌, refl, ◌∙◌, List, ltb, fail_if, ok, >>=-eq-ok, ok_injective, Bool-cases, inl, inr,
}
use mathlib.Core.Path.{subst}
use winterwallet.Bytes.{Bytes, bytes_eq, bytes_eq→eq}
use winterwallet.Common.{wallet_account_len}
use winterwallet.Solana.{Account, AccountView, Ledger, Runtime, update, insufficient_funds}
use winterwallet.Program.Withdraw.{Withdraw, set_lamports, try_from, execute, process}

-- Two states of an account that differ in the lamports at most.
abbrev pub SameData : Account → Account → Type 0
SameData x y = (y.owner ≡ x.owner) × (y.contents ≡ x.contents) × (y.borrowed ≡ x.borrowed)

pub SameData-refl : (x : Account) → SameData x x
SameData-refl x = (refl, refl, refl)

pub SameData-trans : (x y z : Account) → SameData x y → SameData y z → SameData x z
SameData-trans x y z (o, c, b) (o', c', b') = (o' ∙ o, c' ∙ c, b' ∙ b)

set_lamports-SameData :
    (v : AccountView) (n : ℕ) (l : Ledger) (a : Bytes) → SameData (l a) (set_lamports v n l a)
unfolding set_lamports update
set_lamports-SameData v n l a = elim (Bool-cases (bytes_eq v.address a)) [
  | inl e ↦ rw e (
      subst (λ t. SameData (l t) (record (l v.address) { lamports = n }))
        (bytes_eq→eq v.address a e) (SameData-refl (l v.address)))
  | inr e ↦ rw e (SameData-refl (l a))
]

writes-SameData :
    (v w : AccountView) (m n : ℕ) (l l' : Ledger) (a : Bytes)
    → set_lamports w n (set_lamports v m l) ≡ l'
    → SameData (l a) (l' a)
writes-SameData v w m n l l' a e =
    let l1 = set_lamports v m l in
    subst (λ t. SameData (l a) (t a)) e
      (SameData-trans (l a) (l1 a) (set_lamports w n l1 a) (set_lamports-SameData v m l a)
        (set_lamports-SameData w n l1 a))

module _ ⦃rt : Runtime⦄ where
  execute-SameData :
      (self : Withdraw) (l l' : Ledger) (a : Bytes) → execute self l ≡ ok l' → SameData (l a) (l' a)
  unfolding execute
  execute-SameData self l l' a h =
      let balance = (l self.wallet.address).lamports in
      let (rent, _, h) = >>=-eq-ok (rt.minimum_balance wallet_account_len) _ h in
      let (_, _, h) =
        >>=-eq-ok (fail_if (ltb (balance - self.lamports) rent) insufficient_funds) _ h in
      writes-SameData self.wallet self.receiver (balance - self.lamports) _ l l' a (ok_injective h)

  -- A Withdraw that succeeds keeps the owner, the data and the borrow flag of every account.
  pub process-SameData :
      (accounts : List AccountView) (input : Bytes) (l l' : Ledger) (a : Bytes)
      → process accounts input l ≡ ok l'
      → SameData (l a) (l' a)
  unfolding process
  process-SameData accounts input l l' a h =
      let (self, _, h) = >>=-eq-ok (try_from accounts input l) _ h in execute-SameData self l l' a h
