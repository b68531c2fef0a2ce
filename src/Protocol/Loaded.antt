-- ===== src/Protocol/Loaded.antt =====
-- The views that a plan's accounts are loaded as serve its inner instructions.
use winterwallet.Prelude.{
  ℕ, zero, suc, ◌≡◌, refl, sym, ap, ◌∙◌, List, [], ◌∷◌, ◌++◌, map, length, take, drop, arith, true,
  Bool-cases, inl, inr, take-append, drop-append, length-append, length-map,
}
use mathlib.Core.List.{map-append}
use winterwallet.Solana.{Address, AccountMeta, Instruction, AccountView}
use winterwallet.Client.Instruction.{total_accounts, passthrough}
use winterwallet.Protocol.Encoding.{all_accounts}
use winterwallet.Protocol.Replay.{Serves}

-- Each inner instruction's program is loaded as an executable account.
abbrev pub Executable : List Instruction → List AccountView → Type 0
Executable [] views = Unit
Executable (ix ∷ ixs) [] = Unit
Executable (ix ∷ ixs) (p ∷ vs) =
    (p.executable ≡ true) × Executable ixs (drop (length ix.accounts) vs)

drop-map {ℓ κ} :
    {A : Type ℓ} {B : Type κ} (f : A → B) (n : ℕ) (xs : List A)
    → drop n (map f xs) ≡ map f (drop n xs)
drop-map f zero xs = refl
drop-map f (suc n) [] = refl
drop-map f (suc n) (x ∷ xs) = drop-map f n xs

take-map {ℓ κ} :
    {A : Type ℓ} {B : Type κ} (f : A → B) (n : ℕ) (xs : List A)
    → take n (map f xs) ≡ map f (take n xs)
take-map f zero xs = refl
take-map f (suc n) [] = refl
take-map f (suc n) (x ∷ xs) = ap (λ t. f x ∷ t) (take-map f n xs)

-- The addresses of the outer transaction are the inner instruction's.
keys-passthrough :
    (ms : List AccountMeta) → map (λ m. m.pubkey) (map passthrough ms) ≡ map (λ m. m.pubkey) ms
keys-passthrough [] = refl
keys-passthrough (m ∷ ms) = elim (Bool-cases m.is_writable) [
  | inl w ↦ rw w (ap (λ t. m.pubkey ∷ t) (keys-passthrough ms))
  | inr w ↦ rw w (ap (λ t. m.pubkey ∷ t) (keys-passthrough ms))
]

-- Views of the plan's accounts serve its inner instructions.
pub loaded-Serves :
    (ixs : List Instruction) (views : List AccountView)
    → map (λ v. v.address) views ≡ map (λ m. m.pubkey) (all_accounts ixs)
    → Executable ixs views
    → Serves ixs views
loaded-Serves [] [] e x = refl
loaded-Serves [] (v ∷ vs) e x = cc
loaded-Serves (ix ∷ ixs) [] e x = cc
loaded-Serves (ix ∷ ixs) (p ∷ vs) e x =
    let n = length ix.accounts in
    let key : AccountMeta → Address = λ m. m.pubkey in
    let tail : map (λ v. v.address) vs ≡ map key (map passthrough ix.accounts ++ all_accounts ixs) =
      cc in
    let keys : List Address = map key (map passthrough ix.accounts) in
    let long : length keys ≡ n =
      length-map (map passthrough ix.accounts) key ∙ length-map ix.accounts passthrough in
    let split : map (λ v. v.address) vs ≡ keys ++ map key (all_accounts ixs) =
      tail ∙ map-append key (map passthrough ix.accounts) (all_accounts ixs) in
    let front =
      sym (take-map (λ (v : AccountView). v.address) n vs)
      ∙ ap (take n) split
      ∙ take-append n keys (map key (all_accounts ixs)) long
      ∙ keys-passthrough ix.accounts in
    let rest =
      sym (drop-map (λ (v : AccountView). v.address) n vs)
      ∙ ap (drop n) split
      ∙ drop-append n keys (map key (all_accounts ixs)) long in
    (cc, x.0, front, loaded-Serves ixs (drop n vs) rest x.1)

pub length-all_accounts : (ixs : List Instruction) → length (all_accounts ixs) ≡ total_accounts ixs
length-all_accounts [] = refl
length-all_accounts (ix ∷ ixs) = omega (
  arith,
  length-append (map passthrough ix.accounts) (all_accounts ixs),
  length-map ix.accounts passthrough,
  length-all_accounts ixs,
)
