-- ===== src/Cli/Recover.antt =====
-- cli/src/commands/recover.rs: the scan for the position that the on-chain root belongs to.
use winterwallet.Prelude.{
  ℕ, zero, suc, ◌+◌, ◌≤◌, ◌<◌, ◌≡◌, ◌≢◌, refl, false, Option, none, some, if◌then◌else◌, arith,
  Bool-cases, inl, inr, ◌⊎◌,
}
use winterwallet.Bytes.{Bytes, bytes_eq, bytes_eq_refl, bytes_eq→eq}
use winterwallet.Common.{winternitz_scalars}
use winterwallet.Core.Hash.{Hasher}
use winterwallet.Core.Keypair.{Hmac, WinternitzKeypair, derive}
use winterwallet.Core.Merkle.{merklize}
use winterwallet.Core.Privkey.{to_pubkey}

module _ ⦃mac : Hmac⦄ ⦃sha : Hasher⦄ where
  -- The root at (0, 0, child): `from_mnemonic_at` and the root of its public key.
  abbrev pub root_at : WinternitzKeypair → ℕ → Bytes
  root_at master child = merklize (
      to_pubkey
        (derive winternitz_scalars (record master { wallet = 0; parent = 0; child = child })))

  -- `for child in child..` for `rounds` rounds, up to the `break`.
  unfoldable pub scan : WinternitzKeypair → Bytes → ℕ → ℕ → Option ℕ
  scan master on_chain_root child zero = none
  scan master on_chain_root child (suc rounds) =
      if bytes_eq (root_at master child) on_chain_root
      then some child
      else scan master on_chain_root (child + 1) rounds

  -- The loop of `run` over `1..=max_depth`.
  unfoldable pub recover : WinternitzKeypair → Bytes → ℕ → Option ℕ
  recover master on_chain_root max_depth = scan master on_chain_root 1 max_depth

  -- The first child of the range with the root is found.
  scan_lem :
      (master : WinternitzKeypair) (root : Bytes) (child rounds found : ℕ)
      → child ≤ found
      → found < child + rounds
      → root_at master found ≡ root
      → ((c : ℕ) → child ≤ c → c < found → root_at master c ≢ root)
      → scan master root child rounds ≡ some found
  unfolding scan
  scan_lem master root child zero found low high here first = absurd (omega arith)
  scan_lem master root child (suc rounds) found low high here first = elim (cases child found) [
    | inl e ↦ rw (e, here, bytes_eq_refl root)
    | inr ne ↦
        let before = first child (omega arith) (omega arith) in
        let differs : bytes_eq (root_at master child) root ≡ false =
          elim (Bool-cases (bytes_eq (root_at master child) root)) [
            | inl b ↦ absurd (before (bytes_eq→eq _ root b))
            | inr b ↦ b
          ] in
        rw differs (
          scan_lem master root (child + 1) rounds found (omega arith) (omega arith) here
            (λ c lo hi. first c (omega arith) hi))
  ]
    where
      cases : (a b : ℕ) → (a ≡ b) ⊎ (a ≢ b)
      cases a b = ground arith

  scan-none :
      (master : WinternitzKeypair) (root : Bytes) (child rounds : ℕ)
      → ((c : ℕ) → child ≤ c → c < child + rounds → root_at master c ≢ root)
      → scan master root child rounds ≡ none
  unfolding scan
  scan-none master root child zero never = refl
  scan-none master root child (suc rounds) never =
      elim (Bool-cases (bytes_eq (root_at master child) root)) [
        | inl b ↦ absurd (never child (omega arith) (omega arith) (bytes_eq→eq _ root b))
        | inr b ↦ rw b (
            scan-none master root (child + 1) rounds
              (λ c lo hi. never c (omega arith) (omega arith)))
      ]

  -- If a child from 1 to the depth is the first of these whose root is the on-chain one, the scan
  -- finds it.
  pub recover_finds :
      (master : WinternitzKeypair) (root : Bytes) (max_depth found : ℕ)
      → 1 ≤ found
      → found ≤ max_depth
      → root_at master found ≡ root
      → ((c : ℕ) → 1 ≤ c → c < found → root_at master c ≢ root)
      → recover master root max_depth ≡ some found
  unfolding recover
  recover_finds master root max_depth found low high here first =
      scan_lem master root 1 max_depth found low (omega arith) here first

  -- If no child from 1 to the depth has the on-chain root, the scan fails.
  pub recover_fails :
      (master : WinternitzKeypair) (root : Bytes) (max_depth : ℕ)
      → ((c : ℕ) → 1 ≤ c → c ≤ max_depth → root_at master c ≢ root)
      → recover master root max_depth ≡ none
  unfolding recover
  recover_fails master root max_depth never =
      scan-none master root 1 max_depth (λ c lo hi. never c lo (omega arith))
