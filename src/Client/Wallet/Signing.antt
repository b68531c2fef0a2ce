-- ===== src/Client/Wallet/Signing.antt =====
-- client/src/wallet.rs: what `UnsignedAdvance::sign` guarantees.
use winterwallet.Prelude.{
  ◌+◌, ◌≡◌, ◌≢◌, sym, ap, ◌∙◌, true, none, some, ok, arith, Bool-cases, Option-cases, Result-cases,
  inl, inr,
}
use winterwallet.Bytes.{bytes_eq, bytes_eq→eq}
use winterwallet.Common.{winternitz_scalars}
use winterwallet.Core.Hash.{Hasher}
use winterwallet.Core.Keypair.{Hmac, WinternitzKeypair, derive, increment_child, sign_and_increment}
use winterwallet.Core.Keypair.Position.{IsInRange, position, sign_and_increment-verify}
use winterwallet.Core.Merkle.{merklize}
use winterwallet.Core.Privkey.{to_pubkey}
use winterwallet.Core.Privkey
use winterwallet.Core.Signature
use winterwallet.Core.Verify.{verify}
use winterwallet.Client.Position.{
  SigningPosition, next, from_keypair, same, ensure_can_advance, next-increment_child,
}
use winterwallet.Client.Wallet.{
  UnsignedAdvance, SignedAdvance, preimage, signed, check_signer, sign,
}

same→eq : (a b : SigningPosition) → same a b ≡ true → a ≡ b
same→eq a b h = ground arith

-- Where the position after it can be represented, `increment_child` does not panic.
ensure_can_advance-increment :
    (kp : WinternitzKeypair) {u : Unit {0}}
    → ensure_can_advance (from_keypair kp) ≡ ok u
    → (kp' : WinternitzKeypair) × (increment_child kp ≡ some kp')
unfolding ensure_can_advance
ensure_can_advance-increment kp h = elim (Option-cases (increment_child kp)) [
  | inl last ↦ cc (rw (next-increment_child kp, last) at h)
  | inr found ↦ found
]

module _ ⦃mac : Hmac⦄ ⦃sha : Hasher⦄ where
  check_signer_inv :
      (self : UnsignedAdvance) (kp : WinternitzKeypair) {u : Unit {0}}
      → check_signer self kp ≡ ok u
      → (kp' : WinternitzKeypair) × (increment_child kp ≡ some kp')
        × (from_keypair kp ≡ self.position)
        × (merklize (to_pubkey (derive winternitz_scalars kp)) ≡ self.current_root)
  unfolding check_signer
  check_signer_inv self kp h =
      let root = merklize (to_pubkey (derive winternitz_scalars kp)) in
      elim (Bool-cases (same (from_keypair kp) self.position)) [
        | inr b ↦ cc (rw b at h)
        | inl here ↦ elim (Result-cases (ensure_can_advance (from_keypair kp))) [
          | inr (e, full) ↦ cc (rw (here, full) at h)
          | inl (u, more) ↦ elim (Bool-cases (bytes_eq root self.current_root)) [
            | inr b ↦ cc (rw (here, more, b) at h)
            | inl b ↦
                let (kp', next) = ensure_can_advance-increment kp more in
                (kp', next, same→eq _ _ here, bytes_eq→eq root self.current_root b)
          ]
        ]
      ]

  -- Where `sign` returns a signed operation, the keypair has signed the preimage and gone on.
  pub sign_inv :
      (self : UnsignedAdvance) (kp kp' : WinternitzKeypair) (s : SignedAdvance)
      → sign self kp ≡ some (ok (s, kp'))
      → (sig : Signature.WinternitzSignature) × (sign_and_increment winternitz_scalars kp
            (preimage self)
          ≡ some (sig, kp'))
        × (s ≡ signed self (Signature.as_bytes sig) kp')
        × (merklize (to_pubkey (derive winternitz_scalars kp)) ≡ self.current_root)
        × (from_keypair kp ≡ self.position)
        × (increment_child kp ≡ some kp')
  unfolding sign sign_and_increment
  sign_inv self kp kp' s h = elim (Result-cases (check_signer self kp)) [
    | inr (e, bad) ↦ cc (rw bad at h)
    | inl (u, good) ↦
        let (next, step, here, root) = check_signer_inv self kp good in
        let sig = Privkey.sign winternitz_scalars (derive winternitz_scalars kp) (preimage self) in
        let h' = rw (good, step) at h in
        let same_kp : next ≡ kp' = cc h' in
        (
          sig,
          rw step (ap (λ k. some (sig, k)) same_kp),
          sym (cc h') ∙ ap (signed self (Signature.as_bytes sig)) same_kp,
          root,
          here,
          step ∙ ap (λ k. some k) same_kp,
        )
  ]

  -- `sign` never panics: its check before the signature excludes the last position.
  pub sign_total : (self : UnsignedAdvance) (kp : WinternitzKeypair) → sign self kp ≢ none
  unfolding sign sign_and_increment
  sign_total self kp h = elim (Result-cases (check_signer self kp)) [
    | inr (e, bad) ↦ cc (rw bad at h)
    | inl (u, good) ↦
        let (kp', next, _, _) = check_signer_inv self kp good in cc (rw (good, next) at h)
  ]

  -- If the keypair's indices are u32s and `sign` returns a signed operation, that operation keeps
  -- the plan and the wallet's id; its signature is the bytes of one that verifies over the plan's
  -- preimage against the current root; it was made at the position that was planned, and the next
  -- position that it records is the keypair's, one further.
  pub sign-verify :
      (self : UnsignedAdvance) (kp kp' : WinternitzKeypair) (s : SignedAdvance)
      → IsInRange kp
      → sign self kp ≡ some (ok (s, kp'))
      → (sig : Signature.WinternitzSignature) × (s ≡ signed self (Signature.as_bytes sig) kp')
        × (verify winternitz_scalars sig (preimage self) self.current_root ≡ true)
        × (from_keypair kp ≡ self.position)
        × (position kp' ≡ position kp + 1)
  sign-verify self kp kp' s r h =
      let (sig, done, eq, root, here, step) = sign_inv self kp kp' s h in
      let (good, pos, _) =
        sign_and_increment-verify winternitz_scalars kp (preimage self) sig kp' (omega arith) r
          done in
      (sig, eq, ap (verify winternitz_scalars sig (preimage self)) (sym root) ∙ good, here, pos)
