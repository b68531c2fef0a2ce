-- ===== src/Core/Verify.antt =====
-- core/src/signature.rs: `verify`, against a root and through the recovered public key.
use winterwallet.Prelude.{
  ℕ, suc, ◌-◌, ◌≤◌, ◌≡◌, ◌⊎◌, refl, sym, ap, ◌∙◌, Bool, true, List, [], ◌∷◌, arith, length, All,
}
use winterwallet.Bytes.{Bytes, bytes_eq, bytes_eq_refl, bytes_eq→eq}
use winterwallet.Core.Hash.{Hasher, hash, length-chain, length-hash}
use winterwallet.Core.Layout.{IsLaidOut, IsScalar}
use winterwallet.Core.Pubkey
use winterwallet.Core.Pubkey.{WinternitzPubkey}
use winterwallet.Core.Privkey.{WinternitzPrivkey, sign, to_pubkey}
use winterwallet.Core.Privkey.Recover.{recover_pubkey-sign}
use winterwallet.Core.Signature
use winterwallet.Core.Signature.{
  WinternitzSignature, recover_loop, add_digit, recover_pubkey_prehashed, recover_pubkey,
}
use winterwallet.Core.Merkle.{merklize}
use winterwallet.Core.Merkle.Inputs.{Collision, merklize_inputs}
use winterwallet.Core.Merkle.Binding.{merklize_binding}

module _ ⦃sha : Hasher⦄ where
  -- `verify`
  unfoldable pub verify : ℕ → WinternitzSignature → List Bytes → Bytes → Bool
  verify n sig message root = bytes_eq (merklize (recover_pubkey n sig message)) root

  -- `verify_prehashed`
  unfoldable pub verify_prehashed : WinternitzSignature → Bytes → Bytes → Bool
  verify_prehashed sig digest root = bytes_eq (merklize (recover_pubkey_prehashed sig digest)) root

  pub verify→root :
      (n : ℕ) (sig : WinternitzSignature) (message : List Bytes) (root : Bytes)
      → verify n sig message root ≡ true
      → merklize (recover_pubkey n sig message) ≡ root
  unfolding verify
  verify→root n sig message root h = bytes_eq→eq _ root h

  -- A signature of a message verifies against the root of the signer's public key, for every N up
  -- to 32 and every private key of N scalars.
  pub verify-sign :
      (n : ℕ) (sk : WinternitzPrivkey) (message : List Bytes)
      → n ≤ 32
      → length sk.scalars ≡ n
      → verify n (sign n sk message) message (merklize (to_pubkey sk)) ≡ true
  unfolding verify
  verify-sign n sk message h e =
      rw (recover_pubkey-sign n sk message h e) (bytes_eq_refl (merklize (to_pubkey sk)))

  recover_loop_shape :
      (ss : List Bytes) (bs : Bytes) (sum : ℕ)
      → length ss ≡ length bs
      → All IsScalar ss
      → (length (recover_loop ss bs sum).0 ≡ length ss) × All IsScalar (recover_loop ss bs sum).0
  unfolding recover_loop
  recover_loop_shape [] [] sum e h = (refl, tt)
  recover_loop_shape [] (b ∷ bs) sum e h = absurd (omega arith)
  recover_loop_shape (s ∷ ss) [] sum e h = absurd (omega arith)
  recover_loop_shape (s ∷ ss) (b ∷ bs) sum e h =
      let (l, all) = recover_loop_shape ss bs (add_digit sum b) (omega arith) h.1 in
      (ap suc l, (length-chain s (255 - b) h.0, all))

  -- The public key recovered from a signature of N scalars has N scalars.
  pub recover_pubkey-IsLaidOut :
      (n : ℕ) (sig : WinternitzSignature) (message : List Bytes)
      → n ≤ 32
      → IsLaidOut n (Signature.fields sig)
      → IsLaidOut n (Pubkey.fields (recover_pubkey n sig message))
  unfolding recover_pubkey recover_pubkey_prehashed
  recover_pubkey-IsLaidOut n sig message h (hn, hs, h0, h1) =
      let digest = hash n message in
      let (l, all) =
        recover_loop_shape sig.scalars digest 0 (hn ∙ sym (length-hash n message h)) hs in
      (l ∙ hn, all, length-chain sig.checksum.0 _ h0, length-chain sig.checksum.1 _ h1)

  -- For N up to 32, if a signature of N scalars verifies against the root of a public key of N
  -- scalars, then the key recovered from it is that public key, or two different byte strings
  -- digested for the two keys' roots have one digest.
  pub verify_binding :
      (n : ℕ) (sig : WinternitzSignature) (message : List Bytes) (pk : WinternitzPubkey)
      → n ≤ 32
      → IsLaidOut n (Signature.fields sig)
      → IsLaidOut n (Pubkey.fields pk)
      → verify n sig message (merklize pk) ≡ true
      → (recover_pubkey n sig message ≡ pk)
        ⊎ Collision (merklize_inputs (recover_pubkey n sig message)) (merklize_inputs pk)
  verify_binding n sig message pk h hs hp e =
      merklize_binding n (recover_pubkey n sig message) pk
        (recover_pubkey-IsLaidOut n sig message h hs) hp (verify→root n sig message (merklize pk) e)
