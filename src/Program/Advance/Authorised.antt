-- ===== src/Program/Advance/Authorised.antt =====
-- What a successful Advance has checked.
use winterwallet.Prelude.{◌≤◌, ◌≡◌, List, [], ◌∷◌, length, ok, >>=-eq-ok, arith, true}
use winterwallet.Bytes.{Bytes}
use winterwallet.Common.{winternitz_scalars, max_passthrough_accounts, winterwallet_seed}
use winterwallet.Core.Hash.{Hasher}
use winterwallet.Core.Verify.{verify}
use winterwallet.Solana.{AccountView, Ledger, Runtime}
use winterwallet.Program.State
use winterwallet.Program.State.{WinterWallet}
use winterwallet.Program.Advance.{
  Advance, try_from, preimage_parts, verify_signature, replay, execute, process,
}

module _ ⦃sha : Hasher⦄ where
  verify_signature_inv :
      (self : Advance) (id root : Bytes) {u : Unit {0}}
      → verify_signature self id root ≡ ok u
      → (length self.accounts ≤ max_passthrough_accounts)
        × (verify winternitz_scalars self.signature (preimage_parts self id root) root ≡ true)
  unfolding verify_signature
  verify_signature_inv self id root h = ground arith

module _ ⦃sha : Hasher⦄ ⦃rt : Runtime⦄ where
  -- A successful Advance names at most 128 accounts, and its signature verifies, against the root
  -- that the wallet's account held, over the preimage of that root, the new root, the addresses of
  -- all the accounts and the payload; its result is the replay of the payload on the ledger with
  -- the new root.
  pub process_authorised :
      (accounts : List AccountView) (input : Bytes) (ledger ledger' : Ledger)
      → process accounts input ledger ≡ ok ledger'
      → (self : Advance) × (w : WinterWallet) × (try_from accounts input ≡ ok self)
        × (State.try_from self.wallet ledger ≡ ok w)
        × (length self.accounts ≤ max_passthrough_accounts)
        × (verify winternitz_scalars self.signature (preimage_parts self w.id w.root) w.root ≡ true)
        × (replay self.accounts
              (winterwallet_seed ∷ w.id ∷ w.bump ∷ [])
              self.wallet.address
              self.payload
              (State.write self.wallet (record w { root = self.root }) ledger)
            ≡ ok ledger')
  unfolding process execute
  process_authorised accounts input ledger ledger' h =
      let (self, parsed, h) = >>=-eq-ok _ _ h in
      let (w, read, h) = >>=-eq-ok _ _ h in
      let (_, signed, h) = >>=-eq-ok _ _ h in
      let (few, good) = verify_signature_inv self w.id w.root signed in
      (self, w, parsed, read, few, good, h)
