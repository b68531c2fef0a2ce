-- ===== src/Core/Keypair/Mnemonic/Origin.antt =====
-- core/src/keypair.rs: a mnemonic's keypair starts at the first position.
use winterwallet.Prelude.{ℕ, ◌≡◌, sym, ap, ok, >>=-eq-ok, ok_injective}
use winterwallet.Bytes.{Bytes}
use winterwallet.Core.Keypair.{Hmac, WinternitzKeypair}
use winterwallet.Core.Keypair.Mnemonic.{Digests, validate, from_mnemonic, from_mnemonic_unchecked}

pub from_mnemonic-origin :
    ⦃digests : Digests⦄
    → ⦃mac : Hmac⦄ → (mnemonic : Bytes) (wallet : ℕ) (kp : WinternitzKeypair)
    → from_mnemonic mnemonic wallet ≡ ok kp
    → (kp.wallet ≡ wallet) × (kp.parent ≡ 0) × (kp.child ≡ 0)
unfolding from_mnemonic from_mnemonic_unchecked
from_mnemonic-origin mnemonic wallet kp h =
    let (u, _, done) = >>=-eq-ok (validate mnemonic) _ h in
    let e = sym (ok_injective done) in
    (
      ap (λ (k : WinternitzKeypair). k.wallet) e,
      ap (λ (k : WinternitzKeypair). k.parent) e,
      ap (λ (k : WinternitzKeypair). k.child) e,
    )
