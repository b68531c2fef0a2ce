-- ===== src/Program/State/Codec.antt =====
-- program/src/state.rs: reading and writing a wallet's account.
use winterwallet.Prelude.{
  ◌≡◌, sym, ap, ◌∙◌, ◌++◌, arith, ◌==◌, true, false, Bool-cases, inl, inr, length, take, drop, ok,
  take-append, drop-append, drop-drop, length-append,
}
use winterwallet.Common.{wallet_account_len}
use winterwallet.Solana.{AccountView, Ledger, update_self}
use winterwallet.Program.State.{WinterWallet, IsLaidOut, to_bytes, of_bytes, try_from, write}

pub length-to_bytes : (w : WinterWallet) → IsLaidOut w → length (to_bytes w) ≡ 65
unfolding to_bytes
length-to_bytes w (hi, hr, hb) =
    omega (arith, length-append w.id (w.root ++ w.bump), length-append w.root w.bump)

pub of_bytes-to_bytes : (w : WinterWallet) → IsLaidOut w → of_bytes (to_bytes w) ≡ w
unfolding of_bytes to_bytes
of_bytes-to_bytes w (hi, hr, hb) =
    let tail = w.root ++ w.bump in
    let cut = drop-append 32 w.id tail hi in
    let last : drop 64 (w.id ++ tail) ≡ w.bump =
      sym (drop-drop 32 32 (w.id ++ tail)) ∙ ap (drop 32) cut ∙ drop-append 32 w.root w.bump hr in
    λ i. record {
      id = take-append 32 w.id tail hi i;
      root = (ap (take 32) cut ∙ take-append 32 w.root w.bump hr) i;
      bump = last i;
    }

-- An account that holds a wallet's bytes is read as that wallet.
pub try_from_wallet :
    (view : AccountView) (ledger : Ledger) (w : WinterWallet)
    → IsLaidOut w
    → (ledger view.address).contents ≡ to_bytes w
    → (ledger view.address).borrowed ≡ false
    → try_from view ledger ≡ ok w
unfolding try_from
try_from_wallet view ledger w h c b =
    let long : (length (to_bytes w) == wallet_account_len) ≡ true =
      ground (arith, length-to_bytes w h) in
    rw (b, c, long, of_bytes-to_bytes w h)

-- What is written to an unborrowed account as a wallet with an id and a root of 32 bytes and a
-- bump of one byte is read back.
pub try_from-write :
    (view : AccountView) (ledger : Ledger) (w : WinterWallet)
    → IsLaidOut w
    → (ledger view.address).borrowed ≡ false
    → try_from view (write view w ledger) ≡ ok w
unfolding write
try_from-write view ledger w h b =
    let account = record (ledger view.address) { contents = to_bytes w } in
    let here = update_self ledger view.address account in
    try_from_wallet view _ w h (ap (λ t. t.contents) here) (ap (λ t. t.borrowed) here ∙ b)

-- An account that was read was not borrowed.
pub try_from_free :
    (view : AccountView) (ledger : Ledger) (w : WinterWallet)
    → try_from view ledger ≡ ok w
    → (ledger view.address).borrowed ≡ false
unfolding try_from
try_from_free view ledger w h = elim (Bool-cases (ledger view.address).borrowed) [
  | inl b ↦ cc (b, h)
  | inr b ↦ b
]
