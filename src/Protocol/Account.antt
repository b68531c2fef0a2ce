-- ===== src/Protocol/Account.antt =====
-- A wallet's account: the program's writing of it (program/src/state.rs) and the client's reading
-- (client/src/state.rs).
use winterwallet.Prelude.{
  ◌≡◌, sym, ap, ◌∙◌, arith, ◌==◌, length, true, [], append-nil, take, drop, ok, ◌++◌, take-append,
  drop-append, drop-drop,
}
use winterwallet.Common.{wallet_account_len}
use winterwallet.Program.State
use winterwallet.Program.State.{WinterWallet}
use winterwallet.Program.State.Codec.{length-to_bytes}
use winterwallet.Client.State.{from_bytes}

-- The client reads the bytes of a wallet's account with an id and a root of 32 bytes and a bump of
-- one byte as that wallet.
pub from_bytes-to_bytes :
    (w : WinterWallet)
    → State.IsLaidOut w
    → from_bytes (State.to_bytes w) ≡ ok (record { id = w.id; root = w.root; bump = w.bump })
unfolding from_bytes State.to_bytes
from_bytes-to_bytes w (hi, hr, hb) =
    let tail = w.root ++ w.bump in
    let long : (length (State.to_bytes w) == wallet_account_len) ≡ true =
      ground (arith, length-to_bytes w (hi, hr, hb)) in
    let cut : drop 32 (w.id ++ tail) ≡ tail = drop-append 32 w.id tail hi in
    let last : drop 64 (w.id ++ tail) ≡ w.bump =
      sym (drop-drop 32 32 (w.id ++ tail)) ∙ ap (drop 32) cut ∙ drop-append 32 w.root w.bump hr in
    let one : take 1 w.bump ≡ w.bump = rw append-nil at (take-append 1 w.bump [] hb) in
    rw (long, cut, last, take-append 32 w.id tail hi, take-append 32 w.root w.bump hr, one)
