-- ===== src/Program/State.antt =====
-- program/src/state.rs: the layout of a wallet's account, and the reborrow of an account as it.
pub mod Codec
use winterwallet.Prelude.{
  ℕ, ◌+◌, ◌≡◌, refl, List, [], ◌∷◌, ◌++◌, arith, ◌==◌, length, take, drop, Result, ok, err, ◌>>=◌,
  ◌>>◌, fail_if, not,
}
use winterwallet.Bytes.{Bytes}
use winterwallet.Common.{wallet_account_len}
use winterwallet.Solana.{
  Account, AccountView, Ledger, update, ProgramError, ProgramResult, account_borrow_failed,
  invalid_account_data,
}

-- `#[repr(C)] struct WinterWallet`
pub record WinterWallet : Type 0 where
  pub id : Bytes
  pub root : Bytes
  pub bump : Bytes

abbrev pub IsLaidOut : WinterWallet → Type 0
IsLaidOut w = (length w.id ≡ 32) × (length w.root ≡ 32) × (length w.bump ≡ 1)

-- The bytes of the struct, and the struct over 65 bytes (`transmute`).
unfoldable pub to_bytes : WinterWallet → Bytes
to_bytes w = w.id ++ (w.root ++ w.bump)

unfoldable pub of_bytes : Bytes → WinterWallet
of_bytes bs = record { id = take 32 bs; root = take 32 (drop 32 bs); bump = drop 64 bs }

-- `TryFrom<&mut AccountView> for &mut WinterWallet`: the borrow flag is free again when it returns.
unfoldable pub try_from : AccountView → Ledger → Result ProgramError WinterWallet
try_from view ledger = do
  let account = ledger view.address
  fail_if account.borrowed account_borrow_failed
  fail_if (not (length account.contents == wallet_account_len)) invalid_account_data
  ok (of_bytes account.contents)

-- A write through the reference that `try_from` returned.
unfoldable pub write : AccountView → WinterWallet → Ledger → Ledger
write view w ledger =
    let account = ledger view.address in
    update ledger view.address (record account { contents = to_bytes w })

-- `WinterWallet::initialize`
unfoldable pub initialize : AccountView → Bytes → Bytes → ℕ → Ledger → ProgramResult
initialize view id root bump ledger = do
  old ← try_from view ledger
  ok (write view (record { id = id; root = root; bump = bump ∷ [] }) ledger)
