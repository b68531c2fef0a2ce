-- ===== src/Client/State.antt =====
-- client/src/state.rs: the client's reading of a wallet's account.
use winterwallet.Prelude.{◌==◌, length, take, drop, Result, ok, ◌>>◌, fail_if, not}
use winterwallet.Bytes.{Bytes}
use winterwallet.Common.{
  wallet_account_len, wallet_id_offset, wallet_root_offset, wallet_bump_offset,
}
use winterwallet.Client.Error.{Error, invalid_account_data}

pub record WinterWalletAccount : Type 0 where
  pub id : Bytes
  pub root : Bytes
  pub bump : Bytes

-- `WinterWalletAccount::from_bytes`
unfoldable pub from_bytes : Bytes → Result Error WinterWalletAccount
from_bytes data_bytes = do
  fail_if (not (length data_bytes == wallet_account_len)) invalid_account_data
  ok (record {
    id = take 32 (drop wallet_id_offset data_bytes);
    root = take 32 (drop wallet_root_offset data_bytes);
    bump = take 1 (drop wallet_bump_offset data_bytes);
  })
