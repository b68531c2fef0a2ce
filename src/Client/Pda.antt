-- ===== src/Client/Pda.antt =====
-- client/src/pda.rs: the address and the id of a wallet.
use winterwallet.Prelude.{ℕ, [], ◌∷◌, Result, ok, ◌>>=◌, map_err}
use winterwallet.Bytes.{Bytes}
use winterwallet.Common.{winternitz_scalars, winterwallet_seed}
use winterwallet.Core.Hash.{Hasher}
use winterwallet.Core.Keypair.{Hmac, WinternitzKeypair, derive}
use winterwallet.Core.Keypair.Mnemonic.{Digests, from_mnemonic}
use winterwallet.Core.Merkle.{merklize}
use winterwallet.Core.Privkey.{to_pubkey}
use winterwallet.Client.Error.{Error, winternitz}
use winterwallet.Solana.{Address, Programs, AddressFinder}

unfoldable pub find_wallet_address :
    ⦃ids : Programs⦄ → ⦃finder : AddressFinder⦄ → Bytes → Address × ℕ
find_wallet_address ⦃ids⦄ ⦃finder⦄ wallet_id =
    finder.find_program_address (winterwallet_seed ∷ wallet_id ∷ []) ids.winterwallet_id

-- `wallet_id_from_mnemonic`, from the keypair of the mnemonic on.
unfoldable pub wallet_id : ⦃mac : Hmac⦄ → ⦃sha : Hasher⦄ → WinternitzKeypair → Bytes
wallet_id keypair = merklize (to_pubkey (derive winternitz_scalars keypair))

unfoldable pub wallet_id_from_mnemonic :
    ⦃mac : Hmac⦄ → ⦃sha : Hasher⦄ → ⦃digests : Digests⦄ → Bytes → Result Error Bytes
wallet_id_from_mnemonic mnemonic = do
  keypair ← map_err winternitz (from_mnemonic mnemonic 0)
  ok (wallet_id keypair)
