-- ===== src/Common.antt =====
-- common/src/lib.rs: the constants that the program and the clients share. The program's address is
-- decoded from base58 by solana_address, and is a field of Solana's interface Programs.
pub mod Discriminator
use Prim.Native.Char.{code}
use Prim.Native.String.{String}
use winterwallet.Prelude.{ℕ, ◌+◌, ◌*◌, List, [], ◌∷◌}
use winterwallet.Bytes.{Bytes}

-- The bytes of an ASCII literal.
abbrev pub ascii : String → Bytes
ascii String.[] = []
ascii (String.◌∷◌ c s) = code c ∷ ascii s

abbrev pub winternitz_scalars : ℕ
winternitz_scalars = 22

abbrev pub total_scalars : ℕ
total_scalars = winternitz_scalars + 2

abbrev pub signature_len : ℕ
signature_len = total_scalars * 32

unfoldable pub winterwallet_initialize : Bytes
winterwallet_initialize = ascii "WINTERWALLET_INITIALIZE"

unfoldable pub winterwallet_advance : Bytes
winterwallet_advance = ascii "WINTERWALLET_ADVANCE"

unfoldable pub winterwallet_seed : Bytes
winterwallet_seed = ascii "winterwallet"

abbrev pub max_passthrough_accounts : ℕ
max_passthrough_accounts = 128

abbrev pub max_cpi_instruction_accounts : ℕ
max_cpi_instruction_accounts = 16

abbrev pub wallet_account_len : ℕ
wallet_account_len = 65

abbrev pub wallet_id_offset : ℕ
wallet_id_offset = 0

abbrev pub wallet_root_offset : ℕ
wallet_root_offset = 32

abbrev pub wallet_bump_offset : ℕ
wallet_bump_offset = 64
