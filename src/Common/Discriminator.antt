-- ===== src/Common/Discriminator.antt =====
-- common/src/lib.rs: `mod discriminator`, the first byte of an instruction's data.
use winterwallet.Prelude.{ℕ}

abbrev pub initialize : ℕ
initialize = 0

abbrev pub advance : ℕ
advance = 1

abbrev pub withdraw : ℕ
withdraw = 2

abbrev pub close : ℕ
close = 3
