-- ===== src/Cli/Message/Budget.antt =====
-- cli/src/helpers.rs: the compute limit that is asked for after a simulation.
use winterwallet.Prelude.{ℕ, ◌+◌, ◌*◌, ◌≤◌, ◌<◌, ◌⊎◌, ◌≡◌, arith}
use winterwallet.Bytes.{u32_mod, u64_mod}
use winterwallet.Cli.Message.{padded_compute_unit_limit}

-- For a u64 of consumed units, the padded limit is at least 10000 and fits a u32, and it is at
-- least 11/10 of the consumed units unless it is the largest u32.
pub padded_compute_unit_limit_lem :
    (units_consumed : ℕ)
    → units_consumed < u64_mod
    → (10000 ≤ padded_compute_unit_limit units_consumed)
      × (padded_compute_unit_limit units_consumed < u32_mod)
      × (11 * units_consumed ≤ 10 * padded_compute_unit_limit units_consumed
          ⊎ (padded_compute_unit_limit units_consumed + 1 ≡ u32_mod))
unfolding padded_compute_unit_limit
padded_compute_unit_limit_lem units_consumed h = (omega arith, omega arith, ground arith)
