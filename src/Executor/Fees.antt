-- ===== src/Executor/Fees.antt =====
-- The fee arithmetic of `prepare_fire` (mint-sniper/src/executor.rs). An overflow wraps, as in a release
-- build.
pub mod Bounds
use seasniper.Common.{
  ltb, u64_mod, ℕ, ◌+◌, ◌*◌, ◌/◌, min, ◌==◌, if◌then◌else◌, wrap_u64, wrap_u128, saturate_u128,
}
use seasniper.Common.Int.{ℤ, pos, pos_part, ◌+ℤ◌, ◌*ℤ◌, div_trunc, to_i128, wrap_i128}
use seasniper.Common.Results.{Result, ok, err}
use seasniper.Failure.{Failure, range_panic}
use seasniper.Config.{Config}
use seasniper.Net.{Net}

unfoldable pub apply_pct_jitter : ℕ → ℤ → ℕ
apply_pct_jitter value pct =
    let delta = div_trunc (wrap_i128 (to_i128 value *ℤ pct)) 100 in
    pos_part (wrap_i128 (to_i128 value +ℤ delta))

-- The priority fee before jitter, under the configured cap.
unfoldable pub priority_fee_wei : Net → Config → ℕ → ℕ
priority_fee_wei net cfg base_fee =
    min (net.fee_times base_fee cfg.priority_fee_multiplier)
      (net.gwei_to_wei cfg.max_priority_fee_gwei_cap)

unfoldable pub gas_limit_of : Config → ℕ → ℕ
gas_limit_of cfg estimated_gas =
    wrap_u64 (estimated_gas + wrap_u64 (estimated_gas * cfg.gas_limit_headroom_pct) / 100)

-- As an `i64` a percentage of more than 2 ^ 63 is negative, and `-pct..=pct` is empty: `gen_range` panics.
unfoldable pub gas_jitter_pct : Net → Config → ℕ → Result Failure ℤ
gas_jitter_pct net cfg address =
    if cfg.gas_jitter_pct == 0
    then ok (pos 0)
    else (if ltb (u64_mod / 2) cfg.gas_jitter_pct
        then err range_panic
        else ok (net.sample_gas_jitter cfg.gas_jitter_pct address))

unfoldable pub max_fee_of : ℕ → ℕ → ℕ
max_fee_of wallet_priority_fee base_fee =
    wrap_u128 (wallet_priority_fee + saturate_u128 (base_fee * 2))
