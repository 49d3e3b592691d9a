-- ===== src/Calendar.antt =====
-- The dates of an HTTP `Date` header (`days_from_civil` of mint-sniper/src/main.rs) over an `i64`. The
-- release build does not check for overflow: a year wraps before it is divided, and the sums and products
-- after the last division wrap once, at the end, which is the same as at each of them.
pub mod Leaps
pub mod Fields
pub mod HttpDate
pub mod Print
use seasniper.Common.{ℕ, suc, ◌+◌, ◌-◌, ◌*◌, ◌/◌, ◌%◌, Bool, leb, if◌then◌else◌}
use seasniper.Common.Int.{
  ℤ, pos, negsuc, pos_part, neg_part, ◌+ℤ◌, ◌-ℤ◌, ◌*ℤ◌, div_trunc, mod_trunc, wrap_i64,
}

-- `y >= 0`.
abbrev is_nonnegative : ℤ → Bool
is_nonnegative (pos n) = Bool.true
is_nonnegative (negsuc n) = Bool.false

-- `m <= 2`.
abbrev is_before_march : ℤ → Bool
is_before_march (pos n) = leb n 2
is_before_march (negsuc n) = Bool.true

-- The day of a year that starts in March, from 0.
unfoldable pub day_of_year : (m d : ℤ) → ℤ
day_of_year m d =
    let mp = mod_trunc (m +ℤ pos 9) 12 in div_trunc (pos 153 *ℤ mp +ℤ pos 2) 5 +ℤ d -ℤ pos 1

-- The day from the epoch, of a day of a year that starts in March.
unfoldable pub day_from_epoch : (y doy : ℤ) → ℤ
day_from_epoch y doy =
    let era = div_trunc (if is_nonnegative y then y else wrap_i64 (y -ℤ pos 399)) 400 in
    let yoe = y -ℤ era *ℤ pos 400 in
    let doe = yoe *ℤ pos 365 +ℤ div_trunc yoe 4 -ℤ div_trunc yoe 100 +ℤ doy in
    era *ℤ pos 146097 +ℤ doe -ℤ pos 719468

-- The same day of a date.
unfoldable pub civil_day : (y m d : ℤ) → ℤ
civil_day y m d =
    day_from_epoch (if is_before_march m then wrap_i64 (y -ℤ pos 1) else y) (day_of_year m d)

unfoldable pub days_from_civil : (y m d : ℤ) → ℤ
days_from_civil y m d = wrap_i64 (civil_day y m d)
