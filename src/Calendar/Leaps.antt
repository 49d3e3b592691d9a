-- ===== src/Calendar/Leaps.antt =====
-- `days_from_civil` (mint-sniper/src/main.rs) counts the days of the Gregorian calendar.
use seasniper.Common.{
  ℕ, zero, suc, ◌+◌, ◌-◌, ◌*◌, ◌/◌, ◌%◌, ◌≡◌, ◌≤◌, ◌<◌, ap, arith, Bool, false, ◌&&◌, ◌||◌, not,
  ◌==◌, if◌then◌else◌, leb,
}
use seasniper.Common.Int.{
  pos, sub_ℕ, ◌+ℤ◌, ◌-ℤ◌, ◌*ℤ◌, div_trunc, mod_trunc, wrap_i64, wrap_i64_small,
}
use seasniper.Calendar.{days_from_civil, civil_day, day_from_epoch, day_of_year}

abbrev pub is_leap : ℕ → Bool
is_leap y = (y % 4 == 0) && (not (y % 100 == 0) || (y % 400 == 0))

-- The days of the years from 1970, and of a year's months before one.
abbrev pub days_to_year : ℕ → ℕ
days_to_year zero = 0
days_to_year (suc k) = days_to_year k + (if is_leap (1970 + k) then 366 else 365)

abbrev pub month_length : Bool → ℕ → ℕ
month_length leap m =
    if m == 2
    then (if leap then 29 else 28)
    else (if (m == 4) || ((m == 6) || ((m == 9) || (m == 11))) then 30 else 31)

abbrev pub days_to_month : Bool → ℕ → ℕ
days_to_month leap zero = 0
days_to_month leap (suc zero) = 0
days_to_month leap (suc (suc m)) = days_to_month leap (suc m) + month_length leap (suc m)

days_to_year-closed :
    (k : ℕ)
    → days_to_year k
      ≡ (1969 + k) * 365 + (1969 + k) / 4 - (1969 + k) / 100 + (1969 + k) / 400 - 719162
days_to_year-closed zero = omega arith
days_to_year-closed (suc k) = ground (arith, days_to_year-closed k)

day_from_epoch-pos :
    (y doy : ℕ)
    → 1969 ≤ y
    → day_from_epoch (pos y) (pos doy) ≡ sub_ℕ (y * 365 + y / 4 - y / 100 + y / 400 + doy) 719468
unfolding day_from_epoch ◌+ℤ◌ ◌-ℤ◌ ◌*ℤ◌ div_trunc
day_from_epoch-pos y doy h = ground arith

day_of_year-march :
    (m d : ℕ)
    → 3 ≤ m
    → m ≤ 12
    → 1 ≤ d
    → day_of_year (pos m) (pos d) ≡ pos ((153 * (m - 3) + 2) / 5 + d - 1)
unfolding day_of_year ◌+ℤ◌ ◌-ℤ◌ ◌*ℤ◌ div_trunc mod_trunc
day_of_year-march m d lo hi day = ground arith

day_of_year-january :
    (m d : ℕ)
    → 1 ≤ m
    → m ≤ 2
    → 1 ≤ d
    → day_of_year (pos m) (pos d) ≡ pos ((153 * (m + 9) + 2) / 5 + d - 1)
unfolding day_of_year ◌+ℤ◌ ◌-ℤ◌ ◌*ℤ◌ div_trunc mod_trunc
day_of_year-january m d lo hi day = ground arith

abbrev leap_day : Bool → ℕ
leap_day leap = if leap then 1 else 0

days_to_month-march :
    (leap : Bool) (j : ℕ)
    → j ≤ 9
    → days_to_month leap (suc (suc (suc j))) ≡ (153 * j + 2) / 5 + 59 + leap_day leap
days_to_month-march leap zero h = ground arith
days_to_month-march leap (suc j) h = ground (arith, days_to_month-march leap j (omega (arith, h)))

-- The day numbers agree: the formula's and the calendar's.
Agrees : (k m d : ℕ) → Type 0
Agrees k m d =
    civil_day (pos (1970 + k)) (pos m) (pos d)
    ≡ pos (days_to_year k + days_to_month (is_leap (1970 + k)) m + (d - 1))

-- A number of years, or of days, for which nothing wraps.
abbrev pub small : ℕ
small = 18014398509481984

previous : (k : ℕ) → k < small → wrap_i64 (pos (1970 + k) -ℤ pos 1) ≡ pos (1969 + k)
unfolding ◌-ℤ◌
previous k h = ground (arith, wrap_i64_small (pos (1969 + k)) (omega (arith, h)))

january : (k d : ℕ) → k < small → 1 ≤ d → Agrees k 1 d
unfolding Agrees civil_day
january k d few day =
    rw
      (
        previous k few,
        day_of_year-january 1 d (omega arith) (omega arith) day,
        day_from_epoch-pos (1969 + k) ((153 * (1 + 9) + 2) / 5 + d - 1) (omega arith),
      )
      (ground (arith, days_to_year-closed k))

february : (k d : ℕ) → k < small → 1 ≤ d → Agrees k 2 d
unfolding Agrees civil_day
february k d few day =
    rw
      (
        previous k few,
        day_of_year-january 2 d (omega arith) (omega arith) day,
        day_from_epoch-pos (1969 + k) ((153 * (2 + 9) + 2) / 5 + d - 1) (omega arith),
      )
      (ground (arith, days_to_year-closed k))

march_year :
    (k n : ℕ)
    → 1 ≤ n
    → sub_ℕ
        ((1970 + k) * 365 + (1970 + k) / 4 - (1970 + k) / 100 + (1970 + k) / 400 + (n - 1))
        719468
      ≡ pos (days_to_year k + (n + 59 + leap_day (is_leap (1970 + k))) - 1)
march_year k n h = ground (arith, days_to_year-closed k)

march : (k j d : ℕ) → j ≤ 9 → 1 ≤ d → Agrees k (suc (suc (suc j))) d
unfolding Agrees civil_day
march k j d h day =
    let m : ℕ = suc (suc (suc j)) in
    let n : ℕ = (153 * (m - 3) + 2) / 5 + d in
    let late : leb m 2 ≡ false = ground arith in
    rw
      (
        late,
        day_of_year-march m d (omega arith) (omega (arith, h)) day,
        day_from_epoch-pos (1970 + k) (n - 1) (omega arith),
        march_year k n (omega (arith, day)),
        days_to_month-march (is_leap (1970 + k)) j h,
      )
      (ap pos (omega (arith, day)))

civil_day-calendar : (k m d : ℕ) → k < small → 1 ≤ m → m ≤ 12 → 1 ≤ d → Agrees k m d
civil_day-calendar k zero d few lo hi day = ground (arith, lo)
civil_day-calendar k (suc zero) d few lo hi day = january k d few day
civil_day-calendar k (suc (suc zero)) d few lo hi day = february k d few day
civil_day-calendar k (suc (suc (suc j))) d few lo hi day = march k j d (omega (arith, hi)) day

pub days_to_year_bound : (k : ℕ) → days_to_year k ≤ 366 * k
days_to_year_bound zero = omega arith
days_to_year_bound (suc k) = ground (arith, days_to_year_bound k)

pub days_to_month_bound : (leap : Bool) (m : ℕ) → days_to_month leap m ≤ 31 * m
days_to_month_bound leap zero = omega arith
days_to_month_bound leap (suc zero) = omega arith
days_to_month_bound leap (suc (suc m)) = ground (arith, days_to_month_bound leap (suc m))

-- From 1970 on `days_from_civil` is the number of days of the Gregorian calendar: the lengths of the
-- years since the epoch, of the months before this one, leap days by the rule of 4, 100 and 400, and the
-- days of this month. The years are few enough for an `i64`.
pub days_from_civil-calendar :
    (k m d : ℕ)
    → k < small
    → 1 ≤ m
    → m ≤ 12
    → 1 ≤ d
    → d < small
    → days_from_civil (pos (1970 + k)) (pos m) (pos d)
      ≡ pos (days_to_year k + days_to_month (is_leap (1970 + k)) m + (d - 1))
unfolding days_from_civil Agrees
days_from_civil-calendar k m d few lo hi day short = rw (civil_day-calendar k m d few lo hi day) (
    wrap_i64_small (pos (days_to_year k + days_to_month (is_leap (1970 + k)) m + (d - 1))) (
      omega
        (arith, days_to_year_bound k, days_to_month_bound (is_leap (1970 + k)) m, few, hi, short)))
