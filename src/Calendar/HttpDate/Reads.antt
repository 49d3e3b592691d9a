-- ===== src/Calendar/HttpDate/Reads.antt =====
-- `parse_http_date` of mint-sniper/src/main.rs on the dates that RFC 7231 prints.
use Prim.Native.String.{String}
use seasniper.Common.{ℕ, zero, suc, ◌+◌, ◌-◌, ◌*◌, ◌<◌, ◌≤◌, ◌≡◌, refl, arith, true, some, [], ◌∷◌}
use seasniper.Common.Int.{pos, ◌+ℤ◌, ◌*ℤ◌, wrap_i64_small}
use seasniper.Calendar.Fields.{split_whitespace, split_colon}
use seasniper.Calendar.Leaps.{
  days_to_year, days_to_month, is_leap, days_from_civil-calendar, days_to_year_bound,
  days_to_month_bound,
}
use seasniper.Calendar.HttpDate.{parse_http_date, date_of, time_of, seconds, month_number}
use seasniper.Calendar.Print.{
  before, two_digits, four_digits, month_name, is_word, space, colon, split_whitespace-word,
  split_colon-piece, split_colon-free, is_word-two_digits, free-two_digits, is_word-four_digits,
  parse_i64-two_digits, parse_i64-four_digits,
}

-- A moment, the year as the years since 1970.
pub record Moment : Type 0 where
  pub weekday : String
  pub day : ℕ
  pub month : ℕ
  pub years : ℕ
  pub hour : ℕ
  pub minute : ℕ
  pub second : ℕ

-- The day's name with its comma is a word, the fields have the digits that the format has for them, and the
-- month is one of the twelve.
pub record IsMoment (t : Moment) : Type 0 where
  pub weekday_word : is_word t.weekday ≡ true
  pub day_from : 1 ≤ t.day
  pub day_to : t.day < 100
  pub month_from : 1 ≤ t.month
  pub month_to : t.month ≤ 12
  pub year_to : t.years < 8030
  pub hour_to : t.hour < 100
  pub minute_to : t.minute < 100
  pub second_to : t.second < 100

abbrev clock : Moment → String
clock t =
    before (two_digits t.hour) (colon (before (two_digits t.minute) (colon (two_digits t.second))))

abbrev pub imf_fixdate : Moment → String
imf_fixdate t = before t.weekday (
    space (
      before (two_digits t.day) (
        space (
          before (month_name t.month) (
            space
              (before (four_digits (1970 + t.years)) (space (before (clock t) (space "GMT")))))))))

-- The seconds from the epoch to a moment, by the calendar.
abbrev pub unix_time : Moment → ℕ
unix_time t =
    (days_to_year t.years + days_to_month (is_leap (1970 + t.years)) t.month + (t.day - 1)) * 86400
    + t.hour * 3600
    + t.minute * 60
    + t.second

-- A month's name is a word that is read back.
month_name_lem :
    (m : ℕ)
    → 1 ≤ m
    → m ≤ 12
    → (is_word (month_name m) ≡ true) × (month_number (month_name m) ≡ some (pos m))
unfolding month_name month_number
month_name_lem zero lo hi = ground (arith, lo)
month_name_lem (suc zero) lo hi = (refl, refl)
month_name_lem (suc (suc zero)) lo hi = (refl, refl)
month_name_lem (suc (suc (suc zero))) lo hi = (refl, refl)
month_name_lem (suc (suc (suc (suc zero)))) lo hi = (refl, refl)
month_name_lem (suc (suc (suc (suc (suc zero))))) lo hi = (refl, refl)
month_name_lem (suc (suc (suc (suc (suc (suc zero)))))) lo hi = (refl, refl)
month_name_lem (suc (suc (suc (suc (suc (suc (suc zero))))))) lo hi = (refl, refl)
month_name_lem (suc (suc (suc (suc (suc (suc (suc (suc zero)))))))) lo hi = (refl, refl)
month_name_lem (suc (suc (suc (suc (suc (suc (suc (suc (suc zero))))))))) lo hi = (refl, refl)
month_name_lem (suc (suc (suc (suc (suc (suc (suc (suc (suc (suc zero)))))))))) lo hi = (refl, refl)
month_name_lem (suc (suc (suc (suc (suc (suc (suc (suc (suc (suc (suc zero))))))))))) lo hi =
    (refl, refl)
month_name_lem (suc (suc (suc (suc (suc (suc (suc (suc (suc (suc (suc (suc zero)))))))))))) lo hi =
    (refl, refl)
month_name_lem (suc (suc (suc (suc (suc (suc (suc (suc (suc (suc (suc (suc (suc m))))))))))))) lo
      hi =
    ground (arith, hi)

split_whitespace-field :
    (w t : String)
    → is_word w ≡ true
    → split_whitespace (before w (space t)) ≡ w ∷ split_whitespace t
unfolding split_whitespace
split_whitespace-field w t h = rw (split_whitespace-word w (space t) h refl) refl

is_word-clock : (t : Moment) → IsMoment t → is_word (clock t) ≡ true
is_word-clock t h = ground (
  arith,
  is_word-two_digits t.hour h.hour_to,
  is_word-two_digits t.minute h.minute_to,
  is_word-two_digits t.second h.second_to,
)

split_whitespace-imf_fixdate :
    (t : Moment)
    → IsMoment t
    → split_whitespace (imf_fixdate t)
      ≡ t.weekday
        ∷ two_digits t.day
        ∷ month_name t.month
        ∷ four_digits (1970 + t.years)
        ∷ clock t
        ∷ "GMT"
        ∷ []
unfolding split_whitespace
split_whitespace-imf_fixdate t h =
    let zone : String = "GMT" in
    let time : String = before (clock t) (space zone) in
    let year : String = before (four_digits (1970 + t.years)) (space time) in
    let month : String = before (month_name t.month) (space year) in
    rw
      (
        split_whitespace-field t.weekday (before (two_digits t.day) (space month)) h.weekday_word,
        split_whitespace-field (two_digits t.day) month (is_word-two_digits t.day h.day_to),
        split_whitespace-field (month_name t.month) year
            (month_name_lem t.month h.month_from h.month_to).0,
        split_whitespace-field (four_digits (1970 + t.years)) time
            (is_word-four_digits (1970 + t.years) (omega (arith, h.year_to))),
        split_whitespace-field (clock t) zone (is_word-clock t h),
      )
      refl

split_colon-clock :
    (t : Moment)
    → IsMoment t
    → split_colon (clock t) ≡ two_digits t.hour ∷ two_digits t.minute ∷ two_digits t.second ∷ []
split_colon-clock t h =
    rw
      (
        split_colon-piece (two_digits t.hour)
            (before (two_digits t.minute) (colon (two_digits t.second)))
            (free-two_digits t.hour h.hour_to),
        split_colon-piece (two_digits t.minute) (two_digits t.second)
            (free-two_digits t.minute h.minute_to),
        split_colon-free (two_digits t.second) (free-two_digits t.second h.second_to),
      )
      refl

-- Reading the clock of a day that nothing wraps.
time_of-clock :
    (t : Moment) (days : ℕ)
    → IsMoment t
    → days < 3000000
    → time_of (pos days) (split_colon (clock t))
      ≡ some (pos (days * 86400 + t.hour * 3600 + t.minute * 60 + t.second))
unfolding time_of seconds ◌+ℤ◌ ◌*ℤ◌
time_of-clock t days h few =
    rw
      (
        split_colon-clock t h,
        parse_i64-two_digits t.hour h.hour_to,
        parse_i64-two_digits t.minute h.minute_to,
        parse_i64-two_digits t.second h.second_to,
      )
      (ground (
        arith,
        wrap_i64_small (pos (days * 86400 + t.hour * 3600 + t.minute * 60 + t.second))
            (omega (arith, few, h.hour_to, h.minute_to, h.second_to)),
      ))

-- An IMF-fixdate of a year from 1970 to 9999, with a word for the weekday, one of the twelve months, and two digits
-- for its day from 1 and for each part of its time, is read back as its seconds from the epoch: the calendar's days,
-- with leap days by the rule of 4, 100 and 400, and the time of day.
pub parse_http_date-imf_fixdate :
    (t : Moment) → IsMoment t → parse_http_date (imf_fixdate t) ≡ some (pos (unix_time t))
unfolding parse_http_date date_of
parse_http_date-imf_fixdate t h =
    let days : ℕ =
      days_to_year t.years + days_to_month (is_leap (1970 + t.years)) t.month + (t.day - 1) in
    let few : days < 3000000 = omega (
      arith,
      days_to_year_bound t.years,
      days_to_month_bound (is_leap (1970 + t.years)) t.month,
      h.year_to,
      h.month_to,
      h.day_to,
    ) in
    rw
      (
        split_whitespace-imf_fixdate t h,
        parse_i64-two_digits t.day h.day_to,
        (month_name_lem t.month h.month_from h.month_to).1,
        parse_i64-four_digits (1970 + t.years) (omega (arith, h.year_to)),
        days_from_civil-calendar t.years t.month t.day (omega (arith, h.year_to)) h.month_from
            h.month_to h.day_from (omega (arith, h.day_to)),
        time_of-clock t days h few,
      )
      refl
