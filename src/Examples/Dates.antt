-- ===== src/Examples/Dates.antt =====
-- The dates that the tests of mint-sniper/src/main.rs read, and the theorem on printed dates at one of them.
use seasniper.Common.{◌≡◌, refl, arith, some, none}
use seasniper.Common.Int.{pos, ◌+ℤ◌, ◌-ℤ◌, ◌*ℤ◌, div_trunc, mod_trunc, wrap_i64}
use seasniper.Calendar.{days_from_civil, civil_day, day_from_epoch, day_of_year}
use seasniper.Calendar.Fields.{split_whitespace, split_colon, digits, parse_i64}
use seasniper.Calendar.HttpDate.{parse_http_date}
use seasniper.Calendar.HttpDate.Reads.{
  Moment, IsMoment, imf_fixdate, unix_time, parse_http_date-imf_fixdate,
}

rfc_7231 : parse_http_date "Sun, 06 Nov 1994 08:49:37 GMT" ≡ some (pos 784111777)
unfolding parse_http_date split_whitespace split_colon parse_i64 digits days_from_civil civil_day
    day_from_epoch day_of_year ◌+ℤ◌ ◌-ℤ◌ ◌*ℤ◌ div_trunc mod_trunc wrap_i64
rfc_7231 = refl

wrong_zone : parse_http_date "Sun, 06 Nov 1994 08:49:37 UTC" ≡ none
unfolding parse_http_date split_whitespace
wrong_zone = refl

bad_month : parse_http_date "Sun, 06 Nvx 1994 08:49:37 GMT" ≡ none
unfolding parse_http_date split_whitespace parse_i64 digits
bad_month = refl

abbrev worked_example : Moment
worked_example = record {
  weekday = "Sun,";
  day = 6;
  month = 11;
  years = 24;
  hour = 8;
  minute = 49;
  second = 37;
}

worked_example-IsMoment : IsMoment worked_example
worked_example-IsMoment = record {
  weekday_word = refl;
  day_from = omega arith;
  day_to = omega arith;
  month_from = omega arith;
  month_to = omega arith;
  year_to = omega arith;
  hour_to = omega arith;
  minute_to = omega arith;
  second_to = omega arith;
}

parse_http_date-imf_fixdate_example :
    parse_http_date (imf_fixdate worked_example) ≡ some (pos (unix_time worked_example))
parse_http_date-imf_fixdate_example =
    parse_http_date-imf_fixdate worked_example worked_example-IsMoment
