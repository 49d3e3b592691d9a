-- ===== src/Calendar/HttpDate.antt =====
-- `parse_http_date` of mint-sniper/src/main.rs. The release build does not check for overflow: sums
-- and products wrap, and since no division follows them, they wrap here once, at the end.
pub mod Reads
use Prim.Native.String.{String}
use seasniper.Common.{Option, none, some, List, [], ◌∷◌, not, str_eq, if◌then◌else◌}
use seasniper.Common.Int.{ℤ, pos, ◌+ℤ◌, ◌*ℤ◌, wrap_i64}
use seasniper.Calendar.{days_from_civil}
use seasniper.Calendar.Fields.{split_whitespace, split_colon, parse_i64}

infixl 50 ◌>>=◌
abbrev pub ◌>>=◌ {ℓ κ} : {A : Type ℓ} {B : Type κ} → Option A → (A → Option B) → Option B
none >>= f = none
some a >>= f = f a

month_number : String → Option ℤ
month_number name =
    if str_eq name "Jan"
    then some (pos 1)
    else (if str_eq name "Feb"
        then some (pos 2)
        else (if str_eq name "Mar"
            then some (pos 3)
            else (if str_eq name "Apr"
                then some (pos 4)
                else (if str_eq name "May"
                    then some (pos 5)
                    else (if str_eq name "Jun"
                        then some (pos 6)
                        else (if str_eq name "Jul"
                            then some (pos 7)
                            else (if str_eq name "Aug"
                                then some (pos 8)
                                else (if str_eq name "Sep"
                                    then some (pos 9)
                                    else (if str_eq name "Oct"
                                        then some (pos 10)
                                        else (if str_eq name "Nov"
                                            then some (pos 11)
                                            else (if str_eq name "Dec"
                                                then some (pos 12)
                                                else none)))))))))))

seconds : (days hour minute second : ℤ) → ℤ
seconds days hour minute second =
    wrap_i64 (days *ℤ pos 86400 +ℤ hour *ℤ pos 3600 +ℤ minute *ℤ pos 60 +ℤ second)

-- The day's seconds, once the day is read.
time_of : ℤ → List String → Option ℤ
unfolding seconds
time_of days (h ∷ m ∷ s ∷ []) = do
  hour ← parse_i64 h
  minute ← parse_i64 m
  second ← parse_i64 s
  some (seconds days hour minute second)
time_of days _ = none

date_of : List String → Option ℤ
unfolding month_number time_of
date_of (weekday ∷ d ∷ m ∷ y ∷ t ∷ zone ∷ []) = if not (str_eq zone "GMT") then none else do
  day ← parse_i64 d
  month ← month_number m
  year ← parse_i64 y
  time_of (days_from_civil year month day) (split_colon t)
date_of _ = none

unfoldable pub parse_http_date : String → Option ℤ
unfolding date_of
parse_http_date s = date_of (split_whitespace s)
