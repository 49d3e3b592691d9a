-- ===== src/Calendar/Fields.antt =====
-- The fields of a header as `parse_http_date` of mint-sniper/src/main.rs takes them apart:
-- `str::split_whitespace`, `str::split` at a colon and `str::parse` of an `i64`.
use Prim.Native.Char.{Char, code}
use Prim.Native.String.{String}
use seasniper.Common.{
  ℕ, ◌+◌, ◌-◌, ◌*◌, ◌/◌, Bool, false, ◌&&◌, not, Option, none, some, List, [], ◌∷◌, leb, ltb, ◌==◌,
  is_whitespace, u64_mod, if◌then◌else◌,
}
use seasniper.Common.Int.{ℤ, pos, sub_ℕ}

-- Whether a text begins with a character of a word.
abbrev pub begins_word : String → Bool
begins_word String.[] = false
begins_word (String.◌∷◌ c s) = not (is_whitespace (code c))

-- A character put before the first word, or before all words as one of its own.
abbrev pub push_char : Char → Bool → List String → List String
push_char c Bool.true (w ∷ ws) = String.◌∷◌ c w ∷ ws
push_char c _ ws = String.◌∷◌ c String.[] ∷ ws

unfoldable pub split_whitespace : String → List String
split_whitespace String.[] = []
split_whitespace (String.◌∷◌ c s) =
    let rest = split_whitespace s in
    if is_whitespace (code c) then rest else push_char c (begins_word s) rest

-- `split(':')` has one piece more than there are colons.
unfoldable pub split_colon : String → List String
split_colon String.[] = String.[] ∷ []
split_colon (String.◌∷◌ c s) =
    let rest = split_colon s in
    if code c == b':' then String.[] ∷ rest else push_char c Bool.true rest

abbrev pub is_digit : ℕ → Bool
is_digit n = leb b'0' n && leb n b'9'

-- The number that decimal digits write, continued from `n`.
unfoldable pub digits : String → ℕ → Option ℕ
digits String.[] n = some n
digits (String.◌∷◌ c s) n =
    let rest = digits s (n * 10 + (code c - b'0')) in if is_digit (code c) then rest else none

-- One digit at least.
abbrev pub number : String → Option ℕ
number String.[] = none
number (String.◌∷◌ c s) = digits (String.◌∷◌ c s) 0

-- What an `i64` holds, of a number and of its negation.
abbrev pub positive_i64 : Option ℕ → Option ℤ
positive_i64 none = none
positive_i64 (some n) = if ltb n (u64_mod / 2) then some (pos n) else none

abbrev pub negative_i64 : Option ℕ → Option ℤ
negative_i64 none = none
negative_i64 (some n) = if leb n (u64_mod / 2) then some (sub_ℕ 0 n) else none

unfoldable pub parse_i64 : String → Option ℤ
parse_i64 String.[] = none
parse_i64 (String.◌∷◌ c s) =
    if code c == b'-'
    then negative_i64 (number s)
    else (if code c == b'+'
        then positive_i64 (number s)
        else positive_i64 (number (String.◌∷◌ c s)))
