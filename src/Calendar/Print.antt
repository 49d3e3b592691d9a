-- ===== src/Calendar/Print.antt =====
-- The format that `parse_http_date` of mint-sniper/src/main.rs reads, as RFC 7231 writes it: the fields of
-- an IMF-fixdate, and what reading one gives back.
use Prim.Native.Char.{Char, char, code}
use Prim.Native.String.{String}
use seasniper.Common.{
  ℕ, zero, suc, ◌+◌, ◌*◌, ◌/◌, ◌%◌, ◌<◌, ◌≡◌, refl, arith, Bool, true, false, ◌&&◌, not, some, [],
  ◌∷◌, ◌==◌, is_whitespace, if◌then◌else◌,
}
use seasniper.Common.Int.{pos}
use seasniper.Calendar.Fields.{
  begins_word, split_whitespace, split_colon, digits, positive_i64, parse_i64,
}

-- `s ++ t`, a character at a time.
abbrev pub before : String → String → String
before String.[] t = t
before (String.◌∷◌ c s) t = String.◌∷◌ c (before s t)

abbrev pub digit_char : ℕ → Char
digit_char zero = char 48 tt
digit_char (suc zero) = char 49 tt
digit_char (suc (suc zero)) = char 50 tt
digit_char (suc (suc (suc zero))) = char 51 tt
digit_char (suc (suc (suc (suc zero)))) = char 52 tt
digit_char (suc (suc (suc (suc (suc zero))))) = char 53 tt
digit_char (suc (suc (suc (suc (suc (suc zero)))))) = char 54 tt
digit_char (suc (suc (suc (suc (suc (suc (suc zero))))))) = char 55 tt
digit_char (suc (suc (suc (suc (suc (suc (suc (suc zero)))))))) = char 56 tt
digit_char other = char 57 tt

pub code-digit_char : (n : ℕ) → n < 10 → code (digit_char n) ≡ 48 + n
code-digit_char zero h = refl
code-digit_char (suc zero) h = refl
code-digit_char (suc (suc zero)) h = refl
code-digit_char (suc (suc (suc zero))) h = refl
code-digit_char (suc (suc (suc (suc zero)))) h = refl
code-digit_char (suc (suc (suc (suc (suc zero))))) h = refl
code-digit_char (suc (suc (suc (suc (suc (suc zero)))))) h = refl
code-digit_char (suc (suc (suc (suc (suc (suc (suc zero))))))) h = refl
code-digit_char (suc (suc (suc (suc (suc (suc (suc (suc zero)))))))) h = refl
code-digit_char (suc (suc (suc (suc (suc (suc (suc (suc (suc n))))))))) h = omega (arith, h)

-- Two digits and four.
abbrev pub two_digits : ℕ → String
two_digits n = String.◌∷◌ (digit_char (n / 10)) (String.◌∷◌ (digit_char (n % 10)) String.[])

abbrev pub four_digits : ℕ → String
four_digits n = before (two_digits (n / 100)) (two_digits (n % 100))

unfoldable pub month_name : ℕ → String
month_name n =
    if n == 1
    then "Jan"
    else (if n == 2
        then "Feb"
        else (if n == 3
            then "Mar"
            else (if n == 4
                then "Apr"
                else (if n == 5
                    then "May"
                    else (if n == 6
                        then "Jun"
                        else (if n == 7
                            then "Jul"
                            else (if n == 8
                                then "Aug"
                                else (if n == 9
                                    then "Sep"
                                    else (if n == 10
                                        then "Oct"
                                        else (if n == 11 then "Nov" else "Dec"))))))))))

-- A text in which no character has a property, and one that has characters.
abbrev pub free : (ℕ → Bool) → String → Bool
free p String.[] = true
free p (String.◌∷◌ c s) = not (p (code c)) && free p s

abbrev pub is_word : String → Bool
is_word String.[] = false
is_word (String.◌∷◌ c s) = free is_whitespace (String.◌∷◌ c s)

abbrev pub is_colon : ℕ → Bool
is_colon n = n == b':'

abbrev pub space : String → String
space s = String.◌∷◌ (char 32 tt) s

abbrev pub colon : String → String
colon s = String.◌∷◌ (char 58 tt) s

pub split_whitespace-word :
    (w t : String)
    → is_word w ≡ true
    → begins_word t ≡ false
    → split_whitespace (before w t) ≡ w ∷ split_whitespace t
unfolding split_whitespace
split_whitespace-word String.[] t h e = cc
split_whitespace-word (String.◌∷◌ c String.[]) t h e = ground arith
split_whitespace-word (String.◌∷◌ c (String.◌∷◌ d w)) t h e =
    ground (arith, split_whitespace-word (String.◌∷◌ d w) t)

pub split_colon-piece :
    (w t : String) → free is_colon w ≡ true → split_colon (before w (colon t)) ≡ w ∷ split_colon t
unfolding split_colon
split_colon-piece String.[] t h = refl
split_colon-piece (String.◌∷◌ c w) t h = ground (arith, split_colon-piece w t)

pub split_colon-free : (w : String) → free is_colon w ≡ true → split_colon w ≡ w ∷ []
unfolding split_colon
split_colon-free String.[] h = refl
split_colon-free (String.◌∷◌ c w) h = ground (arith, split_colon-free w)

pub is_word-two_digits : (n : ℕ) → n < 100 → is_word (two_digits n) ≡ true
is_word-two_digits n h =
    ground
      (arith, code-digit_char (n / 10) (omega (arith, h)), code-digit_char (n % 10) (omega arith))

pub free-two_digits : (n : ℕ) → n < 100 → free is_colon (two_digits n) ≡ true
free-two_digits n h =
    ground
      (arith, code-digit_char (n / 10) (omega (arith, h)), code-digit_char (n % 10) (omega arith))

pub is_word-four_digits : (n : ℕ) → n < 10000 → is_word (four_digits n) ≡ true
is_word-four_digits n h = ground (
  arith,
  is_word-two_digits (n / 100) (omega (arith, h)),
  is_word-two_digits (n % 100) (omega arith),
)

digits-digit_char :
    (n a : ℕ) (s : String) → n < 10 → digits (String.◌∷◌ (digit_char n) s) a ≡ digits s (a * 10 + n)
unfolding digits
digits-digit_char n a s h = ground (arith, code-digit_char n h)

-- A text that begins with a digit has no sign.
parse_i64-digit_char :
    (n : ℕ) (s : String)
    → n < 10
    → parse_i64 (String.◌∷◌ (digit_char n) s) ≡ positive_i64 (digits s n)
unfolding parse_i64
parse_i64-digit_char n s h = ground (arith, code-digit_char n h, digits-digit_char n 0 s h)

pub parse_i64-two_digits : (n : ℕ) → n < 100 → parse_i64 (two_digits n) ≡ some (pos n)
parse_i64-two_digits n h =
    rw
      (
        parse_i64-digit_char (n / 10) (String.◌∷◌ (digit_char (n % 10)) String.[])
            (omega (arith, h)),
        digits-digit_char (n % 10) (n / 10) String.[] (omega arith),
      )
      (unfold digits in ground arith)

pub parse_i64-four_digits : (n : ℕ) → n < 10000 → parse_i64 (four_digits n) ≡ some (pos n)
parse_i64-four_digits n h =
    let low : String = two_digits (n % 100) in
    rw
      (
        parse_i64-digit_char (n / 100 / 10) (String.◌∷◌ (digit_char (n / 100 % 10)) low)
            (omega (arith, h)),
        digits-digit_char (n / 100 % 10) (n / 100 / 10) low (omega arith),
        digits-digit_char (n % 100 / 10) (n / 100 / 10 * 10 + n / 100 % 10)
            (String.◌∷◌ (digit_char (n % 100 % 10)) String.[]) (omega arith),
        digits-digit_char (n % 100 % 10) ((n / 100 / 10 * 10 + n / 100 % 10) * 10 + n % 100 / 10)
            String.[] (omega arith),
      )
      (unfold digits in ground arith)
