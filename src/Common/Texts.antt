-- ===== src/Common/Texts.antt =====
-- `str::trim`: white space as Unicode's White_Space has it.
use Prim.Native.Nat.{ℕ}
use Prim.Native.Char.{code}
use Prim.Native.String.{String, [], ◌∷◌}
use mathlib.Core.Bool.{Bool, ◌&&◌, ◌||◌}
use seasniper.Common.Tests.{leb, ◌==◌, is_empty, if◌then◌else◌}

abbrev is_between : ℕ → ℕ → ℕ → Bool
is_between a b n = leb a n && leb n b

abbrev pub is_whitespace : ℕ → Bool
is_whitespace n =
    is_between 9 13 n
    || ((n == 32)
        || ((n == 133)
            || ((n == 160)
                || ((n == 5760)
                    || (is_between 8192 8202 n
                        || (is_between 8232 8233 n
                            || ((n == 8239) || ((n == 8287) || (n == 12288)))))))))

unfoldable pub trim_start : String → String
trim_start [] = []
trim_start (c ∷ s) = let rest = trim_start s in if is_whitespace (code c) then rest else c ∷ s

unfoldable pub trim_end : String → String
trim_end [] = []
trim_end (c ∷ s) =
    let rest = trim_end s in if is_empty rest && is_whitespace (code c) then [] else c ∷ rest

unfoldable pub trim : String → String
trim s = trim_start (trim_end s)
