-- ===== src/Common/Int.antt =====
-- Signed integers over the native numbers, under the library's names, with the truncated division
-- and the 128-bit wrap of the source's `i64` and `i128`.
use Prim.Native.Nat.{ℕ, suc, ◌+◌, ◌-◌, ◌*◌, ◌/◌, ◌%◌, ◌<◌}
use mathlib.Core.Path.{◌≡◌}
use native.Mathlib.Omega.{arith}
use seasniper.Common.Tests.{ltb, leb, if◌then◌else◌}
use seasniper.Common.Words.{u64_mod, u128_mod}

-- `negsuc n` is -(n + 1).
pub data ℤ : Type 0 where
  pos : ℕ → ℤ
  negsuc : ℕ → ℤ

abbrev pub pos_part : ℤ → ℕ
pos_part (pos n) = n
pos_part (negsuc n) = 0

abbrev pub neg_part : ℤ → ℕ
neg_part (pos n) = 0
neg_part (negsuc n) = suc n

-- a - b, as an integer.
abbrev pub sub_ℕ : ℕ → ℕ → ℤ
sub_ℕ a b = if leb b a then pos (a - b) else negsuc (b - a - 1)

infixl 65 ◌+ℤ◌ ◌-ℤ◌
infixl 70 ◌*ℤ◌
unfoldable pub ◌+ℤ◌ : ℤ → ℤ → ℤ
a +ℤ b = sub_ℕ (pos_part a + pos_part b) (neg_part a + neg_part b)

unfoldable pub ◌-ℤ◌ : ℤ → ℤ → ℤ
a -ℤ b = sub_ℕ (pos_part a + neg_part b) (neg_part a + pos_part b)

unfoldable pub ◌*ℤ◌ : ℤ → ℤ → ℤ
a *ℤ b =
    sub_ℕ (pos_part a * pos_part b + neg_part a * neg_part b)
      (pos_part a * neg_part b + neg_part a * pos_part b)

-- `unsigned_abs`.
abbrev pub unsigned_abs : ℤ → ℕ
unsigned_abs z = pos_part z + neg_part z

-- `/` by a positive number, which rounds towards zero, and `%`, which has the dividend's sign.
unfoldable pub div_trunc : ℤ → ℕ → ℤ
div_trunc a k = sub_ℕ (pos_part a / k) (neg_part a / k)

unfoldable pub mod_trunc : ℤ → ℕ → ℤ
mod_trunc a k = sub_ℕ (pos_part a % k) (neg_part a % k)

-- A 128-bit pattern read as an `i128`, and an integer wrapped to one.
unfoldable pub to_i128 : ℕ → ℤ
to_i128 n = sub_ℕ (n % u128_mod) (if ltb (n % u128_mod) (u128_mod / 2) then 0 else u128_mod)

unfoldable pub wrap_i128 : ℤ → ℤ
unfolding to_i128
wrap_i128 z = to_i128 (pos_part z + (u128_mod - neg_part z % u128_mod) % u128_mod)

-- `wrap_i128` leaves what fits as it is.
pub wrap_i128_small : (z : ℤ) → pos_part z + neg_part z < u128_mod / 2 → wrap_i128 z ≡ z
unfolding wrap_i128
wrap_i128_small (pos n) h = ground arith
wrap_i128_small (negsuc n) h = ground arith

-- The same for 64 bits and `i64`.
unfoldable pub to_i64 : ℕ → ℤ
to_i64 n = sub_ℕ (n % u64_mod) (if ltb (n % u64_mod) (u64_mod / 2) then 0 else u64_mod)

unfoldable pub wrap_i64 : ℤ → ℤ
unfolding to_i64
wrap_i64 z = to_i64 (pos_part z + (u64_mod - neg_part z % u64_mod) % u64_mod)

pub wrap_i64_small : (z : ℤ) → pos_part z + neg_part z < u64_mod / 2 → wrap_i64 z ≡ z
unfolding wrap_i64
wrap_i64_small (pos n) h = ground arith
wrap_i64_small (negsuc n) h = ground arith
