-- ===== src/Common/Words.antt =====
-- Machine words as native numbers: the wrap of each width is written out, and so is saturation.
use Prim.Native.Nat.{ℕ, ◌-◌, ◌%◌, min}

abbrev pub u16_mod : ℕ
u16_mod = 65536

abbrev pub u64_mod : ℕ
u64_mod = 18446744073709551616

abbrev pub u128_mod : ℕ
u128_mod = 340282366920938463463374607431768211456

abbrev pub u256_mod : ℕ
u256_mod = 115792089237316195423570985008687907853269984665640564039457584007913129639936

abbrev pub wrap_u64 : ℕ → ℕ
wrap_u64 n = n % u64_mod

abbrev pub wrap_u128 : ℕ → ℕ
wrap_u128 n = n % u128_mod

abbrev pub wrap_u256 : ℕ → ℕ
wrap_u256 n = n % u256_mod

-- `saturating_add` and `saturating_mul` of each width.
abbrev pub saturate_u64 : ℕ → ℕ
saturate_u64 n = min n (u64_mod - 1)

abbrev pub saturate_u128 : ℕ → ℕ
saturate_u128 n = min n (u128_mod - 1)

abbrev pub saturate_u256 : ℕ → ℕ
saturate_u256 n = min n (u256_mod - 1)
