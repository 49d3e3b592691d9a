-- ===== src/Executor/Fees/Bounds.antt =====
-- The bounds of the fee jitter (`apply_pct_jitter` of mint-sniper/src/executor.rs).
use native.Mathlib.Nat.{mul-le-mul_left}
use seasniper.Common.{ℕ, suc, ◌+◌, ◌-◌, ◌*◌, ◌/◌, ◌≤◌, ◌<◌, ◌≡◌, arith}
use seasniper.Common.Int.{
  ℤ, pos, negsuc, pos_part, neg_part, unsigned_abs, sub_ℕ, ◌+ℤ◌, ◌*ℤ◌, div_trunc, to_i128,
  wrap_i128_small,
}
use seasniper.Executor.Fees.{apply_pct_jitter}

-- 2 ^ 120: a hundred times as much is still an `i128`.
abbrev pub fee_bound : ℕ
fee_bound = 1329227995784915872903807060280344576

to_i128_small : (value : ℕ) → value < fee_bound → to_i128 value ≡ pos value
unfolding to_i128
to_i128_small value small = ground arith

-- The product before the division, on either side of zero.
up : (value n : ℕ) → pos value *ℤ pos n ≡ pos (value * n)
unfolding ◌*ℤ◌
up value n = ground arith

scaled_small : (value n : ℕ) → value < fee_bound → n ≤ 100 → value * n < 1 + fee_bound * 100
scaled_small value n small h = omega (arith, small, mul-le-mul_left value h)

up_case :
    (value n : ℕ)
    → value < fee_bound
    → n ≤ 100
    → apply_pct_jitter value (pos n) ≡ value + value * n / 100
unfolding apply_pct_jitter div_trunc ◌+ℤ◌
up_case value n small h =
    let product = wrap_i128_small (pos (value * n)) (omega (arith, scaled_small value n small h)) in
    let total =
      wrap_i128_small (pos (value + value * n / 100))
        (omega (arith, scaled_small value n small h)) in
    rw (to_i128_small value small, up value n, product) (ground (arith, total))

down : (value m : ℕ) → pos value *ℤ negsuc m ≡ sub_ℕ 0 (value * suc m)
unfolding ◌*ℤ◌
down value m = ground arith

minus_div : (p : ℕ) → div_trunc (sub_ℕ 0 p) 100 ≡ sub_ℕ 0 (p / 100)
unfolding div_trunc
minus_div p = ground arith

plus_minus : (value d : ℕ) → d ≤ value → pos value +ℤ sub_ℕ 0 d ≡ pos (value - d)
unfolding ◌+ℤ◌
plus_minus value d h = ground arith

minus_size : (p : ℕ) → pos_part (sub_ℕ 0 p) + neg_part (sub_ℕ 0 p) ≡ p
minus_size p = ground arith

down_case :
    (value m : ℕ)
    → value < fee_bound
    → suc m ≤ 100
    → apply_pct_jitter value (negsuc m) ≡ value - value * suc m / 100
unfolding apply_pct_jitter
down_case value m small h =
    let p : ℕ = value * suc m in
    let scaled : p ≤ value * 100 = mul-le-mul_left value h in
    let product =
      wrap_i128_small (sub_ℕ 0 p)
        (omega (arith, minus_size p, scaled_small value (suc m) small h)) in
    let total = wrap_i128_small (pos (value - p / 100)) (omega (arith, small)) in
    rw
      (
        to_i128_small value small,
        down value m,
        product,
        minus_div p,
        plus_minus value (p / 100) (omega (arith, scaled)),
        total,
      )
      (ground arith)

-- For a fee below 2 ^ 120 wei and a percentage from -100 to 100 the jitter adds or
-- takes off exactly that percentage of the fee, rounded down: no 128-bit operation overflows.
pub apply_pct_jitter-exact :
    (value : ℕ) (pct : ℤ)
    → value < fee_bound
    → unsigned_abs pct ≤ 100
    → apply_pct_jitter value pct ≡ value + value * pos_part pct / 100 - value * neg_part pct / 100
apply_pct_jitter-exact value (pos n) small h =
    rw (up_case value n small (omega (arith, h))) (ground arith)
apply_pct_jitter-exact value (negsuc m) small h =
    rw (down_case value m small (omega (arith, h))) (ground arith)
