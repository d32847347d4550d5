-- ===== src/Float/Fixed.antt =====
-- An executable instance of the interface, for concrete inputs: fixed point with nine decimals, and
-- `none` for NaN. It shows that the laws of Float/Laws can be met.
use native.Mathlib.Nat.{
  div-mul-le_self, le-div_iff_mul-le, le_of_mul-le-mul_right, mul-le-mul_right, one-le-pow,
}
use crypto_scalper.Prelude.{
  ℕ, zero, suc, ◌+◌, ◌*◌, ◌/◌, ◌^◌, ◌≤◌, ◌<◌, refl, Bool, false, leb, if◌then◌else◌, Option, none,
  some, is_some, arith,
}
use crypto_scalper.Prelude.Int.{
  pos_part, ℤ, pos, negsuc, ◌+ℤ◌, ◌-ℤ◌, ◌*ℤ◌, ltb_ℤ, leb_ℤ, quot_ℤ, sub_ℕ, rem_euclid,
}
use crypto_scalper.Float.{Float}
use crypto_scalper.Float.Laws.{IsOrdered, IsRounded}

abbrev pub Fixed : Type 0
Fixed = Option ℤ

abbrev pub scale : ℕ
scale = 1000000000

abbrev on_numbers : (ℤ → ℤ → Fixed) → Fixed → Fixed → Fixed
on_numbers g (some a) (some b) = g a b
on_numbers g _ _ = none

abbrev test_numbers : (ℤ → ℤ → Bool) → Fixed → Fixed → Bool
test_numbers g (some a) (some b) = g a b
test_numbers g _ _ = false

abbrev abs_ℤ : ℤ → ℤ
abs_ℤ (pos n) = pos n
abs_ℤ (negsuc n) = pos (suc n)

abbrev neg_ℤ : ℤ → ℤ
neg_ℤ (pos n) = sub_ℕ 0 n
neg_ℤ (negsuc n) = pos (suc n)

abbrev div_ℤ : ℤ → ℤ → Fixed
div_ℤ a (pos zero) = none
div_ℤ a (pos (suc n)) = some (quot_ℤ a (suc n))
div_ℤ a (negsuc n) = some (neg_ℤ (quot_ℤ a (suc n)))

-- The root, rounded down, by bisection on the bits.
abbrev root_from : ℕ → ℕ → ℕ → ℕ
root_from zero n r = r
root_from (suc k) n r = root_from k n (let r' = r + 2 ^ k in if leb (r' * r') n then r' else r)

abbrev root_ℤ : ℤ → Fixed
root_ℤ (pos n) = some (pos (root_from 64 (n * scale) 0))
root_ℤ (negsuc n) = none

abbrev unary : (ℤ → Fixed) → Fixed → Fixed
unary g none = none
unary g (some a) = g a

abbrev select : (ℤ → ℤ → Bool) → Fixed → Fixed → Fixed
select g (some a) (some b) = if g a b then some a else some b
select g none y = y
select g x none = x

abbrev to_i32 : Fixed → ℤ
to_i32 none = pos 0
to_i32 (some a) = quot_ℤ a scale

abbrev floor_ℤ : ℤ → ℤ
floor_ℤ a = a -ℤ pos (rem_euclid a scale)

-- Half a unit away from zero, and what is left of a unit cut off.
abbrev round_ℤ : ℤ → ℤ
round_ℤ (pos n) = pos ((n + 500000000) / scale * scale)
round_ℤ (negsuc n) = neg_ℤ (pos ((n + 500000001) / scale * scale))

-- The digits behind the first one, for a value of at least one.
abbrev digits_from : ℕ → ℕ → ℕ → ℕ
digits_from zero n k = k
digits_from (suc fuel) n k = digits_from fuel (n / 10) (if leb 10 n then k + 1 else k)

abbrev log10_ℤ : ℤ → Fixed
log10_ℤ (pos n) = if leb scale n then some (pos (digits_from 64 (n / scale) 0 * scale)) else none
log10_ℤ (negsuc n) = none

-- `log10` gives the whole part of the logarithm of a value of at least one.
-- `dec m e` rounds down, and there is no infinity but the value of a large number.
instance abbrev pub fixed_float : Float Fixed
fixed_float = record {
  dec = λ m e. some (pos (m * scale / 10 ^ e));
  infinity = some (pos (scale * scale * scale));
  add = on_numbers (λ a b. some (a +ℤ b));
  sub = on_numbers (λ a b. some (a -ℤ b));
  mul = on_numbers (λ a b. some (quot_ℤ (a *ℤ b) scale));
  div = on_numbers (λ a b. div_ℤ (a *ℤ pos scale) b);
  neg = unary (λ a. some (neg_ℤ a));
  abs = unary (λ a. some (abs_ℤ a));
  sqrt = unary root_ℤ;
  min = select leb_ℤ;
  max = select (λ a b. leb_ℤ b a);
  lt = test_numbers ltb_ℤ;
  le = test_numbers leb_ℤ;
  is_finite = is_some;
  of_ℕ = λ n. some (pos (n * scale));
  round_ℕ = λ x. pos_part (to_i32 (on_numbers (λ a b. some (a +ℤ b)) x (some (pos 500000000))));
  log10 = unary log10_ℤ;
  floor = unary (λ a. some (floor_ℤ a));
  ceil = unary (λ a. some (neg_ℤ (floor_ℤ (neg_ℤ a))));
  round = unary (λ a. some (round_ℤ a));
  to_usize = λ x. pos_part (to_i32 x);
  to_ℤ = to_i32;
}

-- A larger fraction, scaled and rounded down, is not smaller.
scaled_mono : (m n p q : ℕ) → 0 < p → 0 < q → m * p ≤ n * q → m * scale / q ≤ n * scale / p
scaled_mono m n p q hp hq h =
    let d = m * scale / q in
    let below : d * q ≤ m * scale = div-mul-le_self (m * scale) q in
    (le-div_iff_mul-le hp).1 (
      le_of_mul-le-mul_right {k = q}
        (omega (arith, mul-le-mul_right p below, mul-le-mul_right scale h)) hq)

pow_pos : (e : ℕ) → 0 < 10 ^ e
pow_pos e = one-le-pow e 10 (omega arith)

pub Fixed-IsOrdered : IsOrdered Fixed
Fixed-IsOrdered = record {
  numbers_of_le = λ x y. ground arith;
  le_trans = λ x y z. ground arith;
  le_of_lt = λ x y. ground arith;
  lt-eq-not-le = λ x y. ground arith;
  dec_mono =
      λ m e n k h. ground (arith, scaled_mono m n (10 ^ k) (10 ^ e) (pow_pos k) (pow_pos e) h);
  finite_number = λ x. ground arith;
  min_choice = λ x y. ground arith;
  max_choice = λ x y. ground arith;
  min-le_left = λ x y. ground arith;
  min-le_right = λ x y. ground arith;
  le-max_left = λ x y. ground arith;
  le-max_right = λ x y. ground arith;
}

pub Fixed-IsRounded : IsRounded Fixed
Fixed-IsRounded = record {
  dec_finite = λ m e h. refl;
  abs_sub_self = λ x. ground arith;
  div_nonpos = λ x y. ground arith;
  lit_positive = λ n h. ground arith;
  mul_nonpos = λ x y. ground arith;
  mul_zero = λ x. ground arith;
  half-le = λ x. ground arith;
  to_ℤ_le = λ x n. ground arith;
  le_to_ℤ = λ x. ground arith;
}
