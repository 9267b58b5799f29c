-- ===== src/Scalar/Arith/Exact.antt =====
-- The overflow macros of lib/misc.h against the arithmetic of the integers.
use fql.Prelude.{
  ℕ, zero, suc, ◌+◌, ◌-◌, ◌*◌, ◌/◌, ◌%◌, ◌^◌, ◌<◌, ◌≤◌, Bool, true, false, not, ◌&&◌, ◌||◌, none,
  some, ltb, ◌==◌, if◌then◌else◌, ◌≡◌, refl, ◌↔◌, arith, inl, inr, Bool-cases,
}
use fql.Prelude.Int.{ℤ, pos, negsuc, pos_part, neg_part, sub_ℕ, ◌+ℤ◌, ◌-ℤ◌, ◌*ℤ◌}
use native.Mathlib.Nat.{le-div_iff_mul-le, mul-div_cancel_left, mod-eq_of_lt, mod-lt}
use fql.Scalar.Arith.{
  long_max, InLong, fits, to_u64, from_u64, wrap64, negate, overflow_safe_add, overflow_safe_minus,
  size, magnitude, flipped, bool_to_nat, overflow_safe_multiply,
}

to_u64-parts : (z : ℤ) → InLong z → (neg_part z ≡ 0 → to_u64 z ≡ pos_part z)
unfolding to_u64
to_u64-parts z v e = omega arith

pub wrap64-exact : (z : ℤ) → InLong z → wrap64 z ≡ z
unfolding wrap64
wrap64-exact (pos n) v = ground arith
wrap64-exact (negsuc n) v = ground arith

-- The size of a long as an unsigned long, LONG_MIN included.
pub to_u64-negate : (n : ℕ) → n < 2 ^ 63 → to_u64 (wrap64 (negate (negsuc n))) ≡ suc n
unfolding wrap64
to_u64-negate n h = ground arith

to_u64-pos : (n : ℕ) → n ≤ long_max → to_u64 (pos n) ≡ n
unfolding to_u64
to_u64-pos n h = omega arith

abbrev pub long_min : ℤ
long_min = negsuc long_max

wrap64-double_min : wrap64 (negsuc (2 ^ 64 - 1)) ≡ pos 0
unfolding wrap64
wrap64-double_min = refl

-- Adding two longs fails exactly where the sum is no long and the two are not both the least long;
-- a result is the exact sum where that is a long. (The least long added to itself gives 0.)
pub overflow_safe_add-exact :
    (n0 n1 : ℤ)
    → InLong n0
    → InLong n1
    → overflow_safe_add n0 n1 ≡ (
        if fits (n0 +ℤ n1)
        then some (n0 +ℤ n1)
        else if neg_part n0 == 2 ^ 63 && neg_part n1 == 2 ^ 63
        then some (pos 0)
        else none)
unfolding ◌+ℤ◌
overflow_safe_add-exact (pos a) (pos b) v w =
    unfold overflow_safe_add in
    ground (arith, to_u64-pos a, to_u64-pos b, wrap64-exact (pos (a + b)))
overflow_safe_add-exact (pos a) (negsuc b) v w =
    unfold overflow_safe_add in ground (arith, wrap64-exact (pos a +ℤ negsuc b))
overflow_safe_add-exact (negsuc a) (pos b) v w =
    unfold overflow_safe_add in ground (arith, wrap64-exact (negsuc a +ℤ pos b))
overflow_safe_add-exact (negsuc a) (negsuc b) v w =
    unfold overflow_safe_add in
    ground (
      arith,
      to_u64-negate a,
      to_u64-negate b,
      wrap64-exact (negsuc a +ℤ negsuc b),
      wrap64-double_min,
    )

wrap64-2^63 : wrap64 (pos (2 ^ 63)) ≡ long_min
unfolding wrap64
wrap64-2^63 = refl

-- Subtracting fails exactly where the difference of the two longs is no long and the subtraction
-- is not that of the least long from 0, which gives the least long; a result is the exact
-- difference where that is a long.
pub overflow_safe_minus-exact :
    (n0 n1 : ℤ)
    → InLong n0
    → InLong n1
    → overflow_safe_minus n0 n1 ≡ (
        if fits (n0 -ℤ n1)
        then some (n0 -ℤ n1)
        else if pos_part n0 == 0 && neg_part n0 == 0 && neg_part n1 == 2 ^ 63
        then some long_min
        else none)
unfolding ◌-ℤ◌
overflow_safe_minus-exact (pos a) (pos b) v w =
    unfold overflow_safe_minus in ground (arith, wrap64-exact (pos a -ℤ pos b))
overflow_safe_minus-exact (pos a) (negsuc b) v w =
    unfold overflow_safe_minus in
    ground (arith, to_u64-pos a, to_u64-negate b, wrap64-exact (pos a -ℤ negsuc b), wrap64-2^63)
overflow_safe_minus-exact (negsuc a) (pos b) v w =
    unfold overflow_safe_minus in
    ground (arith, to_u64-negate a, to_u64-pos b, wrap64-exact (negsuc a -ℤ pos b))
overflow_safe_minus-exact (negsuc a) (negsuc b) v w =
    unfold overflow_safe_minus in ground (arith, wrap64-exact (negsuc a -ℤ negsuc b))

magnitude-size : (n : ℤ) → InLong n → magnitude n ≡ size n
magnitude-size (pos a) v = unfold magnitude in ground (arith, to_u64-pos a)
magnitude-size (negsuc a) v = unfold magnitude in ground (arith, to_u64-negate a)

-- The division recovers the other factor exactly where the product did not wrap round.
product_check : (m u0 u1 : ℕ) → 0 < u0 → 0 < m → ((u0 * u1) % m / u0 ≡ u1) ↔ (u0 * u1 < m)
product_check m u0 u1 h k = (
  λ e.
      let low : u1 * u0 ≤ u0 * u1 % m = (le-div_iff_mul-le h).0 (omega (arith, e)) in
      grind (arith, mod-lt),
  λ lt. rw (mod-eq_of_lt lt) (mul-div_cancel_left u1 h),
)

range_test :
    (neg : Bool) (p q u1 : ℕ)
    → (q ≡ u1) ↔ (p < 2 ^ 64)
    → (not (q == u1) || ltb ((long_max + bool_to_nat neg) % 2 ^ 64) (p % 2 ^ 64))
      ≡ ltb (long_max + bool_to_nat neg) p
range_test true p q u1 h = ground arith
range_test false p q u1 h = ground arith

-- The code's test says whether the product is beyond the range on its side.
multiply_test :
    (neg : Bool) (u0 u1 : ℕ)
    → (not (u0 == 0)
        && (not (u0 * u1 % 2 ^ 64 / u0 == u1)
            || ltb ((long_max + bool_to_nat neg) % 2 ^ 64) (u0 * u1 % 2 ^ 64)))
      ≡ ltb (long_max + bool_to_nat neg) (u0 * u1)
multiply_test neg zero u1 = ground arith
multiply_test neg (suc k) u1 =
    let q = suc k * u1 % 2 ^ 64 / suc k in
    let nonzero : (suc k == 0) ≡ false = ground arith in
    rw nonzero (
      range_test neg (suc k * u1) q u1
        (product_check (2 ^ 64) (suc k) u1 (omega arith) (omega arith)))

*ℤ-size :
    (n0 n1 : ℤ)
    → n0 *ℤ n1 ≡ (if flipped n0 n1 then sub_ℕ 0 (size n0 * size n1) else pos (size n0 * size n1))
unfolding ◌*ℤ◌
*ℤ-size (pos a) (pos b) = ground arith
*ℤ-size (pos a) (negsuc b) = ground arith
*ℤ-size (negsuc a) (pos b) = ground arith
*ℤ-size (negsuc a) (negsuc b) = ground arith

from_u64-neg : (p : ℕ) → p ≤ 2 ^ 63 → from_u64 ((2 ^ 64 - 1) * (p % 2 ^ 64)) ≡ sub_ℕ 0 p
unfolding from_u64
from_u64-neg p h = ground arith

from_u64-pos : (p : ℕ) → p ≤ long_max → from_u64 (p % 2 ^ 64) ≡ pos p
unfolding from_u64
from_u64-pos p h = ground arith

-- Multiplying two longs gives the exact product where that is a long, and fails elsewhere.
pub overflow_safe_multiply-exact :
    (n0 n1 : ℤ)
    → InLong n0
    → InLong n1
    → overflow_safe_multiply n0 n1 ≡ (if fits (n0 *ℤ n1) then some (n0 *ℤ n1) else none)
unfolding overflow_safe_multiply
overflow_safe_multiply-exact n0 n1 v w =
    rw
      (
        magnitude-size n0 v,
        magnitude-size n1 w,
        multiply_test (flipped n0 n1) (size n0) (size n1),
        *ℤ-size n0 n1,
      )
      (elim (Bool-cases (flipped n0 n1)) [
        | inl e ↦ rw e (ground (arith, from_u64-neg (size n0 * size n1)))
        | inr e ↦ rw e (ground (arith, from_u64-pos (size n0 * size n1)))
      ])
