-- ===== src/Scalar/Arith.antt =====
-- The overflow macros of lib/misc.h and the integer operators of lib/scalarfn.c. A long is an
-- integer in the range `InLong`; where C's signed arithmetic leaves the range the model wraps round,
-- as the machine does. An integer division that the machine traps (SIGFPE) is `trap`.
pub mod Exact
pub mod Division
use Prim.Native.Nat.{bit_and, bit_or, bit_xor}
use fql.Prelude.{
  ℕ, ◌+◌, ◌-◌, ◌*◌, ◌/◌, ◌%◌, ◌^◌, ◌<◌, ◌≤◌, Bool, true, false, not, ◌&&◌, ◌||◌, Option, none, some,
  ltb, leb, ◌==◌, if◌then◌else◌,
}
use fql.Prelude.Int.{ℤ, pos, negsuc, pos_part, neg_part, sub_ℕ, ltb_ℤ, ◌+ℤ◌, ◌-ℤ◌, ◌*ℤ◌}
use fql.Status.{Got, good, null, fail, try_deref, got_of}

abbrev pub long_max : ℕ
long_max = 2 ^ 63 - 1

pub record InLong (z : ℤ) : Type 0 where
  pub above : neg_part z ≤ 2 ^ 63
  pub below : pos_part z ≤ long_max

abbrev pub fits : ℤ → Bool
fits z = leb (neg_part z) (2 ^ 63) && leb (pos_part z) long_max

-- `(unsigned long)z`
unfoldable pub to_u64 : ℤ → ℕ
to_u64 z = (pos_part z % 2 ^ 64 + (2 ^ 64 - neg_part z % 2 ^ 64)) % 2 ^ 64

-- An unsigned long stored in a long.
unfoldable pub from_u64 : ℕ → ℤ
from_u64 w =
    if leb (w % 2 ^ 64) long_max then pos (w % 2 ^ 64) else negsuc (2 ^ 64 - w % 2 ^ 64 - 1)

unfoldable pub wrap64 : ℤ → ℤ
unfolding to_u64 from_u64
wrap64 z = from_u64 (to_u64 z)

-- `-z`, as an integer.
abbrev pub negate : ℤ → ℤ
negate z = sub_ℕ (neg_part z) (pos_part z)

-- `overflow_safe_add_i`; `none` is the return of FQL_FAIL.
unfoldable pub overflow_safe_add : ℤ → ℤ → Option ℤ
unfolding ◌+ℤ◌
overflow_safe_add n0 n1 =
    if ltb_ℤ (pos 0) n0 && ltb_ℤ (pos 0) n1 && ltb long_max ((to_u64 n0 + to_u64 n1) % 2 ^ 64)
    then none
    else if ltb_ℤ n0 (pos 0)
        && ltb_ℤ n1 (pos 0)
        && ltb (long_max + 1) ((to_u64 (wrap64 (negate n0)) + to_u64 (wrap64 (negate n1))) % 2 ^ 64)
    then none
    else some (wrap64 (n0 +ℤ n1))

unfoldable pub overflow_safe_minus : ℤ → ℤ → Option ℤ
unfolding ◌-ℤ◌
overflow_safe_minus n0 n1 =
    if ltb_ℤ (pos 0) n0
      && ltb_ℤ n1 (pos 0)
      && ltb long_max ((to_u64 n0 + to_u64 (wrap64 (negate n1))) % 2 ^ 64)
    then none
    else if ltb_ℤ n0 (pos 0)
        && ltb_ℤ (pos 0) n1
        && ltb (long_max + 1) ((to_u64 (wrap64 (negate n0)) + to_u64 n1) % 2 ^ 64)
    then none
    else some (wrap64 (n0 -ℤ n1))

-- `u0_` and `u1_`: the size of a factor.
unfoldable pub magnitude : ℤ → ℕ
magnitude n = if ltb_ℤ n (pos 0) then to_u64 (wrap64 (negate n)) else to_u64 n

-- `neg_` after both factors.
abbrev pub flipped : ℤ → ℤ → Bool
flipped n0 n1 = if ltb_ℤ n1 (pos 0) then not (ltb_ℤ n0 (pos 0)) else ltb_ℤ n0 (pos 0)

abbrev pub bool_to_nat : Bool → ℕ
bool_to_nat true = 1
bool_to_nat false = 0

-- `product` is `u0_ * u1_` before it wraps round.
unfoldable pub overflow_safe_multiply : ℤ → ℤ → Option ℤ
overflow_safe_multiply n0 n1 =
    let u0 = magnitude n0 in
    let u1 = magnitude n1 in
    let neg = flipped n0 n1 in
    let result = (u0 * u1) % 2 ^ 64 in
    if not (u0 == 0)
      && (not (result / u0 == u1) || ltb ((long_max + bool_to_nat neg) % 2 ^ 64) result)
    then none
    else some (if neg then from_u64 ((2 ^ 64 - 1) * result) else from_u64 result)

-- An operator that the machine may trap.
pub data Run (A : Type 0) : Type 0 where
  done : Got A → Run A
  trap : Run A

-- C's `/` and `%` round to 0; the remainder has the sign of the dividend.
abbrev pub signed : Bool → ℕ → ℤ
signed true n = sub_ℕ 0 n
signed false n = pos n

abbrev pub size : ℤ → ℕ
size z = pos_part z + neg_part z

abbrev pub is_neg : ℤ → Bool
is_neg z = ltb_ℤ z (pos 0)

abbrev pub quotient : ℤ → ℤ → ℤ
quotient n0 n1 = signed (if is_neg n0 then not (is_neg n1) else is_neg n1) (size n0 / size n1)

abbrev pub remainder : ℤ → ℤ → ℤ
remainder n0 n1 = signed (is_neg n0) (size n0 % size n1)

-- The one quotient that is no long.
abbrev pub quotient_overflows : ℤ → ℤ → Bool
quotient_overflows n0 n1 = neg_part n0 == 2 ^ 63 && neg_part n1 == 1

-- `fql_op_divi_i` and `fql_op_mod_i` on their arguments; the latter does not test for 0.
unfoldable pub divi : ℤ → ℤ → Run ℤ
divi n0 n1 =
    if size n1 == 0
    then done fail
    else if quotient_overflows n0 n1
    then trap
    else done (good (quotient n0 n1))

unfoldable pub modi : ℤ → ℤ → Run ℤ
modi n0 n1 =
    if size n1 == 0
    then trap
    else if quotient_overflows n0 n1
    then trap
    else done (good (remainder n0 n1))

module _ {E R : Type 0} (get_int : E → R → Got ℤ) where
  -- Both arguments, the first one first.
  with_args {ℓ} : {A : Type ℓ} → (ℤ → ℤ → Got A) → E → E → R → Got A
  with_args f e0 e1 rg = try_deref (get_int e0 rg) λ n0. try_deref (get_int e1 rg) λ n1. f n0 n1

  unfoldable pub op_plus_i : E → E → R → Got ℤ
  unfolding with_args
  op_plus_i = with_args λ n0 n1. got_of (overflow_safe_add n0 n1)

  unfoldable pub op_minus_i : E → E → R → Got ℤ
  unfolding with_args
  op_minus_i = with_args λ n0 n1. got_of (overflow_safe_minus n0 n1)

  unfoldable pub op_mult_i : E → E → R → Got ℤ
  unfolding with_args
  op_mult_i = with_args λ n0 n1. got_of (overflow_safe_multiply n0 n1)

  -- Both arguments of an operator that may trap.
  unfoldable pub run_args : (ℤ → ℤ → Run ℤ) → E → E → R → Run ℤ
  run_args f e0 e1 rg = elim (get_int e0 rg) [
    | null ↦ done null
    | fail ↦ done fail
    | good n0 ↦ elim (get_int e1 rg) [ null ↦ done null | fail ↦ done fail | good n1 ↦ f n0 n1 ]
  ]

  unfoldable pub op_divi_i : E → E → R → Run ℤ
  op_divi_i = run_args divi

  unfoldable pub op_mod_i : E → E → R → Run ℤ
  op_mod_i = run_args modi

  unfoldable pub op_bit_or : E → E → R → Got ℤ
  unfolding with_args to_u64 from_u64
  op_bit_or = with_args λ n0 n1. good (from_u64 (bit_or (to_u64 n0) (to_u64 n1)))

  unfoldable pub op_bit_and : E → E → R → Got ℤ
  unfolding with_args to_u64 from_u64
  op_bit_and = with_args λ n0 n1. good (from_u64 (bit_and (to_u64 n0) (to_u64 n1)))

  unfoldable pub op_bit_xor : E → E → R → Got ℤ
  unfolding with_args to_u64 from_u64
  op_bit_xor = with_args λ n0 n1. good (from_u64 (bit_xor (to_u64 n0) (to_u64 n1)))

  -- `~` turns every bit of the 64.
  unfoldable pub op_bit_not : E → R → Got ℤ
  unfolding to_u64 from_u64
  op_bit_not e rg = try_deref (get_int e rg) λ n0. good (from_u64 (2 ^ 64 - 1 - to_u64 n0))

  unfoldable pub op_unary_minus_i : E → R → Got ℤ
  unfolding wrap64
  op_unary_minus_i e rg =
      try_deref (get_int e rg)
        λ n0. if neg_part n0 == 2 ^ 63 then fail else good (wrap64 (negate n0))
