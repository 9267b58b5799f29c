-- ===== src/Scalar/Tests.antt =====
-- Runs of the integer operators at the ends of the range of a long.
use fql.Prelude.{ℕ, none, some, ◌≡◌, ◌≢◌, ◌↔◌, ◌⊎◌, refl, ◌^◌, ◌<◌, arith}
use fql.Prelude.Int.{ℤ, pos, negsuc, neg_part, ◌+ℤ◌, ◌-ℤ◌, ◌*ℤ◌}
use fql.Status.{Got, good}
use fql.Scalar.Arith.{
  InLong, overflow_safe_add, overflow_safe_minus, overflow_safe_multiply, done, trap, size,
  op_divi_i, op_mod_i, modi, run_args,
}
use fql.Scalar.Arith.Exact.{
  overflow_safe_add-exact, overflow_safe_minus-exact, overflow_safe_multiply-exact, long_min,
}
use fql.Scalar.Arith.Division.{division_lem}

min_InLong : InLong long_min
min_InLong = ground arith

two_InLong : InLong (pos 2)
two_InLong = ground arith

zero_InLong : InLong (pos 0)
zero_InLong = ground arith

half_InLong : InLong (pos (2 ^ 62))
half_InLong = ground arith

overflow_safe_add-exact_example : overflow_safe_add long_min long_min ≡ some (pos 0)
unfolding ◌+ℤ◌
overflow_safe_add-exact_example = overflow_safe_add-exact long_min long_min min_InLong min_InLong

overflow_safe_minus-exact_example : overflow_safe_minus (pos 0) long_min ≡ some long_min
unfolding ◌-ℤ◌
overflow_safe_minus-exact_example =
    overflow_safe_minus-exact (pos 0) long_min zero_InLong min_InLong

overflow_safe_multiply-exact_example : overflow_safe_multiply (pos (2 ^ 62)) (pos 2) ≡ none
unfolding ◌*ℤ◌
overflow_safe_multiply-exact_example =
    overflow_safe_multiply-exact (pos (2 ^ 62)) (pos 2) half_InLong two_InLong

-- An expression is its value.
abbrev literal : ℤ → ℕ → Got ℤ
literal z r = good z

not_trapped : op_mod_i literal (negsuc 6) (pos 2) 0 ≢ trap
unfolding op_mod_i modi run_args
not_trapped = ground arith

division_lem_example :
    (q : ℤ) × (r : ℤ) × (op_divi_i literal (negsuc 6) (pos 2) 0 ≡ done (good q))
    × (op_mod_i literal (negsuc 6) (pos 2) 0 ≡ done (good r))
    × (q *ℤ pos 2 +ℤ r ≡ negsuc 6)
    × (size r < 2)
    × ((r ≡ pos 0) ⊎ ((neg_part r ≡ 0) ↔ (neg_part (negsuc 6) ≡ 0)))
division_lem_example = division_lem literal (negsuc 6) (pos 2) 0 refl refl not_trapped
