-- ===== src/Aggregate.antt =====
-- lib/aggregatefn.c: the aggregate functions, and the part of lib/group.c that calls them for each row
-- of a group. A row is what the argument's getter returns for it.
pub mod Extreme
pub mod Total
mod Tests
use fql.Prelude.{
  ℕ, ◌+◌, ◌%◌, ◌^◌, Bool, true, false, ◌||◌, Option, none, some, List, [], ◌∷◌, ◌==◌, if◌then◌else◌,
}
use fql.Prelude.Int.{ℤ, pos, ltb_ℤ, ◌+ℤ◌}
use fql.Status.{Got, good, null, fail, ◌>>=◌}
use fql.Text.{Text, compare_nocase_rtrim}
use fql.Scalar.Arith.{overflow_safe_add, quotient}

-- `struct aggresult` for one type of the union.
pub record AggResult (A : Type 0) : Type 0 where
  pub data_ : A
  pub auxdata : A
  pub qty : ℕ

-- `try_` on a getter: the variable holds `zero` where the value is NULL, since it starts with it
-- and the getter stores it.
abbrev pub read : {A : Type 0} → A → Got A → Option A
read zero_value (good a) = some a
read zero_value null = some zero_value
read zero_value fail = none

-- The arguments of COUNT are not looked at.
unfoldable pub fql_count : {A : Type 0} → AggResult ℤ → Got A → Option (AggResult ℤ)
unfolding ◌+ℤ◌
fql_count result row = some (record result { data_ = result.data_ +ℤ pos 1 })

-- MIN and MAX keep their first value, and then each one that is before the last kept.
abbrev pub keep : {A : Type 0} → (A → A → Bool) → A → AggResult A → Got A → Option (AggResult A)
keep before zero_value result row = read zero_value row >>= λ num.
    some
      (if result.qty == 0 || before num result.data_ then record result { data_ = num } else result)

unfoldable pub fql_min_i : AggResult ℤ → Got ℤ → Option (AggResult ℤ)
fql_min_i = keep (λ a b. ltb_ℤ a b) (pos 0)

unfoldable pub fql_max_i : AggResult ℤ → Got ℤ → Option (AggResult ℤ)
fql_max_i = keep (λ a b. ltb_ℤ b a) (pos 0)

unfoldable pub fql_min_s : AggResult Text → Got Text → Option (AggResult Text)
fql_min_s = keep (λ a b. ltb_ℤ (compare_nocase_rtrim a b) (pos 0)) []

unfoldable pub fql_max_s : AggResult Text → Got Text → Option (AggResult Text)
fql_max_s = keep (λ a b. ltb_ℤ (pos 0) (compare_nocase_rtrim a b)) []

-- On doubles, whose order, sum and quotient are C's.
module _ {D : Type 0} (float_lt : D → D → Bool) (float_add : D → D → D) (float_div : D → ℕ → D)
    (float_zero : D) where
  unfoldable pub fql_min_f : AggResult D → Got D → Option (AggResult D)
  fql_min_f = keep (λ a b. float_lt a b) float_zero

  unfoldable pub fql_max_f : AggResult D → Got D → Option (AggResult D)
  fql_max_f = keep (λ a b. float_lt b a) float_zero

  unfoldable pub fql_sum_f : AggResult D → Got D → Option (AggResult D)
  fql_sum_f result row =
      read float_zero row >>= λ num. some (record result { data_ = float_add result.data_ num })

  unfoldable pub fql_avg_f : AggResult D → Got D → Option (AggResult D)
  fql_avg_f result row = read float_zero row >>= λ num.
      let total = float_add result.auxdata num in
      some (record result { auxdata = total; data_ = float_div total ((result.qty + 1) % 2 ^ 32) })

unfoldable pub fql_sum_i : AggResult ℤ → Got ℤ → Option (AggResult ℤ)
fql_sum_i result row = read (pos 0) row >>= λ num.
    overflow_safe_add result.data_ num >>= λ sum. some (record result { data_ = sum })

-- The running total is in `auxdata`. The division by a count that has wrapped round to 0 is a
-- fault, `none` here.
unfoldable pub fql_avg_i : AggResult ℤ → Got ℤ → Option (AggResult ℤ)
fql_avg_i result row = read (pos 0) row >>= λ num. overflow_safe_add result.auxdata num >>= λ sum.
    let n = (result.qty + 1) % 2 ^ 32 in
    if n == 0 then none else some (record result { auxdata = sum; data_ = quotient sum (pos n) })

module _ {A R : Type 0} (call : AggResult A → R → Option (AggResult A)) where
  -- `_update_agg_result` for one aggregate.
  unfoldable pub update_agg_result : AggResult A → R → Option (AggResult A)
  update_agg_result result row =
      call result row >>= λ r. some (record r { qty = (r.qty + 1) % 2 ^ 32 })

  -- `_add_agg_result` starts from zeroed memory.
  unfoldable pub add_agg_result : A → R → Option (AggResult A)
  unfolding update_agg_result
  add_agg_result zero_value row =
      update_agg_result (record { data_ = zero_value; auxdata = zero_value; qty = 0 }) row

  -- The rows of a group after the first.
  unfoldable pub update_all : AggResult A → List R → Option (AggResult A)
  update_all result [] = some result
  update_all result (row ∷ rows) = update_agg_result result row >>= λ r. update_all r rows

  -- The result of a group with its first row.
  unfoldable pub group_result : A → R → List R → Option (AggResult A)
  unfolding update_all
  group_result zero_value row rows = add_agg_result zero_value row >>= λ r. update_all r rows
