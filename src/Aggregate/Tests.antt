-- ===== src/Aggregate/Tests.antt =====
-- The aggregates on the group 5, NULL, -3.
use fql.Prelude.{List, [], ◌∷◌, ◌≡◌, refl, some, arith}
use fql.Prelude.Int.{ℤ, pos, negsuc, ◌≤ℤ◌, ◌+ℤ◌}
use fql.Status.{Got, good, null}
use fql.Aggregate.{AggResult, fql_count, fql_min_i, fql_max_i, fql_sum_i, fql_avg_i, group_result}
use fql.Aggregate.Extreme.{
  Values, none_left, a_value, a_null, In, All, fql_min_i-least, fql_max_i-greatest,
}
use fql.Aggregate.Total.{data_of, Summand, fql_sum_i-checked, fql_avg_i-checked, fql_count-length}

abbrev later_rows : List (Got ℤ)
later_rows = null ∷ good (negsuc 2) ∷ []

abbrev later_values : List ℤ
later_values = pos 0 ∷ negsuc 2 ∷ []

read_later : Values (pos 0) later_rows later_values
read_later = a_null _ _ (a_value (negsuc 2) [] [] none_left)

read_all : Values (pos 0) (good (pos 5) ∷ later_rows) (pos 5 ∷ later_values)
read_all = a_value (pos 5) later_rows later_values read_later

summands : All Summand (pos 5 ∷ later_values)
summands =
    ((omega arith, omega arith), ((omega arith, omega arith), ((omega arith, omega arith), tt)))

fql_min_i-least_example :
    (r : AggResult ℤ) × (group_result fql_min_i (pos 0) (good (pos 5)) later_rows ≡ some r)
    × In r.data_ (pos 5 ∷ later_values)
    × All (λ w. r.data_ ≤ℤ w) (pos 5 ∷ later_values)
fql_min_i-least_example =
    fql_min_i-least (good (pos 5)) later_rows (pos 5) later_values refl read_later (omega arith)

greatest_of_three :
    (r : AggResult ℤ) × (group_result fql_max_i (pos 0) (good (pos 5)) later_rows ≡ some r)
    × In r.data_ (pos 5 ∷ later_values)
    × All (λ w. w ≤ℤ r.data_) (pos 5 ∷ later_values)
greatest_of_three =
    fql_max_i-greatest (good (pos 5)) later_rows (pos 5) later_values refl read_later (omega arith)

fql_sum_i-checked_example :
    data_of (group_result fql_sum_i (pos 0) (good (pos 5)) later_rows) ≡ some (pos 2)
unfolding ◌+ℤ◌
fql_sum_i-checked_example =
    fql_sum_i-checked (good (pos 5)) later_rows (pos 5 ∷ later_values) read_all summands

-- The NULL is a third row.
fql_avg_i-checked_example :
    data_of (group_result fql_avg_i (pos 0) (good (pos 5)) later_rows) ≡ some (pos 0)
unfolding ◌+ℤ◌
fql_avg_i-checked_example =
    fql_avg_i-checked (good (pos 5)) later_rows (pos 5 ∷ later_values) read_all summands
      (omega arith)

fql_count-length_example :
    data_of (group_result fql_count (pos 0) (good (pos 5)) later_rows) ≡ some (pos 3)
fql_count-length_example = fql_count-length (good (pos 5)) later_rows
