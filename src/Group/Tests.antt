-- ===== src/Group/Tests.antt =====
-- A group of three rows with a key and two aggregates.
use fql.Prelude.{ℕ, ◌+◌, Option, none, some, List, [], ◌∷◌, ◌≡◌, refl, arith}
use fql.Prelude.Int.{ℤ, pos}
use fql.Status.{Got, good, null, ◌>>=◌}
use fql.Text.{Text, tolower}
use fql.Field.{FieldType, field_int, field_string}
use fql.Aggregate.{AggResult, add_agg_result, update_agg_result, update_all, group_result}
use fql.Group.Buckets.{Bucket}
use fql.Group.{GroupExpr, expr_aggregate, expr_key, group_reset}
use fql.Group.Values.{row_key}
use fql.Group.Run.{record_all, dump_all}
use fql.Group.Lines.{query_group, group-lines, reset-lines}

-- A row has a name and a number; an expression is the column that it reads.
abbrev Row : Type 0
Row = Text × ℕ

data Column : Type 0 where
  name no_name amount : Column

abbrev get_int : Column → Row → Got ℤ
get_int name rg = null
get_int no_name rg = null
get_int amount rg = good (pos rg.1)

abbrev get_float : Column → Row → Got ℕ
get_float column rg = null

-- An empty name is NULL, which a function returns without a view.
abbrev get_string : Column → Row → Option Text → Option (Option Text)
get_string name ([], n) sv = some sv
get_string name (c ∷ cs, n) sv = some (some (c ∷ cs))
get_string no_name rg sv = some sv
get_string amount rg sv = none

abbrev show_int : ℤ → Text
show_int z = b'#' ∷ []

abbrev show_nat : ℕ → Text
show_nat n = n ∷ []

-- The aggregates: the sum of the numbers, and the number of the last row.
data Fn : Type 0 where
  sum last : Fn

abbrev call : Fn → AggResult ℕ → Row → Option (AggResult ℕ)
call sum result rg = some (record result { data_ = result.data_ + rg.1 })
call last result rg = some (record result { data_ = rg.1 })

abbrev zero_data : Fn → ℕ
zero_data fn = 0

abbrev data_type : Fn → FieldType
data_type fn = field_int

abbrev exprs : List (GroupExpr Column)
exprs =
    record { expr = name; kind = expr_key; field_type = field_string }
    ∷ record { expr = amount; kind = expr_aggregate 0; field_type = field_int }
    ∷ record { expr = amount; kind = expr_aggregate 1; field_type = field_int }
    ∷ []

-- A name that is NULL behind another key has the key before it; in front there is no key.
abbrev two_names : List (GroupExpr Column)
two_names =
    record { expr = name; kind = expr_key; field_type = field_string }
    ∷ record { expr = no_name; kind = expr_key; field_type = field_string }
    ∷ []

stale_key :
    row_key 0 get_int get_float get_string show_int show_nat two_names (b'a' ∷ [], 3) none
    ≡ some ((b'a' ∷ []) ∷ (b'a' ∷ []) ∷ [])
stale_key = refl

no_key : row_key 0 get_int get_float get_string show_int show_nat two_names ([], 3) none ≡ none
no_key = refl

abbrev rows : List Row
rows = (b'a' ∷ [], 3) ∷ (b'b' ∷ [], 5) ∷ (b'A' ∷ b' ' ∷ [], 4) ∷ []

abbrev recs : List (List Text)
recs = ([] ∷ [] ∷ [] ∷ []) ∷ ([] ∷ [] ∷ [] ∷ []) ∷ ([] ∷ [] ∷ [] ∷ []) ∷ []

abbrev lines : List (List Text)
lines = ((b'a' ∷ []) ∷ (7 ∷ []) ∷ (4 ∷ []) ∷ []) ∷ ((b'b' ∷ []) ∷ (5 ∷ []) ∷ (5 ∷ []) ∷ []) ∷ []

abbrev buckets : List (Bucket Row)
buckets =
    record { key = (b'a' ∷ []) ∷ []; first = (b'a' ∷ [], 3); rest = (b'A' ∷ b' ' ∷ [], 4) ∷ [] }
    ∷ record { key = (b'b' ∷ []) ∷ []; first = (b'b' ∷ [], 5); rest = [] }
    ∷ []

abbrev result : ℕ → ℕ → AggResult ℕ
result n qty = record { data_ = n; auxdata = 0; qty = qty }

group-lines_example :
    (query_group exprs (sum ∷ last ∷ []) >>= λ start.
    record_all 0 get_int get_float get_string show_int show_nat call zero_data start rows
    >>= λ self. dump_all data_type show_nat show_nat show_nat self recs)
    ≡ some lines
unfolding add_agg_result update_agg_result update_all group_result tolower
group-lines_example =
    group-lines 0 get_int get_float get_string show_int show_nat call zero_data data_type show_nat
      show_nat show_nat exprs (sum ∷ last ∷ []) rows buckets
      (record { fn = sum; results = result 7 2 ∷ result 5 1 ∷ [] }
        ∷ record { fn = last; results = result 4 2 ∷ result 5 1 ∷ [] }
        ∷ [])
      recs lines (tt, (tt, (tt, tt))) (omega arith) refl refl refl

reset-lines_example :
    (query_group exprs (sum ∷ last ∷ []) >>= λ start.
    record_all 0 get_int get_float get_string show_int show_nat call zero_data start
      ((b'z' ∷ [], 9) ∷ [])
    >>= λ used.
        record_all 0 get_int get_float get_string show_int show_nat call zero_data
          (group_reset used)
          rows
        >>= λ self. dump_all data_type show_nat show_nat show_nat self recs)
    ≡ some lines
unfolding add_agg_result update_agg_result update_all group_result tolower
reset-lines_example =
    reset-lines 0 get_int get_float get_string show_int show_nat call zero_data data_type show_nat
      show_nat show_nat exprs (sum ∷ last ∷ []) ((b'z' ∷ [], 9) ∷ [])
      (record { key = (b'z' ∷ []) ∷ []; first = (b'z' ∷ [], 9); rest = [] } ∷ [])
      (record { fn = sum; results = result 9 1 ∷ [] }
        ∷ record { fn = last; results = result 9 1 ∷ [] }
        ∷ [])
      rows buckets
      (record { fn = sum; results = result 7 2 ∷ result 5 1 ∷ [] }
        ∷ record { fn = last; results = result 4 2 ∷ result 5 1 ∷ [] }
        ∷ [])
      recs lines (tt, (tt, (tt, tt))) (omega arith) refl refl (omega arith) refl refl refl
