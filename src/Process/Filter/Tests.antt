-- ===== src/Process/Filter/Tests.antt =====
-- A filter with four slots of input and one output, and a run of it.
use fql.Prelude.{ℕ, true, false, Bool, Option, none, some, [], ◌∷◌, ◌≡◌, refl, ltb, arith}
use fql.Fifo.{Fifo, receivable, available, is_empty, add, begin, iter, at_end}
use fql.Fifo.Valid.{IsValid}
use fql.Fifo.Reach.{Ready}
use fql.Logic.{lg_predicate, lg_and, eval}
use fql.Process.{wait_on_in0}
use fql.Process.Filter.{FilterProc, fql_logic, filter_loop}
use fql.Process.Filter.Passing.{no_output, output, Outcome}
use fql.Process.Filter.Run.{fql_logic-Outcome}

abbrev source : Fifo ℕ
source = record {
  buf = 7 ∷ 8 ∷ 9 ∷ 4 ∷ [];
  head = 1;
  tail = 3;
  iter_head = 0;
  input_count = 1;
  is_open = true;
}

abbrev target : Fifo ℕ
target = record {
  buf = 0 ∷ 0 ∷ 0 ∷ 0 ∷ [];
  head = 0;
  tail = 0;
  iter_head = 0;
  input_count = 1;
  is_open = true;
}

-- The group `x > 3 AND x > 5`, whose conditions are given by number.
abbrev above : ℕ → Option Bool
unfolding eval
above x =
    eval (λ bound rg. some (ltb bound rg)) (lg_and (lg_predicate 3 false) (lg_predicate 5 false)) x
      none

abbrev filter : FilterProc ℕ
filter = record { input = source; out_true = some target; out_false = none; recycled = [] }

filter_run :
    fql_logic 0 above false filter
    ≡ some (
        some (
          wait_on_in0,
          record {
            input = record source { tail = 1; iter_head = 1 };
            out_true = some (record target { buf = 7 ∷ 0 ∷ 0 ∷ 0 ∷ []; head = 1 });
            out_false = none;
            recycled = 4 ∷ [];
          },
        ))
unfolding fql_logic filter_loop is_empty begin iter at_end add receivable available eval
filter_run = refl

source-IsValid : IsValid source
source-IsValid = ground arith

target-Ready : Ready target
target-Ready = record { valid = ground arith; has_input = omega arith; fits = omega arith }

fql_logic-Outcome_example : Outcome 0 above filter (fql_logic 0 above false filter)
fql_logic-Outcome_example =
    fql_logic-Outcome 0 above filter source-IsValid (output target target-Ready) no_output
