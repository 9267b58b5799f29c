-- ===== src/Logic/Tests.antt =====
-- The join condition `c0 AND (c1 OR NOT c2)`, the logic functions on rows that are lists, and what
-- lib/logic.c does with them.
use fql.Prelude.{
  ℕ, Bool, true, false, not, Option, none, some, List, [], ◌∷◌, ◌≡◌, ◌≢◌, ◌↔◌, refl, ◌==◌, ltb, leb,
  get_or, arith, if◌then◌else◌,
}
use fql.Prelude.Int.{ℤ, pos}
use fql.Status.{Got, good, null, fail, ◌>>=◌}
use fql.Text.{Text}
use fql.Field.{field_undefined, field_int, field_string, determine_type}
use fql.Logic.{
  LogicGroup, lg_and, lg_or, lg_predicate, eval, can_be_false, condition_count, conditions,
}
use fql.Logic.Eval.{meaning, Any, eval-meaning, eval-fails, condition_count-length}
use fql.Logic.HashJoin.{hash_join_exact}
use fql.Logic.Functions.{Comparison, comp_gt, comp_like, comp_ge, comp_le, Calls, Logic}
use fql.Logic.Functions.Matrix.{assign_process, data_type_of}
use fql.Logic.Functions.Dual.{
  dual, run, run-dual_int, run-dual_string, run-null, assign_process-fails,
}

abbrev on_clause : LogicGroup
on_clause = lg_and (lg_predicate 0 false) (lg_or (lg_predicate 1 false) (lg_predicate 2 true))

-- A row says for each condition whether it holds; condition 7 fails.
abbrev call : ℕ → List Bool → Option Bool
call c row = if c == 7 then none else some (get_or row c false)

abbrev row : List Bool
row = true ∷ false ∷ false ∷ []

accepted : eval call on_clause row none ≡ some true
unfolding eval
accepted = refl

must_hold : can_be_false on_clause 0 ≡ false
unfolding can_be_false
must_hold = refl

hash_join_exact_example :
    (eval call on_clause row none ≡ some true)
    ↔ ((call 0 row ≡ some true) × (eval call on_clause row (some 0) ≡ some true))
hash_join_exact_example =
    hash_join_exact call row 0 on_clause (λ e. refl, (λ e. refl, λ e. absurd (omega arith)))
      must_hold

eval-meaning_example : meaning (λ c. get_or row c false) none on_clause ≡ true
eval-meaning_example =
    eval-meaning call row (λ c. get_or row c false) none on_clause true (λ c a e. ground arith)
      accepted

abbrev broken : LogicGroup
broken = lg_or (lg_predicate 1 false) (lg_predicate 7 false)

broken_fails : eval call broken row none ≡ none
unfolding eval
broken_fails = refl

eval_failure : Any (λ c. call c row ≡ none) (conditions broken)
eval_failure = eval-fails call row none broken broken_fails

three_conditions : condition_count on_clause ≡ 3
three_conditions = condition_count-length on_clause

-- An expression is a column, and a row a list of longs; column 9 is NULL everywhere.
abbrev column : ℕ → List ℕ → Got ℕ
column e r = if e == 9 then null else good (get_or r e 0)

abbrev as_int : Got ℕ → Got ℤ
as_int (good n) = good (pos n)
as_int null = null
as_int fail = fail

abbrev as_text : Got ℕ → Got Text
as_text (good n) = good (n ∷ [])
as_text null = null
as_text fail = fail

abbrev calls : Calls ℕ (List ℕ) ℕ ℕ
calls = record {
  get_int = λ e r. as_int (column e r);
  get_float = column;
  get_stringview = λ e r. as_text (column e r);
  float_eq = λ a b. a == b;
  float_lt = ltb;
  float_le = leb;
  is_const = λ e. e == 8;
  field_type = λ e. if e == 3 then field_string else field_int;
  like_to_regex = λ t. some 0;
  pcre2_match = λ re t. false;
}

abbrev comparing : Comparison → ℕ → ℕ → Logic ℕ ℕ ℕ
comparing c a b = record {
  expr0 = a;
  expr1 = b;
  in_list = none;
  list_data = λ k. false;
  regex = none;
  comp_type = c;
  data_type = field_undefined;
}

dual_int_run :
    (run calls comp_le field_int (comparing comp_gt 0 1) (5 ∷ 3 ∷ [])
      ≡ (run calls comp_gt field_int (comparing comp_gt 0 1) (5 ∷ 3 ∷ []) >>= λ b. some (not b)))
    × (run calls comp_gt field_int (comparing comp_gt 0 1) (5 ∷ 3 ∷ []) ≢ none)
dual_int_run =
    run-dual_int calls comp_gt (comparing comp_gt 0 1) (5 ∷ 3 ∷ []) (pos 5) (pos 3) tt refl refl

dual_string_run :
    (run calls comp_le field_string (comparing comp_gt 0 1) (65 ∷ 98 ∷ []) ≡ (
      run calls comp_gt field_string (comparing comp_gt 0 1) (65 ∷ 98 ∷ []) >>= λ b. some (not b)))
    × (run calls comp_gt field_string (comparing comp_gt 0 1) (65 ∷ 98 ∷ []) ≢ none)
dual_string_run =
    run-dual_string calls comp_gt (comparing comp_gt 0 1) (65 ∷ 98 ∷ []) (65 ∷ []) (98 ∷ []) tt refl
      refl

null_run :
    (run calls comp_ge field_int (comparing comp_ge 9 1) (5 ∷ 3 ∷ []) ≡ some false)
    × (run calls (dual comp_ge) field_int (comparing comp_ge 9 1) (5 ∷ 3 ∷ []) ≡ some false)
null_run =
    run-null calls comp_ge field_int (comparing comp_ge 9 1) (5 ∷ 3 ∷ []) tt (ground arith) refl
      refl refl

like_typed : data_type_of calls (comparing comp_like 0 1) none ≢ field_undefined
unfolding data_type_of determine_type
like_typed = ground arith

assign_fails_run :
    (assign_process calls (λ e. null) false none (comparing comp_like 0 1) ≡ none)
    ↔ ((comp_like ≡ comp_like) × (data_type_of calls (comparing comp_like 0 1) none ≢ field_string))
assign_fails_run =
    assign_process-fails calls (λ e. null) none (comparing comp_like 0 1)
      (ground arith, ground arith, ground arith) like_typed
