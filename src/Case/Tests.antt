-- ===== src/Case/Tests.antt =====
-- `CASE WHEN c0 THEN v0 WHEN c1 THEN v1 ELSE v2 END` on records that say what holds.
use fql.Prelude.{
  ℕ, ◌+◌, Bool, true, false, Option, some, none, List, [], ◌∷◌, ◌++◌, ◌≡◌, refl, get_or, ◌==◌,
  if◌then◌else◌, length,
}
use fql.Status.{Got, good, null, fail}
use fql.Logic.{LogicGroup, lg_predicate, eval}
use fql.Case.{
  SwitchCase, switchcase_construct, add_value, add_logicgroup, switchcase_eval_to,
  expression_get_case,
}
use fql.Case.Choice.{switchcase_eval_to-first, switchcase_eval_to-else, switchcase_eval_to-fails}

abbrev test : ℕ → LogicGroup
test c = lg_predicate c false

-- Condition 7 fails.
abbrev holds : ℕ → List Bool → Option Bool
holds c row = if c == 7 then none else some (get_or row c false)

abbrev value : ℕ → List Bool → Got ℕ
value v row = good (v + 10)

branches : SwitchCase ℕ
unfolding switchcase_construct add_value add_logicgroup
branches =
    let one_test = add_value (add_logicgroup switchcase_construct (test 0)) 0 in
    add_value (add_value (add_logicgroup one_test (test 1)) 1) 2

without_else : SwitchCase ℕ
unfolding switchcase_construct add_value add_logicgroup
without_else = add_value (add_logicgroup switchcase_construct (test 0)) 0

failing : SwitchCase ℕ
unfolding switchcase_construct add_value add_logicgroup
failing =
    let one_test = add_value (add_logicgroup switchcase_construct (test 0)) 0 in
    add_value (add_logicgroup one_test (test 7)) 1

abbrev none_holds : List Bool
none_holds = false ∷ false ∷ []

abbrev second_holds : List Bool
second_holds = false ∷ true ∷ []

switchcase_eval_to-first_example :
    switchcase_eval_to holds value branches second_holds ≡ value 1 second_holds
unfolding branches eval
switchcase_eval_to-first_example =
    switchcase_eval_to-first holds second_holds value branches (test 0 ∷ []) [] (test 1) (0 ∷ [])
      (2 ∷ []) 1 refl refl refl (refl, tt) refl

switchcase_eval_to-else_example :
    ((first : List ℕ) (e : ℕ)
      → without_else.values ≡ first ++ (e ∷ [])
      → length first ≡ length without_else.tests
      → switchcase_eval_to holds value without_else none_holds ≡ value e none_holds)
    × (length without_else.values ≡ length without_else.tests
        → (switchcase_eval_to holds value without_else none_holds ≡ null)
          × (expression_get_case holds 0 value without_else none_holds ≡ good 0))
unfolding without_else eval
switchcase_eval_to-else_example =
    switchcase_eval_to-else holds none_holds 0 value without_else (refl, tt)

failing_switchcase : switchcase_eval_to holds value failing none_holds ≡ fail
unfolding failing eval
failing_switchcase =
    switchcase_eval_to-fails holds none_holds value failing (test 0 ∷ []) [] (test 7) refl
      (refl, tt) refl
