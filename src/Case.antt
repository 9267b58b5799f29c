-- ===== src/Case.antt =====
-- lib/switchcase.c: the CASE expression, and lib/expression.c where it evaluates one. An expression is
-- opaque: its getters are arguments.
pub mod Choice
mod Tests
use fql.Prelude.{
  ℕ, zero, suc, ◌+◌, ◌-◌, Bool, true, false, Option, none, some, List, [], ◌∷◌, ◌++◌, ltb,
  if◌then◌else◌, length, get_elem?,
}
use fql.Prelude.Int.{ℤ, pos}
use fql.Status.{Got, good, null, fail, ◌>>=◌}
use fql.Text.{Text}
use fql.Logic.{LogicGroup, eval}

pub data SwitchState : Type 0 where
  switch_static switch_static_cmp switch_logic_group switch_value : SwitchState

-- `struct switchcase` without what the parser saves in it.
pub record SwitchCase (E : Type 0) : Type 0 where
  pub tests : List LogicGroup
  pub values : List E
  pub static_expr : Option E
  pub state : SwitchState

module _ {E : Type 0} where
  unfoldable pub switchcase_construct : SwitchCase E
  switchcase_construct = record {
    tests = [];
    values = [];
    static_expr = none;
    state = switch_static;
  }

  unfoldable pub add_value : SwitchCase E → E → SwitchCase E
  add_value self expr = record self {
    values = self.values ++ (expr ∷ []);
    state = switch_logic_group;
  }

  unfoldable pub add_logicgroup : SwitchCase E → LogicGroup → SwitchCase E
  add_logicgroup self lg = record self { tests = self.tests ++ (lg ∷ []); state = switch_value }

module _ {R : Type 0} (call : ℕ → R → Option Bool) where
  -- The loop of `_logic_eval_idx`: FQL_FAIL, or the index of a test, or that none holds.
  test_idx : ℕ → List LogicGroup → R → Option (Option ℕ)
  test_idx i [] rg = some none
  test_idx i (lg ∷ lgs) rg =
      let rest = test_idx (i + 1) lgs rg in
      eval call lg rg none >>= λ ret. if ret then some (some i) else rest

  -- An extra value is the ELSE branch.
  abbrev pub or_else : {E : Type 0} → SwitchCase E → Option ℕ → Option ℕ
  or_else self (some i) = some i
  or_else self none =
      if ltb (length self.tests) (length self.values) then some (length self.values - 1) else none

  unfoldable pub logic_eval_idx : {E : Type 0} → SwitchCase E → R → Option (Option ℕ)
  unfolding test_idx
  logic_eval_idx self rg = test_idx 0 self.tests rg >>= λ found. some (or_else self found)

  -- `vec_at` and the getter; an index outside of the values is a fault.
  abbrev pub get_value : {E A : Type 0} → (E → R → Got A) → R → Option E → Got A
  get_value get rg none = fail
  get_value get rg (some e) = get e rg

  abbrev pub value_of : {E A : Type 0} → (E → R → Got A) → List E → R → Option (Option ℕ) → Got A
  value_of get values rg none = fail
  value_of get values rg (some none) = null
  value_of get values rg (some (some i)) = get_value get rg (get_elem? values i)

  -- `switchcase_eval_to_int`, `_float` and `_stringview`, by the getter of the value.
  unfoldable pub switchcase_eval_to : {E A : Type 0} → (E → R → Got A) → SwitchCase E → R → Got A
  switchcase_eval_to get self rg = value_of get self.values rg (logic_eval_idx self rg)

  -- `try_` and `return FQL_GOOD`: FQL_NULL becomes FQL_GOOD with what was stored for it.
  abbrev pub good_unless_fail : {A : Type 0} → A → Got A → Got A
  good_unless_fail stored (good a) = good a
  good_unless_fail stored null = good stored
  good_unless_fail stored fail = fail

  -- The cases of EXPR_SWITCH_CASE in `expression_get_int` and the two others.
  unfoldable pub expression_get_case :
      {E A : Type 0} → A → (E → R → Got A) → SwitchCase E → R → Got A
  unfolding switchcase_eval_to
  expression_get_case stored get self rg = good_unless_fail stored (switchcase_eval_to get self rg)
