-- ===== src/Logic.antt =====
-- `struct logicgroup` of lib/logic.h and the functions of lib/logic.c over a finished group. A
-- condition is the address of its `struct logic`, since the code compares conditions as pointers;
-- `call` stands for the load of that address and the call of its `logic__`.
mod Tests
pub mod Eval
pub mod HashJoin
pub mod Functions
use fql.Prelude.{
  ℕ, ◌+◌, Bool, true, false, not, Option, none, some, ◌==◌, if◌then◌else◌, List, [], ◌∷◌, ◌++◌,
}
use fql.Status.{◌>>=◌}

-- LG_AND and LG_OR with both items, and LG_PREDICATE with its condition and `negation`.
pub data LogicGroup : Type 0 where
  lg_and : LogicGroup → LogicGroup → LogicGroup
  lg_or : LogicGroup → LogicGroup → LogicGroup
  lg_predicate : ℕ → Bool → LogicGroup

-- `self->condition == skip`, for a skip that may be NULL.
abbrev pub is_skip : Option ℕ → ℕ → Bool
is_skip none c = false
is_skip (some s) c = c == s

module _ {R : Type 0} (call : ℕ → R → Option Bool) where
  unfoldable pub eval : LogicGroup → R → Option ℕ → Option Bool
  eval (lg_predicate c negation) rg skip =
      if is_skip skip c
      then some true
      else (call c rg >>= (λ ret. some (if negation then not ret else ret)))
  eval (lg_and a b) rg skip =
      eval a rg skip >>= (λ ret. if not ret then some ret else eval b rg skip)
  eval (lg_or a b) rg skip = eval a rg skip >>= (λ ret. if ret then some ret else eval b rg skip)

-- All other logic is assumed true, and negation is ignored.
unfoldable pub can_be_false : LogicGroup → ℕ → Bool
can_be_false (lg_predicate c negation) check = if c == check then false else true
can_be_false (lg_and a b) check =
    let ret = can_be_false a check in
    let rest = can_be_false b check in if not ret then ret else rest
can_be_false (lg_or a b) check =
    let ret = can_be_false a check in let rest = can_be_false b check in if ret then ret else rest

-- The count goes through a pointer, so the helper takes and returns it.
add_condition_count : LogicGroup → ℕ → ℕ
add_condition_count (lg_predicate c negation) count = count + 1
add_condition_count (lg_and a b) count = add_condition_count b (add_condition_count a count)
add_condition_count (lg_or a b) count = add_condition_count b (add_condition_count a count)

unfoldable pub condition_count : LogicGroup → ℕ
unfolding add_condition_count
condition_count g = add_condition_count g 0

-- The conditions of a group from left to right.
abbrev pub conditions : LogicGroup → List ℕ
conditions (lg_and a b) = conditions a ++ conditions b
conditions (lg_or a b) = conditions a ++ conditions b
conditions (lg_predicate c negation) = c ∷ []
