-- ===== src/Search.antt =====
-- lib/query.c and lib/antlr/listenerinterface.cpp where they build the condition of a WHERE, HAVING, ON
-- or IF while the parse tree is walked. The groups live in memory and point to each other: a pointer
-- is an index of `cells`, and `new_` appends a cell.
pub mod Layout
pub mod Built
mod Tests
use fql.Prelude.{
  ℕ, zero, suc, ◌+◌, ◌%◌, Bool, true, false, Option, none, some, List, [], ◌∷◌, ◌++◌, ◌==◌, length,
}

pub data GroupType : Type 0 where
  group_and group_or group_predicate : GroupType

-- `struct logicgroup` while it is built.
pub record Cell : Type 0 where
  pub type : GroupType
  pub item0 : Option ℕ
  pub item1 : Option ℕ
  pub condition : Option ℕ
  pub negation : Bool

-- What of `struct query` takes part: the stack of open groups, and the group that `_assign_logic` was
-- given last.
pub record Builder : Type 0 where
  pub cells : List Cell
  pub logic_stack : List ℕ
  pub assigned : Option ℕ

-- A change of the cell at an index.
abbrev pub update : (Cell → Cell) → ℕ → List Cell → List Cell
update f i [] = []
update f zero (c ∷ cs) = f c ∷ cs
update f (suc i) (c ∷ cs) = c ∷ update f i cs

-- `logicgroup_construct`
abbrev pub logicgroup_construct : GroupType → Cell
logicgroup_construct type = record {
  type = type;
  item0 = none;
  item1 = none;
  condition = none;
  negation = false;
}

-- A parent takes a child as its first item that is NULL, and the second one otherwise.
abbrev pub add_item : ℕ → Cell → Cell
add_item lg parent = elim parent.item0 [
  | none ↦ record parent { item0 = some lg }
  | some first ↦ record parent { item1 = some lg }
]

abbrev pub link : List ℕ → ℕ → List Cell → List Cell
link [] lg cells = cells
link (parent ∷ rest) lg cells = update (add_item lg) parent cells

-- `_add_logic_item`
abbrev pub add_logic_item : GroupType → Builder → Builder
add_logic_item type self =
    let lg = length self.cells in
    record self {
      cells = link self.logic_stack lg (self.cells ++ (logicgroup_construct type ∷ []));
      logic_stack = lg ∷ self.logic_stack;
    }

-- `node_pop` and `_check_for_logic_exit`: the last group to be popped is the whole condition.
abbrev pub pop_group : Builder → Builder
pop_group self = elim self.logic_stack [
  | [] ↦ self
  | last ∷ [] ↦ record self { logic_stack = []; assigned = some last }
  | last ∷ next ∷ rest ↦ record self { logic_stack = next ∷ rest }
]

-- The group on top of the stack.
abbrev pub update_top : (Cell → Cell) → Builder → Builder
update_top f self = elim self.logic_stack [
  | [] ↦ self
  | lg ∷ rest ↦ record self { cells = update f lg self.cells }
]

-- `lg->negation = (negation % 2)`
abbrev pub with_negation : ℕ → Cell → Cell
with_negation negation lg = record lg { negation = negation % 2 == 1 }

-- `lg->condition = new_(logic)` where it is NULL.
abbrev pub with_condition : ℕ → Cell → Cell
with_condition c lg = elim lg.condition [ none ↦ record lg { condition = some c } | some old ↦ lg ]

-- `query_enter_predicate` for a predicate without IN.
abbrev pub enter_predicate : ℕ → Builder → Builder
enter_predicate negation self =
    update_top (with_negation negation) (add_logic_item group_predicate self)

-- `_add_logic_expression` makes the condition with its first expression.
abbrev pub add_condition : ℕ → Builder → Builder
add_condition c = update_top (with_condition c)

-- A search condition of the grammar: `nots` counts the NOT in front, and `inner` the NOT inside of a
-- predicate, as in `x NOT LIKE y`.
pub data SearchCondition : Type 0 where
  sc_and : SearchCondition → SearchCondition → SearchCondition
  sc_or : SearchCondition → SearchCondition → SearchCondition
  sc_predicate : (nots inner c : ℕ) → SearchCondition
  sc_bracket : (nots : ℕ) → SearchCondition → SearchCondition

-- `enterSearch_condition`, the walk of what is inside and `exitSearch_condition`; at a predicate
-- `enterPredicate` and `exitPredicate`.
unfoldable pub walk : SearchCondition → Builder → Builder
walk (sc_and a b) self = pop_group (walk b (walk a (add_logic_item group_and self)))
walk (sc_or a b) self = pop_group (walk b (walk a (add_logic_item group_or self)))
walk (sc_predicate nots inner c) self = pop_group (add_condition c (enter_predicate inner self))
walk (sc_bracket nots a) self = walk a self
