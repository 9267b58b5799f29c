-- ===== src/Logic/Functions.antt =====
-- lib/fqllogic.c: the functions that `logic__` points to, and lib/logic.c's choice among them.
-- The operands' getters are those of lib/expression.c, taken as parameters, and so are the
-- comparisons of C's double, the compiled patterns of PCRE2 and the key set of a sub-select.
pub mod Matrix
pub mod Dual
use fql.Prelude.{
  ℕ, Bool, true, false, not, ◌&&◌, ◌+◌, Option, none, some, List, [], ◌∷◌, ◌==◌, if◌then◌else◌, leb,
  ltb, map,
}
use fql.Prelude.Int.{ℤ, pos, ltb_ℤ, pos_part, neg_part}
use fql.Status.{Got, good, null, fail, try_logic_deref, ◌>>=◌}
use fql.Text.{Text, compare_nocase_rtrim}
use fql.Field.{
  FieldType, field_undefined, field_int, field_float, field_string, determine_type, inlist_type,
}

-- COMP_NOT_SET, COMP_FALSE and COMP_TRUE have no row in the matrix.
pub data Comparison : Type 0 where
  comp_not_set comp_false comp_true comp_eq comp_ne comp_gt comp_ge comp_lt comp_le : Comparison
  comp_in comp_subin comp_like comp_null : Comparison

-- A key of `list_data`: the bytes of a long, of a double, or of a view.
pub data Key (D : Type 0) : Type 0 where
  key_int : ℤ → Key D
  key_float : D → Key D
  key_text : Text → Key D

-- What the functions call in other parts: `D` is double, `Regex` a pointer to compiled code.
pub record Calls (E R D Regex : Type 0) : Type 0 where
  pub get_int : E → R → Got ℤ
  pub get_float : E → R → Got D
  pub get_stringview : E → R → Got Text
  pub float_eq : D → D → Bool
  pub float_lt : D → D → Bool
  pub float_le : D → D → Bool
  pub is_const : E → Bool
  pub field_type : E → FieldType
  pub like_to_regex : Text → Option Regex
  pub pcre2_match : Option Regex → Text → Bool

-- `struct logic` with both expressions, and the two parts of `in_data`. `regex` is NULL until a
-- pattern is compiled.
pub record Logic (E D Regex : Type 0) : Type 0 where
  pub expr0 : E
  pub expr1 : E
  pub in_list : Option (List E)
  pub list_data : Key D → Bool
  pub regex : Option Regex
  pub comp_type : Comparison
  pub data_type : FieldType

infix 50 ◌==ℤ◌
abbrev pub ◌==ℤ◌ : ℤ → ℤ → Bool
a ==ℤ b = pos_part a == pos_part b && neg_part a == neg_part b

abbrev pub leb_ℤ : ℤ → ℤ → Bool
leb_ℤ a b = leb (pos_part a + neg_part b) (pos_part b + neg_part a)

module _ {E R D Regex : Type 0} (calls : Calls E R D Regex) where
  abbrev pub LogicFn : Type 0
  LogicFn = Logic E D Regex → R → Option Bool

  -- `get_integers`, `get_floats` and `get_stringviews`: a missing operand makes the test false.
  with_integers : (ℤ → ℤ → Bool) → LogicFn
  with_integers test self rg =
      try_logic_deref (calls.get_int self.expr0 rg)
        λ n0. try_logic_deref (calls.get_int self.expr1 rg) λ n1. some (test n0 n1)

  with_floats : (D → D → Bool) → LogicFn
  with_floats test self rg =
      try_logic_deref (calls.get_float self.expr0 rg)
        λ n0. try_logic_deref (calls.get_float self.expr1 rg) λ n1. some (test n0 n1)

  -- The test is on the result of `stringview_compare_nocase_rtrim`.
  with_stringviews : (ℤ → Bool) → LogicFn
  with_stringviews test self rg = try_logic_deref (calls.get_stringview self.expr0 rg) λ sv0.
      try_logic_deref (calls.get_stringview self.expr1 rg)
        λ sv1. some (test (compare_nocase_rtrim sv0 sv1))

  eq_i : LogicFn
  unfolding with_integers
  eq_i = with_integers λ n0 n1. n0 ==ℤ n1

  eq_f : LogicFn
  unfolding with_floats
  eq_f = with_floats λ n0 n1. calls.float_eq n0 n1

  eq_s : LogicFn
  unfolding with_stringviews
  eq_s = with_stringviews λ r. r ==ℤ pos 0

  ne_i : LogicFn
  unfolding with_integers
  ne_i = with_integers λ n0 n1. not (n0 ==ℤ n1)

  ne_f : LogicFn
  unfolding with_floats
  ne_f = with_floats λ n0 n1. not (calls.float_eq n0 n1)

  ne_s : LogicFn
  unfolding with_stringviews
  ne_s = with_stringviews λ r. not (r ==ℤ pos 0)

  gt_i : LogicFn
  unfolding with_integers
  gt_i = with_integers λ n0 n1. ltb_ℤ n1 n0

  gt_f : LogicFn
  unfolding with_floats
  gt_f = with_floats λ n0 n1. calls.float_lt n1 n0

  gt_s : LogicFn
  unfolding with_stringviews
  gt_s = with_stringviews λ r. ltb_ℤ (pos 0) r

  ge_i : LogicFn
  unfolding with_integers
  ge_i = with_integers λ n0 n1. leb_ℤ n1 n0

  ge_f : LogicFn
  unfolding with_floats
  ge_f = with_floats λ n0 n1. calls.float_le n1 n0

  ge_s : LogicFn
  unfolding with_stringviews
  ge_s = with_stringviews λ r. leb_ℤ (pos 0) r

  lt_i : LogicFn
  unfolding with_integers
  lt_i = with_integers λ n0 n1. ltb_ℤ n0 n1

  lt_f : LogicFn
  unfolding with_floats
  lt_f = with_floats λ n0 n1. calls.float_lt n0 n1

  lt_s : LogicFn
  unfolding with_stringviews
  lt_s = with_stringviews λ r. ltb_ℤ r (pos 0)

  le_i : LogicFn
  unfolding with_integers
  le_i = with_integers λ n0 n1. leb_ℤ n0 n1

  le_f : LogicFn
  unfolding with_floats
  le_f = with_floats λ n0 n1. calls.float_le n0 n1

  le_s : LogicFn
  unfolding with_stringviews
  le_s = with_stringviews λ r. leb_ℤ r (pos 0)

  -- The loop over the list stops at the first match; a NULL item ends it with false.
  in_loop {ℓ} : {A : Type ℓ} → (E → Got A) → (A → Bool) → List E → Option Bool
  in_loop get same [] = some false
  in_loop get same (e ∷ es) =
      let rest = in_loop get same es in
      try_logic_deref (get e) λ n1. if same n1 then some true else rest

  -- The code does not test the pointer to the list; a fault through NULL is `none` here too.
  in_test {ℓ} : {A : Type ℓ} → (E → Got A) → (A → A → Bool) → Logic E D Regex → Option Bool
  unfolding in_loop
  in_test get same self =
      try_logic_deref (get self.expr0)
        λ n0. elim self.in_list [ none ↦ none | some items ↦ in_loop get (same n0) items ]

  in_i : LogicFn
  unfolding in_test
  in_i self rg = in_test (λ e. calls.get_int e rg) (λ n0 n1. n0 ==ℤ n1) self

  in_f : LogicFn
  unfolding in_test
  in_f self rg = in_test (λ e. calls.get_float e rg) (λ n0 n1. calls.float_eq n1 n0) self

  in_s : LogicFn
  unfolding in_test
  in_s self rg =
      in_test (λ e. calls.get_stringview e rg) (λ sv0 sv1. compare_nocase_rtrim sv0 sv1 ==ℤ pos 0)
        self

  subin_i : LogicFn
  subin_i self rg =
      try_logic_deref (calls.get_int self.expr0 rg) λ n0. some (self.list_data (key_int n0))

  subin_f : LogicFn
  subin_f self rg =
      try_logic_deref (calls.get_float self.expr0 rg) λ n0. some (self.list_data (key_float n0))

  subin_s : LogicFn
  subin_s self rg =
      try_logic_deref (calls.get_stringview self.expr0 rg)
        λ sv0. some (self.list_data (key_text sv0))

  -- A pattern that is no constant is compiled for each row; the result of `like_to_regex` is not
  -- tested, so a pattern that does not compile leaves NULL, which matches nothing.
  like : LogicFn
  like self rg = try_logic_deref (calls.get_stringview self.expr0 rg) λ sv0.
      if calls.is_const self.expr1
      then some (calls.pcre2_match self.regex sv0)
      else try_logic_deref (calls.get_stringview self.expr1 rg)
          λ sv1. some (calls.pcre2_match (calls.like_to_regex sv1) sv0)

  is_null : LogicFn
  is_null self rg = elim (calls.get_stringview self.expr0 rg) [
    | good sv ↦ some false
    | null ↦ some true
    | fail ↦ none
  ]
