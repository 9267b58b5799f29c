-- ===== src/Logic/Functions/Matrix.antt =====
-- lib/logic.c: the matrix of the logic functions, and `logic_assign_process`, which takes a function
-- from it.
use fql.Prelude.{Bool, Option, none, some, List, [], if◌then◌else◌, map}
use fql.Status.{Got, good, null, fail, ◌>>=◌}
use fql.Text.{Text}
use fql.Field.{
  FieldType, field_undefined, field_int, field_float, field_string, determine_type, inlist_type,
}
use fql.Logic.Functions.{
  Comparison, comp_eq, comp_ne, comp_gt, comp_ge, comp_lt, comp_le, comp_in, comp_subin, comp_like,
  comp_null, Calls, Logic, LogicFn, eq_i, eq_f, eq_s, ne_i, ne_f, ne_s, gt_i, gt_f, gt_s, ge_i,
  ge_f, ge_s, lt_i, lt_f, lt_s, le_i, le_f, le_s, in_i, in_f, in_s, subin_i, subin_f, subin_s, like,
  is_null,
}

module _ {E R D Regex : Type 0} (calls : Calls E R D Regex) where
  -- A row of `_logic_matrix`: the functions for INT, FLOAT and STRING.
  abbrev pub matrix_row :
      Option (LogicFn calls)
      → Option (LogicFn calls)
      → Option (LogicFn calls)
      → FieldType
      → Option (LogicFn calls)
  matrix_row i f s field_undefined = none
  matrix_row i f s field_int = i
  matrix_row i f s field_float = f
  matrix_row i f s field_string = s

  -- `none` is a NULL entry, or an index outside the matrix.
  unfoldable pub matrix : Comparison → FieldType → Option (LogicFn calls)
  unfolding eq_i eq_f eq_s ne_i ne_f ne_s gt_i gt_f gt_s ge_i ge_f ge_s lt_i lt_f lt_s le_i le_f
      le_s in_i in_f in_s subin_i subin_f subin_s like is_null
  matrix comp_eq t = matrix_row (some (eq_i calls)) (some (eq_f calls)) (some (eq_s calls)) t
  matrix comp_ne t = matrix_row (some (ne_i calls)) (some (ne_f calls)) (some (ne_s calls)) t
  matrix comp_gt t = matrix_row (some (gt_i calls)) (some (gt_f calls)) (some (gt_s calls)) t
  matrix comp_ge t = matrix_row (some (ge_i calls)) (some (ge_f calls)) (some (ge_s calls)) t
  matrix comp_lt t = matrix_row (some (lt_i calls)) (some (lt_f calls)) (some (lt_s calls)) t
  matrix comp_le t = matrix_row (some (le_i calls)) (some (le_f calls)) (some (le_s calls)) t
  matrix comp_in t = matrix_row (some (in_i calls)) (some (in_f calls)) (some (in_s calls)) t
  matrix comp_subin t =
      matrix_row (some (subin_i calls)) (some (subin_f calls)) (some (subin_s calls)) t
  matrix comp_like t = matrix_row none none (some (like calls)) t
  matrix comp_null t =
      matrix_row (some (is_null calls)) (some (is_null calls)) (some (is_null calls)) t
  matrix c t = none

  -- The data type that `logic_assign_process` gives a logic. `in_items` are the expressions that
  -- `inlist_determine_type` reads: the list's, or the columns of the sub-select.
  unfoldable pub data_type_of : Logic E D Regex → Option (List E) → FieldType
  data_type_of self (some in_items) =
      inlist_type (calls.field_type self.expr0) (map calls.field_type in_items)
  data_type_of self none = elim self.comp_type [
    | comp_null ↦ field_string
    | _ ↦ determine_type (calls.field_type self.expr0) (calls.field_type self.expr1)
  ]

  -- `logic_assign_process` without the plan message: the logic with its type, its pattern compiled
  -- where a process is given and the pattern is a constant, and its function. The
  -- constant is read with no record (`get_const`); a view that it leaves alone is empty.
  precompile_like : (E → Got Text) → Logic E D Regex → Option (Option Regex)
  precompile_like get_const self =
      if calls.is_const self.expr1
      then elim (get_const self.expr1) [
        | fail ↦ none
        | null ↦ elim (calls.like_to_regex []) [ none ↦ none | some re ↦ some (some re) ]
        | good sv ↦ elim (calls.like_to_regex sv) [ none ↦ none | some re ↦ some (some re) ]
      ]
      else some none

  unfoldable pub assign_process :
      (E → Got Text)
      → Bool
      → Option (List E)
      → Logic E D Regex
      → Option (Logic E D Regex × LogicFn calls)
  unfolding precompile_like matrix
  assign_process get_const has_proc in_items self =
      let t = data_type_of self in_items in
      matrix self.comp_type t >>= λ fn. elim self.comp_type [
        | comp_like ↦
            if has_proc
            then (precompile_like get_const self >>= λ re.
                some (record self { data_type = t; regex = re }, fn))
            else some (record self { data_type = t }, fn)
        | _ ↦ some (record self { data_type = t }, fn)
      ]
