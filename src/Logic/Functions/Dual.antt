-- ===== src/Logic/Functions/Dual.antt =====
-- Laws across the rows of the matrix of lib/logic.c.
use fql.Prelude.{Bool, false, not, Option, none, some, ◌≡◌, ◌↔◌, ◌≢◌, arith, List}
use fql.Prelude.Int.{ℤ}
use fql.Status.{Got, good, null, ◌>>=◌}
use fql.Text.{Text}
use fql.Field.{FieldType, field_undefined, field_int, field_string}
use fql.Logic.Functions.{
  Comparison, comp_not_set, comp_false, comp_true, comp_eq, comp_ne, comp_gt, comp_ge, comp_lt,
  comp_le, comp_like, Calls, Logic,
}
use fql.Logic.Functions.Matrix.{matrix, assign_process, data_type_of}

-- The comparison that holds where the other does not.
abbrev pub dual : Comparison → Comparison
dual comp_eq = comp_ne
dual comp_ne = comp_eq
dual comp_gt = comp_le
dual comp_ge = comp_lt
dual comp_lt = comp_ge
dual comp_le = comp_gt
dual c = c

-- The six comparisons by value.
abbrev pub IsOrder : Comparison → Type 0
IsOrder comp_eq = Unit
IsOrder comp_ne = Unit
IsOrder comp_gt = Unit
IsOrder comp_ge = Unit
IsOrder comp_lt = Unit
IsOrder comp_le = Unit
IsOrder _ = ⊥

module _ {E R D Regex : Type 0} (calls : Calls E R D Regex) where
  -- The call of an entry; a NULL entry is a fault.
  abbrev pub run : Comparison → FieldType → Logic E D Regex → R → Option Bool
  run c t self rg = matrix calls c t >>= λ fn. fn self rg

  -- On integers that are both there, a comparison gives an answer and its dual the other one.
  pub run-dual_int :
      (c : Comparison) (self : Logic E D Regex) (rg : R) (n0 n1 : ℤ)
      → IsOrder c
      → calls.get_int self.expr0 rg ≡ good n0
      → calls.get_int self.expr1 rg ≡ good n1
      → (run (dual c) field_int self rg ≡ (run c field_int self rg >>= λ b. some (not b)))
        × (run c field_int self rg ≢ none)
  unfolding matrix
  run-dual_int comp_eq self rg n0 n1 o h0 h1 = ground arith
  run-dual_int c self rg n0 n1 o h0 h1 = ground arith

  -- On views that are both there, the same holds of strings.
  pub run-dual_string :
      (c : Comparison) (self : Logic E D Regex) (rg : R) (sv0 sv1 : Text)
      → IsOrder c
      → calls.get_stringview self.expr0 rg ≡ good sv0
      → calls.get_stringview self.expr1 rg ≡ good sv1
      → (run (dual c) field_string self rg ≡ (run c field_string self rg >>= λ b. some (not b)))
        × (run c field_string self rg ≢ none)
  unfolding matrix
  run-dual_string comp_eq self rg sv0 sv1 o h0 h1 = ground arith
  run-dual_string c self rg sv0 sv1 o h0 h1 = ground arith

  -- One of the six comparisons by value, of a known type, is false where its left operand is NULL, and
  -- so is its dual: NULL falls outside both a condition and its opposite.
  pub run-null :
      (c : Comparison) (t : FieldType) (self : Logic E D Regex) (rg : R)
      → IsOrder c
      → t ≢ field_undefined
      → calls.get_int self.expr0 rg ≡ null
      → calls.get_float self.expr0 rg ≡ null
      → calls.get_stringview self.expr0 rg ≡ null
      → (run c t self rg ≡ some false) × (run (dual c) t self rg ≡ some false)
  unfolding matrix
  run-null comp_eq t self rg o ne hi hf hs = ground arith
  run-null c t self rg o ne hi hf hs = ground arith

  -- A comparison that the matrix has a row for.
  abbrev pub HasRow : Comparison → Type 0
  HasRow c = (c ≢ comp_not_set) × (c ≢ comp_false) × (c ≢ comp_true)

  -- Without a process, the assignment fails exactly where LIKE meets a number, once the type of
  -- the logic is known; otherwise the logic keeps its operands and its comparison.
  pub assign_process-fails :
      (get_const : E → Got Text) (in_items : Option (List E)) (self : Logic E D Regex)
      → HasRow self.comp_type
      → data_type_of calls self in_items ≢ field_undefined
      → (assign_process calls get_const false in_items self ≡ none)
        ↔ ((self.comp_type ≡ comp_like) × (data_type_of calls self in_items ≢ field_string))
  unfolding assign_process matrix
  assign_process-fails get_const in_items self row typed = (λ h. ground arith, λ h. ground arith)
