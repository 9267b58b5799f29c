-- ===== src/Field/Convert.antt =====
-- lib/field.c and util/util.c: the conversions of a field, whose union and type are changed together.
-- F is the double of C. strtol, strtod, printf and the cast of a double to a long are parameters; strtol
-- and strtod give the number, the bytes that are left at `endptr`, and whether errno is set. A union is
-- the member that was written last, and the outer `none` a read of another one; the inner `none` is
-- FQL_FAIL. A string is its bytes up to the NUL.
pub mod Tagged
mod Tests
use fql.Prelude.{
  ℕ, Bool, true, false, ◌&&◌, Option, none, some, [], ◌∷◌, if◌then◌else◌, length, take, ltb, ◌==◌,
}
use fql.Prelude.Int.{ℤ}
use fql.Status.{◌>>=◌}
use fql.Text.{Text}
use fql.Field.{FieldType, field_undefined, field_int, field_float, field_string}

-- `union field`, without the members of functions, aggregates and CASE.
pub data FieldUnion (F : Type 0) : Type 0 where
  member_i : ℤ → FieldUnion F
  member_f : F → FieldUnion F
  member_s : Text → FieldUnion F

pub record Field (F : Type 0) : Type 0 where
  pub value : FieldUnion F
  pub type : FieldType

-- What strtol and strtod leave.
pub record Scanned (N : Type 0) : Type 0 where
  pub number : N
  pub rest : Text
  pub errno : Bool

abbrev pub is_end : Text → Bool
is_end [] = true
is_end (c ∷ cs) = false

-- `str2longbase` after strtol, and `str2double` after strtod.
abbrev pub scanned : {N : Type 0} → Scanned N → Option N
scanned s = if s.errno then none else if is_end s.rest then some s.number else none

abbrev pub is_hex : Text → Bool
is_hex [] = false
is_hex (c ∷ []) = false
is_hex (c ∷ d ∷ cs) = c == b'0' && d == b'x'

module _ (strtol : Text → ℕ → Scanned ℤ) where
  abbrev pub str2longbase : Text → ℕ → Option ℤ
  str2longbase s base = scanned (strtol s base)

  unfoldable pub str2long : Text → Option ℤ
  str2long s = if is_hex s then str2longbase s 16 else str2longbase s 10

-- `if (dest->size > limit) string_resize(dest, limit)`
abbrev pub limited : ℕ → Text → Text
limited limit s = if ltb limit (length s) then take limit s else s

module _ {F : Type 0} where
  abbrev pub read_i : FieldUnion F → Option ℤ
  read_i (member_i i) = some i
  read_i (member_f f) = none
  read_i (member_s s) = none

  abbrev pub read_f : FieldUnion F → Option F
  read_f (member_i i) = none
  read_f (member_f f) = some f
  read_f (member_s s) = none

  abbrev pub read_s : FieldUnion F → Option Text
  read_s (member_i i) = none
  read_s (member_f f) = none
  read_s (member_s s) = some s

  -- The type is set before the number is known: the union is written only where there is one.
  abbrev pub to_int_or : FieldUnion F → Option ℤ → Option ℤ × Field F
  to_int_or value none = (none, record { value = value; type = field_int })
  to_int_or value (some i) = (some i, record { value = member_i i; type = field_int })

  abbrev pub to_float_or : FieldUnion F → Option F → Option F × Field F
  to_float_or value none = (none, record { value = value; type = field_float })
  to_float_or value (some f) = (some f, record { value = member_f f; type = field_float })

  unfoldable pub field_to_int :
      (Text → ℕ → Scanned ℤ) → (F → ℤ) → FieldType → FieldUnion F → Option (Option ℤ × Field F)
  field_to_int strtol to_long field_undefined value =
      some (none, record { value = value; type = field_undefined })
  field_to_int strtol to_long field_int value =
      read_i value >>= λ i. some (some i, record { value = value; type = field_int })
  field_to_int strtol to_long field_float value = read_f value >>= λ f.
      some (some (to_long f), record { value = member_i (to_long f); type = field_int })
  field_to_int strtol to_long field_string value =
      read_s value >>= λ s. some (to_int_or value (str2long strtol s))

  unfoldable pub field_to_float :
      (Text → Scanned F) → (ℤ → F) → FieldType → FieldUnion F → Option (Option F × Field F)
  field_to_float strtod to_double field_undefined value =
      some (none, record { value = value; type = field_undefined })
  field_to_float strtod to_double field_float value =
      read_f value >>= λ f. some (some f, record { value = value; type = field_float })
  field_to_float strtod to_double field_int value = read_i value >>= λ i.
      some (some (to_double i), record { value = member_f (to_double i); type = field_float })
  field_to_float strtod to_double field_string value =
      read_s value >>= λ s. some (to_float_or value (scanned (strtod s)))

  -- The field becomes `dest`; a string is not copied there.
  unfoldable pub field_to_stringview :
      (ℤ → Text) → (F → Text) → Text → FieldType → FieldUnion F → Option (Option Text × Field F)
  field_to_stringview show_i show_f dest field_undefined value =
      some (none, record { value = value; type = field_undefined })
  field_to_stringview show_i show_f dest field_string value =
      some (some dest, record { value = member_s dest; type = field_string })
  field_to_stringview show_i show_f dest field_int value = read_i value >>= λ i.
      some (some (show_i i), record { value = member_s (show_i i); type = field_string })
  field_to_stringview show_i show_f dest field_float value = read_f value >>= λ f.
      some (some (show_f f), record { value = member_s (show_f f); type = field_string })

  unfoldable pub field_to_stringview_limited :
      (ℤ → Text) → (F → Text) → Text → ℕ → FieldType → FieldUnion F → Option (Option Text × Field F)
  field_to_stringview_limited show_i show_f dest limit field_undefined value =
      some (none, record { value = value; type = field_undefined })
  field_to_stringview_limited show_i show_f dest limit field_string value =
      let out = limited limit dest in
      some (some out, record { value = member_s out; type = field_string })
  field_to_stringview_limited show_i show_f dest limit field_int value = read_i value >>= λ i.
      let out = limited limit (show_i i) in
      some (some out, record { value = member_s out; type = field_string })
  field_to_stringview_limited show_i show_f dest limit field_float value = read_f value >>= λ f.
      let out = limited limit (show_f f) in
      some (some out, record { value = member_s out; type = field_string })
