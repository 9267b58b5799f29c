-- ===== src/Field.antt =====
-- lib/field.h and lib/field.c: the types of a field and the type of an expression over two fields.
mod Tests
pub mod Types
pub mod Convert
use fql.Prelude.{List, [], ◌∷◌}

pub data FieldType : Type 0 where
  field_undefined field_int field_float field_string : FieldType

-- `t0 == t1` first, then a string gives way to the other type, and all that is left is a float.
unfoldable pub determine_type : FieldType → FieldType → FieldType
determine_type field_undefined field_undefined = field_undefined
determine_type field_int field_int = field_int
determine_type field_float field_float = field_float
determine_type field_string t1 = t1
determine_type t0 field_string = t0
determine_type _ _ = field_float

-- `inlist_determine_type` of lib/inlist.c: the left side's type, joined with each item's.
unfoldable pub inlist_type : FieldType → List FieldType → FieldType
inlist_type type [] = type
inlist_type type (t ∷ ts) = inlist_type (determine_type type t) ts
