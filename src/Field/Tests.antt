-- ===== src/Field/Tests.antt =====
-- The type of `x IN (1, 2.5, 'a')` for a string x.
use fql.Prelude.{[], ◌∷◌, ◌≡◌, refl}
use mathlib.Core.List.{Permᴰ}
use fql.Field.{field_int, field_float, field_string, determine_type, inlist_type}
use fql.Field.Types.{inlist_type-perm}

joined : inlist_type field_string (field_int ∷ field_float ∷ field_string ∷ []) ≡ field_float
unfolding inlist_type determine_type
joined = refl

inlist_type_swapped :
    inlist_type field_string (field_int ∷ field_float ∷ [])
    ≡ inlist_type field_string (field_float ∷ field_int ∷ [])
inlist_type_swapped = inlist_type-perm field_string ∣ Permᴰ.swap refl refl ∣₁
