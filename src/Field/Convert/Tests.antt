-- ===== src/Field/Convert/Tests.antt =====
-- Fields converted with a strtol that knows one number.
use fql.Prelude.{
  ℕ, zero, suc, ◌==◌, if◌then◌else◌, Bool, true, false, Option, none, some, [], ◌∷◌, ◌≡◌, refl,
}
use fql.Prelude.Int.{ℤ, pos, negsuc}
use fql.Text.{Text}
use fql.Field.{field_int, field_string}
use fql.Field.Convert.{
  member_i, member_s, Field, Scanned, field_to_int, field_to_stringview_limited,
}
use fql.Field.Convert.Tagged.{tagged_string, ToInt, field_to_int-ToInt}

-- One byte per unit, behind a byte for the sign.
abbrev show_units : ℕ → Text
show_units zero = []
show_units (suc n) = b'1' ∷ show_units n

abbrev show_i : ℤ → Text
show_i (pos n) = b'+' ∷ show_units n
show_i (negsuc n) = b'-' ∷ show_units n

abbrev scan_units : (ℕ → ℤ) → ℕ → Text → Scanned ℤ
scan_units sign n [] = record { number = sign n; rest = []; errno = false }
scan_units sign n (c ∷ cs) = scan_units sign (suc n) cs

abbrev signed : Bool → Text → Scanned ℤ
signed true cs = scan_units pos 0 cs
signed false cs = scan_units negsuc 0 cs

abbrev strtol : Text → ℕ → Scanned ℤ
strtol [] base = record { number = pos 0; rest = []; errno = true }
strtol (c ∷ cs) base =
    if c == b'z'
    then record { number = pos 0; rest = c ∷ cs; errno = false }
    else signed (c == b'+') cs

abbrev to_long : ℕ → ℤ
to_long f = pos f

field_to_int-ToInt_example :
    (ret : Option ℤ) × (field : Field ℕ) × (field_to_int strtol to_long field_string
        (member_s (b'z' ∷ []))
      ≡ some (ret, field))
    × ToInt strtol to_long (member_s (b'z' ∷ [])) ret field
    × ((ret ≡ none) → field_to_int strtol to_long field.type field.value ≡ none)
field_to_int-ToInt_example =
    field_to_int-ToInt strtol to_long field_string (member_s (b'z' ∷ []))
      (tagged_string (b'z' ∷ []))

limited_run :
    field_to_stringview_limited show_i show_units [] 2 field_int (member_i (pos 4))
    ≡ some (
      some (b'+' ∷ b'1' ∷ []),
      record { value = member_s (b'+' ∷ b'1' ∷ []); type = field_string },
    )
unfolding field_to_stringview_limited
limited_run = refl
