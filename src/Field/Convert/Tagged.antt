-- ===== src/Field/Convert/Tagged.antt =====
-- The conversions of lib/field.c on fields whose type says which member of the union was written.
use fql.Prelude.{
  ℕ, true, List-cases, zero, suc, [], ◌∷◌, sym, ◌≤◌, false, Option, none, some, ◌≡◌, refl, ◌∙◌, ap,
  inl, inr, ltb, length, take, arith, Bool-cases, Option-cases,
}
use mathlib.Core.Path.{subst}
use fql.Prelude.Int.{ℤ}
use fql.Text.{Text}
use fql.Field.{FieldType, field_int, field_float, field_string}
use fql.Field.Convert.{
  FieldUnion, member_i, member_f, member_s, Field, Scanned, is_hex, scanned, str2long, field_to_int,
  field_to_stringview, field_to_stringview_limited, limited,
}

-- The member is that of the type.
pub data Tagged {F : Type 0} : FieldType → FieldUnion F → Type 0 where
  tagged_int : (i : ℤ) → Tagged field_int (member_i i)
  tagged_float : (f : F) → Tagged field_float (member_f f)
  tagged_string : (s : Text) → Tagged field_string (member_s s)

module _ {F : Type 0} (strtol : Text → ℕ → Scanned ℤ) (to_long : F → ℤ) where
  -- The base that a string is read in.
  pub data InBase : Text → ℕ → Type 0 where
    hexadecimal : (cs : Text) → InBase (b'0' ∷ b'x' ∷ cs) 16
    decimal : (s : Text) → is_hex s ≡ false → InBase s 10

  -- strtol reads all of a string as a number.
  pub record ReadAs (s : Text) (base : ℕ) (i : ℤ) : Type 0 where
    pub no_errno : (strtol s base).errno ≡ false
    pub all_read : (strtol s base).rest ≡ []
    pub number : (strtol s base).number ≡ i

  -- The integer that the value of a field stands for.
  pub data StandsFor : FieldUnion F → ℤ → Type 0 where
    an_integer : (i : ℤ) → StandsFor (member_i i) i
    a_float : (f : F) → StandsFor (member_f f) (to_long f)
    a_string :
        (s : Text) (base : ℕ) (i : ℤ) → InBase s base → ReadAs s base i → StandsFor (member_s s) i

  -- What a conversion to an integer comes to: the integer that the value stands for, which is in the field
  -- too, or none, for a string that stands for no integer.
  pub data ToInt (value : FieldUnion F) : Option ℤ → Field F → Type 0 where
    converted :
        (i : ℤ)
        → StandsFor value i
        → ToInt value (some i) (record { value = member_i i; type = field_int })
    not_read :
        (s : Text)
        → value ≡ member_s s
        → ((i : ℤ) → ¬ StandsFor value i)
        → ToInt value none (record { value = member_s s; type = field_int })

  scanned-some : (s : Text) (base : ℕ) (i : ℤ) → scanned (strtol s base) ≡ some i → ReadAs s base i
  scanned-some s base i h = elim (Bool-cases (strtol s base).errno) [
    | inl bad ↦ let clash : none ≡ some i = rw bad at h in cc
    | inr good ↦ elim (List-cases (strtol s base).rest) [
      | inl done ↦
          let eq : some (strtol s base).number ≡ some i = rw (good, done) at h in
          record { no_errno = good; all_read = done; number = cc }
      | inr (c, cs, more) ↦ let clash : none ≡ some i = rw (good, more) at h in cc
    ]
  ]

  ReadAs-scanned :
      (s : Text) (base : ℕ) (i : ℤ) → ReadAs s base i → scanned (strtol s base) ≡ some i
  ReadAs-scanned s base i r = rw (r.no_errno, r.all_read, r.number) refl

  hex-cases : (s : Text) → is_hex s ≡ true → (cs : Text) × (s ≡ b'0' ∷ b'x' ∷ cs)
  hex-cases [] h = cc
  hex-cases (c ∷ []) h = cc
  hex-cases (c ∷ d ∷ cs) h =
      let zero_first : c ≡ b'0' = ground arith in
      let then_x : d ≡ b'x' = ground arith in (cs, rw (zero_first, then_x) refl)

  str2long-some : (s : Text) (i : ℤ) → str2long strtol s ≡ some i → StandsFor (member_s s) i
  unfolding str2long
  str2long-some s i h = elim (Bool-cases (is_hex s)) [
    | inl hex ↦
        let (cs, is) = hex-cases s hex in
        a_string s 16 i (subst (λ t. InBase t 16) (sym is) (hexadecimal cs))
          (scanned-some s 16 i (rw hex at h))
    | inr dec ↦ a_string s 10 i (decimal s dec) (scanned-some s 10 i (rw dec at h))
  ]

  InBase-str2long :
      (s : Text) (base : ℕ) → InBase s base → str2long strtol s ≡ scanned (strtol s base)
  unfolding str2long
  InBase-str2long _ _ (hexadecimal cs) = refl
  InBase-str2long _ _ (decimal s dec) = rw dec refl

  none-StandsFor : (s : Text) (i : ℤ) → str2long strtol s ≡ none → ¬ StandsFor (member_s s) i
  none-StandsFor s i h (a_string _ base _ in_base reads) =
      let all : none ≡ some i =
        sym h ∙ InBase-str2long s base in_base ∙ ReadAs-scanned s base i reads in
      cc

  -- Converting a field whose type says which member of its union was written to an integer ends: with
  -- the integer that the value stands for (itself, a double cast, or what strtol reads in all of a
  -- string, in base 16 behind 0x and 10 elsewhere), in the result and in an integer field; or, exactly
  -- where it stands for none, with a failure that leaves the string in a field that says integer, so
  -- that converting once more reads a member that was not written.
  pub field_to_int-ToInt :
      (type : FieldType) (value : FieldUnion F)
      → Tagged type value
      → (ret : Option ℤ) × (field : Field F) × (field_to_int strtol to_long type value
          ≡ some (ret, field))
        × ToInt value ret field
        × ((ret ≡ none) → field_to_int strtol to_long field.type field.value ≡ none)
  unfolding field_to_int
  field_to_int-ToInt _ _ (tagged_int i) = (
    some i,
    record { value = member_i i; type = field_int },
    refl,
    converted i (an_integer i),
    λ h. cc,
  )
  field_to_int-ToInt _ _ (tagged_float f) = (
    some (to_long f),
    record { value = member_i (to_long f); type = field_int },
    refl,
    converted (to_long f) (a_float f),
    λ h. cc,
  )
  field_to_int-ToInt _ _ (tagged_string s) = elim (Option-cases (str2long strtol s)) [
    | inl fails ↦ (
      none,
      record { value = member_s s; type = field_int },
      rw fails refl,
      not_read s refl (λ i. none-StandsFor s i fails),
      λ h. refl,
    )
    | inr (i, reads) ↦ (
      some i,
      record { value = member_i i; type = field_int },
      rw reads refl,
      converted i (str2long-some s i reads),
      λ h. cc,
    )
  ]

take-fits : (n : ℕ) (s : Text) → length s ≤ n → take n s ≡ s
take-fits zero [] h = refl
take-fits zero (c ∷ s) h = absurd (omega arith)
take-fits (suc n) [] h = refl
take-fits (suc n) (c ∷ s) h = ap (λ l. c ∷ l) (take-fits n s (omega arith))

limited-take : (limit : ℕ) (s : Text) → limited limit s ≡ take limit s
limited-take limit s = elim (Bool-cases (ltb limit (length s))) [
  | inl longer ↦ rw longer refl
  | inr fits ↦ rw fits (sym (take-fits limit s (ground arith)))
]

-- Under a limit, a field whose type says which member was written becomes the string of the first bytes of
-- what the conversion without a limit gives, as many as the limit allows.
pub stringview-limited :
    {F : Type 0} (show_i : ℤ → Text) (show_f : F → Text) (dest : Text) (limit : ℕ)
    (type : FieldType) (value : FieldUnion F)
    → Tagged type value
    → (whole : Text) × (field_to_stringview show_i show_f dest type value
        ≡ some (some whole, record { value = member_s whole; type = field_string }))
      × (field_to_stringview_limited show_i show_f dest limit type value
          ≡ some (
            some (take limit whole),
            record { value = member_s (take limit whole); type = field_string },
          ))
unfolding field_to_stringview field_to_stringview_limited
stringview-limited show_i show_f dest limit _ _ (tagged_int i) =
    (show_i i, refl, rw (limited-take limit (show_i i)) refl)
stringview-limited show_i show_f dest limit _ _ (tagged_float f) =
    (show_f f, refl, rw (limited-take limit (show_f f)) refl)
stringview-limited show_i show_f dest limit _ _ (tagged_string s) =
    (dest, refl, rw (limited-take limit dest) refl)
