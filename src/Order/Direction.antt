-- ===== src/Order/Direction.antt =====
-- What ORDER BY means by its keys: ASC puts the lesser key first and DESC the greater one, and where two
-- keys tie, the next expression decides.
use fql.Prelude.{
  zero, suc, ◌-◌, Bool, true, false, not, ◌&&◌, ◌||◌, some, List, [], ◌∷◌, ◌≡◌, refl, ◌∙◌, sym, ap,
  inl, inr, if◌then◌else◌, leb, arith, Bool-cases,
}
use mathlib.Core.Path.{ap₂}
use fql.Prelude.Int.{ℤ, pos, negsuc, ltb_ℤ}
use fql.Text.{compare_nocase_rtrim}
use fql.Field.{FieldType, field_undefined, field_int, field_float, field_string}
use fql.Order.{
  Key, key_int, key_float, key_string, OrderExpr, minus, is_zero, num_compare, compare_values,
  directed,
}
use fql.Order.Keys.{AllShort, compare_keys, compare_values-minus}

abbrev pub is_negative : ℤ → Bool
is_negative (pos n) = false
is_negative (negsuc n) = true

-- One key is less than another of the type: numbers by their size, views by their comparison without
-- case and blanks at the end.
abbrev pub less : {F : Type 0} → (F → F → Bool) → FieldType → Key F → Key F → Bool
less float_lt field_int (key_int i) (key_int j) = ltb_ℤ i j
less float_lt field_float (key_float x) (key_float y) = float_lt x y
less float_lt field_string (key_string s) (key_string t) = is_negative (compare_nocase_rtrim s t)
less float_lt _ _ _ = false

-- The first list of keys comes before the second one.
abbrev pub precedes :
    {E F : Type 0} → (F → F → Bool) → List (OrderExpr E) → List (Key F) → List (Key F) → Bool
precedes float_lt (e ∷ es) (k ∷ ks) (l ∷ ls) =
    let asc = less float_lt e.field_type k l in
    let desc = less float_lt e.field_type l k in
    let later = precedes float_lt es ks ls in
    (if e.descending then desc else asc) || (not asc && not desc && later)
precedes float_lt _ _ _ = false

-- The key is of the type of its expression.
abbrev pub OfType : {F : Type 0} → FieldType → Key F → Type 0
OfType field_int (key_int i) = Unit
OfType field_float (key_float x) = Unit
OfType field_string (key_string s) = Unit
OfType _ _ = ⊥

abbrev pub AllOfType : {E F : Type 0} → List (OrderExpr E) → List (Key F) → Type 0
AllOfType (e ∷ es) (k ∷ ks) = OfType e.field_type k × AllOfType es ks
AllOfType _ _ = Unit

is_negative-num_compare : (a b : Bool) → (b ≡ true → a ≡ false) → is_negative (num_compare a b) ≡ b
is_negative-num_compare true true h = sym (h refl)
is_negative-num_compare true false h = refl
is_negative-num_compare false true h = refl
is_negative-num_compare false false h = refl

ltb_ℤ-asym : (i j : ℤ) → ltb_ℤ i j ≡ true → ltb_ℤ j i ≡ false
ltb_ℤ-asym i j h = ground arith

-- A number is 0 where neither it nor its opposite is negative.
is_zero-signs : (z : ℤ) → is_zero z ≡ (not (is_negative z) && not (is_negative (minus z)))
is_zero-signs (pos zero) = refl
is_zero-signs (pos (suc n)) = let above : leb (suc n) 0 ≡ false = ground arith in rw above refl
is_zero-signs (negsuc n) = refl

is_negative-directed :
    {E : Type 0} (e : OrderExpr E) (z : ℤ)
    → is_negative (directed e z) ≡ (if e.descending then is_negative (minus z) else is_negative z)
is_negative-directed e z = elim (Bool-cases e.descending) [ inl d ↦ rw d refl | inr a ↦ rw a refl ]

minus-minus_signs : (z : ℤ) → is_negative (minus (minus z)) ≡ is_negative z
minus-minus_signs (pos zero) = refl
minus-minus_signs (pos (suc n)) =
    let above : leb (suc n) 0 ≡ false = ground arith in
    let same : suc n - 0 - 1 ≡ n = omega arith in
    let below : leb 0 (suc n) ≡ true = ground arith in rw (above, same, below) refl
minus-minus_signs (negsuc n) =
    let below : leb 0 (suc n) ≡ true = ground arith in
    let above : leb (suc n) 0 ≡ false = ground arith in
    let same : suc n - 0 ≡ suc n = omega arith in rw (below, same, above) refl

-- Whether the loop stops, by the signs.
is_zero-directed :
    {E : Type 0} (e : OrderExpr E) (z : ℤ)
    → is_zero (directed e z) ≡ (not (is_negative z) && not (is_negative (minus z)))
is_zero-directed e z = elim (Bool-cases e.descending) [
  | inl d ↦ rw d (
      is_zero-signs (minus z)
      ∙ rw (minus-minus_signs z) (swap (is_negative (minus z)) (is_negative z)))
  | inr a ↦ rw a (is_zero-signs z)
]
  where
    swap : (a b : Bool) → (not a && not b) ≡ (not b && not a)
    swap true true = refl
    swap true false = refl
    swap false true = refl
    swap false false = refl

-- The code's test and branches, against those of the meaning: `lt` and `gt` are not both true.
decide :
    (d lt gt first later : Bool)
    → first ≡ (if d then gt else lt)
    → (if not lt && not gt then later else first)
      ≡ ((if d then gt else lt) || (not lt && not gt && later))
decide true true true first later h = h
decide true true false first later h = h
decide true false true first later h = h
decide true false false first later h = refl
decide false true true first later h = h
decide false true false first later h = h
decide false false true first later h = h
decide false false false first later h = refl

module _ {F : Type 0} (zero_float : F) (float_gt float_lt : F → F → Bool)
    (swap : (a b : F) → float_gt a b ≡ float_lt b a)
    (asym : (a b : F) → float_lt a b ≡ true → float_lt b a ≡ false) where
  compare_values-less :
      (t : FieldType) (k l : Key F)
      → OfType t k
      → OfType t l
      → is_negative (compare_values zero_float float_gt float_lt t (some k) (some l))
        ≡ less float_lt t k l
  compare_values-less field_int (key_int i) (key_int j) p q =
      is_negative-num_compare (ltb_ℤ j i) (ltb_ℤ i j) (ltb_ℤ-asym i j)
  compare_values-less field_float (key_float x) (key_float y) p q =
      is_negative-num_compare (float_gt x y) (float_lt x y) (λ h. swap x y ∙ asym x y h)
  compare_values-less field_string (key_string s) (key_string t) p q = refl
  compare_values-less field_undefined k l p q = absurd p
  compare_values-less field_int (key_int i) (key_float y) p q = absurd q
  compare_values-less field_int (key_int i) (key_string t) p q = absurd q
  compare_values-less field_int (key_float x) l p q = absurd p
  compare_values-less field_int (key_string s) l p q = absurd p
  compare_values-less field_float (key_int i) l p q = absurd p
  compare_values-less field_float (key_float x) (key_int j) p q = absurd q
  compare_values-less field_float (key_float x) (key_string t) p q = absurd q
  compare_values-less field_float (key_string s) l p q = absurd p
  compare_values-less field_string (key_int i) l p q = absurd p
  compare_values-less field_string (key_float x) l p q = absurd p
  compare_values-less field_string (key_string s) (key_int j) p q = absurd q
  compare_values-less field_string (key_string s) (key_float y) p q = absurd q

  -- The comparison of the code is negative exactly where the keys come first.
  pub compare_keys-precedes :
      {E : Type 0} (es : List (OrderExpr E)) (ks ls : List (Key F))
      → AllOfType es ks
      → AllOfType es ls
      → AllShort ks
      → AllShort ls
      → is_negative (compare_keys zero_float float_gt float_lt es ks ls)
        ≡ precedes float_lt es ks ls
  compare_keys-precedes [] ks ls p q short0 short1 = refl
  compare_keys-precedes (e ∷ es) [] ls p q short0 short1 = refl
  compare_keys-precedes (e ∷ es) (k ∷ ks) [] p q short0 short1 = refl
  compare_keys-precedes (e ∷ es) (k ∷ ks) (l ∷ ls) p q short0 short1 =
      let z = compare_values zero_float float_gt float_lt e.field_type (some k) (some l) in
      let back = compare_values zero_float float_gt float_lt e.field_type (some l) (some k) in
      let rest = compare_keys zero_float float_gt float_lt es ks ls in
      let lt : is_negative z ≡ less float_lt e.field_type k l =
        compare_values-less e.field_type k l p.0 q.0 in
      let gt : is_negative (minus z) ≡ less float_lt e.field_type l k =
        ap is_negative (
          sym (
            compare_values-minus zero_float float_gt float_lt swap e.field_type (some l) (some k)
              short1.0 short0.0))
        ∙ compare_values-less e.field_type l k q.0 p.0 in
      branch (directed e z) rest
      ∙ ap₂ (λ (zero_here first : Bool). if zero_here then is_negative rest else first)
          (is_zero-directed e z) (is_negative-directed e z)
      ∙ decide e.descending (is_negative z) (is_negative (minus z))
          (if e.descending then is_negative (minus z) else is_negative z) (is_negative rest) refl
      ∙ rw (lt, gt, compare_keys-precedes es ks ls p.1 q.1 short0.1 short1.1) refl
    where
      branch :
          (ret rest : ℤ)
          → is_negative (if is_zero ret then rest else ret)
            ≡ (if is_zero ret then is_negative rest else is_negative ret)
      branch ret rest = elim (Bool-cases (is_zero ret)) [ inl z ↦ rw z refl | inr n ↦ rw n refl ]
