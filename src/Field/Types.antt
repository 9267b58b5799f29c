-- ===== src/Field/Types.antt =====
-- `field_determine_type` is a join: the result does not depend on the order or the repetition of
-- the operands.
use fql.Prelude.{◌≡◌, refl, List, [], ◌∷◌, ◌∙◌, ap, arith}
use mathlib.Core.List.{Permᴰ, Perm}
use mathlib.Core.Logic.{∥∥₁_elim}
use fql.Field.{FieldType, determine_type, inlist_type}

pub determine_type_comm : (a b : FieldType) → determine_type a b ≡ determine_type b a
unfolding determine_type
determine_type_comm a b = ground arith

pub determine_type_assoc :
    (a b c : FieldType)
    → determine_type (determine_type a b) c ≡ determine_type a (determine_type b c)
unfolding determine_type
determine_type_assoc a b c = ground arith

inlist_type-join :
    (a b : FieldType) (ts : List FieldType)
    → inlist_type (determine_type a b) ts ≡ determine_type a (inlist_type b ts)
unfolding inlist_type
inlist_type-join a b [] = refl
inlist_type-join a b (t ∷ ts) =
    rw (determine_type_assoc a b t) (inlist_type-join a (determine_type b t) ts)

inlist_type-permᴰ :
    {ts us : List FieldType} → Permᴰ ts us → (a : FieldType) → inlist_type a ts ≡ inlist_type a us
unfolding inlist_type
inlist_type-permᴰ Permᴰ.nil a = refl
inlist_type-permᴰ (Permᴰ.cons {a = t} e p) a = rw e (inlist_type-permᴰ p _)
inlist_type-permᴰ (Permᴰ.swap {a = t} {b = u} {l = l} e f) a =
    rw (e, f, determine_type_assoc, determine_type_assoc)
      (ap (λ x. inlist_type (determine_type a x) l) (determine_type_comm _ _))
inlist_type-permᴰ (Permᴰ.trans p q) a = inlist_type-permᴰ p a ∙ inlist_type-permᴰ q a

FieldType-set : IsSet FieldType
FieldType-set = hlevel

-- The type of an IN test does not depend on the order of the listed items.
pub inlist_type-perm :
    (a : FieldType) {ts us : List FieldType} → Perm ts us → inlist_type a ts ≡ inlist_type a us
inlist_type-perm a p = ∥∥₁_elim p (FieldType-set _ _) (λ q. inlist_type-permᴰ q a)
