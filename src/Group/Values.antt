-- ===== src/Group/Values.antt =====
-- The values that lib/group.c keeps of the first row of each group: what is pushed, read back as a key,
-- taken back, and found at the place of a group.
use fql.Prelude.{
  ℕ, zero, suc, ◌+◌, ◌-◌, true, Option, none, some, List, [], ◌∷◌, ◌++◌, ◌≡◌, refl, ◌∙◌, sym, ap,
  inl, inr, if◌then◌else◌, length, get_elem?, drop, map, arith, Bool-cases, Option-cases,
  length-append, length-map, append_assoc, append-nil,
}
use fql.Order.{got_or}
use fql.Prelude.Int.{ℤ, pos}
use fql.Status.{Got, ◌>>=◌}
use fql.Text.{Text}
use fql.Field.{FieldType, field_undefined, field_int, field_float, field_string}
use fql.Flex.{Pair, Flex, view, flex_pair_at, flex_push_back, flex_pop_back, pop_times, flex_resize}
use fql.Flex.Elements.{IsValid, elements, elements-flex_push_back, flex_pop_back-flex_push_back}
use fql.Group.{
  ExprKind, expr_aggregate, expr_row_number, expr_key, GroupExpr, is_key, push_value,
  composite_views, printed, push_values,
}

abbrev pub push_all : Flex → List Text → Flex
push_all f [] = f
push_all f (v ∷ vs) = push_all (flex_push_back f v) vs

pub elements-push_all :
    (f : Flex) (vs : List Text)
    → IsValid f
    → IsValid (push_all f vs) × (elements (push_all f vs) ≡ elements f ++ vs)
elements-push_all f [] v = (v, sym (append-nil (elements f)))
elements-push_all f (x ∷ vs) v =
    let (v', now) = elements-flex_push_back f x v in
    let (v'', all) = elements-push_all (flex_push_back f x) vs v' in
    (v'', all ∙ ap (λ l. l ++ vs) now ∙ append_assoc (elements f) (x ∷ []) vs)

pub length-elements : (f : Flex) → length (elements f) ≡ length f.pairs
length-elements f = length-map f.pairs (view f.raw)

-- Taking back what has been pushed.
pop_times-suc : (n : ℕ) (f : Flex) → pop_times (suc n) f ≡ flex_pop_back (pop_times n f)
unfolding pop_times
pop_times-suc zero f = refl
pop_times-suc (suc n) f = pop_times-suc n (flex_pop_back f)

pop_times-push_all : (f : Flex) (vs : List Text) → pop_times (length vs) (push_all f vs) ≡ f
unfolding pop_times
pop_times-push_all f [] = refl
pop_times-push_all f (v ∷ vs) =
    pop_times-suc (length vs) (push_all (flex_push_back f v) vs)
    ∙ ap flex_pop_back (pop_times-push_all (flex_push_back f v) vs)
    ∙ flex_pop_back-flex_push_back f v

length-push_all :
    (f : Flex) (vs : List Text) → length (push_all f vs).pairs ≡ length f.pairs + length vs
unfolding flex_push_back
length-push_all f [] = omega arith
length-push_all f (v ∷ vs) =
    let new : Pair = record { idx = length f.raw; len = length v } in
    omega (arith, length-push_all (flex_push_back f v) vs, length-append f.pairs (new ∷ []))

pub flex_resize-push_all :
    (f : Flex) (vs : List Text) → flex_resize (push_all f vs) (length f.pairs) ≡ f
unfolding flex_resize
flex_resize-push_all f vs =
    let count : length (push_all f vs).pairs - length f.pairs ≡ length vs =
      omega (arith, length-push_all f vs) in
    rw count (pop_times-push_all f vs)

-- The element at a place, from those that are left there.
pair_at-views :
    (raw : Text) (ps : List Pair) (idx : ℕ) (v : Text) (rest : List Text)
    → drop idx (map (view raw) ps) ≡ v ∷ rest
    → ((get_elem? ps idx >>= λ pair. some (view raw pair)) ≡ some v)
      × (drop (suc idx) (map (view raw) ps) ≡ rest)
pair_at-views raw [] zero v rest h = cc
pair_at-views raw [] (suc idx) v rest h = cc
pair_at-views raw (p ∷ ps) zero v rest h =
    let first : view raw p ≡ v = cc in
    let others : map (view raw) ps ≡ rest = cc in (ap some first, others)
pair_at-views raw (p ∷ ps) (suc idx) v rest h = pair_at-views raw ps idx v rest h

pub pair_at-drop :
    (f : Flex) (idx : ℕ) (v : Text) (rest : List Text)
    → drop idx (elements f) ≡ v ∷ rest
    → (flex_pair_at f idx ≡ some v) × (drop (suc idx) (elements f) ≡ rest)
unfolding flex_pair_at
pair_at-drop f idx v rest h = pair_at-views f.raw f.pairs idx v rest h

pub composite_views-drop :
    (f : Flex) (idx : ℕ) (vs : List Text)
    → drop idx (elements f) ≡ vs
    → composite_views f idx (length vs) ≡ some vs
composite_views-drop f idx [] h = refl
composite_views-drop f idx (v ∷ vs) h =
    let (here, later) = pair_at-drop f idx v vs h in
    rw (here, composite_views-drop f (suc idx) vs later) refl

pub drop-length-append :
    {A : Type 0} (xs ys : List A) (n : ℕ) → n ≡ length xs → drop n (xs ++ ys) ≡ ys
drop-length-append [] ys zero h = refl
drop-length-append [] ys (suc n) h = absurd (omega arith)
drop-length-append (x ∷ xs) ys zero h = absurd (omega arith)
drop-length-append (x ∷ xs) ys (suc n) h = drop-length-append xs ys n (omega arith)

-- The number of expressions that are keys.
abbrev pub key_count : {E : Type 0} → List (GroupExpr E) → ℕ
key_count [] = 0
key_count (e ∷ exprs) = let rest = key_count exprs in if is_key e.kind then suc rest else rest

-- The types of the keys are known.
abbrev pub Known : FieldType → Type 0
Known field_undefined = ⊥
Known field_int = Unit
Known field_float = Unit
Known field_string = Unit

abbrev pub KeyKnown : ExprKind → FieldType → Type 0
KeyKnown (expr_aggregate k) type = Unit
KeyKnown expr_row_number type = Unit
KeyKnown expr_key type = Known type

abbrev pub AllKnown : {E : Type 0} → List (GroupExpr E) → Type 0
AllKnown [] = Unit
AllKnown (e ∷ exprs) = KeyKnown e.kind e.field_type × AllKnown exprs

Known-key :
    (kind : ExprKind) (type : FieldType) → is_key kind ≡ true → KeyKnown kind type → Known type
Known-key (expr_aggregate k) type is known = cc
Known-key expr_row_number type is known = cc
Known-key expr_key type is known = known

module _ {E F R : Type 0} (zero_float : F) (get_int : E → R → Got ℤ) (get_float : E → R → Got F)
    (get_string : E → R → Option Text → Option (Option Text)) (show_int : ℤ → Text)
    (show_float : F → Text) where
  -- The key of a row: the values of the keys, one after another. A row has one where no getter fails,
  -- and no getter leaves the view as it was before a view has been stored for the row.
  abbrev pub with_value : Option Text → List Text → List Text
  with_value none vs = vs
  with_value (some v) vs = v ∷ vs

  abbrev pub row_key : List (GroupExpr E) → R → Option Text → Option (List Text)
  row_key [] rg sv = some []
  row_key (e ∷ exprs) rg sv =
      let skipped = row_key exprs rg sv in
      let pushed : Option Text × Option Text → Option (List Text) =
        λ (v, sv'). row_key exprs rg sv' >>= λ vs. some (with_value v vs) in
      if is_key e.kind
      then printed zero_float get_int get_float get_string show_int show_float e.field_type e.expr
          rg sv
        >>= pushed
      else skipped

  key_text : FieldType → E → R → Option Text → Option (Option Text × Option Text)
  key_text = printed zero_float get_int get_float get_string show_int show_float

  row_key-cons :
      (e : GroupExpr E) (exprs : List (GroupExpr E)) (rg : R) (sv : Option Text) (key : List Text)
      → is_key e.kind ≡ true
      → row_key (e ∷ exprs) rg sv ≡ some key
      → (v : Option Text) × (sv' : Option Text) × (vs : List Text) × (key_text e.field_type e.expr
            rg sv
          ≡ some (v, sv'))
        × (row_key exprs rg sv' ≡ some vs)
        × (with_value v vs ≡ key)
  unfolding key_text
  row_key-cons e exprs rg sv key is h = elim (Option-cases (key_text e.field_type e.expr rg sv)) [
    | inl fails ↦ let clash : none ≡ some key = rw (is, fails) at h in cc
    | inr ((v, sv'), prints) ↦ elim (Option-cases (row_key exprs rg sv')) [
      | inl fails ↦ let clash : none ≡ some key = rw (is, prints, fails) at h in cc
      | inr (vs, rest) ↦
          let eq : some (with_value v vs) ≡ some key = rw (is, prints, rest) at h in
          (v, sv', vs, prints, rest, cc)
    ]
  ]

  push_all-with_value :
      (f : Flex) (v : Option Text) (vs : List Text)
      → push_all (push_value f v) vs ≡ push_all f (with_value v vs)
  push_all-with_value f none vs = refl
  push_all-with_value f (some x) vs = refl

  pub push_values-row_key :
      (exprs : List (GroupExpr E)) (rg : R) (sv : Option Text) (f : Flex) (key : List Text)
      → row_key exprs rg sv ≡ some key
      → push_values zero_float get_int get_float get_string show_int show_float exprs rg sv f
        ≡ some (push_all f key)
  unfolding push_values key_text
  push_values-row_key [] rg sv f key h =
      let eq : some [] ≡ some key = h in let none_left : key ≡ [] = cc in rw none_left refl
  push_values-row_key (e ∷ exprs) rg sv f key h = elim (Bool-cases (is_key e.kind)) [
    | inl is ↦
        let (v, sv', vs, prints, rest, eq) = row_key-cons e exprs rg sv key is h in
        rw (is, prints)
          (push_values-row_key exprs rg sv' (push_value f v) vs rest
            ∙ ap some (push_all-with_value f v vs ∙ ap (push_all f) eq))
    | inr other ↦
        let rest : row_key exprs rg sv ≡ some key = rw other at h in
        rw other (push_values-row_key exprs rg sv f key rest)
  ]

  key_text-Known :
      (type : FieldType) (e : E) (rg : R) (sv v sv' : Option Text)
      → Known type
      → key_text type e rg sv ≡ some (v, sv')
      → (x : Text) × (v ≡ some x)
  unfolding key_text
  key_text-Known field_undefined e rg sv v sv' known h = absurd known
  key_text-Known field_int e rg sv v sv' known h =
      elim (Option-cases (got_or (get_int e rg) (pos 0))) [
        | inl fails ↦ let clash : none ≡ some (v, sv') = rw fails at h in cc
        | inr (i, reads) ↦
            let eq : some (some (show_int i), sv) ≡ some (v, sv') = rw reads at h in
            (show_int i, cc)
      ]
  key_text-Known field_float e rg sv v sv' known h =
      elim (Option-cases (got_or (get_float e rg) zero_float)) [
        | inl fails ↦ let clash : none ≡ some (v, sv') = rw fails at h in cc
        | inr (x, reads) ↦
            let eq : some (some (show_float x), sv) ≡ some (v, sv') = rw reads at h in
            (show_float x, cc)
      ]
  key_text-Known field_string e rg sv v sv' known h = elim (Option-cases (get_string e rg sv)) [
    | inl fails ↦ let clash : none ≡ some (v, sv') = rw fails at h in cc
    | inr (none, reads) ↦ let clash : none ≡ some (v, sv') = rw reads at h in cc
    | inr (some x, reads) ↦
        let eq : some (some x, some x) ≡ some (v, sv') = rw reads at h in (x, cc)
  ]

  pub length-row_key :
      (exprs : List (GroupExpr E)) (rg : R) (sv : Option Text) (key : List Text)
      → AllKnown exprs
      → row_key exprs rg sv ≡ some key
      → length key ≡ key_count exprs
  length-row_key [] rg sv key known h =
      let eq : some [] ≡ some key = h in let none_left : key ≡ [] = cc in rw none_left refl
  length-row_key (e ∷ exprs) rg sv key known h = elim (Bool-cases (is_key e.kind)) [
    | inl is ↦
        let (v, sv', vs, prints, rest, eq) = row_key-cons e exprs rg sv key is h in
        let (x, there) =
          key_text-Known e.field_type e.expr rg sv v sv' (Known-key e.kind e.field_type is known.0)
            prints in
        let all : x ∷ vs ≡ key = ap (λ o. with_value o vs) (sym there) ∙ eq in
        rw is (ap length (sym all) ∙ ap suc (length-row_key exprs rg sv' vs known.1 rest))
    | inr other ↦
        let rest : row_key exprs rg sv ≡ some key = rw other at h in
        rw other (length-row_key exprs rg sv key known.1 rest)
  ]
