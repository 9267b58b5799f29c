-- ===== src/Search/Built.antt =====
-- The condition that a walk of the parse tree builds, against what SQL means by it.
use fql.Prelude.{
  ℕ, zero, suc, ◌+◌, ◌%◌, Bool, false, not, ◌&&◌, ◌||◌, none, some, List, [], ◌∷◌, ◌++◌, ◌≡◌, refl,
  ◌∙◌, sym, ap, ◌==◌, length, arith, append_assoc, length-append, if◌then◌else◌, get_elem?,
  append-nil,
}
use fql.Logic.{LogicGroup, lg_and, lg_or, lg_predicate}
use fql.Logic.Eval.{meaning}
use fql.Search.{
  group_and, group_or, group_predicate, Cell, SearchCondition, sc_and, sc_or, sc_predicate,
  sc_bracket, walk,
}
use fql.Search.Layout.{group_of, size, node, layout, length-layout, walk-layout, build}

-- The cell at an address and those below it make up a group.
abbrev pub Represents : List Cell → ℕ → LogicGroup → Type 0
Represents cells i (lg_and a b) =
    (j : ℕ) × (k : ℕ) × (get_elem? cells i ≡ some (node group_and j k))
    × Represents cells j a
    × Represents cells k b
Represents cells i (lg_or a b) =
    (j : ℕ) × (k : ℕ) × (get_elem? cells i ≡ some (node group_or j k))
    × Represents cells j a
    × Represents cells k b
Represents cells i (lg_predicate c negation) =
    get_elem? cells i
    ≡ some (record {
      type = group_predicate;
      item0 = none;
      item1 = none;
      condition = some c;
      negation = negation;
    })

get_elem?-at {ℓ} :
    {A : Type ℓ} (i : ℕ) (xs : List A) (c : A) (ys : List A)
    → length xs ≡ i
    → get_elem? (xs ++ (c ∷ ys)) i ≡ some c
get_elem?-at zero [] c ys e = refl
get_elem?-at (suc i) [] c ys e = absurd (omega arith)
get_elem?-at zero (x ∷ xs) c ys e = absurd (omega arith)
get_elem?-at (suc i) (x ∷ xs) c ys e = get_elem?-at i xs c ys (omega arith)

-- The place of two lists behind a cell.
first_place :
    (xs : List Cell) (c : Cell) (left right ys : List Cell)
    → xs ++ ((c ∷ (left ++ right)) ++ ys) ≡ (xs ++ (c ∷ [])) ++ (left ++ (right ++ ys))
first_place xs c left right ys = sym (
    append_assoc xs (c ∷ []) (left ++ (right ++ ys))
    ∙ ap (λ l. xs ++ (c ∷ l)) (sym (append_assoc left right ys)))

second_place :
    (xs : List Cell) (c : Cell) (left right ys : List Cell)
    → xs ++ ((c ∷ (left ++ right)) ++ ys) ≡ ((xs ++ (c ∷ [])) ++ left) ++ (right ++ ys)
second_place xs c left right ys =
    first_place xs c left right ys ∙ sym (append_assoc (xs ++ (c ∷ [])) left (right ++ ys))

layout-Represents :
    (t : SearchCondition) (n : ℕ) (xs ys cells : List Cell)
    → length xs ≡ n
    → cells ≡ xs ++ (layout n t ++ ys)
    → Represents cells n (group_of t)
layout-Represents (sc_and a b) n xs ys cells e here =
    let c = node group_and (suc n) (suc n + size a) in
    let left = layout (suc n) a in
    let right = layout (suc n + size a) b in
    (
      suc n,
      suc n + size a,
      ap (λ l. get_elem? l n) here ∙ get_elem?-at n xs c ((left ++ right) ++ ys) e,
      layout-Represents a (suc n) (xs ++ (c ∷ [])) (right ++ ys) cells
          (omega (arith, length-append xs (c ∷ []))) (here ∙ first_place xs c left right ys),
      layout-Represents b (suc n + size a) ((xs ++ (c ∷ [])) ++ left) ys cells
          (omega (
            arith,
            length-append (xs ++ (c ∷ [])) left,
            length-append xs (c ∷ []),
            length-layout (suc n) a,
          ))
          (here ∙ second_place xs c left right ys),
    )
layout-Represents (sc_or a b) n xs ys cells e here =
    let c = node group_or (suc n) (suc n + size a) in
    let left = layout (suc n) a in
    let right = layout (suc n + size a) b in
    (
      suc n,
      suc n + size a,
      ap (λ l. get_elem? l n) here ∙ get_elem?-at n xs c ((left ++ right) ++ ys) e,
      layout-Represents a (suc n) (xs ++ (c ∷ [])) (right ++ ys) cells
          (omega (arith, length-append xs (c ∷ []))) (here ∙ first_place xs c left right ys),
      layout-Represents b (suc n + size a) ((xs ++ (c ∷ [])) ++ left) ys cells
          (omega (
            arith,
            length-append (xs ++ (c ∷ [])) left,
            length-append xs (c ∷ []),
            length-layout (suc n) a,
          ))
          (here ∙ second_place xs c left right ys),
    )
layout-Represents (sc_predicate nots inner c) n xs ys cells e here =
    ap (λ l. get_elem? l n) here ∙ get_elem?-at n xs _ ys e
layout-Represents (sc_bracket nots a) n xs ys cells e here =
    layout-Represents a n xs ys cells e here

abbrev pub odd : ℕ → Bool
odd n = n % 2 == 1

abbrev pub negated : ℕ → Bool → Bool
negated nots b = if odd nots then not b else b

-- What SQL means by a search condition, every NOT included.
abbrev pub truth : (ℕ → Bool) → SearchCondition → Bool
truth v (sc_and a b) = truth v a && truth v b
truth v (sc_or a b) = truth v a || truth v b
truth v (sc_predicate nots inner c) = negated nots (negated inner (v c))
truth v (sc_bracket nots a) = negated nots (truth v a)

-- The NOT in front of predicates and brackets cancel out.
abbrev pub EvenNots : SearchCondition → Type 0
EvenNots (sc_and a b) = EvenNots a × EvenNots b
EvenNots (sc_or a b) = EvenNots a × EvenNots b
EvenNots (sc_predicate nots inner c) = odd nots ≡ false
EvenNots (sc_bracket nots a) = (odd nots ≡ false) × EvenNots a

meaning-truth :
    (v : ℕ → Bool) (t : SearchCondition) → EvenNots t → meaning v none (group_of t) ≡ truth v t
unfolding meaning
meaning-truth v (sc_and a b) h = rw (meaning-truth v a h.0, meaning-truth v b h.1) refl
meaning-truth v (sc_or a b) h = rw (meaning-truth v a h.0, meaning-truth v b h.1) refl
meaning-truth v (sc_predicate nots inner c) h = rw h refl
meaning-truth v (sc_bracket nots a) h = rw h.0 (meaning-truth v a h.1)

-- Walking a search condition from an empty stack leaves it empty and hands over a group that memory
-- represents; where the NOT in front of predicates and brackets cancel out, the truth table of that
-- group is what SQL means.
pub walk-Represents :
    (t : SearchCondition)
    → let self = walk t (build [] [] none) in
      (i : ℕ) × (g : LogicGroup) × (self.logic_stack ≡ [])
      × (self.assigned ≡ some i)
      × Represents self.cells i g
      × (EvenNots t → (v : ℕ → Bool) → meaning v none g ≡ truth v t)
walk-Represents t =
    let done = walk-layout t in
    (
      0,
      group_of t,
      ap (λ s. s.logic_stack) done,
      ap (λ s. s.assigned) done,
      layout-Represents t 0 [] [] _ refl (ap (λ s. s.cells) done ∙ sym (append-nil (layout 0 t))),
      λ h v. meaning-truth v t h,
    )
