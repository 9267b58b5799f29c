-- ===== src/Search/Layout.antt =====
-- The groups that a walk of the parse tree leaves in memory.
use fql.Prelude.{
  ℕ, zero, suc, ◌+◌, ◌%◌, ◌<◌, false, Option, none, some, List, [], ◌∷◌, ◌++◌, ◌≡◌, refl, ◌∙◌, sym,
  ap, ◌==◌, length, arith, append_assoc, length-append,
}
use fql.Logic.{LogicGroup, lg_and, lg_or, lg_predicate}
use fql.Search.{
  GroupType, group_and, group_or, group_predicate, Cell, Builder, update, logicgroup_construct,
  add_item, link, add_logic_item, pop_group, with_negation, with_condition, update_top,
  enter_predicate, add_condition, SearchCondition, sc_and, sc_or, sc_predicate, sc_bracket, walk,
}

-- The group of a search condition as the code builds it.
abbrev pub group_of : SearchCondition → LogicGroup
group_of (sc_and a b) = lg_and (group_of a) (group_of b)
group_of (sc_or a b) = lg_or (group_of a) (group_of b)
group_of (sc_predicate nots inner c) = lg_predicate c (inner % 2 == 1)
group_of (sc_bracket nots a) = group_of a

abbrev pub size : SearchCondition → ℕ
size (sc_and a b) = suc (size a + size b)
size (sc_or a b) = suc (size a + size b)
size (sc_predicate nots inner c) = 1
size (sc_bracket nots a) = size a

abbrev pub node : GroupType → ℕ → ℕ → Cell
node type a b = record {
  type = type;
  item0 = some a;
  item1 = some b;
  condition = none;
  negation = false;
}

-- The cells of a search condition from an address on.
abbrev pub layout : ℕ → SearchCondition → List Cell
layout n (sc_and a b) =
    node group_and (suc n) (suc n + size a) ∷ (layout (suc n) a ++ layout (suc n + size a) b)
layout n (sc_or a b) =
    node group_or (suc n) (suc n + size a) ∷ (layout (suc n) a ++ layout (suc n + size a) b)
layout n (sc_predicate nots inner c) =
    record {
      type = group_predicate;
      item0 = none;
      item1 = none;
      condition = some c;
      negation = inner % 2 == 1;
    }
    ∷ []
layout n (sc_bracket nots a) = layout n a

pub length-layout : (n : ℕ) (t : SearchCondition) → length (layout n t) ≡ size t
length-layout n (sc_and a b) = omega (
  arith,
  length-append (layout (suc n) a) (layout (suc n + size a) b),
  length-layout (suc n) a,
  length-layout (suc n + size a) b,
)
length-layout n (sc_or a b) = omega (
  arith,
  length-append (layout (suc n) a) (layout (suc n + size a) b),
  length-layout (suc n) a,
  length-layout (suc n + size a) b,
)
length-layout n (sc_predicate nots inner c) = refl
length-layout n (sc_bracket nots a) = length-layout n a

update-at :
    (f : Cell → Cell) (i : ℕ) (xs : List Cell) (c : Cell) (ys : List Cell)
    → length xs ≡ i
    → update f i (xs ++ (c ∷ ys)) ≡ xs ++ (f c ∷ ys)
update-at f zero [] c ys e = refl
update-at f (suc i) [] c ys e = absurd (omega arith)
update-at f zero (x ∷ xs) c ys e = absurd (omega arith)
update-at f (suc i) (x ∷ xs) c ys e = ap (λ l. x ∷ l) (update-at f i xs c ys (omega arith))

update-before :
    (f : Cell → Cell) (i : ℕ) (xs ys : List Cell)
    → i < length xs
    → update f i (xs ++ ys) ≡ update f i xs ++ ys
update-before f i [] ys h = elim h [ ]
update-before f zero (x ∷ xs) ys h = refl
update-before f (suc i) (x ∷ xs) ys h = ap (λ l. x ∷ l) (update-before f i xs ys (omega arith))

-- The open group on top stands in memory.
abbrev Below : List ℕ → ℕ → Type 0
Below [] n = Unit
Below (parent ∷ rest) n = parent < n

abbrev outcome : List ℕ → ℕ → Option ℕ → Option ℕ
outcome [] n assigned = some n
outcome (parent ∷ rest) n assigned = assigned

abbrev pub build : List Cell → List ℕ → Option ℕ → Builder
build cells stack assigned = record { cells = cells; logic_stack = stack; assigned = assigned }

link-append :
    (stack : List ℕ) (n : ℕ) (cells ys : List Cell)
    → Below stack n
    → length cells ≡ n
    → link stack n (cells ++ ys) ≡ link stack n cells ++ ys
link-append [] n cells ys h e = refl
link-append (parent ∷ rest) n cells ys h e =
    update-before (add_item n) parent cells ys (omega arith)

length-update : (f : Cell → Cell) (i : ℕ) (xs : List Cell) → length (update f i xs) ≡ length xs
length-update f i [] = refl
length-update f zero (x ∷ xs) = refl
length-update f (suc i) (x ∷ xs) = ap suc (length-update f i xs)

length-link :
    (stack : List ℕ) (n : ℕ) (cells : List Cell) → length (link stack n cells) ≡ length cells
length-link [] n cells = refl
length-link (parent ∷ rest) n cells = length-update (add_item n) parent cells

-- A walk links the new group to the one on top and lays its cells out behind the others.
LaysOut : SearchCondition → Type 0
LaysOut t =
    (n : ℕ) (cells : List Cell) (stack : List ℕ) (assigned : Option ℕ)
    → Below stack n
    → length cells ≡ n
    → walk t (build cells stack assigned)
      ≡ build (link stack n (cells ++ layout n t)) stack (outcome stack n assigned)

walk-child :
    (t : SearchCondition) (n m : ℕ) (cells : List Cell) (c : Cell) (ys : List Cell) (stack : List ℕ)
    (assigned : Option ℕ)
    → LaysOut t
    → length cells ≡ n
    → suc n + length ys ≡ m
    → walk t (build (cells ++ (c ∷ ys)) (n ∷ stack) assigned)
      ≡ build (cells ++ (add_item m c ∷ (ys ++ layout m t))) (n ∷ stack) assigned
unfolding LaysOut
walk-child t n m cells c ys stack assigned ih e f =
    ih m (cells ++ (c ∷ ys)) (n ∷ stack) assigned (omega arith)
      (omega (arith, length-append cells (c ∷ ys)))
    ∙ ap (λ l. build l (n ∷ stack) assigned)
        (ap (λ l. update (add_item m) n l) (append_assoc cells (c ∷ ys) (layout m t))
          ∙ update-at (add_item m) n cells c (ys ++ layout m t) e)

pop-build :
    (n : ℕ) (stack : List ℕ) (cells : List Cell) (assigned : Option ℕ)
    → pop_group (build cells (n ∷ stack) assigned) ≡ build cells stack (outcome stack n assigned)
pop-build n [] cells assigned = refl
pop-build n (next ∷ rest) cells assigned = refl

walk-pair :
    (type : GroupType) (a b : SearchCondition) (n : ℕ) (cells : List Cell) (stack : List ℕ)
    (assigned : Option ℕ)
    → LaysOut a
    → LaysOut b
    → Below stack n
    → length cells ≡ n
    → pop_group (walk b (walk a (add_logic_item type (build cells stack assigned))))
      ≡ build
          (link stack n (
            cells
            ++ (node type (suc n) (suc n + size a)
                ∷ (layout (suc n) a ++ layout (suc n + size a) b))))
          stack
          (outcome stack n assigned)
walk-pair type a b n cells stack assigned iha ihb h e =
    let kept = link stack n cells in
    let width : length kept ≡ n = length-link stack n cells ∙ e in
    let m = suc n + size a in
    ap
      (λ i. pop_group (
        walk b (
          walk a (
            build (link stack i (cells ++ (logicgroup_construct type ∷ []))) (i ∷ stack)
              assigned))))
      e
    ∙ ap (λ l. pop_group (walk b (walk a (build l (n ∷ stack) assigned))))
        (link-append stack n cells (logicgroup_construct type ∷ []) h e)
    ∙ ap (λ s. pop_group (walk b s))
        (walk-child a n (suc n) kept (logicgroup_construct type) [] stack assigned iha width
          (omega arith))
    ∙ ap pop_group (
        walk-child b n m kept _ (layout (suc n) a) stack assigned ihb width
          (omega (arith, length-layout (suc n) a)))
    ∙ pop-build n stack _ assigned
    ∙ ap (λ l. build l stack (outcome stack n assigned)) (sym (link-append stack n cells _ h e))

walk-leaf :
    (inner c n : ℕ) (cells : List Cell) (stack : List ℕ) (assigned : Option ℕ)
    → Below stack n
    → length cells ≡ n
    → pop_group (add_condition c (enter_predicate inner (build cells stack assigned)))
      ≡ build
          (link stack n (cells ++ layout n (sc_predicate 0 inner c)))
          stack
          (outcome stack n assigned)
walk-leaf inner c n cells stack assigned h e =
    let kept = link stack n cells in
    let width : length kept ≡ n = length-link stack n cells ∙ e in
    let new = logicgroup_construct group_predicate in
    ap
      (λ i. pop_group (
        add_condition c (
          update_top (with_negation inner)
            (build (link stack i (cells ++ (new ∷ []))) (i ∷ stack) assigned))))
      e
    ∙ ap
        (λ l.
          pop_group
            (add_condition c (update_top (with_negation inner) (build l (n ∷ stack) assigned))))
        (link-append stack n cells (new ∷ []) h e)
    ∙ ap (λ l. pop_group (add_condition c (build l (n ∷ stack) assigned)))
        (update-at (with_negation inner) n kept new [] width)
    ∙ ap (λ l. pop_group (build l (n ∷ stack) assigned))
        (update-at (with_condition c) n kept _ [] width)
    ∙ pop-build n stack _ assigned
    ∙ ap (λ l. build l stack (outcome stack n assigned)) (sym (link-append stack n cells _ h e))

walk-LaysOut : (t : SearchCondition) → LaysOut t
unfolding LaysOut walk
walk-LaysOut (sc_and a b) n cells stack assigned h e =
    walk-pair group_and a b n cells stack assigned (walk-LaysOut a) (walk-LaysOut b) h e
walk-LaysOut (sc_or a b) n cells stack assigned h e =
    walk-pair group_or a b n cells stack assigned (walk-LaysOut a) (walk-LaysOut b) h e
walk-LaysOut (sc_bracket nots a) n cells stack assigned h e =
    walk-LaysOut a n cells stack assigned h e
walk-LaysOut (sc_predicate nots inner c) n cells stack assigned h e =
    walk-leaf inner c n cells stack assigned h e

pub walk-layout : (t : SearchCondition) → walk t (build [] [] none) ≡ build (layout 0 t) [] (some 0)
unfolding LaysOut
walk-layout t = walk-LaysOut t 0 [] [] none tt refl
