-- ===== src/Logic/Eval.antt =====
-- `logicgroup_eval` against the truth table of the group, and the failures it passes up.
use fql.Prelude.{
  ℕ, ◌+◌, Bool, true, not, ◌&&◌, ◌||◌, Option, none, some, ◌≡◌, ◌⊎◌, inl, inr, if◌then◌else◌, List,
  [], ◌∷◌, ◌++◌, arith, length, length-append, Option-cases,
}
use fql.Logic.{
  LogicGroup, lg_and, lg_or, lg_predicate, is_skip, eval, conditions, condition_count,
  add_condition_count,
}

-- The truth table of a group: every condition has its value `v`, and the skipped one holds.
unfoldable pub meaning : (ℕ → Bool) → Option ℕ → LogicGroup → Bool
meaning v skip (lg_and a b) = meaning v skip a && meaning v skip b
meaning v skip (lg_or a b) = meaning v skip a || meaning v skip b
meaning v skip (lg_predicate c negation) =
    if is_skip skip c then true else (if negation then not (v c) else v c)

-- Some condition that the list names has the property.
abbrev pub Any : (ℕ → Type 0) → List ℕ → Type 0
Any P [] = ⊥
Any P (c ∷ cs) = P c ⊎ Any P cs

Any-append : (P : ℕ → Type 0) (xs ys : List ℕ) → Any P xs ⊎ Any P ys → Any P (xs ++ ys)
Any-append P [] ys (inl h) = absurd h
Any-append P [] ys (inr h) = h
Any-append P (x ∷ xs) ys (inl (inl h)) = inl h
Any-append P (x ∷ xs) ys (inl (inr h)) = inr (Any-append P xs ys (inl h))
Any-append P (x ∷ xs) ys (inr h) = inr (Any-append P xs ys (inr h))

module _ {R : Type 0} (call : ℕ → R → Option Bool) (rg : R) where
  -- For values that agree with what each condition returns where it does not fail, a result of the
  -- evaluation is the truth value of the group, with the skipped condition taken as true.
  pub eval-meaning :
      (v : ℕ → Bool) (skip : Option ℕ) (g : LogicGroup) (b : Bool)
      → ((c : ℕ) (a : Bool) → call c rg ≡ some a → v c ≡ a)
      → eval call g rg skip ≡ some b
      → meaning v skip g ≡ b
  unfolding eval meaning
  eval-meaning v skip (lg_and x y) b agree h = elim (Option-cases (eval call x rg skip)) [
    | inl e ↦ absurd (cc (rw e at h))
    | inr (a, e) ↦ ground (arith, eval-meaning v skip x a agree e, eval-meaning v skip y b agree)
  ]
  eval-meaning v skip (lg_or x y) b agree h = elim (Option-cases (eval call x rg skip)) [
    | inl e ↦ absurd (cc (rw e at h))
    | inr (a, e) ↦ ground (arith, eval-meaning v skip x a agree e, eval-meaning v skip y b agree)
  ]
  eval-meaning v skip (lg_predicate c negation) b agree h = elim (Option-cases (call c rg)) [
    | inl e ↦ ground arith
    | inr (a, e) ↦ ground (arith, agree c a e)
  ]

  -- FQL_FAIL comes only from a condition of the group that fails.
  pub eval-fails :
      (skip : Option ℕ) (g : LogicGroup)
      → eval call g rg skip ≡ none
      → Any (λ c. call c rg ≡ none) (conditions g)
  unfolding eval
  eval-fails skip (lg_and x y) h = elim (Option-cases (eval call x rg skip)) [
    | inl e ↦ Any-append _ (conditions x) (conditions y) (inl (eval-fails skip x e))
    | inr (a, e) ↦
        Any-append _ (conditions x) (conditions y) (inr (eval-fails skip y (ground arith)))
  ]
  eval-fails skip (lg_or x y) h = elim (Option-cases (eval call x rg skip)) [
    | inl e ↦ Any-append _ (conditions x) (conditions y) (inl (eval-fails skip x e))
    | inr (a, e) ↦
        Any-append _ (conditions x) (conditions y) (inr (eval-fails skip y (ground arith)))
  ]
  eval-fails skip (lg_predicate c negation) h = inl (ground arith)

add_condition_count-length :
    (g : LogicGroup) (n : ℕ) → add_condition_count g n ≡ n + length (conditions g)
unfolding add_condition_count
add_condition_count-length (lg_and a b) n = omega (
  arith,
  add_condition_count-length a n,
  add_condition_count-length b (add_condition_count a n),
  length-append (conditions a) (conditions b),
)
add_condition_count-length (lg_or a b) n = omega (
  arith,
  add_condition_count-length a n,
  add_condition_count-length b (add_condition_count a n),
  length-append (conditions a) (conditions b),
)
add_condition_count-length (lg_predicate c negation) n = omega arith

-- `logicgroup_get_condition_count` counts the predicates of the group, each as often as it occurs.
pub condition_count-length : (g : LogicGroup) → condition_count g ≡ length (conditions g)
unfolding condition_count
condition_count-length g = omega (arith, add_condition_count-length g 0)
