-- ===== src/Logic/HashJoin.antt =====
-- A hash join evaluates one equality of the join condition by its table and then runs
-- `logicgroup_eval` with that equality skipped (lib/schema.c picks it by `logic_can_be_false`).
use fql.Prelude.{
  ℕ, Bool, true, false, Option, none, some, ◌≡◌, ◌↔◌, arith, ◌==◌, ==_iff, Option-cases, Bool-cases,
  inl, inr,
}
use fql.Logic.{LogicGroup, lg_and, lg_or, lg_predicate, eval, can_be_false}

-- No predicate over the condition `j` is negated.
abbrev pub PlainAt : ℕ → LogicGroup → Type 0
PlainAt j (lg_and a b) = PlainAt j a × PlainAt j b
PlainAt j (lg_or a b) = PlainAt j a × PlainAt j b
PlainAt j (lg_predicate c negation) = c ≡ j → negation ≡ false

module _ {R : Type 0} (call : ℕ → R → Option Bool) (rg : R) (j : ℕ) where
  -- A condition that must hold does hold on every row that the group accepts.
  pub can_be_false_sound :
      (g : LogicGroup)
      → PlainAt j g
      → can_be_false g j ≡ false
      → eval call g rg none ≡ some true
      → call j rg ≡ some true
  unfolding eval can_be_false
  can_be_false_sound (lg_and a b) p must h = elim (Option-cases (eval call a rg none)) [
    | inl e ↦ absurd (cc (rw e at h))
    | inr (x, e) ↦ ground (arith, can_be_false_sound a p.0, can_be_false_sound b p.1)
  ]
  can_be_false_sound (lg_or a b) p must h = elim (Option-cases (eval call a rg none)) [
    | inl e ↦ absurd (cc (rw e at h))
    | inr (x, e) ↦ ground (arith, can_be_false_sound a p.0, can_be_false_sound b p.1)
  ]
  can_be_false_sound (lg_predicate c negation) p must h = elim (Bool-cases (c == j)) [
    | inl same ↦ let e : c ≡ j = (==_iff c j).0 same in ground arith
    | inr other ↦ absurd (ground arith)
  ]

  -- Where the condition holds, leaving it out changes nothing.
  pub eval-skip :
      (g : LogicGroup)
      → PlainAt j g
      → call j rg ≡ some true
      → eval call g rg (some j) ≡ eval call g rg none
  unfolding eval
  eval-skip (lg_and a b) p holds = rw (eval-skip a p.0 holds, eval-skip b p.1 holds)
  eval-skip (lg_or a b) p holds = rw (eval-skip a p.0 holds, eval-skip b p.1 holds)
  eval-skip (lg_predicate c negation) p holds = elim (Bool-cases (c == j)) [
    | inl same ↦ let e : c ≡ j = (==_iff c j).0 same in ground arith
    | inr other ↦ rw other
  ]

  -- Where no predicate over the hashed equality is negated and `logic_can_be_false` says that it has to
  -- hold, a row is accepted exactly when it passes the equality and then the group without it.
  pub hash_join_exact :
      (g : LogicGroup)
      → PlainAt j g
      → can_be_false g j ≡ false
      → (eval call g rg none ≡ some true)
        ↔ ((call j rg ≡ some true) × (eval call g rg (some j) ≡ some true))
  hash_join_exact g p must = (
    λ h. let holds = can_be_false_sound g p must h in (holds, rw (eval-skip g p holds) h),
    λ h. rw (eval-skip g p h.0) at h.1,
  )
