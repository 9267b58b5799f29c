-- ===== src/Case/Choice.antt =====
-- Which value a CASE expression has.
use fql.Prelude.{
  ℕ, zero, suc, ◌+◌, ◌-◌, Bool, true, false, Option, none, some, List, [], ◌∷◌, ◌++◌, ◌≡◌, refl,
  ◌∙◌, ap, ltb, length, arith, length-append, get_elem?,
}
use fql.Status.{Got, good, null, fail}
use fql.Logic.{LogicGroup, eval}
use fql.Case.{SwitchCase, test_idx, logic_eval_idx, switchcase_eval_to, expression_get_case}

module _ {R : Type 0} (call : ℕ → R → Option Bool) (rg : R) where
  -- Every test is false on the record.
  abbrev pub AllFalse : List LogicGroup → Type 0
  AllFalse [] = Unit
  AllFalse (lg ∷ lgs) = (eval call lg rg none ≡ some false) × AllFalse lgs

  test_idx-skip :
      (i j : ℕ) (before after : List LogicGroup)
      → AllFalse before
      → i + length before ≡ j
      → test_idx call i (before ++ after) rg ≡ test_idx call j after rg
  unfolding test_idx
  test_idx-skip i j [] after h e =
      let same : i ≡ j = omega arith in ap (λ k. test_idx call k after rg) same
  test_idx-skip i j (lg ∷ before) after h e =
      rw h.0 (test_idx-skip (i + 1) j before after h.1 (omega arith))

  test_idx-AllFalse :
      (i : ℕ) (lgs : List LogicGroup) → AllFalse lgs → test_idx call i lgs rg ≡ some none
  unfolding test_idx
  test_idx-AllFalse i [] h = refl
  test_idx-AllFalse i (lg ∷ lgs) h = rw h.0 (test_idx-AllFalse (i + 1) lgs h.1)

  test_idx-true :
      (i : ℕ) (lg : LogicGroup) (after : List LogicGroup)
      → eval call lg rg none ≡ some true
      → test_idx call i (lg ∷ after) rg ≡ some (some i)
  unfolding test_idx
  test_idx-true i lg after h = rw h refl

  test_idx-none :
      (i : ℕ) (lg : LogicGroup) (after : List LogicGroup)
      → eval call lg rg none ≡ none
      → test_idx call i (lg ∷ after) rg ≡ none
  unfolding test_idx
  test_idx-none i lg after h = rw h refl

  get_elem?-append :
      {E : Type 0} (first : List E) (e : E) (rest : List E) (i : ℕ)
      → length first ≡ i
      → get_elem? (first ++ (e ∷ rest)) i ≡ some e
  get_elem?-append [] e rest zero h = refl
  get_elem?-append [] e rest (suc i) h = absurd (omega arith)
  get_elem?-append (x ∷ first) e rest zero h = absurd (omega arith)
  get_elem?-append (x ∷ first) e rest (suc i) h = get_elem?-append first e rest i (omega arith)

  -- Where the tests before one are false and it holds, the CASE is the value that stands where the
  -- test does.
  pub switchcase_eval_to-first :
      {E A : Type 0} (get : E → R → Got A) (self : SwitchCase E) (before after : List LogicGroup)
      (lg : LogicGroup) (first rest : List E) (e : E)
      → self.tests ≡ before ++ (lg ∷ after)
      → self.values ≡ first ++ (e ∷ rest)
      → length first ≡ length before
      → AllFalse before
      → eval call lg rg none ≡ some true
      → switchcase_eval_to call get self rg ≡ get e rg
  unfolding switchcase_eval_to logic_eval_idx
  switchcase_eval_to-first get self before after lg first rest e ts vs same h holds =
      let found : test_idx call 0 (before ++ (lg ∷ after)) rg ≡ some (some (length before)) =
        test_idx-skip 0 (length before) before (lg ∷ after) h (omega arith)
        ∙ test_idx-true (length before) lg after holds in
      rw (ts, found, vs, get_elem?-append first e rest (length before) same) refl

  -- Where every test is false, the CASE is the ELSE value; without one it is NULL, which becomes the
  -- value stored for it, with FQL_GOOD, when an expression evaluates the CASE.
  pub switchcase_eval_to-else :
      {E A : Type 0} (stored : A) (get : E → R → Got A) (self : SwitchCase E)
      → AllFalse self.tests
      → ((first : List E) (e : E)
          → self.values ≡ first ++ (e ∷ [])
          → length first ≡ length self.tests
          → switchcase_eval_to call get self rg ≡ get e rg)
        × (length self.values ≡ length self.tests
            → (switchcase_eval_to call get self rg ≡ null)
              × (expression_get_case call stored get self rg ≡ good stored))
  unfolding switchcase_eval_to logic_eval_idx expression_get_case
  switchcase_eval_to-else stored get self h = (
    λ first e vs same.
        let size : length (first ++ (e ∷ [])) ≡ length self.tests + 1 =
          omega (arith, length-append first (e ∷ [])) in
        let longer : ltb (length self.tests) (length (first ++ (e ∷ []))) ≡ true = ground arith in
        let last : length first ≡ length (first ++ (e ∷ [])) - 1 = omega arith in
        rw (test_idx-AllFalse 0 self.tests h, vs, longer, get_elem?-append first e [] _ last) refl,
    λ same.
        let shorter : ltb (length self.tests) (length self.values) ≡ false = ground arith in
        (
          rw (test_idx-AllFalse 0 self.tests h, shorter) refl,
          rw (test_idx-AllFalse 0 self.tests h, shorter) refl,
        ),
  )

  -- Where the tests before one are false and it fails, so does the CASE.
  pub switchcase_eval_to-fails :
      {E A : Type 0} (get : E → R → Got A) (self : SwitchCase E) (before after : List LogicGroup)
      (lg : LogicGroup)
      → self.tests ≡ before ++ (lg ∷ after)
      → AllFalse before
      → eval call lg rg none ≡ none
      → switchcase_eval_to call get self rg ≡ fail
  unfolding switchcase_eval_to logic_eval_idx
  switchcase_eval_to-fails get self before after lg ts h fails =
      let found : test_idx call 0 (before ++ (lg ∷ after)) rg ≡ none =
        test_idx-skip 0 (length before) before (lg ∷ after) h (omega arith)
        ∙ test_idx-none (length before) lg after fails in
      rw (ts, found) refl
