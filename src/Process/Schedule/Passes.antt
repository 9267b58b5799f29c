-- ===== src/Process/Schedule/Passes.antt =====
-- The passes of lib/process.c: the one that finds nothing left to do, and the loop around them.
use fql.Prelude.{
  ℕ, zero, suc, ◌+◌, ◌<◌, ◌≤◌, true, false, Option, none, some, List, [], ◌∷◌, ◌≡◌, refl, ◌∙◌, ap,
  inl, inr, ◌⊎◌, arith, Bool-cases, Option-cases,
}
use fql.Process.{ProcReturn}
use fql.Process.Schedule.{Proc, Plan, is_enabled_at, exec_proc, exec_one_pass, process_exec_plan}
-- A process of the execution vector.
use fql.Process.Schedule.Turn.{SwitchesNothingOn, exec_proc-Turn, Turn-was_on, Turn-off}

abbrev pub Listed : ℕ → List ℕ → Type 0
Listed i [] = ⊥
Listed i (j ∷ is) = (i ≡ j) ⊎ Listed i is

abbrev pub AllOff : List Proc → List ℕ → Type 0
AllOff procs [] = Unit
AllOff procs (i ∷ is) = (is_enabled_at procs i ≡ false) × AllOff procs is

pub counted_pass {ℓ} :
    {A : Type ℓ} (n k : ℕ) (plan plan' : Plan A)
    → ◌≡◌ {A = Option (ℕ × Plan A)} (some (n, plan)) (some (k, plan'))
    → (n ≡ k) × (plan ≡ plan')
counted_pass n k plan plan' h = (cc, cc)

module _ {ℓ} {A : Type ℓ} (zero_elem : A) (action : ℕ → Plan A → Option (ProcReturn × Plan A)) where
  -- A pass over the rest of the execution vector.
  pass-was_on :
      (is : List ℕ) (count n : ℕ) (plan plan' : Plan A) (j : ℕ)
      → SwitchesNothingOn zero_elem action
      → exec_one_pass zero_elem action is count plan ≡ some (n, plan')
      → (count ≤ n) × (is_enabled_at plan'.procs j ≡ true → is_enabled_at plan.procs j ≡ true)
  unfolding exec_one_pass
  pass-was_on [] count n plan plan' j none_on h =
      let (same, same_plan) = counted_pass count n plan plan' h in
      (omega arith, λ on. ap (λ (q : Plan A). is_enabled_at q.procs j) same_plan ∙ on)
  pass-was_on (i ∷ is) count n plan plan' j none_on h =
      elim (Option-cases (exec_proc zero_elem action i plan)) [
        | inl bad ↦ absurd (let no_result : none ≡ some (n, plan') = rw bad at h in cc)
        | inr ((k, q), turn) ↦
            let (le, was) = pass-was_on is (count + k) n q plan' j none_on (rw turn at h) in
            (
              omega arith,
              λ on.
                  Turn-was_on zero_elem action i k plan q j none_on
                    (exec_proc-Turn zero_elem action i k plan q turn) (was on),
            )
      ]

  -- Where no action switches a process on and a pass counts nothing, it leaves each process that it
  -- comes to switched off.
  pub exec_one_pass-off :
      (is : List ℕ) (count : ℕ) (plan plan' : Plan A) (j : ℕ)
      → SwitchesNothingOn zero_elem action
      → exec_one_pass zero_elem action is count plan ≡ some (0, plan')
      → Listed j is
      → is_enabled_at plan'.procs j ≡ false
  unfolding exec_one_pass
  exec_one_pass-off (i ∷ is) count plan plan' j none_on h listed =
      elim (Option-cases (exec_proc zero_elem action i plan)) [
        | inl bad ↦ absurd (let no_result : none ≡ some (0, plan') = rw bad at h in cc)
        | inr ((k, q), turn) ↦
            let rest : exec_one_pass zero_elem action is (count + k) q ≡ some (0, plan') =
              rw turn at h in
            let (le, was) = pass-was_on is (count + k) 0 q plan' j none_on rest in
            elim listed [
              | inl same ↦ elim (Bool-cases (is_enabled_at plan'.procs j)) [
                | inl on ↦
                    let is_off =
                      Turn-off zero_elem action i k plan q (omega arith)
                        (exec_proc-Turn zero_elem action i k plan q turn) in
                    let is_on = was on in cc
                | inr is_off ↦ is_off
              ]
              | inr l ↦ exec_one_pass-off is (count + k) q plan' j none_on rest l
            ]
      ]
  exec_one_pass-off [] count plan plan' j none_on h listed = absurd listed

  AllOff-Listed :
      (procs : List Proc) (is : List ℕ)
      → ((j : ℕ) → Listed j is → is_enabled_at procs j ≡ false)
      → AllOff procs is
  AllOff-Listed procs [] h = tt
  AllOff-Listed procs (i ∷ is) h = (h i (inl refl), AllOff-Listed procs is (λ j l. h j (inr l)))

  -- How `process_exec_plan` ends: by a failure, or with a complete plan whose processes are off.
  abbrev pub Ended : List ℕ → Option (Plan A) → Type 0
  Ended execution_vector none = Unit
  Ended execution_vector (some plan) =
      (plan.is_complete ≡ true) × AllOff plan.procs execution_vector

  -- Where an invariant is kept and a measure brought down by each pass that counts something, and no
  -- action switches a process on, `process_exec_plan` ends: an action has failed, or the plan is
  -- complete and every process that it executes is off.
  pub process_exec_plan-Ended :
      (execution_vector : List ℕ) (Inv : Plan A → Type ℓ) (measure : Plan A → ℕ)
      → ((plan plan' : Plan A) (n : ℕ)
          → Inv plan
          → exec_one_pass zero_elem action execution_vector 0 plan ≡ some (suc n, plan')
          → Inv plan' × (measure plan' < measure plan))
      → SwitchesNothingOn zero_elem action
      → (fuel : ℕ) (plan : Plan A) → Inv plan
      → measure plan < fuel
      → (r : Option (Plan A)) × (process_exec_plan zero_elem action fuel execution_vector plan
          ≡ some r)
        × Ended execution_vector r
  unfolding process_exec_plan
  process_exec_plan-Ended vec Inv measure nearer none_on zero plan inv lt = absurd (omega arith)
  process_exec_plan-Ended vec Inv measure nearer none_on (suc fuel) plan inv lt =
      elim (Option-cases (exec_one_pass zero_elem action vec 0 plan)) [
        | inl bad ↦ (none, rw bad refl, tt)
        | inr ((zero, q), pass) ↦ (
          some (record q { is_complete = true }),
          rw pass refl,
          (
            refl,
            AllOff-Listed q.procs vec (λ j l. exec_one_pass-off vec 0 plan q j none_on pass l),
          ),
        )
        | inr ((suc n, q), pass) ↦
            let (inv', less) = nearer plan q n inv pass in
            let (r, runs, ends) =
              process_exec_plan-Ended vec Inv measure nearer none_on fuel q inv' (omega arith) in
            (r, rw pass runs, ends)
      ]
