-- ===== src/Process/Schedule/Turn.antt =====
-- What becomes of one process in a pass of lib/process.c.
use fql.Prelude.{
  ℕ, ◌+◌, Bool, true, false, Option, none, some, ◌≡◌, refl, ◌∙◌, sym, ap, inl, inr, ◌⊎◌,
  if◌then◌else◌, get_elem?, arith, Bool-cases, Option-cases,
}
use mathlib.Core.Path.{subst}
use fql.Process.{ProcReturn}
use fql.Process.Schedule.{
  Proc, Plan, ret_value, is_complete_ret, is_enabled_at, must_wait, counted, after_action,
  exec_proc,
}
use fql.Process.Schedule.Disable.{
  is_enabled_at-elem, is_enabled_at-none, process_disable-off, process_disable-was_on,
}

-- A process of the execution vector.
module _ {ℓ} {A : Type ℓ} (zero_elem : A) (action : ℕ → Plan A → Option (ProcReturn × Plan A)) where
  -- No action switches a process on.
  abbrev pub SwitchesNothingOn : Type ℓ
  SwitchesNothingOn =
      (i : ℕ) (ret : ProcReturn) (plan plan' : Plan A) (j : ℕ)
      → action i plan ≡ some (ret, plan')
      → is_enabled_at plan'.procs j ≡ true
      → is_enabled_at plan.procs j ≡ true

  keep_rows-procs :
      (b : Bool) (rows : ℕ) (plan : Plan A)
      → (if b then record plan { rows_affected = rows } else plan).procs ≡ plan.procs
  keep_rows-procs true rows plan = refl
  keep_rows-procs false rows plan = refl

  counted-procs :
      (i : ℕ) (ret : ProcReturn) (plan : Plan A)
      → (counted zero_elem action i ret plan).1.procs ≡ plan.procs
  unfolding counted
  counted-procs i ret plan = elim (Option-cases (get_elem? plan.procs i)) [
    | inl no_proc ↦ rw no_proc refl
    | inr (p, here) ↦ rw here (keep_rows-procs p.is_op_true p.rows_affected plan)
  ]

  counted-none :
      (i : ℕ) (ret : ProcReturn) (plan : Plan A)
      → (counted zero_elem action i ret plan).0 ≡ 0
      → (is_enabled_at plan.procs i ≡ false) ⊎ (ret_value ret ≡ 0)
  unfolding counted
  counted-none i ret plan h = elim (Option-cases (get_elem? plan.procs i)) [
    | inl no_proc ↦ inl (is_enabled_at-none plan.procs i no_proc)
    | inr (p, here) ↦
        let total : (if p.wait_for_in0 then 1 else 0) + ret_value ret ≡ 0 = rw here at h in
        inr (omega arith)
  ]

  after_action-was_on :
      (i : ℕ) (ret : ProcReturn) (plan : Plan A) (j : ℕ)
      → is_enabled_at (after_action zero_elem action i ret plan).1.procs j ≡ true
      → is_enabled_at plan.procs j ≡ true
  unfolding after_action
  after_action-was_on i ret plan j h =
      let before = ap (λ ps. is_enabled_at ps j) (sym (counted-procs i ret _)) ∙ h in
      elim (Bool-cases (is_complete_ret ret)) [
        | inl ended ↦ process_disable-was_on zero_elem i j plan (rw ended at before)
        | inr going ↦ rw going at before
      ]

  -- Where it adds nothing to the run count, the process is off.
  after_action-off :
      (i : ℕ) (ret : ProcReturn) (plan : Plan A)
      → (after_action zero_elem action i ret plan).0 ≡ 0
      → is_enabled_at (after_action zero_elem action i ret plan).1.procs i ≡ false
  unfolding after_action
  after_action-off i ret plan h =
      ap (λ ps. is_enabled_at ps i) (counted-procs i ret _) ∙ elim (counted-none i ret _ h) [
        | inl off ↦ off
        | inr zero_ret ↦
            let ended : is_complete_ret ret ≡ true = ground arith in
            rw ended (process_disable-off zero_elem i plan)
      ]

  -- What becomes of one process in a pass: it is off; it waits for one that is not; or it acts.
  pub data Turn (i : ℕ) (plan : Plan A) : ℕ → Plan A → Type ℓ where
    off : is_enabled_at plan.procs i ≡ false → Turn i plan 0 plan
    waits :
        (p : Proc)
        → get_elem? plan.procs i ≡ some p
        → must_wait plan.procs p.wait_list ≡ true
        → Turn i plan 1 plan
    acts :
        (p : Proc) (ret : ProcReturn) (plan' : Plan A)
        → get_elem? plan.procs i ≡ some p
        → p.is_enabled ≡ true
        → must_wait plan.procs p.wait_list ≡ false
        → action i plan ≡ some (ret, plan')
        → Turn i plan
            (after_action zero_elem action i ret plan').0
            (after_action zero_elem action i ret plan').1

  -- What the loop body of a pass does with a process: nothing, where it is off; it counts a process
  -- that has to wait for an enabled one; and only an enabled process that waits for none acts, after
  -- which it is switched off where it is done, and counted.
  pub exec_proc-Turn :
      (i n : ℕ) (plan plan' : Plan A)
      → exec_proc zero_elem action i plan ≡ some (n, plan')
      → Turn i plan n plan'
  unfolding exec_proc
  exec_proc-Turn i n plan plan' h = elim (Option-cases (get_elem? plan.procs i)) [
    | inl no_proc ↦
        let same : some (0, plan) ≡ some (n, plan') = rw no_proc at h in
        moved same (off (is_enabled_at-none plan.procs i no_proc))
    | inr (p, here) ↦ elim (Bool-cases p.is_enabled) [
      | inl on ↦ elim (Bool-cases (must_wait plan.procs p.wait_list)) [
        | inl wait ↦
            let same : some (1, plan) ≡ some (n, plan') = rw (here, on, wait) at h in
            moved same (waits p here wait)
        | inr go ↦ elim (Option-cases (action i plan)) [
          | inl bad ↦
              absurd (let no_result : none ≡ some (n, plan') = rw (here, on, go, bad) at h in cc)
          | inr ((ret, q), acted) ↦
              let same : some (after_action zero_elem action i ret q) ≡ some (n, plan') =
                rw (here, on, go, acted) at h in
              moved same (acts p ret q here on go acted)
        ]
      ]
      | inr is_off ↦
          let same : some (0, plan) ≡ some (n, plan') = rw (here, is_off) at h in
          moved same (off (is_enabled_at-elem plan.procs i p here ∙ is_off))
    ]
  ]
    where
      moved :
          {r : ℕ × Plan A} → some r ≡ some (n, plan') → Turn i plan r.0 r.1 → Turn i plan n plan'
      moved {r} same t =
          let eq : r ≡ (n, plan') = cc in subst (λ (q : ℕ × Plan A). Turn i plan q.0 q.1) eq t

  pub Turn-was_on :
      (i n : ℕ) (plan plan' : Plan A) (j : ℕ)
      → SwitchesNothingOn
      → Turn i plan n plan'
      → is_enabled_at plan'.procs j ≡ true
      → is_enabled_at plan.procs j ≡ true
  Turn-was_on i _ plan _ j none_on (off is_off) on = on
  Turn-was_on i _ plan _ j none_on (waits p here wait) on = on
  Turn-was_on i _ plan _ j none_on (acts p ret q here enabled go acted) on =
      none_on i ret plan q j acted (after_action-was_on i ret q j on)

  pub Turn-off :
      (i n : ℕ) (plan plan' : Plan A)
      → n ≡ 0
      → Turn i plan n plan'
      → is_enabled_at plan'.procs i ≡ false
  Turn-off i _ plan _ zero_count (off is_off) = is_off
  Turn-off i _ plan _ zero_count (waits p here wait) = absurd (omega arith)
  Turn-off i _ plan _ zero_count (acts p ret q here enabled go acted) =
      after_action-off i ret q zero_count
