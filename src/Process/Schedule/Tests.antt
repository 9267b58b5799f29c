-- ===== src/Process/Schedule/Tests.antt =====
-- Two processes, the first of which waits for the second, and the passes over them.
use fql.Prelude.{
  ℕ, suc, ◌+◌, ◌<◌, Bool, true, false, Option, none, some, List, [], ◌∷◌, ◌≡◌, refl, ◌∙◌, sym, ap,
  inl, inr, ◌⊎◌, if◌then◌else◌, arith,
}
use mathlib.Core.Path.{subst}
use fql.Fifo.{Fifo}
use fql.Fifo.Valid.{contents}
use fql.Process.{ProcReturn, complete}
use fql.Process.Schedule.{
  Proc, Plan, is_enabled_at, drain, exec_proc, exec_one_pass, process_exec_plan, process_step,
  process_disable,
}
use fql.Process.Schedule.Disable.{drain-contents}
use fql.Process.Schedule.Turn.{SwitchesNothingOn, Turn, exec_proc-Turn}
use fql.Process.Schedule.Passes.{counted_pass, Ended, process_exec_plan-Ended}

abbrev proc_of : Bool → Option (List ℕ) → Proc
proc_of is_enabled wait_list = record {
  is_enabled = is_enabled;
  wait_list = wait_list;
  wait_for_in0 = false;
  is_op_true = false;
  rows_affected = 0;
  fifo_in0 = none;
  fifo_in1 = none;
  fifo_out0 = none;
  fifo_out1 = none;
  root_fifo = none;
}

abbrev plan_of : Bool → Bool → Plan ℕ
plan_of first second = record {
  procs = proc_of first (some (1 ∷ [])) ∷ proc_of second none ∷ [];
  fifos = [];
  recycled = [];
  rows_affected = 0;
  is_complete = false;
}

-- Every process is done when it first acts.
abbrev done_at_once : ℕ → Plan ℕ → Option (ProcReturn × Plan ℕ)
done_at_once i plan = some (complete, plan)

abbrev vector : List ℕ
vector = 0 ∷ 1 ∷ []

pass_1 : exec_one_pass 0 done_at_once vector 0 (plan_of true true) ≡ some (1, plan_of true false)
unfolding exec_one_pass process_disable
pass_1 = refl

pass_2 : exec_one_pass 0 done_at_once vector 0 (plan_of true false) ≡ some (0, plan_of false false)
unfolding exec_one_pass process_disable
pass_2 = refl

step_run :
    process_step 0 done_at_once 5 vector (plan_of true true)
    ≡ some (some (0, record (plan_of false false) { is_complete = true }))
unfolding process_step exec_one_pass process_disable
step_run = refl

abbrev Met : Plan ℕ → Type 0
Met plan = (plan ≡ plan_of true true) ⊎ (plan ≡ plan_of true false)

abbrev on_count : Plan ℕ → ℕ
on_count plan =
    (if is_enabled_at plan.procs 0 then 1 else 0) + (if is_enabled_at plan.procs 1 then 1 else 0)

Met-pass :
    (plan plan' : Plan ℕ) (n : ℕ)
    → Met plan
    → exec_one_pass 0 done_at_once vector 0 plan ≡ some (suc n, plan')
    → Met plan' × (on_count plan' < on_count plan)
Met-pass plan plan' n (inl at_start) h =
    let (same, now) =
      counted_pass 1 (suc n) (plan_of true false) plan'
        (sym pass_1 ∙ ap (λ p. exec_one_pass 0 done_at_once vector 0 p) (sym at_start) ∙ h) in
    (
      inr (sym now),
      subst (λ p. on_count p < on_count plan) now
          (subst (λ p. 1 < on_count p) (sym at_start) (omega arith)),
    )
Met-pass plan plan' n (inr later) h =
    let (same, now) =
      counted_pass 0 (suc n) (plan_of false false) plan'
        (sym pass_2 ∙ ap (λ p. exec_one_pass 0 done_at_once vector 0 p) (sym later) ∙ h) in
    absurd (omega arith)

nothing_on : SwitchesNothingOn 0 done_at_once
nothing_on i ret plan plan' j h on =
    let same : plan ≡ plan' = cc in ap (λ (p : Plan ℕ). is_enabled_at p.procs j) same ∙ on

ends_at_once :
    (r : Option (Plan ℕ)) × (process_exec_plan 0 done_at_once 3 vector (plan_of true true) ≡ some r)
    × Ended 0 done_at_once vector r
ends_at_once =
    process_exec_plan-Ended 0 done_at_once vector Met on_count Met-pass nothing_on 3
      (plan_of true true) (inl refl) (omega arith)

exec_proc_run : exec_proc 0 done_at_once 0 (plan_of true true) ≡ some (1, plan_of true true)
unfolding exec_proc
exec_proc_run = refl

early_end_run : Turn 0 done_at_once 0 (plan_of true true) 1 (plan_of true true)
early_end_run =
    exec_proc-Turn 0 done_at_once 0 1 (plan_of true true) (plan_of true true) exec_proc_run

abbrev ring : Fifo ℕ
ring = record {
  buf = 7 ∷ 8 ∷ 9 ∷ 4 ∷ [];
  head = 1;
  tail = 3;
  iter_head = 0;
  input_count = 1;
  is_open = true;
}

drained_ring : drain 0 ring ≡ (contents 0 ring, record ring { tail = 1; iter_head = 1 })
drained_ring = drain-contents 0 ring (ground arith)
