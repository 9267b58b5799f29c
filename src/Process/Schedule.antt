-- ===== src/Process/Schedule.antt =====
-- lib/process.c: a plan runs its processes one after another, in passes, until none has work to do. What
-- a process does in a pass, its `action__`, is a parameter; it may change the whole plan. As in
-- Process.Filter, `recycled` collects what `fqlprocess_recycle` is called with. Threads, and the
-- messages of the debug mode, are not modelled.
pub mod Disable
pub mod Turn
pub mod Passes
mod Tests
use fql.Prelude.{
  ℕ, zero, suc, ◌+◌, Bool, true, false, not, Option, none, some, List, [], ◌∷◌, ◌++◌, if◌then◌else◌,
  length, get_or, get_elem?, set, ◌==◌, ltb,
}
use fql.Status.{◌>>=◌}
use fql.Fifo.{Fifo, set_open, begin, iter, at_end}
use fql.Process.{
  ProcReturn, complete, running, wait_on_in0, wait_on_in1, wait_on_in_either, wait_on_in_both,
  wait_on_out0, wait_on_out1,
}

-- `struct process`: fifos and other processes are given by their number in the plan. A `root_fifo` of
-- PROCESS_NO_PIPE_INDEX is `none`.
pub record Proc : Type 0 where
  pub is_enabled : Bool
  pub wait_list : Option (List ℕ)
  pub wait_for_in0 : Bool
  pub is_op_true : Bool
  pub rows_affected : ℕ
  pub fifo_in0 : Option ℕ
  pub fifo_in1 : Option ℕ
  pub fifo_out0 : Option ℕ
  pub fifo_out1 : Option ℕ
  pub root_fifo : Option ℕ

pub record Plan {ℓ} (A : Type ℓ) : Type ℓ where
  pub procs : List Proc
  pub fifos : List (Fifo A)
  pub recycled : List A
  pub rows_affected : ℕ
  pub is_complete : Bool

-- `enum proc_return`
abbrev pub ret_value : ProcReturn → ℕ
ret_value complete = 0
ret_value running = 1
ret_value wait_on_in0 = 2
ret_value wait_on_in1 = 3
ret_value wait_on_in_either = 4
ret_value wait_on_in_both = 5
ret_value wait_on_out0 = 6
ret_value wait_on_out1 = 7

abbrev pub is_enabled_at : List Proc → ℕ → Bool
is_enabled_at [] i = false
is_enabled_at (p ∷ ps) zero = p.is_enabled
is_enabled_at (p ∷ ps) (suc i) = is_enabled_at ps i

abbrev pub is_complete_ret : ProcReturn → Bool
is_complete_ret ret = ret_value ret == 0

abbrev pub with_proc {κ} : {B : Type κ} → Option Proc → B → (Proc → B) → B
with_proc none other f = other
with_proc (some proc) other f = f proc

-- `_check_wait_list`
abbrev pub check_wait_list : List Proc → List ℕ → Bool
check_wait_list procs [] = false
check_wait_list procs (i ∷ is) = if is_enabled_at procs i then true else check_wait_list procs is

abbrev pub must_wait : List Proc → Option (List ℕ) → Bool
must_wait procs none = false
must_wait procs (some wait_list) = check_wait_list procs wait_list

module _ {ℓ} {A : Type ℓ} where
  -- A change of the fifo that a pointer leads to, if there is one.
  abbrev pub at_fifo : Option ℕ → (Fifo A → Fifo A) → List (Fifo A) → List (Fifo A)
  at_fifo none f fifos = fifos
  at_fifo (some i) f [] = []
  at_fifo (some zero) f (x ∷ fifos) = f x ∷ fifos
  at_fifo (some (suc i)) f (x ∷ fifos) = x ∷ at_fifo (some i) f fifos

  abbrev pub closed : Option ℕ → List (Fifo A) → List (Fifo A)
  closed at fifos = at_fifo at (λ f. set_open f false) fifos

module _ {ℓ} {A : Type ℓ} (zero_elem : A) where
  -- The loop over the records that sit in an input: those that it meets, and the fifo after it.
  unfoldable pub drain_loop : ℕ → Fifo A → List A × Fifo A
  drain_loop zero f = ([], f)
  drain_loop (suc fuel) f =
      let (xs, f') = drain_loop fuel (iter zero_elem f).1 in
      if at_end f then ([], f) else (get_or f.buf f.tail zero_elem ∷ xs, f')

  unfoldable pub drain : Fifo A → List A × Fifo A
  drain f = drain_loop (length f.buf) (begin zero_elem f).1

  abbrev pub is_root : Option ℕ → ℕ → Bool
  is_root none pipe = false
  is_root (some root) pipe = root == pipe

  -- An input of a process is emptied, unless it is NULL or its root.
  unfoldable pub recycle_pipe : ℕ → Option (Fifo A) → Bool → Plan A → Plan A
  recycle_pipe at none root plan = plan
  recycle_pipe at (some f) true plan = plan
  recycle_pipe at (some f) false plan =
      let (xs, f') = drain f in
      record plan { fifos = set plan.fifos at f'; recycled = plan.recycled ++ xs }

  abbrev pub recycle_input : Option ℕ → Bool → Plan A → Plan A
  unfolding recycle_pipe
  recycle_input none root plan = plan
  recycle_input (some at) root plan = recycle_pipe at (get_elem? plan.fifos at) root plan

  -- `process_disable` of an enabled process.
  unfoldable pub disable_proc : ℕ → Proc → Plan A → Plan A
  unfolding recycle_pipe
  disable_proc i proc plan =
      let off = record plan {
        procs = set plan.procs i (record proc { is_enabled = false });
        fifos = closed proc.fifo_in0 (closed proc.fifo_out1 (closed proc.fifo_out0 plan.fifos));
      } in
      recycle_input proc.fifo_in1 (is_root proc.root_fifo 1)
        (recycle_input proc.fifo_in0 (is_root proc.root_fifo 0) off)

  unfoldable pub process_disable : ℕ → Plan A → Plan A
  unfolding disable_proc
  process_disable i plan =
      with_proc (get_elem? plan.procs i) plan
        (λ proc. if not proc.is_enabled then plan else disable_proc i proc plan)

module _ {ℓ} {A : Type ℓ} (zero_elem : A) (action : ℕ → Plan A → Option (ProcReturn × Plan A)) where
  -- What a process that has acted adds to the run count, and the rows that it has affected.
  unfoldable pub counted : ℕ → ProcReturn → Plan A → ℕ × Plan A
  counted i ret plan =
      with_proc (get_elem? plan.procs i) (0, plan)
        (λ proc. (
          (if proc.wait_for_in0 then 1 else 0) + ret_value ret,
          if proc.is_op_true then record plan { rows_affected = proc.rows_affected } else plan,
        ))

  unfoldable pub after_action : ℕ → ProcReturn → Plan A → ℕ × Plan A
  unfolding counted
  after_action i ret plan =
      counted i ret (if is_complete_ret ret then process_disable zero_elem i plan else plan)

  -- The body of the loop of `_exec_one_pass`.
  unfoldable pub exec_proc : ℕ → Plan A → Option (ℕ × Plan A)
  unfolding after_action
  exec_proc i plan = with_proc (get_elem? plan.procs i) (some (0, plan)) (λ proc.
      if not proc.is_enabled
      then some (0, plan)
      else if must_wait plan.procs proc.wait_list
      then some (1, plan)
      else action i plan >>= λ (ret, plan'). some (after_action i ret plan'))

  -- `_exec_one_pass` over the rest of the execution vector.
  unfoldable pub exec_one_pass : List ℕ → ℕ → Plan A → Option (ℕ × Plan A)
  unfolding exec_proc
  exec_one_pass [] run_count plan = some (run_count, plan)
  exec_one_pass (i ∷ is) run_count plan =
      exec_proc i plan >>= λ (n, plan'). exec_one_pass is (run_count + n) plan'

  -- The test of the loop of `process_exec_plan`.
  abbrev pub on_pass :
      Option (ℕ × Plan A) → (Plan A → Option (Option (Plan A))) → Option (Option (Plan A))
  on_pass none rest = some none
  on_pass (some (zero, plan)) rest = some (some (record plan { is_complete = true }))
  on_pass (some (suc n, plan)) rest = rest plan

  -- `process_exec_plan`; the outer `none` is a loop that goes on, the inner one FQL_FAIL.
  unfoldable pub process_exec_plan : ℕ → List ℕ → Plan A → Option (Option (Plan A))
  unfolding exec_one_pass
  process_exec_plan zero execution_vector plan = none
  process_exec_plan (suc fuel) execution_vector plan =
      let rest = λ (plan' : Plan A). process_exec_plan fuel execution_vector plan' in
      on_pass (exec_one_pass execution_vector 0 plan) rest

  -- The test of the loop of `process_step`, and what it returns.
  abbrev pub on_step :
      ℕ
      → Option (ℕ × Plan A)
      → (Plan A → Option (Option (ℕ × Plan A)))
      → Option (Option (ℕ × Plan A))
  on_step org none rest = some none
  on_step org (some (zero, plan)) rest = some (some (0, record plan { is_complete = true }))
  on_step org (some (suc n, plan)) rest =
      if plan.rows_affected == org then rest plan else some (some (1, plan))

  unfoldable pub step_loop : ℕ → ℕ → List ℕ → Plan A → Option (Option (ℕ × Plan A))
  unfolding exec_one_pass
  step_loop zero org execution_vector plan = none
  step_loop (suc fuel) org execution_vector plan =
      let rest = λ (plan' : Plan A). step_loop fuel org execution_vector plan' in
      on_step org (exec_one_pass execution_vector 0 plan) rest

  -- `process_step`
  unfoldable pub process_step : ℕ → List ℕ → Plan A → Option (Option (ℕ × Plan A))
  unfolding step_loop
  process_step fuel execution_vector plan = step_loop fuel plan.rows_affected execution_vector plan
