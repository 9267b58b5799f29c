-- ===== src/Process/Filter.antt =====
-- `fql_logic` in lib/fqlprocesses.c: a process that passes records on by a condition. A record group is
-- an element of type A; what `fqlprocess_recycle` is called with is collected in `recycled`. The outer
-- Option is `none` where the loop does not end, the inner one where the process fails.
pub mod Passing
pub mod Run
mod Tests
use fql.Prelude.{
  ℕ, zero, suc, Bool, true, false, not, ◌||◌, Option, none, some, List, [], ◌∷◌, ◌++◌,
  if◌then◌else◌, length, get_or, ◌==◌,
}
use fql.Fifo.{Fifo, receivable, is_empty, add, begin, iter, at_end}
use fql.Process.{ProcReturn, complete, wait_on_in0, wait_on_out0, wait_on_out1}

pub record FilterProc {ℓ} (A : Type ℓ) : Type ℓ where
  pub input : Fifo A
  pub out_true : Option (Fifo A)
  pub out_false : Option (Fifo A)
  pub recycled : List A

module _ {ℓ} {A : Type ℓ} where
  -- `out && !out->is_open`
  abbrev pub is_closed : Option (Fifo A) → Bool
  is_closed none = false
  is_closed (some f) = not f.is_open

  -- `out && !fifo_receivable(out)`
  abbrev pub has_no_room : Option (Fifo A) → Bool
  has_no_room none = false
  has_no_room (some f) = receivable f == 0

  -- The tests of both outputs for room.
  abbrev pub blocked : FilterProc A → Option ProcReturn
  blocked proc =
      if has_no_room proc.out_true
      then some wait_on_out1
      else if has_no_room proc.out_false
      then some wait_on_out0
      else none

  abbrev pub has_output : Option (Fifo A) → Bool
  has_output none = false
  has_output (some f) = true

  abbrev pub sent : Option (Fifo A) → A → Option (Fifo A)
  sent none x = none
  sent (some f) x = some (add f x)

  -- What there is to recycle of an element, by whether there is an output for it.
  abbrev pub unsent : Bool → A → List A
  unsent true x = []
  unsent false x = x ∷ []

  -- An element goes to the output for its result, or is recycled where there is none.
  abbrev pub route : Bool → A → FilterProc A → FilterProc A
  route true x proc = record proc {
    out_true = sent proc.out_true x;
    recycled = proc.recycled ++ unsent (has_output proc.out_true) x;
  }
  route false x proc = record proc {
    out_false = sent proc.out_false x;
    recycled = proc.recycled ++ unsent (has_output proc.out_false) x;
  }

  abbrev pub stop_or :
      Option ProcReturn
      → FilterProc A
      → Option (Option (ProcReturn × FilterProc A))
      → Option (Option (ProcReturn × FilterProc A))
  stop_or (some ret) proc rest = some (some (ret, proc))
  stop_or none proc rest = rest

  -- `try_` on the result of `logicgroup_eval`.
  abbrev pub on_result :
      Option Bool
      → (Bool → Option (Option (ProcReturn × FilterProc A)))
      → Option (Option (ProcReturn × FilterProc A))
  on_result none f = some none
  on_result (some b) f = f b

module _ {ℓ} {A : Type ℓ} (zero_elem : A) (eval_group : A → Option Bool) (is_const : Bool) where
  -- The loop over the input.
  unfoldable pub filter_loop : ℕ → FilterProc A → Option (Option (ProcReturn × FilterProc A))
  filter_loop zero proc = none
  filter_loop (suc fuel) proc =
      let x = get_or proc.input.buf proc.input.tail zero_elem in
      let next =
        λ (result : Bool). record (route result x proc) { input = (iter zero_elem proc.input).1 } in
      let rest = λ (result : Bool). filter_loop fuel (next result) in
      if at_end proc.input
      then some (some (wait_on_in0, proc))
      else on_result (eval_group x) (λ result.
        if is_const
        then some (some (complete, route result x proc))
        else stop_or (blocked (next result)) (next result) (rest result))

  unfoldable pub fql_logic : FilterProc A → Option (Option (ProcReturn × FilterProc A))
  fql_logic proc =
      if is_closed proc.out_true || is_closed proc.out_false
      then some (some (complete, proc))
      else if is_empty proc.input
      then some (some (if not proc.input.is_open then complete else wait_on_in0, proc))
      else stop_or (blocked proc) proc (
          filter_loop (length proc.input.buf)
            (record proc { input = (begin zero_elem proc.input).1 }))
