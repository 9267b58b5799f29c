-- ===== src/Process/Filter/Run.antt =====
-- The loop of `fql_logic` in lib/fqlprocesses.c ends, and what a run of the process comes to.
use fql.Prelude.{
  ℕ, zero, suc, ◌<◌, Bool, true, false, not, ◌||◌, Option, none, [], ◌∷◌, ◌≡◌, ◌≢◌, refl, ap, inl,
  inr, if◌then◌else◌, length, get_or, tabulate, ◌==◌, arith, Bool-cases, Option-cases,
}
use native.Mathlib.Nat.{mod-eq_of_lt}
use fql.Fifo.{Fifo, get, is_empty, begin, iter, at_end}
use fql.Fifo.Valid.{IsValid, count, contents, slot, count-lt}
use fql.Fifo.Queue.{contents-get}
use fql.Fifo.Reach.{length-contents}
use fql.Process.{ProcReturn, complete, wait_on_in0}
use fql.Process.Filter.{FilterProc, is_closed, blocked, stop_or, filter_loop, fql_logic}
use fql.Process.Filter.Passing.{
  none_judged, OutReady, Going, Reason, output_closed, input_ended, input_empty, output_full,
  Outcome, failed, passed, Passed-nothing, next, next-Going, front, Outcome-next,
}

module _ {ℓ} {A : Type ℓ} (zero_elem : A) where
  contents-none : (f : Fifo A) → count f ≡ 0 → contents zero_elem f ≡ []
  contents-none f e = ap (λ n. tabulate n (λ i. get_or f.buf (slot f i) zero_elem)) e

  count-next :
      (f f' : Fifo A) (x : A)
      → contents zero_elem f ≡ x ∷ contents zero_elem f'
      → count f ≡ suc (count f')
  count-next f f' x e =
      omega (arith, length-contents zero_elem f, length-contents zero_elem f', ap length e)

  stop-Outcome :
      (eval_group : A → Option Bool) (proc : FilterProc A)
      (r : Option (Option (ProcReturn × FilterProc A)))
      → (blocked proc ≡ none → Outcome zero_elem eval_group proc r)
      → Outcome zero_elem eval_group proc (stop_or (blocked proc) proc r)
  stop-Outcome eval_group proc r h = elim (Option-cases (blocked proc)) [
    | inl free ↦ rw free (h free)
    | inr (ret, full) ↦
        rw full
          (passed ret proc [] (Passed-nothing zero_elem eval_group proc) (output_full ret full))
  ]

  filter_loop-Outcome :
      (eval_group : A → Option Bool) (fuel : ℕ) (proc : FilterProc A)
      → Going proc
      → count proc.input < fuel
      → blocked proc ≡ none
      → Outcome zero_elem eval_group proc (filter_loop zero_elem eval_group false fuel proc)
  unfolding filter_loop at_end get next
  filter_loop-Outcome eval_group zero proc going lt free = absurd (omega arith)
  filter_loop-Outcome eval_group (suc fuel) proc going lt free =
      let x = get_or proc.input.buf proc.input.tail zero_elem in
      elim (Bool-cases (proc.input.tail == proc.input.iter_head)) [
        | inl at_last ↦
            let empty : count proc.input ≡ 0 = ground arith in
            rw at_last (
              passed wait_on_in0 proc [] (Passed-nothing zero_elem eval_group proc)
                (input_empty (contents-none proc.input empty)))
        | inr more ↦
            let some_elem : count proc.input ≢ 0 = λ e. absurd (ground arith) in
            elim (Option-cases (eval_group x)) [
              | inl bad ↦
                  rw (more, bad)
                    (failed [] x _ none_judged (contents-get zero_elem going.valid some_elem) bad)
              | inr (b, result) ↦
                  let proc' = next zero_elem eval_group proc x b result some_elem refl going free in
                  let going' =
                    next-Going zero_elem eval_group proc x b result some_elem refl going free in
                  let fewer : count proc.input ≡ suc (count (iter zero_elem proc.input).1) =
                    count-next proc.input (iter zero_elem proc.input).1 x
                      (front zero_elem eval_group proc x b result some_elem refl going free) in
                  rw (more, result)
                    (Outcome-next zero_elem eval_group proc x b result some_elem refl going free _ (
                      stop-Outcome eval_group proc' _
                        (filter_loop-Outcome eval_group fuel proc' going' (omega arith))))
            ]
      ]

  Reason-drained :
      (proc : FilterProc A) (is_open : Bool)
      → proc.input.is_open ≡ is_open
      → contents zero_elem proc.input ≡ []
      → Reason zero_elem proc (if not is_open then complete else wait_on_in0)
  Reason-drained proc true same empty = input_empty empty
  Reason-drained proc false same empty = input_ended empty same

  -- The iterator that `fifo_begin` sets is not part of what the input holds.
  Outcome-begin :
      (eval_group : A → Option Bool) (proc : FilterProc A)
      (r : Option (Option (ProcReturn × FilterProc A)))
      → Outcome zero_elem eval_group (record proc { input = (begin zero_elem proc.input).1 }) r
      → Outcome zero_elem eval_group proc r
  unfolding begin
  Outcome-begin eval_group proc _ (failed vs x rest js same bad) = failed vs x rest js same bad
  Outcome-begin eval_group proc _ (passed ret proc' vs p why) =
      passed ret proc' vs
        (record {
          results = p.results;
          taken = p.taken;
          to_true = p.to_true;
          to_false = p.to_false;
          dropped = p.dropped;
        })
        why

  -- With a valid input and ready outputs, `fql_logic` on a condition that is no constant ends. It
  -- fails only at an element on which the condition fails; else the elements that it took from the
  -- front of the input are in the output for their result, in order and behind what was there, or
  -- recycled where there is no such output, and it returns the reason for which it stopped.
  pub fql_logic-Outcome :
      (eval_group : A → Option Bool) (proc : FilterProc A)
      → IsValid proc.input
      → OutReady proc.out_true
      → OutReady proc.out_false
      → Outcome zero_elem eval_group proc (fql_logic zero_elem eval_group false proc)
  unfolding fql_logic is_empty begin
  fql_logic-Outcome eval_group proc v ot of =
      let begun = record proc { input = (begin zero_elem proc.input).1 } in
      let begun_valid : IsValid begun.input = record {
        head_in = v.head_in;
        tail_in = v.tail_in;
        small = v.small;
        room = v.room;
      } in
      elim (Bool-cases (is_closed proc.out_true || is_closed proc.out_false)) [
        | inl closed ↦ rw closed (
            passed complete proc [] (Passed-nothing zero_elem eval_group proc)
              (output_closed closed))
        | inr both_open ↦ elim (Bool-cases (proc.input.head == proc.input.tail)) [
          | inl empty ↦
              let none_there = contents-none proc.input (ground arith) in
              rw (both_open, empty)
                (passed _ proc [] (Passed-nothing zero_elem eval_group proc)
                  (Reason-drained proc proc.input.is_open refl none_there))
          | inr some_there ↦
              rw (both_open, some_there)
                (stop-Outcome eval_group proc _ (λ free. Outcome-begin eval_group proc _ (
                  filter_loop-Outcome eval_group (length proc.input.buf) begun
                    (record {
                      valid = begun_valid;
                      to_end = mod-eq_of_lt v.head_in;
                      true_ready = ot;
                      false_ready = of;
                    })
                    (count-lt v) free)))
        ]
      ]
