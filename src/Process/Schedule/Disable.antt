-- ===== src/Process/Schedule/Disable.antt =====
-- `process_disable` in lib/process.c: the process is off, no other one is switched on, and an input
-- that is not its root is emptied.
use fql.Prelude.{
  ℕ, zero, suc, ◌<◌, Bool, true, false, not, Option, none, some, List, [], ◌∷◌, ◌≡◌, ◌≢◌, refl, ◌∙◌,
  sym, ap, inl, inr, if◌then◌else◌, length, get_or, tabulate, get_elem?, set, ◌==◌, arith,
  Bool-cases, Option-cases,
}
use mathlib.Core.Path.{ap₂}
use native.Mathlib.Nat.{mod-eq_of_lt}
use fql.Fifo.{Fifo, begin, iter, at_end, get, consume}
use fql.Fifo.Valid.{IsValid, count, contents, slot, count-lt, consume-IsValid}
use fql.Fifo.Queue.{contents-get}
use fql.Fifo.Reach.{length-contents}
use fql.Process.Schedule.{
  Proc, Plan, is_enabled_at, drain_loop, drain, is_root, recycle_pipe, recycle_input, disable_proc,
  process_disable,
}

pub is_enabled_at-elem :
    (procs : List Proc) (i : ℕ) (p : Proc)
    → get_elem? procs i ≡ some p
    → is_enabled_at procs i ≡ p.is_enabled
is_enabled_at-elem [] i p h = cc
is_enabled_at-elem (x ∷ procs) zero p h =
    let same : x ≡ p = cc in ap (λ (q : Proc). q.is_enabled) same
is_enabled_at-elem (x ∷ procs) (suc i) p h = is_enabled_at-elem procs i p h

pub is_enabled_at-none :
    (procs : List Proc) (i : ℕ) → get_elem? procs i ≡ none → is_enabled_at procs i ≡ false
is_enabled_at-none [] i h = refl
is_enabled_at-none (x ∷ procs) zero h = cc
is_enabled_at-none (x ∷ procs) (suc i) h = is_enabled_at-none procs i h

-- Where the process written is off, it is off, and nothing else has changed.
set-off :
    (procs : List Proc) (i : ℕ) (p : Proc)
    → p.is_enabled ≡ false
    → is_enabled_at (set procs i p) i ≡ false
set-off [] i p off = refl
set-off (x ∷ procs) zero p off = off
set-off (x ∷ procs) (suc i) p off = set-off procs i p off

set-was_on :
    (procs : List Proc) (i j : ℕ) (p : Proc)
    → p.is_enabled ≡ false
    → is_enabled_at (set procs i p) j ≡ true
    → is_enabled_at procs j ≡ true
set-was_on [] i j p off on = on
set-was_on (x ∷ procs) zero zero p off on = cc
set-was_on (x ∷ procs) zero (suc j) p off on = on
set-was_on (x ∷ procs) (suc i) zero p off on = on
set-was_on (x ∷ procs) (suc i) (suc j) p off on = set-was_on procs i j p off on

module _ {ℓ} {A : Type ℓ} (zero_elem : A) where
  recycle_pipe-procs :
      (at : ℕ) (f : Option (Fifo A)) (root : Bool) (plan : Plan A)
      → (recycle_pipe zero_elem at f root plan).procs ≡ plan.procs
  unfolding recycle_pipe
  recycle_pipe-procs at none root plan = refl
  recycle_pipe-procs at (some f) true plan = refl
  recycle_pipe-procs at (some f) false plan = refl

  recycle_input-procs :
      (at : Option ℕ) (root : Bool) (plan : Plan A)
      → (recycle_input zero_elem at root plan).procs ≡ plan.procs
  unfolding recycle_pipe
  recycle_input-procs none root plan = refl
  recycle_input-procs (some at) root plan =
      recycle_pipe-procs at (get_elem? plan.fifos at) root plan

  disable_proc-procs :
      (i : ℕ) (p : Proc) (plan : Plan A)
      → (disable_proc zero_elem i p plan).procs ≡ set plan.procs i (record p { is_enabled = false })
  unfolding disable_proc
  disable_proc-procs i p plan =
      recycle_input-procs p.fifo_in1 (is_root zero_elem p.root_fifo 1) _
      ∙ recycle_input-procs p.fifo_in0 (is_root zero_elem p.root_fifo 0) _

  off_here :
      (i : ℕ) (p : Proc) (plan : Plan A) (on : Bool)
      → get_elem? plan.procs i ≡ some p
      → p.is_enabled ≡ on
      → is_enabled_at (if not on then plan else disable_proc zero_elem i p plan).procs i ≡ false
  off_here i p plan true here on =
      ap (λ ps. is_enabled_at ps i) (disable_proc-procs i p plan)
      ∙ set-off plan.procs i (record p { is_enabled = false }) refl
  off_here i p plan false here on = is_enabled_at-elem plan.procs i p here ∙ on

  was_on_there :
      (i j : ℕ) (p : Proc) (plan : Plan A) (on : Bool)
      → is_enabled_at (if not on then plan else disable_proc zero_elem i p plan).procs j ≡ true
      → is_enabled_at plan.procs j ≡ true
  was_on_there i j p plan true h =
      set-was_on plan.procs i j (record p { is_enabled = false }) refl
        (ap (λ ps. is_enabled_at ps j) (sym (disable_proc-procs i p plan)) ∙ h)
  was_on_there i j p plan false h = h

  -- After `process_disable` the process is off.
  pub process_disable-off :
      (i : ℕ) (plan : Plan A) → is_enabled_at (process_disable zero_elem i plan).procs i ≡ false
  unfolding process_disable
  process_disable-off i plan = elim (Option-cases (get_elem? plan.procs i)) [
    | inl no_proc ↦ rw no_proc (is_enabled_at-none plan.procs i no_proc)
    | inr (p, here) ↦ rw here (off_here i p plan p.is_enabled here refl)
  ]

  -- It switches no process on.
  pub process_disable-was_on :
      (i j : ℕ) (plan : Plan A)
      → is_enabled_at (process_disable zero_elem i plan).procs j ≡ true
      → is_enabled_at plan.procs j ≡ true
  unfolding process_disable
  process_disable-was_on i j plan h = elim (Option-cases (get_elem? plan.procs i)) [
    | inl no_proc ↦ rw no_proc at h
    | inr (p, here) ↦ was_on_there i j p plan p.is_enabled (rw here at h)
  ]

  -- Emptying a valid fifo meets all of its elements, the oldest first, and leaves none.
  drain_loop-contents :
      (fuel : ℕ) (f : Fifo A)
      → IsValid f
      → f.iter_head ≡ f.head
      → count f < fuel
      → drain_loop zero_elem fuel f ≡ (contents zero_elem f, record f { tail = f.head })
  unfolding drain_loop at_end iter get consume
  drain_loop-contents zero f v same lt = absurd (omega arith)
  drain_loop-contents (suc fuel) f v same lt = elim (Bool-cases (f.tail == f.iter_head)) [
    | inl at_last ↦
        let none_left : count f ≡ 0 = ground arith in
        let at_head : f.tail ≡ f.head = ground arith in
        rw at_last (
          ap₂ (λ (l : List A) t. (l, record f { tail = t }))
            (sym (ap (λ n. tabulate n (λ i. get_or f.buf (slot f i) zero_elem)) none_left)) at_head)
    | inr more ↦
        let some_elem : count f ≢ 0 = λ e. absurd (ground arith) in
        let x = get_or f.buf f.tail zero_elem in
        let first : contents zero_elem f ≡ x ∷ contents zero_elem (iter zero_elem f).1 =
          contents-get zero_elem v some_elem in
        let fewer : count f ≡ suc (count (iter zero_elem f).1) = omega (
          arith,
          length-contents zero_elem f,
          length-contents zero_elem (iter zero_elem f).1,
          ap length first,
        ) in
        rw more (
          ap (λ (r : List A × Fifo A). (x ∷ r.0, r.1))
            (drain_loop-contents fuel (iter zero_elem f).1 (consume-IsValid v) same
              (omega (arith, fewer)))
          ∙ ap (λ l. (l, record f { tail = f.head })) (sym first))
  ]

  -- Emptying a valid fifo by the loop of `process_disable` meets all of its elements, the oldest
  -- first, and leaves none.
  pub drain-contents :
      (f : Fifo A)
      → IsValid f
      → drain zero_elem f ≡ (contents zero_elem f, record f { tail = f.head; iter_head = f.head })
  unfolding drain begin
  drain-contents f v =
      ap (λ n. drain_loop zero_elem (length f.buf) (record f { iter_head = n }))
        (mod-eq_of_lt v.head_in)
      ∙ drain_loop-contents (length f.buf) (record f { iter_head = f.head })
          (record { head_in = v.head_in; tail_in = v.tail_in; small = v.small; room = v.room }) refl
          (count-lt v)
