-- ===== src/Fifo/Reach.antt =====
-- util/fifo.c over time: the steps that the two sides of a fifo take one after another, in any order,
-- each with the test that it needs.
use fql.Prelude.{
  ℕ, ◌+◌, ◌-◌, ◌<◌, ◌≤◌, Bool, false, List, [], ◌∷◌, ◌++◌, ◌≡◌, refl, ◌∙◌, sym, ap, ◌==◌, length,
  take, arith, length-set, length-tabulate, append_assoc, append-nil, take-append-drop, Bool-cases,
  inl, inr, length-append, length-take, length-drop,
}
use Prim.Native.Nat.{min}
use mathlib.Core.Path.{ap₂}
use fql.Fifo.{
  Fifo, available, receivable, is_full, add, get, consume, nadd, nadd_count, nget, nget_count,
  set_open,
}
use fql.Fifo.Valid.{
  IsValid, count, contents, count-available, receivable-count, consume-IsValid, add-IsValid,
  is_full-count,
}
use fql.Fifo.Queue.{contents-add, contents-get}
use fql.Fifo.Transfer.{length-write_block, contents-nadd, nget-Moved, nadd-IsValid, nget-IsValid}

module _ {ℓ} {A : Type ℓ} where
  -- A valid fifo with an input, whose elements and inputs fit it together.
  pub record Ready (f : Fifo A) : Type ℓ where
    pub valid : IsValid f
    pub has_input : 0 < f.input_count
    pub fits : count f + f.input_count ≤ length f.buf

module _ {ℓ} {A : Type ℓ} (zero_elem : A) where
  -- A run from one fifo to another, with what is put in and what is taken out: one element where there
  -- is room for the inputs, or where there is an element; a list, of which as many go in as there is
  -- room for; the whole blocks that are there; and the opening and closing.
  pub data Run : Fifo A → List A → List A → Fifo A → Type ℓ where
    done : (f : Fifo A) → Run f [] [] f
    put :
        (f : Fifo A) (x : A) {sent got : List A} {f' : Fifo A}
        → 0 < receivable f
        → Run (add f x) sent got f'
        → Run f (x ∷ sent) got f'
    put_list :
        (f : Fifo A) (src : List A) {sent got : List A} {f' : Fifo A}
        → 0 < length src
        → Run (nadd f src).0 sent got f'
        → Run f (take (nadd_count f src) src ++ sent) got f'
    take_one :
        (f : Fifo A) {sent got : List A} {f' : Fifo A}
        → 0 < available f
        → Run (get zero_elem f).1 sent got f'
        → Run f sent ((get zero_elem f).0 ∷ got) f'
    take_blocks :
        (f : Fifo A) (block_size max : ℕ) {sent got : List A} {f' : Fifo A}
        → 0 < nget_count f block_size max
        → Run (nget f [] block_size max).1 sent got f'
        → Run f sent ((nget f [] block_size max).0 ++ got) f'
    turn :
        (f : Fifo A) (is_open : Bool) {sent got : List A} {f' : Fifo A}
        → Run (set_open f is_open) sent got f'
        → Run f sent got f'

  pub length-contents : (f : Fifo A) → length (contents zero_elem f) ≡ count f
  length-contents f = length-tabulate (count f) _

  pub Ready-add :
      (f : Fifo A) (x : A)
      → Ready f
      → 0 < receivable f
      → Ready (add f x) × (contents zero_elem (add f x) ≡ contents zero_elem f ++ (x ∷ []))
  unfolding add
  Ready-add f x r room =
      let total = receivable-count r.valid r.fits in
      let roomy : is_full f ≡ false = elim (Bool-cases (is_full f)) [
        | inl full ↦ let all = (is_full-count r.valid).0 full in absurd (omega (arith, r.has_input))
        | inr not_full ↦ not_full
      ] in
      let now = contents-add zero_elem x r.valid roomy in
      let more : count (add f x) ≡ count f + 1 = omega (
        arith,
        length-contents (add f x),
        length-contents f,
        ap length now,
        length-append (contents zero_elem f) (x ∷ []),
      ) in
      (
        record {
          valid = add-IsValid x r.valid;
          has_input = r.has_input;
          fits = omega (arith, more, total, length-set f.buf f.head x);
        },
        now,
      )

  nadd-frame :
      (f : Fifo A) (src : List A)
      → (length (nadd f src).0.buf ≡ length f.buf) × ((nadd f src).0.input_count ≡ f.input_count)
  unfolding nadd
  nadd-frame f src = elim (Bool-cases (receivable f == 0)) [
    | inl e ↦ rw e (refl, refl)
    | inr e ↦ rw e (length-write_block f src (nadd_count f src) _, refl)
  ]

  nget-frame :
      (f : Fifo A) (b m : ℕ)
      → ((nget f [] b m).1.buf ≡ f.buf) × ((nget f [] b m).1.input_count ≡ f.input_count)
  unfolding nget
  nget-frame f b m = elim (Bool-cases (available f == 0)) [
    | inl e ↦ rw e (refl, refl)
    | inr e ↦ rw e (refl, refl)
  ]

  Ready-nadd :
      (f : Fifo A) (src : List A)
      → Ready f
      → 0 < length src
      → Ready (nadd f src).0
        × (contents zero_elem (nadd f src).0 ≡ contents zero_elem f ++ take (nadd_count f src) src)
  Ready-nadd f src r some_src =
      let total = receivable-count r.valid r.fits in
      let k = nadd_count f src in
      let k_eq : min (length f.buf - count f - f.input_count) (length src) ≡ k = ground arith in
      let (now, rest) = contents-nadd zero_elem src r.valid r.has_input r.fits some_src in
      let now' = now ∙ ap (λ n. contents zero_elem f ++ take n src) k_eq in
      let (width, inputs) = nadd-frame f src in
      let more : count (nadd f src).0 ≤ count f + k = omega (
        arith,
        length-contents (nadd f src).0,
        length-contents f,
        ap length now',
        length-append (contents zero_elem f) (take k src),
        length-take k src,
      ) in
      let bound : k ≤ receivable f = ground arith in
      (
        record {
          valid = nadd-IsValid src r.valid;
          has_input = omega (arith, inputs, r.has_input);
          fits = omega (arith, more, bound, total, width, inputs);
        },
        now',
      )

  pub Ready-get :
      (f : Fifo A)
      → Ready f
      → 0 < available f
      → Ready (get zero_elem f).1
        × (contents zero_elem f ≡ (get zero_elem f).0 ∷ contents zero_elem (get zero_elem f).1)
  unfolding get consume
  Ready-get f r some_elem =
      let now = contents-get zero_elem r.valid (omega (arith, count-available r.valid)) in
      let less : count (get zero_elem f).1 + 1 ≡ count f =
        omega (arith, length-contents (get zero_elem f).1, length-contents f, ap length now) in
      (
        record {
          valid = consume-IsValid r.valid;
          has_input = r.has_input;
          fits = omega (arith, less, r.fits);
        },
        now,
      )

  Ready-nget :
      (f : Fifo A) (block_size max : ℕ)
      → Ready f
      → 0 < nget_count f block_size max
      → Ready (nget f [] block_size max).1
        × (contents zero_elem f
            ≡ (nget f [] block_size max).0 ++ contents zero_elem (nget f [] block_size max).1)
  Ready-nget f b m r some_block =
      let moves = nget-Moved zero_elem [] b m r.valid some_block in
      let k = nget_count f b m in
      let (same_buf, inputs) = nget-frame f b m in
      let less : count (nget f [] b m).1 ≤ count f = omega (
        arith,
        length-contents (nget f [] b m).1,
        length-contents f,
        ap length moves.stays,
        length-drop k (contents zero_elem f),
      ) in
      (
        record {
          valid = nget-IsValid [] b m r.valid;
          has_input = omega (arith, inputs, r.has_input);
          fits = omega (arith, less, r.fits, ap length same_buf, inputs);
        },
        sym (take-append-drop k (contents zero_elem f))
            ∙ ap₂ ◌++◌ (sym moves.moved) (sym moves.stays),
      )

  Ready-set_open : (f : Fifo A) (o : Bool) → Ready f → Ready (set_open f o)
  unfolding set_open
  Ready-set_open f o r = record {
    valid = record {
      head_in = r.valid.head_in;
      tail_in = r.valid.tail_in;
      small = r.valid.small;
      room = r.valid.room;
    };
    has_input = r.has_input;
    fits = r.fits;
  }

  -- Whatever the order of the steps, the elements come out as they went in: those that were there and
  -- those put in are those taken out and those still there; and the fifo stays ready.
  pub Run-contents :
      (f : Fifo A) (sent got : List A) (f' : Fifo A)
      → Ready f
      → Run f sent got f'
      → Ready f' × (contents zero_elem f ++ sent ≡ got ++ contents zero_elem f')
  unfolding set_open
  Run-contents _ _ _ _ r (done f) = (r, append-nil (contents zero_elem f))
  Run-contents _ _ got f' r (put f x {sent = s} room run) =
      let (r', now) = Ready-add f x r room in
      let (ends, same) = Run-contents (add f x) s got f' r' run in
      (
        ends,
        sym (append_assoc (contents zero_elem f) (x ∷ []) s) ∙ ap (λ l. l ++ s) (sym now) ∙ same,
      )
  Run-contents _ _ got f' r (put_list f src {sent = s} some_src run) =
      let (r', now) = Ready-nadd f src r some_src in
      let (ends, same) = Run-contents _ s got f' r' run in
      (
        ends,
        sym (append_assoc (contents zero_elem f) (take (nadd_count f src) src) s)
            ∙ ap (λ l. l ++ s) (sym now)
            ∙ same,
      )
  Run-contents _ sent _ f' r (take_one f {got = g} some_elem run) =
      let (r', now) = Ready-get f r some_elem in
      let (ends, same) = Run-contents _ sent g f' r' run in
      (ends, ap (λ l. l ++ sent) now ∙ ap (λ l. (get zero_elem f).0 ∷ l) same)
  Run-contents _ sent _ f' r (take_blocks f b m {got = g} some_block run) =
      let (r', now) = Ready-nget f b m r some_block in
      let (ends, same) = Run-contents _ sent g f' r' run in
      (
        ends,
        ap (λ l. l ++ sent) now
            ∙ append_assoc (nget f [] b m).0 _ sent
            ∙ ap (λ l. (nget f [] b m).0 ++ l) same
            ∙ sym (append_assoc (nget f [] b m).0 g _),
      )
  Run-contents _ sent got f' r (turn f o run) =
      Run-contents (set_open f o) sent got f' (Ready-set_open f o r) run
