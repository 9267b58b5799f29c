-- ===== src/Fifo/Queue.antt =====
-- The single steps of util/fifo.c on the list that the fifo holds.
use fql.Prelude.{
  ℕ, ◌+◌, ◌-◌, ◌<◌, ◌≤◌, true, false, List, [], ◌∷◌, ◌++◌, ◌≡◌, ◌∙◌, sym, ap, ltb, if◌then◌else◌,
  length, get_or, set, drop, arith, tabulate, write_at, tabulate-split, tabulate-get_or,
  set-write_at, drop-tabulate, tabulate-cons, get_or-write_at_in, get_or-write_at_before,
  get_or-write_at_after, get_or-append_left, get_or-append_right, length-write_at, length-set,
  length-append, ◌⊎◌, inl, inr, dec_lt, ◌≢◌,
}
use mathlib.Core.Path.{ap₂}
use fql.Fifo.{Fifo, consume, get, add, is_full}
use fql.Fifo.Valid.{IsValid, count, slot, contents, mod_step, count-lt, is_full-count}

-- An index of a buffer of n slots moved on by k.
abbrev pub wrapped : ℕ → ℕ → ℕ → ℕ
wrapped n h k = if ltb (h + k) n then h + k else h + k - n

-- The slots after the elements are those from the head on.
slot-after {ℓ} :
    {A : Type ℓ} (f : Fifo A)
    → IsValid f
    → (i j : ℕ) → count f + i ≡ j
    → j < length f.buf
    → slot f j ≡ wrapped (length f.buf) f.head i
slot-after f v i j e h = ground arith

-- The slots of the elements lie outside a segment at the head that fits and does not wrap.
slot-outside {ℓ} :
    {A : Type ℓ} (f : Fifo A)
    → IsValid f
    → (i n : ℕ) → i < count f
    → count f + n < length f.buf
    → (slot f i < f.head) ⊎ (f.head + n ≤ slot f i)
slot-outside f v i n h room = ground arith

module _ {ℓ} {A : Type ℓ} (zero_elem : A) where
  -- The buffer `buf` has `xs` after the elements of `f`, which it leaves alone.
  pub record Holds (f : Fifo A) (xs buf : List A) : Type ℓ where
    pub width : length buf ≡ length f.buf
    pub written :
        (k : ℕ)
        → k < length xs
        → get_or buf (wrapped (length f.buf) f.head k) zero_elem ≡ get_or xs k zero_elem
    pub kept :
        (i : ℕ) → i < count f → get_or buf (slot f i) zero_elem ≡ get_or f.buf (slot f i) zero_elem

  pub contents-Holds :
      (f : Fifo A) (xs buf : List A)
      → IsValid f
      → count f + length xs < length f.buf
      → Holds f xs buf
      → contents zero_elem
          (record f { buf = buf; head = wrapped (length f.buf) f.head (length xs) })
        ≡ contents zero_elem f ++ xs
  contents-Holds f xs buf v room h =
      let g = record f { buf = buf; head = wrapped (length f.buf) f.head (length xs) } in
      tabulate-split (count f) (length xs) (count g) _ (λ i. get_or f.buf (slot f i) zero_elem)
        (λ i. get_or xs i zero_elem) (ground arith) (λ i p. rw h.width (h.kept i p))
        (λ i j e p. rw (h.width, slot-after f v i j e (omega arith)) (h.written i p))
      ∙ ap (λ l. contents zero_elem f ++ l) (tabulate-get_or xs zero_elem)

  get_or-write_at_out :
      (bs : List A) (i : ℕ) (xs : List A) (j : ℕ)
      → (j < i) ⊎ (i + length xs ≤ j)
      → get_or (write_at bs i xs) j zero_elem ≡ get_or bs j zero_elem
  get_or-write_at_out bs i xs j (inl h) = get_or-write_at_before bs i xs j zero_elem h
  get_or-write_at_out bs i xs j (inr h) = get_or-write_at_after bs i xs j zero_elem h

  -- A segment written at the head that does not reach beyond the end of the buffer.
  pub write_at-Holds :
      {f : Fifo A} (xs : List A)
      → IsValid f
      → count f + length xs < length f.buf
      → f.head + length xs ≤ length f.buf
      → Holds f xs (write_at f.buf f.head xs)
  write_at-Holds {f} xs v room short = record {
    width = length-write_at f.buf f.head xs;
    written =
        λ k p. get_or-write_at_in f.buf f.head xs k _ zero_elem (ground arith) p (ground arith);
    kept = λ i p. get_or-write_at_out f.buf f.head xs _ (slot-outside f v i (length xs) p room);
  }

  -- A segment that goes on at the front of the buffer.
  pub write_at_twice-Holds :
      {f : Fifo A} (ys zs : List A)
      → IsValid f
      → count f + length (ys ++ zs) < length f.buf
      → f.head + length ys ≡ length f.buf
      → Holds f (ys ++ zs) (write_at (write_at f.buf f.head ys) 0 zs)
  write_at_twice-Holds {f} ys zs v room full =
      let once = write_at f.buf f.head ys in
      let sum = length-append ys zs in
      record {
        width = length-write_at once 0 zs ∙ length-write_at f.buf f.head ys;
        written = λ k p. elim (dec_lt k (length ys)) [
          | yes q ↦
              get_or-write_at_out once 0 zs _ (inr (ground arith))
              ∙ get_or-write_at_in f.buf f.head ys k _ zero_elem (ground arith) q (ground arith)
              ∙ sym (get_or-append_left ys zs k zero_elem q)
          | no q ↦
              get_or-write_at_in once 0 zs (k - length ys) _ zero_elem (ground arith) (omega arith)
                (rw (length-write_at f.buf f.head ys) (ground arith))
              ∙ sym (get_or-append_right ys zs (k - length ys) k zero_elem (omega arith))
        ];
        kept = λ i p.
            get_or-write_at_out once 0 zs _ (inr (ground arith))
            ∙ get_or-write_at_out f.buf f.head ys _ (inl (ground arith));
      }

  -- `fifo_add` puts its element after the others, where a valid fifo is not full.
  pub contents-add :
      {f : Fifo A} (x : A)
      → IsValid f
      → is_full f ≡ false
      → contents zero_elem (add f x) ≡ contents zero_elem f ++ (x ∷ [])
  unfolding add
  contents-add {f} x v room =
      let space : count f + 1 < length f.buf = ground (arith, is_full-count v, count-lt v) in
      rw (mod_step (length f.buf) f.head 1 v.head_in (omega arith) v.small) (
        contents-Holds f (x ∷ []) (set f.buf f.head x) v space
          (rw set-write_at (write_at-Holds (x ∷ []) v space (omega arith))))

  -- On a full valid fifo `fifo_add` loses all of its elements: the head comes round to the tail.
  pub contents-add_full :
      {f : Fifo A} (x : A) → IsValid f → is_full f ≡ true → contents zero_elem (add f x) ≡ []
  unfolding add
  contents-add_full {f} x v full =
      let step = mod_step (length f.buf) f.head 1 v.head_in (omega arith) v.small in
      let none_left : count (add f x) ≡ 0 =
        ground (arith, is_full-count v, length-set f.buf f.head x) in
      ap (λ n. tabulate n (λ i. get_or (add f x).buf (slot (add f x) i) zero_elem)) none_left

  -- Moving the tail on by k drops the k oldest elements.
  pub contents-drop :
      {f : Fifo A} (k : ℕ)
      → IsValid f
      → k ≤ count f
      → contents zero_elem (record f { tail = wrapped (length f.buf) f.tail k })
        ≡ drop k (contents zero_elem f)
  contents-drop {f} k v h =
      let g = record f { tail = wrapped (length f.buf) f.tail k } in
      sym (
        drop-tabulate k (count g) (count f) (λ i. get_or f.buf (slot f i) zero_elem)
          (λ i. get_or f.buf (slot g i) zero_elem) (ground arith)
          (λ i j e p. ap (λ n. get_or f.buf n zero_elem) (ground arith)))

  -- `fifo_get` takes the oldest element of a valid fifo, where there is one.
  pub contents-get :
      {f : Fifo A}
      → IsValid f
      → count f ≢ 0
      → let (x, f') = get zero_elem f in contents zero_elem f ≡ x ∷ contents zero_elem f'
  unfolding get consume
  contents-get {f} v h =
      let oldest : slot f 0 ≡ f.tail = ground arith in
      tabulate-cons (count f) (λ i. get_or f.buf (slot f i) zero_elem) h
      ∙ ap₂ ◌∷◌ (ap (λ n. get_or f.buf n zero_elem) oldest) (
          rw (mod_step (length f.buf) f.tail 1 v.tail_in (omega arith) v.small)
            (sym (contents-drop 1 v (omega arith))))
