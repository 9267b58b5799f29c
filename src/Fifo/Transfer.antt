-- ===== src/Fifo/Transfer.antt =====
-- The block transfers of util/fifo.c on the list that the fifo holds.
use fql.Prelude.{
  ℕ, zero, suc, ◌+◌, ◌-◌, ◌*◌, ◌%◌, ◌^◌, ◌<◌, ◌≤◌, true, false, List, [], ◌∷◌, ◌++◌, ◌≡◌, refl, ◌∙◌,
  sym, ap, ltb, ◌==◌, ◌||◌, if◌then◌else◌, length, get_or, take, drop, arith, length-take,
  length-drop, length-write_at, write_at, take-split, drop-length, append-nil, take-tabulate,
  tabulate-split, read_at-tabulate, dec_lt, ◌≢◌, Bool-cases, inl, inr,
}
use Prim.Native.Nat.{min}
use mathlib.Core.Path.{ap₂, subst}
use native.Mathlib.Nat.{mod-lt, mul-pos, mod-eq_of_lt, mul-add-mod_self_right}
use fql.Fifo.{
  Fifo, available, receivable, write_block, read_block, nadd, nadd_count, nget, nget_count,
}
use fql.Fifo.Valid.{
  IsValid, count, slot, contents, mod_step, count-lt, count-available, receivable-count,
}
use fql.Fifo.Queue.{
  wrapped, Holds, contents-Holds, write_at-Holds, write_at_twice-Holds, contents-drop,
}

-- The code's test for a copy in one piece.
one_piece :
    (n h k : ℕ) → h < n → 0 < k → h + k ≤ n → (wrapped n h k == 0 || ltb h (wrapped n h k)) ≡ true
one_piece n h k hh pos le = ground arith

two_pieces :
    (n h k : ℕ) → h < n → n < h + k → k < n → (wrapped n h k == 0 || ltb h (wrapped n h k)) ≡ false
two_pieces n h k hh lt room = ground arith

module _ {ℓ} {A : Type ℓ} where
  take-all : (n : ℕ) (xs : List A) → length xs ≤ n → take n xs ≡ xs
  take-all zero [] h = refl
  take-all zero (x ∷ xs) h = absurd (omega arith)
  take-all (suc n) [] h = refl
  take-all (suc n) (x ∷ xs) h = ap (λ l. x ∷ l) (take-all n xs (omega arith))

  pub length-write_block :
      (f : Fifo A) (src : List A) (k n : ℕ) → length (write_block f src k n) ≡ length f.buf
  unfolding write_block
  length-write_block f src k n =
      let first = length f.buf - f.head in
      let once = write_at f.buf f.head (take first src) in
      ground (
        arith,
        length-write_at f.buf f.head (take k src),
        length-write_at f.buf f.head (take first src),
        length-write_at once 0 (take (k - first) (drop first src)),
      )

  -- `fifo_nadd` keeps a fifo valid.
  pub nadd-IsValid : {f : Fifo A} (src : List A) → IsValid f → IsValid (nadd f src).0
  unfolding nadd
  nadd-IsValid {f} src v =
      let k = nadd_count f src in
      let new_head = (f.head + k) % 2 ^ 32 % length f.buf in
      let width = length-write_block f src k new_head in
      let bound : new_head < length f.buf = mod-lt ((f.head + k) % 2 ^ 32) (omega arith) in
      elim (Bool-cases (receivable f == 0)) [
        | inl e ↦ rw e v
        | inr e ↦ rw e (record {
          head_in = rw width bound;
          tail_in = rw width v.tail_in;
          small = rw width v.small;
          room = rw width v.room;
        })
      ]

  -- `fifo_nget` keeps a fifo valid.
  pub nget-IsValid :
      {f : Fifo A} (buffer : List A) (block_size max : ℕ)
      → IsValid f
      → IsValid (nget f buffer block_size max).1
  unfolding nget
  nget-IsValid {f} buffer block_size max v =
      let k = nget_count f block_size max in
      let bound : (f.tail + k) % 2 ^ 32 % length f.buf < length f.buf =
        mod-lt ((f.tail + k) % 2 ^ 32) (omega arith) in
      elim (Bool-cases (available f == 0)) [
        | inl e ↦ rw e v
        | inr e ↦
            rw e (record { head_in = v.head_in; tail_in = bound; small = v.small; room = v.room })
      ]

module _ {ℓ} {A : Type ℓ} (zero_elem : A) where
  -- The fifo after k elements of the source have been written.
  abbrev pub Appended : Fifo A → List A → ℕ → Fifo A × List A → Type ℓ
  Appended f src k (f', rest) =
      (contents zero_elem f' ≡ contents zero_elem f ++ take k src) × (rest ≡ drop k src)

  rest-drop : (k : ℕ) (src : List A) → (if k == length src then [] else drop k src) ≡ drop k src
  rest-drop k src = elim (Bool-cases (k == length src)) [
    | inl e ↦ rw e (sym (drop-length src k (ground arith)))
    | inr e ↦ rw e
  ]

  write_block-Holds :
      {f : Fifo A} (src : List A) (k : ℕ)
      → IsValid f
      → 0 < k
      → k ≤ length src
      → count f + k < length f.buf
      → Holds zero_elem f (take k src) (write_block f src k (wrapped (length f.buf) f.head k))
  unfolding write_block
  write_block-Holds {f} src k v pos fits room = elim (dec_lt (length f.buf) (f.head + k)) [
    | no p ↦ rw (one_piece (length f.buf) f.head k v.head_in pos (omega arith)) (
        write_at-Holds zero_elem (take k src) v (omega (arith, length-take k src))
          (omega (arith, length-take k src)))
    | yes p ↦
        let first = length f.buf - f.head in
        let whole = take-split first (k - first) k src (omega arith) in
        rw (two_pieces (length f.buf) f.head k v.head_in p room') (
          rw (← whole) (
            write_at_twice-Holds zero_elem (take first src) (take (k - first) (drop first src)) v
              (rw whole (omega (arith, length-take k src))) (omega (arith, length-take first src))))
  ]
    where
      room' : k < length f.buf
      room' = omega arith

  contents-write_block :
      {f : Fifo A} (src : List A) (k : ℕ)
      → IsValid f
      → 0 < k
      → k ≤ length src
      → count f + k < length f.buf
      → let new_head = (f.head + k) % 2 ^ 32 % length f.buf in
        contents zero_elem (record f { buf = write_block f src k new_head; head = new_head })
        ≡ contents zero_elem f ++ take k src
  contents-write_block {f} src k v pos fits room =
      let len : length (take k src) ≡ k = omega (arith, length-take k src) in
      rw (mod_step (length f.buf) f.head k v.head_in (omega arith) v.small) (
        rw len at (
          contents-Holds zero_elem f (take k src) _ v (rw len room)
            (write_block-Holds src k v pos fits room)))

  -- On a valid fifo whose elements and inputs together fit the size, `fifo_nadd` moves as many elements
  -- of a source that is not empty as there is room for; they come after the others and in order, and
  -- the source keeps the rest. There has to be an input.
  pub contents-nadd :
      {f : Fifo A} (src : List A)
      → IsValid f
      → 0 < f.input_count
      → count f + f.input_count ≤ length f.buf
      → 0 < length src
      → Appended f src (min (length f.buf - count f - f.input_count) (length src)) (nadd f src)
  unfolding nadd
  contents-nadd {f} src v inputs fit some_src =
      let room = receivable-count v fit in
      let k_eq : min (length f.buf - count f - f.input_count) (length src) ≡ nadd_count f src =
        ground arith in
      elim (Bool-cases (receivable f == 0)) [
        | inl e ↦
            let nothing : min (length f.buf - count f - f.input_count) (length src) ≡ 0 =
              ground arith in
            rw (e, nothing) (sym (append-nil (contents zero_elem f)), refl)
        | inr e ↦
            rw (e, k_eq)
              (
                contents-write_block src (nadd_count f src) v (ground arith) (ground arith)
                    (ground arith),
                rest-drop (nadd_count f src) src,
              )
      ]

  read_block-contents :
      {f : Fifo A} (k : ℕ)
      → IsValid f
      → 0 < k
      → k ≤ count f
      → read_block f k (wrapped (length f.buf) f.tail k) ≡ take k (contents zero_elem f)
  unfolding read_block
  read_block-contents {f} k v pos le =
      let lt = count-lt v in
      let at = λ (i : ℕ). get_or f.buf (slot f i) zero_elem in
      rw (take-tabulate k (count f) at le) (elim (dec_lt (length f.buf) (f.tail + k)) [
        | no p ↦ rw (one_piece (length f.buf) f.tail k v.tail_in pos (omega arith)) (
            read_at-tabulate f.buf f.tail k at zero_elem (omega arith)
              (λ j i e q. ap (λ n. get_or f.buf n zero_elem) (ground arith)))
        | yes p ↦
            let first = length f.buf - f.tail in
            let rest = wrapped (length f.buf) f.tail k in
            let front = λ (i : ℕ). get_or f.buf i zero_elem in
            rw (two_pieces (length f.buf) f.tail k v.tail_in p (omega arith)) (
              ap₂ ◌++◌
                (read_at-tabulate f.buf f.tail first at zero_elem (omega arith)
                  (λ j i e q. ap front (ground arith)))
                (read_at-tabulate f.buf 0 rest front zero_elem (ground arith)
                  (λ j i e q. ap front (ground arith)))
              ∙ sym (
                  tabulate-split first rest k at at front (ground arith) (λ i q. refl)
                    (λ i j e q. ap front (ground arith))))
      ])

  -- What `fifo_nget` moves, and what it leaves.
  pub record Moved (f : Fifo A) (buffer : List A) (k : ℕ) (r : List A × Fifo A × ℕ) : Type ℓ where
    pub moved : r.0 ≡ buffer ++ take k (contents zero_elem f)
    pub stays : contents zero_elem r.1 ≡ drop k (contents zero_elem f)
    pub left : r.2 + k ≡ count f

  -- The same for the count that the code computes.
  pub nget-Moved :
      {f : Fifo A} (buffer : List A) (block_size max : ℕ)
      → IsValid f
      → 0 < nget_count f block_size max
      → Moved f buffer (nget_count f block_size max) (nget f buffer block_size max)
  unfolding nget
  nget-Moved {f} buffer block_size max v some_block =
      let lt = count-lt v in
      let av = count-available v in
      let k = nget_count f block_size max in
      let le : k ≤ count f = ground arith in
      let full : (available f == 0) ≡ false = ground arith in
      let step = mod_step (length f.buf) f.tail k v.tail_in (omega arith) v.small in
      rw (full, step)
        (record {
          moved = ap (λ l. buffer ++ l) (read_block-contents k v some_block le);
          stays = contents-drop zero_elem k v le;
          left = omega arith;
        })

  -- The count for a number of whole blocks and what is left over.
  nget_count-blocks :
      (f : Fifo A) (block_size max q r : ℕ)
      → IsValid f
      → r < block_size
      → min max (count f) ≡ q * block_size + r
      → nget_count f block_size max ≡ q * block_size
  nget_count-blocks f block_size max q r v less taken =
      let may = if ltb max (available f) then max else available f in
      let whole : may ≡ q * block_size + r = ground (arith, count-available v) in
      let over : (q * block_size + r) % block_size ≡ r =
        mul-add-mod_self_right q block_size r ∙ mod-eq_of_lt less in
      rw (whole, over) (omega arith)

  -- On a valid fifo, let what `fifo_nget` may take, that is `max` or the number of elements where there
  -- are fewer, be q blocks, at least one, and r elements, fewer than a block. Then it moves q blocks to the
  -- end of a buffer, the oldest element first; the fifo keeps the rest, whose number is returned.
  pub contents-nget :
      {f : Fifo A} (buffer : List A) (block_size max q r : ℕ)
      → IsValid f
      → 0 < q
      → r < block_size
      → min max (count f) ≡ q * block_size + r
      → Moved f buffer (q * block_size) (nget f buffer block_size max)
  contents-nget {f} buffer block_size max q r v some_block less taken =
      let moves = nget_count-blocks f block_size max q r v less taken in
      let pos : 0 < q * block_size = mul-pos some_block (omega arith) in
      subst (λ k. Moved f buffer k (nget f buffer block_size max)) moves
        (nget-Moved buffer block_size max v (rw moves pos))

  read_block-whole :
      {f : Fifo A}
      → IsValid f
      → f.tail ≢ 0
      → read_block f 0 f.tail ≡ drop f.tail f.buf ++ take f.tail f.buf
  unfolding read_block
  read_block-whole {f} v moved_on =
      let wraps : (f.tail == 0 || ltb f.tail f.tail) ≡ false = ground arith in
      rw wraps (
        ap (λ l. l ++ take f.tail f.buf)
          (take-all (length f.buf - f.tail) (drop f.tail f.buf)
            (omega (arith, length-drop f.tail f.buf))))

  -- Where a valid fifo has elements, but `max` or the elements are fewer than a block, and the tail is
  -- not at the front of the buffer, `fifo_nget` copies the whole circular buffer, from the tail on and
  -- round to it, to the end of its target, leaves the fifo as it is and returns its number of elements.
  pub nget-no_block :
      {f : Fifo A} (buffer : List A) (block_size max : ℕ)
      → IsValid f
      → count f ≢ 0
      → min max (count f) < block_size
      → f.tail ≢ 0
      → nget f buffer block_size max
        ≡ (buffer ++ (drop f.tail f.buf ++ take f.tail f.buf), f, count f)
  unfolding nget
  nget-no_block {f} buffer block_size max v some_elem few moved_on =
      let av = count-available v in
      let no_block : nget_count f block_size max ≡ 0 =
        nget_count-blocks f block_size max 0 (min max (count f)) v few (omega arith)
        ∙ omega arith in
      let some : (available f == 0) ≡ false = ground arith in
      let same : (f.tail + 0) % 2 ^ 32 % length f.buf ≡ f.tail =
        ground (arith, mod_step (length f.buf) f.tail 0 v.tail_in (omega arith) v.small) in
      let left : available f - 0 ≡ count f = omega arith in
      rw (some, no_block, same, left, read_block-whole v moved_on) refl
