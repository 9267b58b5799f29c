-- ===== src/Fifo.antt =====
-- util/fifo.c: the circular buffer between two processes. A function's critical section is one
-- step, so mutexes, condition variables and the shared fifo of a wait are not modelled; a
-- `pthread_mutex_trylock` hands in what it returned. A pointer into the buffer is the element there,
-- and `zero` is the element that zeroed memory holds.
pub mod Valid
pub mod Queue
pub mod Transfer
pub mod Reach
mod Tests
use fql.Prelude.{
  ℕ, ◌+◌, ◌-◌, ◌%◌, ◌^◌, Bool, true, false, Option, none, some, List, [], ◌++◌, ltb, leb, ◌==◌,
  ◌||◌, not, if◌then◌else◌, length, get_or, set, take, drop, replicate, write_at, read_at,
}

pub record Fifo {ℓ} (A : Type ℓ) : Type ℓ where
  pub buf : List A
  pub head : ℕ
  pub tail : ℕ
  pub iter_head : ℕ
  pub input_count : ℕ
  pub is_open : Bool

module _ {ℓ} {A : Type ℓ} (zero_elem : A) where
  -- The least size is 2.
  unfoldable pub construct : ℕ → Fifo A
  construct buf_size = record {
    buf = replicate (if leb buf_size 1 then 2 else buf_size) zero_elem;
    head = 0;
    tail = 0;
    iter_head = 0;
    input_count = 0;
    is_open = true;
  }

  -- `vec_resize_and_zero` keeps the elements that fit. What stands in new slots is never read.
  unfoldable pub resize : Fifo A → ℕ → Fifo A
  resize f n =
      let n' = if leb n 1 then 2 else n in
      record f {
        buf = take n' f.buf ++ replicate (n' - length f.buf) zero_elem;
        head = 0;
        tail = 0;
      }

  -- `fifo_peek`
  unfoldable pub peek : Fifo A → A
  peek f = get_or f.buf f.tail zero_elem

module _ {ℓ} {A : Type ℓ} where
  unfoldable pub reset : Fifo A → Fifo A
  reset f = record f { is_open = true; head = 0; tail = 0; iter_head = 0 }

  unfoldable pub set_open : Fifo A → Bool → Fifo A
  set_open f is_open = record f { is_open = is_open }

  -- `head - tail` is an unsigned difference stored in a size_t.
  unfoldable pub available : Fifo A → ℕ
  available f =
      let d = (f.head + 2 ^ 32 - f.tail) % 2 ^ 32 in
      (if ltb (length f.buf) d then d + length f.buf else d) % 2 ^ 32

  unfoldable pub is_empty : Fifo A → Bool
  is_empty f = f.head == f.tail

  unfoldable pub is_full : Fifo A → Bool
  is_full f = (f.head + 1) % 2 ^ 32 % length f.buf == f.tail

  -- The difference wraps round where the inputs and the elements exceed the size.
  unfoldable pub receivable : Fifo A → ℕ
  receivable f = (length f.buf + 2 ^ 33 - available f - f.input_count) % 2 ^ 32

  unfoldable pub set_full : Fifo A → Fifo A
  set_full f = record f { tail = 0; head = length f.buf - 1 }

  -- `_idx_adv_`
  abbrev pub idx_adv : Fifo A → ℕ → ℕ
  idx_adv f idx = (idx + 1) % 2 ^ 32 % length f.buf

  unfoldable pub consume : Fifo A → Fifo A
  consume f = record f { tail = idx_adv f f.tail }

  -- `fifo_get`: it does not test for an element.
  unfoldable pub get : A → Fifo A → A × Fifo A
  get zero_elem f = (get_or f.buf f.tail zero_elem, consume f)

  unfoldable pub safe_peek : A → Fifo A → Option A
  safe_peek zero_elem f = if f.head == f.tail then none else some (get_or f.buf f.tail zero_elem)

  unfoldable pub look_ahead : A → Fifo A → Option A
  look_ahead zero_elem f =
      if ltb (available f) 2 then none else some (get_or f.buf (idx_adv f f.tail) zero_elem)

  -- `fifo_add`: it does not test for room.
  unfoldable pub add : Fifo A → A → Fifo A
  add f x = record f { buf = set f.buf f.head x; head = idx_adv f f.head }

  -- The Boolean says that the lock was free.
  unfoldable pub add_try : Bool → Fifo A → A → Bool × Fifo A
  add_try true f x = (true, add f x)
  add_try false f x = (false, f)

  unfoldable pub advance : Fifo A → Fifo A
  advance f = record f { head = idx_adv f f.head }

  -- `fifo_nget`: the buffer with what was moved, the fifo, and the number left over. The count moved
  -- is a whole number of blocks.
  abbrev pub nget_count : Fifo A → ℕ → ℕ → ℕ
  nget_count f block_size max =
      let count = if ltb max (available f) then max else available f in count - count % block_size

  -- The copy to `new_tail`, in one piece or in two.
  unfoldable pub read_block : Fifo A → ℕ → ℕ → List A
  read_block f count new_tail =
      if new_tail == 0 || ltb f.tail new_tail
      then read_at f.buf f.tail count
      else read_at f.buf f.tail (length f.buf - f.tail) ++ read_at f.buf 0 new_tail

  unfoldable pub nget : Fifo A → List A → ℕ → ℕ → List A × Fifo A × ℕ
  nget f buffer block_size max =
      if available f == 0
      then (buffer, f, 0)
      else let count = nget_count f block_size max in
        let new_tail = (f.tail + count) % 2 ^ 32 % length f.buf in
        (buffer ++ read_block f count new_tail, record f { tail = new_tail }, available f - count)

  -- `fifo_nadd`: the fifo and what is left of the source.
  abbrev pub nadd_count : Fifo A → List A → ℕ
  nadd_count f src = if ltb (receivable f) (length src) then receivable f else length src

  -- The copy to `new_head`, in one piece or in two.
  unfoldable pub write_block : Fifo A → List A → ℕ → ℕ → List A
  write_block f src count new_head =
      let first = length f.buf - f.head in
      if new_head == 0 || ltb f.head new_head
      then write_at f.buf f.head (take count src)
      else write_at (write_at f.buf f.head (take first src)) 0
          (take (count - first) (drop first src))

  unfoldable pub nadd : Fifo A → List A → Fifo A × List A
  nadd f src =
      if receivable f == 0
      then (f, src)
      else let count = nadd_count f src in
        let new_head = (f.head + count) % 2 ^ 32 % length f.buf in
        (
          record f { buf = write_block f src count new_head; head = new_head },
          if count == length src then [] else drop count src,
        )

  unfoldable pub nadd_try : Bool → Fifo A → List A → Bool × Fifo A × List A
  nadd_try true f src = let (f', rest) = nadd f src in (true, f', rest)
  nadd_try false f src = (false, f, src)

  -- The iterators, which take no lock.
  unfoldable pub begin : A → Fifo A → A × Fifo A
  begin zero_elem f =
      (get_or f.buf f.tail zero_elem, record f { iter_head = f.head % length f.buf })

  unfoldable pub iter : A → Fifo A → A × Fifo A
  iter zero_elem f =
      let tail = idx_adv f f.tail in (get_or f.buf tail zero_elem, record f { tail = tail })

  -- `it != fifo_end(in)` compares the slots.
  unfoldable pub at_end : Fifo A → Bool
  at_end f = f.tail == f.iter_head
