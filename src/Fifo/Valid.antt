-- ===== src/Fifo/Valid.antt =====
-- The invariant of a fifo of util/fifo.c, and the list that it holds.
use fql.Prelude.{
  dec_lt, length-replicate, ℕ, ◌+◌, ◌-◌, ◌%◌, ◌^◌, ◌<◌, ◌≤◌, true, List, [], ◌≡◌, ◌↔◌, ltb, leb,
  if◌then◌else◌, length, get_or, arith, tabulate, length-set,
}
use native.Mathlib.Nat.{mod-eq_of_lt, mod-eq-sub-mod}
use fql.Fifo.{Fifo, construct, available, is_empty, is_full, receivable, consume, add}

module _ {ℓ} {A : Type ℓ} where
  -- Both indices lie in the buffer, which has from 2 to 2 ^ 31 slots.
  pub record IsValid (f : Fifo A) : Type ℓ where
    pub head_in : f.head < length f.buf
    pub tail_in : f.tail < length f.buf
    pub small : length f.buf ≤ 2 ^ 31
    pub room : 2 ≤ length f.buf

  -- The number of elements, without a modulus.
  abbrev pub count : Fifo A → ℕ
  count f = if leb f.tail f.head then f.head - f.tail else f.head + length f.buf - f.tail

  -- The slot of the i-th element.
  abbrev pub slot : Fifo A → ℕ → ℕ
  slot f i = if ltb (f.tail + i) (length f.buf) then f.tail + i else f.tail + i - length f.buf

  -- The elements from the oldest on.
  abbrev pub contents : A → Fifo A → List A
  contents zero_elem f = tabulate (count f) (λ i. get_or f.buf (slot f i) zero_elem)

  pub count-available : {f : Fifo A} → IsValid f → available f ≡ count f
  unfolding available
  count-available v = ground arith

-- An index moved by at most the size, without a modulus.
pub mod_step :
    (n h k : ℕ)
    → h < n
    → k ≤ n
    → n ≤ 2 ^ 31
    → (h + k) % 2 ^ 32 % n ≡ (if ltb (h + k) n then h + k else h + k - n)
mod_step n h k hh hk hn =
    rw (mod-eq_of_lt {n = h + k} {m = 2 ^ 32} (omega arith)) (elim (dec_lt (h + k) n) [
      | yes p ↦ ground (arith, mod-eq_of_lt p)
      | no p ↦ ground (
        arith,
        mod-eq-sub-mod {n = h + k} {m = n} (omega arith),
        mod-eq_of_lt {n = h + k - n} {m = n},
      )
    ])

module _ {ℓ} {A : Type ℓ} where
  -- `fifo_is_empty` and `fifo_is_full` tell the two ends of the range of the count.
  pub is_empty-count : {f : Fifo A} → IsValid f → (is_empty f ≡ true) ↔ (count f ≡ 0)
  unfolding is_empty
  is_empty-count v = (λ h. ground arith, λ h. ground arith)

  pub is_full-count : {f : Fifo A} → IsValid f → (is_full f ≡ true) ↔ (count f + 1 ≡ length f.buf)
  unfolding is_full
  is_full-count {f} v =
      let step = mod_step (length f.buf) f.head 1 v.head_in (omega arith) v.small in
      (λ h. ground arith, λ h. ground arith)

  pub count-lt : {f : Fifo A} → IsValid f → count f < length f.buf
  count-lt v = ground arith

  -- Where the inputs and the elements fit the size, `fifo_receivable` is the room that leaves one
  -- slot free for each input.
  pub receivable-count :
      {f : Fifo A}
      → IsValid f
      → count f + f.input_count ≤ length f.buf
      → receivable f + count f + f.input_count ≡ length f.buf
  unfolding receivable
  receivable-count {f} v h = ground (arith, count-available v)

  -- A new fifo of up to 2 ^ 31 slots is valid and empty.
  pub construct-IsValid :
      (zero_elem : A) (n : ℕ)
      → n ≤ 2 ^ 31
      → IsValid (construct zero_elem n) × (contents zero_elem (construct zero_elem n) ≡ [])
  unfolding construct
  construct-IsValid zero_elem n h =
      ground (arith, length-replicate (if leb n 1 then 2 else n) zero_elem)

  -- `fifo_consume` keeps a fifo valid.
  pub consume-IsValid : {f : Fifo A} → IsValid f → IsValid (consume f)
  unfolding consume
  consume-IsValid {f} v =
      let step = mod_step (length f.buf) f.tail 1 v.tail_in (omega arith) v.small in ground arith

  -- `fifo_add` keeps a fifo valid.
  pub add-IsValid : {f : Fifo A} (x : A) → IsValid f → IsValid (add f x)
  unfolding add
  add-IsValid {f} x v =
      let step = mod_step (length f.buf) f.head 1 v.head_in (omega arith) v.small in
      ground (arith, length-set f.buf f.head x)
