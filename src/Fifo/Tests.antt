-- ===== src/Fifo/Tests.antt =====
-- A ring of four slots that holds 4 and 7, and runs of util/fifo.c on it.
use fql.Prelude.{ℕ, ◌<◌, ◌++◌, true, false, [], ◌∷◌, ◌≡◌, refl, ◌↔◌, ◌+◌, ◌*◌, arith}
use fql.Fifo.{
  Fifo, construct, available, is_full, receivable, get, add, consume, nget, nget_count, read_block,
  nadd, write_block,
}
use fql.Fifo.Valid.{
  IsValid, contents, is_full-count, receivable-count, construct-IsValid, consume-IsValid,
  add-IsValid,
}
use fql.Fifo.Reach.{done, put, take_one, Ready, Run-contents}
use fql.Fifo.Queue.{contents-add, contents-add_full, contents-get}
use fql.Fifo.Transfer.{
  Appended, Moved, contents-nadd, contents-nget, nget-no_block, nadd-IsValid, nget-IsValid,
}

abbrev ring : Fifo ℕ
ring = record {
  buf = 7 ∷ 8 ∷ 9 ∷ 4 ∷ [];
  head = 1;
  tail = 3;
  iter_head = 0;
  input_count = 1;
  is_open = true;
}

-- The same with 2, so that it is full.
abbrev full_ring : Fifo ℕ
full_ring = record ring { buf = 7 ∷ 2 ∷ 9 ∷ 4 ∷ []; head = 2 }

ring-IsValid : IsValid ring
ring-IsValid = ground arith

full_ring-IsValid : IsValid full_ring
full_ring-IsValid = ground arith

ring_list : contents 0 ring ≡ 4 ∷ 7 ∷ []
ring_list = refl

nadd_run : contents 0 (nadd ring (5 ∷ 6 ∷ [])).0 ≡ 4 ∷ 7 ∷ 5 ∷ []
unfolding nadd write_block receivable available
nadd_run = refl

nget_run : (nget ring (1 ∷ []) 1 9).0 ≡ 1 ∷ 4 ∷ 7 ∷ []
unfolding nget read_block available
nget_run = refl

one_block : nget_count ring 1 9 ≡ 2
unfolding available
one_block = refl

no_block_of_3 : nget_count ring 3 9 ≡ 0
unfolding available
no_block_of_3 = refl

ring_not_full : is_full ring ≡ false
unfolding is_full
ring_not_full = refl

full_ring_full : is_full full_ring ≡ true
unfolding is_full
full_ring_full = refl

contents-nadd_example : Appended 0 ring (5 ∷ 6 ∷ []) 1 (nadd ring (5 ∷ 6 ∷ []))
contents-nadd_example =
    contents-nadd 0 (5 ∷ 6 ∷ []) ring-IsValid (omega arith) (omega arith) (omega arith)

contents-nget_example : Moved 0 ring (1 ∷ []) (2 * 1) (nget ring (1 ∷ []) 1 9)
contents-nget_example =
    contents-nget 0 (1 ∷ []) 1 9 2 0 ring-IsValid (omega arith) (omega arith) refl

nget-no_block_example : nget ring (1 ∷ []) 3 9 ≡ (1 ∷ 4 ∷ 7 ∷ 8 ∷ 9 ∷ [], ring, 2)
nget-no_block_example =
    nget-no_block 0 (1 ∷ []) 3 9 ring-IsValid (omega arith) (omega arith) (omega arith)

added_contents : contents 0 (add ring 5) ≡ 4 ∷ 7 ∷ 5 ∷ []
added_contents = contents-add 0 5 ring-IsValid ring_not_full

overflowing_contents : contents 0 (add full_ring 5) ≡ []
overflowing_contents = contents-add_full 0 5 full_ring-IsValid full_ring_full

taken_contents : 4 ∷ 7 ∷ [] ≡ (get 0 ring).0 ∷ contents 0 (get 0 ring).1
taken_contents = contents-get 0 ring-IsValid (omega arith)

receivable_run : receivable ring + 2 + 1 ≡ 4
receivable_run = receivable-count ring-IsValid (omega arith)

full_ring_count : (is_full full_ring ≡ true) ↔ (3 + 1 ≡ 4)
full_ring_count = is_full-count full_ring-IsValid

new_ring : IsValid (construct {A = ℕ} 0 16) × (contents {A = ℕ} 0 (construct 0 16) ≡ [])
new_ring = construct-IsValid 0 16 (omega arith)

consumed_ring : IsValid (consume ring)
consumed_ring = consume-IsValid ring-IsValid

longer_ring : IsValid (add ring 5)
longer_ring = add-IsValid 5 ring-IsValid

nlonger_ring : IsValid (nadd ring (5 ∷ 6 ∷ [])).0
nlonger_ring = nadd-IsValid (5 ∷ 6 ∷ []) ring-IsValid

ring_without_block : IsValid (nget ring (1 ∷ []) 1 9).1
ring_without_block = nget-IsValid (1 ∷ []) 1 9 ring-IsValid

ring-Ready : Ready ring
ring-Ready = record { valid = ring-IsValid; has_input = omega arith; fits = omega arith }

ring_has_room : 0 < receivable ring
unfolding receivable available
ring_has_room = omega arith

ring_has_element : 0 < available (add ring 5)
unfolding available add
ring_has_element = omega arith

-- 5 is put in and the oldest element, 4, is taken out.
Run-contents_example :
    Ready (get 0 (add ring 5)).1
    × (contents 0 ring ++ (5 ∷ [])
        ≡ (get 0 (add ring 5)).0 ∷ [] ++ contents 0 (get 0 (add ring 5)).1)
Run-contents_example =
    Run-contents 0 ring (5 ∷ []) ((get 0 (add ring 5)).0 ∷ []) (get 0 (add ring 5)).1 ring-Ready (
      put ring 5 ring_has_room
        (take_one (add ring 5) ring_has_element (done (get 0 (add ring 5)).1)))
