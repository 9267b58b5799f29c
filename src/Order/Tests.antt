-- ===== src/Order/Tests.antt =====
-- ORDER BY number DESC, name over two records.
use fql.Prelude.{ℕ, true, false, Bool, Option, some, [], ◌∷◌, ◌≡◌, refl, ltb, arith, List}
use fql.Prelude.Int.{ℤ, pos}
use fql.Status.{Got, good, null}
use fql.Text.{Text}
use fql.Field.{field_int, field_string}
use fql.Order.{
  Key, key_int, key_string, OrderExpr, OrderEntry, Order, minus, order_add_record, compare_entries,
  select_loop,
}
use fql.Order.Keys.{select_loop-take}
use fql.Order.Direction.{is_negative, precedes}
use fql.Order.Records.{Stored, RecordAdded, order_add_record-RecordAdded, compare_entries-precedes}

abbrev number : ℕ → ℤ × Text → Got ℤ
number e rg = good rg.0

abbrev no_float : ℕ → ℤ × Text → Got ℕ
no_float e rg = null

abbrev name : ℕ → ℤ × Text → Option Text → Option (Option Text)
name e rg sv = some (some rg.1)

abbrev by_number : OrderExpr ℕ
by_number = record { expr = 0; field_type = field_int; descending = true }

abbrev by_name : OrderExpr ℕ
by_name = record { expr = 1; field_type = field_string; descending = false }

abbrev mirrored : ℕ → ℕ → Bool
mirrored a b = ltb b a

abbrev ann : ℤ × Text
ann = (pos 3, b'a' ∷ b'n' ∷ b'n' ∷ [])

abbrev bob : ℤ × Text
bob = (pos 5, b'b' ∷ b'o' ∷ b'b' ∷ [])

abbrev ann_keys : List (Key ℕ)
ann_keys = key_int (pos 3) ∷ key_string (b'a' ∷ b'n' ∷ b'n' ∷ []) ∷ []

abbrev bob_keys : List (Key ℕ)
bob_keys = key_int (pos 5) ∷ key_string (b'b' ∷ b'o' ∷ b'b' ∷ []) ∷ []

abbrev ann_entry : OrderEntry
ann_entry = record { idx = 0; offset = 0; len = 4 }

abbrev bob_entry : OrderEntry
bob_entry = record { idx = 2; offset = 4; len = 4 }

abbrev one_row : Order ℕ ℕ
one_row = record {
  expressions = by_number ∷ by_name ∷ [];
  entries = ann_entry ∷ [];
  order_data = ann_keys;
  top_count = 10;
}

abbrev two_rows : Order ℕ ℕ
two_rows = record {
  expressions = by_number ∷ by_name ∷ [];
  entries = ann_entry ∷ bob_entry ∷ [];
  order_data =
      key_int (pos 3)
      ∷ key_string (b'a' ∷ b'n' ∷ b'n' ∷ [])
      ∷ key_int (pos 5)
      ∷ key_string (b'b' ∷ b'o' ∷ b'b' ∷ [])
      ∷ [];
  top_count = 10;
}

add_run : order_add_record 0 number no_float name one_row 4 4 bob ≡ some two_rows
unfolding order_add_record
add_run = refl

-- 3 comes after 5.
compare_run : compare_entries 0 mirrored ltb two_rows ann_entry bob_entry ≡ pos 1
unfolding compare_entries
compare_run = refl

top_run : select_loop 1 0 (ann_entry ∷ bob_entry ∷ []) ≡ ((0, 4) ∷ [], 1)
unfolding select_loop
top_run = refl

order_add_record-RecordAdded_example : RecordAdded 0 number no_float name one_row 4 4 bob two_rows
order_add_record-RecordAdded_example =
    order_add_record-RecordAdded 0 number no_float name one_row 4 4 bob two_rows add_run

ann-Stored : Stored 0 number no_float name two_rows ann_entry ann ann_keys
ann-Stored = record { computed = refl; size = refl; at = (refl, (refl, tt)) }

bob-Stored : Stored 0 number no_float name two_rows bob_entry bob bob_keys
bob-Stored = record { computed = refl; size = refl; at = (refl, (refl, tt)) }

not_less : (a b : ℕ) → ltb a b ≡ true → ltb b a ≡ false
not_less a b h = ground arith

compare_entries-precedes_example :
    (is_negative (compare_entries 0 mirrored ltb two_rows bob_entry ann_entry)
      ≡ precedes ltb (by_number ∷ by_name ∷ []) bob_keys ann_keys)
    × (compare_entries 0 mirrored ltb two_rows bob_entry ann_entry
        ≡ minus (compare_entries 0 mirrored ltb two_rows ann_entry bob_entry))
compare_entries-precedes_example =
    compare_entries-precedes 0 number no_float name mirrored ltb two_rows bob_entry ann_entry bob
      ann bob_keys ann_keys (λ a b. refl) not_less bob-Stored ann-Stored
      (omega arith, (omega arith, tt)) (omega arith, (omega arith, tt))

-- 5 comes first.
bob_precedes : precedes ltb (by_number ∷ by_name ∷ []) bob_keys ann_keys ≡ true
bob_precedes = refl

first_row : select_loop 1 0 (ann_entry ∷ bob_entry ∷ []) ≡ ((0, 4) ∷ [], 1)
first_row = select_loop-take 1 0 (ann_entry ∷ bob_entry ∷ [])
