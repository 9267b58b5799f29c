-- ===== src/Join.antt =====
-- The hash join of lib/fqlprocesses.c on the table of lib/table.c: the right side puts the offset of each
-- row under its key, and the left side takes the offsets under the key of a row, one per call. E is the
-- expression, F the double and R the record group. A getter of numbers of lib/expression.c is given what the variable
-- holds that it writes to, and gives what it holds then; the bytes of a number in memory are parameters.
-- `recs` is the vector that the multimap holds, which does not change on the left side. `none` is a
-- failure, a read out of range or a loop that does not end.
pub mod Matches
pub mod Row
pub mod Rows
mod Tests
use fql.Prelude.{
  ℕ, zero, suc, ◌+◌, ◌*◌, ◌%◌, ◌^◌, true, false, Option, none, some, List, [], ◌∷◌, if◌then◌else◌,
  length, get_elem?, leb,
}
use fql.Prelude.Int.{ℤ, pos}
use fql.Status.{◌>>=◌}
use fql.Text.{Text}
use fql.Field.{FieldType, field_undefined, field_int, field_float, field_string}
use fql.Hash.{Props, HashMap, set_construct, multimap_nset, hashmap_nget, multimap_clear}

pub data JoinSide : Type 0 where
  side_left side_right : JoinSide

-- `struct hashjoin`
pub record HashJoin (E : Type 0) : Type 0 where
  pub hash_data : HashMap (List ℕ)
  pub left_expr : E
  pub right_expr : E
  pub recs : Option (List ℕ)
  pub state : JoinSide
  pub comp_type : FieldType
  pub rec_idx : ℕ

-- Strings are joined up to case and blanks at the end.
abbrev pub join_props : FieldType → Props
join_props field_undefined = record { nocase = false; rtrim = false }
join_props field_int = record { nocase = false; rtrim = false }
join_props field_float = record { nocase = false; rtrim = false }
join_props field_string = record { nocase = true; rtrim = true }

-- `table_hash_join_init` for a guess of the number of rows.
unfoldable pub table_hash_join_init : {E : Type 0} → HashJoin E → ℕ → Option (HashJoin E)
table_hash_join_init join guessed_row_count =
    set_construct (guessed_row_count * 2) (join_props join.comp_type) >>= λ hash_data.
    some (record join { hash_data = hash_data })

-- `hashjoin_reset` on a join: `recs` stays.
unfoldable pub hashjoin_reset : {E : Type 0} → HashJoin E → HashJoin E
hashjoin_reset join = record join { hash_data = multimap_clear join.hash_data; state = side_right }

-- The numbers outlast a round of the loop over the right side. So does the view, but what it points to
-- can have changed since: `get_string` gives what a getter stores in the view, and `none` where it fails
-- or leaves the view as it was, so that a row with a stale view has no key.
pub record Held (F : Type 0) : Type 0 where
  pub int_hold : ℤ
  pub float_hold : F

abbrev pub held_none : {F : Type 0} → F → Held F
held_none zero_float = record { int_hold = pos 0; float_hold = zero_float }

-- `vec_at(hj->recs, hj->rec_idx++)`, and the end of the vector.
abbrev pub next_match : {E : Type 0} → HashJoin E → List ℕ → Option (Option ℕ × HashJoin E)
next_match hj recs =
    let next = (hj.rec_idx + 1) % 2 ^ 32 in
    get_elem? recs hj.rec_idx >>= λ offset. some (
      some offset,
      record hj { recs = if leb (length recs) next then none else some recs; rec_idx = next },
    )

module _ {E F R : Type 0} (zero_float : F) (get_int : E → R → ℤ → Option ℤ)
    (get_float : E → R → F → Option F) (get_string : E → R → Option Text) (int_bytes : ℤ → Text)
    (float_bytes : F → Text) where
  -- The switch on the type: the key of a row, and what the variables hold then.
  abbrev pub join_key : FieldType → E → R → Held F → Option (Text × Held F)
  join_key field_undefined e rg held = none
  join_key field_int e rg held =
      get_int e rg held.int_hold >>= λ i. some (int_bytes i, record held { int_hold = i })
  join_key field_float e rg held =
      get_float e rg held.float_hold >>= λ f. some (float_bytes f, record held { float_hold = f })
  join_key field_string e rg held = get_string e rg >>= λ s. some (s, held)

  -- The loop over the rows of the right side.
  abbrev pub right_loop : (R → ℕ) → HashJoin E → Held F → List R → Option (HashJoin E)
  right_loop offset_of hj held [] = some hj
  right_loop offset_of hj held (rg ∷ rows) =
      join_key hj.comp_type hj.right_expr rg held >>= λ (key, held').
      multimap_nset hj.hash_data key (offset_of rg) >>= λ m.
      right_loop offset_of (record hj { hash_data = m }) held' rows

  unfoldable pub hash_join_right_side : (R → ℕ) → HashJoin E → List R → Option (HashJoin E)
  hash_join_right_side offset_of hj rows = right_loop offset_of hj (held_none zero_float) rows

  -- `none` inside is -1, for a row with no match.
  unfoldable pub hash_join_left_side : HashJoin E → R → Option (Option ℕ × HashJoin E)
  hash_join_left_side hj rg = elim hj.recs [
    | some recs ↦ next_match hj recs
    | none ↦ join_key hj.comp_type hj.left_expr rg (held_none zero_float) >>= λ (key, held).
        hashmap_nget hj.hash_data key >>= λ found. elim found [
          | none ↦ some (none, hj)
          | some recs ↦ next_match (record hj { rec_idx = 0 }) recs
        ]
  ]

  -- The rounds of `fql_hash_join` for one row of the left side: they end with -1, or when `recs` is
  -- NULL again.
  unfoldable pub left_row : ℕ → HashJoin E → R → Option (List ℕ × HashJoin E)
  unfolding hash_join_left_side
  left_row zero hj rg = none
  left_row (suc fuel) hj rg =
      let rest : HashJoin E → Option (List ℕ × HashJoin E) = λ hj'. left_row fuel hj' rg in
      hash_join_left_side hj rg >>= λ (found, hj'). elim found [
        | none ↦ some ([], hj')
        | some offset ↦ elim hj'.recs [
          | none ↦ some (offset ∷ [], hj')
          | some recs ↦ rest hj' >>= λ (offsets, out). some (offset ∷ offsets, out)
        ]
      ]
