-- ===== src/Join/Tests.antt =====
-- A join of two files on a name.
use fql.Prelude.{ℕ, true, Option, none, some, List, [], ◌∷◌, ◌≡◌, refl, arith, length, suc}
use fql.Prelude.Int.{ℤ}
use fql.Status.{◌>>=◌}
use fql.Text.{Text, tolower}
use fql.Field.{field_string}
use fql.Hash.{HashMap}
use fql.Join.{HashJoin, side_right, table_hash_join_init, hash_join_right_side}
use fql.Join.Rows.{left_rows, hash_join-matches}

-- A row has a name and the offset of its line.
abbrev Row : Type 0
Row = Text × ℕ

abbrev get_int : ℕ → Row → ℤ → Option ℤ
get_int column rg held = none

abbrev get_float : ℕ → Row → ℕ → Option ℕ
get_float column rg held = none

abbrev get_name : ℕ → Row → Option Text
get_name column rg = some rg.0

abbrev int_bytes : ℤ → Text
int_bytes i = []

abbrev float_bytes : ℕ → Text
float_bytes f = []

abbrev offset_of : Row → ℕ
offset_of rg = rg.1

abbrev no_data : HashMap (List ℕ)
no_data = record {
  values = [];
  entries = [];
  keybuf = [];
  props = record { nocase = true; rtrim = true };
}

abbrev join : HashJoin ℕ
join = record {
  hash_data = no_data;
  left_expr = 0;
  right_expr = 0;
  recs = none;
  state = side_right;
  comp_type = field_string;
  rec_idx = 0;
}

abbrev rights : List Row
rights = (b'a' ∷ [], 0) ∷ (b'b' ∷ [], 2) ∷ (b'A' ∷ [], 4) ∷ []

abbrev lefts : List Row
lefts = (b'a' ∷ b' ' ∷ [], 0) ∷ (b'c' ∷ [], 3) ∷ (b'B' ∷ [], 5) ∷ []

hash_join-matches_example :
    (table_hash_join_init join 2 >>= λ start.
    hash_join_right_side 0 get_int get_float get_name int_bytes float_bytes offset_of start rights
    >>= λ hashed.
        left_rows 0 get_int get_float get_name int_bytes float_bytes
          (suc (length rights))
          hashed
          lefts)
    ≡ some
        (((b'a' ∷ b' ' ∷ [], 0), 0 ∷ 4 ∷ []) ∷ ((b'c' ∷ [], 3), []) ∷ ((b'B' ∷ [], 5), 2 ∷ []) ∷ [])
unfolding tolower
hash_join-matches_example =
    hash_join-matches 0 get_int get_float get_name int_bytes float_bytes offset_of join 2 rights
      ((b'a' ∷ [], 0) ∷ (b'b' ∷ [], 2) ∷ (b'A' ∷ [], 4) ∷ []) lefts
      (((b'a' ∷ b' ' ∷ [], 0), 0 ∷ 4 ∷ []) ∷ ((b'c' ∷ [], 3), []) ∷ ((b'B' ∷ [], 5), 2 ∷ []) ∷ [])
      refl (omega arith) (omega arith) refl refl
