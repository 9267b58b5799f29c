-- ===== src/Join/Rows.antt =====
-- The hash join of lib/fqlprocesses.c from the rows of its right side to the offsets for the rows of its
-- left side.
use fql.Prelude.{
  ℕ, suc, ◌+◌, ◌*◌, ◌^◌, ◌<◌, ◌≤◌, Option, none, some, List, [], ◌∷◌, ◌++◌, ◌≡◌, refl, ◌∙◌, sym, ap,
  length, arith, append-nil, append_assoc, length-append,
}
use mathlib.Core.Path.{subst}
use fql.Prelude.Int.{ℤ}
use fql.Status.{◌>>=◌, bind-some}
use fql.Text.{Text}
use fql.Field.{FieldType}
use fql.Hash.Map.Write.{construct-IsValid}
use fql.Join.{
  HashJoin, Held, join_props, table_hash_join_init, join_key, held_none, right_loop,
  hash_join_right_side,
}
use fql.Join.Matches.{matches, multimap_nset-Indexed}
use fql.Join.Row.{row, done_at, HasRows, row-matches}

module _ {E F R : Type 0} (zero_float : F) (get_int : E → R → ℤ → Option ℤ)
    (get_float : E → R → F → Option F) (get_string : E → R → Option Text) (int_bytes : ℤ → Text)
    (float_bytes : F → Text) where
  -- The keys of the rows of the right side with their offsets.
  abbrev pub keyed_rows : HashJoin E → (R → ℕ) → Held F → List R → Option (List (Text × ℕ))
  keyed_rows hj offset_of held [] = some []
  keyed_rows hj offset_of held (rg ∷ rows) =
      join_key zero_float get_int get_float get_string int_bytes float_bytes hj.comp_type
        hj.right_expr rg held
      >>= λ (key, held').
          keyed_rows hj offset_of held' rows >>= λ keyed. some ((key, offset_of rg) ∷ keyed)

  right_loop-HasRows :
      (offset_of : R → ℕ) (rows : List R) (hj : HashJoin E) (held : Held F)
      (before keyed : List (Text × ℕ))
      → HasRows hj before
      → length before + length rows < 2 ^ 32
      → keyed_rows hj offset_of held rows ≡ some keyed
      → (hj' : HashJoin E) × (right_loop zero_float get_int get_float get_string int_bytes
            float_bytes offset_of hj held rows
          ≡ some hj')
        × HasRows hj' (before ++ keyed)
        × (hj'.comp_type ≡ hj.comp_type)
        × (hj'.left_expr ≡ hj.left_expr)
  right_loop-HasRows offset_of [] hj held before keyed h few keys =
      let eq : some [] ≡ some keyed = keys in
      let none_left : keyed ≡ [] = cc in (hj, refl, rw (none_left, append-nil before) h, refl, refl)
  right_loop-HasRows offset_of (rg ∷ rows) hj held before keyed h few keys =
      let its_key =
        join_key zero_float get_int get_float get_string int_bytes float_bytes hj.comp_type
          hj.right_expr rg held in
      let ((key, held'), is, more) =
        bind-some its_key
          (λ p. keyed_rows hj offset_of p.1 rows >>= λ keyed. some ((p.0, offset_of rg) ∷ keyed))
          keyed keys in
      let (rest, rest_keys, eq) =
        bind-some (keyed_rows hj offset_of held' rows) (λ keyed. some ((key, offset_of rg) ∷ keyed))
          keyed more in
      let all : some ((key, offset_of rg) ∷ rest) ≡ some keyed = eq in
      let (m, writes, indexed) =
        multimap_nset-Indexed (join_props hj.comp_type) before hj.hash_data key (offset_of rg)
          h.indexed (omega arith) in
      let next : HashJoin E = record hj { hash_data = m } in
      let (hj', runs, h', same_type, same_left) =
        right_loop-HasRows offset_of rows next held' (before ++ ((key, offset_of rg) ∷ [])) rest
          (record { indexed = indexed; at_start = h.at_start })
          (omega (arith, length-append before ((key, offset_of rg) ∷ []))) rest_keys in
      let joined : (before ++ ((key, offset_of rg) ∷ [])) ++ rest ≡ before ++ keyed =
        append_assoc before ((key, offset_of rg) ∷ []) rest
        ∙ ap (λ l. before ++ l) (let last : (key, offset_of rg) ∷ rest ≡ keyed = cc in last) in
      (hj', rw (is, writes) runs, subst (λ l. HasRows hj' l) joined h', same_type, same_left)

  length-keyed_rows :
      (hj : HashJoin E) (offset_of : R → ℕ) (held : Held F) (rows : List R)
      (keyed : List (Text × ℕ))
      → keyed_rows hj offset_of held rows ≡ some keyed
      → length keyed ≡ length rows
  length-keyed_rows hj offset_of held [] keyed h =
      let eq : some [] ≡ some keyed = h in let none_left : keyed ≡ [] = cc in rw none_left refl
  length-keyed_rows hj offset_of held (rg ∷ rows) keyed h =
      let its_key =
        join_key zero_float get_int get_float get_string int_bytes float_bytes hj.comp_type
          hj.right_expr rg held in
      let ((key, held'), is, more) =
        bind-some its_key
          (λ p. keyed_rows hj offset_of p.1 rows >>= λ keyed. some ((p.0, offset_of rg) ∷ keyed))
          keyed h in
      let (rest, rest_keys, eq) =
        bind-some (keyed_rows hj offset_of held' rows) (λ keyed. some ((key, offset_of rg) ∷ keyed))
          keyed more in
      let all : some ((key, offset_of rg) ∷ rest) ≡ some keyed = eq in
      let last : (key, offset_of rg) ∷ rest ≡ keyed = cc in
      sym (ap length last) ∙ ap suc (length-keyed_rows hj offset_of held' rows rest rest_keys)

  -- The rounds for all rows of the left side, and what they are to give.
  abbrev pub left_rows : ℕ → HashJoin E → List R → Option (List (R × List ℕ))
  left_rows fuel hj [] = some []
  left_rows fuel hj (rg ∷ lefts) =
      row zero_float get_int get_float get_string int_bytes float_bytes fuel hj rg
      >>= λ (offsets, hj'). left_rows fuel hj' lefts >>= λ rest. some ((rg, offsets) ∷ rest)

  abbrev pub joined_rows : FieldType → E → List (Text × ℕ) → List R → Option (List (R × List ℕ))
  joined_rows type left keyed [] = some []
  joined_rows type left keyed (rg ∷ lefts) =
      join_key zero_float get_int get_float get_string int_bytes float_bytes type left rg
        (held_none zero_float)
      >>= λ (key, held). joined_rows type left keyed lefts >>= λ rest.
          some ((rg, matches (join_props type) keyed key) ∷ rest)

  left_rows-joined_rows :
      (fuel : ℕ) (hj : HashJoin E) (keyed : List (Text × ℕ)) (lefts : List R)
      (out : List (R × List ℕ))
      → HasRows hj keyed
      → length keyed < 2 ^ 32
      → length keyed ≤ fuel
      → joined_rows hj.comp_type hj.left_expr keyed lefts ≡ some out
      → left_rows (suc fuel) hj lefts ≡ some out
  left_rows-joined_rows fuel hj keyed [] out h few enough eq = eq
  left_rows-joined_rows fuel hj keyed (rg ∷ lefts) out h few enough eq =
      let its_key =
        join_key zero_float get_int get_float get_string int_bytes float_bytes hj.comp_type
          hj.left_expr rg (held_none zero_float) in
      let later = joined_rows hj.comp_type hj.left_expr keyed lefts in
      let offsets : Text → List ℕ = λ key. matches (join_props hj.comp_type) keyed key in
      let ((key, held), is, more) =
        bind-some its_key (λ p. later >>= λ rest. some ((rg, offsets p.0) ∷ rest)) out eq in
      let (rest, is_rest, all) =
        bind-some later (λ rest. some ((rg, offsets key) ∷ rest)) out more in
      let (n, takes) =
        row-matches zero_float get_int get_float get_string int_bytes float_bytes fuel hj keyed rg
          key held h few enough is in
      let others =
        left_rows-joined_rows fuel (done_at hj n) keyed lefts rest
          (record { indexed = h.indexed; at_start = refl }) few enough is_rest in
      rw (takes, others) all

  -- For a join that no row has been looked up in: after its table is made, for a guess of up to 2 ^ 61
  -- rows, and its right side has hashed fewer than 2 ^ 32 rows that all have keys, the rounds for rows of
  -- the left side that all have keys end, for each of them, with the offsets of exactly those rows of the
  -- right side whose keys are alike, in their order.
  pub hash_join-matches :
      (offset_of : R → ℕ) (hj : HashJoin E) (guess : ℕ) (rows : List R) (keyed : List (Text × ℕ))
      (lefts : List R) (out : List (R × List ℕ))
      → hj.recs ≡ none
      → guess ≤ 2 ^ 61
      → length rows < 2 ^ 32
      → keyed_rows hj offset_of (held_none zero_float) rows ≡ some keyed
      → joined_rows hj.comp_type hj.left_expr keyed lefts ≡ some out
      → (table_hash_join_init hj guess >>= λ start.
          hash_join_right_side zero_float get_int get_float get_string int_bytes float_bytes
            offset_of start rows
          >>= λ hashed. left_rows (suc (length rows)) hashed lefts)
        ≡ some out
  unfolding table_hash_join_init hash_join_right_side
  hash_join-matches offset_of hj guess rows keyed lefts out none_yet le few keys joins =
      let props = join_props hj.comp_type in
      let (m, made, v, same_props, empty, small, nothing) =
        construct-IsValid (List ℕ) (guess * 2) props (omega arith) in
      let start : HashJoin E = record hj { hash_data = m } in
      let h : HasRows start [] = record {
        indexed = record {
          valid = v;
          same_props = same_props;
          size = omega arith;
          small = small;
          reads = nothing;
        };
        at_start = none_yet;
      } in
      let (hj', runs, h', same_type, same_left) =
        right_loop-HasRows offset_of rows start (held_none zero_float) [] keyed h (omega arith)
          keys in
      let as_many = length-keyed_rows hj offset_of (held_none zero_float) rows keyed keys in
      let joins' =
        ap (λ t. joined_rows t hj'.left_expr keyed lefts) same_type
        ∙ ap (λ e. joined_rows hj.comp_type e keyed lefts) same_left
        ∙ joins in
      rw (made, runs)
        (left_rows-joined_rows (length rows) hj' keyed lefts out h' (omega arith) (omega arith)
          joins')
