-- ===== src/Join/Row.antt =====
-- The rounds of the hash join of lib/fqlprocesses.c for one row of its left side.
use fql.Prelude.{
  List-cases, ℕ, zero, suc, ◌+◌, ◌%◌, ◌^◌, ◌<◌, ◌≤◌, true, Option, none, some, List, [], ◌∷◌, ◌≡◌,
  refl, ◌∙◌, ap, inl, inr, length, get_elem?, drop, leb, arith, Bool-cases,
}
use native.Mathlib.Nat.{mod-eq_of_lt}
use fql.Prelude.Int.{ℤ}
use fql.Status.{◌>>=◌}
use fql.Text.{Text}
use fql.Hash.{hashmap_nget}
use fql.Join.{
  HashJoin, Held, join_props, next_match, join_key, held_none, hash_join_left_side, left_row,
}
use fql.Join.Matches.{matches, some_matches, length-matches, Indexed}

-- The elements from an index on.
drop-get :
    (xs : List ℕ) (i : ℕ)
    → i < length xs
    → (x : ℕ) × (get_elem? xs i ≡ some x) × (drop i xs ≡ x ∷ drop (suc i) xs)
drop-get [] i lt = absurd (omega arith)
drop-get (x ∷ xs) zero lt = (x, refl, refl)
drop-get (x ∷ xs) (suc i) lt = drop-get xs i (omega arith)

drop-all : (xs : List ℕ) (i : ℕ) → length xs ≤ i → drop i xs ≡ []
drop-all [] zero h = refl
drop-all [] (suc i) h = refl
drop-all (x ∷ xs) zero h = absurd (omega arith)
drop-all (x ∷ xs) (suc i) h = drop-all xs i (omega arith)

-- The join when the matches of a row have been taken.
abbrev pub done_at : {E : Type 0} → HashJoin E → ℕ → HashJoin E
done_at hj n = record hj { recs = none; rec_idx = n }

-- A join whose right side has been hashed.
pub record HasRows {E : Type 0} (hj : HashJoin E) (rows : List (Text × ℕ)) : Type 0 where
  pub indexed : Indexed (join_props hj.comp_type) rows hj.hash_data
  pub at_start : hj.recs ≡ none

-- One row of the left side in a join with hashed rows.
module _ {E F R : Type 0} (zero_float : F) (get_int : E → R → ℤ → Option ℤ)
    (get_float : E → R → F → Option F) (get_string : E → R → Option Text) (int_bytes : ℤ → Text)
    (float_bytes : F → Text) where
  abbrev pub row : ℕ → HashJoin E → R → Option (List ℕ × HashJoin E)
  row = left_row zero_float get_int get_float get_string int_bytes float_bytes

  -- The rounds from one on that takes a match.
  abbrev rounds : ℕ → R → Option (Option ℕ × HashJoin E) → Option (List ℕ × HashJoin E)
  rounds fuel rg found = found >>= λ (found, hj'). elim found [
    | none ↦ some ([], hj')
    | some offset ↦ elim hj'.recs [
      | none ↦ some (offset ∷ [], hj')
      | some recs ↦ row fuel hj' rg >>= λ (offsets, out). some (offset ∷ offsets, out)
    ]
  ]

  rounds-matches :
      (fuel : ℕ) (hj : HashJoin E) (rg : R) (recs : List ℕ)
      → hj.rec_idx < length recs
      → length recs < 2 ^ 32
      → length recs ≤ hj.rec_idx + suc fuel
      → rounds fuel rg (next_match hj recs) ≡ some (drop hj.rec_idx recs, done_at hj (length recs))
  unfolding left_row hash_join_left_side
  rounds-matches zero hj rg recs lt few enough =
      let (x, is, rest) = drop-get recs hj.rec_idx lt in
      let end : suc hj.rec_idx ≡ length recs = omega arith in
      let next_is : (hj.rec_idx + 1) % 2 ^ 32 ≡ suc hj.rec_idx =
        mod-eq_of_lt (omega arith) ∙ omega arith in
      let last : leb (length recs) (suc hj.rec_idx) ≡ true = ground arith in
      let no_more = drop-all recs (suc hj.rec_idx) (omega arith) in
      rw (is, next_is, last, rest, no_more, end) refl
  rounds-matches (suc fuel) hj rg recs lt few enough =
      let (x, is, rest) = drop-get recs hj.rec_idx lt in
      let next_is : (hj.rec_idx + 1) % 2 ^ 32 ≡ suc hj.rec_idx =
        mod-eq_of_lt (omega arith) ∙ omega arith in
      elim (Bool-cases (leb (length recs) (suc hj.rec_idx))) [
        | inl last ↦
            let end : suc hj.rec_idx ≡ length recs = ground arith in
            let no_more = drop-all recs (suc hj.rec_idx) (omega arith) in
            rw (is, next_is, last, rest, no_more, end) refl
        | inr more ↦
            let hj' : HashJoin E = record hj { recs = some recs; rec_idx = suc hj.rec_idx } in
            let later = rounds-matches fuel hj' rg recs (ground arith) few (omega arith) in
            rw (is, next_is, more, rest)
              (ap
                (λ (o : Option (List ℕ × HashJoin E)).
                  o >>= λ (offsets, out). some (x ∷ offsets, out))
                later)
      ]

  pub row-matches :
      (fuel : ℕ) (hj : HashJoin E) (rows : List (Text × ℕ)) (rg : R) (key : Text) (held : Held F)
      → HasRows hj rows
      → length rows < 2 ^ 32
      → length rows ≤ fuel
      → join_key zero_float get_int get_float get_string int_bytes float_bytes hj.comp_type
          hj.left_expr rg
          (held_none zero_float)
        ≡ some (key, held)
      → (n : ℕ) × (row (suc fuel) hj rg
          ≡ some (matches (join_props hj.comp_type) rows key, done_at hj n))
  unfolding left_row hash_join_left_side
  row-matches fuel hj rows rg key held h few enough its_key =
      let props = join_props hj.comp_type in
      elim (List-cases (matches props rows key)) [
        | inl no_match ↦
            let finds : hashmap_nget hj.hash_data key ≡ some none =
              h.indexed.reads key ∙ ap (λ l. some (some_matches l)) no_match in
            (hj.rec_idx, rw (h.at_start, its_key, finds, no_match) refl)
        | inr (x, xs, some_match) ↦
            let finds : hashmap_nget hj.hash_data key ≡ some (some (x ∷ xs)) =
              h.indexed.reads key ∙ ap (λ l. some (some_matches l)) some_match in
            let fits = length-matches props rows key in
            let wide : length (matches props rows key) ≡ length (x ∷ xs) = ap length some_match in
            let start : HashJoin E = record hj { rec_idx = 0 } in
            (
              length (x ∷ xs),
              rw (h.at_start, its_key, finds, some_match)
                  (rounds-matches fuel start rg (x ∷ xs) (omega arith) (omega arith) (omega arith)),
            )
      ]
