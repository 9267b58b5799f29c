-- ===== src/Group/Results.antt =====
-- The results of the aggregates of lib/group.c, bucket by bucket.
use fql.Prelude.{
  ℕ, Option, none, some, List, [], ◌∷◌, ◌++◌, ◌≡◌, refl, ◌∙◌, sym, inl, inr, get_elem?, set,
  Bool-cases, Option-cases,
}
use fql.Status.{◌>>=◌, bind-some}
use fql.Text.{Text}
use fql.Aggregate.{AggResult, add_agg_result, update_agg_result, update_all, group_result}
use fql.Group.{Agg, add_results, update_results}
use fql.Group.Buckets.{
  Bucket, alike, file_row, next_index, index_of, next_index-some, next_index-none,
}

module _ {G U R : Type 0} (call : G → AggResult U → R → Option (AggResult U))
    (zero_data : G → U) where
  abbrev pub bucket_result : G → Bucket R → Option (AggResult U)
  bucket_result fn b = group_result (call fn) (zero_data fn) b.first b.rest

  -- The results of one aggregate, and of all.
  abbrev pub bucket_results : G → List (Bucket R) → Option (List (AggResult U))
  bucket_results fn [] = some []
  bucket_results fn (b ∷ bs) =
      bucket_result fn b >>= λ r. bucket_results fn bs >>= λ rs. some (r ∷ rs)

  abbrev pub all_results : List G → List (Bucket R) → Option (List (Agg G U))
  all_results [] bs = some []
  all_results (fn ∷ fns) bs = bucket_results fn bs >>= λ rs.
      all_results fns bs >>= λ aggs. some (record { fn = fn; results = rs } ∷ aggs)

  pub results-cons :
      (fn : G) (b : Bucket R) (bs : List (Bucket R)) (rs' : List (AggResult U))
      → bucket_results fn (b ∷ bs) ≡ some rs'
      → (r : AggResult U) × (rs : List (AggResult U)) × (bucket_result fn b ≡ some r)
        × (bucket_results fn bs ≡ some rs)
        × (rs' ≡ r ∷ rs)
  results-cons fn b bs rs' h = elim (Option-cases (bucket_result fn b)) [
    | inl fails ↦ let clash : none ≡ some rs' = rw fails at h in cc
    | inr (r, ends) ↦ elim (Option-cases (bucket_results fn bs)) [
      | inl fails ↦ let clash : none ≡ some rs' = rw (ends, fails) at h in cc
      | inr (rs, runs) ↦
          let all : some (r ∷ rs) ≡ some rs' = rw (ends, runs) at h in (r, rs, ends, runs, cc)
    ]
  ]

  -- One more row in a bucket.
  update_all-append :
      (fn : G) (r : AggResult U) (rows : List R) (row : R)
      → update_all (call fn) r (rows ++ (row ∷ []))
        ≡ (update_all (call fn) r rows >>= λ s. update_agg_result (call fn) s row)
  unfolding update_all
  update_all-append fn r [] row = elim (Option-cases (update_agg_result (call fn) r row)) [
    | inl fails ↦ rw fails refl
    | inr (s, runs) ↦ rw runs refl
  ]
  update_all-append fn r (x ∷ rows) row = elim (Option-cases (update_agg_result (call fn) r x)) [
    | inl fails ↦ rw fails refl
    | inr (s, runs) ↦ rw runs (update_all-append fn s rows row)
  ]

  bucket_result-append :
      (fn : G) (b : Bucket R) (row : R)
      → bucket_result fn (record b { rest = b.rest ++ (row ∷ []) })
        ≡ (bucket_result fn b >>= λ s. update_agg_result (call fn) s row)
  unfolding group_result update_all
  bucket_result-append fn b row =
      elim (Option-cases (add_agg_result (call fn) (zero_data fn) b.first)) [
        | inl fails ↦ rw fails refl
        | inr (s, runs) ↦ rw runs (update_all-append fn s b.rest row)
      ]

  -- The results before a row, from those after it.
  bucket_results-file_old :
      (fn : G) (key : List Text) (row : R) (bs : List (Bucket R)) (i : ℕ) (rs' : List (AggResult U))
      → index_of key bs ≡ some i
      → bucket_results fn (file_row key row bs) ≡ some rs'
      → (rs : List (AggResult U)) × (old : AggResult U) × (new : AggResult U) × (bucket_results fn
            bs
          ≡ some rs)
        × (get_elem? rs i ≡ some old)
        × (update_agg_result (call fn) old row ≡ some new)
        × (rs' ≡ set rs i new)
  bucket_results-file_old fn key row [] i rs' at h = cc
  bucket_results-file_old fn key row (b ∷ bs) i rs' at h = elim (Bool-cases (alike b.key key)) [
    | inl here ↦
        let first : some 0 ≡ some i = rw here at at in
        let zeroth : i ≡ 0 = cc in
        let now : bucket_results fn (record b { rest = b.rest ++ (row ∷ []) } ∷ bs) ≡ some rs' =
          rw here at h in
        let (new, rs, ends, runs, all) =
          results-cons fn (record b { rest = b.rest ++ (row ∷ []) }) bs rs' now in
        let split = sym (bucket_result-append fn b row) ∙ ends in
        let (old, was, updates) =
          bind-some (bucket_result fn b) (λ s. update_agg_result (call fn) s row) new split in
        (old ∷ rs, old, new, rw (was, runs) refl, rw zeroth refl, updates, rw zeroth (cc))
    | inr other ↦
        let up : next_index (index_of key bs) ≡ some i = rw other at at in
        let (j, found, one_more) = next_index-some (index_of key bs) i up in
        let now : bucket_results fn (b ∷ file_row key row bs) ≡ some rs' = rw other at h in
        let (r, rest', ends, runs, all) = results-cons fn b (file_row key row bs) rs' now in
        let (rest, old, new, before, reads, updates, changed) =
          bucket_results-file_old fn key row bs j rest' found runs in
        (r ∷ rest, old, new, rw (ends, before) refl, rw one_more reads, updates, rw one_more (cc))
  ]

  bucket_result-alone :
      (fn : G) (key : List Text) (row : R)
      → bucket_result fn (record { key = key; first = row; rest = [] })
        ≡ add_agg_result (call fn) (zero_data fn) row
  unfolding group_result update_all
  bucket_result-alone fn key row =
      elim (Option-cases (add_agg_result (call fn) (zero_data fn) row)) [
        | inl fails ↦ rw fails refl
        | inr (s, runs) ↦ rw runs refl
      ]

  bucket_results-file_new :
      (fn : G) (key : List Text) (row : R) (bs : List (Bucket R)) (rs' : List (AggResult U))
      → index_of key bs ≡ none
      → bucket_results fn (file_row key row bs) ≡ some rs'
      → (rs : List (AggResult U)) × (new : AggResult U) × (bucket_results fn bs ≡ some rs)
        × (add_agg_result (call fn) (zero_data fn) row ≡ some new)
        × (rs' ≡ rs ++ (new ∷ []))
  bucket_results-file_new fn key row [] rs' at h =
      let alone : Bucket R = record { key = key; first = row; rest = [] } in
      let (r, rs, ends, runs, all) = results-cons fn alone [] rs' h in
      let none_left : some [] ≡ some rs = runs in
      ([], r, refl, sym (bucket_result-alone fn key row) ∙ ends, cc)
  bucket_results-file_new fn key row (b ∷ bs) rs' at h = elim (Bool-cases (alike b.key key)) [
    | inl here ↦ let clash : ◌≡◌ {A = Option ℕ} (some 0) none = rw here at at in cc
    | inr other ↦
        let up : next_index (index_of key bs) ≡ none = rw other at at in
        let now : bucket_results fn (b ∷ file_row key row bs) ≡ some rs' = rw other at h in
        let (r, rest', ends, runs, all) = results-cons fn b (file_row key row bs) rs' now in
        let (rest, new, before, adds, changed) =
          bucket_results-file_new fn key row bs rest' (next_index-none (index_of key bs) up) runs in
        (r ∷ rest, new, rw (ends, before) refl, adds, cc)
  ]

  pub all_results-cons :
      (fn : G) (fns : List G) (bs : List (Bucket R)) (aggs' : List (Agg G U))
      → all_results (fn ∷ fns) bs ≡ some aggs'
      → (rs : List (AggResult U)) × (aggs : List (Agg G U)) × (bucket_results fn bs ≡ some rs)
        × (all_results fns bs ≡ some aggs)
        × (aggs' ≡ record { fn = fn; results = rs } ∷ aggs)
  all_results-cons fn fns bs aggs' h = elim (Option-cases (bucket_results fn bs)) [
    | inl fails ↦ let clash : none ≡ some aggs' = rw fails at h in cc
    | inr (rs, ends) ↦ elim (Option-cases (all_results fns bs)) [
      | inl fails ↦ let clash : none ≡ some aggs' = rw (ends, fails) at h in cc
      | inr (aggs, runs) ↦
          let here : Agg G U = record { fn = fn; results = rs } in
          let all : some (here ∷ aggs) ≡ some aggs' = rw (ends, runs) at h in
          (rs, aggs, ends, runs, cc)
    ]
  ]

  -- What `_update_agg_result` and `_add_agg_result` make of the results before a row is what they are
  -- after it.
  pub update_results-file_old :
      (fns : List G) (key : List Text) (row : R) (bs : List (Bucket R)) (i : ℕ)
      (aggs' : List (Agg G U))
      → index_of key bs ≡ some i
      → all_results fns (file_row key row bs) ≡ some aggs'
      → (aggs : List (Agg G U)) × (all_results fns bs ≡ some aggs)
        × (update_results call aggs row i ≡ some aggs')
  unfolding update_results
  update_results-file_old [] key row bs i aggs' at h =
      let eq : some [] ≡ some aggs' = h in ([], refl, eq)
  update_results-file_old (fn ∷ fns) key row bs i aggs' at h =
      let (rs', rest', ends, runs, all) = all_results-cons fn fns (file_row key row bs) aggs' h in
      let (rs, old, new, before, reads, updates, changed) =
        bucket_results-file_old fn key row bs i rs' at ends in
      let (rest, earlier, others) = update_results-file_old fns key row bs i rest' at runs in
      let here : Agg G U = record { fn = fn; results = rs } in
      (here ∷ rest, rw (before, earlier) refl, rw (reads, updates, others, all, changed) refl)

  pub add_results-file_new :
      (fns : List G) (key : List Text) (row : R) (bs : List (Bucket R)) (aggs' : List (Agg G U))
      → index_of key bs ≡ none
      → all_results fns (file_row key row bs) ≡ some aggs'
      → (aggs : List (Agg G U)) × (all_results fns bs ≡ some aggs)
        × (add_results call zero_data aggs row ≡ some aggs')
  unfolding add_results
  add_results-file_new [] key row bs aggs' at h =
      let eq : some [] ≡ some aggs' = h in ([], refl, eq)
  add_results-file_new (fn ∷ fns) key row bs aggs' at h =
      let (rs', rest', ends, runs, all) = all_results-cons fn fns (file_row key row bs) aggs' h in
      let (rs, new, before, adds, changed) = bucket_results-file_new fn key row bs rs' at ends in
      let (rest, earlier, others) = add_results-file_new fns key row bs rest' at runs in
      let here : Agg G U = record { fn = fn; results = rs } in
      (here ∷ rest, rw (before, earlier) refl, rw (adds, others, all, changed) refl)
