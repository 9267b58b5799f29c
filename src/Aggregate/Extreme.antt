-- ===== src/Aggregate/Extreme.antt =====
-- MIN and MAX of a group.
use fql.Prelude.{
  ◌+◌, ◌%◌, ◌^◌, ◌<◌, Bool, true, false, Option, some, List, [], ◌∷◌, ◌≡◌, refl, ◌⊎◌, inl, inr,
  ◌==◌, if◌then◌else◌, length, arith, Bool-cases,
}
use fql.Prelude.Int.{ℤ, pos, ltb_ℤ, ◌≤ℤ◌}
use fql.Status.{Got, good, null}
use fql.Aggregate.{
  AggResult, read, keep, fql_min_i, fql_max_i, update_agg_result, add_agg_result, update_all,
  group_result,
}

module _ {A : Type 0} where
  -- The values of the rows, none of which fails.
  pub data Values (zero_value : A) : List (Got A) → List A → Type 0 where
    none_left : Values zero_value [] []
    a_value :
        (a : A) (rows : List (Got A)) (vs : List A)
        → Values zero_value rows vs
        → Values zero_value (good a ∷ rows) (a ∷ vs)
    a_null :
        (rows : List (Got A)) (vs : List A)
        → Values zero_value rows vs
        → Values zero_value (null ∷ rows) (zero_value ∷ vs)

  abbrev pub In : A → List A → Type 0
  In a [] = ⊥
  In a (v ∷ vs) = (a ≡ v) ⊎ In a vs

  abbrev pub All : (A → Type 0) → List A → Type 0
  All P [] = Unit
  All P (v ∷ vs) = P v × All P vs

  All-map : {P Q : A → Type 0} → ((v : A) → P v → Q v) → (vs : List A) → All P vs → All Q vs
  All-map f [] h = tt
  All-map f (v ∷ vs) h = (f v h.0, All-map f vs h.1)

-- An order that `before` decides.
pub record Decides {A : Type 0} (before : A → A → Bool) (le : A → A → Type 0) : Type 0 where
  pub le_refl : (a : A) → le a a
  pub le_trans : (a b c : A) → le a b → le b c → le a c
  pub le_of_before : (a b : A) → before a b ≡ true → le a b
  pub ge_of_not : (a b : A) → before a b ≡ false → le b a

module _ {A : Type 0} {before : A → A → Bool} {le : A → A → Type 0} (d : Decides before le)
    (zero_value : A) where
  -- What a run over more rows keeps.
  record Kept (start : A) (vs : List A) (result : Option (AggResult A)) : Type 0 where
    last : AggResult A
    runs : result ≡ some last
    from : (last.data_ ≡ start) ⊎ In last.data_ vs
    below : le last.data_ start
    least : All (λ v. le last.data_ v) vs

  next : AggResult A → A → AggResult A
  next r v = record r { data_ = if before v r.data_ then v else r.data_; qty = r.qty + 1 }

  Kept-cons :
      (start v : A) (vs : List A) {result : Option (AggResult A)}
      → Kept (if before v start then v else start) vs result
      → Kept start (v ∷ vs) result
  Kept-cons start v vs {result} kept = elim (Bool-cases (before v start)) [
    | inl e ↦
        let k : Kept v vs result = rw e at kept in
        record {
          last = k.last;
          runs = k.runs;
          from = elim k.from [ inl q ↦ inr (inl q) | inr q ↦ inr (inr q) ];
          below = d.le_trans _ v _ k.below (d.le_of_before v start e);
          least = (k.below, k.least);
        }
    | inr e ↦
        let k : Kept start vs result = rw e at kept in
        record {
          last = k.last;
          runs = k.runs;
          from = elim k.from [ inl q ↦ inl q | inr q ↦ inr (inr q) ];
          below = k.below;
          least = (d.le_trans _ start _ k.below (d.ge_of_not v start e), k.least);
        }
  ]

  update-next :
      (r : AggResult A) (row : Got A) (v : A)
      → read zero_value row ≡ some v
      → 0 < r.qty
      → r.qty + 1 < 2 ^ 32
      → update_agg_result (keep before zero_value) r row ≡ some (next r v)
  unfolding update_agg_result next
  update-next r row v e some_rows few =
      let later : (r.qty == 0) ≡ false = ground arith in
      let count : (r.qty + 1) % 2 ^ 32 ≡ r.qty + 1 = ground arith in
      elim (Bool-cases (before v r.data_)) [
        | inl b ↦ rw (e, later, b, count) refl
        | inr b ↦ rw (e, later, b, count) refl
      ]

  update_all-Kept :
      {rows : List (Got A)} {vs : List A}
      → Values zero_value rows vs
      → (r : AggResult A) → 0 < r.qty
      → r.qty + length vs < 2 ^ 32
      → Kept r.data_ vs (update_all (keep before zero_value) r rows)
  unfolding update_all next
  update_all-Kept none_left r some_rows few = record {
    last = r;
    runs = refl;
    from = inl refl;
    below = d.le_refl r.data_;
    least = tt;
  }
  update_all-Kept (a_value a rows vs p) r some_rows few =
      rw (update-next r (good a) a refl some_rows (omega arith))
        (Kept-cons r.data_ a vs (update_all-Kept p (next r a) (omega arith) (omega arith)))
  update_all-Kept (a_null rows vs p) r some_rows few =
      rw (update-next r null zero_value refl some_rows (omega arith)) (
        Kept-cons r.data_ zero_value vs
          (update_all-Kept p (next r zero_value) (omega arith) (omega arith)))

  -- The result of the first row.
  first-row :
      (row : Got A) (v : A)
      → read zero_value row ≡ some v
      → add_agg_result (keep before zero_value) zero_value row
        ≡ some (record { data_ = v; auxdata = zero_value; qty = 1 })
  unfolding add_agg_result
  first-row row v e = rw e refl

  pub extreme :
      (row : Got A) (rows : List (Got A)) (v : A) (vs : List A)
      → read zero_value row ≡ some v
      → Values zero_value rows vs
      → length vs + 1 < 2 ^ 32
      → (r : AggResult A) × (group_result (keep before zero_value) zero_value row rows ≡ some r)
        × In r.data_ (v ∷ vs)
        × All (λ w. le r.data_ w) (v ∷ vs)
  unfolding group_result
  extreme row rows v vs e p few =
      let start : AggResult A = record { data_ = v; auxdata = zero_value; qty = 1 } in
      let k = update_all-Kept p start (omega arith) (omega arith) in
      (
        k.last,
        rw (first-row row v e) k.runs,
        elim k.from [ inl q ↦ inl q | inr q ↦ inr q ],
        (k.below, k.least),
      )

ltb_ℤ-Decides : Decides (λ a b. ltb_ℤ a b) (λ a b. a ≤ℤ b)
ltb_ℤ-Decides = record {
  le_refl = λ a. omega arith;
  le_trans = λ a b c h k. omega arith;
  le_of_before = λ a b h. ground arith;
  ge_of_not = λ a b h. ground arith;
}

gtb_ℤ-Decides : Decides (λ a b. ltb_ℤ b a) (λ a b. b ≤ℤ a)
gtb_ℤ-Decides = record {
  le_refl = λ a. omega arith;
  le_trans = λ a b c h k. omega arith;
  le_of_before = λ a b h. ground arith;
  ge_of_not = λ a b h. ground arith;
}

-- MIN over a group of fewer than 2 ^ 32 rows, none of which fails, gives a value of the group that is
-- at most every other; a NULL counts as 0.
pub fql_min_i-least :
    (row : Got ℤ) (rows : List (Got ℤ)) (v : ℤ) (vs : List ℤ)
    → read (pos 0) row ≡ some v
    → Values (pos 0) rows vs
    → length vs + 1 < 2 ^ 32
    → (r : AggResult ℤ) × (group_result fql_min_i (pos 0) row rows ≡ some r)
      × In r.data_ (v ∷ vs)
      × All (λ w. r.data_ ≤ℤ w) (v ∷ vs)
unfolding fql_min_i
fql_min_i-least row rows v vs e p few = extreme ltb_ℤ-Decides (pos 0) row rows v vs e p few

-- MAX over such a group gives a value of the group that is at least every other; a NULL counts as 0.
pub fql_max_i-greatest :
    (row : Got ℤ) (rows : List (Got ℤ)) (v : ℤ) (vs : List ℤ)
    → read (pos 0) row ≡ some v
    → Values (pos 0) rows vs
    → length vs + 1 < 2 ^ 32
    → (r : AggResult ℤ) × (group_result fql_max_i (pos 0) row rows ≡ some r)
      × In r.data_ (v ∷ vs)
      × All (λ w. w ≤ℤ r.data_) (v ∷ vs)
unfolding fql_max_i
fql_max_i-greatest row rows v vs e p few = extreme gtb_ℤ-Decides (pos 0) row rows v vs e p few
