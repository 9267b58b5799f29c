-- ===== src/Group/Dump.antt =====
-- `group_dump_record` of lib/group.c, and a group from its rows to the records that it is dumped to.
use fql.Prelude.{
  List-cases, ℕ, zero, suc, ◌+◌, ◌*◌, ◌<◌, true, false, Option, none, some, List, [], ◌∷◌, ◌++◌,
  ◌≡◌, refl, ◌∙◌, sym, ap, ◌⊎◌, inl, inr, length, get_elem?, drop, arith, ltb,
}
use fql.Status.{◌>>=◌, bind-some}
use fql.Text.{Text}
use fql.Field.{FieldType}
use fql.Flex.{Flex}
use fql.Flex.Elements.{elements}
use fql.Aggregate.{AggResult}
use fql.Group.{
  ExprKind, expr_aggregate, expr_row_number, expr_key, GroupExpr, Agg, Group, read_aggregate,
  aggregate_field, dump_fields, group_dump_record,
}
use fql.Group.Buckets.{Bucket, keys_of}
use fql.Group.Values.{pair_at-drop}
use fql.Group.Results.{bucket_result, bucket_results, all_results, results-cons, all_results-cons}
use fql.Group.Record.{joined, AllLong}

drop-add :
    {A : Type 0} (xs ys : List A) (n m : ℕ) → length xs + n ≡ m → drop m (xs ++ ys) ≡ drop n ys
drop-add [] ys n m h = let same : m ≡ n = omega arith in rw same refl
drop-add (x ∷ xs) ys n zero h = absurd (omega arith)
drop-add (x ∷ xs) ys n (suc m) h = drop-add xs ys n m (omega arith)

-- The key of a bucket stands at its place among the values.
drop-joined :
    {R : Type 0} (c : ℕ) (bs : List (Bucket R)) (i : ℕ) (b : Bucket R)
    → AllLong c (keys_of bs)
    → get_elem? bs i ≡ some b
    → (rest : List Text) × (drop (c * i) (joined (keys_of bs)) ≡ b.key ++ rest)
drop-joined c [] i b h at = cc
drop-joined c (x ∷ bs) zero b h at =
    let first : some x ≡ some b = at in
    let same : x.key ≡ b.key = cc in
    let start : c * 0 ≡ 0 = omega arith in
    (joined (keys_of bs), rw start (ap (λ k. k ++ joined (keys_of bs)) same))
drop-joined c (x ∷ bs) (suc i) b h at =
    let (rest, eq) = drop-joined c bs i b h.1 at in
    let past : length x.key + c * i ≡ c * suc i = omega (arith, h.0) in
    (rest, drop-add x.key (joined (keys_of bs)) (c * i) (c * suc i) past ∙ eq)

ExprKind-cases :
    (kind : ExprKind)
    → ((k : ℕ) × (kind ≡ expr_aggregate k)) ⊎ ((kind ≡ expr_row_number) ⊎ (kind ≡ expr_key))
ExprKind-cases (expr_aggregate k) = inl (k, refl)
ExprKind-cases expr_row_number = inr (inl refl)
ExprKind-cases expr_key = inr (inr refl)

pub get_elem?-in_range :
    {A : Type 0} (xs : List A) (i : ℕ) (x : A) → get_elem? xs i ≡ some x → i < length xs
get_elem?-in_range [] i x h = cc
get_elem?-in_range (y ∷ xs) zero x h = omega arith
get_elem?-in_range (y ∷ xs) (suc i) x h = omega (arith, get_elem?-in_range xs i x h)

module _ {G U R : Type 0} (data_type : G → FieldType) (show_int show_float as_string : U → Text)
    (call : G → AggResult U → R → Option (AggResult U)) (zero_data : G → U) where
  -- The field of an aggregate: its result for the rows of the bucket.
  abbrev pub bucket_field : List G → ℕ → Bucket R → Text → Option Text
  bucket_field fns k b old = get_elem? fns k >>= λ fn. bucket_result call zero_data fn b >>= λ r.
      some (read_aggregate data_type show_int show_float as_string (data_type fn) r.data_ old)

  results-at :
      (fn : G) (bs : List (Bucket R)) (rs : List (AggResult U)) (i : ℕ) (b : Bucket R)
      → bucket_results call zero_data fn bs ≡ some rs
      → get_elem? bs i ≡ some b
      → get_elem? rs i ≡ bucket_result call zero_data fn b
  results-at fn [] rs i b h at = cc
  results-at fn (x ∷ bs) rs' zero b h at =
      let (r, rs, ends, runs, all) = results-cons call zero_data fn x bs rs' h in
      let first : some x ≡ some b = at in
      let same : x ≡ b = cc in rw all (sym ends ∙ ap (bucket_result call zero_data fn) same)
  results-at fn (x ∷ bs) rs' (suc i) b h at =
      let (r, rs, ends, runs, all) = results-cons call zero_data fn x bs rs' h in
      rw all (results-at fn bs rs i b runs at)

  aggregate_field-bucket :
      (fns : List G) (bs : List (Bucket R)) (aggs : List (Agg G U)) (i k : ℕ) (b : Bucket R)
      (old : Text)
      → all_results call zero_data fns bs ≡ some aggs
      → get_elem? bs i ≡ some b
      → aggregate_field data_type show_int show_float as_string aggs k i old
        ≡ bucket_field fns k b old
  aggregate_field-bucket [] bs aggs i k b old h at =
      let eq : some [] ≡ some aggs = h in let none_there : aggs ≡ [] = cc in rw none_there refl
  aggregate_field-bucket (fn ∷ fns) bs aggs' i zero b old h at =
      let (rs, aggs, ends, runs, all) = all_results-cons call zero_data fn fns bs aggs' h in
      rw (all, results-at fn bs rs i b ends at) refl
  aggregate_field-bucket (fn ∷ fns) bs aggs' i (suc k) b old h at =
      let (rs, aggs, ends, runs, all) = all_results-cons call zero_data fn fns bs aggs' h in
      rw all (aggregate_field-bucket fns bs aggs i k b old runs at)

  -- The line of a bucket: the parts of its key one after another, and the results of the aggregates for
  -- its rows; a ROW_NUMBER leaves the field of the record that is dumped to.
  abbrev pub bucket_line :
      {E : Type 0}
      → List (GroupExpr E)
      → List Text
      → List G
      → Bucket R
      → List Text
      → Option (List Text)
  bucket_line [] rec fns b key = some []
  bucket_line (e ∷ exprs) [] fns b key = none
  bucket_line (e ∷ exprs) (old ∷ rec) fns b key =
      let same = bucket_line exprs rec fns b key in
      elim e.kind [
        | expr_aggregate k ↦
            bucket_field fns k b old >>= λ field. same >>= λ fields. some (field ∷ fields)
        | expr_row_number ↦ same >>= λ fields. some (old ∷ fields)
        | expr_key ↦ elim key [
          | [] ↦ none
          | v ∷ vs ↦ bucket_line exprs rec fns b vs >>= λ fields. some (v ∷ fields)
        ]
      ]

  module _ (fns : List G) (bs : List (Bucket R)) (aggs : List (Agg G U)) (data_ : Flex) (i : ℕ)
      (b : Bucket R) (ends : all_results call zero_data fns bs ≡ some aggs)
      (at : get_elem? bs i ≡ some b) where
    field-bucket :
        (k : ℕ) (old : Text)
        → aggregate_field data_type show_int show_float as_string aggs k i old
          ≡ bucket_field fns k b old
    field-bucket k old = aggregate_field-bucket fns bs aggs i k b old ends at

    dump_fields-bucket_line :
        {E : Type 0} (exprs : List (GroupExpr E)) (rec : List Text) (idx : ℕ)
        (key rest line : List Text)
        → drop idx (elements data_) ≡ key ++ rest
        → bucket_line exprs rec fns b key ≡ some line
        → dump_fields data_type show_int show_float as_string exprs rec aggs data_ i idx ≡ some line
    unfolding dump_fields
    dump_fields-bucket_line [] rec idx key rest line left h = h
    dump_fields-bucket_line (e ∷ exprs) [] idx key rest line left h = cc
    dump_fields-bucket_line (e ∷ exprs) (old ∷ rec) idx key rest line left h =
        let same = bucket_line exprs rec fns b key in
        elim (ExprKind-cases e.kind) [
          | inl (k, is) ↦
              let now : (bucket_field fns k b old >>= λ field.
              same >>= λ fields. some (field ∷ fields))
                  ≡ some line =
                rw is at h in
              let (field, has, later) =
                bind-some (bucket_field fns k b old) (λ f. same >>= λ fields. some (f ∷ fields))
                  line now in
              let (fields, more, eq) =
                bind-some same (λ fields. some (field ∷ fields)) line later in
              let others = dump_fields-bucket_line exprs rec idx key rest fields left more in
              rw (is, field-bucket k old, has, others) eq
          | inr (inl is) ↦
              let now : (same >>= λ fields. some (old ∷ fields)) ≡ some line = rw is at h in
              let (fields, more, eq) = bind-some same (λ fields. some (old ∷ fields)) line now in
              let others = dump_fields-bucket_line exprs rec idx key rest fields left more in
              rw (is, others) eq
          | inr (inr is) ↦ elim (List-cases key) [
            | inl no_more ↦ let clash : none ≡ some line = rw (is, no_more) at h in cc
            | inr (v, vs, first) ↦
                let next = bucket_line exprs rec fns b vs in
                let now : (next >>= λ fields. some (v ∷ fields)) ≡ some line =
                  rw (is, first) at h in
                let (fields, more, eq) = bind-some next (λ fields. some (v ∷ fields)) line now in
                let (here, past) =
                  pair_at-drop data_ idx v (vs ++ rest) (left ∙ ap (λ k. k ++ rest) first) in
                let others = dump_fields-bucket_line exprs rec (suc idx) vs rest fields past more in
                rw (is, here, others) eq
          ]
        ]

  -- The group of buckets: the line of the next one is dumped, and nothing behind the last.
  module _ {E : Type 0} (fns : List G) (bs : List (Bucket R)) (self : Group E G U) where
    pub record IsGrouped : Type 0 where
      pub results : all_results call zero_data fns bs ≡ some self.aggregates
      pub keys : elements self.group_data ≡ joined (keys_of bs)
      pub long : AllLong self.composite_size (keys_of bs)
      pub counted : length self.val_map.table.values ≡ length bs

    pub dump-line :
        (rec : List Text) (b : Bucket R) (line : List Text)
        → IsGrouped
        → get_elem? bs self.dump_idx ≡ some b
        → bucket_line self.expressions rec fns b b.key ≡ some line
        → group_dump_record data_type show_int show_float as_string self rec
          ≡ some (some (line, record self { dump_idx = self.dump_idx + 1 }))
    unfolding group_dump_record
    dump-line rec b line g at h =
        let (rest, left) = drop-joined self.composite_size bs self.dump_idx b g.long at in
        let in_range : self.dump_idx < length bs = get_elem?-in_range bs self.dump_idx b at in
        let more : ltb self.dump_idx (length self.val_map.table.values) ≡ true =
          ground (arith, g.counted) in
        let fields =
          dump_fields-bucket_line fns bs self.aggregates self.group_data self.dump_idx b g.results
            at self.expressions rec (self.composite_size * self.dump_idx) b.key rest line
            (ap (drop (self.composite_size * self.dump_idx)) g.keys ∙ left) h in
        rw (more, fields) refl

    pub dump-end :
        (rec : List Text)
        → IsGrouped
        → self.dump_idx ≡ length bs
        → group_dump_record data_type show_int show_float as_string self rec ≡ some none
    unfolding group_dump_record
    dump-end rec g at =
        let no_more : ltb self.dump_idx (length self.val_map.table.values) ≡ false =
          ground (arith, g.counted) in
        rw no_more refl
