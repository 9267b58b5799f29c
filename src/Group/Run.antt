-- ===== src/Group/Run.antt =====
-- A group of lib/group.c from its construction over all rows to the records that it is dumped to, as
-- the loops of lib/fqlprocesses.c call it.
use fql.Prelude.{
  ℕ, zero, suc, ◌+◌, ◌^◌, ◌<◌, ◌≤◌, Option, none, some, List, [], ◌∷◌, ◌++◌, ◌≡◌, refl, ◌∙◌, sym,
  ap, inl, inr, if◌then◌else◌, length, get_elem?, drop, arith, Bool-cases, Option-cases, append-nil,
  append_assoc,
}
use mathlib.Core.Path.{subst, ap₂}
use fql.Prelude.Int.{ℤ}
use fql.Status.{Got, ◌>>=◌, bind-some}
use fql.Text.{Text}
use fql.Field.{FieldType}
use fql.Aggregate.{AggResult}
use fql.Group.{GroupExpr, Agg, Group, is_key, group_add_expression, group_record, group_dump_record}
use fql.Group.Buckets.{Bucket, alike, file_row, index_of}
use fql.Group.Values.{key_count, row_key}
use fql.Group.Results.{all_results, update_results-file_old, add_results-file_new}
use fql.Group.Record.{Holds, group_record-Holds}
use fql.Group.Dump.{bucket_line, get_elem?-in_range, IsGrouped, dump-line, dump-end}

abbrev pub add_all : {E G U : Type 0} → Group E G U → List (GroupExpr E) → Group E G U
add_all self [] = self
add_all self (e ∷ exprs) = add_all (group_add_expression self e) exprs

abbrev pub fresh : {G U : Type 0} → List G → List (Agg G U)
fresh [] = []
fresh (fn ∷ fns) = record { fn = fn; results = [] } ∷ fresh fns

length-file_row :
    {R : Type 0} (key : List Text) (row : R) (bs : List (Bucket R))
    → length (file_row key row bs) ≤ suc (length bs)
length-file_row key row [] = omega arith
length-file_row key row (b ∷ bs) = elim (Bool-cases (alike b.key key)) [
  | inl here ↦ rw here (omega arith)
  | inr other ↦ rw other (omega (arith, length-file_row key row bs))
]

key_count-append :
    {E : Type 0} (exprs : List (GroupExpr E)) (e : GroupExpr E)
    → key_count (exprs ++ (e ∷ []))
      ≡ (if is_key e.kind then key_count exprs + 1 else key_count exprs)
key_count-append [] e = elim (Bool-cases (is_key e.kind)) [
  | inl is ↦ rw is refl
  | inr other ↦ rw other refl
]
key_count-append (x ∷ exprs) e = elim (Bool-cases (is_key e.kind)) [
  | inl is ↦
      let rest : key_count (exprs ++ (e ∷ [])) ≡ key_count exprs + 1 =
        key_count-append exprs e ∙ rw is refl in
      elim (Bool-cases (is_key x.kind)) [
        | inl key ↦ rw (is, key) (omega (arith, rest))
        | inr no_key ↦ rw (is, no_key) (omega (arith, rest))
      ]
  | inr other ↦
      let rest : key_count (exprs ++ (e ∷ [])) ≡ key_count exprs =
        key_count-append exprs e ∙ rw other refl in
      elim (Bool-cases (is_key x.kind)) [
        | inl key ↦ rw (other, key) (omega (arith, rest))
        | inr no_key ↦ rw (other, no_key) (omega (arith, rest))
      ]
]

-- What adding expressions leaves: they stand behind those before, and the keys among them are counted.
abbrev pub with_expressions : {E G U : Type 0} → Group E G U → List (GroupExpr E) → ℕ → Group E G U
with_expressions self exprs n = record self { expressions = exprs; composite_size = n }

pub add_all-expressions :
    {E G U : Type 0} (self : Group E G U) (exprs : List (GroupExpr E))
    → self.composite_size ≡ key_count self.expressions
    → add_all self exprs
      ≡ with_expressions self (self.expressions ++ exprs) (key_count (self.expressions ++ exprs))
unfolding group_add_expression
add_all-expressions self [] h =
    let same = sym (append-nil self.expressions) in
    ap₂ (with_expressions self) same (h ∙ ap key_count same)
add_all-expressions self (e ∷ exprs) h =
    let one_more : (if is_key e.kind then self.composite_size + 1 else self.composite_size)
        ≡ key_count (self.expressions ++ (e ∷ [])) =
      ap (λ n. if is_key e.kind then n + 1 else n) h ∙ sym (key_count-append self.expressions e) in
    add_all-expressions (group_add_expression self e) exprs one_more
    ∙ ap (λ l. with_expressions self l (key_count l)) (append_assoc self.expressions (e ∷ []) exprs)

drop-cons :
    {A : Type 0} (xs : List A) (i : ℕ) (x : A) (rest : List A)
    → drop i xs ≡ x ∷ rest
    → (get_elem? xs i ≡ some x) × (drop (suc i) xs ≡ rest)
drop-cons [] zero x rest h = cc
drop-cons [] (suc i) x rest h = cc
drop-cons (y ∷ xs) zero x rest h =
    let first : y ≡ x = cc in let others : xs ≡ rest = cc in (ap some first, others)
drop-cons (y ∷ xs) (suc i) x rest h = drop-cons xs i x rest h

drop-nil : {A : Type 0} (xs : List A) (i : ℕ) → drop i xs ≡ [] → length xs ≤ i
drop-nil [] i h = omega arith
drop-nil (x ∷ xs) zero h = cc
drop-nil (x ∷ xs) (suc i) h = omega (arith, drop-nil xs i h)

-- The loop that dumps a group to one record after another, until it has no more.
module _ {G U : Type 0} (data_type : G → FieldType) (show_int show_float as_string : U → Text) where
  abbrev pub dump_all : {E : Type 0} → Group E G U → List (List Text) → Option (List (List Text))
  dump_all self [] = some []
  dump_all self (rec ∷ recs) =
      group_dump_record data_type show_int show_float as_string self rec >>= λ dumped. elim dumped [
        | none ↦ some []
        | some (line, self') ↦ dump_all self' recs >>= λ lines. some (line ∷ lines)
      ]

module _ {G U R : Type 0} (data_type : G → FieldType) (show_int show_float as_string : U → Text)
    (call : G → AggResult U → R → Option (AggResult U)) (zero_data : G → U) where
  abbrev pub bucket_lines :
      {E : Type 0}
      → List (GroupExpr E)
      → List (List Text)
      → List G
      → List (Bucket R)
      → Option (List (List Text))
  bucket_lines exprs recs fns [] = some []
  bucket_lines exprs [] fns (b ∷ bs) = some []
  bucket_lines exprs (rec ∷ recs) fns (b ∷ bs) =
      bucket_line data_type show_int show_float as_string call zero_data exprs rec fns b b.key
      >>= λ line. bucket_lines exprs recs fns bs >>= λ lines. some (line ∷ lines)

  pub dump_all-bucket_lines :
      {E : Type 0} (fns : List G) (bs : List (Bucket R)) (self : Group E G U)
      (recs : List (List Text)) (left : List (Bucket R)) (lines : List (List Text))
      → IsGrouped data_type show_int show_float as_string call zero_data fns bs self
      → self.dump_idx ≤ length bs
      → drop self.dump_idx bs ≡ left
      → bucket_lines self.expressions recs fns left ≡ some lines
      → dump_all data_type show_int show_float as_string self recs ≡ some lines
  dump_all-bucket_lines fns bs self [] [] lines g le at h = h
  dump_all-bucket_lines fns bs self [] (b ∷ left) lines g le at h = h
  dump_all-bucket_lines fns bs self (rec ∷ recs) [] lines g le at h =
      let last : self.dump_idx ≡ length bs = omega (arith, drop-nil bs self.dump_idx at) in
      let ends =
        dump-end data_type show_int show_float as_string call zero_data fns bs self rec g last in
      rw ends h
  dump_all-bucket_lines fns bs self (rec ∷ recs) (b ∷ left) lines g le at h =
      let its_line =
        bucket_line data_type show_int show_float as_string call zero_data self.expressions rec fns
          b b.key in
      let later = bucket_lines self.expressions recs fns left in
      let (line, is, h') =
        bind-some its_line (λ line. later >>= λ lines. some (line ∷ lines)) lines h in
      let (others, more, eq) = bind-some later (λ lines. some (line ∷ lines)) lines h' in
      let (here, past) = drop-cons bs self.dump_idx b left at in
      let dumps =
        dump-line data_type show_int show_float as_string call zero_data fns bs self rec b line g
          here is in
      let one_more : self.dump_idx + 1 ≡ suc self.dump_idx = omega arith in
      let next : Group _ G U = record self { dump_idx = self.dump_idx + 1 } in
      let g' : IsGrouped data_type show_int show_float as_string call zero_data fns bs next =
        record { results = g.results; keys = g.keys; long = g.long; counted = g.counted } in
      let rest =
        dump_all-bucket_lines fns bs next recs left others g'
          (omega (arith, get_elem?-in_range bs self.dump_idx b here))
          (ap (λ i. drop i bs) one_more ∙ past) more in
      rw (dumps, rest) eq

module _ {E F R : Type 0} (zero_float : F) (get_int : E → R → Got ℤ) (get_float : E → R → Got F)
    (get_string : E → R → Option Text → Option (Option Text)) (show_int : ℤ → Text)
    (show_float : F → Text) where
  -- The buckets that rows are sorted into.
  abbrev pub row_buckets : List (GroupExpr E) → List R → List (Bucket R) → Option (List (Bucket R))
  row_buckets exprs [] bs = some bs
  row_buckets exprs (rg ∷ rows) bs =
      row_key zero_float get_int get_float get_string show_int show_float exprs rg none >>= λ key.
      row_buckets exprs rows (file_row key rg bs)

-- All rows of a group, one after another.
module _ {E F G U R : Type 0} (zero_float : F) (get_int : E → R → Got ℤ) (get_float : E → R → Got F)
    (get_string : E → R → Option Text → Option (Option Text)) (show_int : ℤ → Text)
    (show_float : F → Text) (call : G → AggResult U → R → Option (AggResult U))
    (zero_data : G → U) where
  abbrev pub record_all : Group E G U → List R → Option (Group E G U)
  record_all self [] = some self
  record_all self (rg ∷ rows) =
      group_record zero_float get_int get_float get_string show_int show_float call zero_data self
        rg
      >>= λ (first, self'). record_all self' rows

  all_results-file_row :
      (fns : List G) (key : List Text) (rg : R) (bs : List (Bucket R)) (aggs' : List (Agg G U))
      → all_results call zero_data fns (file_row key rg bs) ≡ some aggs'
      → (aggs : List (Agg G U)) × (all_results call zero_data fns bs ≡ some aggs)
  all_results-file_row fns key rg bs aggs' h = elim (Option-cases (index_of key bs)) [
    | inl new ↦
        let (aggs, is, adds) = add_results-file_new call zero_data fns key rg bs aggs' new h in
        (aggs, is)
    | inr (i, at) ↦
        let (aggs, is, updates) =
          update_results-file_old call zero_data fns key rg bs i aggs' at h in
        (aggs, is)
  ]

  all_results-row_buckets :
      (fns : List G) (exprs : List (GroupExpr E)) (rows : List R) (bs out : List (Bucket R))
      (aggs' : List (Agg G U))
      → row_buckets zero_float get_int get_float get_string show_int show_float exprs rows bs
        ≡ some out
      → all_results call zero_data fns out ≡ some aggs'
      → (aggs : List (Agg G U)) × (all_results call zero_data fns bs ≡ some aggs)
  all_results-row_buckets fns exprs [] bs out aggs' files h =
      let same : some bs ≡ some out = files in
      let eq : bs ≡ out = cc in (aggs', ap (all_results call zero_data fns) eq ∙ h)
  all_results-row_buckets fns exprs (rg ∷ rows) bs out aggs' files h =
      let key_of =
        row_key zero_float get_int get_float get_string show_int show_float exprs rg none in
      let (key, its_key, rest) =
        bind-some key_of
          (λ k.
            row_buckets zero_float get_int get_float get_string show_int show_float exprs rows
              (file_row k rg bs))
          out files in
      let (aggs, is) =
        all_results-row_buckets fns exprs rows (file_row key rg bs) out aggs' rest h in
      all_results-file_row fns key rg bs aggs is

  -- Recording rows that have keys ends with the buckets of all of them, where the aggregates have
  -- results for those.
  pub record_all-Holds :
      (fns : List G) (rows : List R) (bs out : List (Bucket R)) (aggs' : List (Agg G U))
      (self : Group E G U)
      → length bs + length rows < 2 ^ 32
      → Holds zero_float get_int get_float get_string show_int show_float call zero_data fns bs self
      → row_buckets zero_float get_int get_float get_string show_int show_float self.expressions
          rows bs
        ≡ some out
      → all_results call zero_data fns out ≡ some aggs'
      → (self' : Group E G U) × (record_all self rows ≡ some self')
        × Holds zero_float get_int get_float get_string show_int show_float call zero_data fns out
            self'
        × (self'.expressions ≡ self.expressions)
        × (self'.dump_idx ≡ self.dump_idx)
  record_all-Holds fns [] bs out aggs' self few h files ends =
      let all : some bs ≡ some out = files in
      let same : bs ≡ out = cc in
      (
        self,
        refl,
        subst
            (λ l.
              Holds zero_float get_int get_float get_string show_int show_float call zero_data fns l
                self)
            same h,
        refl,
        refl,
      )
  record_all-Holds fns (rg ∷ rows) bs out aggs' self few h files ends =
      let exprs = self.expressions in
      let key_of =
        row_key zero_float get_int get_float get_string show_int show_float exprs rg none in
      let (key, its_key, rest) =
        bind-some key_of
          (λ k.
            row_buckets zero_float get_int get_float get_string show_int show_float exprs rows
              (file_row k rg bs))
          out files in
      let filed = file_row key rg bs in
      let (aggs, has) = all_results-row_buckets fns exprs rows filed out aggs' rest ends in
      let (next, records, h', same, idx) =
        group_record-Holds zero_float get_int get_float get_string show_int show_float call
          zero_data fns bs self rg key h its_key aggs (omega arith) has in
      let rest' : row_buckets zero_float get_int get_float get_string show_int show_float
            next.expressions rows filed
          ≡ some out =
        ap
          (λ l.
            row_buckets zero_float get_int get_float get_string show_int show_float l rows filed)
          same
        ∙ rest in
      let (last, runs, h'', same', idx') =
        record_all-Holds fns rows filed out aggs' next (omega (arith, length-file_row key rg bs)) h'
          rest' ends in
      (last, rw (records, runs) refl, h'', same' ∙ same, idx' ∙ idx)
