-- ===== src/Group/Lines.antt =====
-- GROUP BY of lib/group.c as a whole: the rows that are recorded against the lines that are dumped.
use fql.Prelude.{
  ℕ, ◌^◌, ◌<◌, Option, none, some, List, [], ◌∷◌, ◌≡◌, refl, ◌∙◌, sym, ap, length, replicate, arith,
  length-replicate,
}
use fql.Prelude.Int.{ℤ}
use fql.Status.{Got, ◌>>=◌}
use fql.Text.{Text}
use fql.Field.{FieldType}
use fql.Aggregate.{AggResult}
use fql.Flex.{flex_construct}
use fql.Hash.Composite.Write.{construct_empty, compositemap_clear_empty}
use fql.Hash.Composite.{compositemap_clear}
use fql.Hash.{Entry, hashmap_clear}
use fql.Group.{GroupExpr, Agg, Group, group_props, group_construct, reset_all, group_reset}
use fql.Group.Buckets.{Bucket}
use fql.Group.Values.{key_count, AllKnown}
use fql.Group.Results.{all_results, all_results-cons}
use fql.Group.Record.{Holds}
use fql.Group.Dump.{IsGrouped}
use fql.Group.Run.{
  add_all, with_expressions, add_all-expressions, fresh, record_all, record_all-Holds, row_buckets,
  dump_all, bucket_lines, dump_all-bucket_lines,
}

-- A group with the expressions and aggregates of a query.
abbrev pub query_group : {E G U : Type 0} → List (GroupExpr E) → List G → Option (Group E G U)
query_group exprs fns =
    group_construct >>= λ start. some (record (add_all start exprs) { aggregates = fresh fns })

module _ {E F G U R : Type 0} (zero_float : F) (get_int : E → R → Got ℤ) (get_float : E → R → Got F)
    (get_string : E → R → Option Text → Option (Option Text)) (show_int : ℤ → Text)
    (show_float : F → Text) (call : G → AggResult U → R → Option (AggResult U))
    (zero_data : G → U) where
  fresh-all_results : (fns : List G) → all_results call zero_data fns [] ≡ some (fresh fns)
  fresh-all_results [] = refl
  fresh-all_results (fn ∷ fns) = rw (fresh-all_results fns) refl

  query_group-Holds :
      (exprs : List (GroupExpr E)) (fns : List G)
      → AllKnown exprs
      → (self : Group E G U) × (query_group exprs fns ≡ some self)
        × Holds zero_float get_int get_float get_string show_int show_float call zero_data fns []
            self
        × (self.expressions ≡ exprs)
        × (self.dump_idx ≡ 0)
  unfolding group_construct
  query_group-Holds exprs fns known =
      let (m, made, v, props, empty, small, none_yet) =
        construct_empty ℕ 128 group_props (omega arith) in
      let start : Group E G U = record {
        val_map = m;
        expressions = [];
        aggregates = [];
        group_data = flex_construct;
        composite_size = 0;
        dump_idx = 0;
      } in
      let added = add_all-expressions start exprs refl in
      let self : Group E G U = record (with_expressions start exprs (key_count exprs)) {
        aggregates = fresh fns;
      } in
      (
        self,
        rw (made, added) refl,
        record {
          valid = v;
          props = props;
          places = none_yet;
          counted = ap length empty;
          small = small;
          known = known;
          width = refl;
          long = tt;
          flex = tt;
          keys = refl;
          results = fresh-all_results fns;
        },
        refl,
        refl,
      )

  fns_of-fresh :
      (fns : List G) (bs : List (Bucket R)) (aggs : List (Agg G U))
      → all_results call zero_data fns bs ≡ some aggs
      → reset_all aggs ≡ fresh fns
  fns_of-fresh [] bs aggs' h =
      let eq : some [] ≡ some aggs' = h in let none_left : aggs' ≡ [] = cc in rw none_left refl
  fns_of-fresh (fn ∷ fns) bs aggs' h =
      let (rs, aggs, ends, runs, all) = all_results-cons call zero_data fn fns bs aggs' h in
      let none_yet : Agg G U = record { fn = fn; results = [] } in
      rw all (ap (λ l. none_yet ∷ l) (fns_of-fresh fns bs aggs runs))

  -- Resetting a group that holds any buckets leaves it with none of them, for the same expressions and
  -- aggregates, with the first line to be dumped next.
  group_reset-Holds :
      (fns : List G) (bs : List (Bucket R)) (self : Group E G U)
      → Holds zero_float get_int get_float get_string show_int show_float call zero_data fns bs self
      → Holds zero_float get_int get_float get_string show_int show_float call zero_data fns []
          (group_reset self)
        × ((group_reset self).expressions ≡ self.expressions)
        × ((group_reset self).dump_idx ≡ 0)
  unfolding group_reset compositemap_clear hashmap_clear
  group_reset-Holds fns bs self h =
      let (v, none_left) = compositemap_clear_empty self.val_map h.valid in
      let n = length self.val_map.table.entries in
      let wide : length {A = Option Entry} (replicate n none) ≡ n = length-replicate n none in
      (
        record {
          valid = v;
          props = h.props;
          places = none_left;
          counted = refl;
          small = omega (arith, h.small);
          known = h.known;
          width = h.width;
          long = tt;
          flex = tt;
          keys = refl;
          results =
              fresh-all_results fns ∙ ap some (sym (fns_of-fresh fns bs self.aggregates h.results));
        },
        refl,
        refl,
      )

  -- A group with no buckets yet, over rows and records.
  Holds-lines :
      (data_type : G → FieldType) (int_text float_text as_string : U → Text) (fns : List G)
      (rows : List R) (bs : List (Bucket R)) (aggs : List (Agg G U)) (recs lines : List (List Text))
      (start : Group E G U)
      → Holds zero_float get_int get_float get_string show_int show_float call zero_data fns []
          start
      → start.dump_idx ≡ 0
      → length rows < 2 ^ 32
      → row_buckets zero_float get_int get_float get_string show_int show_float start.expressions
          rows []
        ≡ some bs
      → all_results call zero_data fns bs ≡ some aggs
      → bucket_lines data_type int_text float_text as_string call zero_data start.expressions recs
          fns bs
        ≡ some lines
      → (record_all zero_float get_int get_float get_string show_int show_float call zero_data start
            rows
          >>= λ self. dump_all data_type int_text float_text as_string self recs)
        ≡ some lines
  Holds-lines data_type int_text float_text as_string fns rows bs aggs recs lines start h zeroth few
        files ends prints =
      let (self, records, h', same, zeroth') =
        record_all-Holds zero_float get_int get_float get_string show_int show_float call zero_data
          fns rows [] bs aggs start (omega arith) h files ends in
      let at_start : self.dump_idx ≡ 0 = zeroth' ∙ zeroth in
      let grouped : IsGrouped data_type int_text float_text as_string call zero_data fns bs self =
        record { results = h'.results; keys = h'.keys; long = h'.long; counted = h'.counted } in
      let prints' =
        ap (λ l. bucket_lines data_type int_text float_text as_string call zero_data l recs fns bs)
          same
        ∙ prints in
      rw records (
        dump_all-bucket_lines data_type int_text float_text as_string call zero_data fns bs self
          recs bs lines grouped (omega arith) (rw at_start refl) prints')

  -- For expressions whose keys have known types and fewer than 2 ^ 32 rows that all have keys (no getter
  -- fails, and none leaves the view as it was before a view has been stored for the row): let the rows be
  -- sorted by their keys, alike up to the case of letters and blanks at the ends of parts, in the
  -- order of the first row of each; let each aggregate have a result for the rows of each bucket, and
  -- each bucket a line for the record it goes to. Then recording the rows in the group of a query and
  -- dumping it to the records ends with those lines, until there are no more buckets or no more records.
  pub group-lines :
      (data_type : G → FieldType) (int_text float_text as_string : U → Text)
      (exprs : List (GroupExpr E)) (fns : List G) (rows : List R) (bs : List (Bucket R))
      (aggs : List (Agg G U)) (recs lines : List (List Text))
      → AllKnown exprs
      → length rows < 2 ^ 32
      → row_buckets zero_float get_int get_float get_string show_int show_float exprs rows []
        ≡ some bs
      → all_results call zero_data fns bs ≡ some aggs
      → bucket_lines data_type int_text float_text as_string call zero_data exprs recs fns bs
        ≡ some lines
      → (query_group exprs fns >>= λ start.
          record_all zero_float get_int get_float get_string show_int show_float call zero_data
            start rows
          >>= λ self. dump_all data_type int_text float_text as_string self recs)
        ≡ some lines
  group-lines data_type int_text float_text as_string exprs fns rows bs aggs recs lines known few
        files ends prints =
      let (start, made, h, same, zeroth) = query_group-Holds exprs fns known in
      let files' =
        ap (λ l. row_buckets zero_float get_int get_float get_string show_int show_float l rows [])
          same
        ∙ files in
      let prints' =
        ap (λ l. bucket_lines data_type int_text float_text as_string call zero_data l recs fns bs)
          same
        ∙ prints in
      rw made (
        Holds-lines data_type int_text float_text as_string fns rows bs aggs recs lines start h
          zeroth few files' ends prints')

  -- The same holds of a group that is reset after other rows have been recorded in it, fewer than
  -- 2 ^ 32 that have keys and results too: nothing of them is in the lines.
  pub reset-lines :
      (data_type : G → FieldType) (int_text float_text as_string : U → Text)
      (exprs : List (GroupExpr E)) (fns : List G) (before : List R) (old : List (Bucket R))
      (old_aggs : List (Agg G U)) (rows : List R) (bs : List (Bucket R)) (aggs : List (Agg G U))
      (recs lines : List (List Text))
      → AllKnown exprs
      → length before < 2 ^ 32
      → row_buckets zero_float get_int get_float get_string show_int show_float exprs before []
        ≡ some old
      → all_results call zero_data fns old ≡ some old_aggs
      → length rows < 2 ^ 32
      → row_buckets zero_float get_int get_float get_string show_int show_float exprs rows []
        ≡ some bs
      → all_results call zero_data fns bs ≡ some aggs
      → bucket_lines data_type int_text float_text as_string call zero_data exprs recs fns bs
        ≡ some lines
      → (query_group exprs fns >>= λ start.
          record_all zero_float get_int get_float get_string show_int show_float call zero_data
            start before
          >>= λ used.
              record_all zero_float get_int get_float get_string show_int show_float call zero_data
                (group_reset used)
                rows
              >>= λ self. dump_all data_type int_text float_text as_string self recs)
        ≡ some lines
  reset-lines data_type int_text float_text as_string exprs fns before old old_aggs rows bs aggs
        recs lines known few_before files_before ends_before few files ends prints =
      let (start, made, h, same, zeroth) = query_group-Holds exprs fns known in
      let sort : List (GroupExpr E) → List R → Option (List (Bucket R)) =
        λ l rs. row_buckets zero_float get_int get_float get_string show_int show_float l rs [] in
      let (used, records, h', same', zeroth') =
        record_all-Holds zero_float get_int get_float get_string show_int show_float call zero_data
          fns before [] old old_aggs start (omega arith) h
          (ap (λ l. sort l before) same ∙ files_before) ends_before in
      let (h'', same'', zeroth'') = group_reset-Holds fns old used h' in
      let as_query : (group_reset used).expressions ≡ exprs = same'' ∙ same' ∙ same in
      let prints' =
        ap (λ l. bucket_lines data_type int_text float_text as_string call zero_data l recs fns bs)
          as_query
        ∙ prints in
      rw (made, records)
        (Holds-lines data_type int_text float_text as_string fns rows bs aggs recs lines
          (group_reset used) h'' zeroth'' few (ap (λ l. sort l rows) as_query ∙ files) ends prints')
