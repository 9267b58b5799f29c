-- ===== src/Group.antt =====
-- lib/group.c: the rows of GROUP BY and DISTINCT, one group for each key of the composite map, with the
-- values of its first row in a flex and the results of each aggregate. E is the expression, F the
-- double, G the aggregate with its `call__`, U the union of its data and R the row. The getters of
-- lib/expression.c and the printing of numbers are parameters. FQL_NULL from a getter of numbers leaves
-- 0; that of views is given what the view `sv` holds that it writes to, and gives what it holds then,
-- which is the same for a function that returns FQL_NULL. At the start of a row `sv` holds nothing that
-- can be read: `group_record` has set it to memory of `group_data`, which moves as values are pushed.
-- `none` is FQL_FAIL, a read of such a view or out of range, or a loop that does not end.
pub mod Buckets
pub mod Values
pub mod Results
pub mod Record
pub mod Dump
pub mod Run
pub mod Lines
mod Tests
use fql.Prelude.{
  ℕ, zero, suc, ◌+◌, ◌*◌, ◌%◌, ◌^◌, Bool, true, false, Option, none, some, List, [], ◌∷◌, ◌++◌,
  if◌then◌else◌, length, get_elem?, set, ltb,
}
use fql.Prelude.Int.{ℤ, pos}
use fql.Status.{Got, ◌>>=◌}
use fql.Text.{Text}
use fql.Field.{FieldType, field_undefined, field_int, field_float, field_string}
use fql.Flex.{Flex, flex_construct, flex_pair_at, flex_push_back, flex_resize}
use fql.Hash.{Props, at_entry}
use fql.Hash.Composite.{
  CompositeMap, compositemap_construct, compositemap_clear, compositemap_set, compositemap_get,
}
use fql.Aggregate.{AggResult, add_agg_result, update_agg_result}
use fql.Order.{got_or}

-- EXPR_AGGREGATE with the place of its aggregate, EXPR_ROW_NUMBER, and the others, which are keys.
pub data ExprKind : Type 0 where
  expr_aggregate : ℕ → ExprKind
  expr_row_number expr_key : ExprKind

pub record GroupExpr (E : Type 0) : Type 0 where
  pub expr : E
  pub kind : ExprKind
  pub field_type : FieldType

pub record Agg (G U : Type 0) : Type 0 where
  pub fn : G
  pub results : List (AggResult U)

-- `struct group`; of `_composite` only the size outlasts a call.
pub record Group (E G U : Type 0) : Type 0 where
  pub val_map : CompositeMap ℕ
  pub expressions : List (GroupExpr E)
  pub aggregates : List (Agg G U)
  pub group_data : Flex
  pub composite_size : ℕ
  pub dump_idx : ℕ

abbrev pub group_props : Props
group_props = record { nocase = true; rtrim = true }

abbrev pub is_key : ExprKind → Bool
is_key (expr_aggregate k) = false
is_key expr_row_number = false
is_key expr_key = true

-- `aggregate_reset` on each aggregate.
abbrev pub reset_all : {G U : Type 0} → List (Agg G U) → List (Agg G U)
reset_all [] = []
reset_all (agg ∷ aggs) = record agg { results = [] } ∷ reset_all aggs

module _ {E G U : Type 0} where
  unfoldable pub group_construct : Option (Group E G U)
  group_construct = compositemap_construct 128 group_props >>= λ val_map. some (record {
    val_map = val_map;
    expressions = [];
    aggregates = [];
    group_data = flex_construct;
    composite_size = 0;
    dump_idx = 0;
  })

  unfoldable pub group_add_expression : Group E G U → GroupExpr E → Group E G U
  group_add_expression self expr = record self {
    expressions = self.expressions ++ (expr ∷ []);
    composite_size = if is_key expr.kind then self.composite_size + 1 else self.composite_size;
  }

  unfoldable pub group_reset : Group E G U → Group E G U
  group_reset self = record self {
    val_map = compositemap_clear self.val_map;
    aggregates = reset_all self.aggregates;
    group_data = flex_construct;
    dump_idx = 0;
  }

-- Pushing what there is.
abbrev pub push_value : Flex → Option Text → Flex
push_value data_ none = data_
push_value data_ (some bytes) = flex_push_back data_ bytes

-- `sv[i] = flex_pair_at(&self->group_data, org_size + i)` for each view of the key.
abbrev pub composite_views : Flex → ℕ → ℕ → Option (List Text)
composite_views data_ idx zero = some []
composite_views data_ idx (suc n) = flex_pair_at data_ idx >>= λ view.
    composite_views data_ (suc idx) n >>= λ views. some (view ∷ views)

module _ {G U R : Type 0} (call : G → AggResult U → R → Option (AggResult U)) where
  -- `_add_agg_result`
  pub add_results : (G → U) → List (Agg G U) → R → Option (List (Agg G U))
  add_results zero_data [] rg = some []
  add_results zero_data (agg ∷ aggs) rg =
      add_agg_result (call agg.fn) (zero_data agg.fn) rg >>= λ result.
      add_results zero_data aggs rg >>= λ rest.
      some (record agg { results = agg.results ++ (result ∷ []) } ∷ rest)

  -- `_update_agg_result`
  pub update_results : List (Agg G U) → R → ℕ → Option (List (Agg G U))
  update_results [] rg idx = some []
  update_results (agg ∷ aggs) rg idx = get_elem? agg.results idx >>= λ old.
      update_agg_result (call agg.fn) old rg >>= λ result. update_results aggs rg idx >>= λ rest.
      some (record agg { results = set agg.results idx result } ∷ rest)

module _ {E F R : Type 0} (zero_float : F) (get_int : E → R → Got ℤ) (get_float : E → R → Got F)
    (get_string : E → R → Option Text → Option (Option Text)) (show_int : ℤ → Text)
    (show_float : F → Text) where
  -- What the switch on the type of an expression pushes, and what `sv` holds then: nothing is pushed for
  -- a type that is not known.
  abbrev pub printed : FieldType → E → R → Option Text → Option (Option Text × Option Text)
  printed field_undefined e rg sv = some (none, sv)
  printed field_int e rg sv = got_or (get_int e rg) (pos 0) >>= λ i. some (some (show_int i), sv)
  printed field_float e rg sv =
      got_or (get_float e rg) zero_float >>= λ f. some (some (show_float f), sv)
  printed field_string e rg sv =
      get_string e rg sv >>= λ after. after >>= λ s. some (some s, some s)

  -- The loop over the expressions, which passes over aggregates and ROW_NUMBER.
  pub push_values : List (GroupExpr E) → R → Option Text → Flex → Option Flex
  push_values [] rg sv data_ = some data_
  push_values (e ∷ exprs) rg sv data_ =
      let skipped = push_values exprs rg sv data_ in
      let pushed : Option Text × Option Text → Option Flex =
        λ (v, sv'). push_values exprs rg sv' (push_value data_ v) in
      if is_key e.kind then printed e.field_type e.expr rg sv >>= pushed else skipped

module _ {E F R G U : Type 0} (zero_float : F) (get_int : E → R → Got ℤ) (get_float : E → R → Got F)
    (get_string : E → R → Option Text → Option (Option Text)) (show_int : ℤ → Text)
    (show_float : F → Text) (call : G → AggResult U → R → Option (AggResult U))
    (zero_data : G → U) where
  -- 1 for the first row of a group and 0 for any other.
  unfoldable pub group_record : Group E G U → R → Option (Bool × Group E G U)
  unfolding push_values add_results update_results
  group_record self rg =
      let org_size = length self.group_data.pairs in
      push_values zero_float get_int get_float get_string show_int show_float self.expressions rg
        none self.group_data
      >>= λ data_. composite_views data_ org_size self.composite_size >>= λ key.
          compositemap_get self.val_map key >>= λ found.
          at_entry found
            (compositemap_set self.val_map key (length self.val_map.table.values % 2 ^ 32)
              >>= λ val_map. add_results call zero_data self.aggregates rg >>= λ aggregates. some (
                true,
                record self { val_map = val_map; aggregates = aggregates; group_data = data_ },
              ))
            (λ idx. update_results call self.aggregates rg idx >>= λ aggregates. some (
              false,
              record self { aggregates = aggregates; group_data = flex_resize data_ org_size },
            ))

module _ {G U : Type 0} (data_type : G → FieldType) (show_int show_float as_string : U → Text) where
  -- `_read_aggregate`: a field of no known type stays as it was.
  abbrev pub read_aggregate : FieldType → U → Text → Text
  read_aggregate field_undefined u old = old
  read_aggregate field_int u old = show_int u
  read_aggregate field_float u old = show_float u
  read_aggregate field_string u old = as_string u

  abbrev pub aggregate_field : List (Agg G U) → ℕ → ℕ → Text → Option Text
  aggregate_field aggs k idx old = get_elem? aggs k >>= λ agg.
      get_elem? agg.results idx >>= λ result.
      some (read_aggregate (data_type agg.fn) result.data_ old)

  -- The loop of `group_dump_record` over the expressions and the fields that the record has. ROW_NUMBER
  -- is printed to a string of the record that no field is set to.
  pub dump_fields :
      {E : Type 0}
      → List (GroupExpr E)
      → List Text
      → List (Agg G U)
      → Flex
      → (dump_idx idx : ℕ) → Option (List Text)
  dump_fields [] rec aggs data_ dump_idx idx = some []
  dump_fields (e ∷ exprs) [] aggs data_ dump_idx idx = none
  dump_fields (e ∷ exprs) (old ∷ rec) aggs data_ dump_idx idx =
      let same = dump_fields exprs rec aggs data_ dump_idx idx in
      let next = dump_fields exprs rec aggs data_ dump_idx (suc idx) in
      elim e.kind [
        | expr_aggregate k ↦ aggregate_field aggs k dump_idx old >>= λ field.
            same >>= λ fields. some (field ∷ fields)
        | expr_row_number ↦ same >>= λ fields. some (old ∷ fields)
        | expr_key ↦ flex_pair_at data_ idx >>= λ field. next >>= λ fields. some (field ∷ fields)
      ]

  -- What `group_dump_record` writes to a record that has been resized to the expressions; the inner
  -- `none` is -1, when all groups have been dumped.
  unfoldable pub group_dump_record :
      {E : Type 0} → Group E G U → List Text → Option (Option (List Text × Group E G U))
  unfolding dump_fields
  group_dump_record self rec =
      let fields =
        dump_fields self.expressions rec self.aggregates self.group_data self.dump_idx
          (self.composite_size * self.dump_idx) in
      if ltb self.dump_idx (length self.val_map.table.values)
      then (fields >>= λ line. some (some (line, record self { dump_idx = self.dump_idx + 1 })))
      else some none
