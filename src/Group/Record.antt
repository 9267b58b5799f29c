-- ===== src/Group/Record.antt =====
-- `group_record` of lib/group.c, row by row, against the buckets of the rows.
use fql.Prelude.{
  ℕ, zero, suc, ◌-◌, ◌%◌, ◌^◌, ◌<◌, Bool, true, false, Option, none, some, List, [], ◌∷◌, ◌++◌, ◌≡◌,
  refl, ◌∙◌, sym, ap, inl, inr, length, get_elem?, drop, arith, Option-cases, Bool-cases,
  append-nil, append_assoc, length-append,
}
use mathlib.Core.Path.{subst}
use native.Mathlib.Nat.{mod-eq_of_lt}
use fql.Prelude.Int.{ℤ}
use fql.Status.{Got}
use fql.Text.{Text}
use fql.Flex.{Flex}
use fql.Flex.Elements.{IsValid, elements}
use fql.Aggregate.{AggResult}
use fql.Hash.Composite.{CompositeMap, compositemap_get}
use fql.Hash.Composite.Keylocs.{same_key}
use fql.Hash.Composite.Lookup as Composite
use fql.Hash.Composite.Lookup.{kept_key, Written}
use fql.Hash.Composite.Write.{compositemap_set-Written}
use fql.Group.{
  GroupExpr, Agg, Group, group_props, composite_views, add_results, update_results, group_record,
}
use fql.Group.Buckets.{
  Bucket, alike, file_row, index_of, index_of-file_old, index_of-file_new, length-file_new, keys_of,
  keys_of-file_old, keys_of-append, length-keys_of,
}
use fql.Group.Values.{
  push_all, elements-push_all, length-elements, flex_resize-push_all, composite_views-drop,
  drop-length-append, key_count, AllKnown, row_key, push_values-row_key, length-row_key,
}
use fql.Group.Results.{all_results, update_results-file_old, add_results-file_new}

abbrev pub joined : List (List Text) → List Text
joined [] = []
joined (key ∷ keys) = key ++ joined keys

joined-append :
    (keys : List (List Text)) (key : List Text) → joined (keys ++ (key ∷ [])) ≡ joined keys ++ key
joined-append [] key = append-nil key
joined-append (k ∷ keys) key =
    ap (λ l. k ++ l) (joined-append keys key) ∙ sym (append_assoc k (joined keys) key)

get_elem?-lt :
    {A : Type 0} (xs : List A) (i : ℕ) → i < length xs → (x : A) × (get_elem? xs i ≡ some x)
get_elem?-lt [] i lt = absurd (omega arith)
get_elem?-lt (x ∷ xs) zero lt = (x, refl)
get_elem?-lt (x ∷ xs) (suc i) lt = get_elem?-lt xs i (omega arith)

-- All keys have as many parts.
abbrev pub AllLong : ℕ → List (List Text) → Type 0
AllLong n [] = Unit
AllLong n (key ∷ keys) = (length key ≡ n) × AllLong n keys

AllLong-append :
    (n : ℕ) (keys : List (List Text)) (key : List Text)
    → AllLong n keys
    → length key ≡ n
    → AllLong n (keys ++ (key ∷ []))
AllLong-append n [] key h is = (is, tt)
AllLong-append n (k ∷ keys) key h is = (h.0, AllLong-append n keys key h.1 is)

abbrev pub is_none : {A : Type 0} → Option A → Bool
is_none none = true
is_none (some a) = false

module _ {E F G U R : Type 0} (zero_float : F) (get_int : E → R → Got ℤ) (get_float : E → R → Got F)
    (get_string : E → R → Option Text → Option (Option Text)) (show_int : ℤ → Text)
    (show_float : F → Text) (call : G → AggResult U → R → Option (AggResult U))
    (zero_data : G → U) where
  abbrev pub key_of_row : List (GroupExpr E) → R → Option (List Text)
  key_of_row exprs rg =
      row_key zero_float get_int get_float get_string show_int show_float exprs rg none

  abbrev pub record_row : Group E G U → R → Option (Bool × Group E G U)
  record_row =
      group_record zero_float get_int get_float get_string show_int show_float call zero_data

  -- A group holds the buckets of the rows that have been recorded: the map has the place of each key,
  -- the flex the keys themselves, and the aggregates their results.
  pub record Holds (fns : List G) (bs : List (Bucket R)) (self : Group E G U) : Type 0 where
    pub valid : Composite.IsValid self.val_map
    pub props : self.val_map.table.props ≡ group_props
    pub places : (key : List Text) → compositemap_get self.val_map key ≡ some (index_of key bs)
    pub counted : length self.val_map.table.values ≡ length bs
    pub small : length self.val_map.table.entries < 2 ^ 63
    pub known : AllKnown self.expressions
    pub width : self.composite_size ≡ key_count self.expressions
    pub long : AllLong self.composite_size (keys_of bs)
    pub flex : IsValid self.group_data
    pub keys : elements self.group_data ≡ joined (keys_of bs)
    pub results : all_results call zero_data fns bs ≡ some self.aggregates

  module _ (fns : List G) (bs : List (Bucket R)) (self : Group E G U) (rg : R) (key : List Text)
      (h : Holds fns bs self) (its_key : key_of_row self.expressions rg ≡ some key) where
    pushed : Flex
    pushed = push_all self.group_data key

    its_length : length key ≡ self.composite_size
    its_length =
        length-row_key zero_float get_int get_float get_string show_int show_float self.expressions
          rg none key h.known its_key
        ∙ sym h.width

    views : composite_views pushed (length self.group_data.pairs) self.composite_size ≡ some key
    unfolding pushed
    views =
        let same : self.composite_size ≡ length key = sym its_length in
        let (v, all) = elements-push_all self.group_data key h.flex in
        let left : drop (length self.group_data.pairs) (elements pushed) ≡ key =
          ap (drop (length self.group_data.pairs)) all
          ∙ drop-length-append (elements self.group_data) key (length self.group_data.pairs)
              (sym (length-elements self.group_data)) in
        rw same (composite_views-drop pushed (length self.group_data.pairs) key left)

    -- A row of a bucket that is there.
    record-old :
        (i : ℕ) (aggs' : List (Agg G U))
        → index_of key bs ≡ some i
        → all_results call zero_data fns (file_row key rg bs) ≡ some aggs'
        → (self' : Group E G U) × (record_row self rg ≡ some (false, self'))
          × Holds fns (file_row key rg bs) self'
          × (self'.expressions ≡ self.expressions)
          × (self'.dump_idx ≡ self.dump_idx)
    unfolding group_record pushed
    record-old i aggs' at ends =
        let (aggs, before, updates) =
          update_results-file_old call zero_data fns key rg bs i aggs' at ends in
        let both : some aggs ≡ some self.aggregates = sym before ∙ h.results in
        let same : aggs ≡ self.aggregates = cc in
        let pushes =
          push_values-row_key zero_float get_int get_float get_string show_int show_float
            self.expressions rg none self.group_data key its_key in
        let updates' : update_results call self.aggregates rg i ≡ some aggs' =
          ap (λ a. update_results call a rg i) (sym same) ∙ updates in
        let back = flex_resize-push_all self.group_data key in
        let finds : compositemap_get self.val_map key ≡ some (some i) = h.places key ∙ ap some at in
        let unchanged = keys_of-file_old key rg bs i at in
        (
          record self { aggregates = aggs' },
          rw (pushes, views, finds, updates', back) refl,
          record {
            valid = h.valid;
            props = h.props;
            places = λ key'. h.places key' ∙ ap some (sym (index_of-file_old key rg bs i key' at));
            counted =
                h.counted
                ∙ sym (length-keys_of bs)
                ∙ ap length (sym unchanged)
                ∙ length-keys_of (file_row key rg bs);
            small = h.small;
            known = h.known;
            width = h.width;
            long = rw unchanged h.long;
            flex = h.flex;
            keys = h.keys ∙ ap joined (sym unchanged);
            results = ends;
          },
          refl,
          refl,
        )

    module _ (m' : CompositeMap ℕ)
        (w : Written self.val_map key (length self.val_map.table.values % 2 ^ 32) m')
        (at : index_of key bs ≡ none) where
      places-new :
          length bs < 2 ^ 32
          → (key' : List Text)
          → compositemap_get m' key' ≡ some (index_of key' (file_row key rg bs))
      places-new few key' =
          let n = length self.val_map.table.values % 2 ^ 32 in
          let n_is : n ≡ length bs = ap (λ m. m % 2 ^ 32) h.counted ∙ mod-eq_of_lt few in
          let as_props = ap (λ p. same_key (kept_key p key) (kept_key p key')) h.props in
          let files = index_of-file_new key rg bs key' at in
          elim (Bool-cases (alike key key')) [
            | inl same ↦
                let now : compositemap_get m' key' ≡ some (some n) =
                  w.reads key' ∙ rw (as_props, same) refl in
                let there : index_of key' (file_row key rg bs) ≡ some (length bs) =
                  files ∙ rw same refl in
                rw there (now ∙ ap (λ m. some (some m)) n_is)
            | inr other ↦
                let now : compositemap_get m' key' ≡ some (index_of key' bs) =
                  w.reads key' ∙ rw (as_props, other) (h.places key') in
                let there : index_of key' (file_row key rg bs) ≡ index_of key' bs =
                  files ∙ rw other refl in
                rw there now
          ]

      counted-new : length m'.table.values ≡ suc (length bs)
      counted-new = elim w.values [
        | inl (i, gets, lt, changed) ↦
            let (x, is) = get_elem?-lt self.val_map.table.values i lt in
            let clash : some none ≡ some (some x) =
              sym (h.places key ∙ ap some at) ∙ gets ∙ ap some is in
            cc
        | inr (gets, longer) ↦ omega (
          arith,
          ap length longer,
          length-append self.val_map.table.values (length self.val_map.table.values % 2 ^ 32 ∷ []),
          h.counted,
        )
      ]

    -- The first row of a bucket.
    record-new :
        (aggs' : List (Agg G U))
        → index_of key bs ≡ none
        → length bs < 2 ^ 32
        → all_results call zero_data fns (file_row key rg bs) ≡ some aggs'
        → (self' : Group E G U) × (record_row self rg ≡ some (true, self'))
          × Holds fns (file_row key rg bs) self'
          × (self'.expressions ≡ self.expressions)
          × (self'.dump_idx ≡ self.dump_idx)
    unfolding group_record pushed
    record-new aggs' at few ends =
        let (aggs, before, adds) =
          add_results-file_new call zero_data fns key rg bs aggs' at ends in
        let both : some aggs ≡ some self.aggregates = sym before ∙ h.results in
        let same : aggs ≡ self.aggregates = cc in
        let pushes =
          push_values-row_key zero_float get_int get_float get_string show_int show_float
            self.expressions rg none self.group_data key its_key in
        let adds' : add_results call zero_data self.aggregates rg ≡ some aggs' =
          ap (λ a. add_results call zero_data a rg) (sym same) ∙ adds in
        let finds : compositemap_get self.val_map key ≡ some none = h.places key ∙ ap some at in
        let n = length self.val_map.table.values % 2 ^ 32 in
        let (m', writes, w) = compositemap_set-Written self.val_map key n h.valid h.small in
        let longer = length-file_new key rg bs at in
        let alone : Bucket R = record { key = key; first = rg; rest = [] } in
        let wide = w.wide (2 ^ 63 - 1) (omega (arith, h.small)) (omega (arith, h.counted)) in
        (
          record self { val_map = m'; aggregates = aggs'; group_data = pushed },
          rw (pushes, views, finds, writes, adds') refl,
          record {
            valid = w.valid;
            props = w.same_props ∙ h.props;
            places = places-new m' w at few;
            counted =
                counted-new m' w at
                ∙ omega (arith, ap length longer, length-append bs (alone ∷ []));
            small = omega arith;
            known = h.known;
            width = h.width;
            long =
                subst (AllLong self.composite_size)
                  (sym (ap keys_of longer ∙ keys_of-append bs (alone ∷ [])))
                  (AllLong-append self.composite_size (keys_of bs) key h.long its_length);
            flex = (elements-push_all self.group_data key h.flex).0;
            keys =
                (elements-push_all self.group_data key h.flex).1
                ∙ ap (λ l. l ++ key) h.keys
                ∙ sym (joined-append (keys_of bs) key)
                ∙ ap joined (sym (ap keys_of longer ∙ keys_of-append bs (alone ∷ [])));
            results = ends;
          },
          refl,
          refl,
        )

    -- Recording a row of a group whose buckets, fewer than 2 ^ 32, have results with the row too: it ends
    -- and says whether the row is the first of its bucket.
    pub group_record-Holds :
        (aggs' : List (Agg G U))
        → length bs < 2 ^ 32
        → all_results call zero_data fns (file_row key rg bs) ≡ some aggs'
        → (self' : Group E G U) × (record_row self rg ≡ some (is_none (index_of key bs), self'))
          × Holds fns (file_row key rg bs) self'
          × (self'.expressions ≡ self.expressions)
          × (self'.dump_idx ≡ self.dump_idx)
    group_record-Holds aggs' few ends = elim (Option-cases (index_of key bs)) [
      | inl new ↦ rw new (record-new aggs' new few ends)
      | inr (i, at) ↦ rw at (record-old i aggs' at ends)
    ]
