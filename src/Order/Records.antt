-- ===== src/Order/Records.antt =====
-- `order_add_record` and `_compare` of lib/order.c together: the entries of two records compare as
-- ORDER BY says of the keys of the records.
use fql.Prelude.{
  ℕ, zero, suc, ◌+◌, Bool, true, false, Option, none, some, List, [], ◌∷◌, ◌++◌, ◌≡◌, refl, ◌∙◌,
  sym, ap, inl, inr, length, get_elem?, Option-cases, length-append, append_assoc, append-nil,
}
use mathlib.Core.Path.{subst}
use fql.Prelude.Int.{ℤ, pos}
use fql.Status.{Got, ◌>>=◌, bind-some}
use fql.Text.{Text}
use fql.Order.{
  Key, key_int, key_float, key_string, got_or, OrderExpr, OrderEntry, Order, minus, key_of,
  push_keys, order_add_record, compare_entries,
}
use fql.Order.Keys.{At, AllShort, compare_loop-keys, compare_keys-minus}
use fql.Order.Direction.{is_negative, OfType, AllOfType, precedes, compare_keys-precedes}
use fql.Field.{FieldType, field_undefined, field_int, field_float, field_string}

module _ {F : Type 0} where
  get_elem?-behind :
      (d xs : List (Key F)) (i : ℕ) (k : Key F)
      → get_elem? d i ≡ some k
      → get_elem? (d ++ xs) i ≡ some k
  get_elem?-behind [] xs i k h = cc
  get_elem?-behind (x ∷ d) xs zero k h = h
  get_elem?-behind (x ∷ d) xs (suc i) k h = get_elem?-behind d xs i k h

  get_elem?-after :
      (d ks : List (Key F)) (k : Key F) → get_elem? (d ++ (k ∷ ks)) (length d) ≡ some k
  get_elem?-after [] ks k = refl
  get_elem?-after (x ∷ d) ks k = get_elem?-after d ks k

  At-append : (d xs : List (Key F)) (i : ℕ) (ks : List (Key F)) → At d i ks → At (d ++ xs) i ks
  At-append d xs i [] p = tt
  At-append d xs i (k ∷ ks) p = (get_elem?-behind d xs i k p.0, At-append d xs (i + 1) ks p.1)

  At-end : (d ks : List (Key F)) → At (d ++ ks) (length d) ks
  At-end d [] = tt
  At-end d (k ∷ ks) = (
    get_elem?-after d ks k,
    let moved : At ((d ++ (k ∷ [])) ++ ks) (length (d ++ (k ∷ []))) ks =
          At-end (d ++ (k ∷ [])) ks in
        subst (λ n. At (d ++ (k ∷ ks)) n ks) (length-append d (k ∷ []))
          (subst (λ l. At l (length (d ++ (k ∷ []))) ks) (append_assoc d (k ∷ []) ks) moved),
  )

module _ {E F R : Type 0} (zero_float : F) (get_int : E → R → Got ℤ) (get_float : E → R → Got F)
    (get_stringview : E → R → Option Text → Option (Option Text)) where
  -- The keys of a record.
  abbrev pub keys_of : List (OrderExpr E) → R → Option (List (Key F))
  keys_of [] rg = some []
  keys_of (e ∷ es) rg =
      key_of zero_float get_int get_float get_stringview e e.field_type rg >>= λ k.
      (keys_of es rg >>= λ ks. some (k ∷ ks))

  push_keys-append :
      (es : List (OrderExpr E)) (rg : R) (d d' : List (Key F))
      → push_keys zero_float get_int get_float get_stringview es rg d ≡ some d'
      → (ks : List (Key F)) × (keys_of es rg ≡ some ks) × (d' ≡ d ++ ks) × (length ks ≡ length es)
  push_keys-append [] rg d d' h =
      ([], refl, (let same : d ≡ d' = cc in sym same ∙ sym (append-nil d)), refl)
  push_keys-append (e ∷ es) rg d d' h =
      elim (Option-cases (key_of zero_float get_int get_float get_stringview e e.field_type rg)) [
        | inl bad ↦ absurd (let no_data : none ≡ some d' = rw bad at h in cc)
        | inr (k, is) ↦
            let (ks, keys, same, size) = push_keys-append es rg (d ++ (k ∷ [])) d' (rw is at h) in
            (k ∷ ks, rw (is, keys) refl, same ∙ append_assoc d (k ∷ []) ks, ap suc size)
      ]

  -- An entry that holds the keys of a record.
  pub record Stored (self : Order E F) (p : OrderEntry) (rg : R) (keys : List (Key F))
      : Type 0 where
    pub computed : keys_of self.expressions rg ≡ some keys
    pub size : length keys ≡ length self.expressions
    pub at : At self.order_data p.idx keys

  -- An order after a record has been added.
  pub record RecordAdded (self : Order E F) (offset len : ℕ) (rg : R) (self' : Order E F)
      : Type 0 where
    pub keys : List (Key F)
    pub entry : OrderEntry
    pub row : (entry.offset ≡ offset) × (entry.len ≡ len)
    pub entries : self'.entries ≡ self.entries ++ (entry ∷ [])
    pub expressions : self'.expressions ≡ self.expressions
    pub stored : Stored self' entry rg keys
    pub before :
        (p : OrderEntry) (rg' : R) (keys' : List (Key F))
        → Stored self p rg' keys'
        → Stored self' p rg' keys'

  -- Where `order_add_record` does not fail, it adds one entry with the row of the record, behind the
  -- others, which holds the keys of the record; and the entries that hold those of other records
  -- still do.
  pub order_add_record-RecordAdded :
      (self : Order E F) (offset len : ℕ) (rg : R) (self' : Order E F)
      → order_add_record zero_float get_int get_float get_stringview self offset len rg ≡ some self'
      → RecordAdded self offset len rg self'
  unfolding order_add_record
  order_add_record-RecordAdded self offset len rg self' h =
      elim (Option-cases (
        push_keys zero_float get_int get_float get_stringview self.expressions rg
          self.order_data)) [
            | inl bad ↦ absurd (let no_order : none ≡ some self' = rw bad at h in cc)
            | inr (d, pushed) ↦
                let (ks, keys, same, size) =
                  push_keys-append self.expressions rg self.order_data d pushed in
                let new : OrderEntry = record {
                  idx = length self.order_data;
                  offset = offset;
                  len = len;
                } in
                let out : Order E F = record self {
                  order_data = d;
                  entries = self.entries ++ (new ∷ []);
                } in
                let is : some out ≡ some self' = rw pushed at h in
                let eq : out ≡ self' = cc in
                subst (λ s. RecordAdded self offset len rg s) eq
                  (record {
                    keys = ks;
                    entry = new;
                    row = (refl, refl);
                    entries = refl;
                    expressions = refl;
                    stored = record {
                      computed = keys;
                      size = size;
                      at =
                          subst (λ l. At l (length self.order_data) ks) (sym same)
                            (At-end self.order_data ks);
                    };
                    before = λ p rg' ks' was. record {
                      computed = was.computed;
                      size = was.size;
                      at =
                          subst (λ l. At l p.idx ks') (sym same)
                            (At-append self.order_data ks p.idx ks' was.at);
                    };
                  })
          ]

  key_of-OfType :
      (e : OrderExpr E) (t : FieldType) (rg : R) (k : Key F)
      → key_of zero_float get_int get_float get_stringview e t rg ≡ some k
      → OfType t k
  key_of-OfType e field_undefined rg k h = cc
  key_of-OfType e field_int rg k h =
      let (num, is, eq) = bind-some (got_or (get_int e.expr rg) (pos 0)) _ k h in
      let same : key_int num ≡ k = cc in subst (λ k'. OfType field_int k') same tt
  key_of-OfType e field_float rg k h =
      let (num, is, eq) = bind-some (got_or (get_float e.expr rg) zero_float) _ k h in
      let same : key_float num ≡ k = cc in subst (λ k'. OfType field_float k') same tt
  key_of-OfType e field_string rg k h =
      let (after, is, stored) = bind-some (get_stringview e.expr rg none) _ k h in
      let (sv, there, eq) = bind-some after _ k stored in
      let same : key_string sv ≡ k = cc in subst (λ k'. OfType field_string k') same tt

  keys_of-AllOfType :
      (es : List (OrderExpr E)) (rg : R) (ks : List (Key F))
      → keys_of es rg ≡ some ks
      → AllOfType es ks
  keys_of-AllOfType [] rg ks h = tt
  keys_of-AllOfType (e ∷ es) rg [] h = tt
  keys_of-AllOfType (e ∷ es) rg (k' ∷ ks') h =
      let (k, is, rest) =
        bind-some (key_of zero_float get_int get_float get_stringview e e.field_type rg) _
          (k' ∷ ks') h in
      let (ks, are, eq) = bind-some (keys_of es rg) _ (k' ∷ ks') rest in
      let here : k ≡ k' = cc in
      let later : ks ≡ ks' = cc in
      (
        subst (λ l. OfType e.field_type l) here (key_of-OfType e e.field_type rg k is),
        subst (λ l. AllOfType es l) later (keys_of-AllOfType es rg ks are),
      )

  -- Where the two comparisons of doubles mirror each other, no two doubles are each less than the other,
  -- and the views are below 2 GiB: the comparison of the entries of two records is negative exactly
  -- where the keys of the first record come before those of the second one (the first expression whose
  -- keys do not tie decides: ASC puts the lesser key first, DESC the greater one), and the other way
  -- round it is the opposite number.
  pub compare_entries-precedes :
      (float_gt float_lt : F → F → Bool) (self : Order E F) (p0 p1 : OrderEntry) (rg0 rg1 : R)
      (keys0 keys1 : List (Key F))
      → ((a b : F) → float_gt a b ≡ float_lt b a)
      → ((a b : F) → float_lt a b ≡ true → float_lt b a ≡ false)
      → Stored self p0 rg0 keys0
      → Stored self p1 rg1 keys1
      → AllShort keys0
      → AllShort keys1
      → (is_negative (compare_entries zero_float float_gt float_lt self p0 p1)
          ≡ precedes float_lt self.expressions keys0 keys1)
        × (compare_entries zero_float float_gt float_lt self p0 p1
            ≡ minus (compare_entries zero_float float_gt float_lt self p1 p0))
  unfolding compare_entries
  compare_entries-precedes gt lt self p0 p1 rg0 rg1 ks ls swap asym s0 s1 short0 short1 =
      let one =
        compare_loop-keys zero_float gt lt self.expressions self.order_data p0.idx p1.idx ks ls
          s0.size s1.size s0.at s1.at in
      let other =
        compare_loop-keys zero_float gt lt self.expressions self.order_data p1.idx p0.idx ls ks
          s1.size s0.size s1.at s0.at in
      (
        ap is_negative one
            ∙ compare_keys-precedes zero_float gt lt swap asym self.expressions ks ls
                (keys_of-AllOfType self.expressions rg0 ks s0.computed)
                (keys_of-AllOfType self.expressions rg1 ls s1.computed) short0 short1,
        one
            ∙ compare_keys-minus zero_float gt lt swap self.expressions ks ls short0 short1
            ∙ ap minus (sym other),
      )
