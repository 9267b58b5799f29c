-- ===== src/Hash/Composite/Update.antt =====
-- `compositemap_set` in util/hashmap.c on a key that is there: its value is overwritten.
use fql.Prelude.{
  some, List, ◌≡◌, refl, ◌∙◌, sym, ap, ◌≢◌, inl, inr, if◌then◌else◌, set, Bool-cases, length-set,
  get_elem?-set_self, get_elem?-set_ne,
}
use fql.Text.{Text}
use fql.Hash.{Entry}
use fql.Hash.Keys.{Present}
use fql.Hash.Composite.{CompositeMap, compositemap_get}
use fql.Hash.Composite.Keylocs.{same_key, same_key-eq, same_key-ne}
use fql.Hash.Composite.Lookup.{kept_key, key_in, IsValid, get-Present, get-absent, has_key, Written}

module _ {ℓ} {A : Type ℓ} (m : CompositeMap A) (key : List Text) (value : A) (e : Entry)
    (v : IsValid m) (here : Present m.table.entries e)
    (is : key_in m.table.keybuf m.keys e ≡ kept_key m.table.props key) where
  unfoldable pub updated : CompositeMap A
  updated = record m { table = record m.table { values = set m.table.values e.val_idx value } }

  updated-IsValid : IsValid updated
  unfolding updated
  updated-IsValid =
      let wide = length-set m.table.values e.val_idx value in
      record {
        good = v.good;
        inkeys = v.inkeys;
        inbuf = v.inbuf;
        room = v.room;
        sized = rw wide v.sized;
        vals = λ f q. rw wide (v.vals f q);
        apart = v.apart;
      }

  updated-reads :
      (key' : List Text)
      → compositemap_get updated key' ≡ (
          if same_key (kept_key m.table.props key) (kept_key m.table.props key')
          then some (some value)
          else compositemap_get m key')
  unfolding updated
  updated-reads key' =
      let k = kept_key m.table.props key in
      let k' = kept_key m.table.props key' in
      elim (Bool-cases (same_key k k')) [
        | inl same ↦
            let eq : k ≡ k' = same_key-eq k k' same in
            rw same (
              get-Present updated key' e updated-IsValid here (is ∙ eq)
              ∙ ap some (get_elem?-set_self m.table.values e.val_idx value (v.vals e here)))
        | inr other ↦ elim (has_key m key' v) [
          | inl (f, q, is') ↦
              let apart : e.val_idx ≢ f.val_idx = λ eq.
                same_key-ne k k' other
                  (sym is ∙ ap (key_in m.table.keybuf m.keys) (v.apart e f here q eq) ∙ is') in
              rw other (
                get-Present updated key' f updated-IsValid q is'
                ∙ ap some (get_elem?-set_ne m.table.values value apart)
                ∙ sym (get-Present m key' f v q is'))
          | inr absent ↦
              rw other
                (get-absent updated key' updated-IsValid absent ∙ sym (get-absent m key' v absent))
        ]
      ]

  pub updated-Written : Written m key value updated
  unfolding updated
  updated-Written = record {
    valid = updated-IsValid;
    same_props = refl;
    values = inl (e.val_idx, get-Present m key e v here is, v.vals e here, refl);
    wide = λ b le more. le;
    reads = updated-reads;
  }
