-- ===== src/Hash/Map/Update.antt =====
-- `hashmap_nset` in util/hashmap.c on a key that is there: its value is overwritten.
use fql.Prelude.{
  some, ◌≡◌, refl, ◌∙◌, sym, ap, ◌≢◌, inl, inr, if◌then◌else◌, set, arith, Bool-cases, length-set,
  get_elem?-set_self, get_elem?-set_ne,
}
use fql.Text.{Text}
use fql.Hash.{Entry, HashMap, same_bytes, hashmap_nget}
use fql.Hash.Keys.{Present}
use fql.Hash.Digest.{kept}
use fql.Hash.Table.{key_at, same_bytes-eq, same_bytes-ne}
use fql.Hash.Map.{IsValid, nget-Present, nget-absent, has_key, Written}

module _ {ℓ} {A : Type ℓ} where
  -- A write to the value of an entry.
  module _ (m : HashMap A) (key : Text) (value : A) (e : Entry) (v : IsValid m)
      (here : Present m.entries e) (is : key_at m.keybuf e ≡ kept m.props key) where
    unfoldable pub updated : HashMap A
    updated = record m { values = set m.values e.val_idx value }

    updated-IsValid : IsValid updated
    unfolding updated
    updated-IsValid =
        let wide = length-set m.values e.val_idx value in
        record { table = rw wide v.table; vals = λ f q. rw wide (v.vals f q); apart = v.apart }

    updated-reads :
        (key' : Text)
        → hashmap_nget updated key' ≡ (
            if same_bytes (kept m.props key) (kept m.props key')
            then some (some value)
            else hashmap_nget m key')
    unfolding updated
    updated-reads key' =
        let k = kept m.props key in
        let k' = kept m.props key' in
        elim (Bool-cases (same_bytes k k')) [
          | inl same ↦
              let eq : k ≡ k' = same_bytes-eq k k' same in
              rw same (
                nget-Present updated key' e updated-IsValid here (is ∙ eq)
                ∙ ap some (get_elem?-set_self m.values e.val_idx value (v.vals e here)))
          | inr other ↦ elim (has_key m k' v) [
            | inl (f, q, is') ↦
                let apart : e.val_idx ≢ f.val_idx = λ eq.
                  same_bytes-ne k k' other
                    (sym is ∙ ap (key_at m.keybuf) (v.apart e f here q eq) ∙ is') in
                rw other (
                  nget-Present updated key' f updated-IsValid q is'
                  ∙ ap some (get_elem?-set_ne m.values value apart)
                  ∙ sym (nget-Present m key' f v q is'))
            | inr absent ↦ rw other (
                nget-absent updated key' updated-IsValid absent ∙ sym (nget-absent m key' v absent))
          ]
        ]

    pub updated-Written : Written m key value updated
    unfolding updated
    updated-Written =
        let wide = length-set m.values e.val_idx value in
        record {
          valid = updated-IsValid;
          same_props = refl;
          size = omega (arith, wide);
          wide = λ b le more. le;
          reads = updated-reads;
        }
