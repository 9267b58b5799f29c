-- ===== src/Hash/Map.antt =====
-- The map of util/hashmap.c: `hashmap_nset` and `hashmap_nget` against a function from keys to values.
pub mod Update
pub mod Extend
pub mod Write
use fql.Prelude.{
  ℕ, zero, suc, ◌+◌, ◌*◌, ◌^◌, ◌<◌, ◌≤◌, Bool, true, false, Option, none, some, List, [], ◌∷◌, ◌++◌,
  ◌≡◌, refl, ◌∙◌, sym, ap, ◌≢◌, ◌⊎◌, inl, inr, ◌↔◌, if◌then◌else◌, length, get_or, get_elem?, set,
  replicate, arith, Bool-cases, length-append, length-set, length-replicate, get_elem?-set_self,
  get_elem?-set_ne,
}
use mathlib.Core.Path.{subst}
use fql.Status.{◌>>=◌}
use fql.Text.{Text}
use fql.Hash.{
  Entry, Props, HashMap, same_bytes, get_hash, get_entry, probe, set_construct, hashmap_nset,
  hashmap_nget, next_power_of_2,
}
use fql.Hash.Probe.{Used, Used-lt, count, count-replicate, get_or-replicate, Placed}
use fql.Hash.Keys.{Present, Good}
use fql.Hash.Digest.{hash_key, kept, get_hash-kept, next_power_of_2-bounds}
use fql.Hash.Table.{
  key_at, hash_of, Table, Good-free, Lookup, there, nowhere, get_entry-Lookup, same_bytes-eq,
  same_bytes-ne,
}
use fql.Text.Segments.{read_at-append, read_at-end}
use fql.Hash.Insert.{new_entry, Added, add_new-Added}

module _ {ℓ} {A : Type ℓ} where
  -- The table is in order, and each entry has a value of its own.
  pub record IsValid (m : HashMap A) : Type ℓ where
    pub table : Table m.props m.keybuf m.entries (length m.values)
    pub vals : (e : Entry) → Present m.entries e → e.val_idx < length m.values
    pub apart :
        (e f : Entry) → Present m.entries e → Present m.entries f → e.val_idx ≡ f.val_idx → e ≡ f

  pub nget-Present :
      (m : HashMap A) (key : Text) (e : Entry)
      → IsValid m
      → Present m.entries e
      → key_at m.keybuf e ≡ kept m.props key
      → hashmap_nget m key ≡ some (get_elem? m.values e.val_idx)
  unfolding hashmap_nget
  nget-Present m key e v (j, used) is =
      let k = kept m.props key in
      let (i, runs, found) = get_entry-Lookup m k v.table in
      elim found [
        | there f used' is' ↦
            let at : j ≡ i = v.table.good.once j i e f used used' (is ∙ sym is') in
            let same : some f ≡ some e =
              sym used' ∙ ap (λ n. get_or m.entries n none) (sym at) ∙ used in
            rw (get_hash-kept m.props key, runs, used') (cc)
        | nowhere free p absent ↦ absurd (absent e (j, used) is)
      ]

  pub nget-absent :
      (m : HashMap A) (key : Text)
      → IsValid m
      → ((e : Entry) → Present m.entries e → key_at m.keybuf e ≢ kept m.props key)
      → hashmap_nget m key ≡ some none
  unfolding hashmap_nget
  nget-absent m key v absent =
      let k = kept m.props key in
      let (i, runs, found) = get_entry-Lookup m k v.table in
      elim found [
        | there f used is ↦ absurd (absent f (i, used) is)
        | nowhere free p none_has ↦ rw (get_hash-kept m.props key, runs, free) refl
      ]

  -- The map after a write, against the one before.
  pub record Written (m : HashMap A) (key : Text) (value : A) (m' : HashMap A) : Type ℓ where
    pub valid : IsValid m'
    pub same_props : m'.props ≡ m.props
    pub size : length m'.values ≤ suc (length m.values)
    pub wide : (b : ℕ) → length m.entries ≤ b → 3 * length m.values + 4 ≤ b → length m'.entries ≤ b
    pub reads :
        (key' : Text)
        → hashmap_nget m' key' ≡ (
            if same_bytes (kept m.props key) (kept m.props key')
            then some (some value)
            else hashmap_nget m key')

  -- An entry has the key, or none.
  pub has_key :
      (m : HashMap A) (k : Text)
      → IsValid m
      → ((e : Entry) × Present m.entries e × (key_at m.keybuf e ≡ k))
        ⊎ ((e : Entry) → Present m.entries e → key_at m.keybuf e ≢ k)
  has_key m k v =
      let (i, runs, found) = get_entry-Lookup m k v.table in
      elim found [ there f used is ↦ inl (f, (i, used), is) | nowhere free p absent ↦ inr absent ]
