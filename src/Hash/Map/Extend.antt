-- ===== src/Hash/Map/Extend.antt =====
-- `hashmap_nset` in util/hashmap.c on a new key: an entry and a value more.
use fql.Prelude.{
  ℕ, suc, Option, some, List, [], ◌∷◌, ◌++◌, ◌≡◌, refl, ◌∙◌, sym, ap, ◌≢◌, inl, inr, if◌then◌else◌,
  length, arith, Bool-cases, length-append, get_elem?-append_left, get_elem?-append_end,
}
use fql.Text.{Text}
use fql.Hash.{Entry, HashMap, same_bytes, hashmap_nget}
use fql.Hash.Keys.{Present}
use fql.Hash.Digest.{hash_key, kept}
use fql.Hash.Table.{key_at, same_bytes-eq, same_bytes-ne}
use fql.Text.Segments.{read_at-append, read_at-end}
use fql.Hash.Insert.{new_entry, Added}
use fql.Hash.Map.{IsValid, nget-Present, nget-absent, has_key, Written}

module _ {ℓ} {A : Type ℓ} where
  -- A new key.
  module _ (m : HashMap A) (key : Text) (value : A) (i : ℕ) (out : List (Option Entry))
      (v : IsValid m) (added : Added m (kept m.props key) i (length m.values) value out)
      (absent : (e : Entry) → Present m.entries e → key_at m.keybuf e ≢ kept m.props key) where
    unfoldable pub extended : HashMap A
    extended = record m {
      values = m.values ++ (value ∷ []);
      entries = out;
      keybuf = m.keybuf ++ kept m.props key;
    }

    extended-IsValid : IsValid extended
    unfolding extended
    extended-IsValid =
        let longer = length-append m.values (value ∷ []) in
        let now : length (m.values ++ (value ∷ [])) ≡ suc (length m.values) =
          omega (arith, longer) in
        record {
          table = rw now added.table;
          vals = λ e q. elim ((added.members e).0 q) [
            | inl is ↦ omega (arith, ap (λ (x : Entry). x.val_idx) is)
            | inr was ↦ omega (arith, v.vals e was)
          ];
          apart = λ e f q r eq. elim ((added.members e).0 q) [
            | inl is ↦ elim ((added.members f).0 r) [
              | inl is' ↦ sym is ∙ is'
              | inr was ↦ absurd (omega (arith, ap (λ (x : Entry). x.val_idx) is, v.vals f was))
            ]
            | inr was ↦ elim ((added.members f).0 r) [
              | inl is ↦ absurd (omega (arith, ap (λ (x : Entry). x.val_idx) is, v.vals e was))
              | inr was' ↦ v.apart e f was was' eq
            ]
          ];
        }

    extended-reads :
        (key' : Text)
        → hashmap_nget extended key' ≡ (
            if same_bytes (kept m.props key) (kept m.props key')
            then some (some value)
            else hashmap_nget m key')
    unfolding extended
    extended-reads key' =
        let k = kept m.props key in
        let k' = kept m.props key' in
        let new = new_entry m.keybuf k (hash_key m.props k) (length m.values) in
        let its_key = read_at-end m.keybuf k in
        elim (Bool-cases (same_bytes k k')) [
          | inl same ↦
              let eq : k ≡ k' = same_bytes-eq k k' same in
              rw same (
                nget-Present extended key' new extended-IsValid ((added.members new).1 (inl refl))
                  (its_key ∙ eq)
                ∙ ap some (get_elem?-append_end m.values value))
          | inr other ↦ elim (has_key m k' v) [
            | inl (f, q, is) ↦
                let kept_key = read_at-append m.keybuf k f.key_idx f.key_len (v.table.inbuf f q) in
                rw other (
                  nget-Present extended key' f extended-IsValid ((added.members f).1 (inr q))
                    (kept_key ∙ is)
                  ∙ ap some (get_elem?-append_left m.values (value ∷ []) f.val_idx (v.vals f q))
                  ∙ sym (nget-Present m key' f v q is))
            | inr none_has ↦ rw other (
                nget-absent extended key' extended-IsValid (λ e q. elim ((added.members e).0 q) [
                  | inl is ↦ λ eq.
                      same_bytes-ne k k' other (sym its_key ∙ ap (key_at (m.keybuf ++ k)) is ∙ eq)
                  | inr was ↦ λ eq. none_has e was (
                      sym (read_at-append m.keybuf k e.key_idx e.key_len (v.table.inbuf e was))
                      ∙ eq)
                ])
                ∙ sym (nget-absent m key' v none_has))
          ]
        ]

    pub extended-Written : Written m key value extended
    unfolding extended
    extended-Written = record {
      valid = extended-IsValid;
      same_props = refl;
      size = omega (arith, length-append m.values (value ∷ []));
      wide = added.wide;
      reads = extended-reads;
    }
