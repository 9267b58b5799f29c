-- ===== src/Hash/Composite/Extend.antt =====
-- `compositemap_set` in util/hashmap.c on a new key: an entry, a value and its locations more.
use fql.Prelude.{
  ℕ, suc, ◌+◌, ◌*◌, ◌^◌, ◌<◌, ◌≤◌, Option, none, some, List, [], ◌∷◌, ◌++◌, ◌≡◌, refl, ◌∙◌, sym, ap,
  ◌≢◌, ◌⊎◌, inl, inr, ◌↔◌, if◌then◌else◌, length, get_or, set, read_at, arith, Bool-cases,
  length-append, length-set, get_elem?-append_left, get_elem?-append_end,
}
use mathlib.Core.Path.{subst}
use fql.Text.{Text}
use fql.Text.Segments.{read_at-append, read_at-end}
use fql.Hash.{Entry}
use fql.Hash.Probe.{count-set, Placed}
use fql.Hash.Keys.{Present, Present-set, Good, Good-set, Good-rekey}
use fql.Hash.Table.{hash_of, Grown, grown-Grown}
use fql.Hash.Composite.{CompositeMap, Hashed, composite_new, compositemap_get}
use fql.Hash.Composite.Keylocs.{
  located, AllInbuf, digest, located-append, AllInbuf-append_buf, AllInbuf-append, AllInbuf-take,
  AllInbuf-drop, Located, same_key, same_key-eq, same_key-ne,
}
use fql.Hash.Composite.Lookup.{kept_key, key_in, IsValid, get-Present, get-absent, has_key, Written}

module _ {ℓ} {A : Type ℓ} (m : CompositeMap A) (key : List Text) (value : A) (hashed : Hashed)
    (l : Located m.table.props m.table.keybuf 0 1 key hashed) (v : IsValid m) where
  abbrev pub new_entry : Entry
  new_entry = record {
    val_idx = length m.table.values;
    key_idx = length m.keys;
    key_len = length hashed.key_temp;
    hash = hashed.hash;
  }

  -- The keys of the entries in use are what they were, and the new entry has the new key.
  kept_keys :
      (e : Entry)
      → Present m.table.entries e
      → key_in hashed.keybuf (m.keys ++ hashed.key_temp) e ≡ key_in m.table.keybuf m.keys e
  kept_keys e q =
      let locs = read_at m.keys e.key_idx e.key_len in
      ap (located hashed.keybuf)
        (read_at-append m.keys hashed.key_temp e.key_idx e.key_len (v.inkeys e q))
      ∙ ap (λ b. located b locs) l.buf
      ∙ located-append m.table.keybuf l.tail locs (
          AllInbuf-take m.table.keybuf e.key_len _
            (AllInbuf-drop m.table.keybuf e.key_idx m.keys v.inbuf))

  its_key : key_in hashed.keybuf (m.keys ++ hashed.key_temp) new_entry ≡ kept_key m.table.props key
  its_key = ap (located hashed.keybuf) (read_at-end m.keys hashed.key_temp) ∙ l.key

  pub record Added (out : List (Option Entry)) : Type ℓ where
    pub valid : IsValid {A = A} (record {
      table = record m.table {
        values = m.table.values ++ (value ∷ []);
        entries = out;
        keybuf = hashed.keybuf;
      };
      keys = m.keys ++ hashed.key_temp;
    })
    pub members : (e : Entry) → Present out e ↔ ((new_entry ≡ e) ⊎ Present m.table.entries e)
    pub wide :
        (b : ℕ) → length m.table.entries ≤ b → 3 * length m.table.values + 4 ≤ b → length out ≤ b

  -- The map that a new key makes.
  abbrev pub extended : List (Option Entry) → CompositeMap A
  extended out = record {
    table = record m.table {
      values = m.table.values ++ (value ∷ []);
      entries = out;
      keybuf = hashed.keybuf;
    };
    keys = m.keys ++ hashed.key_temp;
  }

  extended-reads :
      (out : List (Option Entry)) (added : Added out)
      → ((e : Entry)
          → Present m.table.entries e
          → key_in m.table.keybuf m.keys e ≢ kept_key m.table.props key)
      → (key' : List Text)
      → compositemap_get (extended out) key' ≡ (
          if same_key (kept_key m.table.props key) (kept_key m.table.props key')
          then some (some value)
          else compositemap_get m key')
  extended-reads out added absent key' =
      let k = kept_key m.table.props key in
      let k' = kept_key m.table.props key' in
      let keybuf = hashed.keybuf in
      let keys = m.keys ++ hashed.key_temp in
      elim (Bool-cases (same_key k k')) [
        | inl same ↦
            let eq : k ≡ k' = same_key-eq k k' same in
            rw same (
              get-Present (extended out) key' new_entry added.valid
                ((added.members new_entry).1 (inl refl)) (its_key ∙ eq)
              ∙ ap some (get_elem?-append_end m.table.values value))
        | inr other ↦ elim (has_key m key' v) [
          | inl (f, q, is) ↦ rw other (
              get-Present (extended out) key' f added.valid ((added.members f).1 (inr q))
                (kept_keys f q ∙ is)
              ∙ ap some (get_elem?-append_left m.table.values (value ∷ []) f.val_idx (v.vals f q))
              ∙ sym (get-Present m key' f v q is))
          | inr none_has ↦ rw other (
              get-absent (extended out) key' added.valid (λ e q. elim ((added.members e).0 q) [
                | inl is ↦
                    λ eq. same_key-ne k k' other (sym its_key ∙ ap (key_in keybuf keys) is ∙ eq)
                | inr was ↦ λ eq. none_has e was (sym (kept_keys e was) ∙ eq)
              ])
              ∙ sym (get-absent m key' v none_has))
        ]
      ]

  pub extended-Written :
      (out : List (Option Entry))
      → Added out
      → ((e : Entry)
          → Present m.table.entries e
          → key_in m.table.keybuf m.keys e ≢ kept_key m.table.props key)
      → Written m key value (extended out)
  extended-Written out added absent = record {
    valid = added.valid;
    same_props = refl;
    values = inr (get-absent m key v absent, refl);
    wide = added.wide;
    reads = extended-reads out added absent;
  }

  -- The entries after a new key that no entry has.
  module _ (i : ℕ) (free : get_or m.table.entries i none ≡ none)
      (p : Placed m.table.entries (digest m.table.props (kept_key m.table.props key)) i)
      (lt : i < length m.table.entries)
      (absent : (e : Entry)
        → Present m.table.entries e
        → key_in m.table.keybuf m.keys e ≢ kept_key m.table.props key) where
    Good-new :
        Good hash_of
          (digest m.table.props)
          (key_in hashed.keybuf (m.keys ++ hashed.key_temp))
          (set m.table.entries i (some new_entry))
    Good-new =
        let keys = m.keys ++ hashed.key_temp in
        let before =
          Good-rekey hash_of (digest m.table.props) (key_in m.table.keybuf m.keys)
            (key_in hashed.keybuf keys) m.table.entries (λ j e u. kept_keys e (j, u)) v.good in
        let there : Placed m.table.entries hashed.hash i =
          subst (λ h. Placed m.table.entries h i) (sym l.hashes) p in
        Good-set hash_of (digest m.table.props) (key_in hashed.keybuf keys) m.table.entries i
          new_entry before lt free there (l.hashes ∙ ap (digest m.table.props) (sym its_key))
          (λ j f u eq. absent f (j, u) (sym (kept_keys f (j, u)) ∙ eq ∙ its_key))

    Added-valid :
        (out : List (Option Entry))
        → Grown
            (digest m.table.props)
            (key_in hashed.keybuf (m.keys ++ hashed.key_temp))
            (set m.table.entries i (some new_entry))
            (length (m.table.values ++ (value ∷ [])))
            out
        → Added out
    Added-valid out g =
        let es = set m.table.entries i (some new_entry) in
        let size = length (m.table.values ++ (value ∷ [])) in
        let now : size ≡ suc (length m.table.values) =
          omega (arith, length-append m.table.values (value ∷ [])) in
        let split : (e : Entry) → Present out e → (new_entry ≡ e) ⊎ Present m.table.entries e =
          λ e q. (Present-set m.table.entries i new_entry e lt free).0 ((g.members e).0 q) in
        record {
          valid = record {
            good = g.good;
            inkeys = λ e q. elim (split e q) [
              | inl is ↦
                  subst (λ (x : Entry). x.key_idx + x.key_len ≤ length (m.keys ++ hashed.key_temp))
                    is (omega (arith, length-append m.keys hashed.key_temp))
              | inr was ↦ omega (arith, v.inkeys e was, length-append m.keys hashed.key_temp)
            ];
            inbuf =
                AllInbuf-append hashed.keybuf m.keys hashed.key_temp
                  (subst (λ b. AllInbuf b m.keys) (sym l.buf)
                    (AllInbuf-append_buf m.table.keybuf l.tail m.keys v.inbuf))
                  l.inbuf;
            room = g.room;
            sized = omega (arith, g.total, v.sized, count-set m.table.entries i new_entry lt free);
            vals = λ e q. elim (split e q) [
              | inl is ↦ omega (arith, ap (λ (x : Entry). x.val_idx) is)
              | inr was ↦ omega (arith, v.vals e was)
            ];
            apart = λ e f q r eq. elim (split e q) [
              | inl is ↦ elim (split f r) [
                | inl is' ↦ sym is ∙ is'
                | inr was ↦ absurd (omega (arith, ap (λ (x : Entry). x.val_idx) is, v.vals f was))
              ]
              | inr was ↦ elim (split f r) [
                | inl is ↦ absurd (omega (arith, ap (λ (x : Entry). x.val_idx) is, v.vals e was))
                | inr was' ↦ v.apart e f was was' eq
              ]
            ];
          };
          members = λ e. (
            split e,
            λ q. (g.members e).1 ((Present-set m.table.entries i new_entry e lt free).1 q),
          );
          wide = λ b le more.
              g.wide b (omega (arith, length-set m.table.entries i (some new_entry))) (omega arith);
        }

    pub composite_new-Added :
        length m.table.entries < 2 ^ 63
        → (out : List (Option Entry)) × (composite_new m hashed i value ≡ some (extended out))
          × Added out
    unfolding composite_new
    composite_new-Added small =
        let one_more = count-set m.table.entries i new_entry lt free in
        let wide = length-set m.table.entries i (some new_entry) in
        let size = length (m.table.values ++ (value ∷ [])) in
        let now : size ≡ suc (length m.table.values) =
          omega (arith, length-append m.table.values (value ∷ [])) in
        let (out, grows, g) =
          grown-Grown (digest m.table.props) (key_in hashed.keybuf (m.keys ++ hashed.key_temp))
            (set m.table.entries i (some new_entry)) size Good-new (omega (arith, v.sized))
            (omega (arith, v.room)) (omega arith) (omega arith) in
        (out, rw grows refl, Added-valid out g)
