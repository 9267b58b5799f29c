-- ===== src/Hash/Composite/Lookup.antt =====
-- The composite map of util/hashmap.c in order, what `_composite_get_entry` finds in it, and what
-- `compositemap_get` reads.
use fql.Prelude.{
  ℕ, ◌+◌, ◌*◌, ◌<◌, ◌≤◌, true, none, some, List, [], ◌∷◌, ◌++◌, ◌≡◌, refl, ◌∙◌, sym, ap, ◌≢◌, ◌⊎◌,
  inl, inr, ◌==◌, if◌then◌else◌, length, get_or, get_elem?, set, map, drop, read_at, arith,
  Bool-cases,
}
use fql.Text.{Text}
use fql.Text.Segments.{length-read_at}
use fql.Hash.{Entry, Props, probe, home}
use fql.Hash.Probe.{count}
use fql.Hash.Keys.{Present, Good}
use fql.Hash.Digest.{kept}
use fql.Hash.Table.{hash_of, Lookup, there, nowhere, probe-Lookup}
use fql.Hash.Composite.{
  Keyloc, CompositeMap, Hashed, same_locs, is_composite, composite_entry, hash_key_views,
  compositemap_get,
}
use fql.Hash.Composite.Keylocs.{
  located, AllInbuf, digest, length-located, located-append, AllInbuf-append_buf, AllInbuf-take,
  AllInbuf-drop, Located, hash_views-Located, same_locs-located, located-same_locs, same_key,
}

-- What is kept of a key, and the key of an entry.
abbrev pub kept_key : Props → List Text → List Text
kept_key props key = map (kept props) key

abbrev pub key_in : Text → List Keyloc → Entry → List Text
key_in keybuf keys e = located keybuf (read_at keys e.key_idx e.key_len)

-- Each entry is in its place, has a key of its own and a value of its own; its key lies in the
-- locations, and these in the buffer; and an entry is free.
pub record IsValid {ℓ} {A : Type ℓ} (m : CompositeMap A) : Type ℓ where
  pub good : Good hash_of (digest m.table.props) (key_in m.table.keybuf m.keys) m.table.entries
  pub inkeys : (e : Entry) → Present m.table.entries e → e.key_idx + e.key_len ≤ length m.keys
  pub inbuf : AllInbuf m.table.keybuf m.keys
  pub room : count m.table.entries < length m.table.entries
  pub sized : count m.table.entries ≤ length m.table.values
  pub vals : (e : Entry) → Present m.table.entries e → e.val_idx < length m.table.values
  pub apart :
      (e f : Entry)
      → Present m.table.entries e
      → Present m.table.entries f
      → e.val_idx ≡ f.val_idx
      → e ≡ f

module _ {ℓ} {A : Type ℓ} (m : CompositeMap A) where
  module _ (out : Hashed) (key : List Text) (l : Located m.table.props m.table.keybuf 0 1 key out)
      (v : IsValid m) where
    AllInbuf-entry : (e : Entry) → AllInbuf m.table.keybuf (read_at m.keys e.key_idx e.key_len)
    AllInbuf-entry e =
        AllInbuf-take m.table.keybuf e.key_len (drop e.key_idx m.keys)
          (AllInbuf-drop m.table.keybuf e.key_idx m.keys v.inbuf)

    located-entry :
        (e : Entry)
        → located out.keybuf (read_at m.keys e.key_idx e.key_len) ≡ key_in m.table.keybuf m.keys e
    located-entry e =
        ap (λ b. located b (read_at m.keys e.key_idx e.key_len)) l.buf
        ∙ located-append m.table.keybuf l.tail (read_at m.keys e.key_idx e.key_len)
            (AllInbuf-entry e)

    is_composite-key :
        (e : Entry)
        → Present m.table.entries e
        → is_composite out.keybuf m.keys out.key_temp out.hash e ≡ true
        → key_in m.table.keybuf m.keys e ≡ kept_key m.table.props key
    is_composite-key e q is = elim (Bool-cases (e.key_len == length out.key_temp)) [
      | inl len ↦ elim (Bool-cases (e.hash == out.hash)) [
        | inl same ↦
            let long : e.key_len ≡ length out.key_temp = ground arith in
            let locs : same_locs out.keybuf (read_at m.keys e.key_idx e.key_len) out.key_temp
                ≡ true =
              rw (len, same) at is in
            let wide = length-read_at m.keys e.key_idx e.key_len (v.inkeys e q) in
            sym (located-entry e)
            ∙ same_locs-located out.keybuf (read_at m.keys e.key_idx e.key_len) out.key_temp
                (wide ∙ long) locs
            ∙ l.key
        | inr other ↦ absurd (ground arith)
      ]
      | inr other ↦ absurd (ground arith)
    ]

    key-is_composite :
        (e : Entry)
        → Present m.table.entries e
        → key_in m.table.keybuf m.keys e ≡ kept_key m.table.props key
        → e.hash ≡ digest m.table.props (kept_key m.table.props key)
        → is_composite out.keybuf m.keys out.key_temp out.hash e ≡ true
    key-is_composite e q is h =
        let locs = read_at m.keys e.key_idx e.key_len in
        let both : located out.keybuf locs ≡ located out.keybuf out.key_temp =
          located-entry e ∙ is ∙ sym l.key in
        let long : e.key_len ≡ length out.key_temp =
          sym (length-read_at m.keys e.key_idx e.key_len (v.inkeys e q))
          ∙ sym (length-located out.keybuf locs)
          ∙ ap length both
          ∙ length-located out.keybuf out.key_temp in
        let len : e.key_len == length out.key_temp ≡ true = ground arith in
        let hash : e.hash ≡ out.hash = h ∙ sym l.hashes in
        let same : e.hash == out.hash ≡ true = ground arith in
        let within : AllInbuf out.keybuf locs =
          rw l.buf (AllInbuf-append_buf m.table.keybuf l.tail locs (AllInbuf-entry e)) in
        rw (len, same) (located-same_locs out.keybuf locs out.key_temp within l.inbuf both)

    pub composite_entry-Lookup :
        (i : ℕ) × (composite_entry m out ≡ some i)
        × Lookup
            (key_in m.table.keybuf m.keys)
            m.table.entries
            (kept_key m.table.props key)
            (digest m.table.props (kept_key m.table.props key))
            i
    unfolding composite_entry
    composite_entry-Lookup =
        let same = is_composite out.keybuf m.keys out.key_temp out.hash in
        let es = m.table.entries in
        let (i, runs, found) =
          probe-Lookup (digest m.table.props) (key_in m.table.keybuf m.keys) es
            (kept_key m.table.props key) same v.good v.room is_composite-key key-is_composite in
        (i, ap (λ h. probe same es (length es) (home (length es) h)) l.hashes ∙ runs, found)

  -- The key is looked for in the buffer that its own bytes stand behind.
  pub composite_entry_key :
      (key : List Text)
      → IsValid m
      → (i : ℕ) × (composite_entry m (hash_key_views m key) ≡ some i)
        × Lookup
            (key_in m.table.keybuf m.keys)
            m.table.entries
            (kept_key m.table.props key)
            (digest m.table.props (kept_key m.table.props key))
            i
  unfolding hash_key_views
  composite_entry_key key v =
      composite_entry-Lookup (hash_key_views m key) key
        (hash_views-Located m.table.props m.table.keybuf 0 1 key) v

  pub get-Present :
      (key : List Text) (e : Entry)
      → IsValid m
      → Present m.table.entries e
      → key_in m.table.keybuf m.keys e ≡ kept_key m.table.props key
      → compositemap_get m key ≡ some (get_elem? m.table.values e.val_idx)
  unfolding compositemap_get
  get-Present key e v (j, used) is =
      let (i, runs, found) = composite_entry_key key v in
      elim found [
        | there f used' is' ↦
            let at : j ≡ i = v.good.once j i e f used used' (is ∙ sym is') in
            let same : some f ≡ some e =
              sym used' ∙ ap (λ n. get_or m.table.entries n none) (sym at) ∙ used in
            rw (runs, used') (cc)
        | nowhere free p absent ↦ absurd (absent e (j, used) is)
      ]

  pub get-absent :
      (key : List Text)
      → IsValid m
      → ((e : Entry)
          → Present m.table.entries e
          → key_in m.table.keybuf m.keys e ≢ kept_key m.table.props key)
      → compositemap_get m key ≡ some none
  unfolding compositemap_get
  get-absent key v absent =
      let (i, runs, found) = composite_entry_key key v in
      elim found [
        | there f used is ↦ absurd (absent f (i, used) is)
        | nowhere free p none_has ↦ rw (runs, free) refl
      ]

  -- An entry has the key, or none.
  pub has_key :
      (key : List Text)
      → IsValid m
      → ((e : Entry) × Present m.table.entries e
          × (key_in m.table.keybuf m.keys e ≡ kept_key m.table.props key))
        ⊎ ((e : Entry)
            → Present m.table.entries e
            → key_in m.table.keybuf m.keys e ≢ kept_key m.table.props key)
  has_key key v =
      let (i, runs, found) = composite_entry_key key v in
      elim found [ there f used is ↦ inl (f, (i, used), is) | nowhere free p absent ↦ inr absent ]

-- The map after a write, against the one before.
pub record Written {ℓ} {A : Type ℓ} (m : CompositeMap A) (key : List Text) (value : A)
    (m' : CompositeMap A) : Type ℓ where
  pub valid : IsValid m'
  pub same_props : m'.table.props ≡ m.table.props
  pub values :
      ((i : ℕ) × (compositemap_get m key ≡ some (get_elem? m.table.values i))
        × (i < length m.table.values)
        × (m'.table.values ≡ set m.table.values i value))
      ⊎ ((compositemap_get m key ≡ some none) × (m'.table.values ≡ m.table.values ++ (value ∷ [])))
  pub wide :
      (b : ℕ)
      → length m.table.entries ≤ b
      → 3 * length m.table.values + 4 ≤ b
      → length m'.table.entries ≤ b
  pub reads :
      (key' : List Text)
      → compositemap_get m' key' ≡ (
          if same_key (kept_key m.table.props key) (kept_key m.table.props key')
          then some (some value)
          else compositemap_get m key')
