-- ===== src/Hash/HashSet.antt =====
-- The set of util/hashmap.c: `set_nadd`, `set_nhas` and `set_clear`.
use fql.Prelude.{
  ℕ, suc, ◌^◌, ◌<◌, true, false, Option, none, some, List, [], ◌∷◌, ◌++◌, ◌≡◌, refl, ◌∙◌, sym, ap,
  ◌≢◌, inl, inr, if◌then◌else◌, length, replicate, arith, Bool-cases, length-append,
  length-replicate,
}
use fql.Text.{Text}
use fql.Hash.{Entry, HashMap, same_bytes, set_nadd, set_nhas, set_clear}
use fql.Hash.Probe.{count, count-replicate, get_or-replicate, Placed-lt}
use fql.Hash.Keys.{Present}
use fql.Hash.Digest.{hash_key, kept, get_hash-kept}
use fql.Hash.Table.{
  key_at, Table, Good-free, there, nowhere, get_entry-Lookup, same_bytes-eq, same_bytes-ne,
}
use fql.Text.Segments.{read_at-append, read_at-end}
use fql.Hash.Insert.{new_entry, Added, add_new-Added}

abbrev pub IsTable : HashMap (Unit {0}) → Type 0
IsTable s = Table s.props s.keybuf s.entries (length s.values)

nhas-Present :
    (s : HashMap (Unit {0})) (key : Text) (e : Entry)
    → IsTable s
    → Present s.entries e
    → key_at s.keybuf e ≡ kept s.props key
    → set_nhas s key ≡ some true
unfolding set_nhas
nhas-Present s key e t here is =
    let k = kept s.props key in
    let (i, runs, found) = get_entry-Lookup s k t in
    elim found [
      | there f used is' ↦ rw (get_hash-kept s.props key, runs, used) refl
      | nowhere free p absent ↦ absurd (absent e here is)
    ]

nhas-absent :
    (s : HashMap (Unit {0})) (key : Text)
    → IsTable s
    → ((e : Entry) → Present s.entries e → key_at s.keybuf e ≢ kept s.props key)
    → set_nhas s key ≡ some false
unfolding set_nhas
nhas-absent s key t absent =
    let k = kept s.props key in
    let (i, runs, found) = get_entry-Lookup s k t in
    elim found [
      | there f used is ↦ absurd (absent f (i, used) is)
      | nowhere free p none_has ↦ rw (get_hash-kept s.props key, runs, free) refl
    ]

module _ (s : HashMap (Unit {0})) (key : Text) (i : ℕ) (out : List (Option Entry)) (t : IsTable s)
    (added : Added s (kept s.props key) i 0 tt out) where
  with_key : HashMap (Unit {0})
  with_key = record s {
    values = s.values ++ (tt ∷ []);
    entries = out;
    keybuf = s.keybuf ++ kept s.props key;
  }

  with_key-IsTable : IsTable with_key
  unfolding with_key
  with_key-IsTable =
      let longer : length (s.values ++ (tt ∷ [])) ≡ suc (length s.values) =
        omega (arith, length-append s.values (tt ∷ [])) in
      rw longer added.table

  with_key-nhas :
      (key' : Text)
      → set_nhas with_key key'
        ≡ (if same_bytes (kept s.props key) (kept s.props key') then some true else set_nhas s key')
  unfolding with_key
  with_key-nhas key' =
      let k = kept s.props key in
      let k' = kept s.props key' in
      let new = new_entry s.keybuf k (hash_key s.props k) 0 in
      let its_key = read_at-end s.keybuf k in
      let as_before : (e : Entry)
          → Present s.entries e
          → key_at (s.keybuf ++ k) e ≡ key_at s.keybuf e =
        λ e q. read_at-append s.keybuf k e.key_idx e.key_len (t.inbuf e q) in
      elim (Bool-cases (same_bytes k k')) [
        | inl same ↦ rw same (
            nhas-Present with_key key' new with_key-IsTable ((added.members new).1 (inl refl))
              (its_key ∙ same_bytes-eq k k' same))
        | inr other ↦
            let (j, runs, found) = get_entry-Lookup s k' t in
            elim found [
              | there f used is ↦ rw other (
                  nhas-Present with_key key' f with_key-IsTable
                    ((added.members f).1 (inr (j, used))) (as_before f (j, used) ∙ is)
                  ∙ sym (nhas-Present s key' f t (j, used) is))
              | nowhere free p absent ↦ rw other (
                  nhas-absent with_key key' with_key-IsTable (λ e q. elim ((added.members e).0 q) [
                    | inl is ↦ λ eq.
                        same_bytes-ne k k' other (sym its_key ∙ ap (key_at (s.keybuf ++ k)) is ∙ eq)
                    | inr was ↦ λ eq. absent e was (sym (as_before e was) ∙ eq)
                  ])
                  ∙ sym (nhas-absent s key' t absent))
            ]
      ]

-- What adding a key makes of a set.
pub record Inserted (s : HashMap (Unit {0})) (key : Text) (s' : HashMap (Unit {0})) : Type 0 where
  pub runs : set_nadd s key ≡ some s'
  pub table : IsTable s'
  pub reads :
      (key' : Text)
      → set_nhas s' key'
        ≡ (if same_bytes (kept s.props key) (kept s.props key') then some true else set_nhas s key')

-- Adding a key to a set in order that has fewer than 2 ^ 63 entries ends with a set in order, which has
-- that key, that is every key of which the same bytes are kept, and of the others those that it had.
pub set_nadd-Inserted :
    (s : HashMap (Unit {0})) (key : Text)
    → IsTable s
    → length s.entries < 2 ^ 63
    → (s' : HashMap (Unit {0})) × Inserted s key s'
unfolding set_nadd with_key
set_nadd-Inserted s key t small =
    let k = kept s.props key in
    let (i, runs, found) = get_entry-Lookup s k t in
    elim found [
      | there e used is ↦ (
        s,
        record {
          runs = rw (get_hash-kept s.props key, runs, used) refl;
          table = t;
          reads = λ key'. elim (Bool-cases (same_bytes k (kept s.props key'))) [
            | inl same ↦ rw same (nhas-Present s key' e t (i, used) (is ∙ same_bytes-eq k _ same))
            | inr other ↦ rw other refl
          ];
        },
      )
      | nowhere free p absent ↦
          let (out, added) =
            add_new-Added s k i 0 tt t free p (Placed-lt s.entries (hash_key s.props k) i p) absent
              small in
          (
            with_key s key i out t added,
            record {
              runs = rw (get_hash-kept s.props key, runs, free) added.runs;
              table = with_key-IsTable s key i out t added;
              reads = with_key-nhas s key i out t added;
            },
          )
    ]

-- A cleared set is in order and has no key, though its count stays.
pub set_clear-nhas :
    (s : HashMap (Unit {0})) (key : Text)
    → IsTable s
    → IsTable (set_clear s) × (set_nhas (set_clear s) key ≡ some false)
unfolding set_clear
set_clear-nhas s key t =
    let n = length s.entries in
    let wide : length {A = Option Entry} (replicate n none) ≡ n = length-replicate n none in
    let no_used : count {E = Entry} (replicate n none) ≡ 0 = count-replicate Entry n in
    let none_there : (e : Entry) → ¬ Present (replicate n none) e =
      λ e (i, used). let free = get_or-replicate {E = Entry} n i in cc in
    let t' : IsTable (set_clear s) = record {
      good = Good-free (hash_key s.props) (key_at []) n;
      inbuf = λ e q. absurd (none_there e q);
      room = let some_room = t.room in omega arith;
      sized = omega arith;
    } in
    (t', nhas-absent (set_clear s) key t' (λ e q. absurd (none_there e q)))
