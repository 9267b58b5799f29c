-- ===== src/Hash/Map/Write.antt =====
-- `hashmap_nset` in util/hashmap.c, once and many times from an empty map on.
use fql.Prelude.{
  ℕ, ◌+◌, ◌-◌, ◌^◌, ◌<◌, ◌≤◌, Option, none, some, List, [], ◌∷◌, ◌≡◌, refl, ◌∙◌, ap, inl, inr,
  if◌then◌else◌, length, replicate, arith, Bool-cases, length-replicate,
}
use fql.Status.{◌>>=◌}
use fql.Text.{Text}
use fql.Hash.{Entry, Props, HashMap, same_bytes, set_construct, hashmap_nset, hashmap_nget}
use fql.Hash.Probe.{count, count-replicate, get_or-replicate, Placed-lt}
use fql.Hash.Keys.{Present}
use fql.Hash.Digest.{hash_key, kept, get_hash-kept, next_power_of_2-bounds}
use fql.Hash.Table.{key_at, Good-free, there, nowhere, get_entry-Lookup}
use fql.Hash.Insert.{add_new-Added}
use fql.Hash.Map.{IsValid, nget-absent, Written}
use fql.Hash.Map.Update.{updated, updated-Written}
use fql.Hash.Map.Extend.{extended, extended-Written}

module _ {ℓ} {A : Type ℓ} where
  -- A write to a map in order that has fewer than 2 ^ 63 entries ends; the map is in order after it; the
  -- value is found under every key of which the same bytes are kept, and under all other keys what was
  -- there before.
  pub hashmap_nset-Written :
      (m : HashMap A) (key : Text) (value : A)
      → IsValid m
      → length m.entries < 2 ^ 63
      → (m' : HashMap A) × (hashmap_nset m key value ≡ some m') × Written m key value m'
  unfolding hashmap_nset updated extended
  hashmap_nset-Written m key value v small =
      let k = kept m.props key in
      let (i, runs, found) = get_entry-Lookup m k v.table in
      elim found [
        | there e used is ↦ (
          updated m key value e v (i, used) is,
          rw (get_hash-kept m.props key, runs, used) refl,
          updated-Written m key value e v (i, used) is,
        )
        | nowhere free p absent ↦
            let lt : i < length m.entries = Placed-lt m.entries (hash_key m.props k) i p in
            let (out, added) =
              add_new-Added m k i (length m.values) value v.table free p lt absent small in
            (
              extended m key value i out v added absent,
              rw (get_hash-kept m.props key, runs, free) added.runs,
              extended-Written m key value i out v added absent,
            )
      ]

-- The map that `hashmap_construct` makes is in order and empty.
pub construct-IsValid {ℓ} :
    (A : Type ℓ) (limit : ℕ) (props : Props)
    → limit ≤ 2 ^ 62
    → (m : HashMap A) × (set_construct limit props ≡ some m)
      × IsValid m
      × (m.props ≡ props)
      × (length m.values ≡ 0)
      × (length m.entries < 2 ^ 63)
      × ((key : Text) → hashmap_nget m key ≡ some none)
unfolding set_construct
construct-IsValid A limit props h =
    let (p, runs, le, less) = next_power_of_2-bounds limit (omega arith) in
    let some_room : (0 < p) × (p < 2 ^ 63) = (
      elim less [ inl one ↦ omega arith | inr lt ↦ omega arith ],
      elim less [ inl one ↦ omega arith | inr lt ↦ omega arith ],
    ) in
    let m : HashMap A = record {
      values = [];
      entries = replicate p none;
      keybuf = [];
      props = props;
    } in
    let none_there : (e : Entry) → ¬ Present m.entries e =
      λ e (i, used). let free = get_or-replicate {E = Entry} p i in cc in
    let wide : length m.entries ≡ p = length-replicate p none in
    let zero_used : count m.entries ≡ 0 = count-replicate Entry p in
    let v : IsValid m = record {
      table = record {
        good = Good-free (hash_key props) (key_at []) p;
        inbuf = λ e q. absurd (none_there e q);
        room = omega (arith, some_room.0);
        sized = omega arith;
      };
      vals = λ e q. absurd (none_there e q);
      apart = λ e f q. absurd (none_there e q);
    } in
    (
      m,
      rw runs refl,
      v,
      refl,
      refl,
      omega (arith, some_room.1),
      λ key. nget-absent m key v (λ e q. absurd (none_there e q)),
    )

-- A history of writes.
abbrev pub nset_all {ℓ} : {A : Type ℓ} → HashMap A → List (Text × A) → Option (HashMap A)
nset_all m [] = some m
nset_all m ((key, value) ∷ rest) = hashmap_nset m key value >>= λ m'. nset_all m' rest

-- What a history leaves under a key: the value of the last write to a key of which the same bytes are
-- kept.
abbrev pub latest {ℓ} : {A : Type ℓ} → Props → List (Text × A) → Text → Option A → Option A
latest props [] key old = old
latest props ((k, value) ∷ rest) key old =
    latest props rest key (if same_bytes (kept props k) (kept props key) then some value else old)

nset_all-latest {ℓ} :
    {A : Type ℓ} (ps : List (Text × A)) (m : HashMap A)
    → IsValid m
    → length m.entries < 2 ^ 63
    → length m.values + length ps < 2 ^ 60
    → (m' : HashMap A) × (nset_all m ps ≡ some m')
      × IsValid m'
      × ((key : Text) (old : Option A)
          → hashmap_nget m key ≡ some old
          → hashmap_nget m' key ≡ some (latest m.props ps key old))
nset_all-latest [] m v small few = (m, refl, v, λ key old h. h)
nset_all-latest ((k, value) ∷ rest) m v small few =
    let (m', runs, w) = hashmap_nset-Written m k value v small in
    let bound = w.wide (2 ^ 63 - 1) (omega arith) (omega arith) in
    let (m'', ends, v'', reads) =
      nset_all-latest rest m' w.valid (omega arith) (omega (arith, w.size)) in
    (
      m'',
      rw runs ends,
      v'',
      λ key old h. elim (Bool-cases (same_bytes (kept m.props k) (kept m.props key))) [
        | inl same ↦
            let now : hashmap_nget m' key ≡ some (some value) = w.reads key ∙ rw same refl in
            rw same (
              reads key (some value) now
              ∙ ap (λ q. some (latest q rest key (some value))) w.same_props)
        | inr other ↦
            let now : hashmap_nget m' key ≡ some old = w.reads key ∙ rw (other, h) refl in
            rw other (reads key old now ∙ ap (λ q. some (latest q rest key old)) w.same_props)
      ],
    )

-- A map that is constructed for up to 2 ^ 62 entries takes fewer than 2 ^ 60 writes one after another,
-- none of which fails to end; then a look-up of any key ends and finds the value of the last write
-- under a key of which the same bytes are kept, or nothing where there was none.
pub construct-latest {ℓ} :
    {A : Type ℓ} (limit : ℕ) (props : Props) (ps : List (Text × A)) (key : Text)
    → limit ≤ 2 ^ 62
    → length ps < 2 ^ 60
    → (m : HashMap A) × ((set_construct limit props >>= λ start. nset_all start ps) ≡ some m)
      × IsValid m
      × (hashmap_nget m key ≡ some (latest props ps key none))
construct-latest {A} limit props ps key le few =
    let (start, made, v, same, none_yet, small, empty) = construct-IsValid A limit props le in
    let (m, runs, v', reads) = nset_all-latest ps start v small (omega arith) in
    (m, rw made runs, v', reads key none (empty key) ∙ ap (λ q. some (latest q ps key none)) same)
