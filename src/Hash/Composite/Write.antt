-- ===== src/Hash/Composite/Write.antt =====
-- `compositemap_set` in util/hashmap.c, and the map that `compositemap_construct` makes.
use fql.Prelude.{
  ℕ, ◌^◌, ◌<◌, ◌≤◌, Option, none, some, List, [], ◌≡◌, refl, inl, inr, length, replicate, arith,
  length-replicate,
}
use fql.Text.{Text}
use fql.Hash.{Entry, Props, set_construct, hashmap_clear}
use fql.Hash.Probe.{count, count-replicate, get_or-replicate, Placed-lt}
use fql.Hash.Keys.{Present}
use fql.Hash.Digest.{next_power_of_2-bounds}
use fql.Hash.Table.{Good-free, there, nowhere}
use fql.Hash.Composite.{
  CompositeMap, hash_key_views, compositemap_construct, compositemap_clear, compositemap_set,
  compositemap_get,
}
use fql.Hash.Composite.Keylocs.{digest, hash_views-Located}
use fql.Hash.Composite.Lookup.{kept_key, key_in, IsValid, composite_entry_key, get-absent, Written}
use fql.Hash.Composite.Update.{updated, updated-Written}
use fql.Hash.Composite.Extend.{extended, extended-Written, composite_new-Added}

-- A write to a map in order whose table has fewer than 2 ^ 63 entries ends, and the map is in order
-- after it. The value is found under every key of as many views of which the same bytes are kept, and
-- under all other keys what was there before; the values are those before with this one in place of
-- the one of the key, or behind them where there was none.
pub compositemap_set-Written {ℓ} :
    {A : Type ℓ} (m : CompositeMap A) (key : List Text) (value : A)
    → IsValid m
    → length m.table.entries < 2 ^ 63
    → (m' : CompositeMap A) × (compositemap_set m key value ≡ some m') × Written m key value m'
unfolding compositemap_set updated hash_key_views
compositemap_set-Written m key value v small =
    let hashed = hash_key_views m key in
    let l = hash_views-Located m.table.props m.table.keybuf 0 1 key in
    let (i, runs, found) = composite_entry_key m key v in
    elim found [
      | there e used is ↦ (
        updated m key value e v (i, used) is,
        rw (runs, used) refl,
        updated-Written m key value e v (i, used) is,
      )
      | nowhere free p absent ↦
          let lt =
            Placed-lt m.table.entries (digest m.table.props (kept_key m.table.props key)) i p in
          let (out, adds, added) =
            composite_new-Added m key value hashed l v i free p lt absent small in
          (
            extended m key value hashed l v out,
            rw (runs, free) adds,
            extended-Written m key value hashed l v out added absent,
          )
    ]

-- The map that `compositemap_construct` makes is in order and empty.
pub construct_empty {ℓ} :
    (A : Type ℓ) (limit : ℕ) (props : Props)
    → limit ≤ 2 ^ 62
    → (m : CompositeMap A) × (compositemap_construct limit props ≡ some m)
      × IsValid m
      × (m.table.props ≡ props)
      × (m.table.values ≡ [])
      × (length m.table.entries < 2 ^ 63)
      × ((key : List Text) → compositemap_get m key ≡ some none)
unfolding compositemap_construct set_construct
construct_empty A limit props h =
    let (p, runs, le, less) = next_power_of_2-bounds limit (omega arith) in
    let some_room : (0 < p) × (p < 2 ^ 63) = (
      elim less [ inl one ↦ omega arith | inr lt ↦ omega arith ],
      elim less [ inl one ↦ omega arith | inr lt ↦ omega arith ],
    ) in
    let m : CompositeMap A = record {
      table = record { values = []; entries = replicate p none; keybuf = []; props = props };
      keys = [];
    } in
    let none_there : (e : Entry) → ¬ Present m.table.entries e =
      λ e (i, used). let free = get_or-replicate {E = Entry} p i in cc in
    let wide : length m.table.entries ≡ p = length-replicate p none in
    let zero_used : count m.table.entries ≡ 0 = count-replicate Entry p in
    let v : IsValid m = record {
      good = Good-free (digest props) (key_in [] []) p;
      inkeys = λ e q. absurd (none_there e q);
      inbuf = tt;
      room = omega (arith, some_room.0);
      sized = omega arith;
      vals = λ e q. absurd (none_there e q);
      apart = λ e f q. absurd (none_there e q);
    } in
    (
      m,
      rw runs refl,
      v,
      refl,
      refl,
      omega (arith, some_room.1),
      λ key. get-absent m key v (λ e q. absurd (none_there e q)),
    )

-- Clearing a map in order leaves one in order with no keys.
pub compositemap_clear_empty {ℓ} :
    {A : Type ℓ} (m : CompositeMap A)
    → IsValid m
    → IsValid (compositemap_clear m)
      × ((key : List Text) → compositemap_get (compositemap_clear m) key ≡ some none)
unfolding compositemap_clear hashmap_clear
compositemap_clear_empty {A} m v =
    let n = length m.table.entries in
    let none_there : (e : Entry) → ¬ Present (replicate n none) e =
      λ e (i, used). let free = get_or-replicate {E = Entry} n i in cc in
    let wide : length {A = Option Entry} (replicate n none) ≡ n = length-replicate n none in
    let zero_used : count {E = Entry} (replicate n none) ≡ 0 = count-replicate Entry n in
    let v' : IsValid (compositemap_clear m) = record {
      good = Good-free (digest m.table.props) (key_in [] []) n;
      inkeys = λ e q. absurd (none_there e q);
      inbuf = tt;
      room = omega (arith, v.room);
      sized = omega arith;
      vals = λ e q. absurd (none_there e q);
      apart = λ e f q. absurd (none_there e q);
    } in
    (v', λ key. get-absent (compositemap_clear m) key v' (λ e q. absurd (none_there e q)))
