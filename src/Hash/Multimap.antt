-- ===== src/Hash/Multimap.antt =====
-- The multimap of util/hashmap.c as a map to lists.
use fql.Prelude.{
  ℕ, zero, suc, ◌<◌, ◌^◌, Option, none, some, List, [], ◌∷◌, ◌++◌, ◌≡◌, refl, ◌∙◌, ap, length,
  get_or, get_elem?, set,
}
use fql.Text.{Text}
use fql.Hash.{HashMap, hashmap_nset, hashmap_nget, multimap_nset}
use fql.Hash.Digest.{kept, get_hash-kept}
use fql.Hash.Table.{there, nowhere, get_entry-Lookup}
use fql.Hash.Map.{IsValid, Written}
use fql.Hash.Map.Write.{hashmap_nset-Written}

abbrev pub or_empty : {A : Type 0} → Option (List A) → List A
or_empty none = []
or_empty (some xs) = xs

get_or-or_empty :
    {A : Type 0} (xs : List (List A)) (i : ℕ) → get_or xs i [] ≡ or_empty (get_elem? xs i)
get_or-or_empty [] i = refl
get_or-or_empty (x ∷ xs) zero = refl
get_or-or_empty (x ∷ xs) (suc i) = get_or-or_empty xs i

multimap_nset-hashmap_nset :
    {A : Type 0} (m : HashMap (List A)) (key : Text) (value : A)
    → IsValid m
    → (old : Option (List A)) × (hashmap_nget m key ≡ some old)
      × (multimap_nset m key value ≡ hashmap_nset m key (or_empty old ++ (value ∷ [])))
unfolding multimap_nset hashmap_nset hashmap_nget
multimap_nset-hashmap_nset m key value v =
    let k = kept m.props key in
    let (i, runs, found) = get_entry-Lookup m k v.table in
    elim found [
      | there e used is ↦ (
        get_elem? m.values e.val_idx,
        rw (get_hash-kept m.props key, runs, used) refl,
        rw (get_hash-kept m.props key, runs, used)
            (ap
              (λ (old : List _).
                some (record m { values = set m.values e.val_idx (old ++ (value ∷ [])) }))
              (get_or-or_empty m.values e.val_idx)),
      )
      | nowhere free p absent ↦ (
        none,
        rw (get_hash-kept m.props key, runs, free) refl,
        rw (get_hash-kept m.props key, runs, free) refl,
      )
    ]

-- Adding a value under a key of a multimap in order that has fewer than 2 ^ 63 entries is a write to
-- the map, of the values that are there with this one behind them: it ends and changes nothing under keys of which other bytes are
-- kept.
pub multimap_nset-Written :
    {A : Type 0} (m : HashMap (List A)) (key : Text) (value : A)
    → IsValid m
    → length m.entries < 2 ^ 63
    → (old : Option (List A)) × (m' : HashMap (List A)) × (hashmap_nget m key ≡ some old)
      × (multimap_nset m key value ≡ some m')
      × Written m key (or_empty old ++ (value ∷ [])) m'
multimap_nset-Written m key value v small =
    let (old, reads, same) = multimap_nset-hashmap_nset m key value v in
    let (m', runs, w) = hashmap_nset-Written m key (or_empty old ++ (value ∷ [])) v small in
    (old, m', reads, same ∙ runs, w)
