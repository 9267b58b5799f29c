-- ===== src/Hash/Tests.antt =====
-- Tables of four entries, and runs of util/hashmap.c on them.
use fql.Prelude.{
  ℕ, ◌<◌, ◌≤◌, true, false, Option, none, some, List, [], ◌∷◌, ◌++◌, ◌≡◌, refl, ◌∙◌, sym, ◌⊎◌,
  replicate, arith,
}
use mathlib.Core.Path.{subst}
use fql.Status.{◌>>=◌}
use fql.Text.{tolower}
use fql.Hash.{
  Entry, Props, HashMap, next_power_of_2, get_hash, hash_byte, fnv1_init, probe, home,
  set_construct, add_new, hashmap_nset, hashmap_nget, set_nhas, set_clear, multimap_nset,
}
use fql.Hash.Probe.{Stop, probe-Stop, get_or-replicate}
use fql.Hash.Digest.{hash_key, kept, get_hash-kept, next_power_of_2-bounds}
use fql.Hash.Table.{Table, key_at, Good-free}
use fql.Hash.Map.{IsValid, Written}
use fql.Hash.Map.Write.{nset_all, latest, hashmap_nset-Written, construct-latest}
use fql.Hash.HashSet.{IsTable, Inserted, set_nadd-Inserted, set_clear-nhas}
use fql.Hash.Multimap.{or_empty, multimap_nset-Written}

abbrev folded : Props
folded = record { nocase = true; rtrim = true }

abbrev plain : Props
plain = record { nocase = false; rtrim = false }

-- The published FNV-1 hash of "a".
hash_a : hash_byte fnv1_init b'a' ≡ 12638153115695167422
hash_a = refl

kept_run : kept folded (b'A' ∷ b'b' ∷ b' ' ∷ []) ≡ b'a' ∷ b'b' ∷ []
unfolding tolower
kept_run = refl

-- Keys of blanks alone keep all of them, so two of different lengths are different keys.
kept_blanks : kept folded (b' ' ∷ b' ' ∷ []) ≡ b' ' ∷ b' ' ∷ []
unfolding tolower
kept_blanks = refl

next_power_run : next_power_of_2 5 ≡ some 8
unfolding next_power_of_2
next_power_run = refl

abbrev empty_map : (A : Type 0) → Props → HashMap A
empty_map A props = record { values = []; entries = replicate 4 none; keybuf = []; props = props }

empty-Table : (props : Props) → Table props [] (replicate 4 none) 0
empty-Table props = record {
  good = Good-free (hash_key props) (key_at []) 4;
  inbuf = λ e (i, used). absurd (let free = get_or-replicate {E = Entry} 4 i in cc);
  room = omega arith;
  sized = omega arith;
}

empty_map-IsValid : (A : Type 0) (props : Props) → IsValid (empty_map A props)
empty_map-IsValid A props = record {
  table = empty-Table props;
  vals = λ e (i, used). absurd (let free = get_or-replicate {E = Entry} 4 i in cc);
  apart = λ e f (i, used). absurd (let free = get_or-replicate {E = Entry} 4 i in cc);
}

-- "A " and "a" are one key, so that the second write replaces the first.
write_twice :
    ((nset_all (empty_map ℕ folded) ((b'A' ∷ b' ' ∷ [], 1) ∷ (b'a' ∷ [], 2) ∷ [])) >>= λ m.
    hashmap_nget m (b'a' ∷ []))
    ≡ some (some 2)
unfolding hashmap_nset hashmap_nget add_new get_hash probe tolower
write_twice = refl

-- The map after one write, and a set likewise.
abbrev one_entry : List (Option Entry)
one_entry =
    none
    ∷ none
    ∷ some (record { val_idx = 0; key_idx = 0; key_len = 1; hash = 12638153115695167422 })
    ∷ none
    ∷ []

abbrev one_map : HashMap ℕ
one_map = record { values = 1 ∷ []; entries = one_entry; keybuf = b'a' ∷ []; props = folded }

one_map_run : hashmap_nset (empty_map ℕ folded) (b'A' ∷ []) 1 ≡ some one_map
unfolding hashmap_nset add_new get_hash probe tolower
one_map_run = refl

one_map-IsValid : IsValid one_map
one_map-IsValid =
    let (m, runs, w) =
      hashmap_nset-Written (empty_map ℕ folded) (b'A' ∷ []) 1 (empty_map-IsValid ℕ folded)
        (omega arith) in
    let same : some m ≡ some one_map = sym runs ∙ one_map_run in subst IsValid (cc) w.valid

abbrev one_set : HashMap (Unit {0})
one_set = record { values = tt ∷ []; entries = one_entry; keybuf = b'a' ∷ []; props = folded }

one_set-IsTable : IsTable one_set
one_set-IsTable = one_map-IsValid.table

abbrev lists_map : HashMap (List ℕ)
lists_map = record {
  values = (1 ∷ []) ∷ [];
  entries = one_entry;
  keybuf = b'a' ∷ [];
  props = folded;
}

lists_map-IsValid : IsValid lists_map
lists_map-IsValid = record {
  table = one_map-IsValid.table;
  vals = one_map-IsValid.vals;
  apart = one_map-IsValid.apart;
}

construct-latest_example :
    (m : HashMap ℕ) × ((set_construct 3 folded >>= λ start.
    nset_all start ((b'A' ∷ b' ' ∷ [], 1) ∷ (b'b' ∷ [], 5) ∷ (b'a' ∷ [], 2) ∷ []))
      ≡ some m)
    × IsValid m
    × (hashmap_nget m (b'A' ∷ [])
        ≡ some (
            latest folded
              ((b'A' ∷ b' ' ∷ [], 1) ∷ (b'b' ∷ [], 5) ∷ (b'a' ∷ [], 2) ∷ [])
              (b'A' ∷ [])
              none))
construct-latest_example =
    construct-latest 3 folded ((b'A' ∷ b' ' ∷ [], 1) ∷ (b'b' ∷ [], 5) ∷ (b'a' ∷ [], 2) ∷ [])
      (b'A' ∷ []) (omega arith) (omega arith)

hashmap_nset-Written_example :
    (m' : HashMap ℕ) × (hashmap_nset one_map (b'b' ∷ []) 7 ≡ some m')
    × Written one_map (b'b' ∷ []) 7 m'
hashmap_nset-Written_example =
    hashmap_nset-Written one_map (b'b' ∷ []) 7 one_map-IsValid (omega arith)

set_nadd-Inserted_example : (s' : HashMap (Unit {0})) × Inserted one_set (b'b' ∷ []) s'
set_nadd-Inserted_example = set_nadd-Inserted one_set (b'b' ∷ []) one_set-IsTable (omega arith)

set_clear-nhas_example :
    IsTable (set_clear one_set) × (set_nhas (set_clear one_set) (b'a' ∷ []) ≡ some false)
set_clear-nhas_example = set_clear-nhas one_set (b'a' ∷ []) one_set-IsTable

multimap_nset-Written_example :
    (old : Option (List ℕ)) × (m' : HashMap (List ℕ)) × (hashmap_nget lists_map (b'a' ∷ [])
      ≡ some old)
    × (multimap_nset lists_map (b'a' ∷ []) 2 ≡ some m')
    × Written lists_map (b'a' ∷ []) (or_empty old ++ (2 ∷ [])) m'
multimap_nset-Written_example =
    multimap_nset-Written lists_map (b'a' ∷ []) 2 lists_map-IsValid (omega arith)

probe-Stop_example :
    (i : ℕ) × (probe (λ (e : Entry). false) one_entry 4 (home 4 2) ≡ some i)
    × Stop (λ (e : Entry). false) one_entry 2 i
probe-Stop_example = probe-Stop (λ e. false) one_entry 2 (omega arith)

get_hash-kept_example :
    get_hash folded (b'A' ∷ b' ' ∷ [])
    ≡ (kept folded (b'A' ∷ b' ' ∷ []), hash_key folded (kept folded (b'A' ∷ b' ' ∷ [])))
get_hash-kept_example = get_hash-kept folded (b'A' ∷ b' ' ∷ [])

power_for_5 : (p : ℕ) × (next_power_of_2 5 ≡ some p) × (5 ≤ p) × ((p ≡ 1) ⊎ (p < 10))
power_for_5 = next_power_of_2-bounds 5 (omega arith)
