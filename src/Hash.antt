-- ===== src/Hash.antt =====
-- util/hashmap.c: open addressing with linear probing, and what stands on it: a set, a map and a
-- multimap; Composite is the map whose keys are lists of views. The capacity of the key buffer is not
-- modelled: the list `keybuf` holds the bytes below `_keybuf_head`. An `Option` that is `none` stands
-- for a loop that does not end.
pub mod Probe
pub mod Keys
pub mod Moving
pub mod Digest
pub mod Table
pub mod Insert
pub mod Map
pub mod HashSet
pub mod Multimap
pub mod Composite
mod Tests
use Prim.Native.Nat.{bit_and, bit_xor}
use fql.Prelude.{
  ℕ, zero, suc, ◌+◌, ◌-◌, ◌*◌, ◌%◌, ◌^◌, Bool, true, false, ◌&&◌, Option, none, some, List, [], ◌∷◌,
  ◌++◌, map, ltb, leb, ◌==◌, if◌then◌else◌, length, get_or, get_elem?, set, take, drop, replicate,
  read_at,
}
use fql.Status.{◌>>=◌}
use fql.Text.{Text, tolower}

-- `struct hm_entry` in use: a free one has `val_idx` _NONE.
pub record Entry : Type 0 where
  pub val_idx : ℕ
  pub key_idx : ℕ
  pub key_len : ℕ
  pub hash : ℕ

-- HASHMAP_PROP_NOCASE and HASHMAP_PROP_RTRIM.
pub record Props : Type 0 where
  pub nocase : Bool
  pub rtrim : Bool

-- `struct hashmap`; `_limit` is the length of `entries`.
pub record HashMap {ℓ} (A : Type ℓ) : Type ℓ where
  pub values : List A
  pub entries : List (Option Entry)
  pub keybuf : Text
  pub props : Props

-- `_next_power_of_2` from `value` on, with fuel for the doublings.
next_power_loop : ℕ → ℕ → ℕ → Option ℕ
next_power_loop zero value n = none
next_power_loop (suc fuel) value n =
    let rest = next_power_loop fuel (value * 2) n in if ltb value n then rest else some value

unfoldable pub next_power_of_2 : ℕ → Option ℕ
unfolding next_power_loop
next_power_of_2 n = next_power_loop 64 1 n

-- One round of FNV-1 on a char, whose sign is extended.
abbrev pub hash_byte : ℕ → ℕ → ℕ
hash_byte hash c =
    bit_xor ((hash * 1099511628211) % 2 ^ 64) (if ltb c 128 then c else c + (2 ^ 64 - 256))

abbrev pub fnv1_init : ℕ
fnv1_init = 14695981039346656037

abbrev pub fold_case : Props → ℕ → ℕ
fold_case props c = if props.nocase then tolower c else c

-- `_hash` and `_hash_nocase` on the bytes that they write.
hash_all : ℕ → Text → ℕ
hash_all hash [] = hash
hash_all hash (c ∷ cs) = hash_all (hash_byte hash c) cs

-- `_hash_rtrim` and `_hash_nocase_rtrim`: the length and the hash up to the last byte that is no blank.
hash_trim : (hash i last_n last_hash : ℕ) → Text → ℕ × ℕ
hash_trim hash i last_n last_hash [] = (last_n, last_hash)
hash_trim hash i last_n last_hash (c ∷ cs) =
    let next = hash_byte hash c in
    hash_trim next (i + 1) (if c == b' ' then last_n else i + 1)
      (if c == b' ' then last_hash else next) cs

-- `get_hash__`: the bytes of the key that are left, and its hash.
unfoldable pub get_hash : Props → Text → Text × ℕ
unfolding hash_all hash_trim
get_hash props key =
    let written = map (fold_case props) key in
    if props.rtrim
    then (let (n, hash) = hash_trim fnv1_init 0 (length key) fnv1_init written in
        (take n written, hash))
    else (written, hash_all fnv1_init written)

-- What is done at a free entry, and at one in use.
abbrev pub at_entry {ℓ} : {E : Type 0} {B : Type ℓ} → Option E → B → (E → B) → B
at_entry none free used = free
at_entry (some e) free used = used e

-- The loop over the entries from `idx` on, until one is free or is the one looked for.
pub probe : {E : Type 0} → (E → Bool) → List (Option E) → ℕ → ℕ → Option ℕ
probe same es zero idx = none
probe same es (suc fuel) idx =
    let rest = probe same es fuel ((idx + 1) % length es) in
    at_entry (get_or es idx none) (some idx) (λ e. if same e then some idx else rest)

-- `hash & (_limit - 1)`
abbrev pub home : ℕ → ℕ → ℕ
home limit hash = bit_and hash (limit - 1)

-- `memcmp(...) == 0` on two keys of the same length.
abbrev pub same_bytes : Text → Text → Bool
same_bytes [] [] = true
same_bytes [] (y ∷ ys) = false
same_bytes (x ∷ xs) [] = false
same_bytes (x ∷ xs) (y ∷ ys) = x == y && same_bytes xs ys

abbrev pub is_entry : Text → Text → ℕ → Entry → Bool
is_entry keybuf key hash e =
    e.key_len == length key
    && e.hash == hash
    && same_bytes (read_at keybuf e.key_idx (length key)) key

-- `_get_entry` for a key that has been hashed: the index of its entry or of the free one for it.
abbrev pub get_entry {ℓ} : {A : Type ℓ} → HashMap A → Text → ℕ → Option ℕ
unfolding probe
get_entry self key hash =
    probe (is_entry self.keybuf key hash) self.entries (length self.entries)
      (home (length self.entries) hash)

-- The loop of `_increase_size`: each entry in use goes to the first free place from its own on.
pub rehash : {E : Type 0} → (E → ℕ) → List (Option E) → List (Option E) → Option (List (Option E))
unfolding probe
rehash hash_of [] dest = some dest
rehash hash_of (none ∷ src) dest = rehash hash_of src dest
rehash hash_of (some e ∷ src) dest =
    probe (λ other. false) dest (length dest) (home (length dest) (hash_of e)) >>= λ idx.
    rehash hash_of src (set dest idx (some e))

unfoldable pub increase_size : List (Option Entry) → Option (List (Option Entry))
unfolding rehash
increase_size entries = next_power_of_2 (length entries + 1) >>= λ limit.
    rehash (λ e. e.hash) entries (replicate limit none)

-- `size > _FULL_PERCENT * _limit` with .9; no multiple of a tenth of a power of two is a whole number.
abbrev pub too_full : ℕ → ℕ → Bool
too_full size limit = ltb (9 * limit) (10 * size)

abbrev pub grown : ℕ → List (Option Entry) → Option (List (Option Entry))
grown size entries = if too_full size (length entries) then increase_size entries else some entries

unfoldable pub set_construct {ℓ} : {A : Type ℓ} → ℕ → Props → Option (HashMap A)
set_construct limit props = next_power_of_2 limit >>= λ n.
    some (record { values = []; entries = replicate n none; keybuf = []; props = props })

-- A new value at the free entry `idx`, which refers to it by `val_idx`.
unfoldable pub add_new {ℓ} : {A : Type ℓ} → HashMap A → Text → ℕ → ℕ → ℕ → A → Option (HashMap A)
add_new self key hash idx val_idx value =
    let entry : Entry = record {
      val_idx = val_idx;
      key_idx = length self.keybuf;
      key_len = length key;
      hash = hash;
    } in
    let values = self.values ++ (value ∷ []) in
    grown (length values) (set self.entries idx (some entry)) >>= λ entries.
    some (record self { values = values; entries = entries; keybuf = self.keybuf ++ key })

-- `hashmap_nset`
unfoldable pub hashmap_nset {ℓ} : {A : Type ℓ} → HashMap A → Text → A → Option (HashMap A)
hashmap_nset self key value =
    let (k, hash) = get_hash self.props key in
    get_entry self k hash >>= λ idx.
    at_entry (get_or self.entries idx none) (add_new self k hash idx (length self.values) value)
      (λ e. some (record self { values = set self.values e.val_idx value }))

-- `hashmap_nget`; the outer `none` is a loop that does not end, the inner one NULL.
unfoldable pub hashmap_nget {ℓ} : {A : Type ℓ} → HashMap A → Text → Option (Option A)
hashmap_nget self key =
    let (k, hash) = get_hash self.props key in
    get_entry self k hash >>= λ idx.
    some (at_entry (get_or self.entries idx none) none (λ e. get_elem? self.values e.val_idx))

-- A set counts its elements where a map has its values, so the model keeps a list of nothing there;
-- every `val_idx` is 0.
unfoldable pub set_nadd : HashMap (Unit {0}) → Text → Option (HashMap (Unit {0}))
set_nadd self key =
    let (k, hash) = get_hash self.props key in
    get_entry self k hash >>= λ idx.
    at_entry (get_or self.entries idx none) (add_new self k hash idx 0 tt) (λ e. some self)

unfoldable pub set_nhas : HashMap (Unit {0}) → Text → Option Bool
set_nhas self key =
    let (k, hash) = get_hash self.props key in
    get_entry self k hash >>= λ idx.
    some (at_entry (get_or self.entries idx none) false (λ e. true))

-- The count of a set is not reset.
unfoldable pub set_clear : HashMap (Unit {0}) → HashMap (Unit {0})
set_clear self = record self { entries = replicate (length self.entries) none; keybuf = [] }

unfoldable pub hashmap_clear {ℓ} : {A : Type ℓ} → HashMap A → HashMap A
hashmap_clear self = record self {
  values = [];
  entries = replicate (length self.entries) none;
  keybuf = [];
}

-- `multimap_nset`: the values of a key come one after another.
unfoldable pub multimap_nset :
    {A : Type 0} → HashMap (List A) → Text → A → Option (HashMap (List A))
multimap_nset self key value =
    let (k, hash) = get_hash self.props key in
    get_entry self k hash >>= λ idx.
    at_entry (get_or self.entries idx none)
      (add_new self k hash idx (length self.values) (value ∷ []))
      (λ e.
        let old = get_or self.values e.val_idx [] in
        some (record self { values = set self.values e.val_idx (old ++ (value ∷ [])) }))

-- The vector of each key is freed.
unfoldable pub multimap_clear : {A : Type 0} → HashMap (List A) → HashMap (List A)
multimap_clear self = record self {
  values = [];
  entries = replicate (length self.entries) none;
  keybuf = [];
}
