-- ===== src/Hash/Composite.antt =====
-- The map of util/hashmap.c whose keys are lists of views. The bytes of a key stand in the key buffer
-- one view after another, and `_keys` says where each view begins and how long it is.
pub mod Keylocs
pub mod Lookup
pub mod Update
pub mod Extend
pub mod Write
mod Tests
use fql.Prelude.{
  ℕ, suc, ◌+◌, ◌*◌, ◌%◌, ◌^◌, Bool, true, false, ◌&&◌, Option, none, some, List, [], ◌∷◌, ◌++◌,
  ◌==◌, length, get_or, get_elem?, set, read_at, replicate,
}
use fql.Status.{◌>>=◌}
use fql.Text.{Text}
use fql.Hash.{
  Entry, Props, HashMap, get_hash, probe, home, same_bytes, at_entry, grown, set_construct,
  hashmap_clear,
}

-- `struct _keyloc`
pub record Keyloc : Type 0 where
  pub idx : ℕ
  pub len : ℕ

-- `struct hashmap` with its `_keys`; the key_idx and key_len of an entry are an index and a number of
-- these.
pub record CompositeMap {ℓ} (A : Type ℓ) : Type ℓ where
  pub table : HashMap A
  pub keys : List Keyloc

-- What the loop over the views of a key makes: the buffer with their bytes behind it, `_key_temp`,
-- and the hash, a product modulo 2 ^ 64 that the position of each view goes into.
pub record Hashed : Type 0 where
  pub keybuf : Text
  pub key_temp : List Keyloc
  pub hash : ℕ

pub hash_views : Props → Text → ℕ → ℕ → List Text → Hashed
hash_views props keybuf i hash [] = record { keybuf = keybuf; key_temp = []; hash = hash }
hash_views props keybuf i hash (view ∷ views) =
    let (k, h) = get_hash props view in
    let out : Hashed =
      hash_views props (keybuf ++ k) (suc i) ((hash * (suc i * h)) % 2 ^ 64) views in
    record out { key_temp = record { idx = length keybuf; len = length k } ∷ out.key_temp }

-- `_composite_eq`
abbrev pub same_locs : Text → List Keyloc → List Keyloc → Bool
same_locs keybuf [] temp = true
same_locs keybuf (a ∷ locs) [] = false
same_locs keybuf (a ∷ locs) (b ∷ temp) =
    a.len == b.len
    && same_bytes (read_at keybuf a.idx a.len) (read_at keybuf b.idx a.len)
    && same_locs keybuf locs temp

abbrev pub is_composite : Text → List Keyloc → List Keyloc → ℕ → Entry → Bool
is_composite keybuf keys temp hash e =
    e.key_len == length temp
    && e.hash == hash
    && same_locs keybuf (read_at keys e.key_idx e.key_len) temp

-- The loop of `_composite_get_entry` over the entries, when the key has been hashed.
abbrev pub composite_entry {ℓ} : {A : Type ℓ} → CompositeMap A → Hashed → Option ℕ
unfolding probe
composite_entry self hashed =
    let entries = self.table.entries in
    probe (is_composite hashed.keybuf self.keys hashed.key_temp hashed.hash) entries
      (length entries) (home (length entries) hashed.hash)

abbrev pub hash_key_views {ℓ} : {A : Type ℓ} → CompositeMap A → List Text → Hashed
unfolding hash_views
hash_key_views self key = hash_views self.table.props self.table.keybuf 0 1 key

unfoldable pub compositemap_construct {ℓ} : {A : Type ℓ} → ℕ → Props → Option (CompositeMap A)
compositemap_construct limit props =
    set_construct limit props >>= λ table. some (record { table = table; keys = [] })

unfoldable pub compositemap_clear {ℓ} : {A : Type ℓ} → CompositeMap A → CompositeMap A
compositemap_clear self = record { table = hashmap_clear self.table; keys = [] }

-- A new value at the free entry `idx`.
unfoldable pub composite_new {ℓ} :
    {A : Type ℓ} → CompositeMap A → Hashed → ℕ → A → Option (CompositeMap A)
composite_new self hashed idx value =
    let entry : Entry = record {
      val_idx = length self.table.values;
      key_idx = length self.keys;
      key_len = length hashed.key_temp;
      hash = hashed.hash;
    } in
    let values = self.table.values ++ (value ∷ []) in
    grown (length values) (set self.table.entries idx (some entry)) >>= λ entries. some (record {
      table = record self.table { values = values; entries = entries; keybuf = hashed.keybuf };
      keys = self.keys ++ hashed.key_temp;
    })

unfoldable pub compositemap_set {ℓ} :
    {A : Type ℓ} → CompositeMap A → List Text → A → Option (CompositeMap A)
compositemap_set self key value =
    let hashed = hash_key_views self key in
    composite_entry self hashed >>= λ idx.
    at_entry (get_or self.table.entries idx none) (composite_new self hashed idx value) (λ e.
      some (record self {
        table = record self.table { values = set self.table.values e.val_idx value };
      }))

-- `compositemap_get`; the outer `none` is a loop that does not end, the inner one NULL.
unfoldable pub compositemap_get {ℓ} : {A : Type ℓ} → CompositeMap A → List Text → Option (Option A)
compositemap_get self key = composite_entry self (hash_key_views self key) >>= λ idx. some (
    at_entry (get_or self.table.entries idx none) none (λ e. get_elem? self.table.values e.val_idx))
