-- ===== src/Hash/Table.antt =====
-- The entries and the key buffer of util/hashmap.c together: what `_get_entry` finds, and what the
-- entry of a new key and `_increase_size` make of them.
use fql.Prelude.{
  ℕ, ◌+◌, ◌*◌, ◌^◌, ◌<◌, ◌≤◌, Bool, true, false, Option, none, some, List, [], ◌∷◌, ◌≡◌, refl, ◌∙◌,
  sym, ap, ◌≢◌, ◌⊎◌, inl, inr, ◌↔◌, ◌==◌, length, get_or, replicate, read_at, arith, Bool-cases,
  length-replicate,
}
use fql.Text.{Text}
use fql.Text.Segments.{length-read_at}
use fql.Hash.{
  Entry, Props, HashMap, home, probe, same_bytes, is_entry, get_entry, increase_size, too_full,
  grown,
}
use fql.Hash.Probe.{
  Used, count, count-replicate, get_or-replicate, Placed, Stop, hit, miss, probe-Stop,
}
use fql.Hash.Keys.{Present, Good, miss-absent}
use fql.Hash.Moving.{rehash-Moved}
use fql.Hash.Digest.{hash_key, next_power_of_2-bounds}

pub same_bytes-eq : (xs ys : Text) → same_bytes xs ys ≡ true → xs ≡ ys
same_bytes-eq [] [] h = refl
same_bytes-eq [] (y ∷ ys) h = cc
same_bytes-eq (x ∷ xs) [] h = cc
same_bytes-eq (x ∷ xs) (y ∷ ys) h = elim (Bool-cases (x == y)) [
  | inl eq ↦
      let first : x ≡ y = ground arith in
      let rest : xs ≡ ys = same_bytes-eq xs ys (ground arith) in cc
  | inr ne ↦ ground arith
]

pub same_bytes_refl : (xs : Text) → same_bytes xs xs ≡ true
same_bytes_refl [] = refl
same_bytes_refl (x ∷ xs) = let here : x == x ≡ true = ground arith in rw here (same_bytes_refl xs)

pub same_bytes-ne : (xs ys : Text) → same_bytes xs ys ≡ false → xs ≢ ys
same_bytes-ne xs ys other eq =
    let same : same_bytes xs ys ≡ true = rw (← eq) (same_bytes_refl xs) in cc

-- The key of an entry.
abbrev pub key_at : Text → Entry → Text
key_at keybuf e = read_at keybuf e.key_idx e.key_len

abbrev pub hash_of : Entry → ℕ
hash_of e = e.hash

-- The entries of a table: each in its place and with a key of its own, which lies in the buffer; one is
-- free; and there are no more than have been counted.
pub record Table (props : Props) (keybuf : Text) (entries : List (Option Entry)) (size : ℕ)
    : Type 0 where
  pub good : Good hash_of (hash_key props) (key_at keybuf) entries
  pub inbuf : (e : Entry) → Present entries e → e.key_idx + e.key_len ≤ length keybuf
  pub room : count entries < length entries
  pub sized : count entries ≤ size

-- What a key is found to be: that of an entry in use, or of none, with a free place for it.
pub data Lookup {K : Type 0} (key_of : Entry → K) (entries : List (Option Entry)) (k : K) (h i : ℕ)
    : Type 0 where
  there : (e : Entry) → Used entries i e → key_of e ≡ k → Lookup key_of entries k h i
  nowhere :
      get_or entries i none ≡ none
      → Placed entries h i
      → ((e : Entry) → Present entries e → key_of e ≢ k)
      → Lookup key_of entries k h i

-- The loop over the entries ends, at the entry of the key or at a free one where no entry has the key,
-- when its test is whether an entry has the key.
pub probe-Lookup :
    {K : Type 0} (digest : K → ℕ) (key_of : Entry → K) (entries : List (Option Entry)) (k : K)
    (same : Entry → Bool)
    → Good hash_of digest key_of entries
    → count entries < length entries
    → ((e : Entry) → Present entries e → same e ≡ true → key_of e ≡ k)
    → ((e : Entry) → Present entries e → key_of e ≡ k → e.hash ≡ digest k → same e ≡ true)
    → (i : ℕ) × (probe same entries (length entries) (home (length entries) (digest k)) ≡ some i)
      × Lookup key_of entries k (digest k) i
unfolding probe
probe-Lookup digest key_of entries k same g room is_key key_is =
    let (i, runs, stop) = probe-Stop same entries (digest k) room in (i, runs, found i stop)
  where
    found : (i : ℕ) → Stop same entries (digest k) i → Lookup key_of entries k (digest k) i
    found i (hit e used is) = there e used (is_key e (i, used) is)
    found i (miss free p passed) = nowhere free p (λ e (j, used).
        miss-absent hash_of digest key_of entries k i same g p free
          (λ m f u key eq. key_is f (m, u) key eq) passed j e used)

module _ {ℓ} {A : Type ℓ} (self : HashMap A) where
  is_entry-key :
      (k : Text) (h : ℕ) (e : Entry) → is_entry self.keybuf k h e ≡ true → key_at self.keybuf e ≡ k
  is_entry-key k h e is = elim (Bool-cases (e.key_len == length k)) [
    | inl len ↦ elim (Bool-cases (e.hash == h)) [
      | inl same ↦
          let long : e.key_len ≡ length k = ground arith in
          let bytes : same_bytes (read_at self.keybuf e.key_idx (length k)) k ≡ true =
            rw (len, same) at is in
          ap (λ n. read_at self.keybuf e.key_idx n) long ∙ same_bytes-eq _ k bytes
      | inr other ↦ ground arith
    ]
    | inr other ↦ ground arith
  ]

  key-is_entry :
      (k : Text) (h : ℕ) (e : Entry)
      → e.key_idx + e.key_len ≤ length self.keybuf
      → key_at self.keybuf e ≡ k
      → e.hash ≡ h
      → is_entry self.keybuf k h e ≡ true
  key-is_entry k h e lt key eq =
      let long : length k ≡ e.key_len =
        ap length (sym key) ∙ length-read_at self.keybuf e.key_idx e.key_len lt in
      let len : e.key_len == length k ≡ true = ground arith in
      let same : e.hash == h ≡ true = ground arith in rw (len, same, long, key) (same_bytes_refl k)

  -- `_get_entry` ends, at the entry of the key or at a free one where no entry has the key.
  pub get_entry-Lookup :
      (k : Text) {size : ℕ}
      → Table self.props self.keybuf self.entries size
      → (i : ℕ) × (get_entry self k (hash_key self.props k) ≡ some i)
        × Lookup (key_at self.keybuf) self.entries k (hash_key self.props k) i
  unfolding probe
  get_entry-Lookup k t =
      let h = hash_key self.props k in
      probe-Lookup (hash_key self.props) (key_at self.keybuf) self.entries k
        (is_entry self.keybuf k h) t.good t.room (λ e q. is_entry-key k h e)
        (λ e q. key-is_entry k h e (t.inbuf e q))

pub Good-free :
    {K : Type 0} (digest : K → ℕ) (key_of : Entry → K) (n : ℕ)
    → Good hash_of digest key_of (replicate n none)
Good-free digest key_of n = record {
  placed = λ i e used. absurd (let no = get_or-replicate {E = Entry} n i in cc);
  hashed = λ i e used. absurd (let no = get_or-replicate {E = Entry} n i in cc);
  once = λ i j e f used. absurd (let no = get_or-replicate {E = Entry} n i in cc);
}

-- A table is as it was, or has all its entries in a larger one, and it is not full.
pub record Grown {K : Type 0} (digest : K → ℕ) (key_of : Entry → K) (entries : List (Option Entry))
    (size : ℕ) (out : List (Option Entry)) : Type 0 where
  pub good : Good hash_of digest key_of out
  pub total : count out ≡ count entries
  pub room : count out < length out
  pub members : (e : Entry) → Present out e ↔ Present entries e
  pub wide : (b : ℕ) → length entries ≤ b → 3 * size + 1 ≤ b → length out ≤ b

pub grown-Grown :
    {K : Type 0} (digest : K → ℕ) (key_of : Entry → K) (entries : List (Option Entry)) (size : ℕ)
    → Good hash_of digest key_of entries
    → count entries ≤ size
    → count entries ≤ length entries
    → 0 < length entries
    → length entries < 2 ^ 63
    → (out : List (Option Entry)) × (grown size entries ≡ some out)
      × Grown digest key_of entries size out
unfolding increase_size
grown-Grown digest key_of entries size g sized fits some_room small =
    let n = length entries in
    elim (Bool-cases (too_full size n)) [
      | inl full ↦
          let (p, runs, le, less) = next_power_of_2-bounds (n + 1) (omega arith) in
          let empty : List (Option Entry) = replicate p none in
          let wide : length empty ≡ p = length-replicate p none in
          let zero_used : count empty ≡ 0 = count-replicate Entry p in
          let (out, moves, m) =
            rehash-Moved hash_of digest key_of entries empty (Good-free digest key_of p)
              (omega arith) g.hashed g.once
              (λ i j e f u v. absurd (let no = get_or-replicate {E = Entry} p j in cc)) in
          (
            out,
            rw (full, runs) moves,
            record {
              good = m.good;
              total = omega (arith, m.total);
              room = omega (arith, m.total, m.width);
              members =
                  λ e. (λ q. only_first e p ((m.members e).0 q), λ q. (m.members e).1 (inl q));
              wide = λ b h k.
                  let over : 9 * n < 10 * size = ground arith in
                  elim less [
                    | inl one ↦ omega (arith, m.width)
                    | inr twice ↦ omega (arith, m.width)
                  ];
            },
          )
      | inr room ↦ (
        entries,
        rw (room) refl,
        record {
          good = g;
          total = refl;
          room = let bound : 10 * size ≤ 9 * n = ground arith in omega arith;
          members = λ e. (λ q. q, λ q. q);
          wide = λ b h k. h;
        },
      )
    ]
  where
    only_first :
        (e : Entry) (p : ℕ) → Present entries e ⊎ Present (replicate p none) e → Present entries e
    only_first e p (inl q) = q
    only_first e p (inr (j, u)) = absurd (let no = get_or-replicate {E = Entry} p j in cc)
