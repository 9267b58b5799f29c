-- ===== src/Hash/Composite/Keylocs.antt =====
-- The keys of util/hashmap.c that are lists of views: what the loop over the views leaves in the key
-- buffer, and what `_composite_eq` compares.
use fql.Prelude.{
  ℕ, zero, suc, ◌+◌, ◌*◌, ◌%◌, ◌^◌, ◌≤◌, Bool, true, false, ◌&&◌, List, [], ◌∷◌, ◌++◌, ◌≡◌, refl,
  ◌∙◌, sym, ap, ◌≢◌, inl, inr, map, ◌==◌, length, take, drop, read_at, arith, Bool-cases,
  length-append, append_assoc, append-nil,
}
use mathlib.Core.Path.{ap₂}
use fql.Text.{Text}
use fql.Text.Segments.{read_at-append, read_at-end, length-read_at}
use fql.Hash.{Props, same_bytes}
use fql.Hash.Digest.{hash_key, kept, get_hash-kept}
use fql.Hash.Table.{same_bytes-eq, same_bytes_refl}
use fql.Hash.Composite.{Keyloc, Hashed, hash_views, same_locs}

-- The key that locations stand for.
abbrev pub located : Text → List Keyloc → List Text
located keybuf [] = []
located keybuf (l ∷ locs) = read_at keybuf l.idx l.len ∷ located keybuf locs

abbrev pub AllInbuf : Text → List Keyloc → Type 0
AllInbuf keybuf [] = Unit
AllInbuf keybuf (l ∷ locs) = (l.idx + l.len ≤ length keybuf) × AllInbuf keybuf locs

-- The hash of a key, once what is kept of each view is known.
abbrev pub digest_from : Props → ℕ → ℕ → List Text → ℕ
digest_from props i hash [] = hash
digest_from props i hash (k ∷ ks) =
    digest_from props (suc i) ((hash * (suc i * hash_key props k)) % 2 ^ 64) ks

abbrev pub digest : Props → List Text → ℕ
digest props key = digest_from props 0 1 key

pub length-located :
    (keybuf : Text) (locs : List Keyloc) → length (located keybuf locs) ≡ length locs
length-located keybuf [] = refl
length-located keybuf (l ∷ locs) = ap suc (length-located keybuf locs)

pub located-append :
    (keybuf more : Text) (locs : List Keyloc)
    → AllInbuf keybuf locs
    → located (keybuf ++ more) locs ≡ located keybuf locs
located-append keybuf more [] h = refl
located-append keybuf more (l ∷ locs) h =
    ap₂ ◌∷◌ (read_at-append keybuf more l.idx l.len h.0) (located-append keybuf more locs h.1)

pub AllInbuf-append_buf :
    (keybuf more : Text) (locs : List Keyloc)
    → AllInbuf keybuf locs
    → AllInbuf (keybuf ++ more) locs
AllInbuf-append_buf keybuf more [] h = tt
AllInbuf-append_buf keybuf more (l ∷ locs) h =
    (omega (arith, h.0, length-append keybuf more), AllInbuf-append_buf keybuf more locs h.1)

pub AllInbuf-append :
    (keybuf : Text) (ls ms : List Keyloc)
    → AllInbuf keybuf ls
    → AllInbuf keybuf ms
    → AllInbuf keybuf (ls ++ ms)
AllInbuf-append keybuf [] ms h k = k
AllInbuf-append keybuf (l ∷ ls) ms h k = (h.0, AllInbuf-append keybuf ls ms h.1 k)

pub AllInbuf-take :
    (keybuf : Text) (n : ℕ) (ls : List Keyloc) → AllInbuf keybuf ls → AllInbuf keybuf (take n ls)
AllInbuf-take keybuf zero ls h = tt
AllInbuf-take keybuf (suc n) [] h = tt
AllInbuf-take keybuf (suc n) (l ∷ ls) h = (h.0, AllInbuf-take keybuf n ls h.1)

pub AllInbuf-drop :
    (keybuf : Text) (n : ℕ) (ls : List Keyloc) → AllInbuf keybuf ls → AllInbuf keybuf (drop n ls)
AllInbuf-drop keybuf zero ls h = h
AllInbuf-drop keybuf (suc n) [] h = tt
AllInbuf-drop keybuf (suc n) (l ∷ ls) h = AllInbuf-drop keybuf n ls h.1

-- What the loop over the views leaves: their kept bytes behind the buffer, their locations, and the
-- hash.
pub record Located (props : Props) (keybuf : Text) (i hash : ℕ) (views : List Text) (out : Hashed)
    : Type 0 where
  pub tail : Text
  pub buf : out.keybuf ≡ keybuf ++ tail
  pub key : located out.keybuf out.key_temp ≡ map (kept props) views
  pub inbuf : AllInbuf out.keybuf out.key_temp
  pub hashes : out.hash ≡ digest_from props i hash (map (kept props) views)

module _ (props : Props) (keybuf : Text) (i hash : ℕ) (view : Text) (views : List Text)
    (out : Hashed) where
  Located-cons :
      Located props
        (keybuf ++ kept props view)
        (suc i)
        ((hash * (suc i * hash_key props (kept props view))) % 2 ^ 64)
        views
        out
      → Located props keybuf i hash (view ∷ views) (record out {
        key_temp = record { idx = length keybuf; len = length (kept props view) } ∷ out.key_temp;
      })
  Located-cons rest =
      let k = kept props view in
      let room = length-append keybuf k in
      let room' = length-append (keybuf ++ k) rest.tail in
      let first : read_at out.keybuf (length keybuf) (length k) ≡ k =
        ap (λ b. read_at b (length keybuf) (length k)) rest.buf
        ∙ read_at-append (keybuf ++ k) rest.tail (length keybuf) (length k) (omega arith)
        ∙ read_at-end keybuf k in
      record {
        tail = k ++ rest.tail;
        buf = rest.buf ∙ append_assoc keybuf k rest.tail;
        key = ap₂ ◌∷◌ first rest.key;
        inbuf = (omega (arith, ap length rest.buf), rest.inbuf);
        hashes = rest.hashes;
      }

pub hash_views-Located :
    (props : Props) (keybuf : Text) (i hash : ℕ) (views : List Text)
    → Located props keybuf i hash views (hash_views props keybuf i hash views)
unfolding hash_views
hash_views-Located props keybuf i hash [] = record {
  tail = [];
  buf = sym (append-nil keybuf);
  key = refl;
  inbuf = tt;
  hashes = refl;
}
hash_views-Located props keybuf i hash (view ∷ views) =
    let k = kept props view in
    let next = (hash * (suc i * hash_key props k)) % 2 ^ 64 in
    rw (get_hash-kept props view) (
      Located-cons props keybuf i hash view views
        (hash_views props (keybuf ++ k) (suc i) next views)
        (hash_views-Located props (keybuf ++ k) (suc i) next views))

pub same_locs-located :
    (keybuf : Text) (ls ms : List Keyloc)
    → length ls ≡ length ms
    → same_locs keybuf ls ms ≡ true
    → located keybuf ls ≡ located keybuf ms
same_locs-located keybuf [] [] len h = refl
same_locs-located keybuf [] (m ∷ ms) len h = absurd (omega arith)
same_locs-located keybuf (l ∷ ls) [] len h = absurd (omega arith)
same_locs-located keybuf (l ∷ ls) (m ∷ ms) len h = elim (Bool-cases (l.len == m.len)) [
  | inl same ↦
      let eq : l.len ≡ m.len = ground arith in
      elim (Bool-cases (same_bytes (read_at keybuf l.idx l.len) (read_at keybuf m.idx l.len))) [
        | inl bytes ↦
            let rest : same_locs keybuf ls ms ≡ true = ground arith in
            let first = same_bytes-eq _ _ bytes in
            ap₂ ◌∷◌ (first ∙ ap (λ n. read_at keybuf m.idx n) eq)
              (same_locs-located keybuf ls ms (omega arith) rest)
        | inr other ↦ absurd (ground arith)
      ]
  | inr other ↦ absurd (ground arith)
]

pub located-same_locs :
    (keybuf : Text) (ls ms : List Keyloc)
    → AllInbuf keybuf ls
    → AllInbuf keybuf ms
    → located keybuf ls ≡ located keybuf ms
    → same_locs keybuf ls ms ≡ true
located-same_locs keybuf [] ms h k eq = refl
located-same_locs keybuf (l ∷ ls) [] h k eq = cc
located-same_locs keybuf (l ∷ ls) (m ∷ ms) h k eq =
    let first : read_at keybuf l.idx l.len ≡ read_at keybuf m.idx m.len = cc in
    let rest : located keybuf ls ≡ located keybuf ms = cc in
    let len : l.len ≡ m.len =
      sym (length-read_at keybuf l.idx l.len h.0)
      ∙ ap length first
      ∙ length-read_at keybuf m.idx m.len k.0 in
    let same : l.len == m.len ≡ true = ground arith in
    let bytes : same_bytes (read_at keybuf l.idx l.len) (read_at keybuf m.idx l.len) ≡ true =
      rw (first, len) (same_bytes_refl (read_at keybuf m.idx m.len)) in
    rw (same, bytes) (located-same_locs keybuf ls ms h.1 k.1 rest)

-- The test of two keys.
abbrev pub same_key : List Text → List Text → Bool
same_key [] [] = true
same_key [] (y ∷ ys) = false
same_key (x ∷ xs) [] = false
same_key (x ∷ xs) (y ∷ ys) = same_bytes x y && same_key xs ys

pub same_key-eq : (xs ys : List Text) → same_key xs ys ≡ true → xs ≡ ys
same_key-eq [] [] h = refl
same_key-eq [] (y ∷ ys) h = cc
same_key-eq (x ∷ xs) [] h = cc
same_key-eq (x ∷ xs) (y ∷ ys) h = elim (Bool-cases (same_bytes x y)) [
  | inl eq ↦
      let rest : same_key xs ys ≡ true = ground arith in
      ap₂ ◌∷◌ (same_bytes-eq x y eq) (same_key-eq xs ys rest)
  | inr ne ↦ absurd (ground arith)
]

pub same_key_refl : (xs : List Text) → same_key xs xs ≡ true
same_key_refl [] = refl
same_key_refl (x ∷ xs) = rw (same_bytes_refl x) (same_key_refl xs)

pub same_key-ne : (xs ys : List Text) → same_key xs ys ≡ false → xs ≢ ys
same_key-ne xs ys other eq = let same : same_key xs ys ≡ true = rw (← eq) (same_key_refl xs) in cc
