-- ===== src/Group/Buckets.antt =====
-- What GROUP BY means: the rows sorted into buckets by their keys, in the order of the first row of
-- each.
use fql.Prelude.{
  ℕ, suc, Bool, false, Option, none, some, List, [], ◌∷◌, ◌++◌, ◌≡◌, refl, ◌∙◌, sym, ap, inl, inr,
  if◌then◌else◌, length, Bool-cases,
}
use fql.Text.{Text}
use fql.Hash.Composite.Keylocs.{same_key, same_key-eq}
use fql.Hash.Composite.Lookup.{kept_key}
use fql.Group.{group_props}

-- Two keys are the same up to the case of letters and blanks at the ends of their parts.
abbrev pub alike : List Text → List Text → Bool
alike key key' = same_key (kept_key group_props key) (kept_key group_props key')

pub record Bucket (R : Type 0) : Type 0 where
  pub key : List Text
  pub first : R
  pub rest : List R

abbrev pub next_index : Option ℕ → Option ℕ
next_index none = none
next_index (some i) = some (suc i)

pub next_index-some :
    (o : Option ℕ) (i : ℕ) → next_index o ≡ some i → (j : ℕ) × (o ≡ some j) × (i ≡ suc j)
next_index-some none i h = cc
next_index-some (some j) i h = (j, refl, let eq : some (suc j) ≡ some i = h in cc)

pub next_index-none : (o : Option ℕ) → next_index o ≡ none → o ≡ none
next_index-none none h = refl
next_index-none (some j) h = cc

module _ {R : Type 0} where
  -- A row goes behind those of its bucket, or into a new one at the end.
  abbrev pub file_row : List Text → R → List (Bucket R) → List (Bucket R)
  file_row key row [] = record { key = key; first = row; rest = [] } ∷ []
  file_row key row (b ∷ bs) =
      let others = file_row key row bs in
      if alike b.key key then record b { rest = b.rest ++ (row ∷ []) } ∷ bs else b ∷ others

  abbrev pub index_of : List Text → List (Bucket R) → Option ℕ
  index_of key [] = none
  index_of key (b ∷ bs) =
      let later = index_of key bs in if alike b.key key then some 0 else next_index later

  -- The places of the keys after a row of a key that is there, and of one that is new.
  pub index_of-file_old :
      (key : List Text) (row : R) (bs : List (Bucket R)) (i : ℕ) (key' : List Text)
      → index_of key bs ≡ some i
      → index_of key' (file_row key row bs) ≡ index_of key' bs
  index_of-file_old key row [] i key' h = cc
  index_of-file_old key row (b ∷ bs) i key' h = elim (Bool-cases (alike b.key key)) [
    | inl here ↦ rw here refl
    | inr other ↦
        let later : next_index (index_of key bs) ≡ some i = rw other at h in
        let (j, at, up) = next_index-some (index_of key bs) i later in
        rw (other, index_of-file_old key row bs j key' at) refl
  ]

  pub index_of-file_new :
      (key : List Text) (row : R) (bs : List (Bucket R)) (key' : List Text)
      → index_of key bs ≡ none
      → index_of key' (file_row key row bs)
        ≡ (if alike key key' then some (length bs) else index_of key' bs)
  index_of-file_new key row [] key' h = refl
  index_of-file_new key row (b ∷ bs) key' h = elim (Bool-cases (alike b.key key)) [
    | inl here ↦ let clash : ◌≡◌ {A = Option ℕ} (some 0) none = rw here at h in cc
    | inr other ↦
        let later : next_index (index_of key bs) ≡ none = rw other at h in
        let rest = index_of-file_new key row bs key' (next_index-none (index_of key bs) later) in
        rw (other, rest) (step b bs other)
  ]
    where
      step :
          (b : Bucket R) (bs : List (Bucket R))
          → alike b.key key ≡ false
          → (if alike b.key key'
              then some 0
              else next_index (if alike key key' then some (length bs) else index_of key' bs))
            ≡ (if alike key key'
                then some (suc (length bs))
                else (if alike b.key key' then some 0 else next_index (index_of key' bs)))
      step b bs other = elim (Bool-cases (alike key key')) [
        | inl same ↦
            let eq = same_key-eq (kept_key group_props key) (kept_key group_props key') same in
            let not_here : alike b.key key' ≡ false =
              ap (same_key (kept_key group_props b.key)) (sym eq) ∙ other in
            rw (same, not_here) refl
        | inr differ ↦ rw differ refl
      ]

  pub length-file_new :
      (key : List Text) (row : R) (bs : List (Bucket R))
      → index_of key bs ≡ none
      → file_row key row bs ≡ bs ++ (record { key = key; first = row; rest = [] } ∷ [])
  length-file_new key row [] h = refl
  length-file_new key row (b ∷ bs) h = elim (Bool-cases (alike b.key key)) [
    | inl here ↦ let clash : ◌≡◌ {A = Option ℕ} (some 0) none = rw here at h in cc
    | inr other ↦
        let later : next_index (index_of key bs) ≡ none = rw other at h in
        rw other
          (ap (λ l. b ∷ l) (length-file_new key row bs (next_index-none (index_of key bs) later)))
  ]

  abbrev pub keys_of : List (Bucket R) → List (List Text)
  keys_of [] = []
  keys_of (b ∷ bs) = b.key ∷ keys_of bs

  pub length-keys_of : (bs : List (Bucket R)) → length (keys_of bs) ≡ length bs
  length-keys_of [] = refl
  length-keys_of (b ∷ bs) = ap suc (length-keys_of bs)

  pub keys_of-file_old :
      (key : List Text) (row : R) (bs : List (Bucket R)) (i : ℕ)
      → index_of key bs ≡ some i
      → keys_of (file_row key row bs) ≡ keys_of bs
  keys_of-file_old key row [] i h = cc
  keys_of-file_old key row (b ∷ bs) i h = elim (Bool-cases (alike b.key key)) [
    | inl here ↦ rw here refl
    | inr other ↦
        let later : next_index (index_of key bs) ≡ some i = rw other at h in
        let (j, at, up) = next_index-some (index_of key bs) i later in
        rw other (ap (λ l. b.key ∷ l) (keys_of-file_old key row bs j at))
  ]

  pub keys_of-append : (bs cs : List (Bucket R)) → keys_of (bs ++ cs) ≡ keys_of bs ++ keys_of cs
  keys_of-append [] cs = refl
  keys_of-append (b ∷ bs) cs = ap (λ l. b.key ∷ l) (keys_of-append bs cs)
