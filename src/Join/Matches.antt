-- ===== src/Join/Matches.antt =====
-- What the hash join of lib/fqlprocesses.c means: the rows of the right side with the key of a row, and
-- the multimap that holds them.
use fql.Prelude.{
  ℕ, ◌-◌, ◌^◌, ◌<◌, ◌≤◌, Option, none, some, List, [], ◌∷◌, ◌++◌, ◌≡◌, refl, ◌∙◌, sym, ap, inl, inr,
  if◌then◌else◌, length, arith, Bool-cases, length-append,
}
use fql.Text.{Text}
use fql.Hash.{Props, HashMap, same_bytes, hashmap_nget, multimap_nset}
use fql.Hash.Digest.{kept}
use fql.Hash.Table.{same_bytes-eq}
use fql.Hash.Map.{IsValid}
use fql.Hash.Multimap.{or_empty, multimap_nset-Written}

-- The offsets of the rows with a key of which the same bytes are kept, in their order.
abbrev pub matches : Props → List (Text × ℕ) → Text → List ℕ
matches props [] key = []
matches props ((k, offset) ∷ rows) key =
    let rest = matches props rows key in
    if same_bytes (kept props k) (kept props key) then offset ∷ rest else rest

abbrev pub some_matches : List ℕ → Option (List ℕ)
some_matches [] = none
some_matches (x ∷ xs) = some (x ∷ xs)

or_empty-some_matches : (xs : List ℕ) → or_empty (some_matches xs) ≡ xs
or_empty-some_matches [] = refl
or_empty-some_matches (x ∷ xs) = refl

some_matches-append : (xs : List ℕ) (x : ℕ) → some_matches (xs ++ (x ∷ [])) ≡ some (xs ++ (x ∷ []))
some_matches-append [] x = refl
some_matches-append (y ∷ xs) x = refl

matches-append :
    (props : Props) (rows : List (Text × ℕ)) (k : Text) (offset : ℕ) (key : Text)
    → matches props (rows ++ ((k, offset) ∷ [])) key ≡ (
        if same_bytes (kept props k) (kept props key)
        then matches props rows key ++ (offset ∷ [])
        else matches props rows key)
matches-append props [] k offset key =
    elim (Bool-cases (same_bytes (kept props k) (kept props key))) [
      | inl same ↦ rw same refl
      | inr other ↦ rw other refl
    ]
matches-append props ((k', o) ∷ rows) k offset key =
    let rest = matches-append props rows k offset key in
    elim (Bool-cases (same_bytes (kept props k') (kept props key))) [
      | inl here ↦ elim (Bool-cases (same_bytes (kept props k) (kept props key))) [
        | inl same ↦ rw (rest, same, here) refl
        | inr other ↦ rw (rest, other, here) refl
      ]
      | inr not_here ↦ elim (Bool-cases (same_bytes (kept props k) (kept props key))) [
        | inl same ↦ rw (rest, same, not_here) refl
        | inr other ↦ rw (rest, other, not_here) refl
      ]
    ]

matches-same :
    (props : Props) (rows : List (Text × ℕ)) (k key : Text)
    → kept props k ≡ kept props key
    → matches props rows k ≡ matches props rows key
matches-same props [] k key same = refl
matches-same props ((k', o) ∷ rows) k key same = rw (same, matches-same props rows k key same) refl

pub length-matches :
    (props : Props) (rows : List (Text × ℕ)) (key : Text)
    → length (matches props rows key) ≤ length rows
length-matches props [] key = omega arith
length-matches props ((k, o) ∷ rows) key =
    elim (Bool-cases (same_bytes (kept props k) (kept props key))) [
      | inl same ↦ rw same (omega (arith, length-matches props rows key))
      | inr other ↦ rw other (omega (arith, length-matches props rows key))
    ]

pub record Indexed (props : Props) (rows : List (Text × ℕ)) (m : HashMap (List ℕ)) : Type 0 where
  pub valid : IsValid m
  pub same_props : m.props ≡ props
  pub size : length m.values ≤ length rows
  pub small : length m.entries < 2 ^ 63
  pub reads : (key : Text) → hashmap_nget m key ≡ some (some_matches (matches props rows key))

pub multimap_nset-Indexed :
    (props : Props) (rows : List (Text × ℕ)) (m : HashMap (List ℕ)) (k : Text) (offset : ℕ)
    → Indexed props rows m
    → length rows < 2 ^ 60
    → (m' : HashMap (List ℕ)) × (multimap_nset m k offset ≡ some m')
      × Indexed props (rows ++ ((k, offset) ∷ [])) m'
multimap_nset-Indexed props rows m k offset h few =
    let (old, m', reads, runs, w) = multimap_nset-Written m k offset h.valid h.small in
    let both : some (some_matches (matches props rows k)) ≡ some old = sym (h.reads k) ∙ reads in
    let was : or_empty old ≡ matches props rows k =
      ap or_empty (let eq : old ≡ some_matches (matches props rows k) = cc in eq)
      ∙ or_empty-some_matches (matches props rows k) in
    let wide = w.wide (2 ^ 63 - 1) (omega (arith, h.small)) (omega (arith, h.size)) in
    (
      m',
      runs,
      record {
        valid = w.valid;
        same_props = w.same_props ∙ h.same_props;
        size = omega (arith, w.size, h.size, length-append rows ((k, offset) ∷ []));
        small = omega arith;
        reads = λ key.
            let as_props = ap (λ p. same_bytes (kept p k) (kept p key)) h.same_props in
            let longer = matches-append props rows k offset key in
            elim (Bool-cases (same_bytes (kept props k) (kept props key))) [
              | inl same ↦
                  let now : hashmap_nget m' key ≡ some (some (or_empty old ++ (offset ∷ []))) =
                    w.reads key ∙ rw (as_props, same) refl in
                  let all : matches props (rows ++ ((k, offset) ∷ [])) key
                      ≡ matches props rows key ++ (offset ∷ []) =
                    longer ∙ rw same refl in
                  let eq = same_bytes-eq (kept props k) (kept props key) same in
                  now
                  ∙ ap (λ l. some (some (l ++ (offset ∷ []))))
                      (was ∙ matches-same props rows k key eq)
                  ∙ ap some (sym (some_matches-append (matches props rows key) offset))
                  ∙ ap (λ l. some (some_matches l)) (sym all)
              | inr other ↦
                  let now : hashmap_nget m' key ≡ hashmap_nget m key =
                    w.reads key ∙ rw (as_props, other) refl in
                  let all : matches props (rows ++ ((k, offset) ∷ [])) key
                      ≡ matches props rows key =
                    longer ∙ rw other refl in
                  now ∙ h.reads key ∙ ap (λ l. some (some_matches l)) (sym all)
            ];
      },
    )
