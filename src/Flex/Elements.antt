-- ===== src/Flex/Elements.antt =====
-- The elements of a flex of util/flex.c, and what its operations make of them.
use fql.Prelude.{
  ℕ, zero, suc, ◌+◌, ◌-◌, ◌≤◌, true, some, List, [], ◌∷◌, ◌++◌, ◌≡◌, refl, ◌∙◌, ap, length, take,
  drop, ◌==◌, map, arith, length-append,
}
use mathlib.Core.Path.{ap₂}
use fql.Text.{Text}
use fql.Text.Segments.{read_at-append, read_at-end, take-length-append}
use fql.Flex.{Pair, Flex, view, flex_push_back, last_pair, flex_pop_back, flex_insert}

-- Every pair lies in the bytes.
abbrev pub AllWithin : Text → List Pair → Type 0
AllWithin raw [] = Unit
AllWithin raw (p ∷ pairs) = (p.idx + p.len ≤ length raw) × AllWithin raw pairs

abbrev pub IsValid : Flex → Type 0
IsValid f = AllWithin f.raw f.pairs

abbrev pub elements : Flex → List Text
elements f = map (view f.raw) f.pairs

AllWithin-append_raw :
    (raw bytes : Text) (pairs : List Pair) → AllWithin raw pairs → AllWithin (raw ++ bytes) pairs
AllWithin-append_raw raw bytes [] h = tt
AllWithin-append_raw raw bytes (p ∷ pairs) h =
    (omega (arith, h.0, length-append raw bytes), AllWithin-append_raw raw bytes pairs h.1)

AllWithin-append :
    (raw : Text) (ps qs : List Pair)
    → AllWithin raw ps
    → AllWithin raw qs
    → AllWithin raw (ps ++ qs)
AllWithin-append raw [] qs h k = k
AllWithin-append raw (p ∷ ps) qs h k = (h.0, AllWithin-append raw ps qs h.1 k)

AllWithin-take :
    (raw : Text) (n : ℕ) (ps : List Pair) → AllWithin raw ps → AllWithin raw (take n ps)
AllWithin-take raw zero ps h = tt
AllWithin-take raw (suc n) [] h = tt
AllWithin-take raw (suc n) (p ∷ ps) h = (h.0, AllWithin-take raw n ps h.1)

AllWithin-drop :
    (raw : Text) (n : ℕ) (ps : List Pair) → AllWithin raw ps → AllWithin raw (drop n ps)
AllWithin-drop raw zero ps h = h
AllWithin-drop raw (suc n) [] h = tt
AllWithin-drop raw (suc n) (p ∷ ps) h = AllWithin-drop raw n ps h.1

views-append_raw :
    (raw bytes : Text) (pairs : List Pair)
    → AllWithin raw pairs
    → map (view (raw ++ bytes)) pairs ≡ map (view raw) pairs
views-append_raw raw bytes [] h = refl
views-append_raw raw bytes (p ∷ pairs) h =
    ap₂ ◌∷◌ (read_at-append raw bytes p.idx p.len h.0) (views-append_raw raw bytes pairs h.1)

views-append :
    (raw : Text) (ps qs : List Pair)
    → map (view raw) (ps ++ qs) ≡ map (view raw) ps ++ map (view raw) qs
views-append raw [] qs = refl
views-append raw (p ∷ ps) qs = ap (λ l. view raw p ∷ l) (views-append raw ps qs)

views-take :
    (raw : Text) (n : ℕ) (ps : List Pair) → map (view raw) (take n ps) ≡ take n (map (view raw) ps)
views-take raw zero ps = refl
views-take raw (suc n) [] = refl
views-take raw (suc n) (p ∷ ps) = ap (λ l. view raw p ∷ l) (views-take raw n ps)

views-drop :
    (raw : Text) (n : ℕ) (ps : List Pair) → map (view raw) (drop n ps) ≡ drop n (map (view raw) ps)
views-drop raw zero ps = refl
views-drop raw (suc n) [] = refl
views-drop raw (suc n) (p ∷ ps) = views-drop raw n ps

-- Inserting into a valid flex, at an index up to its size, puts the element before the one that has the index, and changes no
-- other.
pub elements-flex_insert :
    (f : Flex) (idx : ℕ) (bytes : Text)
    → idx ≤ length f.pairs
    → IsValid f
    → IsValid (flex_insert f idx bytes)
      × (elements (flex_insert f idx bytes)
          ≡ take idx (elements f) ++ (bytes ∷ drop idx (elements f)))
unfolding flex_insert
elements-flex_insert f idx bytes in_range v =
    let grown = AllWithin-append_raw f.raw bytes in
    let new : Pair = record { idx = length f.raw; len = length bytes } in
    let front = AllWithin-take f.raw idx f.pairs v in
    let rest = AllWithin-drop f.raw idx f.pairs v in
    (
      AllWithin-append (f.raw ++ bytes) (take idx f.pairs) (new ∷ drop idx f.pairs)
          (grown (take idx f.pairs) front)
          (omega (arith, length-append f.raw bytes), grown (drop idx f.pairs) rest),
      views-append (f.raw ++ bytes) (take idx f.pairs) (new ∷ drop idx f.pairs)
          ∙ ap₂ ◌++◌
              (views-append_raw f.raw bytes (take idx f.pairs) front ∙ views-take f.raw idx f.pairs)
              (ap₂ ◌∷◌ (read_at-end f.raw bytes) (
                views-append_raw f.raw bytes (drop idx f.pairs) rest
                ∙ views-drop f.raw idx f.pairs)),
    )

last_pair-append : (ps : List Pair) (p : Pair) → last_pair (ps ++ (p ∷ [])) ≡ some p
last_pair-append [] p = refl
last_pair-append (q ∷ []) p = refl
last_pair-append (q ∷ r ∷ ps) p = last_pair-append (r ∷ ps) p

take_pairs-append : (ps qs : List Pair) → take (length ps) (ps ++ qs) ≡ ps
take_pairs-append [] qs = refl
take_pairs-append (p ∷ ps) qs = ap (λ l. p ∷ l) (take_pairs-append ps qs)

-- Taking back what has just been pushed leaves the flex as it was, its bytes too.
pub flex_pop_back-flex_push_back :
    (f : Flex) (bytes : Text) → flex_pop_back (flex_push_back f bytes) ≡ f
unfolding flex_pop_back flex_push_back
flex_pop_back-flex_push_back f bytes =
    let new : Pair = record { idx = length f.raw; len = length bytes } in
    let one_more : length (f.pairs ++ (new ∷ [])) - 1 ≡ length f.pairs =
      omega (arith, length-append f.pairs (new ∷ [])) in
    let at_end : length f.raw + length bytes == length (f.raw ++ bytes) ≡ true =
      ground (arith, length-append f.raw bytes) in
    rw
      (
        one_more,
        take_pairs-append f.pairs (new ∷ []),
        last_pair-append f.pairs new,
        at_end,
        take-length-append f.raw bytes,
      )
      refl

-- A push puts the element behind the others.
pub elements-flex_push_back :
    (f : Flex) (bytes : Text)
    → IsValid f
    → IsValid (flex_push_back f bytes)
      × (elements (flex_push_back f bytes) ≡ elements f ++ (bytes ∷ []))
unfolding flex_push_back
elements-flex_push_back f bytes v =
    let raw = f.raw ++ bytes in
    let new : Pair = record { idx = length f.raw; len = length bytes } in
    (
      AllWithin-append raw f.pairs (new ∷ []) (AllWithin-append_raw f.raw bytes f.pairs v)
          (omega (arith, length-append f.raw bytes), tt),
      views-append raw f.pairs (new ∷ [])
          ∙ ap₂ ◌++◌ (views-append_raw f.raw bytes f.pairs v)
              (ap (λ l. l ∷ []) (read_at-end f.raw bytes)),
    )
