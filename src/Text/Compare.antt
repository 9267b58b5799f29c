-- ===== src/Text/Compare.antt =====
-- Laws of `stringview_compare_nocase_rtrim` (util/stringview.c).
use fql.Prelude.{
  ℕ, ◌+◌, ◌-◌, ◌^◌, ◌<◌, true, [], ◌∷◌, ◌++◌, ◌≡◌, refl, ◌≢◌, ◌↔◌, ◌==◌, length, arith,
  length-append, Bool-cases, inl, inr, ==_iff, sym,
}
use fql.Prelude.Int.{ℤ, pos, sub_ℕ, pos_part, neg_part}
use fql.Text.{
  Text, tolower, isspace, len_difference, compare_tail, compare_bytes, compare_nocase_rtrim,
}

-- The integer with the other sign.
abbrev pub neg : ℤ → ℤ
neg z = sub_ℕ (neg_part z) (pos_part z)

-- The length difference of two views below 2 GiB is their difference.
pub len_difference-exact : (a b : ℕ) → a < 2 ^ 31 → b < 2 ^ 31 → len_difference a b ≡ sub_ℕ a b
unfolding len_difference
len_difference-exact a b ha hb = ground arith

compare_tail-neg :
    (a b : ℕ) (s : Text) → compare_tail (sub_ℕ a b) s ≡ neg (compare_tail (sub_ℕ b a) s)
unfolding compare_tail
compare_tail-neg a b [] = refl
compare_tail-neg a b (c ∷ cs) = ground (arith, compare_tail-neg a b cs)

compare_bytes-neg :
    (a b : ℕ) (s t : Text) → compare_bytes (sub_ℕ a b) s t ≡ neg (compare_bytes (sub_ℕ b a) t s)
unfolding compare_bytes
compare_bytes-neg a b [] [] = compare_tail-neg a b []
compare_bytes-neg a b [] (y ∷ ys) = compare_tail-neg a b (y ∷ ys)
compare_bytes-neg a b (x ∷ xs) [] = compare_tail-neg a b (x ∷ xs)
compare_bytes-neg a b (x ∷ xs) (y ∷ ys) = ground (arith, compare_bytes-neg a b xs ys)

-- Swapping the views swaps the sign, for views below 2 GiB.
pub compare_nocase_rtrim-neg :
    (s t : Text)
    → length s < 2 ^ 31
    → length t < 2 ^ 31
    → compare_nocase_rtrim s t ≡ neg (compare_nocase_rtrim t s)
unfolding compare_nocase_rtrim
compare_nocase_rtrim-neg s t hs ht =
    rw (len_difference-exact _ _ hs ht, len_difference-exact _ _ ht hs)
      (compare_bytes-neg (length s) (length t) s t)

-- Only white space.
abbrev pub Blank : Text → Type 0
Blank [] = Unit
Blank (c ∷ cs) = (isspace c ≡ true) × Blank cs

-- Two views that agree but for the case of letters and white space after the shorter one.
pub data Same : Text → Text → Type 0 where
  left : (t : Text) → Blank t → Same [] t
  right : (s : Text) → Blank s → Same s []
  both : (x y : ℕ) (s t : Text) → tolower x ≡ tolower y → Same s t → Same (x ∷ s) (y ∷ t)

compare_tail-Blank : (d : ℤ) (s : Text) → d ≢ pos 0 → compare_tail d s ≡ pos 0 → Blank s
unfolding compare_tail
compare_tail-Blank d [] ne h = tt
compare_tail-Blank d (c ∷ cs) ne h = elim (Bool-cases (isspace c)) [
  | inl e ↦ (e, compare_tail-Blank d cs ne (rw e at h))
  | inr e ↦ absurd (ne (rw e at h))
]

Blank-compare_tail : (d : ℤ) (s : Text) → Blank s → compare_tail d s ≡ pos 0
unfolding compare_tail
Blank-compare_tail d [] h = refl
Blank-compare_tail d (c ∷ cs) h = rw h.0 (Blank-compare_tail d cs h.1)

sub_ℕ-ne-zero : (a b : ℕ) → a ≢ b → sub_ℕ a b ≢ pos 0
sub_ℕ-ne-zero a b ne e = ne (ground arith)

compare_bytes-Same :
    (a b : ℕ) (s t : Text)
    → a + length t ≡ b + length s
    → compare_bytes (sub_ℕ a b) s t ≡ pos 0
    → Same s t
unfolding compare_bytes
compare_bytes-Same a b [] [] e h = left [] tt
compare_bytes-Same a b [] (y ∷ ys) e h =
    left (y ∷ ys) (compare_tail-Blank _ (y ∷ ys) (sub_ℕ-ne-zero a b (omega arith)) h)
compare_bytes-Same a b (x ∷ xs) [] e h =
    right (x ∷ xs) (compare_tail-Blank _ (x ∷ xs) (sub_ℕ-ne-zero a b (omega arith)) h)
compare_bytes-Same a b (x ∷ xs) (y ∷ ys) e h = elim (Bool-cases (tolower x == tolower y)) [
  | inl q ↦
      both x y xs ys ((==_iff _ _).0 q) (compare_bytes-Same a b xs ys (omega arith) (rw q at h))
  | inr q ↦ absurd (sub_ℕ-ne-zero (tolower x) (tolower y) (ground arith) (rw q at h))
]

Same-compare_bytes : (d : ℤ) {s t : Text} → Same s t → compare_bytes d s t ≡ pos 0
unfolding compare_bytes
Same-compare_bytes d (left t h) = Blank-compare_tail d t h
Same-compare_bytes d (right [] h) = Blank-compare_tail d [] h
Same-compare_bytes d (right (x ∷ s) h) = Blank-compare_tail d (x ∷ s) h
Same-compare_bytes d (both x y s t e h) = rw ((==_iff _ _).1 e) (Same-compare_bytes d h)

-- For views below 2 GiB the comparison is 0 exactly when the views agree up to the case of their
-- letters, and what the longer one has beyond the shorter one is white space.
pub compare_nocase_rtrim-Same :
    (s t : Text)
    → length s < 2 ^ 31
    → length t < 2 ^ 31
    → (compare_nocase_rtrim s t ≡ pos 0) ↔ Same s t
unfolding compare_nocase_rtrim
compare_nocase_rtrim-Same s t hs ht =
    rw (len_difference-exact _ _ hs ht) (
      λ h. compare_bytes-Same (length s) (length t) s t (omega arith) h,
      λ h. Same-compare_bytes _ h,
    )

Same-extend : (p : Text) (c : ℕ) → isspace c ≡ true → Same p (p ++ (c ∷ []))
Same-extend [] c h = left (c ∷ []) (h, tt)
Same-extend (x ∷ p) c h = both x x p (p ++ (c ∷ [])) refl (Same-extend p c h)

Same-last : (p : Text) (c d : ℕ) → Same (p ++ (c ∷ [])) (p ++ (d ∷ [])) → tolower c ≡ tolower d
Same-last [] c d (both x y s t e h) = e
Same-last (z ∷ p) c d (both x y s t e h) = Same-last p c d h

pub Same-symm : {s t : Text} → Same s t → Same t s
Same-symm (left t h) = right t h
Same-symm (right s h) = left s h
Same-symm (both x y s t e h) = both y x t s (sym e) (Same-symm h)

tolower-isspace : (c d : ℕ) → isspace c ≡ true → isspace d ≡ true → tolower c ≡ tolower d → c ≡ d
unfolding tolower isspace
tolower-isspace c d hc hd e = ground arith

-- The equality of views is not transitive: two different white space bytes after a common text of
-- less than 2 ^ 31 - 1 bytes make two texts that differ, though each equals the text.
pub compare_nocase_rtrim-not_transitive :
    (p : Text) (c d : ℕ)
    → length p < 2 ^ 31 - 1
    → isspace c ≡ true
    → isspace d ≡ true
    → c ≢ d
    → (compare_nocase_rtrim (p ++ (c ∷ [])) p ≡ pos 0)
      × (compare_nocase_rtrim p (p ++ (d ∷ [])) ≡ pos 0)
      × (compare_nocase_rtrim (p ++ (c ∷ [])) (p ++ (d ∷ [])) ≢ pos 0)
compare_nocase_rtrim-not_transitive p c d hp hc hd ne = (
  (compare_nocase_rtrim-Same _ _ (short c) (omega arith)).1 (Same-symm (Same-extend p c hc)),
  (compare_nocase_rtrim-Same _ _ (omega arith) (short d)).1 (Same-extend p d hd),
  λ e. ne (
      tolower-isspace c d hc hd
        (Same-last p c d ((compare_nocase_rtrim-Same _ _ (short c) (short d)).0 e))),
)
  where
    short : (x : ℕ) → length (p ++ (x ∷ [])) < 2 ^ 31
    short x = omega (arith, length-append p (x ∷ []))
