-- ===== src/Scalar/Strings/Substring.antt =====
-- SUBSTRING and LEN of lib/scalarfn.c on a view that is well-formed UTF-8.
use fql.Prelude.{
  ℕ, ◌-◌, false, some, List, [], ◌∷◌, ◌++◌, ◌≡◌, refl, ◌∙◌, ap, if◌then◌else◌, length, take, drop,
  arith, length-append, Bool-cases, inl, inr,
}
use fql.Prelude.Int.{ℤ, pos, pos_part, neg_part, ltb_ℤ, ◌+ℤ◌, ◌-ℤ◌}
use fql.Status.{good, ◌>>=◌, got_of}
use fql.Text.{Text}
use fql.Scalar.Arith.{Run, done}
use fql.Scalar.Strings.{strncpy, chars_bytes, fql_substring, start_index, substring_at}
use fql.Scalar.Strings.Chars.{
  AllChars, join, chars_bytes-join, AllChars-drop, join-take-drop, strncpy-join, strncpy-whole,
  take-all, length-join,
}

drop-append {ℓ} : {A : Type ℓ} (xs ys : List A) → drop (length xs) (xs ++ ys) ≡ ys
drop-append [] ys = refl
drop-append (x ∷ xs) ys = drop-append xs ys

-- The bytes after the first n characters.
pub drop-join :
    (n : ℕ) (xs : List Text) → drop (length (join (take n xs))) (join xs) ≡ join (drop n xs)
drop-join n xs =
    ap (λ l. drop (length (join (take n xs))) l) (join-take-drop n xs)
    ∙ drop-append (join (take n xs)) (join (drop n xs))

-- The copy of n characters from what is left, as the code makes it.
copy : (count : ℤ) (xs : List Text) → Run Text
copy count xs =
    if ltb_ℤ (pos (length (join xs))) count
    then done (good (strncpy (join xs) (length (join xs))))
    else done (
        got_of (
          chars_bytes (pos_part count) (join xs) >>= λ byte_count.
          some (strncpy (join xs) byte_count)))

copy-chars :
    (count : ℤ) (xs : List Text)
    → AllChars xs
    → copy count xs ≡ done (good (join (take (pos_part count) xs)))
unfolding copy
copy-chars count xs all = elim (Bool-cases (ltb_ℤ (pos (length (join xs))) count)) [
  | inl e ↦
      rw (e, take-all (pos_part count) xs (ground (arith, length-join xs all)))
        (ap (λ t. done (good t)) (strncpy-whole xs all))
  | inr e ↦
      rw (e, chars_bytes-join (pos_part count) xs all)
        (ap (λ t. done (good t)) (strncpy-join (pos_part count) xs all))
]

substring_at-chars :
    (count : ℤ) (s : ℕ) (xs : List Text)
    → AllChars xs
    → substring_at false (join xs) count (some (length (join (take s xs))))
      ≡ done (good (join (take (pos_part count) (drop s xs))))
unfolding substring_at copy ◌+ℤ◌
substring_at-chars count s xs all =
    let total = length-append (join (take s xs)) (join (drop s xs)) in
    let rest : length (join xs) - length (join (take s xs)) ≡ length (join (drop s xs)) =
      omega (arith, total, ap length (join-take-drop s xs)) in
    let beyond : ltb_ℤ (pos (length (join xs))) (pos (length (join (take s xs))) +ℤ count)
        ≡ ltb_ℤ (pos (length (join (drop s xs)))) count =
      ground (arith, total, ap length (join-take-drop s xs)) in
    rw (beyond, drop-join s xs, rest) (copy-chars count (drop s xs) (AllChars-drop s xs all))

count_of :
    (n : ℕ) (start : ℤ)
    → pos_part (if ltb_ℤ start (pos 0) then pos n +ℤ start else pos n) ≡ n - neg_part start
unfolding ◌+ℤ◌
count_of n start = ground arith

-- SUBSTRING of well-formed UTF-8 without NUL gives n characters from the one that `first` counts,
-- from 1 on, or as many of them as there are; the characters that would stand before the first one
-- are counted and left out.
pub fql_substring-chars :
    (first : ℤ) (n : ℕ) (xs : List Text)
    → AllChars xs
    → let start = first -ℤ pos 1 in
      fql_substring false (join xs) first (pos n)
      ≡ done (good (join (take (n - neg_part start) (drop (pos_part start) xs))))
unfolding fql_substring start_index
fql_substring-chars first n xs all =
    let start = first -ℤ pos 1 in
    let count = if ltb_ℤ start (pos 0) then pos n +ℤ start else pos n in
    ap (λ idx. substring_at false (join xs) count idx) (chars_bytes-join (pos_part start) xs all)
    ∙ substring_at-chars count (pos_part start) xs all
    ∙ ap (λ k. done (good (join (take k (drop (pos_part start) xs))))) (count_of n start)
