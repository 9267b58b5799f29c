-- ===== src/Scalar/Strings/Ends.antt =====
-- LEN and RIGHT of lib/scalarfn.c on a view that is well-formed UTF-8.
use fql.Prelude.{
  ℕ, zero, suc, ◌+◌, ◌-◌, ◌<◌, ◌≤◌, Bool, true, false, ◌&&◌, some, List, [], ◌∷◌, ◌++◌, ◌≡◌, refl,
  ◌∙◌, sym, ap, ltb, ◌==◌, if◌then◌else◌, length, length-drop, take, drop, arith, append_assoc,
  append-nil, length-append, dec_lt, Option-cases, inl, inr,
}
use mathlib.Core.List.{reverse, reverse-append}
use mathlib.Core.Path.{ap₂}
use fql.Prelude.Int.{pos}
use fql.Status.{good, ◌>>=◌}
use fql.Text.{Text, isspace}
use fql.Scalar.Strings.{
  strncpy, get_byte_count, get_rev_byte_count, len_loop, fql_len, rev_chars_bytes, fql_right,
}
use fql.Scalar.Strings.Chars.{
  IsChar, one, two, three, four, AllChars, join, strncpy-whole, NoNul, AllChars-drop,
  join-take-drop,
}
use fql.Scalar.Strings.Substring.{drop-join}

-- A character that is white space.
abbrev pub is_blank : Text → Bool
is_blank [] = false
is_blank (c ∷ cs) = isspace c

-- The number of characters without the white space at the end.
abbrev pub trimmed_length : List Text → ℕ
trimmed_length [] = 0
trimmed_length (x ∷ xs) =
    let rest = trimmed_length xs in if rest == 0 && is_blank x then 0 else suc rest

len_loop-char :
    (len ns : ℕ) (x rest : Text)
    → IsChar x
    → len_loop false 0 len ns (x ++ rest)
      ≡ len_loop false 0 (len + 1) (if is_blank x then ns else len + 1) rest
unfolding len_loop get_byte_count
len_loop-char len ns _ rest (one a lo hi) = ground arith
len_loop-char len ns _ rest (two a b lo hi p) = ground arith
len_loop-char len ns _ rest (three a b c lo hi p q) = ground arith
len_loop-char len ns _ rest (four a b c d lo hi p q r) = ground arith

len_loop-join :
    (len ns : ℕ) (xs : List Text)
    → AllChars xs
    → len_loop false 0 len ns (join xs)
      ≡ some (if trimmed_length xs == 0 then ns else len + trimmed_length xs)
unfolding len_loop
len_loop-join len ns [] all = refl
len_loop-join len ns (x ∷ xs) all =
    len_loop-char len ns x (join xs) all.0
    ∙ len_loop-join (len + 1) (if is_blank x then ns else len + 1) xs all.1
    ∙ ap some (ground arith)

-- LEN of well-formed UTF-8 without NUL counts its characters up to the last one that is no white
-- space.
pub fql_len-chars :
    (xs : List Text) → AllChars xs → fql_len false (join xs) ≡ some (trimmed_length xs)
unfolding fql_len
fql_len-chars xs all = len_loop-join 0 0 xs all ∙ ap some (ground arith)

rev_chars_bytes-char :
    (n : ℕ) (x rest : Text)
    → IsChar x
    → rev_chars_bytes (suc n) (reverse x ++ rest)
      ≡ (rev_chars_bytes n rest >>= λ r. some (length x + r))
unfolding rev_chars_bytes get_rev_byte_count
rev_chars_bytes-char n _ rest (one a lo hi) = ground arith
rev_chars_bytes-char n _ rest (two a b lo hi p) = ground arith
rev_chars_bytes-char n _ rest (three a b c lo hi p q) = ground arith
rev_chars_bytes-char n _ rest (four a b c d lo hi p q r) = ground arith

-- The bytes of the last characters, of more where there are characters before them.
rev_chars_bytes-join :
    (xs : List Text) (m : ℕ) (rest : Text)
    → AllChars xs
    → rev_chars_bytes (length xs + m) (reverse (join xs) ++ rest)
      ≡ (rev_chars_bytes m rest >>= λ r. some (length (join xs) + r))
rev_chars_bytes-join [] m rest all =
    let none_more : 0 + m ≡ m = omega arith in
    ap (λ k. rev_chars_bytes k rest) none_more ∙ elim (Option-cases (rev_chars_bytes m rest)) [
      | inl e ↦ rw e refl
      | inr (r, e) ↦ rw e (ap some (omega arith))
    ]
rev_chars_bytes-join (x ∷ xs) m rest all =
    ap₂ rev_chars_bytes (count_on (length xs) m) (
      ap (λ l. l ++ rest) (reverse-append x (join xs))
      ∙ append_assoc (reverse (join xs)) (reverse x) rest)
    ∙ rev_chars_bytes-join xs (suc m) (reverse x ++ rest) all.1
    ∙ ap (λ o. o >>= λ r. some (length (join xs) + r)) (rev_chars_bytes-char m x rest all.0)
    ∙ elim (Option-cases (rev_chars_bytes m rest)) [
      | inl e ↦ rw e refl
      | inr (r, e) ↦ rw e (ap some (omega (arith, length-append x (join xs))))
    ]
  where
    count_on : (a b : ℕ) → suc a + b ≡ a + suc b
    count_on a b = omega arith

rev_chars_bytes-nil : (m : ℕ) → rev_chars_bytes m [] ≡ some 0
unfolding rev_chars_bytes
rev_chars_bytes-nil zero = refl
rev_chars_bytes-nil (suc m) = refl

rev_chars_bytes-zero : (rest : Text) → rev_chars_bytes 0 rest ≡ some 0
unfolding rev_chars_bytes
rev_chars_bytes-zero rest = refl

-- The last characters, where nothing is to be taken from what stands before them.
rev_chars_bytes-last :
    (n : ℕ) (xs : List Text) (m : ℕ) (rest : Text)
    → AllChars xs
    → length xs + m ≡ n
    → rev_chars_bytes m rest ≡ some 0
    → rev_chars_bytes n (reverse (join xs) ++ rest) ≡ some (length (join xs))
rev_chars_bytes-last n xs m rest all e stop =
    rw (← e) (rev_chars_bytes-join xs m rest all)
    ∙ ap (λ o. o >>= λ r. some (length (join xs) + r)) stop
    ∙ ap some (omega arith)

last_bytes :
    (n : ℕ) (xs : List Text)
    → AllChars xs
    → rev_chars_bytes n (reverse (join xs)) ≡ some (length (join (drop (length xs - n) xs)))
last_bytes n xs all = elim (dec_lt (length xs) n) [
  | yes p ↦
      let from_start : length xs - n ≡ 0 = omega arith in
      rw from_start (
        ap (λ l. rev_chars_bytes n l) (sym (append-nil (reverse (join xs))))
        ∙ rev_chars_bytes-last n xs (n - length xs) [] all (omega arith)
            (rev_chars_bytes-nil (n - length xs)))
  | no p ↦
      let k = length xs - n in
      ap (λ l. rev_chars_bytes n l)
        (ap reverse (join-take-drop k xs) ∙ reverse-append (join (take k xs)) (join (drop k xs)))
      ∙ rev_chars_bytes-last n (drop k xs) 0 (reverse (join (take k xs))) (AllChars-drop k xs all)
          (omega (arith, length-drop k xs)) (rev_chars_bytes-zero (reverse (join (take k xs))))
]

strncpy-beyond :
    (xs ys : Text) (n : ℕ)
    → NoNul xs
    → length xs ≤ n
    → strncpy (xs ++ ys) n ≡ xs ++ strncpy ys (n - length xs)
strncpy-beyond [] ys n h le = ap (λ k. strncpy ys k) (omega arith)
strncpy-beyond (x ∷ xs) ys zero h le = absurd (omega arith)
strncpy-beyond (x ∷ xs) ys (suc n) h le =
    let other : (x == 0) ≡ false = ground arith in
    let same : suc n - suc (length xs) ≡ n - length xs = omega arith in
    rw (other, same) (ap (λ l. x ∷ l) (strncpy-beyond xs ys n h.1 (omega arith)))

-- RIGHT of well-formed UTF-8 without NUL gives its last n characters, or all of them where there
-- are fewer, as long as n is at most the number of bytes.
pub fql_right-chars :
    (n : ℕ) (xs : List Text) (after : Text)
    → AllChars xs
    → n ≤ length (join xs)
    → fql_right false (join xs) after (pos n) ≡ good (join (drop (length xs - n) xs))
unfolding fql_right
fql_right-chars n xs after all fits =
    let k = length xs - n in
    let last = drop k xs in
    let bytes : rev_chars_bytes n (reverse (join xs)) ≡ some (length (join last)) =
      last_bytes n xs all in
    let short : ltb (length (join xs)) n ≡ false = ground arith in
    let start : length (join xs) - length (join last) ≡ length (join (take k xs)) =
      omega
        (arith, ap length (join-take-drop k xs), length-append (join (take k xs)) (join last)) in
    rw (short, bytes, start, drop-join k xs) (ap good (strncpy-whole last (AllChars-drop k xs all)))

-- Where n is more than the number of bytes of a view without NUL, RIGHT goes on to copy the memory
-- behind the view.
pub fql_right-over_read :
    (char_as_byte : Bool) (sv after : Text) (n : ℕ)
    → NoNul sv
    → length sv < n
    → fql_right char_as_byte sv after (pos n) ≡ good (sv ++ strncpy after (n - length sv))
unfolding fql_right
fql_right-over_read char_as_byte sv after n clean lt =
    let long : ltb (length sv) n ≡ true = ground arith in
    rw long (ap good (strncpy-beyond sv after n clean (omega arith)))
