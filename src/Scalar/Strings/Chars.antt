-- ===== src/Scalar/Strings/Chars.antt =====
-- The string functions of lib/scalarfn.c on a view that is well-formed UTF-8.
use fql.Prelude.{
  ℕ, zero, suc, ◌+◌, ◌<◌, ◌≤◌, true, false, some, List, [], ◌∷◌, ◌++◌, ◌≡◌, refl, ◌∙◌, sym, ap, ◌≢◌,
  ltb, ◌==◌, length, take, drop, arith, append_assoc, append-nil, length-append, dec_lt,
}
use fql.Prelude.Int.{pos}
use fql.Status.{good, ◌>>=◌}
use fql.Text.{Text}
use fql.Scalar.Strings.{strncpy, get_byte_count, chars_bytes, fql_left}

-- A continuation byte.
abbrev pub IsTail : ℕ → Type 0
IsTail c = (128 ≤ c) × (c < 192)

-- The bytes of one character, NUL apart.
pub data IsChar : Text → Type 0 where
  one : (a : ℕ) → 0 < a → a < 128 → IsChar (a ∷ [])
  two : (a b : ℕ) → 192 ≤ a → a < 224 → IsTail b → IsChar (a ∷ b ∷ [])
  three : (a b c : ℕ) → 224 ≤ a → a < 240 → IsTail b → IsTail c → IsChar (a ∷ b ∷ c ∷ [])
  four :
      (a b c d : ℕ)
      → 240 ≤ a
      → a < 248
      → IsTail b
      → IsTail c
      → IsTail d
      → IsChar (a ∷ b ∷ c ∷ d ∷ [])

abbrev pub AllChars : List Text → Type 0
AllChars [] = Unit
AllChars (x ∷ xs) = IsChar x × AllChars xs

-- The bytes of a list of characters.
abbrev pub join : List Text → Text
join [] = []
join (x ∷ xs) = x ++ join xs

chars_bytes-char :
    (n : ℕ) (x rest : Text)
    → IsChar x
    → chars_bytes (suc n) (x ++ rest) ≡ (chars_bytes n rest >>= λ r. some (length x + r))
unfolding chars_bytes get_byte_count
chars_bytes-char n _ rest (one a lo hi) = ground arith
chars_bytes-char n _ rest (two a b lo hi p) = ground arith
chars_bytes-char n _ rest (three a b c lo hi p q) = ground arith
chars_bytes-char n _ rest (four a b c d lo hi p q r) = ground arith

-- The bytes of the first n characters.
pub chars_bytes-join :
    (n : ℕ) (xs : List Text)
    → AllChars xs
    → chars_bytes n (join xs) ≡ some (length (join (take n xs)))
unfolding chars_bytes
chars_bytes-join zero xs all = refl
chars_bytes-join (suc n) [] all = refl
chars_bytes-join (suc n) (x ∷ xs) all =
    rw (chars_bytes-char n x (join xs) all.0, chars_bytes-join n xs all.1)
      (ap some (sym (length-append x (join (take n xs)))))

abbrev pub NoNul : Text → Type 0
NoNul [] = Unit
NoNul (c ∷ cs) = (c ≢ 0) × NoNul cs

NoNul-append : (xs ys : Text) → NoNul xs → NoNul ys → NoNul (xs ++ ys)
NoNul-append [] ys h k = k
NoNul-append (x ∷ xs) ys h k = (h.0, NoNul-append xs ys h.1 k)

IsChar-NoNul : (x : Text) → IsChar x → NoNul x
IsChar-NoNul _ (one a lo hi) = ground arith
IsChar-NoNul _ (two a b lo hi p) = ground arith
IsChar-NoNul _ (three a b c lo hi p q) = ground arith
IsChar-NoNul _ (four a b c d lo hi p q r) = ground arith

join-NoNul : (xs : List Text) → AllChars xs → NoNul (join xs)
join-NoNul [] all = tt
join-NoNul (x ∷ xs) all = NoNul-append x (join xs) (IsChar-NoNul x all.0) (join-NoNul xs all.1)

pub AllChars-take : (n : ℕ) (xs : List Text) → AllChars xs → AllChars (take n xs)
AllChars-take zero xs all = tt
AllChars-take (suc n) [] all = tt
AllChars-take (suc n) (x ∷ xs) all = (all.0, AllChars-take n xs all.1)

pub AllChars-drop : (n : ℕ) (xs : List Text) → AllChars xs → AllChars (drop n xs)
AllChars-drop zero xs all = all
AllChars-drop (suc n) [] all = tt
AllChars-drop (suc n) (x ∷ xs) all = AllChars-drop n xs all.1

pub join-take-drop : (n : ℕ) (xs : List Text) → join xs ≡ join (take n xs) ++ join (drop n xs)
join-take-drop zero xs = refl
join-take-drop (suc n) [] = refl
join-take-drop (suc n) (x ∷ xs) =
    rw (append_assoc x (join (take n xs)) (join (drop n xs)))
      (ap (λ l. x ++ l) (join-take-drop n xs))

strncpy-prefix : (xs ys : Text) → NoNul xs → strncpy (xs ++ ys) (length xs) ≡ xs
strncpy-prefix [] ys h = refl
strncpy-prefix (x ∷ xs) ys h =
    let other : (x == 0) ≡ false = ground arith in
    rw other (ap (λ l. x ∷ l) (strncpy-prefix xs ys h.1))

-- A copy of the first characters.
pub strncpy-join :
    (n : ℕ) (xs : List Text)
    → AllChars xs
    → strncpy (join xs) (length (join (take n xs))) ≡ join (take n xs)
strncpy-join n xs all =
    ap (λ l. strncpy l (length (join (take n xs)))) (join-take-drop n xs)
    ∙ strncpy-prefix (join (take n xs)) (join (drop n xs))
        (join-NoNul (take n xs) (AllChars-take n xs all))

pub strncpy-whole : (xs : List Text) → AllChars xs → strncpy (join xs) (length (join xs)) ≡ join xs
strncpy-whole xs all =
    ap (λ l. strncpy l (length (join xs))) (sym (append-nil (join xs)))
    ∙ strncpy-prefix (join xs) [] (join-NoNul xs all)

IsChar-length : (x : Text) → IsChar x → 0 < length x
IsChar-length _ (one a lo hi) = omega arith
IsChar-length _ (two a b lo hi p) = omega arith
IsChar-length _ (three a b c lo hi p q) = omega arith
IsChar-length _ (four a b c d lo hi p q r) = omega arith

-- There are at least as many bytes as characters.
pub length-join : (xs : List Text) → AllChars xs → length xs ≤ length (join xs)
length-join [] all = omega arith
length-join (x ∷ xs) all =
    omega (arith, length-join xs all.1, IsChar-length x all.0, length-append x (join xs))

pub take-all : (n : ℕ) (xs : List Text) → length xs ≤ n → take n xs ≡ xs
take-all zero [] h = refl
take-all zero (x ∷ xs) h = absurd (omega arith)
take-all (suc n) [] h = refl
take-all (suc n) (x ∷ xs) h = ap (λ l. x ∷ l) (take-all n xs (omega arith))

-- LEFT of well-formed UTF-8 without NUL gives its first n characters, or all of them where there
-- are fewer.
pub fql_left-chars :
    (n : ℕ) (xs : List Text)
    → AllChars xs
    → fql_left false (join xs) (pos n) ≡ good (join (take n xs))
unfolding fql_left
fql_left-chars n xs all = elim (dec_lt (length (join xs)) n) [
  | yes p ↦
      let long : ltb (length (join xs)) n ≡ true = ground arith in
      rw (long, take-all n xs (omega (arith, length-join xs all))) (ap good (strncpy-whole xs all))
  | no p ↦
      let short : ltb (length (join xs)) n ≡ false = ground arith in
      rw (short, chars_bytes-join n xs all) (ap good (strncpy-join n xs all))
]
