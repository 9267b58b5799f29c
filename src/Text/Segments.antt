-- ===== src/Text/Segments.antt =====
-- Segments of a buffer that grows at its end, as in util/hashmap.c and util/flex.c.
use fql.Prelude.{
  ℕ, zero, suc, ◌+◌, ◌≤◌, List, [], ◌∷◌, ◌++◌, ◌≡◌, refl, ap, length, take, drop, read_at, arith,
  length-take, length-drop,
}

module _ {ℓ} {A : Type ℓ} where
  take-append : (n : ℕ) (xs ys : List A) → n ≤ length xs → take n (xs ++ ys) ≡ take n xs
  take-append zero xs ys h = refl
  take-append (suc n) [] ys h = absurd (omega arith)
  take-append (suc n) (x ∷ xs) ys h = ap (λ l. x ∷ l) (take-append n xs ys (omega arith))

  -- What is written behind the buffer changes nothing in it.
  pub read_at-append :
      (xs ys : List A) (i n : ℕ) → i + n ≤ length xs → read_at (xs ++ ys) i n ≡ read_at xs i n
  read_at-append xs ys zero n h = take-append n xs ys (omega arith)
  read_at-append [] ys (suc i) zero h = absurd (omega arith)
  read_at-append [] ys (suc i) (suc n) h = absurd (omega arith)
  read_at-append (x ∷ xs) ys (suc i) n h = read_at-append xs ys i n (omega arith)

  pub read_at-end : (xs ys : List A) → read_at (xs ++ ys) (length xs) (length ys) ≡ ys
  read_at-end [] [] = refl
  read_at-end [] (y ∷ ys) = ap (λ l. y ∷ l) (read_at-end [] ys)
  read_at-end (x ∷ xs) ys = read_at-end xs ys

  pub length-read_at : (xs : List A) (i n : ℕ) → i + n ≤ length xs → length (read_at xs i n) ≡ n
  length-read_at xs i n h = omega (arith, length-take n (drop i xs), length-drop i xs)

  pub take-length-append : (xs ys : List A) → take (length xs) (xs ++ ys) ≡ xs
  take-length-append [] ys = refl
  take-length-append (x ∷ xs) ys = ap (λ l. x ∷ l) (take-length-append xs ys)
