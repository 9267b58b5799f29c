-- ===== src/Order/Keys.antt =====
-- The comparison of lib/order.c on what it has stored of two records.
use fql.Prelude.{
  ℕ, zero, suc, ◌+◌, ◌-◌, ◌<◌, ◌^◌, Bool, true, false, Option, some, List, [], ◌∷◌, ◌≡◌, refl, ◌∙◌,
  sym, ap, inl, inr, map, if◌then◌else◌, length, get_elem?, take, arith, ltb, leb, Bool-cases,
}
use mathlib.Core.Path.{ap₂}
use Prim.Native.Nat.{min}
use fql.Prelude.Int.{ℤ, pos, negsuc, ltb_ℤ}
use fql.Text.Compare.{compare_nocase_rtrim-neg}
use fql.Field.{FieldType, field_undefined, field_int, field_float, field_string}
use fql.Order.{
  Key, OrderExpr, OrderEntry, minus, is_zero, num_compare, compare_values, directed, read_int,
  read_float, read_string, compare_loop, select_loop,
}

take-nil : (n : ℕ) → take {A = OrderEntry} n [] ≡ []
take-nil zero = refl
take-nil (suc n) = refl

-- TOP lets through the first rows, as many as it says less those counted before.
pub select_loop-take :
    (top_count n : ℕ) (entries : List OrderEntry)
    → select_loop top_count n entries ≡ (
      map (λ (e : OrderEntry). (e.offset, e.len)) (take (top_count - n) entries),
      n + min (top_count - n) (length entries),
    )
unfolding select_loop
select_loop-take top n [] = rw (take-nil (top - n)) (ap (λ (m : ℕ). ([], m)) (omega arith))
select_loop-take top n (e ∷ entries) = elim (Bool-cases (ltb n top)) [
  | inl more ↦
      let left : top - n ≡ suc (top - (n + 1)) = ground arith in
      rw (more, left, select_loop-take top (n + 1) entries)
        (ap
          (λ (m : ℕ). (
            (e.offset, e.len)
                ∷ map (λ (e : OrderEntry). (e.offset, e.len)) (take (top - (n + 1)) entries),
            m,
          ))
          (omega arith))
  | inr full ↦
      let left : top - n ≡ 0 = ground arith in
      rw (full, left) (ap (λ (m : ℕ). ([], m)) (omega arith))
]

module _ {F : Type 0} where
  -- Keys that stand in the data from an index on.
  abbrev pub At : List (Key F) → ℕ → List (Key F) → Type 0
  At order_data idx [] = Unit
  At order_data idx (k ∷ ks) = (get_elem? order_data idx ≡ some k) × At order_data (idx + 1) ks

  -- Views below 2 GiB.
  abbrev pub AllShort : List (Key F) → Type 0
  AllShort [] = Unit
  AllShort (k ∷ ks) = (length (read_string (some k)) < 2 ^ 31) × AllShort ks

num_compare-minus : (a b : Bool) → num_compare a b ≡ minus (num_compare b a)
num_compare-minus true true = refl
num_compare-minus true false = refl
num_compare-minus false true = refl
num_compare-minus false false = refl

is_zero-minus : (z : ℤ) → is_zero (minus z) ≡ is_zero z
is_zero-minus (pos zero) = refl
is_zero-minus (pos (suc n)) = let above : leb (suc n) 0 ≡ false = ground arith in rw above refl
is_zero-minus (negsuc n) =
    let below : leb 0 (suc n) ≡ true = ground arith in
    let same : suc n - 0 ≡ suc n = omega arith in rw (below, same) refl

directed-minus :
    {E : Type 0} (e : OrderExpr E) (z : ℤ) → directed e (minus z) ≡ minus (directed e z)
directed-minus e z = elim (Bool-cases e.descending) [ inl d ↦ rw d refl | inr a ↦ rw a refl ]

module _ {F : Type 0} (zero_float : F) (float_gt float_lt : F → F → Bool)
    (swap : (a b : F) → float_gt a b ≡ float_lt b a) where
  pub compare_values-minus :
      (t : FieldType) (k l : Option (Key F))
      → length (read_string k) < 2 ^ 31
      → length (read_string l) < 2 ^ 31
      → compare_values zero_float float_gt float_lt t k l
        ≡ minus (compare_values zero_float float_gt float_lt t l k)
  compare_values-minus field_int k l p q =
      num_compare-minus (ltb_ℤ (read_int l) (read_int k)) (ltb_ℤ (read_int k) (read_int l))
  compare_values-minus field_float k l p q =
      let a = read_float zero_float k in
      let b = read_float zero_float l in
      ap₂ num_compare (swap a b) (sym (swap b a)) ∙ num_compare-minus (float_lt b a) (float_gt b a)
  compare_values-minus field_string k l p q =
      compare_nocase_rtrim-neg (read_string k) (read_string l) p q
  compare_values-minus field_undefined k l p q = refl

module _ {E F : Type 0} (zero_float : F) (float_gt float_lt : F → F → Bool) where
  -- The lexicographic comparison of two lists of keys, each in its direction.
  abbrev pub compare_keys : List (OrderExpr E) → List (Key F) → List (Key F) → ℤ
  compare_keys (e ∷ es) (k ∷ ks) (l ∷ ls) =
      let ret =
        directed e (compare_values zero_float float_gt float_lt e.field_type (some k) (some l)) in
      let rest = compare_keys es ks ls in if is_zero ret then rest else ret
  compare_keys _ _ _ = pos 0

  pub compare_loop-keys :
      (es : List (OrderExpr E)) (order_data : List (Key F)) (i j : ℕ) (ks ls : List (Key F))
      → length ks ≡ length es
      → length ls ≡ length es
      → At order_data i ks
      → At order_data j ls
      → compare_loop zero_float float_gt float_lt es order_data i j ≡ compare_keys es ks ls
  unfolding compare_loop
  compare_loop-keys [] d i j ks ls n m p q = refl
  compare_loop-keys (e ∷ es) d i j (k ∷ ks) (l ∷ ls) n m p q =
      rw
        (p.0, q.0, compare_loop-keys es d (i + 1) (j + 1) ks ls (omega arith) (omega arith) p.1 q.1)
        refl
  compare_loop-keys (e ∷ es) d i j [] ls n m p q = absurd (omega arith)
  compare_loop-keys (e ∷ es) d i j (k ∷ ks) [] n m p q = absurd (omega arith)

  module _ (swap : (a b : F) → float_gt a b ≡ float_lt b a) where
    pub compare_keys-minus :
        (es : List (OrderExpr E)) (ks ls : List (Key F))
        → AllShort ks
        → AllShort ls
        → compare_keys es ks ls ≡ minus (compare_keys es ls ks)
    compare_keys-minus [] ks ls p q = refl
    compare_keys-minus (e ∷ es) [] [] p q = refl
    compare_keys-minus (e ∷ es) [] (l ∷ ls) p q = refl
    compare_keys-minus (e ∷ es) (k ∷ ks) [] p q = refl
    compare_keys-minus (e ∷ es) (k ∷ ks) (l ∷ ls) p q =
        let back = compare_values zero_float float_gt float_lt e.field_type (some l) (some k) in
        let here =
          compare_values-minus zero_float float_gt float_lt swap e.field_type (some k) (some l) p.0
            q.0 in
        rw
          (
            here,
            directed-minus e back,
            is_zero-minus (directed e back),
            compare_keys-minus es ks ls p.1 q.1,
          )
          (elim (Bool-cases (is_zero (directed e back))) [ inl z ↦ rw z refl | inr n ↦ rw n refl ])
