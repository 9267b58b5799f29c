-- ===== src/Aggregate/Total.antt =====
-- COUNT, SUM and AVG of a group.
use fql.Prelude.{
  ℕ, ◌+◌, ◌%◌, ◌^◌, ◌<◌, ◌≤◌, true, false, ◌&&◌, Option, none, some, List, [], ◌∷◌, ◌≡◌, refl, ◌∙◌,
  ap, inl, inr, ◌==◌, if◌then◌else◌, length, arith, Bool-cases,
}
use fql.Prelude.Int.{ℤ, pos, pos_part, neg_part, ◌+ℤ◌}
use fql.Status.{Got, good, null, ◌>>=◌}
use fql.Scalar.Arith.{InLong, fits, long_max, overflow_safe_add, quotient}
use fql.Scalar.Arith.Exact.{overflow_safe_add-exact}
use fql.Aggregate.{
  AggResult, read, fql_count, fql_sum_i, fql_avg_i, update_agg_result, add_agg_result, update_all,
  group_result,
}
use fql.Aggregate.Extreme.{Values, none_left, a_value, a_null, All}

-- The sum from left to right, which fails where it leaves the range of a long.
abbrev pub checked_sum : ℤ → List ℤ → Option ℤ
checked_sum acc [] = some acc
checked_sum acc (v ∷ vs) = if fits (acc +ℤ v) then checked_sum (acc +ℤ v) vs else none

-- A long that is not the least one.
abbrev pub Summand : ℤ → Type 0
Summand v = (neg_part v < 2 ^ 63) × (pos_part v ≤ long_max)

overflow_safe_add-Summand :
    (acc v : ℤ)
    → InLong acc
    → Summand v
    → overflow_safe_add acc v ≡ (if fits (acc +ℤ v) then some (acc +ℤ v) else none)
overflow_safe_add-Summand acc v long h =
    let w : InLong v = record { above = omega arith; below = omega arith } in
    let other : (neg_part acc == 2 ^ 63 && neg_part v == 2 ^ 63) ≡ false = ground arith in
    overflow_safe_add-exact acc v long w ∙ rw other refl

fits-InLong : (z : ℤ) → fits z ≡ true → InLong z
fits-InLong z h = ground arith

abbrev pub data_of : Option (AggResult ℤ) → Option ℤ
data_of o = o >>= λ r. some r.data_

-- A row of SUM after the running total.
update-sum :
    (r : AggResult ℤ) (row : Got ℤ) (v : ℤ)
    → read (pos 0) row ≡ some v
    → InLong r.data_
    → Summand v
    → update_agg_result fql_sum_i r row ≡ (
        if fits (r.data_ +ℤ v)
        then some (record r { data_ = r.data_ +ℤ v; qty = (r.qty + 1) % 2 ^ 32 })
        else none)
unfolding update_agg_result fql_sum_i
update-sum r row v e long h = elim (Bool-cases (fits (r.data_ +ℤ v))) [
  | inl b ↦ rw (e, overflow_safe_add-Summand r.data_ v long h, b) refl
  | inr b ↦ rw (e, overflow_safe_add-Summand r.data_ v long h, b) refl
]

update_all-sum :
    {rows : List (Got ℤ)} {vs : List ℤ}
    → Values (pos 0) rows vs
    → (r : AggResult ℤ) → InLong r.data_
    → All Summand vs
    → data_of (update_all fql_sum_i r rows) ≡ checked_sum r.data_ vs
unfolding update_all
update_all-sum none_left r long h = refl
update_all-sum (a_value a rows vs p) r long h = elim (Bool-cases (fits (r.data_ +ℤ a))) [
  | inl b ↦
      rw (update-sum r (good a) a refl long h.0, b)
        (update_all-sum p (record r { data_ = r.data_ +ℤ a; qty = (r.qty + 1) % 2 ^ 32 })
          (fits-InLong (r.data_ +ℤ a) b) h.1)
  | inr b ↦ rw (update-sum r (good a) a refl long h.0, b) refl
]
update_all-sum (a_null rows vs p) r long h = elim (Bool-cases (fits (r.data_ +ℤ pos 0))) [
  | inl b ↦
      rw (update-sum r null (pos 0) refl long h.0, b)
        (update_all-sum p (record r { data_ = r.data_ +ℤ pos 0; qty = (r.qty + 1) % 2 ^ 32 })
          (fits-InLong (r.data_ +ℤ pos 0) b) h.1)
  | inr b ↦ rw (update-sum r null (pos 0) refl long h.0, b) refl
]

group-update_all :
    (call : AggResult ℤ → Got ℤ → Option (AggResult ℤ)) (row : Got ℤ) (rows : List (Got ℤ))
    → group_result call (pos 0) row rows
      ≡ update_all call (record { data_ = pos 0; auxdata = pos 0; qty = 0 }) (row ∷ rows)
unfolding group_result add_agg_result update_all
group-update_all call row rows = refl

-- SUM over a group whose values are longs other than the least one adds them up from left to right,
-- a NULL counting as 0, and fails exactly where a running total is no long.
pub fql_sum_i-checked :
    (row : Got ℤ) (rows : List (Got ℤ)) (vs : List ℤ)
    → Values (pos 0) (row ∷ rows) vs
    → All Summand vs
    → data_of (group_result fql_sum_i (pos 0) row rows) ≡ checked_sum (pos 0) vs
fql_sum_i-checked row rows vs p h = rw (group-update_all fql_sum_i row rows) (
    update_all-sum p (record { data_ = pos 0; auxdata = pos 0; qty = 0 })
      (record { above = omega arith; below = omega arith }) h)

update-avg :
    (r : AggResult ℤ) (row : Got ℤ) (v : ℤ)
    → read (pos 0) row ≡ some v
    → InLong r.auxdata
    → Summand v
    → r.qty + 1 < 2 ^ 32
    → update_agg_result fql_avg_i r row ≡ (
        if fits (r.auxdata +ℤ v)
        then some (record {
          data_ = quotient (r.auxdata +ℤ v) (pos (r.qty + 1));
          auxdata = r.auxdata +ℤ v;
          qty = r.qty + 1;
        })
        else none)
unfolding update_agg_result fql_avg_i
update-avg r row v e long h few =
    let count : (r.qty + 1) % 2 ^ 32 ≡ r.qty + 1 = ground arith in
    let some_rows : (r.qty + 1 == 0) ≡ false = ground arith in
    let counted : ℕ → Option (AggResult ℤ) = λ n.
      (if n == 0
        then none
        else some
            (record r { auxdata = r.auxdata +ℤ v; data_ = quotient (r.auxdata +ℤ v) (pos n) }))
      >>= λ r'. some (record r' { qty = (r'.qty + 1) % 2 ^ 32 }) in
    elim (Bool-cases (fits (r.auxdata +ℤ v))) [
      | inl b ↦
          rw (e, overflow_safe_add-Summand r.auxdata v long h, b)
            (ap (λ n. counted n) count ∙ rw (some_rows, count) refl)
      | inr b ↦ rw (e, overflow_safe_add-Summand r.auxdata v long h, b) refl
    ]

update_all-avg :
    {rows : List (Got ℤ)} {vs : List ℤ}
    → Values (pos 0) rows vs
    → (r : AggResult ℤ) (n : ℕ) → InLong r.auxdata
    → All Summand vs
    → r.qty + length vs ≡ n
    → n < 2 ^ 32
    → r.data_ ≡ quotient r.auxdata (pos r.qty)
    → data_of (update_all fql_avg_i r rows)
      ≡ (checked_sum r.auxdata vs >>= λ total. some (quotient total (pos n)))
unfolding update_all
update_all-avg none_left r n long h e few here =
    let same : n ≡ r.qty = omega arith in rw same (ap some here)
update_all-avg (a_value a rows vs p) r n long h e few here =
    elim (Bool-cases (fits (r.auxdata +ℤ a))) [
      | inl b ↦
          rw (update-avg r (good a) a refl long h.0 (omega arith), b)
            (update_all-avg p _ n (fits-InLong (r.auxdata +ℤ a) b) h.1 (omega arith) few refl)
      | inr b ↦ rw (update-avg r (good a) a refl long h.0 (omega arith), b) refl
    ]
update_all-avg (a_null rows vs p) r n long h e few here =
    elim (Bool-cases (fits (r.auxdata +ℤ pos 0))) [
      | inl b ↦
          rw (update-avg r null (pos 0) refl long h.0 (omega arith), b)
            (update_all-avg p _ n (fits-InLong (r.auxdata +ℤ pos 0) b) h.1 (omega arith) few refl)
      | inr b ↦ rw (update-avg r null (pos 0) refl long h.0 (omega arith), b) refl
    ]

-- AVG over such a group of fewer than 2 ^ 32 rows is the sum divided by the number of rows, rounded to
-- 0, a NULL counting as a row with the value 0; it fails exactly where SUM does.
pub fql_avg_i-checked :
    (row : Got ℤ) (rows : List (Got ℤ)) (vs : List ℤ)
    → Values (pos 0) (row ∷ rows) vs
    → All Summand vs
    → length vs < 2 ^ 32
    → data_of (group_result fql_avg_i (pos 0) row rows)
      ≡ (checked_sum (pos 0) vs >>= λ total. some (quotient total (pos (length vs))))
fql_avg_i-checked row rows vs p h few = rw (group-update_all fql_avg_i row rows) (
    update_all-avg p (record { data_ = pos 0; auxdata = pos 0; qty = 0 }) (length vs)
      (record { above = omega arith; below = omega arith }) h (omega arith) few refl)

update_all-count :
    (rows : List (Got ℤ)) (r : AggResult ℤ) (n : ℕ)
    → r.data_ ≡ pos n
    → data_of (update_all fql_count r rows) ≡ some (pos (n + length rows))
unfolding update_all update_agg_result fql_count ◌+ℤ◌
update_all-count [] r n e = ap some (e ∙ ap pos (omega arith))
update_all-count (row ∷ rows) r n e =
    update_all-count rows _ (n + 1) (ground arith) ∙ ap (λ k. some (pos k)) (omega arith)

-- COUNT gives the number of rows of a group, whatever its argument is in them: NULL rows count, and
-- a row whose argument fails does not make it fail.
pub fql_count-length :
    (row : Got ℤ) (rows : List (Got ℤ))
    → data_of (group_result fql_count (pos 0) row rows) ≡ some (pos (length (row ∷ rows)))
fql_count-length row rows = rw (group-update_all fql_count row rows) (
    update_all-count (row ∷ rows) (record { data_ = pos 0; auxdata = pos 0; qty = 0 }) 0 refl
    ∙ ap (λ k. some (pos k)) (omega arith))
