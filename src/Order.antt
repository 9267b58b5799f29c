-- ===== src/Order.antt =====
-- lib/order.c: the keys that ORDER BY stores of its records, their comparison, and the rows that TOP lets
-- through. `order_data`, a util/flex.c, is the list of the values pushed to it. F is the double of C,
-- with its two comparisons; the getters of lib/expression.c are parameters, of which
-- that of views is given what its view holds and gives what it holds then, the same for a function that
-- returns FQL_NULL; the view of each key starts with nothing that can be read, and `none` is FQL_FAIL or
-- a read of such a view. The file of the rows is not modelled:
-- a row is given by its offset and length there.
pub mod Keys
pub mod Direction
pub mod Records
mod Tests
use fql.Prelude.{
  ℕ, zero, suc, ◌+◌, Bool, true, false, Option, none, some, List, [], ◌∷◌, ◌++◌, if◌then◌else◌,
  length, get_elem?, ltb,
}
use fql.Prelude.Int.{ℤ, pos, negsuc, sub_ℕ, pos_part, neg_part, ltb_ℤ}
use fql.Status.{Got, good, null, fail, ◌>>=◌}
use fql.Text.{Text, compare_nocase_rtrim}
use fql.Field.{FieldType, field_undefined, field_int, field_float, field_string}

pub data Key (F : Type 0) : Type 0 where
  key_int : ℤ → Key F
  key_float : F → Key F
  key_string : Text → Key F

-- What `order` reads of an expression of its list.
pub record OrderExpr (E : Type 0) : Type 0 where
  pub expr : E
  pub field_type : FieldType
  pub descending : Bool

-- `struct _entry`
pub record OrderEntry : Type 0 where
  pub idx : ℕ
  pub offset : ℕ
  pub len : ℕ

pub record Order (E F : Type 0) : Type 0 where
  pub expressions : List (OrderExpr E)
  pub entries : List OrderEntry
  pub order_data : List (Key F)
  pub top_count : ℕ

-- FQL_NULL leaves what the variable was set to.
abbrev pub got_or : {A : Type 0} → Got A → A → Option A
got_or (good a) d = some a
got_or null d = some d
got_or fail d = none

-- `num_compare_`
abbrev pub num_compare : Bool → Bool → ℤ
num_compare greater less = sub_ℕ (if greater then 1 else 0) (if less then 1 else 0)

-- `ret *= -1`
abbrev pub minus : ℤ → ℤ
minus z = sub_ℕ (neg_part z) (pos_part z)

abbrev pub is_zero : ℤ → Bool
is_zero (pos zero) = true
is_zero (pos (suc n)) = false
is_zero (negsuc n) = false

module _ {E F R : Type 0} (zero_float : F) (get_int : E → R → Got ℤ) (get_float : E → R → Got F)
    (get_stringview : E → R → Option Text → Option (Option Text)) where
  abbrev pub key_of : OrderExpr E → FieldType → R → Option (Key F)
  key_of e field_int rg = got_or (get_int e.expr rg) (pos 0) >>= λ num. some (key_int num)
  key_of e field_float rg = got_or (get_float e.expr rg) zero_float >>= λ num. some (key_float num)
  key_of e field_string rg =
      get_stringview e.expr rg none >>= λ after. after >>= λ sv. some (key_string sv)
  key_of e field_undefined rg = none

  -- The loop of `order_add_record`.
  abbrev pub push_keys : List (OrderExpr E) → R → List (Key F) → Option (List (Key F))
  push_keys [] rg order_data = some order_data
  push_keys (e ∷ es) rg order_data =
      key_of e e.field_type rg >>= λ k. push_keys es rg (order_data ++ (k ∷ []))

  unfoldable pub order_add_record : Order E F → ℕ → ℕ → R → Option (Order E F)
  order_add_record self offset len rg =
      push_keys self.expressions rg self.order_data >>= λ order_data. some (record self {
        order_data = order_data;
        entries =
            self.entries
            ++ (record { idx = length self.order_data; offset = offset; len = len } ∷ []);
      })

-- A stored value is read as what the type of its expression says; none of another type is ever read.
module _ {F : Type 0} where
  abbrev pub read_int : Option (Key F) → ℤ
  read_int (some (key_int num)) = num
  read_int _ = pos 0

  abbrev pub read_float : F → Option (Key F) → F
  read_float zero_float (some (key_float num)) = num
  read_float zero_float _ = zero_float

  abbrev pub read_string : Option (Key F) → Text
  read_string (some (key_string sv)) = sv
  read_string _ = []

module _ {F : Type 0} (zero_float : F) (float_gt float_lt : F → F → Bool) where
  -- The cases of `_compare`.
  abbrev pub compare_values : FieldType → Option (Key F) → Option (Key F) → ℤ
  compare_values field_int k l =
      num_compare (ltb_ℤ (read_int l) (read_int k)) (ltb_ℤ (read_int k) (read_int l))
  compare_values field_float k l =
      num_compare (float_gt (read_float zero_float k) (read_float zero_float l))
        (float_lt (read_float zero_float k) (read_float zero_float l))
  compare_values field_string k l = compare_nocase_rtrim (read_string k) (read_string l)
  compare_values field_undefined k l = pos 0

abbrev pub directed : {E : Type 0} → OrderExpr E → ℤ → ℤ
directed e ret = if e.descending then minus ret else ret

module _ {E F : Type 0} (zero_float : F) (float_gt float_lt : F → F → Bool) where
  -- The loop of `_compare`: it stops at the first value that is not 0.
  unfoldable pub compare_loop : List (OrderExpr E) → List (Key F) → ℕ → ℕ → ℤ
  compare_loop [] order_data idx0 idx1 = pos 0
  compare_loop (e ∷ es) order_data idx0 idx1 =
      let rest = compare_loop es order_data (idx0 + 1) (idx1 + 1) in
      let ret = directed e (
        compare_values zero_float float_gt float_lt e.field_type (get_elem? order_data idx0)
          (get_elem? order_data idx1)) in
      if is_zero ret then rest else ret

  -- `_compare`
  unfoldable pub compare_entries : Order E F → OrderEntry → OrderEntry → ℤ
  unfolding compare_loop
  compare_entries self p0 p1 = compare_loop self.expressions self.order_data p0.idx p1.idx

-- The loop of `_order_select`: the rows that are written, and the count of rows after it.
unfoldable pub select_loop : ℕ → ℕ → List OrderEntry → List (ℕ × ℕ) × ℕ
select_loop top_count rows_affected [] = ([], rows_affected)
select_loop top_count rows_affected (it ∷ entries) =
    let (rows, n) = select_loop top_count (rows_affected + 1) entries in
    if ltb rows_affected top_count then ((it.offset, it.len) ∷ rows, n) else ([], rows_affected)
