-- ===== src/Flex.antt =====
-- util/flex.c: a vector of elements of different sizes. All bytes stand in `raw`; a pair says where an
-- element begins and how long it is. A number printed into an element (flex_push_back_str_int and
-- flex_push_back_str_float) is pushed as the bytes that snprintf makes of it. Resizing to a larger size,
-- which leaves pairs that nothing has written, is not modelled.
pub mod Elements
mod Tests
use fql.Prelude.{
  ℕ, zero, suc, ◌+◌, ◌-◌, Bool, true, false, Option, none, some, List, [], ◌∷◌, ◌++◌, if◌then◌else◌,
  length, get_elem?, take, drop, read_at, ◌==◌, map,
}
use fql.Status.{◌>>=◌}
use fql.Text.{Text}

-- `struct _pair`
pub record Pair : Type 0 where
  pub idx : ℕ
  pub len : ℕ

pub record Flex : Type 0 where
  pub pairs : List Pair
  pub raw : Text

abbrev pub flex_construct : Flex
flex_construct = record { pairs = []; raw = [] }

abbrev pub view : Text → Pair → Text
view raw pair = read_at raw pair.idx pair.len

-- There is no element behind the last pair.
unfoldable pub flex_pair_at : Flex → ℕ → Option Text
flex_pair_at self idx = get_elem? self.pairs idx >>= λ pair. some (view self.raw pair)

unfoldable pub flex_push_back : Flex → Text → Flex
flex_push_back self bytes = record {
  pairs = self.pairs ++ (record { idx = length self.raw; len = length bytes } ∷ []);
  raw = self.raw ++ bytes;
}

abbrev pub last_pair : List Pair → Option Pair
last_pair [] = none
last_pair (p ∷ []) = some p
last_pair (p ∷ q ∷ pairs) = last_pair (q ∷ pairs)

-- The bytes go only where the last element is also the last one in `raw`.
abbrev pub pop_raw : Option Pair → Text → Text
pop_raw none raw = raw
pop_raw (some pair) raw = if pair.idx + pair.len == length raw then take pair.idx raw else raw

unfoldable pub flex_pop_back : Flex → Flex
flex_pop_back self = record {
  pairs = take (length self.pairs - 1) self.pairs;
  raw = pop_raw (last_pair self.pairs) self.raw;
}

-- The loop of `flex_resize` that pops one element per round.
unfoldable pub pop_times : ℕ → Flex → Flex
unfolding flex_pop_back
pop_times zero self = self
pop_times (suc n) self = pop_times n (flex_pop_back self)

-- `flex_resize` to a size that is no larger: as many rounds as there are elements above it.
unfoldable pub flex_resize : Flex → ℕ → Flex
unfolding pop_times
flex_resize self size = pop_times (length self.pairs - size) self

-- `vec_insert_at` before the element that has the index.
unfoldable pub flex_insert : Flex → ℕ → Text → Flex
flex_insert self idx bytes = record {
  pairs =
      take idx self.pairs
      ++ (record { idx = length self.raw; len = length bytes } ∷ drop idx self.pairs);
  raw = self.raw ++ bytes;
}

-- `vec_erase_at`: the bytes stay.
unfoldable pub flex_remove : Flex → ℕ → Flex
flex_remove self idx = record self { pairs = take idx self.pairs ++ drop (idx + 1) self.pairs }
