-- ===== src/Scalar/Strings.antt =====
-- The string functions of lib/scalarfn.c on a view. The masks of a byte's leading bits are written
-- as ranges of the byte, and `data[idx] ... data[len - 1]` is the list that is left.
pub mod Chars
pub mod Substring
pub mod Ends
mod Tests
use fql.Prelude.{
  ℕ, zero, suc, ◌+◌, ◌-◌, ◌%◌, ◌^◌, ◌<◌, ◌≤◌, Bool, true, false, not, ◌&&◌, ◌||◌, Option, none,
  some, List, [], ◌∷◌, ◌++◌, ltb, leb, ◌==◌, if◌then◌else◌, length, get_or, take, drop, replicate,
}
use mathlib.Core.List.{reverse}
use fql.Prelude.Int.{ℤ, pos, negsuc, pos_part, neg_part, sub_ℕ, ltb_ℤ, ◌+ℤ◌, ◌-ℤ◌}
use fql.Status.{Got, good, null, fail, try_deref, got_of, ◌>>=◌}
use fql.Text.{Text, isspace}
use fql.Field.{FieldType, field_undefined, field_int, field_float, field_string}
use fql.Scalar.Arith.{Run, done, trap}

-- `string_strncpy` of util/stringy.c on the memory from `src` on: at most `limit` bytes, and none
-- from a NUL on.
abbrev pub strncpy : Text → ℕ → Text
strncpy src zero = []
strncpy [] (suc limit) = []
strncpy (c ∷ src) (suc limit) = if c == 0 then [] else c ∷ strncpy src limit

-- The length of a sequence by its leading byte.
abbrev pub lead_length : ℕ → Option ℕ
lead_length c =
    if ltb c 128
    then some 1
    else if ltb c 192
    then none
    else if ltb c 224
    then some 2
    else if ltb c 240
    then some 3
    else if ltb c 248
    then some 4
    else none

-- `limit` is the number of bytes from here on.
unfoldable pub get_byte_count : ℕ → ℕ → Option ℕ
get_byte_count c limit =
    if ltb c 128 then some 1 else (lead_length c >>= λ n. if ltb limit n then none else some n)

-- `(c & 0xC0) == 0x80`
abbrev pub is_continuation : ℕ → Bool
is_continuation c = leb 128 c && ltb c 192

abbrev pub continuations : Text → ℕ
continuations [] = 0
continuations (c ∷ cs) = if is_continuation c then suc (continuations cs) else 0

-- The bytes are given from the last one down to the first.
unfoldable pub get_rev_byte_count : Text → Option ℕ
get_rev_byte_count [] = none
get_rev_byte_count (c ∷ cs) =
    if ltb c 128
    then some 1
    else let i = continuations (c ∷ cs) in
      if leb (length (c ∷ cs)) i then none else elim (lead_length (get_or (c ∷ cs) i 0)) [
        | none ↦ none
        | some n ↦ if leb 2 n && n == i + 1 then some n else none
      ]

-- The loop of `fql_len`; `skip` bytes are left to jump over by `idx += bytes`.
len_loop : Bool → ℕ → ℕ → ℕ → Text → Option ℕ
len_loop char_as_byte skip len len_nospace [] = some len_nospace
len_loop char_as_byte (suc skip) len len_nospace (c ∷ cs) =
    len_loop char_as_byte skip len len_nospace cs
len_loop char_as_byte zero len len_nospace (c ∷ cs) =
    (if char_as_byte then some 1 else get_byte_count c (length (c ∷ cs))) >>= λ bytes.
    len_loop char_as_byte (bytes - 1) (len + 1) (if isspace c then len_nospace else len + 1) cs

unfoldable pub fql_len : Bool → Text → Option ℕ
unfolding len_loop
fql_len char_as_byte sv = len_loop char_as_byte 0 0 0 sv

-- The number of bytes of the first n characters, or of all where there are fewer.
pub chars_bytes : ℕ → Text → Option ℕ
chars_bytes zero sv = some 0
chars_bytes (suc n) [] = some 0
chars_bytes (suc n) (c ∷ cs) = get_byte_count c (length (c ∷ cs)) >>= λ bytes.
    chars_bytes n (drop bytes (c ∷ cs)) >>= λ rest. some (bytes + rest)

unfoldable pub fql_left : Bool → Text → ℤ → Got Text
unfolding chars_bytes
fql_left char_as_byte sv (negsuc n) = fail
fql_left char_as_byte sv (pos n) =
    if ltb (length sv) n
    then good (strncpy sv (length sv))
    else if char_as_byte
    then good (strncpy sv n)
    else got_of (chars_bytes n sv >>= λ byte_count. some (strncpy sv byte_count))

-- The same from the end, on the bytes in reverse.
rev_chars_bytes : ℕ → Text → Option ℕ
rev_chars_bytes zero rev = some 0
rev_chars_bytes (suc n) [] = some 0
rev_chars_bytes (suc n) (c ∷ cs) = get_rev_byte_count (c ∷ cs) >>= λ bytes.
    rev_chars_bytes n (drop bytes (c ∷ cs)) >>= λ rest. some (bytes + rest)

-- `after` is the memory behind the view, which is read where n is more than its length.
unfoldable pub fql_right : Bool → Text → Text → ℤ → Got Text
unfolding rev_chars_bytes
fql_right char_as_byte sv after (negsuc n) = fail
fql_right char_as_byte sv after (pos n) =
    if ltb (length sv) n
    then good (strncpy (sv ++ after) n)
    else if char_as_byte
    then good (strncpy (drop (length sv - n) sv) n)
    else got_of (
        rev_chars_bytes n (reverse sv) >>= λ byte_count.
        some (strncpy (drop (length sv - byte_count) sv) byte_count))

-- The index that the first loop of `fql_substring` reaches.
start_index : Bool → ℕ → Text → Option ℕ
start_index true start sv = some (if ltb (length sv) start then length sv else start)
start_index false start sv = chars_bytes start sv

-- The copy of `count` characters from the index, where there is one. A negative count goes to
-- `string_strncpy` as a size_t where characters are bytes: a fault.
substring_at : Bool → Text → ℤ → Option ℕ → Run Text
substring_at char_as_byte sv count none = done fail
substring_at char_as_byte sv count (some idx) =
    let rest = drop idx sv in
    if ltb_ℤ (pos (length sv)) (pos idx +ℤ count)
    then done (good (strncpy rest (length sv - idx)))
    else if char_as_byte
    then (if ltb_ℤ count (pos 0) then trap else done (good (strncpy rest (pos_part count))))
    else done (
        got_of (chars_bytes (pos_part count) rest >>= λ byte_count. some (strncpy rest byte_count)))

-- The sums on longs are exact: a start of LONG_MIN and an end beyond LONG_MAX are out of the model.
unfoldable pub fql_substring : Bool → Text → ℤ → ℤ → Run Text
unfolding substring_at start_index
fql_substring char_as_byte sv first (negsuc n) = done fail
fql_substring char_as_byte sv first (pos n) =
    let start = first -ℤ pos 1 in
    substring_at char_as_byte sv (if ltb_ℤ start (pos 0) then pos n +ℤ start else pos n)
      (start_index char_as_byte (pos_part start) sv)

-- `sizeof(long)` and `sizeof(double)` are 8.
unfoldable pub fql_datalength : FieldType → Got Text → Got ℕ
fql_datalength field_int sv = good 8
fql_datalength field_float sv = good 8
fql_datalength field_string sv = try_deref sv λ s. good (length s)
fql_datalength field_undefined sv = fail

-- `fql_cast_char`, with the length of CHAR(n) where it is given; -1 is the default. The
-- comparison is made on longs, and the limit is a size_t: another negative length is a fault.
unfoldable pub fql_cast_char : Got Text → Option (Got ℤ) → Run Text
fql_cast_char sv len = elim len [
  | none ↦ done (try_deref sv λ s. good (strncpy s (length s)))
  | some fail ↦ done fail
  | some null ↦ done null
  | some (good (negsuc zero)) ↦ done (try_deref sv λ s. good (strncpy s (length s)))
  | some (good (negsuc (suc n))) ↦ elim sv [ null ↦ done null | fail ↦ done fail | good s ↦ trap ]
  | some (good (pos n)) ↦ done (
      try_deref sv λ s.
        if leb n (length s)
        then good (strncpy s n)
        else let t = strncpy s (length s) in good (t ++ replicate (n % 2 ^ 32 - length t) b' '))
]

-- `fql_isnull_i` and `fql_isnull_f`, and `fql_isnull_s` on its copy.
unfoldable pub fql_isnull : {A : Type 0} → Got A → Got A → Got A
fql_isnull (good a) b = good a
fql_isnull null b = b
fql_isnull fail b = fail

unfoldable pub fql_isnull_s : Got Text → Got Text → Got Text
unfolding fql_isnull
fql_isnull_s sv0 sv1 = try_deref (fql_isnull sv0 sv1) λ s. good (strncpy s (length s))

-- `fql_cast_bit`
unfoldable pub fql_cast_bit : Got ℤ → Got ℤ
fql_cast_bit n =
    try_deref n λ i. if pos_part i + neg_part i == 0 then good (pos 0) else good (pos 1)
