-- ===== src/Scalar/Strings/Tests.antt =====
-- The string functions on `aéz ` with the é in two bytes.
use fql.Prelude.{List, [], ◌∷◌, ◌≡◌, false, some, arith}
use fql.Prelude.Int.{pos, ◌-ℤ◌}
use fql.Status.{good}
use fql.Text.{Text, isspace}
use fql.Scalar.Arith.{done}
use fql.Scalar.Strings.{fql_len, fql_left, fql_right, fql_substring}
use fql.Scalar.Strings.Chars.{AllChars, one, two, join, fql_left-chars}
use fql.Scalar.Strings.Substring.{fql_substring-chars}
use fql.Scalar.Strings.Ends.{fql_len-chars, fql_right-chars, fql_right-over_read}

abbrev word : List Text
word = (b'a' ∷ []) ∷ (195 ∷ 169 ∷ []) ∷ (b'z' ∷ []) ∷ (b' ' ∷ []) ∷ []

word-AllChars : AllChars word
word-AllChars = (
  one b'a' (omega arith) (omega arith),
  (
    two 195 169 (omega arith) (omega arith) (omega arith, omega arith),
    (one b'z' (omega arith) (omega arith), (one b' ' (omega arith) (omega arith), tt)),
  ),
)

fql_left-chars_example : fql_left false (join word) (pos 2) ≡ good (b'a' ∷ 195 ∷ 169 ∷ [])
fql_left-chars_example = fql_left-chars 2 word word-AllChars

fql_substring-chars_example :
    fql_substring false (join word) (pos 2) (pos 2) ≡ done (good (195 ∷ 169 ∷ b'z' ∷ []))
unfolding ◌-ℤ◌
fql_substring-chars_example = fql_substring-chars (pos 2) 2 word word-AllChars

fql_len-chars_example : fql_len false (join word) ≡ some 3
unfolding isspace
fql_len-chars_example = fql_len-chars word word-AllChars

fql_right-chars_example :
    fql_right false (join word) (0 ∷ []) (pos 3) ≡ good (195 ∷ 169 ∷ b'z' ∷ b' ' ∷ [])
fql_right-chars_example = fql_right-chars 3 word (0 ∷ []) word-AllChars (omega arith)

-- `RIGHT('ab', 4)` on a field that `,next` follows.
fql_right-over_read_example :
    fql_right false (b'a' ∷ b'b' ∷ []) (b',' ∷ b'n' ∷ b'e' ∷ []) (pos 4)
    ≡ good (b'a' ∷ b'b' ∷ b',' ∷ b'n' ∷ [])
fql_right-over_read_example =
    fql_right-over_read false (b'a' ∷ b'b' ∷ []) (b',' ∷ b'n' ∷ b'e' ∷ []) 4
      (omega arith, (omega arith, tt)) (omega arith)
