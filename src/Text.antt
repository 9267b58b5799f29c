-- ===== src/Text.antt =====
-- util/stringview.c: views as lists of bytes, and the comparison that ignores case and trailing
-- white space. `tolower` and `isspace` are those of the C locale.
mod Tests
pub mod Compare
pub mod Segments
use fql.Prelude.{
  ℕ, suc, ◌+◌, ◌-◌, ◌%◌, ◌^◌, Bool, true, false, ◌&&◌, ◌||◌, List, [], ◌∷◌, leb, ltb, ◌==◌,
  if◌then◌else◌, length,
}
use fql.Prelude.Int.{ℤ, pos, negsuc, sub_ℕ}

abbrev pub Text : Type 0
Text = List ℕ

unfoldable pub tolower : ℕ → ℕ
tolower c = if leb b'A' c && leb c b'Z' then c + 32 else c

-- space, and the controls from tab to carriage return
unfoldable pub isspace : ℕ → Bool
isspace c = c == b' ' || (leb 9 c && leb c 13)

-- `unsigned - unsigned` stored in an `int`
unfoldable pub len_difference : ℕ → ℕ → ℤ
len_difference a b =
    let w = (a + 2 ^ 32 - b) % 2 ^ 32 in if ltb w (2 ^ 31) then pos w else negsuc (2 ^ 32 - w - 1)

-- The second loop: every byte left of the longer view has to be white space.
compare_tail : ℤ → Text → ℤ
compare_tail diff [] = pos 0
compare_tail diff (c ∷ cs) = if isspace c then compare_tail diff cs else diff

-- The first loop runs over the bytes that both views have, until two of them differ.
compare_bytes : ℤ → Text → Text → ℤ
compare_bytes diff [] ys = compare_tail diff ys
compare_bytes diff (x ∷ xs) [] = compare_tail diff (x ∷ xs)
compare_bytes diff (x ∷ xs) (y ∷ ys) =
    if tolower x == tolower y then compare_bytes diff xs ys else sub_ℕ (tolower x) (tolower y)

unfoldable pub compare_nocase_rtrim : Text → Text → ℤ
unfolding compare_bytes compare_tail tolower isspace len_difference
compare_nocase_rtrim s t = compare_bytes (len_difference (length s) (length t)) s t
