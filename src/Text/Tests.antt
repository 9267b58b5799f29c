-- ===== src/Text/Tests.antt =====
-- Runs of `stringview_compare_nocase_rtrim`.
use fql.Prelude.{[], ◌∷◌, true, ◌≡◌, ◌≢◌, ◌↔◌, refl, ◌++◌, arith}
use fql.Prelude.Int.{pos}
use fql.Text.{Text, compare_nocase_rtrim, isspace}
use fql.Text.Compare.{
  neg, Same, compare_nocase_rtrim-neg, compare_nocase_rtrim-Same,
  compare_nocase_rtrim-not_transitive,
}

abbrev upper : Text
upper = b'A' ∷ b'b' ∷ b' ' ∷ []

abbrev lower : Text
lower = b'a' ∷ b'B' ∷ []

blank_ignored : compare_nocase_rtrim upper lower ≡ pos 0
unfolding compare_nocase_rtrim
blank_ignored = refl

space : isspace b' ' ≡ true
unfolding isspace
space = refl

tab : isspace 9 ≡ true
unfolding isspace
tab = refl

swapped : compare_nocase_rtrim upper (b'z' ∷ []) ≡ neg (compare_nocase_rtrim (b'z' ∷ []) upper)
swapped = compare_nocase_rtrim-neg upper (b'z' ∷ []) (omega arith) (omega arith)

compare_nocase_rtrim-Same_example : (compare_nocase_rtrim upper lower ≡ pos 0) ↔ Same upper lower
compare_nocase_rtrim-Same_example =
    compare_nocase_rtrim-Same upper lower (omega arith) (omega arith)

compare_nocase_rtrim-not_transitive_example :
    (compare_nocase_rtrim (lower ++ (b' ' ∷ [])) lower ≡ pos 0)
    × (compare_nocase_rtrim lower (lower ++ (9 ∷ [])) ≡ pos 0)
    × (compare_nocase_rtrim (lower ++ (b' ' ∷ [])) (lower ++ (9 ∷ [])) ≢ pos 0)
compare_nocase_rtrim-not_transitive_example =
    compare_nocase_rtrim-not_transitive lower b' ' 9 (omega arith) space tab (omega arith)
