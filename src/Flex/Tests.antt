-- ===== src/Flex/Tests.antt =====
-- A flex of two elements.
use fql.Prelude.{some, [], ◌∷◌, ◌≡◌, refl, ◌++◌, take, drop, arith}
use fql.Flex.{
  Flex, flex_construct, flex_pair_at, flex_push_back, flex_pop_back, flex_insert, flex_remove,
}
use fql.Flex.Elements.{IsValid, elements, elements-flex_insert, flex_pop_back-flex_push_back}

abbrev two : Flex
two = record {
  pairs = record { idx = 0; len = 2 } ∷ record { idx = 2; len = 1 } ∷ [];
  raw = b'a' ∷ b'b' ∷ b'c' ∷ [];
}

push_run : flex_push_back (flex_push_back flex_construct (b'a' ∷ b'b' ∷ [])) (b'c' ∷ []) ≡ two
unfolding flex_push_back
push_run = refl

pair_run : flex_pair_at two 1 ≡ some (b'c' ∷ [])
unfolding flex_pair_at
pair_run = refl

remove_run : elements (flex_remove two 0) ≡ (b'c' ∷ []) ∷ []
unfolding flex_remove
remove_run = refl

elements-flex_insert_example :
    IsValid (flex_insert two 1 (b'x' ∷ []))
    × (elements (flex_insert two 1 (b'x' ∷ []))
        ≡ take 1 (elements two) ++ ((b'x' ∷ []) ∷ drop 1 (elements two)))
elements-flex_insert_example =
    elements-flex_insert two 1 (b'x' ∷ []) (omega arith) (omega arith, (omega arith, tt))

flex_pop_back-flex_push_back_example : flex_pop_back (flex_push_back two (b'd' ∷ [])) ≡ two
flex_pop_back-flex_push_back_example = flex_pop_back-flex_push_back two (b'd' ∷ [])
