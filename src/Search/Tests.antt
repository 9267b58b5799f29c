-- ===== src/Search/Tests.antt =====
-- The walk of `c0 AND (c1 OR c2 NOT LIKE ...)`.
use fql.Prelude.{ℕ, Bool, none, some, [], ◌≡◌, refl, length}
use fql.Logic.{LogicGroup}
use fql.Logic.Eval.{meaning}
use fql.Search.{SearchCondition, sc_and, sc_or, sc_predicate, sc_bracket, walk, Builder}
use fql.Search.Layout.{build}
use fql.Search.Built.{Represents, EvenNots, truth, walk-Represents}

abbrev condition : SearchCondition
condition =
    sc_and (sc_predicate 0 0 0) (sc_bracket 0 (sc_or (sc_predicate 0 0 1) (sc_predicate 0 1 2)))

abbrev empty : Builder
empty = build [] [] none

five_cells : length (walk condition empty).cells ≡ 5
unfolding walk
five_cells = refl

walk-Represents_example :
    (i : ℕ) × (g : LogicGroup) × ((walk condition empty).logic_stack ≡ [])
    × ((walk condition empty).assigned ≡ some i)
    × Represents (walk condition empty).cells i g
    × (EvenNots condition → (v : ℕ → Bool) → meaning v none g ≡ truth v condition)
walk-Represents_example = walk-Represents condition

-- `NOT c3` builds what `c3` does.
not_lost : walk (sc_predicate 1 0 3) empty ≡ walk (sc_predicate 0 0 3) empty
unfolding walk
not_lost = refl
