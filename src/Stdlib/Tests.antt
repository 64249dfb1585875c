-- ===== src/Stdlib/Tests.antt =====
-- Concrete runs of CS330_projects/proj1/lib/stdlib.c.
use cs_courses.Base.{
  ℕ, zero, suc, ◌+◌, ◌-◌, ◌*◌, ◌≡◌, refl, ltb, if◌then◌else◌, Option, none, some, List, [], ◌∷◌, ℤ,
  pos, negsuc, arith,
}
use mathlib.Core.Option
use cs_courses.Stdlib.{Run, done, atoi, sort, binary_search}
use cs_courses.Stdlib.Search.{IsComparison, IsAscending, Answer, binary_search-Answer}
use cs_courses.Stdlib.Number.{int_of, dash, atoi-int_of}
use cs_courses.Stdlib.Sort.{Rearranged}
use cs_courses.Stdlib.Heap.{IsPreorder}
use cs_courses.Stdlib.Sorted.{IsSorted, sort-IsSorted}

abbrev by_value : ℕ → ℕ → ℤ
by_value a b = if ltb a b then negsuc 0 else pos (a - b)

by_value-IsComparison : IsComparison by_value
by_value-IsComparison = record {
  below = λ x y z p q. ground arith;
  above = λ x y z p q. ground arith;
}

-- 10, 20, 30, ...
abbrev tens : ℕ → ℕ
tens k = (k + 1) * 10

tens-IsAscending : IsAscending by_value tens 5
tens-IsAscending i j le lt = ground arith

binary_search-Answer_example :
    (r : Option ℕ) × (binary_search by_value 6 30 tens 5 ≡ done r) × Answer by_value 30 tens 0 5 r
binary_search-Answer_example =
    binary_search-Answer by_value by_value-IsComparison 30 tens 5 tens-IsAscending 6 (omega arith)

search_found : binary_search by_value 6 40 tens 5 ≡ done (some 3)
unfolding binary_search
search_found = refl

search_missed : binary_search by_value 6 45 tens 5 ≡ done none
unfolding binary_search
search_missed = refl

abbrev mixed : ℕ → ℕ
mixed zero = 7
mixed (suc zero) = 3
mixed (suc (suc zero)) = 9
mixed (suc (suc (suc zero))) = 1
mixed (suc (suc (suc (suc k)))) = 5

by_value-IsPreorder : IsPreorder by_value
by_value-IsPreorder = record {
  reflexive = λ x. ground arith;
  transitive = λ x y z p q. ground arith;
  total = λ x y p. ground arith;
}

sort-IsSorted_example :
    (b : ℕ → ℕ) × (sort by_value 6 mixed 5 ≡ done b)
    × IsSorted by_value by_value-IsPreorder b 5
    × Rearranged 5 mixed b
sort-IsSorted_example = sort-IsSorted by_value by_value-IsPreorder 6 5 mixed (omega arith)

abbrev first_five : Run (ℕ → ℕ) → List ℕ
first_five (done a) = a 0 ∷ a 1 ∷ a 2 ∷ a 3 ∷ a 4 ∷ []
first_five _ = []

sort_run : first_five (sort by_value 6 mixed 5) ≡ (1 ∷ 3 ∷ 5 ∷ 7 ∷ 9 ∷ [])
unfolding sort
sort_run = refl

atoi_run : atoi (b' ' ∷ b'-' ∷ b'4' ∷ b'2' ∷ b'x' ∷ []) ≡ some (negsuc 41)
unfolding atoi Option.bind
atoi_run = refl

-- "  -42x"
atoi-int_of_example : atoi (b' ' ∷ b' ' ∷ b'-' ∷ b'4' ∷ b'2' ∷ b'x' ∷ []) ≡ int_of dash 42
atoi-int_of_example =
    atoi-int_of 4 (2 ∷ []) (b'x' ∷ []) (omega arith, (omega arith, tt)) refl (b' ' ∷ b' ' ∷ []) dash
      (refl, (refl, tt))
