-- ===== src/Algorithm/Tests.antt =====
-- The theorems on the helpers at concrete vectors of numbers.
use coreir.Base.{ℕ, ◌+◌, ◌≡◌, refl, true, some, List, [], ◌∷◌, ltb, ◌==◌, arith}
use coreir.Algorithm.{split_by, greedy_adjacent_chains}

abbrev samples : List ℕ
samples = 3 ∷ 5 ∷ 4 ∷ 6 ∷ 1 ∷ []

runs_of_samples : split_by samples ltb ≡ some ((3 ∷ 5 ∷ []) ∷ (4 ∷ 6 ∷ []) ∷ (1 ∷ []) ∷ [])
unfolding split_by
runs_of_samples = refl

chained_samples : greedy_adjacent_chains (λ x y. y == x + 1) samples ≡ 3 ∷ 4 ∷ 5 ∷ 6 ∷ 1 ∷ []
unfolding greedy_adjacent_chains
chained_samples = refl

same_number : (x : ℕ) → (x == x) ≡ true
same_number x = ground arith

equal_numbers : (x y : ℕ) → (x == y) ≡ true → x ≡ y
equal_numbers x y h = ground arith

abbrev lists_by_key : List (ℕ × List ℕ)
lists_by_key = (1, 4 ∷ []) ∷ (2, 5 ∷ []) ∷ []
