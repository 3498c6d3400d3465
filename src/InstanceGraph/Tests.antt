-- ===== src/InstanceGraph/Tests.antt =====
-- Three modules: 1 holds two instances of 2 and one of 3, and 2 holds one of 3.
use coreir.Base.{ℕ, ◌≡◌, ◌<◌, none, some, List, [], ◌∷◌, true, refl, arith}
use coreir.InstanceGraph.{Modules, modules_of, construct}
use coreir.InstanceGraph.Users.{instantiates, AllKnown}
use coreir.InstanceGraph.Construct.{Sorts, construct-Sorts, construct_returns}

abbrev design : Modules
design = (1, 2 ∷ 2 ∷ 3 ∷ []) ∷ (2, 3 ∷ []) ∷ (3, []) ∷ []

design_sorted : construct 4 design ≡ some (3 ∷ 2 ∷ 1 ∷ [])
unfolding construct
design_sorted = refl

-- Two modules that hold each other fail the assertion.
cycle_refused : construct 9 ((1, 2 ∷ []) ∷ (2, 1 ∷ []) ∷ []) ≡ none
unfolding construct
cycle_refused = refl

construct-Sorts_example : Sorts design (3 ∷ 2 ∷ 1 ∷ [])
construct-Sorts_example = construct-Sorts 4 design (3 ∷ 2 ∷ 1 ∷ []) design_sorted

design-AllKnown : AllKnown (modules_of design) design
design-AllKnown =
    (λ x m. ground (arith, m), (λ x m. ground (arith, m), (λ x m. ground (arith, m), tt)))

design_falls : (m r : ℕ) → instantiates m r design ≡ true → m < r
design_falls m r h = ground (arith, h)

construct_returns_example :
    (sorted : List ℕ) × (construct 4 design ≡ some sorted) × Sorts design sorted
construct_returns_example =
    construct_returns 4 design (λ m. m) design-AllKnown design_falls (λ m h. ground (arith, h))
