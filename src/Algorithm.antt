-- ===== src/Algorithm.antt =====
-- The helpers on vectors of include/coreir/common/algorithm.h. Other containers have the same code
-- by overloading and are lists here too. Reading at or behind the end of a range is `none`.
pub mod Groups
pub mod Sets
pub mod Extremes
pub mod Reorder
mod Tests
use coreir.Base.{
  ℕ, zero, suc, ◌+◌, Bool, true, false, not, ◌&&◌, ◌||◌, Option, none, some, List, [], ◌∷◌, ◌++◌,
  ◌>>=◌, ltb, leb, ◌==◌, if◌then◌else◌, length, drop,
}

unfoldable pub num_elems_from {ℓ} : {A : Type ℓ} → ℕ → List (List A) → ℕ
num_elems_from i [] = i
num_elems_from i (t ∷ v) = num_elems_from (i + length t) v

-- `num_elems`
unfoldable pub num_elems {ℓ} : {A : Type ℓ} → List (List A) → ℕ
unfolding num_elems_from
num_elems v = num_elems_from 0 v

unfoldable pub iota {ℓ} : {A : Type ℓ} → ℕ → List A → List ℕ
iota i [] = []
iota i (e ∷ elems) = i ∷ iota (suc i) elems

-- `inds`
unfoldable pub inds {ℓ} : {A : Type ℓ} → List A → List ℕ
unfolding iota
inds elems = iota 0 elems

unfoldable pub concat_from {ℓ} : {A : Type ℓ} → List A → List (List A) → List A
concat_from all_vs [] = all_vs
concat_from all_vs (v ∷ vs) = concat_from (all_vs ++ v) vs

-- `concat_all`
unfoldable pub concat_all {ℓ} : {A : Type ℓ} → List (List A) → List A
unfolding concat_from
concat_all vs = concat_from [] vs

-- `take` of a range: the elements before the offset.
unfoldable pub take {ℓ} : {A : Type ℓ} → ℕ → List A → List A
take zero xs = []
take (suc n) [] = []
take (suc n) (x ∷ xs) = x ∷ take n xs

-- The tests on neighbours: `while (s != (e - 1))`, which reads behind an empty range.
unfoldable pub all_between {ℓ} : {A : Type ℓ} → (A → A → Bool) → List A → Option Bool
all_between f [] = none
all_between f (x ∷ []) = some true
all_between f (x ∷ y ∷ xs) = if f x y then all_between f (y ∷ xs) else some false

unfoldable pub any_between {ℓ} : {A : Type ℓ} → (A → A → Bool) → List A → Option Bool
any_between f [] = none
any_between f (x ∷ []) = some false
any_between f (x ∷ y ∷ xs) = if f x y then some true else any_between f (y ∷ xs)

-- `find_between`: the offsets of the two iterators that it returns.
unfoldable pub find_between {ℓ} : {A : Type ℓ} → (A → A → Bool) → List A → Option (ℕ × ℕ)
find_between f [] = none
find_between f (x ∷ []) = some (0, 1)
find_between f (x ∷ y ∷ xs) =
    if f x y
    then some (0, 1)
    else find_between f (y ∷ xs) >>= λ (r : ℕ × ℕ). some (suc r.0, suc r.1)

-- The loop of `split_by`, which takes at least one element a round.
unfoldable pub split_loop {ℓ} :
    {A : Type ℓ} → (A → A → Bool) → (rounds : ℕ) → List A → Option (List (List A))
unfolding find_between take
split_loop f zero [] = some []
split_loop f zero (x ∷ xs) = none
split_loop f (suc k) [] = some []
split_loop f (suc k) (x ∷ xs) = find_between (λ i j. not (f i j)) (x ∷ xs) >>= λ (r : ℕ × ℕ).
    split_loop f k (drop r.1 (x ∷ xs)) >>= λ split. some (take (r.0 + 1) (x ∷ xs) ∷ split)

-- `split_by`
unfoldable pub split_by {ℓ} : {A : Type ℓ} → List A → (A → A → Bool) → Option (List (List A))
unfolding split_loop
split_by elems f = split_loop f (length elems) elems

-- `group_unary`, with `==` of the values of `f`.
unfoldable pub group_unary {ℓ κ} :
    {A : Type ℓ} {B : Type κ} → (B → B → Bool) → List A → (A → B) → Option (List (List A))
unfolding split_by
group_unary same elems f = split_by elems (λ i j. same (f i) (f j))

-- `zip`: the second range is read as far as the first one goes.
unfoldable pub zip {ℓ κ} : {A : Type ℓ} {B : Type κ} → List A → List B → Option (List (A × B))
zip [] qs = some []
zip (p ∷ ps) [] = none
zip (p ∷ ps) (q ∷ qs) = zip ps qs >>= λ r. some ((p, q) ∷ r)

-- `drop_while` and `take_while`
unfoldable pub drop_while {ℓ} : {A : Type ℓ} → (A → Bool) → List A → List A
drop_while f [] = []
drop_while f (x ∷ t) = if f x then drop_while f t else x ∷ t

unfoldable pub take_while {ℓ} : {A : Type ℓ} → (A → Bool) → List A → List A
take_while f [] = []
take_while f (x ∷ t) = if f x then x ∷ take_while f t else []

-- `greedy_adjacent_chains`: the place behind `s` gets the first later element that `f` accepts
-- there, by a swap. `swap_first` looks for it: `y` is the element that moves away.
unfoldable pub swap_first {ℓ} : {A : Type ℓ} → (A → Bool) → A → List A → Option (A × List A)
swap_first f y [] = none
swap_first f y (n ∷ ns) =
    if f n then some (n, y ∷ ns) else swap_first f y ns >>= λ r. some (r.0, n ∷ r.1)

unfoldable pub chain_loop {ℓ} : {A : Type ℓ} → (A → A → Bool) → (rounds : ℕ) → List A → List A
unfolding swap_first
chain_loop f zero xs = xs
chain_loop f (suc k) [] = []
chain_loop f (suc k) (s ∷ []) = s ∷ []
chain_loop f (suc k) (s ∷ y ∷ xs) = elim (f s y) [
  | true ↦ s ∷ chain_loop f k (y ∷ xs)
  | false ↦ elim (swap_first (f s) y xs) [
    | none ↦ s ∷ chain_loop f k (y ∷ xs)
    | some (n, rest) ↦ s ∷ chain_loop f k (n ∷ rest)
  ]
]

unfoldable pub greedy_adjacent_chains {ℓ} : {A : Type ℓ} → (A → A → Bool) → List A → List A
unfolding chain_loop
greedy_adjacent_chains f xs = chain_loop f (length xs) xs

-- `elem_by`, and `select`, which keeps the elements that pass `f`.
unfoldable pub elem_by {ℓ} : {A : Type ℓ} → (A → A → Bool) → A → List A → Bool
elem_by eq e [] = false
elem_by eq e (v ∷ vals) = if eq e v then true else elem_by eq e vals

unfoldable pub select {ℓ} : {A : Type ℓ} → List A → (A → Bool) → List A
select [] f = []
select (e ∷ v) f = if f e then e ∷ select v f else select v f

-- `select_indexes` and `copy_not_indexes` from the index `i` on: the binary search in the sorted
-- indices tells whether `i` is one of them.
unfoldable pub select_from {ℓ} : {A : Type ℓ} → ℕ → List A → List ℕ → List A
unfolding elem_by
select_from i [] inds = []
select_from i (e ∷ elems) inds =
    if elem_by ◌==◌ i inds
    then e ∷ select_from (suc i) elems inds
    else select_from (suc i) elems inds

unfoldable pub select_indexes {ℓ} : {A : Type ℓ} → List A → List ℕ → List A
unfolding select_from
select_indexes elems inds = select_from 0 elems inds

unfoldable pub copy_not_from {ℓ} : {A : Type ℓ} → ℕ → List A → List ℕ → List A
unfolding elem_by
copy_not_from i [] inds = []
copy_not_from i (e ∷ elems) inds =
    if elem_by ◌==◌ i inds
    then copy_not_from (suc i) elems inds
    else e ∷ copy_not_from (suc i) elems inds

unfoldable pub copy_not_indexes {ℓ} : {A : Type ℓ} → List A → List ℕ → List A
unfolding copy_not_from
copy_not_indexes elems inds = copy_not_from 0 elems inds
