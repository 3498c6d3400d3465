-- ===== src/Algorithm/Reorder.antt =====
-- Functions that put the elements of a vector in another order: the greedy chains and the choice of
-- some indices.
use mathlib.Core.List.{Perm, perm_middle}
use mathlib.Core.List.Perm
use coreir.Base.{
  ℕ, zero, suc, Bool, true, false, Option, none, some, List, [], ◌∷◌, ◌++◌, length, ◌>>=◌, ◌==◌,
  if◌then◌else◌,
}
use coreir.Algorithm.{
  swap_first, chain_loop, greedy_adjacent_chains, elem_by, select_from, select_indexes,
  copy_not_from, copy_not_indexes,
}

-- The head that `swap_first` brings forward and the elements that it leaves.
swapped {ℓ} : {A : Type ℓ} → A → List A → Option (A × List A) → List A
swapped y xs none = y ∷ xs
swapped y xs (some (n, rest)) = n ∷ rest

behind {ℓ} :
    {A : Type ℓ} (y n : A) (ns : List A) (found : Option (A × List A))
    → Perm (swapped y ns found) (y ∷ ns)
    → Perm (swapped y (n ∷ ns) (found >>= λ r. some (r.0, n ∷ r.1))) (y ∷ n ∷ ns)
unfolding swapped
behind y n ns none p = Perm.refl (y ∷ n ∷ ns)
behind y n ns (some (x, rest)) p =
    Perm.trans (Perm.swap n x rest) (Perm.trans (Perm.cons n p) (Perm.swap y n ns))

swap_first-Perm {ℓ} :
    {A : Type ℓ} (f : A → Bool) (y : A) (xs : List A)
    → Perm (swapped y xs (swap_first f y xs)) (y ∷ xs)
unfolding swap_first swapped
swap_first-Perm f y [] = Perm.refl (y ∷ [])
swap_first-Perm f y (n ∷ ns) =
    elim (f n)
      as (λ b.
        Perm
          (swapped y (n ∷ ns)
            (if b then some (n, y ∷ ns) else swap_first f y ns >>= λ r. some (r.0, n ∷ r.1)))
          (y ∷ n ∷ ns)) [
            | true ↦ Perm.swap y n ns
            | false ↦ behind y n ns (swap_first f y ns) (swap_first-Perm f y ns)
          ]

chained {ℓ} :
    {A : Type ℓ} (s y : A) (xs : List A) (go : List A → List A)
    → ((zs : List A) → Perm (go zs) zs)
    → (found : Option (A × List A)) → Perm (swapped y xs found) (y ∷ xs)
    → Perm (elim found [ none ↦ s ∷ go (y ∷ xs) | some (n, rest) ↦ s ∷ go (n ∷ rest) ]) (s ∷ y ∷ xs)
unfolding swapped
chained s y xs go p none q = Perm.cons s (p (y ∷ xs))
chained s y xs go p (some (n, rest)) q = Perm.cons s (Perm.trans (p (n ∷ rest)) q)

chosen {ℓ} :
    {A : Type ℓ} (adjacent : Bool) (s y : A) (xs : List A) (go : List A → List A)
    → ((zs : List A) → Perm (go zs) zs)
    → (found : Option (A × List A)) → Perm (swapped y xs found) (y ∷ xs)
    → Perm
        (elim adjacent [
          | true ↦ s ∷ go (y ∷ xs)
          | false ↦ elim found [ none ↦ s ∷ go (y ∷ xs) | some (n, rest) ↦ s ∷ go (n ∷ rest) ]
        ])
        (s ∷ y ∷ xs)
chosen true s y xs go p found q = Perm.cons s (p (y ∷ xs))
chosen false s y xs go p found q = chained s y xs go p found q

chain_loop-Perm {ℓ} :
    {A : Type ℓ} (f : A → A → Bool) (k : ℕ) (xs : List A) → Perm (chain_loop f k xs) xs
unfolding chain_loop
chain_loop-Perm f zero xs = Perm.refl xs
chain_loop-Perm f (suc k) [] = Perm.refl []
chain_loop-Perm f (suc k) (s ∷ []) = Perm.refl (s ∷ [])
chain_loop-Perm f (suc k) (s ∷ y ∷ xs) =
    chosen (f s y) s y xs (chain_loop f k) (chain_loop-Perm f k) (swap_first (f s) y xs)
      (swap_first-Perm (f s) y xs)

divided {ℓ} :
    {A : Type ℓ} (b : Bool) (e : A) (xs ys : List A) {zs : List A}
    → Perm (xs ++ ys) zs
    → Perm ((if b then e ∷ xs else xs) ++ (if b then ys else e ∷ ys)) (e ∷ zs)
divided true e xs ys p = Perm.cons e p
divided false e xs ys p = Perm.trans (perm_middle xs ys) (Perm.cons e p)

select_from-copy_not_from {ℓ} :
    {A : Type ℓ} (i : ℕ) (elems : List A) (inds : List ℕ)
    → Perm (select_from i elems inds ++ copy_not_from i elems inds) elems
unfolding select_from copy_not_from
select_from-copy_not_from i [] inds = Perm.refl []
select_from-copy_not_from i (e ∷ elems) inds =
    divided (elem_by ◌==◌ i inds) e (select_from (suc i) elems inds)
      (copy_not_from (suc i) elems inds) (select_from-copy_not_from (suc i) elems inds)

-- The elements at the chosen indices and the elements at the others are together those of the
-- vector, each as often as it stands there.
pub select_indexes-copy_not_indexes {ℓ} :
    {A : Type ℓ} (elems : List A) (inds : List ℕ)
    → Perm (select_indexes elems inds ++ copy_not_indexes elems inds) elems
unfolding select_indexes copy_not_indexes
select_indexes-copy_not_indexes elems inds = select_from-copy_not_from 0 elems inds

-- `greedy_adjacent_chains` only changes the order of the elements.
pub greedy_adjacent_chains-Perm {ℓ} :
    {A : Type ℓ} (f : A → A → Bool) (xs : List A) → Perm (greedy_adjacent_chains f xs) xs
unfolding greedy_adjacent_chains
greedy_adjacent_chains-Perm f xs = chain_loop-Perm f (length xs) xs
