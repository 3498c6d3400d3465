-- ===== src/Algorithm/Groups.antt =====
-- `split_by` cuts a vector into its runs; `take_while` and `drop_while` cut it in two.
use coreir.Base.{
  ℕ, zero, suc, ◌+◌, ◌≤◌, ◌≡◌, refl, ap, sym, ◌∙◌, Bool, true, false, not, Option, some, List, [],
  ◌∷◌, ◌++◌, append_assoc, append-nil, length, drop, arith,
}
use coreir.Algorithm.{
  concat_from, concat_all, take, all_between, find_between, split_loop, split_by, take_while,
  drop_while,
}

concat_from_lem {ℓ} :
    {A : Type ℓ} (xs : List A) (vs : List (List A)) → concat_from xs vs ≡ xs ++ concat_all vs
unfolding concat_all concat_from
concat_from_lem xs [] = sym (append-nil xs)
concat_from_lem xs (v ∷ vs) =
    concat_from_lem (xs ++ v) vs
    ∙ append_assoc xs v (concat_all vs)
    ∙ ap (λ ys. xs ++ ys) (sym (concat_from_lem v vs))

take-drop {ℓ} : {A : Type ℓ} (n : ℕ) (xs : List A) → take n xs ++ drop n xs ≡ xs
unfolding take
take-drop zero xs = refl
take-drop (suc n) [] = refl
take-drop (suc n) (x ∷ xs) = ap (λ ys. x ∷ ys) (take-drop n xs)

length-drop_le {ℓ} : {A : Type ℓ} (k : ℕ) (xs : List A) → length (drop k xs) ≤ length xs
length-drop_le zero xs = omega arith
length-drop_le (suc k) [] = omega arith
length-drop_le (suc k) (x ∷ xs) = omega (arith, length-drop_le k xs)

-- Each of the vectors is a run: it is not empty and `f` holds between its neighbours.
pub AllRuns {ℓ} : {A : Type ℓ} → (A → A → Bool) → List (List A) → Type 0
AllRuns f [] = Unit {0}
AllRuns f (v ∷ vs) = (all_between f v ≡ some true) × AllRuns f vs

abbrev FirstRun {ℓ} : {A : Type ℓ} → (A → A → Bool) → List A → Type 0
FirstRun f xs =
    (k : ℕ) × (find_between (λ i j. not (f i j)) xs ≡ some (k, suc k))
    × (all_between f (take (suc k) xs) ≡ some true)

longer_run {ℓ} :
    {A : Type ℓ} (f : A → A → Bool) (x y : A) (xs : List A) (b : Bool)
    → f x y ≡ b
    → FirstRun f (y ∷ xs)
    → FirstRun f (x ∷ y ∷ xs)
unfolding find_between all_between take
longer_run f x y xs true h (k, found, run) =
    (suc k, ground (arith, h, found), ground (arith, h, run))
longer_run f x y xs false h rest = (0, ground (arith, h), refl)

first_run {ℓ} : {A : Type ℓ} (f : A → A → Bool) (x : A) (xs : List A) → FirstRun f (x ∷ xs)
unfolding find_between all_between take
first_run f x [] = (0, refl, refl)
first_run f x (y ∷ xs) = longer_run f x y xs (f x y) refl (first_run f y xs)

concat_all_cons {ℓ} :
    {A : Type ℓ} (v : List A) (vs : List (List A)) → concat_all (v ∷ vs) ≡ v ++ concat_all vs
unfolding concat_all concat_from
concat_all_cons v vs = concat_from_lem v vs

add_one : (n : ℕ) → n + 1 ≡ suc n
add_one n = omega arith

no_runs {ℓ} : {A : Type ℓ} → concat_all {A = A} [] ≡ []
unfolding concat_all concat_from
no_runs = refl

abbrev IsSplit {ℓ} : {A : Type ℓ} → (A → A → Bool) → List A → Option (List (List A)) → Type ℓ
IsSplit {A} f xs result =
    (vs : List (List A)) × (result ≡ some vs) × (concat_all vs ≡ xs) × AllRuns f vs

split_loop-IsSplit {ℓ} :
    {A : Type ℓ} (f : A → A → Bool) (k : ℕ) (xs : List A)
    → length xs ≤ k
    → IsSplit f xs (split_loop f k xs)
unfolding split_loop AllRuns
split_loop-IsSplit f zero [] h = ([], refl, no_runs, tt)
split_loop-IsSplit f zero (x ∷ xs) h = absurd (omega arith)
split_loop-IsSplit f (suc k) [] h = ([], refl, no_runs, tt)
split_loop-IsSplit f (suc k) (x ∷ xs) h =
    let (n, found, run) = first_run f x xs in
    let (vs, rest, joined, runs) =
      split_loop-IsSplit f k (drop n xs) (omega (arith, length-drop_le n xs)) in
    let v = take (suc n) (x ∷ xs) in
    (
      v ∷ vs,
      rw (found, rest, add_one n),
      concat_all_cons v vs ∙ ap (λ ys. v ++ ys) joined ∙ take-drop (suc n) (x ∷ xs),
      (run, runs),
    )

-- `split_by` always returns: its vectors, put one behind the other, are the vector, and each of them
-- is a run of elements whose neighbours `f` accepts.
pub split_by-runs {ℓ} :
    {A : Type ℓ} (f : A → A → Bool) (elems : List A)
    → (vs : List (List A)) × (split_by elems f ≡ some vs) × (concat_all vs ≡ elems) × AllRuns f vs
unfolding split_by
split_by-runs f elems = split_loop-IsSplit f (length elems) elems (omega arith)

-- What `take_while` and `drop_while` leave makes up the vector.
pub take_while-drop_while {ℓ} :
    {A : Type ℓ} (f : A → Bool) (t : List A) → take_while f t ++ drop_while f t ≡ t
unfolding take_while drop_while
take_while-drop_while f [] = refl
take_while-drop_while f (x ∷ t) = ground (arith, take_while-drop_while f t)
