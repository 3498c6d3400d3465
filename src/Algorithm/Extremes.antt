-- ===== src/Algorithm/Extremes.antt =====
-- `min_e` and `max_e` for every container, over the measure `f`.
use coreir.Base.{
  zero, suc, get_elem?, ℕ, ◌≤◌, ◌≡◌, refl, Bool, true, false, Option, none, some, List, [], ◌∷◌,
  ltb, if◌then◌else◌, arith,
}

-- `std::min_element` and `std::max_element`: the first of the smallest and of the largest elements.
unfoldable pub min_from {ℓ} : {A : Type ℓ} → (A → ℕ) → A → List A → A
min_from f m [] = m
min_from f m (x ∷ e) = min_from f (if ltb (f x) (f m) then x else m) e

-- `min_e` reads the end of an empty container.
unfoldable pub min_e {ℓ} : {A : Type ℓ} → List A → (A → ℕ) → Option A
unfolding min_from
min_e [] f = none
min_e (x ∷ e) f = some (min_from f x e)

unfoldable pub max_from {ℓ} : {A : Type ℓ} → (A → ℕ) → A → List A → A
max_from f m [] = m
max_from f m (x ∷ e) = max_from f (if ltb (f m) (f x) then x else m) e

unfoldable pub max_e {ℓ} : {A : Type ℓ} → List A → (A → ℕ) → Option A
unfolding max_from
max_e [] f = none
max_e (x ∷ e) f = some (max_from f x e)

-- Each element of the vector measures at least as much as `m`, or at most.
abbrev pub AllAtLeast {ℓ} : {A : Type ℓ} → (A → ℕ) → ℕ → List A → Type 0
AllAtLeast f m [] = Unit {0}
AllAtLeast f m (x ∷ e) = (m ≤ f x) × AllAtLeast f m e

abbrev pub AllAtMost {ℓ} : {A : Type ℓ} → (A → ℕ) → ℕ → List A → Type 0
AllAtMost f m [] = Unit {0}
AllAtMost f m (x ∷ e) = (f x ≤ m) × AllAtMost f m e

pick_at {ℓ} :
    {A : Type ℓ} (b : Bool) (m x : A) (e : List A) {y : A}
    → (i : ℕ) × (get_elem? ((if b then x else m) ∷ e) i ≡ some y)
    → (i : ℕ) × (get_elem? (m ∷ x ∷ e) i ≡ some y)
pick_at true m x e (i, h) = (suc i, h)
pick_at false m x e (zero, h) = (0, h)
pick_at false m x e (suc i, h) = (suc (suc i), h)

pick_smaller {ℓ} :
    {A : Type ℓ} (f : A → ℕ) (m x : A)
    → (f (if ltb (f x) (f m) then x else m) ≤ f m) × (f (if ltb (f x) (f m) then x else m) ≤ f x)
pick_smaller f m x = ground arith

pick_larger {ℓ} :
    {A : Type ℓ} (f : A → ℕ) (m x : A)
    → (f m ≤ f (if ltb (f m) (f x) then x else m)) × (f x ≤ f (if ltb (f m) (f x) then x else m))
pick_larger f m x = ground arith

min_from-AllAtLeast {ℓ} :
    {A : Type ℓ} (f : A → ℕ) (m : A) (e : List A)
    → (f (min_from f m e) ≤ f m) × AllAtLeast f (f (min_from f m e)) e
unfolding min_from
min_from-AllAtLeast f m [] = (omega arith, tt)
min_from-AllAtLeast f m (x ∷ e) =
    let (low, all) = min_from-AllAtLeast f (if ltb (f x) (f m) then x else m) e in
    let (a, b) = pick_smaller f m x in (omega arith, (omega arith, all))

max_from-AllAtMost {ℓ} :
    {A : Type ℓ} (f : A → ℕ) (m : A) (e : List A)
    → (f m ≤ f (max_from f m e)) × AllAtMost f (f (max_from f m e)) e
unfolding max_from
max_from-AllAtMost f m [] = (omega arith, tt)
max_from-AllAtMost f m (x ∷ e) =
    let (high, all) = max_from-AllAtMost f (if ltb (f m) (f x) then x else m) e in
    let (a, b) = pick_larger f m x in (omega arith, (omega arith, all))

min_from_at {ℓ} :
    {A : Type ℓ} (f : A → ℕ) (m : A) (e : List A)
    → (i : ℕ) × (get_elem? (m ∷ e) i ≡ some (min_from f m e))
unfolding min_from
min_from_at f m [] = (0, refl)
min_from_at f m (x ∷ e) =
    pick_at (ltb (f x) (f m)) m x e (min_from_at f (if ltb (f x) (f m) then x else m) e)

max_from_at {ℓ} :
    {A : Type ℓ} (f : A → ℕ) (m : A) (e : List A)
    → (i : ℕ) × (get_elem? (m ∷ e) i ≡ some (max_from f m e))
unfolding max_from
max_from_at f m [] = (0, refl)
max_from_at f m (x ∷ e) =
    pick_at (ltb (f m) (f x)) m x e (max_from_at f (if ltb (f m) (f x) then x else m) e)

-- Of a vector that is not empty `min_e` returns an element, at some index, that measures the least,
-- and `max_e` one that measures the most.
pub extremes_lem {ℓ} :
    {A : Type ℓ} (f : A → ℕ) (x : A) (e : List A)
    → ((y : A) × (min_e (x ∷ e) f ≡ some y)
        × ((i : ℕ) × (get_elem? (x ∷ e) i ≡ some y))
        × AllAtLeast f (f y) (x ∷ e))
      × ((y : A) × (max_e (x ∷ e) f ≡ some y)
          × ((i : ℕ) × (get_elem? (x ∷ e) i ≡ some y))
          × AllAtMost f (f y) (x ∷ e))
unfolding min_e max_e
extremes_lem f x e = (
  (min_from f x e, refl, min_from_at f x e, min_from-AllAtLeast f x e),
  (max_from f x e, refl, max_from_at f x e, max_from-AllAtMost f x e),
)
