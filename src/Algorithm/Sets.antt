-- ===== src/Algorithm/Sets.antt =====
-- The set operations on vectors and the maps to vectors of include/coreir/common/algorithm.h.
use coreir.Base.{
  ◌≡◌, refl, ap, sym, ◌∙◌, Bool, true, false, not, ◌&&◌, Option, none, some, List, [], ◌∷◌, ◌++◌,
  if◌then◌else◌, arith,
}

-- The elements have a test of equality, `operator==`; a map is the list of its entries.
module _ {ℓ} {A : Type ℓ} (eq : A → A → Bool) where
  unfoldable pub elem : A → List A → Bool
  elem e [] = false
  elem e (x ∷ t) = if eq x e then true else elem e t

  -- `remove` and `delete_if`
  unfoldable pub remove : A → List A → List A
  remove e [] = []
  remove e (x ∷ t) = if eq x e then remove e t else x ∷ remove e t

  unfoldable pub delete_if : List A → (A → Bool) → List A
  delete_if [] f = []
  delete_if (x ∷ c) f = if f x then delete_if c f else x ∷ delete_if c f

  -- `subtract`, which `difference` applies to a copy.
  unfoldable pub subtract : List A → List A → List A
  unfolding delete_if elem
  subtract a b = delete_if a (λ i. elem i b)

  unfoldable pub difference : List A → List A → List A
  unfolding subtract
  difference a b = subtract a b

  unfoldable pub intersection : List A → List A → List A
  unfolding elem
  intersection [] r = []
  intersection (e ∷ l) r = if elem e r then e ∷ intersection l r else intersection l r

  unfoldable pub elems_equal : List A → List A → Bool
  elems_equal [] [] = true
  elems_equal (x ∷ xs) (y ∷ ys) = eq x y && elems_equal xs ys
  elems_equal _ _ = false

  same_key : ((x y : A) → eq x y ≡ true → x ≡ y) → (x y z : A) → eq x y ≡ true → eq x z ≡ eq y z
  same_key sound x y z h = ap (λ w. eq w z) (sound x y h)

  clash :
      ((x : A) → eq x x ≡ true)
      → ((x y : A) → eq x y ≡ true → x ≡ y)
      → (x y z : A) → eq x z ≡ true
      → eq y z ≡ true
      → eq x y ≡ true
  clash same sound x y z h k = ap (λ w. eq w y) (sound x z h ∙ sym (sound y z k)) ∙ same y

  same_elem :
      ((x y : A) → eq x y ≡ true → x ≡ y)
      → (x y : A) (b : List A) → eq x y ≡ true
      → elem x b ≡ elem y b
  same_elem sound x y b h = ap (λ z. elem z b) (sound x y h)

  -- An element of the difference is one of the first vector that the second lacks; an element of the
  -- intersection is one of both. The test of equality must be correct.
  pub elem-difference :
      ((x y : A) → eq x y ≡ true → x ≡ y)
      → (x : A) (a b : List A)
      → (elem x (difference a b) ≡ elem x a && not (elem x b))
        × (elem x (intersection a b) ≡ elem x a && elem x b)
  unfolding elem difference intersection
  elem-difference sound x [] b = (refl, refl)
  elem-difference sound x (e ∷ a) b =
      let (d, i) = elem-difference sound x a b in
      (ground (arith, d, same_elem sound e x b), ground (arith, i, same_elem sound e x b))

module _ {ℓ κ} {A : Type ℓ} {B : Type κ} (eq : A → A → Bool) where
  unfoldable pub contains_key : A → List (A × B) → Bool
  contains_key a [] = false
  contains_key a (entry ∷ m) = if eq entry.0 a then true else contains_key a m

  -- `map_find`: a missing key is an assertion failure.
  unfoldable pub map_find : A → List (A × B) → Option B
  map_find a [] = none
  map_find a (entry ∷ m) = if eq entry.0 a then some entry.1 else map_find a m

-- The values of a key, if it has any.
abbrev pub values_or_none {ℓ} : {B : Type ℓ} → Option (List B) → List B
values_or_none none = []
values_or_none (some bs) = bs

module _ {ℓ κ} {A : Type ℓ} {B : Type κ} (eq : A → A → Bool) where
  unfoldable pub map_insert : List (A × List B) → A → B → List (A × List B)
  map_insert [] a b = (a, b ∷ []) ∷ []
  map_insert (entry ∷ m) a b =
      if eq entry.0 a then (entry.0, entry.1 ++ b ∷ []) ∷ m else entry ∷ map_insert m a b

  -- Behind `map_insert` the key has its values with the new one behind them, or the new one alone if
  -- it had none, and the other keys are as before.
  pub map_find-map_insert :
      ((x : A) → eq x x ≡ true)
      → ((x y : A) → eq x y ≡ true → x ≡ y)
      → (m : List (A × List B)) (a : A) (b : B) (k : A)
      → map_find eq k (map_insert m a b)
        ≡ (if eq a k then some (values_or_none (map_find eq a m) ++ b ∷ []) else map_find eq k m)
  unfolding map_insert map_find
  map_find-map_insert same sound [] a b k = refl
  map_find-map_insert same sound (entry ∷ m) a b k = ground (
    arith,
    map_find-map_insert same sound m a b k,
    same_key eq sound entry.0 a k,
    clash eq same sound entry.0 a k,
  )
