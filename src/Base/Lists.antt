-- ===== src/Base/Lists.antt =====
-- Lists measured and indexed by native numbers, under the library's names.
use Prim.Native.Nat.{ℕ, zero, suc, ◌+◌, ◌<◌, ◌≤◌}
use mathlib.Core.Path.{◌≡◌, refl, ap}
use mathlib.Core.List.{List, [], ◌∷◌, ◌++◌}
use mathlib.Core.Option.{Option, none, some}
use mathlib.Core.Bool.{Bool, false, ◌||◌}
use coreir.Base.Tests.{◌==◌}
use native.Mathlib.Nat.{zero-add, suc-add}
use native.Mathlib.Omega.{arith}

module _ {ℓ} {A : Type ℓ} where
  abbrev pub length : List A → ℕ
  length [] = 0
  length (x ∷ xs) = suc (length xs)

  abbrev pub get_elem? : List A → ℕ → Option A
  get_elem? [] i = none
  get_elem? (x ∷ xs) zero = some x
  get_elem? (x ∷ xs) (suc i) = get_elem? xs i

  -- A write out of bounds changes nothing.
  abbrev pub set : List A → ℕ → A → List A
  set [] i v = []
  set (x ∷ xs) zero v = v ∷ xs
  set (x ∷ xs) (suc i) v = x ∷ set xs i v

  abbrev pub replicate : ℕ → A → List A
  replicate zero a = []
  replicate (suc n) a = a ∷ replicate n a

  pub length-append : (xs ys : List A) → length (xs ++ ys) ≡ length xs + length ys
  length-append [] ys = omega arith
  length-append (x ∷ xs) ys = omega (arith, length-append xs ys)

module _ {ℓ} {A : Type ℓ} where
  pub length-set : (xs : List A) (i : ℕ) (v : A) → length (set xs i v) ≡ length xs
  length-set [] i v = refl
  length-set (x ∷ xs) zero v = refl
  length-set (x ∷ xs) (suc i) v = ap suc (length-set xs i v)

  pub length-replicate : (n : ℕ) (a : A) → length (replicate n a) ≡ n
  length-replicate zero a = refl
  length-replicate (suc n) a = ap suc (length-replicate n a)

  pub length_snoc : (p : List A) (v : A) → length (p ++ v ∷ []) ≡ suc (length p)
  length_snoc [] v = refl
  length_snoc (x ∷ p) v = ap suc (length_snoc p v)

  pub replicate-append : (m n : ℕ) (a : A) → replicate m a ++ replicate n a ≡ replicate (m + n) a
  replicate-append zero n a = rw (zero-add)
  replicate-append (suc m) n a = rw (replicate-append m n a, suc-add)

  pub get_elem?-replicate : (n : ℕ) (a : A) (k : ℕ) → k < n → get_elem? (replicate n a) k ≡ some a
  get_elem?-replicate zero a k h = absurd (omega arith)
  get_elem?-replicate (suc n) a zero h = refl
  get_elem?-replicate (suc n) a (suc k) h = get_elem?-replicate n a k (omega arith)

  -- Reading and writing behind a prefix.
  pub get_elem?-append :
      (p xs : List A) (k : ℕ) → get_elem? (p ++ xs) (length p + k) ≡ get_elem? xs k
  get_elem?-append [] xs k = rw zero-add
  get_elem?-append (x ∷ p) xs k = rw suc-add (get_elem?-append p xs k)

  pub get_elem?_here :
      (p : List A) (x : A) (xs : List A) → get_elem? (p ++ x ∷ xs) (length p) ≡ some x
  get_elem?_here [] x xs = refl
  get_elem?_here (y ∷ p) x xs = get_elem?_here p x xs

  pub get_elem?-append_lt :
      (xs t : List A) (k : ℕ) → k < length xs → get_elem? (xs ++ t) k ≡ get_elem? xs k
  get_elem?-append_lt [] t k h = absurd (omega arith)
  get_elem?-append_lt (x ∷ xs) t zero h = refl
  get_elem?-append_lt (x ∷ xs) t (suc k) h = get_elem?-append_lt xs t k (omega arith)

  pub set_here :
      (p : List A) (x : A) (xs : List A) (v : A) → set (p ++ x ∷ xs) (length p) v ≡ p ++ v ∷ xs
  set_here [] x xs v = refl
  set_here (y ∷ p) x xs v = ap (λ (t : List A). y ∷ t) (set_here p x xs v)

  pub get_elem?-none : (xs : List A) (k : ℕ) → length xs ≤ k → get_elem? xs k ≡ none
  get_elem?-none [] k h = refl
  get_elem?-none (x ∷ xs) zero h = absurd (omega arith)
  get_elem?-none (x ∷ xs) (suc k) h = get_elem?-none xs k (omega arith)

  -- Two lists that agree at every index are equal.
  pub get_elem?_ext : (xs ys : List A) → ((k : ℕ) → get_elem? xs k ≡ get_elem? ys k) → xs ≡ ys
  get_elem?_ext [] [] h = refl
  get_elem?_ext [] (y ∷ ys) h = cc (h 0)
  get_elem?_ext (x ∷ xs) [] h = cc (h 0)
  get_elem?_ext (x ∷ xs) (y ∷ ys) h = cc (h 0, get_elem?_ext xs ys (λ k. h (suc k)))

module _ {ℓ} {A : Type ℓ} where
  abbrev pub drop : ℕ → List A → List A
  drop zero xs = xs
  drop (suc n) [] = []
  drop (suc n) (x ∷ xs) = drop n xs

-- Whether a number is in a list.
abbrev pub member : ℕ → List ℕ → Bool
member x [] = false
member x (y ∷ ys) = (x == y) || member x ys
