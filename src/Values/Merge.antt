-- ===== src/Values/Merge.antt =====
-- The entries behind `mergeValues`.
use coreir.Base.{◌≡◌, refl, ap, sym, true, Option, none, some, [], ◌∷◌, if◌then◌else◌, arith}
use coreir.Names.{Name, name_eq}
use coreir.Names.Equal.{name_eq_sound}
use coreir.Values.{Values, Value, find_key, insert_key, merge_values}

-- The first result, or the second where there is none.
abbrev pub or_from {ℓ} : {A : Type ℓ} → Option A → Option A → Option A
or_from (some a) m = some a
or_from none m = m

find_key-same : (k n : Name) (vs : Values) → name_eq k n ≡ true → find_key k vs ≡ find_key n vs
find_key-same k n vs h = ap (λ x. find_key x vs) (name_eq_sound k n h)

same_key : (k n m : Name) → name_eq n m ≡ true → name_eq k n ≡ name_eq k m
same_key k n m h = ap (λ x. name_eq k x) (name_eq_sound n m h)

pub find_key-insert_key :
    (k n : Name) (v : Value) (vs : Values)
    → find_key n vs ≡ none
    → find_key k (insert_key n v vs) ≡ (if name_eq k n then some v else find_key k vs)
unfolding find_key insert_key
find_key-insert_key k n v [] h = refl
find_key-insert_key k n v ((m, w) ∷ vs) h =
    ground (arith, find_key-insert_key k n v vs, clash k n m)
  where
    clash : (k n m : Name) → name_eq k n ≡ true → name_eq n m ≡ name_eq k m
    clash k n m e = ap (λ x. name_eq x m) (sym (name_eq_sound k n e))

none_behind {ℓ} : {A : Type ℓ} (m : Option A) → m ≡ or_from m none
none_behind none = refl
none_behind (some a) = refl

-- A name that both have keeps the value of the first, and every other name has the value that it had
-- in one of them.
pub find_key-merge_values :
    (a1 a0 : Values) (k : Name)
    → find_key k (merge_values a0 a1) ≡ or_from (find_key k a0) (find_key k a1)
unfolding merge_values find_key
find_key-merge_values [] a0 k = none_behind (find_key k a0)
find_key-merge_values ((n, v) ∷ a1) a0 k = ground (
  arith,
  find_key-merge_values a1 a0 k,
  find_key-merge_values a1 (insert_key n v a0) k,
  find_key-insert_key k n v a0,
  find_key-same k n a0,
)
