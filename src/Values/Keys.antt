-- ===== src/Values/Keys.antt =====
-- The keys of a map that is a list of entries.
use coreir.Base.{
  suc, ◌≤◌, ◌≡◌, refl, ap, ◌∙◌, sym, Bool, true, false, ◌||◌, some, List, [], ◌∷◌, if◌then◌else◌,
  length, Bool-cases, inl, inr, arith,
}
use coreir.Names.{Name, name_eq}
use coreir.Names.Equal.{name_eq_sound, name_eq_self}
use coreir.Values.{find_key}

abbrev pub has_entry {ℓ} : {A : Type ℓ} → Name → List (Name × A) → Bool
has_entry n [] = false
has_entry n ((m, v) ∷ vs) = name_eq n m || has_entry n vs

-- The keys of a map are different.
abbrev pub IsMap {ℓ} : {A : Type ℓ} → List (Name × A) → Type 0
IsMap [] = Unit {0}
IsMap ((m, v) ∷ vs) = (has_entry m vs ≡ false) × IsMap vs

drop_key {ℓ} : {A : Type ℓ} → Name → List (Name × A) → List (Name × A)
drop_key n [] = []
drop_key n ((m, v) ∷ vs) = if name_eq n m then vs else (m, v) ∷ drop_key n vs

pub has_entry-same {ℓ} :
    {A : Type ℓ} (n m : Name) (vs : List (Name × A))
    → name_eq n m ≡ true
    → has_entry n vs ≡ has_entry m vs
has_entry-same n m vs h = ap (λ x. has_entry x vs) (name_eq_sound n m h)

length-drop_key {ℓ} :
    {A : Type ℓ} (n : Name) (vs : List (Name × A))
    → has_entry n vs ≡ true
    → suc (length (drop_key n vs)) ≡ length vs
unfolding drop_key
length-drop_key n [] h = cc
length-drop_key n ((m, v) ∷ vs) h = ground (arith, length-drop_key n vs, h)

clash : (k n m : Name) → name_eq k n ≡ false → name_eq n m ≡ true → name_eq k m ≡ false
clash k n m h e = ap (λ x. name_eq k x) (sym (name_eq_sound n m e)) ∙ h

has_entry-drop_key {ℓ} :
    {A : Type ℓ} (k n : Name) (vs : List (Name × A))
    → name_eq k n ≡ false
    → has_entry k (drop_key n vs) ≡ has_entry k vs
unfolding drop_key
has_entry-drop_key k n [] h = refl
has_entry-drop_key k n ((m, v) ∷ vs) h = ground (arith, has_entry-drop_key k n vs h, clash k n m h)

absent_kept {ℓ} :
    {A : Type ℓ} (k n : Name) (vs : List (Name × A))
    → has_entry k vs ≡ false
    → has_entry k (drop_key n vs) ≡ false
unfolding drop_key
absent_kept k n [] h = refl
absent_kept k n ((m, v) ∷ vs) h = ground (arith, absent_kept k n vs)

drop_key-IsMap {ℓ} :
    {A : Type ℓ} (n : Name) (vs : List (Name × A)) → IsMap vs → IsMap (drop_key n vs)
unfolding drop_key
drop_key-IsMap n [] h = tt
drop_key-IsMap n ((m, v) ∷ vs) (one, h) = elim (Bool-cases (name_eq n m)) [
  | inl here ↦ rw here h
  | inr there ↦ rw there (absent_kept m n vs one, drop_key-IsMap n vs h)
]

-- If a map has all keys of another and no more entries, it has no more keys.
pub same_keys {ℓ κ} :
    {A : Type ℓ} {B : Type κ} (xs : List (Name × A)) (ys : List (Name × B))
    → IsMap xs
    → IsMap ys
    → ((k : Name) → has_entry k xs ≡ true → has_entry k ys ≡ true)
    → length ys ≤ length xs
    → (k : Name) → has_entry k ys ≡ true
    → has_entry k xs ≡ true
same_keys [] [] mx my sub le k h = h
same_keys [] (y ∷ ys) mx my sub le k h = absurd (omega (arith, le))
same_keys ((m, v) ∷ xs) ys (one, mx) my sub le k h = elim (Bool-cases (name_eq k m)) [
  | inl here ↦ ground (arith, here)
  | inr there ↦ ground (
    arith,
    same_keys xs (drop_key m ys) mx (drop_key-IsMap m ys my) sub_left
        (omega (arith, le, length-drop_key m ys there_first)) k
        (has_entry-drop_key k m ys there ∙ h),
  )
]
  where
    there_first : has_entry m ys ≡ true
    there_first = sub m (ground (arith, name_eq_self m))

    sub_left : (n : Name) → has_entry n xs ≡ true → has_entry n (drop_key m ys) ≡ true
    sub_left n i = elim (Bool-cases (name_eq n m)) [
      | inl same ↦ absurd (ground (arith, has_entry-same n m xs same, one, i))
      | inr other ↦ has_entry-drop_key n m ys other ∙ sub n (ground (arith, i))
    ]

pub has_entry-find_key {ℓ} :
    {A : Type ℓ} (k : Name) (vs : List (Name × A)) (v : A)
    → find_key k vs ≡ some v
    → has_entry k vs ≡ true
unfolding find_key
has_entry-find_key k [] v h = cc
has_entry-find_key k ((m, w) ∷ vs) v h = ground (arith, has_entry-find_key k vs v, h)

pub find_of_key {ℓ} :
    {A : Type ℓ} (k : Name) (vs : List (Name × A))
    → has_entry k vs ≡ true
    → (v : A) × (find_key k vs ≡ some v)
unfolding find_key
find_of_key k [] h = cc
find_of_key k ((m, w) ∷ vs) h = elim (Bool-cases (name_eq k m)) [
  | inl here ↦ (w, rw here refl)
  | inr there ↦ let (v, e) = find_of_key k vs (ground (arith, h, there)) in (v, rw there e)
]
