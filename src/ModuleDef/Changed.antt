-- ===== src/ModuleDef/Changed.antt =====
-- The list of instances behind `addInstance` and `sel`.
use coreir.Base.{
  member, ℕ, ◌≡◌, refl, sym, ap, ◌∙◌, true, false, ◌||◌, none, some, List, [], ◌∷◌, ◌==◌,
  Bool-cases, inl, inr, arith,
}
use coreir.Names.{Name, name_eq, name_lt}
use coreir.Names.Equal.{name_eq_sound, name_eq_swap}
use coreir.Wireable.{Wireable, address}
use coreir.ModuleDef.{Instances, find_instance, put_instance, replace_instance}
use coreir.ModuleDef.Listed.{has_name, has_address, AllListed}

-- A new instance.
pub has_name_of_find :
    (n : Name) (is : Instances) → find_instance n is ≡ none → has_name n is ≡ false
unfolding find_instance
has_name_of_find n [] h = refl
has_name_of_find n ((m, w) ∷ is) h = ground (arith, has_name_of_find n is)

pub find_of_no_name :
    (n : Name) (is : Instances) → has_name n is ≡ false → find_instance n is ≡ none
unfolding find_instance
find_of_no_name n [] h = refl
find_of_no_name n ((m, w) ∷ is) h = ground (arith, find_of_no_name n is)

pub has_address-member :
    (a : ℕ) (order : List ℕ) (is : Instances)
    → AllListed order is
    → member a order ≡ false
    → has_address a is ≡ false
has_address-member a order [] l h = refl
has_address-member a order ((m, w) ∷ is) (at, one, name, l) h =
    ground (arith, has_address-member a order is l h, same a (address w) order)
  where
    same : (a b : ℕ) (order : List ℕ) → (a == b) ≡ true → member a order ≡ member b order
    same a b order e = ap (λ x. member x order) (ground arith)

pub has_address-put_instance :
    (x : ℕ) (n : Name) (v : Wireable) (is : Instances)
    → has_name n is ≡ false
    → has_address x (put_instance n v is) ≡ ((x == address v) || has_address x is)
unfolding put_instance
has_address-put_instance x n v [] h = ground arith
has_address-put_instance x n v ((m, w) ∷ is) h = ground (arith, has_address-put_instance x n v is)

has_name-put_instance :
    (k n : Name) (v : Wireable) (is : Instances)
    → has_name k (put_instance n v is) ≡ (name_eq k n || has_name k is)
unfolding put_instance
has_name-put_instance k n v [] = ground arith
has_name-put_instance k n v ((m, w) ∷ is) =
    ground (arith, has_name-put_instance k n v is, same_key k n m)
  where
    same_key : (k n m : Name) → name_eq n m ≡ true → name_eq k n ≡ name_eq k m
    same_key k n m e = ap (λ x. name_eq k x) (name_eq_sound n m e)

pub put_instance-AllListed :
    (n : Name) (v : Wireable) (order : List ℕ) (is : Instances)
    → AllListed order is
    → has_name n is ≡ false
    → has_address (address v) is ≡ false
    → member (address v) order ≡ true
    → AllListed order (put_instance n v is)
unfolding put_instance
put_instance-AllListed n v order [] l h k at = (at, refl, refl, tt)
put_instance-AllListed n v order ((m, w) ∷ is) (there, one, name, l) h k at =
    elim (Bool-cases (name_eq n m)) [
      | inl same ↦ absurd (ground (arith, same, h))
      | inr other ↦
          let later : has_name n is ≡ false = ground (arith, h) in
          rw other (elim (Bool-cases (name_lt n m)) [
            | inl before ↦
                rw before (at, ground (arith, k), ground (arith, h), (there, one, name, l))
            | inr behind ↦ rw behind (
              there,
              has_address-put_instance (address w) n v is later ∙ ground (arith, k, one),
              has_name-put_instance m n v is ∙ ground (arith, name, name_eq_swap n m, other),
              put_instance-AllListed n v order is l later (ground (arith, k)) at,
            )
          ])
    ]

-- An instance whose selects have changed.
pub has_address-replace_instance :
    (x : ℕ) (n : Name) (v inst : Wireable) (is : Instances)
    → find_instance n is ≡ some inst
    → address v ≡ address inst
    → has_address x (replace_instance n v is) ≡ has_address x is
unfolding find_instance replace_instance
has_address-replace_instance x n v inst [] h e = refl
has_address-replace_instance x n v inst ((m, w) ∷ is) h e = elim (Bool-cases (name_eq n m)) [
  | inl here ↦
      let same : w ≡ inst = ground (arith, here, h) in rw here (ground (arith, ap address same, e))
  | inr there ↦ rw there (
      ap (λ b. (x == address w) || b)
        (has_address-replace_instance x n v inst is (ground (arith, there, h)) e))
]

has_name-replace_instance :
    (k n : Name) (v : Wireable) (is : Instances)
    → has_name k (replace_instance n v is) ≡ has_name k is
unfolding replace_instance
has_name-replace_instance k n v [] = refl
has_name-replace_instance k n v ((m, w) ∷ is) = ground (arith, has_name-replace_instance k n v is)

pub replace_instance-AllListed :
    (n : Name) (v inst : Wireable) (order : List ℕ) (is : Instances)
    → AllListed order is
    → find_instance n is ≡ some inst
    → address v ≡ address inst
    → AllListed order (replace_instance n v is)
unfolding find_instance replace_instance
replace_instance-AllListed n v inst order [] l h e = tt
replace_instance-AllListed n v inst order ((m, w) ∷ is) (at, one, name, l) h e =
    elim (Bool-cases (name_eq n m)) [
      | inl here ↦
          let same : address v ≡ address w = e ∙ sym (ap address (same_instance here)) in
          rw here
            (ap (λ a. member a order) same ∙ at, ap (λ a. has_address a is) same ∙ one, name, l)
      | inr there ↦
          let h' : find_instance n is ≡ some inst = ground (arith, there, h) in
          rw there (
            at,
            has_address-replace_instance (address w) n v inst is h' e ∙ one,
            has_name-replace_instance m n v is ∙ name,
            replace_instance-AllListed n v inst order is l h' e,
          )
    ]
  where
    same_instance : name_eq n m ≡ true → w ≡ inst
    same_instance here = ground (arith, here, h)
