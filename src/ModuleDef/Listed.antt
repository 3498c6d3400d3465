-- ===== src/ModuleDef/Listed.antt =====
-- A definition whose instances have names and addresses of their own and stand in the list that the
-- loop over the instances sees, and what is left of that when one is removed.
use coreir.Base.{
  member, ℕ, suc, ◌≡◌, refl, sym, ap, ◌∙◌, Bool, true, false, ◌||◌, some, List, [], ◌∷◌, ◌==◌,
  Bool-cases, inl, inr, length, arith,
}
use coreir.Names.{Name, name_eq}
use coreir.Names.Equal.{name_eq_sound}
use coreir.Wireable.{Wireable, address}
use coreir.Iter.Remove.{drop_instance}
use coreir.ModuleDef.{Instances, find_instance, erase_instance}

abbrev pub has_name : Name → Instances → Bool
has_name n [] = false
has_name n ((m, w) ∷ is) = name_eq n m || has_name n is

abbrev pub has_address : ℕ → Instances → Bool
has_address a [] = false
has_address a ((m, w) ∷ is) = (a == address w) || has_address a is

abbrev pub AllListed : List ℕ → Instances → Type 0
AllListed order [] = Unit {0}
AllListed order ((m, w) ∷ is) =
    (member (address w) order ≡ true)
    × (has_address (address w) is ≡ false)
    × (has_name m is ≡ false)
    × AllListed order is

same_names : (n m : Name) (is : Instances) → name_eq n m ≡ true → has_name n is ≡ has_name m is
same_names n m is h = ap (λ x. has_name x is) (name_eq_sound n m h)

erase_absent : (n : Name) (is : Instances) → has_name n is ≡ false → erase_instance n is ≡ is
unfolding erase_instance
erase_absent n [] h = refl
erase_absent n ((m, w) ∷ is) h = ground (arith, erase_absent n is)

pub find_of_has_name :
    (n : Name) (is : Instances)
    → has_name n is ≡ true
    → (w : Wireable) × (find_instance n is ≡ some w)
unfolding find_instance
find_of_has_name n [] h = cc
find_of_has_name n ((m, w) ∷ is) h = elim (Bool-cases (name_eq n m)) [
  | inl here ↦ (w, rw here refl)
  | inr there ↦ let (v, e) = find_of_has_name n is (ground (arith, there, h)) in (v, rw there e)
]

has_address-find :
    (n : Name) (is : Instances) (w : Wireable)
    → find_instance n is ≡ some w
    → has_address (address w) is ≡ true
unfolding find_instance
has_address-find n [] w h = cc
has_address-find n ((m, v) ∷ is) w h = elim (Bool-cases (name_eq n m)) [
  | inl here ↦ same_address v w is (ground (arith, here, h))
  | inr there ↦ ground (arith, has_address-find n is w (ground (arith, there, h)))
]
  where
    same_address :
        (v w : Wireable) (is : Instances)
        → v ≡ w
        → ((address w == address v) || has_address (address w) is) ≡ true
    same_address v w is e = ground (arith, ap address e)

pub member-drop :
    (x i : ℕ) (xs : List ℕ)
    → (x == i) ≡ false
    → member x xs ≡ true
    → member x (drop_instance i xs) ≡ true
member-drop x i [] h m = cc
member-drop x i (y ∷ ys) h m = ground (arith, member-drop x i ys)

drop_listed :
    (a : ℕ) (order : List ℕ) (is : Instances)
    → has_address a is ≡ false
    → AllListed order is
    → AllListed (drop_instance a order) is
drop_listed a order [] h l = tt
drop_listed a order ((m, w) ∷ is) h (at, one, name, l) = (
  member-drop (address w) a order (ground arith) at,
  one,
  name,
  drop_listed a order is (ground arith) l,
)

has_address-erase :
    (a : ℕ) (n : Name) (is : Instances)
    → has_address a is ≡ false
    → has_address a (erase_instance n is) ≡ false
unfolding erase_instance
has_address-erase a n [] h = refl
has_address-erase a n ((m, w) ∷ is) h = ground (arith, has_address-erase a n is)

pub has_name-erase :
    (k n : Name) (is : Instances)
    → name_eq k n ≡ false
    → has_name k (erase_instance n is) ≡ has_name k is
unfolding erase_instance
has_name-erase k n [] h = refl
has_name-erase k n ((m, w) ∷ is) h = ground (arith, has_name-erase k n is h, no_clash k n m h)
  where
    no_clash : (k n m : Name) → name_eq k n ≡ false → name_eq n m ≡ true → name_eq k m ≡ false
    no_clash k n m h e = ap (λ x. name_eq k x) (sym (name_eq_sound n m e)) ∙ h

name_gone :
    (k n : Name) (is : Instances) → has_name k is ≡ false → has_name k (erase_instance n is) ≡ false
unfolding erase_instance
name_gone k n [] h = refl
name_gone k n ((m, w) ∷ is) h = ground (arith, name_gone k n is)

-- Without one of them, the instances are listed in the list without it, and they are one fewer.
pub erase_listed :
    (n : Name) (inst : Wireable) (order : List ℕ) (is : Instances)
    → AllListed order is
    → find_instance n is ≡ some inst
    → AllListed (drop_instance (address inst) order) (erase_instance n is)
      × (suc (length (erase_instance n is)) ≡ length is)
      × (member (address inst) order ≡ true)
unfolding find_instance erase_instance
erase_listed n inst order [] l h = cc
erase_listed n inst order ((m, w) ∷ is) (at, one, name, l) h = elim (Bool-cases (name_eq n m)) [
  | inl here ↦
      let e : w ≡ inst = ground (arith, here, h) in
      let gone = erase_absent n is (same_names n m is here ∙ name) in
      rw (here, gone, ← e) (drop_listed (address w) order is one l, refl, at)
  | inr there ↦
      let h' : find_instance n is ≡ some inst = ground (arith, there, h) in
      let (l', size, listed) = erase_listed n inst order is l h' in
      rw there (
        (
          member-drop (address w) (address inst) order
              (apart (address w) (address inst) is one (has_address-find n is inst h')) at,
          has_address-erase (address w) n is one,
          name_gone m n is name,
          l',
        ),
        ap suc size,
        listed,
      )
]
  where
    apart :
        (a b : ℕ) (is : Instances)
        → has_address a is ≡ false
        → has_address b is ≡ true
        → (a == b) ≡ false
    apart a b is h k = ground (arith, same a b is)
      where
        same : (a b : ℕ) (is : Instances) → (a == b) ≡ true → has_address a is ≡ has_address b is
        same a b is e = ap (λ x. has_address x is) (ground arith)

-- The addresses of the instances that stay.
pub has_address_kept :
    (x : ℕ) (n : Name) (inst : Wireable) (order : List ℕ) (is : Instances)
    → AllListed order is
    → find_instance n is ≡ some inst
    → (x == address inst) ≡ false
    → has_address x is ≡ true
    → has_address x (erase_instance n is) ≡ true
unfolding find_instance erase_instance
has_address_kept x n inst order [] l h ne at = cc
has_address_kept x n inst order ((m, w) ∷ is) (listed, one, name, l) h ne at =
    elim (Bool-cases (name_eq n m)) [
      | inl here ↦
          let e : w ≡ inst = ground (arith, here, h) in
          let gone = erase_absent n is (same_names n m is here ∙ name) in
          rw (here, gone) (ground (arith, at, ne, ap address e))
      | inr there ↦
          let h' : find_instance n is ≡ some inst = ground (arith, there, h) in
          rw there (ground (arith, at, has_address_kept x n inst order is l h' ne))
    ]
