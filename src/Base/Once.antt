-- ===== src/Base/Once.antt =====
-- Lists that hold no number twice, and the order of two numbers in a list.
use Prim.Native.Nat.{ℕ, suc, ◌≤◌, ◌<◌}
use mathlib.Core.Path.{◌≡◌, refl, ap, ◌∙◌}
use mathlib.Core.Logic.{◌⊎◌, inl, inr}
use mathlib.Core.Bool.{Bool, true, false, ◌||◌}
use mathlib.Core.List.{List, [], ◌∷◌, ◌++◌}
use native.Mathlib.Omega.{arith}
use coreir.Base.Tests.{◌==◌, if◌then◌else◌, Bool-cases, ==→eq}
use coreir.Base.Lists.{length, member}

-- Whether `m` stands behind `r`.
abbrev pub precedes : (r m : ℕ) → List ℕ → Bool
precedes r m [] = false
precedes r m (n ∷ ns) = if r == n then member m ns else precedes r m ns

abbrev pub NoneTwice : List ℕ → Type 0
NoneTwice [] = Unit {0}
NoneTwice (n ∷ ns) = (member n ns ≡ false) × NoneTwice ns

pub ==_sym : (x y : ℕ) → (x == y) ≡ (y == x)
==_sym x y = ground arith

pub member-append : (x : ℕ) (xs ys : List ℕ) → member x (xs ++ ys) ≡ (member x xs || member x ys)
member-append x [] ys = refl
member-append x (y ∷ xs) ys = ground (arith, member-append x xs ys)

pub member_snoc : (x : ℕ) (xs : List ℕ) (v : ℕ) → member x (xs ++ v ∷ []) ≡ (member x xs || x == v)
member_snoc x [] v = ground arith
member_snoc x (y ∷ xs) v = ground (arith, member_snoc x xs v)

pub snoc_last : (xs : List ℕ) (v : ℕ) → member v (xs ++ v ∷ []) ≡ true
snoc_last xs v = ground (arith, member_snoc v xs v)

pub snoc_kept : (x : ℕ) (xs : List ℕ) (v : ℕ) → member x xs ≡ true → member x (xs ++ v ∷ []) ≡ true
snoc_kept x xs v h = ground (arith, member_snoc x xs v, h)

pub snoc_cases :
    (x : ℕ) (xs : List ℕ) (v : ℕ) → member x (xs ++ v ∷ []) ≡ true → (member x xs ≡ true) ⊎ (x ≡ v)
snoc_cases x xs v h = ground (arith, member_snoc x xs v, h)

pub snoc-NoneTwice :
    (xs : List ℕ) (v : ℕ) → NoneTwice xs → member v xs ≡ false → NoneTwice (xs ++ v ∷ [])
snoc-NoneTwice [] v o h = (refl, tt)
snoc-NoneTwice (x ∷ xs) v (one, o) h = (
  ground (arith, member_snoc x xs v, one, h, ==_sym v x),
  snoc-NoneTwice xs v o (ground (arith, h)),
)

pub precedes_snoc :
    (r m : ℕ) (xs : List ℕ) → member r xs ≡ true → precedes r m (xs ++ m ∷ []) ≡ true
precedes_snoc r m [] h = cc
precedes_snoc r m (x ∷ xs) h = elim (Bool-cases (r == x)) [
  | inl here ↦ rw here (snoc_last xs m)
  | inr there ↦ rw there (precedes_snoc r m xs (ground (arith, h, there)))
]

pub precedes_kept :
    (r m : ℕ) (xs : List ℕ) (v : ℕ) → precedes r m xs ≡ true → precedes r m (xs ++ v ∷ []) ≡ true
precedes_kept r m [] v h = cc
precedes_kept r m (x ∷ xs) v h = elim (Bool-cases (r == x)) [
  | inl here ↦ rw here (snoc_kept m xs v (ground (arith, h, here)))
  | inr there ↦ rw there (precedes_kept r m xs v (ground (arith, h, there)))
]

pub precedes-member : (r m : ℕ) (xs : List ℕ) → precedes r m xs ≡ true → member m xs ≡ true
precedes-member r m [] h = h
precedes-member r m (x ∷ xs) h = elim (Bool-cases (r == x)) [
  | inl here ↦ ground (arith, here, h)
  | inr there ↦ ground (arith, there, h, precedes-member r m xs)
]

-- A member of a list is none of what the list does not hold.
pub apart : (k x : ℕ) (xs : List ℕ) → member x xs ≡ false → member k xs ≡ true → (k == x) ≡ false
apart k x xs h i = elim (Bool-cases (k == x)) [
  | inl same ↦ absurd (ground (arith, ap (λ (t : ℕ). member t xs) (==→eq k x same), h, i))
  | inr there ↦ there
]

-- Taking one element out.
take_out : ℕ → List ℕ → List ℕ
take_out n [] = []
take_out n (m ∷ ms) = if n == m then ms else m ∷ take_out n ms

length-take_out :
    (n : ℕ) (ms : List ℕ) → member n ms ≡ true → suc (length (take_out n ms)) ≡ length ms
unfolding take_out
length-take_out n [] h = cc
length-take_out n (m ∷ ms) h = ground (arith, length-take_out n ms, h)

member-take_out :
    (k n : ℕ) (ms : List ℕ) → (k == n) ≡ false → member k (take_out n ms) ≡ member k ms
unfolding take_out
member-take_out k n [] h = refl
member-take_out k n (m ∷ ms) h = ground (arith, member-take_out k n ms h)

-- A list that holds nothing twice is no longer than a list that has all its members.
pub NoneTwice-length :
    (xs ys : List ℕ)
    → NoneTwice xs
    → ((k : ℕ) → member k xs ≡ true → member k ys ≡ true)
    → length xs ≤ length ys
NoneTwice-length [] ys o sub = omega arith
NoneTwice-length (x ∷ xs) ys (one, o) sub =
    let there = sub x (ground arith) in
    omega (arith, length-take_out x ys there, NoneTwice-length xs (take_out x ys) o (left there))
  where
    left : member x ys ≡ true → (k : ℕ) → member k xs ≡ true → member k (take_out x ys) ≡ true
    left there k i = member-take_out k x ys (apart k x xs one i) ∙ sub k (ground (arith, i))

-- The place of a number in a list.
abbrev pub place : ℕ → List ℕ → ℕ
place n [] = 0
place n (m ∷ ms) = if n == m then 0 else suc (place n ms)

pub precedes-place :
    (r m : ℕ) (xs : List ℕ) → NoneTwice xs → precedes r m xs ≡ true → place r xs < place m xs
precedes-place r m [] o h = cc
precedes-place r m (x ∷ xs) (one, o) h = elim (Bool-cases (r == x)) [
  | inl here ↦ rw (here, apart m x xs one (ground (arith, here, h))) (omega arith)
  | inr there ↦
      let behind : precedes r m xs ≡ true = ground (arith, there, h) in
      let off = apart m x xs one (precedes-member r m xs behind) in
      rw (there, off) (omega (arith, precedes-place r m xs o behind))
]

-- A list that holds nothing twice and is no shorter than a list with all its members has all the
-- members of that list.
pub NoneTwice-covers :
    (xs ys : List ℕ)
    → NoneTwice xs
    → ((k : ℕ) → member k xs ≡ true → member k ys ≡ true)
    → length ys ≤ length xs
    → (k : ℕ) → member k ys ≡ true
    → member k xs ≡ true
NoneTwice-covers xs ys o sub le k h = elim (Bool-cases (member k xs)) [
  | inl i ↦ i
  | inr off ↦ absurd (omega (arith, le, NoneTwice-length (k ∷ xs) ys (off, o) more))
]
  where
    more : (j : ℕ) → member j (k ∷ xs) ≡ true → member j ys ≡ true
    more j i = elim (Bool-cases (j == k)) [
      | inl here ↦ ap (λ a. member a ys) (==→eq j k here) ∙ h
      | inr there ↦ sub j (ground (arith, i, there))
    ]
