-- ===== src/OpGraph/Maps.antt =====
-- The maps of a graph behind one insertion.
use coreir.Base.{
  ℕ, ◌≡◌, refl, ◌∙◌, sym, ap, true, false, Option, none, some, ◌==◌, if◌then◌else◌, member,
  Bool-cases, inl, inr, arith, ◌⊎◌,
}
use coreir.Base.Once.{NoneTwice, member_snoc, snoc-NoneTwice, snoc_kept, snoc_last}
use coreir.OpGraph.{map_insert, Adjacent, insert_at, put_at}

-- A key that is free takes the new value.
pub put_there : {A : Type 0} (m : ℕ → Option A) (k : ℕ) (a : A) → put_at m k a k ≡ some a
unfolding put_at
put_there m k a = ground arith

pub put_cases :
    {A : Type 0} (m : ℕ → Option A) (k : ℕ) (a : A) (j : ℕ) (b : A)
    → put_at m k a j ≡ some b
    → ((j ≡ k) × (some a ≡ some b)) ⊎ (m j ≡ some b)
unfolding put_at
put_cases m k a j b h = elim (Bool-cases (j == k)) [
  | inl same ↦ inl (ground (arith, same), rw (sym (ap (λ x. if x then some a else m j) same)) h)
  | inr other ↦ inr (sym (ap (λ x. if x then some a else m j) other) ∙ h)
]

pub put_kept :
    {A : Type 0} (m : ℕ → Option A) (k : ℕ) (a : A) (j : ℕ) {o : Option A}
    → m j ≡ o
    → (j == k) ≡ false
    → put_at m k a j ≡ o
unfolding put_at
put_kept m k a j h other = ap (λ x. if x then some a else m j) other ∙ h

pub insert_at_free :
    {A : Type 0} (m : ℕ → Option A) (k : ℕ) (a : A) → m k ≡ none → insert_at m k a ≡ put_at m k a
unfolding insert_at
insert_at_free m k a h = rw h refl

pub inserted : (adj : Adjacent) (at ed : ℕ) → member ed (map_insert adj at ed at) ≡ true
unfolding map_insert
inserted adj at ed = ground (arith, snoc_last (adj at) ed)

pub insert_kept :
    (adj : Adjacent) (at ed k v : ℕ)
    → member k (adj v) ≡ true
    → member k (map_insert adj at ed v) ≡ true
unfolding map_insert
insert_kept adj at ed k v h = ground (arith, snoc_kept k (adj v) ed, h)

pub insert_cases :
    (adj : Adjacent) (at ed k v : ℕ)
    → member k (map_insert adj at ed v) ≡ true
    → ((k ≡ ed) × (v ≡ at)) ⊎ (member k (adj v) ≡ true)
unfolding map_insert
insert_cases adj at ed k v h = ground (arith, member_snoc k (adj v) ed, h)

pub insert_once :
    (adj : Adjacent) (at ed v : ℕ)
    → NoneTwice (adj v)
    → member ed (adj v) ≡ false
    → NoneTwice (map_insert adj at ed v)
unfolding map_insert
insert_once adj at ed v o h = elim (Bool-cases (v == at)) [
  | inl here ↦ rw here (snoc-NoneTwice (adj v) ed o h)
  | inr there ↦ rw there o
]
