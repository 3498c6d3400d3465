-- ===== src/ModuleDef/Consistent.antt =====
-- Definitions whose three parts agree, and the removal of an instance from one.
use mathlib.Core.Path.{subst}
use coreir.Base.{
  member, ◌==◌, ℕ, suc, ◌≡◌, refl, sym, ap, ◌∙◌, true, false, ◌||◌, some, List, [], ◌∷◌,
  if◌then◌else◌, length, arith,
}
use coreir.Names.{Name}
use coreir.Wiring.{has_connection}
use coreir.Wiring.Invariant.{IsValid}
use coreir.Wireable.{Wireable, address}
use coreir.Iter.{Iter}
use coreir.Iter.Links.{Represents, Links}
use coreir.Iter.Remove.{drop_instance}
use coreir.ModuleDef.{ModuleDef, find_instance, erase_instance, owns, remove_instance}
use coreir.ModuleDef.Remove.{remove_instance_state}
use coreir.ModuleDef.Listed.{
  has_name, has_address, has_address_kept, find_of_has_name, AllListed, erase_listed,
}

-- The connections are valid, and the instances are those of the list, with names and addresses of
-- their own.
pub record IsConsistent (d : ModuleDef) (order : List ℕ) : Type 0 where
  pub wired : IsValid d.wiring
  pub ordered : Represents d.iter order
  pub listed : AllListed order d.instances
  pub covered : (x : ℕ) → member x order ≡ true → has_address x d.instances ≡ true

-- What the removal of an instance leaves.
pub record IsWithout (n : Name) (inst : Wireable) (d t : ModuleDef) : Type 0 where
  pub found : find_instance n d.instances ≡ some inst
  pub gone : t.instances ≡ erase_instance n d.instances
  pub left :
      (x y : ℕ)
      → has_connection x y t.wiring
        ≡ (if owns inst x || owns inst y then false else has_connection x y d.wiring)

Links-drop_instance :
    (s : Iter) (p a : ℕ) (order : List ℕ)
    → Links s p order
    → member a (drop_instance a order) ≡ false
Links-drop_instance s p a [] l = refl
Links-drop_instance s p a (x ∷ xs) (nz, pr, nx, dup, l) =
    ground (arith, Links-drop_instance s x a xs l, dup, same a x xs)
  where
    same : (a x : ℕ) (xs : List ℕ) → (a == x) ≡ true → member a xs ≡ member x xs
    same a x xs e = ap (λ z. member z xs) (ground arith)

member_of_drop :
    (x a : ℕ) (order : List ℕ) → member x (drop_instance a order) ≡ true → member x order ≡ true
member_of_drop x a [] m = m
member_of_drop x a (y ∷ ys) m = ground (arith, member_of_drop x a ys)

still_covered :
    (n : Name) (inst : Wireable) (d : ModuleDef) (order : List ℕ)
    → IsConsistent d order
    → find_instance n d.instances ≡ some inst
    → (x : ℕ) → member x (drop_instance (address inst) order) ≡ true
    → has_address x (erase_instance n d.instances) ≡ true
still_covered n inst d order c found x m =
    has_address_kept x n inst order d.instances c.listed found
      (other x (address inst) (drop_instance (address inst) order) m
        (Links-drop_instance d.iter 0 (address inst) order c.ordered.1))
      (c.covered x (member_of_drop x (address inst) order m))
  where
    other : (x a : ℕ) (zs : List ℕ) → member x zs ≡ true → member a zs ≡ false → (x == a) ≡ false
    other x a zs h k = ground (arith, same x a zs)
      where
        same : (x a : ℕ) (zs : List ℕ) → (x == a) ≡ true → member x zs ≡ member a zs
        same x a zs e = ap (λ z. member z zs) (ground arith)

pub remove_instance-IsConsistent :
    (n : Name) (d : ModuleDef) (order : List ℕ)
    → IsConsistent d order
    → has_name n d.instances ≡ true
    → (t : ModuleDef) × (order' : List ℕ) × (remove_instance n d ≡ some t)
      × IsConsistent t order'
      × ((inst : Wireable) × IsWithout n inst d t)
      × (suc (length t.instances) ≡ length d.instances)
remove_instance-IsConsistent n d order c h =
    let (inst, found) = find_of_has_name n d.instances h in
    let (l, size, at) = erase_listed n inst order d.instances c.listed found in
    let (t, removed, v, r, gone, left) =
      remove_instance_state n inst order d c.wired c.ordered found at in
    (
      t,
      drop_instance (address inst) order,
      removed,
      record {
        wired = v;
        ordered = r;
        listed = subst (AllListed (drop_instance (address inst) order)) (sym gone) l;
        covered = λ x m. ap (has_address x) gone ∙ still_covered n inst d order c found x m;
      },
      (inst, record { found = found; gone = gone; left = left }),
      ap (λ is. suc (length is)) gone ∙ size,
    )
