-- ===== src/Passes/DeadInstances/Kept.antt =====
-- The theorem on the pass: it ends, what drives an instance outside the instances stays, and every
-- instance that is left drives something.
use mathlib.Core.Path.{subst}
use coreir.Base.{
  member, ℕ, suc, ◌≡◌, sym, ap, ◌∙◌, Bool, true, false, not, ◌&&◌, ◌||◌, some, List, [], ◌∷◌, ◌==◌,
  Bool-cases, inl, inr, length, arith,
}
use coreir.Base.Pairs.{Pairs, has_pair}
use coreir.Names.{Name, name_eq}
use coreir.Names.Equal.{name_eq_sound}
use coreir.Types.{HwType, dk_in, dk_in_out, dir_eq, get_dir}
use coreir.Wiring.{has_connection, get_connected}
use coreir.Wiring.Disconnect.{member-get_connected}
use coreir.Wireable.{Wireable, wireable, Selects, no_selects, select}
use coreir.ModuleDef.{ModuleDef, Instances, find_instance, erase_instance, owns, owns_select}
use coreir.ModuleDef.Remove.{find_instance-erase_instance}
use coreir.Passes.DeadInstances.{
  any_input, has_output_connection, any_output_connection, find_dead, delete_dead_instances,
}
use coreir.ModuleDef.Listed.{has_name, AllListed}
use coreir.ModuleDef.Consistent.{IsConsistent, IsWithout}
use coreir.Passes.DeadInstances.Ends.{AllOf, AllAlive, has, not_dead, delete_loop-Ends}

-- Whether a wireable takes a value.
abbrev pub takes : (ℕ → HwType) → ℕ → Bool
takes type_of y = dir_eq (get_dir (type_of y)) dk_in || dir_eq (get_dir (type_of y)) dk_in_out

-- Neither of the wireables belongs to an instance of another name.
abbrev pub AllOutside : Name → (x y : ℕ) → Instances → Type 0
AllOutside n x y [] = Unit {0}
AllOutside n x y ((m, w) ∷ is) =
    ((name_eq n m || (not (owns w x) && not (owns w y))) ≡ true) × AllOutside n x y is

-- The instance drives `y`, which takes a value and is none of another instance: of the interface,
-- say.
pub record Drives (type_of : ℕ → HwType) (d : ModuleDef) (n : Name) (inst : Wireable) (x y : ℕ)
    : Type 0 where
  pub found : find_instance n d.instances ≡ some inst
  pub mine : owns inst x ≡ true
  pub linked : has_connection x y d.wiring ≡ true
  pub taken : takes type_of y ≡ true
  pub outside : AllOutside n x y d.instances

module _ (type_of : ℕ → HwType) where
  any_input-member :
      (y : ℕ) (others : List ℕ)
      → member y others ≡ true
      → takes type_of y ≡ true
      → any_input type_of others ≡ true
  any_input-member y [] m h = cc
  any_input-member y (z ∷ zs) m h = ground (arith, same y z, any_input-member y zs)
    where
      same : (y z : ℕ) → (y == z) ≡ true → takes type_of y ≡ takes type_of z
      same y z e = ap (takes type_of) (ground arith)

  module _ (s : Pairs) (x y : ℕ) (linked : has_pair x y s ≡ true)
      (taken : takes type_of y ≡ true) where
    input_here : (a : ℕ) → (x == a) ≡ true → any_input type_of (get_connected a s) ≡ true
    input_here a e =
        any_input-member y (get_connected a s)
          (member-get_connected a y s ∙ (ap (λ z. has_pair z y s) (at e) ∙ linked)) taken
      where
        at : (x == a) ≡ true → a ≡ x
        at e = ground arith

    mutual
      unfolding owns owns_select has_output_connection any_output_connection

      drives_alive : (w : Wireable) → owns w x ≡ true → has_output_connection type_of s w ≡ true
      drives_alive (wireable a t ss) h = ground (arith, h, input_here a, drives_alive_select ss)

      drives_alive_select :
          (ss : Selects) → owns_select ss x ≡ true → any_output_connection type_of s ss ≡ true
      drives_alive_select no_selects h = cc
      drives_alive_select (select m c ss) h =
          ground (arith, h, drives_alive c, drives_alive_select ss)

  alive_not_dead :
      (n : Name) (inst : Wireable) (s : Pairs) (order : List ℕ) (is : Instances)
      → AllListed order is
      → find_instance n is ≡ some inst
      → has_output_connection type_of s inst ≡ true
      → has n (find_dead type_of s is) ≡ false
  unfolding find_instance find_dead
  alive_not_dead n inst s order [] l e h = cc
  alive_not_dead n inst s order ((m, w) ∷ is) (at, one, name, l) e h =
      elim (Bool-cases (name_eq n m)) [
        | inl here ↦
            let we : w ≡ inst = ground (arith, here, e) in
            let ne = name_eq_sound n m here in
            rw (ap (has_output_connection type_of s) we ∙ h)
              (not_dead type_of n s is (ap (λ k. has_name k is) ne ∙ name))
        | inr there ↦
            ground (arith, there, alive_not_dead n inst s order is l (ground (arith, there, e)) h)
      ]

outside_find :
    (n m : Name) (x y : ℕ) (is : Instances) (w : Wireable)
    → AllOutside n x y is
    → find_instance m is ≡ some w
    → name_eq n m ≡ false
    → (owns w x ≡ false) × (owns w y ≡ false)
unfolding find_instance
outside_find n m x y [] w o e h = cc
outside_find n m x y ((k, v) ∷ is) w (here, o) e h = elim (Bool-cases (name_eq m k)) [
  | inl same ↦
      let ve : v ≡ w = ground (arith, same, e) in
      let other : name_eq n k ≡ false = ap (name_eq n) (sym (name_eq_sound m k same)) ∙ h in
      subst (λ z. (owns z x ≡ false) × (owns z y ≡ false)) ve (ground (arith, here, other))
  | inr differ ↦ outside_find n m x y is w o (ground (arith, differ, e)) h
]

outside_erase :
    (n m : Name) (x y : ℕ) (is : Instances)
    → AllOutside n x y is
    → AllOutside n x y (erase_instance m is)
unfolding erase_instance
outside_erase n m x y [] o = tt
outside_erase n m x y ((k, v) ∷ is) (here, o) = elim (Bool-cases (name_eq m k)) [
  | inl same ↦ rw same (outside_erase n m x y is o)
  | inr differ ↦ rw differ (here, outside_erase n m x y is o)
]

module _ (type_of : ℕ → HwType) (start : ModuleDef) where
  abbrev Kept : ModuleDef → Type 0
  Kept d =
      (n : Name) (inst : Wireable) (x y : ℕ)
      → Drives type_of start n inst x y
      → Drives type_of d n inst x y

  abbrev NotDriving : Name → Type 0
  NotDriving m =
      (n : Name) (inst : Wireable) (x y : ℕ) → Drives type_of start n inst x y → name_eq n m ≡ false

  none_driving :
      (ns : List Name)
      → ((n : Name) (inst : Wireable) (x y : ℕ)
          → Drives type_of start n inst x y
          → has n ns ≡ false)
      → AllOf NotDriving ns
  none_driving [] h = tt
  none_driving (m ∷ ms) h = (
    λ n inst x y dr. first n m ms (h n inst x y dr),
    none_driving ms (λ n inst x y dr. later n m ms (h n inst x y dr)),
  )
    where
      first : (n m : Name) (ms : List Name) → has n (m ∷ ms) ≡ false → name_eq n m ≡ false
      first n m ms h = ground arith

      later : (n m : Name) (ms : List Name) → has n (m ∷ ms) ≡ false → has n ms ≡ false
      later n m ms h = ground arith

  find_dead-NotDriving :
      (d : ModuleDef) (order : List ℕ)
      → IsConsistent d order
      → Kept d
      → AllOf NotDriving (find_dead type_of d.wiring.connected d.instances)
  find_dead-NotDriving d order c p =
      none_driving (find_dead type_of d.wiring.connected d.instances) λ n inst x y dr.
        let now = p n inst x y dr in
        alive_not_dead type_of n inst d.wiring.connected order d.instances c.listed now.found (
          drives_alive type_of d.wiring.connected x y (c.wired.linked x y ∙ now.linked) now.taken
            inst now.mine)

  Kept-removed :
      (m : Name) (w : Wireable) (d t : ModuleDef)
      → IsWithout m w d t
      → NotDriving m
      → Kept d
      → Kept t
  Kept-removed m w d t without q p n inst x y dr =
      let now = p n inst x y dr in
      let other = q n inst x y dr in
      let (ox, oy) = outside_find n m x y d.instances w now.outside without.found other in
      record {
        found =
            ap (find_instance n) without.gone
            ∙ (find_instance-erase_instance m n d.instances ∙ ground (arith, other, now.found));
        mine = now.mine;
        linked = without.left x y ∙ ground (arith, ox, oy, now.linked);
        taken = now.taken;
        outside =
            subst (AllOutside n x y) (sym without.gone)
              (outside_erase n m x y d.instances now.outside);
      }

-- On a consistent definition the pass ends and fails no assertion, and the definition stays
-- consistent. Every instance that drives a wireable outside the instances stays and drives it still;
-- every instance that is left drives something. The answer is always that nothing was changed.
pub delete_dead_instances_lem :
    (type_of : ℕ → HwType) (d : ModuleDef) (order : List ℕ)
    → IsConsistent d order
    → (t : ModuleDef) × (order' : List ℕ) × (delete_dead_instances type_of d ≡ some (t, false))
      × IsConsistent t order'
      × ((n : Name) (inst : Wireable) (x y : ℕ)
          → Drives type_of d n inst x y
          → Drives type_of t n inst x y)
      × AllAlive type_of t.wiring.connected t.instances
unfolding delete_dead_instances
delete_dead_instances_lem type_of d order c =
    delete_loop-Ends type_of (Kept type_of d) (NotDriving type_of d)
      (find_dead-NotDriving type_of d) (Kept-removed type_of d) (suc (length d.instances)) d order c
      (λ n inst x y dr. dr) (omega arith)
