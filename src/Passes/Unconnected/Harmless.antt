-- ===== src/Passes/Unconnected/Harmless.antt =====
-- The pass removes only what no connection reaches.
use coreir.Base.{
  ℕ, ◌≡◌, refl, sym, ap, ◌∙◌, true, false, not, ◌||◌, some, List, [], ◌∷◌, ◌>>=◌, ◌==◌, leb, length,
  member, if◌then◌else◌, Bool-cases, inl, inr, arith,
}
use coreir.Base.Pairs.{Pairs, has_pair}
use coreir.Names.{Name}
use coreir.Wiring.{Wiring, has_connection, get_connected}
use coreir.Wiring.Invariant.{IsValid}
use coreir.Wiring.Disconnect.{member-get_connected}
use coreir.Wireable.{Wireable, wireable, Selects, no_selects, select}
use coreir.ModuleDef.{ModuleDef, find_instance, erase_instance, owns, owns_select, remove_instance}
use coreir.ModuleDef.Listed.{has_name}
use coreir.ModuleDef.Changed.{find_of_no_name}
use coreir.ModuleDef.Consistent.{IsConsistent, remove_instance-IsConsistent}
use coreir.Passes.Unconnected.{is_connected, any_connected, run_on_instance}

some_member : (y : ℕ) (zs : List ℕ) → member y zs ≡ true → leb 1 (length zs) ≡ true
some_member y [] m = cc
some_member y (z ∷ zs) m = ground arith

module _ (s : Pairs) (x y : ℕ) (linked : has_pair x y s ≡ true) where
  connected_here : (a : ℕ) → (x == a) ≡ true → leb 1 (length (get_connected a s)) ≡ true
  connected_here a e =
      some_member y (get_connected a s)
        (member-get_connected a y s ∙ (ap (λ z. has_pair z y s) (at e) ∙ linked))
    where
      at : (x == a) ≡ true → a ≡ x
      at e = ground arith

  mutual
    unfolding owns owns_select is_connected any_connected

    owner_connected : (w : Wireable) → owns w x ≡ true → is_connected s w ≡ true
    owner_connected (wireable a t ss) h =
        ground (arith, h, connected_here a, any_owner_connected ss)

    any_owner_connected : (ss : Selects) → owns_select ss x ≡ true → any_connected s ss ≡ true
    any_owner_connected no_selects h = cc
    any_owner_connected (select m c ss) h =
        ground (arith, h, owner_connected c, any_owner_connected ss)

unlinked :
    (d : Wiring) (w : Wireable) (x y : ℕ)
    → IsValid d
    → is_connected d.connected w ≡ false
    → owns w x ≡ true
    → has_connection x y d ≡ false
unlinked d w x y v h o = elim (Bool-cases (has_pair x y d.connected)) [
  | inl there ↦ absurd (ground (arith, owner_connected d.connected x y there w o, h))
  | inr absent ↦ sym (v.linked x y) ∙ absent
]

has_connection-swap : (x y : ℕ) (s : Wiring) → has_connection x y s ≡ has_connection y x s
has_connection-swap x y s = ground arith

-- On a consistent definition the pass does not fail on an instance. If a connection reaches the
-- instance or one of its selects, nothing is changed; otherwise the instance is removed, the definition
-- stays consistent, and it has the very connections that it had before.
pub run_on_instance_lem :
    (iname : Name) (inst : Wireable) (d : ModuleDef) (order : List ℕ)
    → IsConsistent d order
    → find_instance iname d.instances ≡ some inst
    → (e : ModuleDef) × (order' : List ℕ) × (run_on_instance iname d
        ≡ some (not (is_connected d.wiring.connected inst), e))
      × IsConsistent e order'
      × (e.instances ≡ (
          if is_connected d.wiring.connected inst
          then d.instances
          else erase_instance iname d.instances))
      × ((x y : ℕ) → has_connection x y e.wiring ≡ has_connection x y d.wiring)
unfolding run_on_instance
run_on_instance_lem iname inst d order c found =
    elim (Bool-cases (is_connected d.wiring.connected inst)) [
      | inl busy ↦ (d, order, looked_up ∙ rw busy refl, c, rw busy refl, λ x y. refl)
      | inr free ↦
          let (t, order', removed, c', (w, without), size) =
            remove_instance-IsConsistent iname d order c named in
          let same : w ≡ inst = ground (arith, found, without.found) in
          (
            t,
            order',
            looked_up ∙ rw (free, removed) refl,
            c',
            rw free without.gone,
            λ x y.
                without.left x y
                ∙ (ap (λ v. if owns v x || owns v y then false else has_connection x y d.wiring)
                      same
                    ∙ ground (
                      arith,
                      unlinked d.wiring inst x y c.wired free,
                      unlinked d.wiring inst y x c.wired free,
                      has_connection-swap x y d.wiring,
                    )),
          )
    ]
  where
    looked_up : run_on_instance iname d ≡ elim (is_connected d.wiring.connected inst) [
      | true ↦ some (false, d)
      | false ↦ do e ← remove_instance iname d; some (true, e)
    ]
    looked_up = rw (run_on_instance, found) refl

    named : has_name iname d.instances ≡ true
    named = elim (Bool-cases (has_name iname d.instances)) [
      | inl there ↦ there
      | inr missing ↦ absurd (ground (arith, find_of_no_name iname d.instances missing, found))
    ]
