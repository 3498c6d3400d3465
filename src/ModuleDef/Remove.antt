-- ===== src/ModuleDef/Remove.antt =====
-- `disconnectAll` and `removeInstance` on a valid definition.
use coreir.Base.{
  member, ℕ, ◌≡◌, refl, sym, some_eq, >>=-eq-some, ap, ◌∙◌, Bool, true, false, ◌||◌, Option, none,
  some, List, [], ◌∷◌, ◌>>=◌, ◌==◌, if◌then◌else◌, arith,
}
use coreir.Names.{Name, name_eq}
use coreir.Names.Equal.{name_eq_sound, name_eq_swap}
use mathlib.Core.Path.{subst}
use coreir.Wiring.{Wiring, connection_ctor, has_connection, has_meta_data, disconnect}
use coreir.Wiring.Invariant.{IsValid}
use coreir.Wiring.Disconnect.{disconnect_lem}
use coreir.Wireable.{
  Wireable, wireable, Selects, no_selects, select, address, disconnect_all, disconnect_selects,
}
use coreir.Wireable.Frame.{Loses, disconnect_all-Loses}
use coreir.Iter
use coreir.Iter.Links.{Represents}
use coreir.Iter.Remove.{drop_instance, remove_instance-Represents}
use coreir.ModuleDef.{
  ModuleDef, Instances, find_instance, erase_instance, owns, owns_select, remove_instance,
}

-- A state that has lost the connections of the wireables of `gone`, and no others.
abbrev pub Cut : (gone : ℕ → Bool) → Wiring → Option Wiring → Type 0
Cut gone s result =
    (t : Wiring) × (result ≡ some t)
    × IsValid t
    × ((x y : ℕ)
        → has_connection x y t ≡ (if gone x || gone y then false else has_connection x y s))

-- One cut after another.
>>=-Cut :
    (f g : ℕ → Bool) (s : Wiring) (m : Option Wiring) (k : Wiring → Option Wiring)
    → Cut f s m
    → ((t : Wiring) → IsValid t → Cut g t (k t))
    → Cut (λ x. g x || f x) s (m >>= k)
>>=-Cut f g s m k (t, returned, v, left) next =
    let (t', returned', v', left') = next t v in
    (t', ap (λ r. r >>= k) returned ∙ returned', v', λ x y. ground (arith, left x y, left' x y))

or_swapped :
    (c : Wireable) (ss : Selects) (s : Wiring) (m : Option Wiring)
    → Cut (λ x. owns_select ss x || owns c x) s m
    → Cut (λ x. owns c x || owns_select ss x) s m
or_swapped c ss s m (t, returned, v, left) = (t, returned, v, λ x y. ground (arith, left x y))

mutual
  unfolding disconnect_all disconnect_selects owns owns_select

  disconnect_all-Cut : (w : Wireable) (s : Wiring) → IsValid s → Cut (owns w) s (disconnect_all w s)
  disconnect_all-Cut (wireable a t ss) s v =
      >>=-Cut (owns_select ss) (λ x. x == a) s (disconnect_selects ss s) (disconnect a)
        (disconnect_selects-Cut ss s v) (λ s' v'. disconnect_lem a s' v')

  disconnect_selects-Cut :
      (ss : Selects) (s : Wiring) → IsValid s → Cut (owns_select ss) s (disconnect_selects ss s)
  disconnect_selects-Cut no_selects s v = (s, refl, v, λ x y. refl)
  disconnect_selects-Cut (select m c ss) s v =
      or_swapped c ss s (disconnect_all c s >>= disconnect_selects ss) (
        >>=-Cut (owns c) (owns_select ss) s (disconnect_all c s) (disconnect_selects ss)
          (disconnect_all-Cut c s v) (λ s' v'. disconnect_selects-Cut ss s' v'))

-- `disconnectAll` succeeds, keeps the invariant, and removes exactly the connections that end at the
-- wireable or at one of its selects.
pub disconnect_all_lem :
    (w : Wireable) (s : Wiring) → IsValid s → Cut (owns w) s (disconnect_all w s)
disconnect_all_lem = disconnect_all-Cut

same_right : (k n m : Name) → name_eq n m ≡ true → name_eq k n ≡ name_eq k m
same_right k n m h = ap (λ x. name_eq k x) (name_eq_sound n m h)

same_left : (k m n : Name) → name_eq k m ≡ true → name_eq k n ≡ name_eq m n
same_left k m n h = ap (λ x. name_eq x n) (name_eq_sound k m h)

pub find_instance-erase_instance :
    (n k : Name) (is : Instances)
    → find_instance k (erase_instance n is) ≡ (if name_eq k n then none else find_instance k is)
unfolding find_instance erase_instance
find_instance-erase_instance n k [] = ground arith
find_instance-erase_instance n k ((m, w) ∷ is) = ground (
  arith,
  find_instance-erase_instance n k is,
  same_right k n m,
  same_left k m n,
  name_eq_swap n m,
)

-- The state behind a removal.
pub remove_instance_state :
    (iname : Name) (inst : Wireable) (order : List ℕ) (d : ModuleDef)
    → IsValid d.wiring
    → Represents d.iter order
    → find_instance iname d.instances ≡ some inst
    → member (address inst) order ≡ true
    → (t : ModuleDef) × (remove_instance iname d ≡ some t)
      × IsValid t.wiring
      × Represents t.iter (drop_instance (address inst) order)
      × (t.instances ≡ erase_instance iname d.instances)
      × ((x y : ℕ)
          → has_connection x y t.wiring
            ≡ (if owns inst x || owns inst y then false else has_connection x y d.wiring))
unfolding remove_instance
remove_instance_state iname inst order d v r found listed =
    let (wiring', cut, v', left) = disconnect_all_lem inst d.wiring v in
    let (iter', removed, r') = remove_instance-Represents (address inst) d.iter order r listed in
    (
      record d { instances = erase_instance iname d.instances; wiring = wiring'; iter = iter' },
      rw (found, cut, removed) refl,
      v',
      r',
      refl,
      left,
    )

-- What a removal leaves alone.
remove_instance-Loses :
    (iname : Name) (d t : ModuleDef)
    → remove_instance iname d ≡ some t
    → (t.interface ≡ d.interface) × Loses d.wiring t.wiring
unfolding remove_instance
remove_instance-Loses iname d t h =
    let (inst, found, h1) = >>=-eq-some (find_instance iname d.instances) _ h in
    let (wiring', cut, h2) = >>=-eq-some (disconnect_all inst d.wiring) _ h1 in
    let (iter', removed, h3) = >>=-eq-some (Iter.remove_instance (address inst) d.iter) _ h2 in
    (
      ap (λ (e : ModuleDef). e.interface) (sym (some_eq h3)),
      subst (Loses d.wiring) (ap (λ (e : ModuleDef). e.wiring) (some_eq h3))
          (disconnect_all-Loses inst d.wiring wiring' cut),
    )

lost_with :
    (gone : Bool) (x y : ℕ) (s t : Wiring)
    → IsValid s
    → Loses s t
    → has_connection x y t ≡ (if gone then false else has_connection x y s)
    → has_meta_data x y t ≡ (if gone then false else has_meta_data x y s)
lost_with gone x y s t v loses left =
    let con = connection_ctor x y in
    ground (arith, left, loses.described con.0 con.1, v.described con.0 con.1)

-- Removing an instance of a valid definition succeeds: the instance is gone and the others stay, the
-- connections to it and to its selects are gone with their metadata, and the others stay with theirs,
-- and the loop over the instances no longer sees it. The interface with its selects and the count of
-- errors stay as they are.
pub remove_instance_lem :
    (iname : Name) (inst : Wireable) (order : List ℕ) (d : ModuleDef)
    → IsValid d.wiring
    → Represents d.iter order
    → find_instance iname d.instances ≡ some inst
    → member (address inst) order ≡ true
    → (t : ModuleDef) × (remove_instance iname d ≡ some t)
      × IsValid t.wiring
      × Represents t.iter (drop_instance (address inst) order)
      × ((k : Name)
          → find_instance k t.instances
            ≡ (if name_eq k iname then none else find_instance k d.instances))
      × ((x y : ℕ)
          → has_connection x y t.wiring
            ≡ (if owns inst x || owns inst y then false else has_connection x y d.wiring))
      × ((x y : ℕ)
          → has_meta_data x y t.wiring
            ≡ (if owns inst x || owns inst y then false else has_meta_data x y d.wiring))
      × (t.interface ≡ d.interface)
      × (t.wiring.errors ≡ d.wiring.errors)
remove_instance_lem iname inst order d v r found listed =
    let (t, removed, v', r', gone, left) =
      remove_instance_state iname inst order d v r found listed in
    let (interface, loses) = remove_instance-Loses iname d t removed in
    (
      t,
      removed,
      v',
      r',
      λ k. ap (find_instance k) gone ∙ find_instance-erase_instance iname k d.instances,
      left,
      λ x y. lost_with (owns inst x || owns inst y) x y d.wiring t.wiring v loses (left x y),
      interface,
      loses.same_errors,
    )
