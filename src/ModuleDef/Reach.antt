-- ===== src/ModuleDef/Reach.antt =====
-- What a program does with a definition of src/ir/moduledef.cpp, as steps.
use mathlib.Core.Path.{subst}
use coreir.Base.{
  ℕ, ◌≡◌, ◌≢◌, refl, ◌∙◌, Bool, false, Option, none, some, List, [], ◌∷◌, ◌++◌, member, Bool-cases,
  inl, inr, >>=-eq-some, arith,
}
use coreir.Base.Pairs.{has_pair}
use coreir.Names.{Name, name_eq}
use coreir.Types.{HwType}
use coreir.Values.{Values}
use coreir.Wiring.{Wiring, connect, disconnect_pair, disconnect, get_meta_data}
use coreir.Wiring.Invariant.{IsValid}
use coreir.Wiring.Keep.{
  connect-IsValid, disconnect_pair-IsValid, disconnect-IsValid, get_meta_data-IsValid,
}
use coreir.Wireable.{Wireable, wireable, no_selects, address, sel_each}
use coreir.Wireable.Walk.{address-sel_each}
use coreir.Iter.{Iter, no_instances}
use coreir.Iter.Links.{Represents, member-append, append_instance-Represents}
use coreir.ModuleDef.{
  ModuleRef, new_instance, ModuleDef, Instances, find_instance, put_instance, replace_instance,
  is_some, add_instance, self, sel, remove_instance,
}
use coreir.ModuleDef.Listed.{has_name, has_address, AllListed}
use coreir.ModuleDef.Changed.{
  find_of_no_name, has_name_of_find, has_address-put_instance, put_instance-AllListed,
  has_address-replace_instance, replace_instance-AllListed,
}
use coreir.ModuleDef.Consistent.{IsConsistent, remove_instance-IsConsistent}

-- `ModuleDef(Module*)`: the interface, and nothing in it.
unfoldable pub new_definition : Wireable → ModuleDef
new_definition w = record {
  interface = w;
  instances = [];
  wiring = record { connected = []; connections = []; meta_data = []; errors = 0 };
  iter = no_instances;
}

-- One call that does not fail. A new instance gets an address that is not in use, and a wireable is
-- not connected with itself.
pub data Step : ModuleDef → ModuleDef → Type 0 where
  add :
      (d e : ModuleDef) (instname : Name) (fresh : ℕ) (m : ModuleRef) (modargs : Values)
      → fresh ≢ 0
      → has_address fresh d.instances ≡ false
      → add_instance instname fresh m modargs d ≡ some e
      → Step d e
  remove_from : (d e : ModuleDef) (iname : Name) → remove_instance iname d ≡ some e → Step d e
  select_path :
      (d e : ModuleDef) (path : List Name) (fresh left : List ℕ) (a : ℕ)
      → sel path fresh d ≡ some (a, e, left)
      → Step d e
  wire :
      (d : ModuleDef) (s : Wiring) (max_errors : ℕ) (contained : ℕ → Bool) (type_of : ℕ → HwType)
      (a b : ℕ)
      → a ≢ b
      → connect max_errors contained type_of a b d.wiring ≡ some s
      → Step d (record d { wiring = s })
  unwire :
      (d : ModuleDef) (s : Wiring) (a b : ℕ)
      → disconnect_pair a b d.wiring ≡ some s
      → Step d (record d { wiring = s })
  unwire_all :
      (d : ModuleDef) (s : Wiring) (w : ℕ)
      → disconnect w d.wiring ≡ some s
      → Step d (record d { wiring = s })
  describe :
      (d : ModuleDef) (s : Wiring) (a b : ℕ)
      → get_meta_data a b d.wiring ≡ some s
      → Step d (record d { wiring = s })

pub data Reach (w : Wireable) : ModuleDef → Type 0 where
  start : Reach w (new_definition w)
  next : {d e : ModuleDef} → Reach w d → Step d e → Reach w e

abbrev pub Sound : ModuleDef → Type 0
Sound d = (order : List ℕ) × IsConsistent d order

new_definition-Sound : (w : Wireable) → Sound (new_definition w)
unfolding new_definition has_pair
new_definition-Sound w = (
  [],
  record {
    wired = record {
      linked = λ a b. refl;
      ordered = λ a b h. ground arith;
      distinct = tt;
      described = λ a b h. h;
    };
    ordered = (refl, refl);
    listed = tt;
    covered = λ x h. ground (arith, h);
  },
)

rewired : (d : ModuleDef) (s : Wiring) → IsValid s → Sound d → Sound (record d { wiring = s })
rewired d s v (order, c) =
    (order, record { wired = v; ordered = c.ordered; listed = c.listed; covered = c.covered })

same_definition : (r : Option ModuleDef) (d e : ModuleDef) → r ≡ some d → r ≡ some e → e ≡ d
same_definition r d e h k = ground (arith, h, k)

absent_stays :
    (n : Name) (d : ModuleDef) → find_instance n d.instances ≡ none → remove_instance n d ≡ none
unfolding remove_instance
absent_stays n d h = rw h refl

removed-Sound : (n : Name) (d e : ModuleDef) → Sound d → remove_instance n d ≡ some e → Sound e
removed-Sound n d e (order, c) h = elim (Bool-cases (has_name n d.instances)) [
  | inl there ↦
      let (t, order', returned, c', without, size) =
        remove_instance-IsConsistent n d order c there in
      subst Sound (same_definition (remove_instance n d) e t h returned) (order', c')
  | inr missing ↦
      absurd (ground (arith, absent_stays n d (find_of_no_name n d.instances missing), h))
]

order_free :
    (fresh : ℕ) (d : ModuleDef) (order : List ℕ)
    → IsConsistent d order
    → has_address fresh d.instances ≡ false
    → member fresh order ≡ false
order_free fresh d order c h = elim (Bool-cases (member fresh order)) [
  | inl there ↦ absurd (ground (arith, c.covered fresh there, h))
  | inr out ↦ out
]

more_listed :
    (i : ℕ) (order : List ℕ) (is : Instances) → AllListed order is → AllListed (order ++ i ∷ []) is
more_listed i order [] l = tt
more_listed i order ((m, w) ∷ is) (at, one, name, l) =
    (member-append (address w) i order ∙ ground (arith, at), one, name, more_listed i order is l)

none_of {ℓ} : {A : Type ℓ} (m : Option A) → is_some m ≡ false → m ≡ none
none_of none h = refl
none_of (some a) h = cc

added :
    (n : Name) (fresh : ℕ) (t : HwType) (iter' : Iter) (d : ModuleDef) (order : List ℕ)
    → IsConsistent d order
    → Represents iter' (order ++ fresh ∷ [])
    → has_name n d.instances ≡ false
    → has_address fresh d.instances ≡ false
    → Sound (record d {
      instances = put_instance n (wireable fresh t no_selects) d.instances;
      iter = iter';
    })
added n fresh t iter' d order c r no_name free = (
  order ++ fresh ∷ [],
  record {
    wired = c.wired;
    ordered = r;
    listed =
        put_instance-AllListed n (wireable fresh t no_selects) (order ++ fresh ∷ []) d.instances
          (more_listed fresh order d.instances c.listed) no_name free
          (ground (arith, member-append fresh fresh order));
    covered = λ x m. ground (
      arith,
      member-append x fresh order,
      m,
      c.covered x,
      has_address-put_instance x n (wireable fresh t no_selects) d.instances no_name,
    );
  },
)

added-Sound :
    (d e : ModuleDef) (instname : Name) (fresh : ℕ) (m : ModuleRef) (modargs : Values)
    → fresh ≢ 0
    → has_address fresh d.instances ≡ false
    → add_instance instname fresh m modargs d ≡ some e
    → Sound d
    → Sound e
unfolding add_instance new_instance
added-Sound d e instname fresh m modargs nz free h (order, c) =
    let missing = none_of (find_instance instname d.instances) (ground (arith, h)) in
    let no_name = has_name_of_find instname d.instances missing in
    let (iter', appended, r) =
      append_instance-Represents fresh d.iter order c.ordered nz
        (order_free fresh d order c free) in
    subst Sound (ground (arith, h, appended))
      (added instname fresh m.module_type iter' d order c r no_name free)

-- An instance that was selected from.
selected :
    (top : Name) (w inst : Wireable) (d : ModuleDef) (order : List ℕ)
    → IsConsistent d order
    → find_instance top d.instances ≡ some inst
    → address w ≡ address inst
    → Sound (record d { instances = replace_instance top w d.instances })
selected top w inst d order c found same = (
  order,
  record {
    wired = c.wired;
    ordered = c.ordered;
    listed = replace_instance-AllListed top w inst order d.instances c.listed found same;
    covered =
        λ x m. has_address-replace_instance x top w inst d.instances found same ∙ c.covered x m;
  },
)

from_interface : (d : ModuleDef) (w : Wireable) → Sound d → Sound (record d { interface = w })
from_interface d w (order, c) =
    (order, record { wired = c.wired; ordered = c.ordered; listed = c.listed; covered = c.covered })

selected-Sound :
    (d e : ModuleDef) (path : List Name) (fresh left : List ℕ) (a : ℕ)
    → sel path fresh d ≡ some (a, e, left)
    → Sound d
    → Sound e
unfolding sel
selected-Sound d e [] fresh left a h s = cc
selected-Sound d e (top ∷ path) fresh left a h s = elim (Bool-cases (name_eq top self)) [
  | inl here ↦
      let (found, along, done) =
        >>=-eq-some (sel_each path fresh d.interface) _ (rw (sel, here) at h) in
      subst Sound (ground (arith, done)) (from_interface d found.1 s)
  | inr there ↦
      let (inst, at, then_along) =
        >>=-eq-some (find_instance top d.instances) _ (rw (sel, there) at h) in
      let (found, along, done) = >>=-eq-some (sel_each path fresh inst) _ then_along in
      subst Sound (ground (arith, done)) (
        selected top found.1 inst d s.0 s.1 at
          (address-sel_each path fresh found.2 inst found.1 found.0 along))
]

Step-Sound : {d e : ModuleDef} → Step d e → Sound d → Sound e
Step-Sound (add d e n fresh m modargs nz free h) s = added-Sound d e n fresh m modargs nz free h s
Step-Sound (remove_from d e n h) s = removed-Sound n d e s h
Step-Sound (select_path d e path fresh left a h) s = selected-Sound d e path fresh left a h s
Step-Sound (wire d s' m contained type_of a b apart h) s =
    rewired d s' (connect-IsValid m contained type_of a b d.wiring s' s.1.wired apart h) s
Step-Sound (unwire d s' a b h) s =
    rewired d s' (disconnect_pair-IsValid a b d.wiring s' s.1.wired h) s
Step-Sound (unwire_all d s' w h) s = rewired d s' (disconnect-IsValid w d.wiring s' s.1.wired h) s
Step-Sound (describe d s' a b h) s =
    rewired d s' (get_meta_data-IsValid a b d.wiring s' s.1.wired h) s

-- Whatever calls are made on a new definition, but for `connect` of a wireable with itself, and with a
-- fresh address for each instance, the definition is consistent behind them: its connections are valid, and the loop over the instances sees exactly its instances, each once.
pub Reach-IsConsistent :
    (w : Wireable) (d : ModuleDef) → Reach w d → (order : List ℕ) × IsConsistent d order
Reach-IsConsistent w d start = new_definition-Sound w
Reach-IsConsistent w d (next {d = e} r s) = Step-Sound s (Reach-IsConsistent w e r)
