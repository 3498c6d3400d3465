-- ===== src/Wireable/Typed.antt =====
-- Exactly the types decide what can be selected: on a well-typed tree a path that `canSel` accepts is
-- selected.
use coreir.Base.{
  ℕ, ◌+◌, ◌≤◌, ◌≡◌, refl, sym, ap, ◌∙◌, true, Bool, not, ◌||◌, Option, none, some, List, [], ◌∷◌,
  length, Bool-cases, inl, inr, arith, ◌⊎◌,
}
use mathlib.Core.Path.{subst}
use coreir.Names.{Name, name_eq, name_lt}
use coreir.Names.Equal.{name_eq_sound}
use coreir.Types.{HwType}
use coreir.Types.Select.{can_sel, sel, can_sel_path}
use coreir.Types.Select.Agree.{returns, can_sel-sel}
use coreir.Wireable.{
  Wireable, wireable, Selects, no_selects, select, address, get_type, find_select, put_select,
  sel_child, set_child, sel_each, is_empty_path, sel_along,
}

-- The types of the selects are those that `sel` gives on the type of their parent.
unfoldable mutual
  pub WellTyped : Wireable → Type 0
  WellTyped (wireable a t ss) = AllWellTyped t ss

  pub AllWellTyped : HwType → Selects → Type 0
  AllWellTyped t no_selects = Unit {0}
  AllWellTyped t (select m c ss) = (sel t m ≡ some (get_type c)) × WellTyped c × AllWellTyped t ss

find_select-WellTyped :
    (s : Name) (t : HwType) (ss : Selects) (c : Wireable)
    → AllWellTyped t ss
    → find_select s ss ≡ some c
    → (sel t s ≡ some (get_type c)) × WellTyped c
unfolding find_select AllWellTyped
find_select-WellTyped s t no_selects c h e = cc
find_select-WellTyped s t (select m d ss) c h e = elim (Bool-cases (name_eq s m)) [
  | inl same ↦
      let eq : d ≡ c = ground (arith, same, e) in
      rw (name_eq_sound s m same)
        (subst (λ x. (sel t m ≡ some (get_type x)) × WellTyped x) eq (h.0, h.1))
  | inr other ↦ find_select-WellTyped s t ss c h.2 (rw other at e)
]

put_select-AllWellTyped :
    (s : Name) (t : HwType) (ss : Selects) (c : Wireable)
    → AllWellTyped t ss
    → sel t s ≡ some (get_type c)
    → WellTyped c
    → AllWellTyped t (put_select s c ss)
unfolding put_select AllWellTyped
put_select-AllWellTyped s t no_selects c h e wc = (e, wc, tt)
put_select-AllWellTyped s t (select m d ss) c h e wc = elim (Bool-cases (name_eq s m)) [
  | inl same ↦ rw same (rw (← name_eq_sound s m same) e, wc, h.2)
  | inr other ↦ rw other (elim (Bool-cases (name_lt s m)) [
    | inl before ↦ rw before (e, wc, (h.0, h.1, h.2))
    | inr behind ↦ rw behind (h.0, h.1, put_select-AllWellTyped s t ss c h.2 e wc)
  ])
]

abbrev Child : Name → List ℕ → HwType → Option (Wireable × List ℕ) → Type 0
Child s fresh t result =
    (c : Wireable) × (left : List ℕ) × (result ≡ some (c, left))
    × (sel t s ≡ some (get_type c))
    × WellTyped c
    × (length fresh ≤ length left + 1)

new-Child :
    (s : Name) (fresh : List ℕ) (a : ℕ) (t u : HwType) (ss : Selects)
    → find_select s ss ≡ none
    → can_sel t s ≡ some true
    → sel t s ≡ some u
    → 1 ≤ length fresh
    → Child s fresh t (sel_child s fresh (wireable a t ss))
unfolding sel_child WellTyped AllWellTyped
new-Child s [] a t u ss missing can e room = absurd (omega arith)
new-Child s (f ∷ rest) a t u ss missing can e room =
    (wireable f u no_selects, rest, rw (sel_child, missing, can, e) refl, e, tt, omega arith)

old-Child :
    (s : Name) (fresh : List ℕ) (a : ℕ) (t : HwType) (ss : Selects) (c : Wireable)
    → find_select s ss ≡ some c
    → AllWellTyped t ss
    → Child s fresh t (sel_child s fresh (wireable a t ss))
unfolding sel_child
old-Child s fresh a t ss c found h =
    let (e, wc) = find_select-WellTyped s t ss c h found in
    (c, fresh, rw (sel_child, found) refl, e, wc, omega arith)

some_type : (t : HwType) (s : Name) → can_sel t s ≡ some true → (u : HwType) × (sel t s ≡ some u)
some_type t s h = known (sel t s) (can_sel-sel t s h)
  where
    known : (r : Option HwType) → returns r ≡ true → (u : HwType) × (r ≡ some u)
    known none e = cc
    known (some u) e = (u, refl)

Option-cases {ℓ} : {A : Type ℓ} (m : Option A) → (m ≡ none) ⊎ ((a : A) × (m ≡ some a))
Option-cases none = inl refl
Option-cases (some a) = inr (a, refl)

sel_child_lem :
    (s : Name) (fresh : List ℕ) (w : Wireable)
    → WellTyped w
    → can_sel (get_type w) s ≡ some true
    → 1 ≤ length fresh
    → Child s fresh (get_type w) (sel_child s fresh w)
unfolding WellTyped
sel_child_lem s fresh (wireable a t ss) h can room = elim (Option-cases (find_select s ss)) [
  | inl missing ↦ let (u, e) = some_type t s can in new-Child s fresh a t u ss missing can e room
  | inr (c, found) ↦ old-Child s fresh a t ss c found h
]

path_step :
    (t : HwType) (s : Name) (path : List Name)
    → can_sel_path t (s ∷ path) ≡ some true
    → (can_sel t s ≡ some true)
      × ((u : HwType) → sel t s ≡ some u → can_sel_path u path ≡ some true)
unfolding can_sel_path
path_step t s path h = (ground (arith, h), λ u e. ground (arith, h, e))

set_child_kept :
    (s : Name) (c w : Wireable)
    → WellTyped w
    → sel (get_type w) s ≡ some (get_type c)
    → WellTyped c
    → WellTyped (set_child s c w) × (get_type (set_child s c w) ≡ get_type w)
unfolding set_child WellTyped
set_child_kept s c (wireable a t ss) h e wc = (put_select-AllWellTyped s t ss c h e wc, refl)

sel_each-WellTyped :
    (path : List Name) (fresh : List ℕ) (w : Wireable)
    → WellTyped w
    → can_sel_path (get_type w) path ≡ some true
    → length path ≤ length fresh
    → (a : ℕ) × (w' : Wireable) × (left : List ℕ) × (sel_each path fresh w ≡ some (a, w', left))
      × WellTyped w'
      × (get_type w' ≡ get_type w)
unfolding sel_each
sel_each-WellTyped [] fresh w h can room = (address w, w, fresh, refl, h, refl)
sel_each-WellTyped (s ∷ path) fresh w h can room =
    let (here, there) = path_step (get_type w) s path can in
    let (c, left, made, e, wc, size) = sel_child_lem s fresh w h here (omega arith) in
    let (a, c', rest, walked, wc', same) =
      sel_each-WellTyped path left c wc (there (get_type c) e) (omega arith) in
    let (hw, ht) = set_child_kept s c' w h (e ∙ ap some (sym same)) wc' in
    (a, set_child s c' w, rest, rw (made, walked) refl, hw, ht)

-- On a well-typed tree, and with an address for each name of the path, `sel` returns for every path
-- that `canSel` accepts, but for the empty path of an instance or interface; the tree stays well typed
-- and keeps its type.
pub sel_along-WellTyped :
    (is_select : Bool) (path : List Name) (fresh : List ℕ) (w : Wireable)
    → WellTyped w
    → can_sel_path (get_type w) path ≡ some true
    → length path ≤ length fresh
    → (is_select || not (is_empty_path path)) ≡ true
    → (a : ℕ) × (w' : Wireable) × (left : List ℕ) × (sel_along is_select path fresh w
        ≡ some (a, w', left))
      × WellTyped w'
      × (get_type w' ≡ get_type w)
unfolding sel_along
sel_along-WellTyped is_select path fresh w h can room cast =
    let (a, w', left, along, typed, same) = sel_each-WellTyped path fresh w h can room in
    (a, w', left, rw (along, cast) refl, typed, same)
