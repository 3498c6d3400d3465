-- ===== src/Wireable/Walk.antt =====
-- Selecting along a path makes each select once.
use coreir.Base.{
  sym, ℕ, ◌≡◌, refl, ap, some, List, [], ◌∷◌, >>=-eq-some, arith, Bool, not, ◌||◌, guard, ◌∙◌,
}
use coreir.Names.{Name}
use coreir.Names.Equal.{name_eq_self}
use coreir.Wireable.{
  address, Wireable, wireable, Selects, no_selects, select, find_select, put_select, sel_child,
  set_child, sel_each, is_empty_path, sel_along,
}

find_select-put_select :
    (s : Name) (c : Wireable) (ss : Selects) → find_select s (put_select s c ss) ≡ some c
unfolding find_select put_select
find_select-put_select s c no_selects = ground (arith, name_eq_self s)
find_select-put_select s c (select m d ss) =
    ground (arith, name_eq_self s, find_select-put_select s c ss)

put_select_twice :
    (s : Name) (c : Wireable) (ss : Selects)
    → put_select s c (put_select s c ss) ≡ put_select s c ss
unfolding put_select
put_select_twice s c no_selects = ground (arith, name_eq_self s)
put_select_twice s c (select m d ss) = ground (arith, name_eq_self s, put_select_twice s c ss)

sel_child-set_child :
    (s : Name) (more : List ℕ) (c w : Wireable)
    → sel_child s more (set_child s c w) ≡ some (c, more)
unfolding sel_child set_child
sel_child-set_child s more c (wireable a t ss) = rw (sel_child, find_select-put_select s c ss) refl

set_child_twice : (s : Name) (c w : Wireable) → set_child s c (set_child s c w) ≡ set_child s c w
unfolding set_child
set_child_twice s c (wireable a t ss) = ap (wireable a t) (put_select_twice s c ss)

again_step :
    (s : Name) (path : List Name) (more : List ℕ) (c w : Wireable) (a : ℕ)
    → sel_each path more c ≡ some (a, c, more)
    → sel_each (s ∷ path) more (set_child s c w) ≡ some (a, set_child s c w, more)
unfolding sel_each
again_step s path more c w a h = rw (sel_child-set_child s more c w, h, set_child_twice s c w) refl

sel_each_again :
    (path : List Name) (fresh rest : List ℕ) (w w' : Wireable) (a : ℕ) (more : List ℕ)
    → sel_each path fresh w ≡ some (a, w', rest)
    → sel_each path more w' ≡ some (a, w', more)
unfolding sel_each
sel_each_again [] fresh rest w w' a more h = ground arith
sel_each_again (s ∷ path) fresh rest w w' a more h =
    let (child, made, then_along) = >>=-eq-some (sel_child s fresh w) _ h in
    let (found, along, done) = >>=-eq-some (sel_each path child.1 child.0) _ then_along in
    let same : set_child s found.1 w ≡ w' = ground (arith, done) in
    let returned : found.0 ≡ a = ground (arith, done) in
    rw (← same, ← returned)
      (again_step s path more found.1 w found.0
        (sel_each_again path child.1 found.2 child.0 found.1 found.0 more along))

-- A path that was selected is selected again with the same result: the same wireable is returned, no
-- select is made and no address is used.
pub sel_along_again :
    (is_select : Bool) (path : List Name) (fresh rest : List ℕ) (w w' : Wireable) (a : ℕ)
    (more : List ℕ)
    → sel_along is_select path fresh w ≡ some (a, w', rest)
    → sel_along is_select path more w' ≡ some (a, w', more)
unfolding sel_along
sel_along_again is_select path fresh rest w w' a more h =
    let (ret, along, h1) = >>=-eq-some (sel_each path fresh w) _ h in
    let (u, cast, done) = >>=-eq-some (guard (is_select || not (is_empty_path path))) _ h1 in
    let is_ret : ret ≡ (a, w', rest) = cc done in
    rw (sel_each_again path fresh rest w w' a more (along ∙ ap some is_ret), cast) refl

address-set_child : (s : Name) (c w : Wireable) → address (set_child s c w) ≡ address w
unfolding set_child
address-set_child s c (wireable a t ss) = refl

-- Selecting changes a wireable in place.
pub address-sel_each :
    (path : List Name) (fresh rest : List ℕ) (w w' : Wireable) (a : ℕ)
    → sel_each path fresh w ≡ some (a, w', rest)
    → address w' ≡ address w
unfolding sel_each
address-sel_each [] fresh rest w w' a h =
    let same : w ≡ w' = ground (arith, h) in sym (ap address same)
address-sel_each (s ∷ path) fresh rest w w' a h =
    let (child, made, then_along) = >>=-eq-some (sel_child s fresh w) _ h in
    let (found, along, done) = >>=-eq-some (sel_each path child.1 child.0) _ then_along in
    let same : set_child s found.1 w ≡ w' = ground (arith, done) in
    rw (← same) (address-set_child s found.1 w)
