-- ===== src/Wireable.antt =====
-- Wireables and their selects: src/ir/wireable.cpp. A wireable owns its selects, so a wireable of a
-- definition is a tree; each node has its address and its type. Selects into the definition of an
-- instance, with `;`, are left out.
pub mod Walk
pub mod Typed
pub mod Frame
mod Tests
use coreir.Base.{
  ℕ, zero, suc, ◌+◌, Bool, true, false, not, ◌&&◌, ◌||◌, Option, none, some, List, [], ◌∷◌, ◌++◌,
  ◌>>=◌, ◌>>◌, guard, ltb, ◌==◌, if◌then◌else◌,
}
use coreir.Base.Pairs.{Pairs, has_pair}
use coreir.Names.{Name, name_eq, name_lt}
use coreir.Types.{HwType}
use coreir.Types.Select.{can_sel, sel}
use coreir.Wiring.{Wiring, connection_ctor, get_connected, disconnect}

-- `selects` is a `std::map`.
mutual
  pub data Wireable : Type 0 where
    wireable : ℕ → HwType → Selects → Wireable

  pub data Selects : Type 0 where
    no_selects : Selects
    select : Name → Wireable → Selects → Selects

abbrev pub address : Wireable → ℕ
address (wireable a t ss) = a

abbrev pub get_type : Wireable → HwType
get_type (wireable a t ss) = t

abbrev pub get_selects : Wireable → Selects
get_selects (wireable a t ss) = ss

unfoldable pub find_select : Name → Selects → Option Wireable
find_select s no_selects = none
find_select s (select m c ss) = if name_eq s m then some c else find_select s ss

-- `selects[selStr] = select`
unfoldable pub put_select : Name → Wireable → Selects → Selects
put_select s c no_selects = select s c no_selects
put_select s c (select m d ss) =
    if name_eq s m
    then select m c ss
    else if name_lt s m
    then select s c (select m d ss)
    else select m d (put_select s c ss)

-- `Wireable::sel(string)`: the select that is there, or a new one at the next of the addresses that
-- the allocator will give.
unfoldable pub sel_child : Name → List ℕ → Wireable → Option (Wireable × List ℕ)
unfolding find_select
sel_child s fresh (wireable a t ss) = elim (find_select s ss) [
  | some c ↦ some (c, fresh)
  | none ↦ do
    known ← can_sel t s
    guard known
    u ← sel t s
    elim fresh [ [] ↦ none | f ∷ rest ↦ some (wireable f u no_selects, rest) ]
]

unfoldable pub set_child : Name → Wireable → Wireable → Wireable
unfolding put_select
set_child s c (wireable a t ss) = wireable a t (put_select s c ss)

-- The loop of `sel(SelectPath)`: the address that it ends at, the wireable with the selects that it
-- made, and the addresses that are left.
unfoldable pub sel_each : List Name → List ℕ → Wireable → Option (ℕ × Wireable × List ℕ)
unfolding sel_child set_child
sel_each [] fresh w = some (address w, w, fresh)
sel_each (s ∷ path) fresh w = do
  (c, fresh') ← sel_child s fresh w
  (a, c', fresh'') ← sel_each path fresh' c
  some (a, set_child s c' w, fresh'')

abbrev pub is_empty_path : List Name → Bool
is_empty_path [] = true
is_empty_path (s ∷ path) = false

-- `sel(SelectPath)` of a select, or of an instance or interface: `cast<Select>` aborts on the latter,
-- where the path is empty.
unfoldable pub sel_along :
    (is_select : Bool) → List Name → List ℕ → Wireable → Option (ℕ × Wireable × List ℕ)
unfolding sel_each
sel_along is_select path fresh w = do
  ret ← sel_each path fresh w
  guard (is_select || not (is_empty_path path))
  some ret

-- `removeSel`
unfoldable pub erase_select : Name → Selects → Selects
erase_select s no_selects = no_selects
erase_select s (select m c ss) =
    let rest = erase_select s ss in if name_eq s m then rest else select m c rest

unfoldable pub remove_sel : Name → Wireable → Option Wireable
unfolding find_select erase_select
remove_sel s (wireable a t ss) = elim (find_select s ss) [
  | none ↦ none
  | some c ↦ some (wireable a t (erase_select s ss))
]

-- `disconnectAll`: the selects come before the wireable itself.
unfoldable mutual
  unfolding disconnect

  pub disconnect_all : Wireable → Wiring → Option Wiring
  disconnect_all (wireable a t ss) s = disconnect_selects ss s >>= disconnect a

  pub disconnect_selects : Selects → Wiring → Option Wiring
  disconnect_selects no_selects s = some s
  disconnect_selects (select m c ss) s = disconnect_all c s >>= disconnect_selects ss

-- `getAllSelects`: `emplace` keeps the first wireable of a path. The name of a select is pushed onto
-- the path of the loop, and the call gets the path from before.
abbrev pub same_path : List Name → List Name → Bool
same_path [] [] = true
same_path (m ∷ p) (n ∷ q) = name_eq m n && same_path p q
same_path _ _ = false

abbrev pub emplace_path : List Name → ℕ → List (List Name × ℕ) → List (List Name × ℕ)
emplace_path p a [] = (p, a) ∷ []
emplace_path p a (entry ∷ ret) =
    if same_path p entry.0 then entry ∷ ret else entry ∷ emplace_path p a ret

unfoldable mutual
  pub traverse : List Name → Wireable → List (List Name × ℕ) → List (List Name × ℕ)
  traverse path (wireable a t ss) ret = traverse_selects path ss (emplace_path path a ret)

  pub traverse_selects : List Name → Selects → List (List Name × ℕ) → List (List Name × ℕ)
  traverse_selects path no_selects ret = ret
  traverse_selects path (select m c ss) ret =
      traverse_selects (path ++ m ∷ []) ss (traverse path c ret)

unfoldable pub get_all_selects : Wireable → List (List Name × ℕ)
unfolding traverse
get_all_selects w = traverse [] w []

-- `getLocalConnections`: the connections of a wireable and its selects, each once.
unfoldable pub local_from : ℕ → List ℕ → (unique_cons cons : Pairs) → Pairs × Pairs
unfolding has_pair
local_from w [] unique_cons cons = (unique_cons, cons)
local_from w (other ∷ others) unique_cons cons =
    let check = connection_ctor w other in
    elim (has_pair check.0 check.1 unique_cons) [
      | true ↦ local_from w others unique_cons cons
      | false ↦ local_from w others (check ∷ unique_cons) (cons ++ (w, other) ∷ [])
    ]

unfoldable mutual
  unfolding local_from get_connected

  pub local_tree : Wiring → Wireable → Pairs × Pairs → Pairs × Pairs
  local_tree s (wireable a t ss) found =
      local_selects s ss (local_from a (get_connected a s.connected) found.0 found.1)

  pub local_selects : Wiring → Selects → Pairs × Pairs → Pairs × Pairs
  local_selects s no_selects found = found
  local_selects s (select m c ss) found = local_selects s ss (local_tree s c found)

unfoldable pub get_local_connections : Wiring → Wireable → Pairs
unfolding local_tree
get_local_connections s w = (local_tree s w ([], [])).1
