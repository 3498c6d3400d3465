-- ===== src/Passes/DeadInstances.antt =====
-- The removal of instances that drive nothing: src/passes/transform/deletedeadinstances.cpp.
pub mod Ends
pub mod Kept
mod Tests
use coreir.Base.{
  ℕ, zero, suc, Bool, true, false, ◌||◌, Option, none, some, List, [], ◌∷◌, ◌>>=◌, ◌>>◌, guard,
  if◌then◌else◌, length,
}
use coreir.Base.Pairs.{Pairs}
use coreir.Names.{Name}
use coreir.Types.{HwType, dk_in, dk_in_out, dir_eq, get_dir}
use coreir.Wiring.{get_connected}
use coreir.Wireable.{Wireable, wireable, Selects, no_selects, select}
use coreir.ModuleDef.{ModuleDef, Instances, remove_instance}

-- Whether one of the wireables takes a value: its direction is in or inout.
abbrev pub any_input : (ℕ → HwType) → List ℕ → Bool
any_input type_of [] = false
any_input type_of (wb ∷ wbs) =
    (dir_eq (get_dir (type_of wb)) dk_in || dir_eq (get_dir (type_of wb)) dk_in_out)
    || any_input type_of wbs

-- `hasOutputConnection`
unfoldable mutual
  unfolding get_connected

  pub has_output_connection : (ℕ → HwType) → Pairs → Wireable → Bool
  has_output_connection type_of s (wireable a t ss) =
      any_input type_of (get_connected a s) || any_output_connection type_of s ss

  pub any_output_connection : (ℕ → HwType) → Pairs → Selects → Bool
  any_output_connection type_of s no_selects = false
  any_output_connection type_of s (select m c ss) =
      has_output_connection type_of s c || any_output_connection type_of s ss

-- `toDelete` of one round.
unfoldable pub find_dead : (ℕ → HwType) → Pairs → Instances → List Name
unfolding has_output_connection
find_dead type_of s [] = []
find_dead type_of s ((n, w) ∷ is) =
    let rest = find_dead type_of s is in
    if has_output_connection type_of s w then rest else n ∷ rest

unfoldable pub remove_each : List Name → ModuleDef → Option ModuleDef
unfolding remove_instance
remove_each [] d = some d
remove_each (n ∷ ns) d = remove_instance n d >>= remove_each ns

-- The loop, on fuel; the last round finds nothing, so `changed` is false behind it.
unfoldable pub delete_loop : (ℕ → HwType) → (fuel : ℕ) → ModuleDef → Option (ModuleDef × Bool)
unfolding find_dead remove_each
delete_loop type_of zero d = none
delete_loop type_of (suc k) d = elim (find_dead type_of d.wiring.connected d.instances) [
  | [] ↦ some (d, false)
  | n ∷ ns ↦ remove_each (n ∷ ns) d >>= delete_loop type_of k
]

-- `deleteDeadInstances` of a definition: each round but the last removes an instance.
unfoldable pub delete_dead_instances : (ℕ → HwType) → ModuleDef → Option (ModuleDef × Bool)
unfolding delete_loop
delete_dead_instances type_of d = delete_loop type_of (suc (length d.instances)) d
