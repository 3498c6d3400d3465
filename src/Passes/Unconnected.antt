-- ===== src/Passes/Unconnected.antt =====
-- The removal of instances without connections: src/passes/transform/removeunconnected.cpp.
pub mod Harmless
mod Tests
use coreir.Base.{
  ℕ, Bool, true, false, ◌||◌, Option, none, some, List, [], ◌∷◌, ◌>>=◌, leb, length, if◌then◌else◌,
}
use coreir.Base.Pairs.{Pairs}
use coreir.Names.{Name}
use coreir.Wiring.{get_connected}
use coreir.Wireable.{Wireable, wireable, Selects, no_selects, select}
use coreir.ModuleDef.{ModuleDef, find_instance, remove_instance}

-- `hasConnection` of the pass.
unfoldable mutual
  unfolding get_connected

  pub is_connected : Pairs → Wireable → Bool
  is_connected s (wireable a t ss) =
      if leb 1 (length (get_connected a s)) then true else any_connected s ss

  pub any_connected : Pairs → Selects → Bool
  any_connected s no_selects = false
  any_connected s (select m c ss) = if is_connected s c then true else any_connected s ss

-- `runOnInstance`, of the instance of a name.
unfoldable pub run_on_instance : Name → ModuleDef → Option (Bool × ModuleDef)
unfolding find_instance is_connected remove_instance
run_on_instance iname d = do
  inst ← find_instance iname d.instances
  elim (is_connected d.wiring.connected inst) [
    | true ↦ some (false, d)
    | false ↦ do e ← remove_instance iname d; some (true, e)
  ]
