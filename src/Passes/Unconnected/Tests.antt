-- ===== src/Passes/Unconnected/Tests.antt =====
-- The pass on the sample definition: `idle` goes.
use coreir.Base.{not, ℕ, ◌≡◌, refl, some, List, [], ◌∷◌, if◌then◌else◌}
use coreir.Types.{bit}
use coreir.Wireable.{wireable, no_selects}
use coreir.ModuleDef.{ModuleDef, erase_instance, find_instance}
use coreir.ModuleDef.Consistent.{IsConsistent}
use coreir.Passes.Unconnected.{is_connected, run_on_instance}
use coreir.Passes.Unconnected.Harmless.{run_on_instance_lem}
use coreir.Wiring.{has_connection}
use coreir.ModuleDef.Samples.{idle, two, two-IsConsistent}

idle_there : find_instance idle two.instances ≡ some (wireable 3 bit no_selects)
unfolding find_instance
idle_there = refl

run_on_instance_lem_example :
    (e : ModuleDef) × (order' : List ℕ) × (run_on_instance idle two
      ≡ some (not (is_connected two.wiring.connected (wireable 3 bit no_selects)), e))
    × IsConsistent e order'
    × (e.instances ≡ (
        if is_connected two.wiring.connected (wireable 3 bit no_selects)
        then two.instances
        else erase_instance idle two.instances))
    × ((x y : ℕ) → has_connection x y e.wiring ≡ has_connection x y two.wiring)
run_on_instance_lem_example =
    run_on_instance_lem idle (wireable 3 bit no_selects) two (5 ∷ 3 ∷ []) two-IsConsistent
      idle_there
