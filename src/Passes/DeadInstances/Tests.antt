-- ===== src/Passes/DeadInstances/Tests.antt =====
-- The pass on the sample definition: `alive` stays and `idle` goes.
use coreir.Base.{ℕ, ◌≡◌, false, some, List, [], ◌∷◌}
use coreir.Names.{Name}
use coreir.Wireable.{Wireable}
use coreir.ModuleDef.{ModuleDef}
use coreir.Passes.DeadInstances.{delete_dead_instances}
use coreir.ModuleDef.Consistent.{IsConsistent}
use coreir.Passes.DeadInstances.Ends.{AllAlive}
use coreir.Passes.DeadInstances.Kept.{Drives, delete_dead_instances_lem}
use coreir.ModuleDef.Samples.{types, two, two-IsConsistent}

delete_dead_instances_lem_example :
    (t : ModuleDef) × (order' : List ℕ) × (delete_dead_instances types two ≡ some (t, false))
    × IsConsistent t order'
    × ((n : Name) (inst : Wireable) (x y : ℕ)
        → Drives types two n inst x y
        → Drives types t n inst x y)
    × AllAlive types t.wiring.connected t.instances
delete_dead_instances_lem_example =
    delete_dead_instances_lem types two (5 ∷ 3 ∷ []) two-IsConsistent
