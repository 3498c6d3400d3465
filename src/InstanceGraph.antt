-- ===== src/InstanceGraph.antt =====
-- The modules in the order of their instances: class `InstanceGraph` of src/ir/instancegraph.cpp. A
-- module is a number; a module's definition is the list of the modules of its instances.
pub mod Users
pub mod Order
pub mod Ends
pub mod Construct
mod Tests
use coreir.Base.{
  ℕ, zero, suc, Bool, true, false, not, Option, none, some, List, [], ◌∷◌, ◌++◌, ◌>>=◌, ◌>>◌, guard,
  ◌==◌, if◌then◌else◌, member,
}

-- The modules in the order of the map of nodes.
abbrev pub Modules : Type 0
Modules = List (ℕ × List ℕ)

-- `ignList` of each node: the modules that hold an instance of it, one entry for each instance.
abbrev pub Users : Type 0
Users = ℕ → List ℕ

-- `addInstance` of the node `r`.
unfoldable pub push_user : (r m : ℕ) → Users → Users
push_user r m ign_list = λ x. if x == r then ign_list x ++ m ∷ [] else ign_list x

abbrev pub modules_of : Modules → List ℕ
modules_of [] = []
modules_of ((m, refs) ∷ ms) = m ∷ modules_of ms

-- The instances of one definition, and the loop over the modules.
unfoldable pub add_instances : (nodes : List ℕ) → (m : ℕ) → List ℕ → Users → Option Users
unfolding push_user
add_instances nodes m [] ign_list = some ign_list
add_instances nodes m (r ∷ refs) ign_list = do
  guard (member r nodes)
  add_instances nodes m refs (push_user r m ign_list)

unfoldable pub populate : (nodes : List ℕ) → Modules → Users → Option Users
unfolding add_instances
populate nodes [] ign_list = some ign_list
populate nodes ((m, refs) ∷ ms) ign_list = add_instances nodes m refs ign_list >>= populate nodes ms

-- A mark is 0 for a node that was not visited, 1 while it is, and 2 behind that.
pub record Sorting : Type 0 where
  pub mark : ℕ → ℕ
  pub sorted_nodes : List ℕ

abbrev pub unsorted : Sorting
unsorted = record { mark = λ n. 0; sorted_nodes = [] }

unfoldable pub set_mark : (n to : ℕ) → Sorting → Sorting
set_mark n to s = record s { mark = λ x. if x == n then to else s.mark x }

unfoldable pub push_sorted : ℕ → Sorting → Sorting
unfolding set_mark
push_sorted n s = record { mark = (set_mark n 2 s).mark; sorted_nodes = n ∷ s.sorted_nodes }

unfoldable pub visit_each : (ℕ → Sorting → Option Sorting) → List ℕ → Sorting → Option Sorting
visit_each visit [] s = some s
visit_each visit (n ∷ ns) s = visit n s >>= visit_each visit ns

-- `sortVisit`, on fuel for the depth.
unfoldable pub sort_visit : Users → (fuel : ℕ) → ℕ → Sorting → Option Sorting
unfolding visit_each set_mark push_sorted
sort_visit ign_list zero n s = none
sort_visit ign_list (suc k) n s = elim (s.mark n == 2) [
  | true ↦ some s
  | false ↦ do
    guard (not (s.mark n == 1))
    s' ← visit_each (sort_visit ign_list k) (ign_list n) (set_mark n 1 s)
    some (push_sorted n s')
]

-- `construct`, whose result is `getSortedNodes`.
unfoldable pub construct : (fuel : ℕ) → Modules → Option (List ℕ)
unfolding populate visit_each sort_visit
construct fuel ms = do
  ign_list ← populate (modules_of ms) ms (λ n. [])
  s ← visit_each (sort_visit ign_list fuel) (modules_of ms) unsorted
  some s.sorted_nodes
