-- ===== src/WiringUtils.antt =====
-- The connections that leave or enter a wireable: src/ir/wiring_utils.cpp.
pub mod Ends
mod Tests
use coreir.Base.{ℕ, List, [], ◌∷◌, ◌++◌, if◌then◌else◌}
use coreir.Base.Pairs.{Pairs}
use coreir.Types.{HwType, DirKind, dk_in, dk_out, dir_eq, get_dir}
use coreir.Wiring.{get_connected}
use coreir.Wireable.{Wireable, wireable, Selects, no_selects, select}

-- The loop over the connected wireables, which keeps those of one direction.
unfoldable pub connections_of : (ℕ → HwType) → DirKind → (w : ℕ) → List ℕ → Pairs
connections_of type_of d w [] = []
connections_of type_of d w (sel ∷ sels) =
    let rest = connections_of type_of d w sels in
    if dir_eq (get_dir (type_of sel)) d then (sel, w) ∷ rest else rest

-- `getReceiverConnections`
unfoldable mutual
  unfolding get_connected connections_of

  pub get_receiver_connections : (ℕ → HwType) → Pairs → Wireable → Pairs
  get_receiver_connections type_of s (wireable a t ss) =
      connections_of type_of dk_in a (get_connected a s) ++ receivers_of_selects type_of s ss

  pub receivers_of_selects : (ℕ → HwType) → Pairs → Selects → Pairs
  receivers_of_selects type_of s no_selects = []
  receivers_of_selects type_of s (select m c ss) =
      get_receiver_connections type_of s c ++ receivers_of_selects type_of s ss

-- `getSourceConnections`
unfoldable mutual
  unfolding get_connected connections_of

  pub get_source_connections : (ℕ → HwType) → Pairs → Wireable → Pairs
  get_source_connections type_of s (wireable a t ss) =
      connections_of type_of dk_out a (get_connected a s) ++ sources_of_selects type_of s ss

  pub sources_of_selects : (ℕ → HwType) → Pairs → Selects → Pairs
  sources_of_selects type_of s no_selects = []
  sources_of_selects type_of s (select m c ss) =
      get_source_connections type_of s c ++ sources_of_selects type_of s ss
