-- ===== src/WiringUtils/Tests.antt =====
-- The ends of the sample definition's connection.
use coreir.Base.{◌≡◌, refl, ◌&&◌, [], ◌∷◌}
use coreir.Base.Pairs.{has_pair}
use coreir.Types.{dk_in, dk_out, get_dir}
use coreir.Wireable.{wireable, no_selects}
use coreir.Types.{bit}
use coreir.ModuleDef.{owns}
use coreir.ModuleDef.Samples.{types, two}
use coreir.WiringUtils.{get_receiver_connections, get_source_connections}
use coreir.WiringUtils.Ends.{is_dir, get_receiver_connections_lem}

receiver_of_alive :
    get_receiver_connections types two.wiring.connected (wireable 5 bit no_selects) ≡ (2, 5) ∷ []
unfolding get_receiver_connections get_dir
receiver_of_alive = refl

get_receiver_connections_lem_example :
    (has_pair 2 5 (get_receiver_connections types two.wiring.connected (wireable 5 bit no_selects))
      ≡ (owns (wireable 5 bit no_selects) 5
          && (has_pair 5 2 two.wiring.connected && is_dir types dk_in 2)))
    × (has_pair 2 5 (get_source_connections types two.wiring.connected (wireable 5 bit no_selects))
        ≡ (owns (wireable 5 bit no_selects) 5
            && (has_pair 5 2 two.wiring.connected && is_dir types dk_out 2)))
get_receiver_connections_lem_example =
    get_receiver_connections_lem types two.wiring.connected (wireable 5 bit no_selects) 5 2
