-- ===== src/Directed/Tests.antt =====
-- Connections between a bit at 1, an input bit at 2 and inouts at the other addresses.
use coreir.Base.{ℕ, ◌≡◌, refl, ◌==◌, if◌then◌else◌, none, some}
use coreir.Types.{HwType, bit, bit_in, bit_in_out, dk_in, dk_out, dir_eq, get_dir}
use coreir.Wiring.{check_types}
use coreir.Directed.{directed_connection}
use coreir.Directed.Source.{directed_connection_lem}

abbrev types : ℕ → HwType
types w = if w == 1 then bit else if w == 2 then bit_in else bit_in_out

inouts_fail : directed_connection types (3, 4) ≡ none
unfolding directed_connection get_dir
inouts_fail = refl

directed_connection_lem_example : directed_connection types (2, 1) ≡ (
    if dir_eq (get_dir (types 2)) dk_in
    then some (1, 2)
    else if dir_eq (get_dir (types 2)) dk_out
    then some (2, 1)
    else none)
unfolding check_types
directed_connection_lem_example = directed_connection_lem types 2 1 refl
