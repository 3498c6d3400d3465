-- ===== src/Directed.antt =====
-- Connections with a direction: class `DirectedConnection` of src/ir/directedview.cpp.
pub mod Source
mod Tests
use coreir.Base.{ℕ, Bool, true, false, not, ◌&&◌, Option, none, some, ◌>>=◌, ◌>>◌, guard}
use coreir.Types.{HwType, DirKind, dk_in, dk_out, dk_mixed, dk_null, dir_eq, get_dir}

abbrev pub is_input : HwType → Bool
is_input t = dir_eq (get_dir t) dk_in

abbrev pub is_output : HwType → Bool
is_output t = dir_eq (get_dir t) dk_out

abbrev pub is_mixed : HwType → Bool
is_mixed t = dir_eq (get_dir t) dk_mixed

abbrev pub is_unknown : HwType → Bool
is_unknown t = dir_eq (get_dir t) dk_null

-- The source and the sink of a connection; each failed assertion is `none`.
unfoldable pub directed_connection : (ℕ → HwType) → ℕ × ℕ → Option (ℕ × ℕ)
directed_connection type_of (wa, wb) = do
  guard (not (is_unknown (type_of wa)) && not (is_mixed (type_of wa)))
  guard (not (is_unknown (type_of wb)) && not (is_mixed (type_of wb)))
  elim (is_input (type_of wa)) [
    | true ↦ do guard (is_output (type_of wb)); some (wb, wa)
    | false ↦ do guard (is_output (type_of wa) && is_input (type_of wb)); some (wa, wb)
  ]
