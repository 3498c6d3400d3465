-- ===== src/Types/Tests.antt =====
-- The theorems on types at concrete ports.
use coreir.Base.{◌≡◌, ◌≢◌, refl, true, some, List, [], ◌∷◌}
use coreir.Names.{Name, is_slice, parse_slice, stoi}
use coreir.Types.{
  HwType, bit, bit_in, array, record_type, Fields, end, field, get_dir, dk_in_out, has_input,
}
use coreir.Types.Inputs.{has_input_lem, holds_input}
use coreir.Types.Select.{sel, can_sel, can_sel_path, sel_path}
use coreir.Names.{check_string_syntax}
use coreir.Types.{dir_set}
use coreir.Types.Record.{append_field, detach_field}
use coreir.Types.Select.Agree.{returns, can_sel_path-sel_path}

-- The record `{"in": BitIn[16], "out": Bit}`.
abbrev ports : HwType
ports =
    record_type
      (field (b'i' ∷ b'n' ∷ []) (array 16 bit_in) (field (b'o' ∷ b'u' ∷ b't' ∷ []) bit end))

abbrev slice_3_to_7 : Name
slice_3_to_7 = b'3' ∷ b':' ∷ b'7' ∷ []

abbrev path_in_12 : List Name
path_in_12 = (b'i' ∷ b'n' ∷ []) ∷ (b'1' ∷ b'2' ∷ []) ∷ []

sliced : sel (array 16 bit_in) slice_3_to_7 ≡ some (array 4 bit_in)
unfolding sel is_slice parse_slice
sliced = refl

sliced_answer : can_sel (array 16 bit_in) slice_3_to_7 ≡ some true
unfolding can_sel is_slice parse_slice
sliced_answer = refl

path_answer : can_sel_path ports path_in_12 ≡ some true
unfolding can_sel_path can_sel sel is_slice stoi
path_answer = refl

array_one_way : get_dir (array 16 bit_in) ≢ dk_in_out
unfolding get_dir
array_one_way h = cc

has_input_lem_example : has_input ports ≡ holds_input ports
has_input_lem_example = has_input_lem ports

can_sel_path-sel_path_example : returns (sel_path ports path_in_12) ≡ true
can_sel_path-sel_path_example = can_sel_path-sel_path ports path_in_12 path_answer

abbrev clk : Name
clk = b'c' ∷ b'l' ∷ b'k' ∷ []

abbrev data_fields : Fields
data_fields = field (b'o' ∷ b'u' ∷ b't' ∷ []) bit (field (b'i' ∷ b'n' ∷ []) bit_in end)

-- The new label comes first, and the other fields follow in the order of their names.
appended :
    append_field data_fields clk bit_in
    ≡ some (
        record_type (
          field clk bit_in
            (field (b'i' ∷ b'n' ∷ []) bit_in (field (b'o' ∷ b'u' ∷ b't' ∷ []) bit end))))
unfolding append_field check_string_syntax dir_set get_dir
appended = refl

detached :
    detach_field data_fields (b'o' ∷ b'u' ∷ b't' ∷ [])
    ≡ some (record_type (field (b'i' ∷ b'n' ∷ []) bit_in end))
unfolding detach_field check_string_syntax dir_set get_dir
detached = refl
