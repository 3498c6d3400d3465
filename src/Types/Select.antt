-- ===== src/Types/Select.antt =====
-- Selecting a part of a type: `sel`, `canSel`, `getSelects` and the tests on shapes.
pub mod Agree
use coreir.Base.{
  ℕ, zero, suc, ◌-◌, Bool, true, false, not, ◌&&◌, ◌||◌, Option, none, some, List, [], ◌∷◌, ◌>>=◌,
  ◌>>◌, guard, ltb, leb, ◌==◌, if◌then◌else◌,
}
use coreir.Names.{Name, name_eq, is_number, is_slice, stoi, parse_slice}
use coreir.Types.{
  HwType, bit, bit_in, bit_in_out, array, record_type, named, Fields, end, field, flip,
}

-- `getRecord().at`, where the first field of a name counts.
abbrev pub lookup_field : Name → Fields → Option HwType
lookup_field s end = none
lookup_field s (field name t fs) = if name_eq s name then some t else lookup_field s fs

abbrev pub is_base_type : HwType → Bool
is_base_type bit = true
is_base_type bit_in = true
is_base_type bit_in_out = true
is_base_type _ = false

-- `sliceIsValid`
abbrev pub slice_is_valid : (low high len : ℕ) → Bool
slice_is_valid low high len = leb high len && ltb low high

-- `sel` on an array: a slice, or else an index.
unfoldable pub sel_array : ℕ → HwType → Name → Option HwType
sel_array len elem_type s = elim (is_slice s) [
  | true ↦ do
    (low, high) ← parse_slice s
    guard (slice_is_valid low high len)
    some (array (high - low) elem_type)
  | false ↦ do guard (is_number s); (i, used) ← stoi s; guard (ltb i len); some elem_type
]

unfoldable pub sel : HwType → Name → Option HwType
unfolding sel_array
sel (record_type fs) s = lookup_field s fs
sel (array len elem_type) s = sel_array len elem_type s
sel _ s = none

-- `canSel` on an array; the slice of an array of anything but base types is an assertion failure.
unfoldable pub can_sel_array : ℕ → HwType → Name → Option Bool
can_sel_array len elem_type s =
    if not (is_number s) && not (is_slice s) then some false else elim (is_slice s) [
      | true ↦ do
        guard (is_base_type elem_type)
        (low, high) ← parse_slice s
        some (slice_is_valid low high len)
      | false ↦ do (i, used) ← stoi s; some (ltb i len)
    ]

unfoldable pub can_sel : HwType → Name → Option Bool
unfolding can_sel_array
can_sel (record_type fs) s = some (elim (lookup_field s fs) [ none ↦ false | some t ↦ true ])
can_sel (array len elem_type) s = can_sel_array len elem_type s
can_sel _ s = some false

-- `canSel` on a path, and the selection along it.
unfoldable pub can_sel_path : HwType → List Name → Option Bool
can_sel_path t [] = some true
can_sel_path t (s ∷ path) = do
  here ← can_sel t s
  elim here [ true ↦ sel t s >>= λ u. can_sel_path u path | false ↦ some false ]

unfoldable pub sel_path : HwType → List Name → Option HwType
sel_path t [] = some t
sel_path t (s ∷ path) = sel t s >>= λ u. sel_path u path

-- `isBit`, `isBitOrArrOfBits` and `isBitOrNDArrOfBits`
abbrev pub is_bit : HwType → Bool
is_bit (named name flip_name raw) = true
is_bit t = is_base_type t

unfoldable pub is_bit_or_arr_of_bits : HwType → Bool
is_bit_or_arr_of_bits (array len elem_type) = is_bit elem_type
is_bit_or_arr_of_bits t = is_bit t

unfoldable pub is_bit_or_nd_arr_of_bits : HwType → Bool
is_bit_or_nd_arr_of_bits (array len elem_type) = is_bit_or_nd_arr_of_bits elem_type
is_bit_or_nd_arr_of_bits t = is_bit t

-- `isClockOrNestedClockType`, over the test for the clock type.
unfoldable mutual
  pub is_clock_or_nested : (HwType → Bool) → HwType → Bool
  is_clock_or_nested is_clock bit = is_clock bit
  is_clock_or_nested is_clock bit_in = is_clock bit_in
  is_clock_or_nested is_clock bit_in_out = is_clock bit_in_out
  is_clock_or_nested is_clock (array len t) =
      is_clock (array len t) || is_clock_or_nested is_clock t
  is_clock_or_nested is_clock (record_type fs) = is_clock (record_type fs) || any_clock is_clock fs
  is_clock_or_nested is_clock (named name flip_name raw) = is_clock (named name flip_name raw)

  pub any_clock : (HwType → Bool) → Fields → Bool
  any_clock is_clock end = false
  any_clock is_clock (field name t fs) = is_clock_or_nested is_clock t || any_clock is_clock fs
