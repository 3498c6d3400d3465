-- ===== src/Values.antt =====
-- Values, their types, and the arguments of modules: include/coreir/ir/value.h,
-- include/coreir/ir/valuetype.h and the checks of src/ir/common.cpp.
pub mod Merge
pub mod Keys
pub mod Match
mod Tests
use coreir.Base.{
  ℕ, Bool, true, false, not, ◌&&◌, ◌||◌, Option, none, some, List, [], ◌∷◌, ◌>>=◌, ◌>>◌, guard,
  ◌==◌, if◌then◌else◌, length,
}
use coreir.Names.{Name, name_eq, name_lt}
use coreir.Types.{HwType}
use coreir.BitVec.{QuadValueBitVector, bit_length}

pub data ValueType : Type 0 where
  bool_type : ValueType
  int_type : ValueType
  bit_vector_type : ℕ → ValueType
  string_type : ValueType
  core_ir_type : ValueType
  module_type : ValueType
  json_type : ValueType
  any_type : ValueType

-- An `int` is its 32-bit pattern, a module its address, and a JSON value its text.
pub data Value : Type 0 where
  const_bool : Bool → Value
  const_int : ℕ → Value
  const_bit_vector : QuadValueBitVector → Value
  const_string : Name → Value
  const_core_ir_type : HwType → Value
  const_module : ℕ → Value
  const_json : Name → Value
  arg : ValueType → Name → Value

-- `getValueType`, as the constructors of the constants set it.
unfoldable pub get_value_type : Value → ValueType
get_value_type (const_bool b) = bool_type
get_value_type (const_int i) = int_type
get_value_type (const_bit_vector v) = bit_vector_type (bit_length v)
get_value_type (const_string s) = string_type
get_value_type (const_core_ir_type t) = core_ir_type
get_value_type (const_module m) = module_type
get_value_type (const_json j) = json_type
get_value_type (arg vt field) = vt

-- The cache makes one object of each type.
unfoldable pub same_value_type : ValueType → ValueType → Bool
same_value_type bool_type bool_type = true
same_value_type int_type int_type = true
same_value_type (bit_vector_type m) (bit_vector_type n) = m == n
same_value_type string_type string_type = true
same_value_type core_ir_type core_ir_type = true
same_value_type module_type module_type = true
same_value_type json_type json_type = true
same_value_type any_type any_type = true
same_value_type _ _ = false

abbrev pub is_any : ValueType → Bool
is_any vt = same_value_type vt any_type

abbrev pub Values : Type 0
Values = List (Name × Value)

abbrev pub Params : Type 0
Params = List (Name × ValueType)

-- `find` and `insert` of a `std::map`.
unfoldable pub find_key {ℓ} : {A : Type ℓ} → Name → List (Name × A) → Option A
find_key n [] = none
find_key n ((m, v) ∷ vs) = if name_eq n m then some v else find_key n vs

unfoldable pub insert_key {ℓ} : {A : Type ℓ} → Name → A → List (Name × A) → List (Name × A)
insert_key n v [] = (n, v) ∷ []
insert_key n v ((m, w) ∷ vs) =
    let rest = insert_key n v vs in
    if name_eq n m then (m, w) ∷ vs else if name_lt n m then (n, v) ∷ (m, w) ∷ vs else (m, w) ∷ rest

-- `mergeValues`: the entries of `a1` whose name `a0` lacks go into `a0`.
unfoldable pub merge_values : Values → Values → Values
unfolding find_key insert_key
merge_values a0 [] = a0
merge_values a0 ((n, v) ∷ a1) =
    let kept = merge_values a0 a1 in
    let added = merge_values (insert_key n v a0) a1 in
    elim (find_key n a0) [ some w ↦ kept | none ↦ added ]

-- `checkValuesAreParams`: each failed assertion is `none`.
unfoldable pub check_each : Values → Params → Option (Unit {0})
unfolding find_key same_value_type get_value_type
check_each args [] = some tt
check_each args ((p, vt) ∷ params) = elim (find_key p args) [
  | none ↦ none
  | some v ↦ do guard (is_any vt || same_value_type (get_value_type v) vt); check_each args params
]

unfoldable pub check_values_are_params : Values → Params → Option (Unit {0})
unfolding check_each
check_values_are_params args params = do
  guard (length args == length params)
  check_each args params

-- `doValuesMatchParams`
unfoldable pub match_each : Values → Params → Bool
unfolding find_key same_value_type get_value_type
match_each args [] = true
match_each args ((p, param) ∷ params) =
    let rest = match_each args params in
    elim (find_key p args) [
      | none ↦ false
      | some v ↦
          if is_any param
          then rest
          else if not (same_value_type (get_value_type v) param)
          then false
          else rest
    ]

unfoldable pub do_values_match_params : Values → Params → Bool
unfolding match_each
do_values_match_params args params =
    if not (length args == length params) then false else match_each args params

-- `checkValuesAreConst`
abbrev pub is_const : Value → Bool
is_const (arg vt field) = false
is_const _ = true

unfoldable pub check_values_are_const : Values → Option (Unit {0})
check_values_are_const [] = some tt
check_values_are_const ((n, v) ∷ vs) = do guard (is_const v); check_values_are_const vs
