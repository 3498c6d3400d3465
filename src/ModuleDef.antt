-- ===== src/ModuleDef.antt =====
-- A module's definition: class `ModuleDef` of src/ir/moduledef.cpp and src/ir/moduledef_validate.cpp.
pub mod Drivers
pub mod Validate
pub mod Remove
pub mod Listed
pub mod Changed
pub mod Consistent
pub mod Reach
pub mod Samples
mod Tests
use coreir.Base.{
  ℕ, zero, suc, ◌+◌, Bool, true, false, not, ◌&&◌, ◌||◌, Option, none, some, List, [], ◌∷◌, ◌>>=◌,
  ◌>>◌, guard, ltb, leb, ◌==◌, if◌then◌else◌, length,
}
use coreir.Base.Pairs.{Pairs}
use coreir.Names.{Name, name_eq, name_lt, check_string_syntax}
use coreir.Types.{HwType, DirKind, dk_in, dk_in_out, dir_eq, get_dir, has_input}
use coreir.Values.{Values, Params, merge_values, check_values_are_params}
use coreir.Wiring.{Wiring, check_types, connect, disconnect, get_connected}
use coreir.Wireable.{
  Wireable, wireable, Selects, no_selects, select, address, get_type, sel_each, disconnect_all,
}
use coreir.Iter.{Iter, append_instance}
use coreir.Iter

-- `instances` is a `std::map`; an instance's address is that of its wireable.
abbrev pub Instances : Type 0
Instances = List (Name × Wireable)

pub record ModuleDef : Type 0 where
  pub interface : Wireable
  pub instances : Instances
  pub wiring : Wiring
  pub iter : Iter

unfoldable pub find_instance : Name → Instances → Option Wireable
find_instance n [] = none
find_instance n ((m, w) ∷ is) = if name_eq n m then some w else find_instance n is

unfoldable pub put_instance : Name → Wireable → Instances → Instances
put_instance n v [] = (n, v) ∷ []
put_instance n v ((m, w) ∷ is) =
    if name_eq n m
    then (m, v) ∷ is
    else if name_lt n m
    then (n, v) ∷ (m, w) ∷ is
    else (m, w) ∷ put_instance n v is

-- The instance of a name, changed in place.
unfoldable pub replace_instance : Name → Wireable → Instances → Instances
replace_instance n v [] = []
replace_instance n v ((m, w) ∷ is) =
    let rest = replace_instance n v is in if name_eq n m then (m, v) ∷ is else (m, w) ∷ rest

unfoldable pub erase_instance : Name → Instances → Instances
erase_instance n [] = []
erase_instance n ((m, w) ∷ is) =
    let rest = erase_instance n is in if name_eq n m then rest else (m, w) ∷ rest

abbrev pub is_some {ℓ} : {A : Type ℓ} → Option A → Bool
is_some none = false
is_some (some x) = true

-- What `addInstance` reads of a module.
pub record ModuleRef : Type 0 where
  pub module_type : HwType
  pub mod_params : Params
  pub default_mod_args : Values

-- The constructor of an instance, whose wireable is at the address that the allocator gives. The
-- arguments are checked here and not kept.
unfoldable pub new_instance : Name → (fresh : ℕ) → ModuleRef → Values → Option Wireable
unfolding check_string_syntax merge_values check_values_are_params
new_instance instname fresh m modargs = do
  guard (check_string_syntax instname)
  check_values_are_params (merge_values modargs m.default_mod_args) m.mod_params
  some (wireable fresh m.module_type no_selects)

-- `addInstance` of a module.
unfoldable pub add_instance : Name → (fresh : ℕ) → ModuleRef → Values → ModuleDef → Option ModuleDef
unfolding find_instance put_instance append_instance new_instance
add_instance instname fresh m modargs d = do
  guard (not (is_some (find_instance instname d.instances)))
  inst ← new_instance instname fresh m modargs
  iter' ← append_instance (address inst) d.iter
  some (record d { instances = put_instance instname inst d.instances; iter = iter' })

-- `sel(SelectPath)` without `;`: the address, the definition with the selects that were made, and the
-- addresses that are left.
abbrev pub self : Name
self = b's' ∷ b'e' ∷ b'l' ∷ b'f' ∷ []

unfoldable pub sel : List Name → List ℕ → ModuleDef → Option (ℕ × ModuleDef × List ℕ)
unfolding sel_each find_instance replace_instance
sel [] fresh d = none
sel (top ∷ path) fresh d = elim (name_eq top self) [
  | true ↦ do
    (a, w, rest) ← sel_each path fresh d.interface
    some (a, record d { interface = w }, rest)
  | false ↦ do
    inst ← find_instance top d.instances
    (a, w, rest) ← sel_each path fresh inst
    some (a, record d { instances = replace_instance top w d.instances }, rest)
]

-- Whether an address is that of the wireable or of one of its selects.
unfoldable mutual
  pub owns : Wireable → ℕ → Bool
  owns (wireable a t ss) x = (x == a) || owns_select ss x

  pub owns_select : Selects → ℕ → Bool
  owns_select no_selects x = false
  owns_select (select m c ss) x = owns c x || owns_select ss x

-- The interface and the instances, in the order of the map: `work` of `validate`.
abbrev pub instance_wireables : Instances → List Wireable
instance_wireables [] = []
instance_wireables ((n, w) ∷ is) = w ∷ instance_wireables is

abbrev pub work : ModuleDef → List Wireable
work d = d.interface ∷ instance_wireables d.instances

-- `removeInstance(string)`
unfoldable pub remove_instance : Name → ModuleDef → Option ModuleDef
unfolding find_instance erase_instance disconnect_all Iter.remove_instance
remove_instance iname d = do
  inst ← find_instance iname d.instances
  wiring' ← disconnect_all inst d.wiring
  iter' ← Iter.remove_instance (address inst) d.iter
  some (record d { instances = erase_instance iname d.instances; wiring = wiring'; iter = iter' })

-- `checkInputConnected` and `checkInputOutputs`: true is an error. (The messages are left out.)
unfoldable mutual
  unfolding has_input get_connected

  pub check_input_connected : Pairs → Wireable → Bool
  check_input_connected s (wireable a t ss) =
      has_input t && (leb 1 (length (get_connected a s)) || any_input_connected s ss)

  pub any_input_connected : Pairs → Selects → Bool
  any_input_connected s no_selects = false
  any_input_connected s (select m c ss) = check_input_connected s c || any_input_connected s ss

unfoldable mutual
  unfolding has_input get_connected check_input_connected

  pub check_input_outputs : Pairs → Wireable → Bool
  check_input_outputs s (wireable a t ss) =
      has_input t
      && (if leb 2 (length (get_connected a s))
          then true
          else if length (get_connected a s) == 0
          then any_input_outputs s ss
          else any_input_connected s ss)

  pub any_input_outputs : Pairs → Selects → Bool
  any_input_outputs s no_selects = false
  any_input_outputs s (select m c ss) = check_input_outputs s c || any_input_outputs s ss

-- `validate`: true is an error. Every error is reported, and the program dies at the limit.
unfoldable pub report : (max_errors : ℕ) → Bool → Bool × ℕ → Option (Bool × ℕ)
report max_errors false (err, errors) = some (err, errors)
report max_errors true (err, errors) = do
  guard (ltb (suc errors) max_errors)
  some (true, suc errors)

unfoldable pub validate_connections :
    (max_errors : ℕ) → (ℕ → HwType) → Pairs → Bool × ℕ → Option (Bool × ℕ)
unfolding report check_types
validate_connections max_errors type_of [] r = some r
validate_connections max_errors type_of ((a, b) ∷ cons) r =
    report max_errors (check_types (type_of a) (type_of b)) r
    >>= validate_connections max_errors type_of cons

unfoldable pub validate_inputs :
    (max_errors : ℕ) → Pairs → List Wireable → Bool × ℕ → Option (Bool × ℕ)
unfolding report check_input_outputs
validate_inputs max_errors s [] r = some r
validate_inputs max_errors s (w ∷ ws) r =
    report max_errors (check_input_outputs s w) r >>= validate_inputs max_errors s ws

unfoldable pub validate : (max_errors : ℕ) → (ℕ → HwType) → ModuleDef → Option (Bool × ℕ)
unfolding validate_connections validate_inputs
validate max_errors type_of d =
    validate_connections max_errors type_of d.wiring.connections (false, d.wiring.errors)
    >>= validate_inputs max_errors d.wiring.connected (work d)
