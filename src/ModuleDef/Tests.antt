-- ===== src/ModuleDef/Tests.antt =====
-- The operations on the sample definition.
use coreir.Base.{
  List, ℕ, ◌≡◌, refl, true, false, ◌||◌, ◌+◌, none, some, [], ◌∷◌, ltb, ◌==◌, if◌then◌else◌, arith,
}
use coreir.Base.Pairs.{Pairs}
use coreir.Names.{Name, name_eq}
use coreir.Types.{bit, dir_set}
use coreir.Values.{check_values_are_params}
use coreir.Wiring.{has_connection, has_meta_data}
use coreir.Wiring.Invariant.{IsValid}
use coreir.Wireable.{wireable, no_selects}
use coreir.Iter.Links.{Represents}
use coreir.ModuleDef.{
  ModuleRef, add_instance, ModuleDef, find_instance, owns, remove_instance, validate,
  check_input_outputs,
}
use coreir.Iter.{no_instances, set_pointer}
use coreir.ModuleDef.Consistent.{IsConsistent}
use coreir.ModuleDef.Reach.{new_definition, add, Reach, start, next, Reach-IsConsistent}
use coreir.ModuleDef.Validate.{count_errors, validate_lem}
use coreir.ModuleDef.Remove.{remove_instance_lem}
use coreir.ModuleDef.Samples.{alive, types, two, two-IsValid}

two-Represents : Represents two.iter (5 ∷ 3 ∷ [])
two-Represents = ground arith

no_errors_in_two : validate 2 types two ≡ some (false, 0)
unfolding validate dir_set
no_errors_in_two = refl

-- A second wire into the input at 2, and one into the whole interface.
abbrev twice : Pairs
twice = (2, 5) ∷ (1, 7) ∷ (5, 2) ∷ (7, 1) ∷ []

driven_twice : check_input_outputs twice two.interface ≡ true
unfolding check_input_outputs dir_set
driven_twice = refl

validate_lem_example : validate 2 types two ≡ (
    if count_errors types two == 0
    then some (false, 0)
    else if ltb (0 + count_errors types two) 2
    then some (true, 0 + count_errors types two)
    else none)
validate_lem_example = validate_lem 2 types two

found : find_instance alive two.instances ≡ some (wireable 5 bit no_selects)
unfolding find_instance
found = refl

remove_instance_lem_example :
    (t : ModuleDef) × (remove_instance alive two ≡ some t)
    × IsValid t.wiring
    × Represents t.iter (3 ∷ [])
    × ((k : Name)
        → find_instance k t.instances
          ≡ (if name_eq k alive then none else find_instance k two.instances))
    × ((x y : ℕ)
        → has_connection x y t.wiring ≡ (
            if owns (wireable 5 bit no_selects) x || owns (wireable 5 bit no_selects) y
            then false
            else has_connection x y two.wiring))
    × ((x y : ℕ)
        → has_meta_data x y t.wiring ≡ (
            if owns (wireable 5 bit no_selects) x || owns (wireable 5 bit no_selects) y
            then false
            else has_meta_data x y two.wiring))
    × (t.interface ≡ two.interface)
    × (t.wiring.errors ≡ 0)
remove_instance_lem_example =
    remove_instance_lem alive (wireable 5 bit no_selects) (5 ∷ 3 ∷ []) two two-IsValid
      two-Represents found refl

-- A new definition, and the definition behind one call of `addInstance`.
abbrev one : ModuleDef
one = record {
  interface = two.interface;
  instances = (alive, wireable 5 bit no_selects) ∷ [];
  wiring = record { connected = []; connections = []; meta_data = []; errors = 0 };
  iter = record {
    first = 5;
    last = 5;
    next_map = set_pointer no_instances.next_map 5 0;
    prev_map = set_pointer no_instances.prev_map 5 0;
  };
}

-- A module without parameters.
abbrev bit_module : ModuleRef
bit_module = record { module_type = bit; mod_params = []; default_mod_args = [] }

one_added : Reach two.interface one
unfolding new_definition add_instance check_values_are_params
one_added =
    next start
      (add (new_definition two.interface) one alive 5 bit_module [] (omega arith) refl refl)

Reach-IsConsistent_example : (order : List ℕ) × IsConsistent one order
Reach-IsConsistent_example = Reach-IsConsistent two.interface one one_added
