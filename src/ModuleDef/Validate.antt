-- ===== src/ModuleDef/Validate.antt =====
-- The errors that `validate` of src/ir/moduledef_validate.cpp counts.
use mathlib.Core.Path.{fun_ext}
use coreir.Base.{
  ℕ, ◌+◌, ◌≡◌, refl, ap, ap₂, ◌∙◌, Bool, true, false, Option, none, some, List, [], ◌∷◌, ◌>>=◌, ltb,
  leb, ◌==◌, if◌then◌else◌, arith,
}
use coreir.Base.Pairs.{Pairs}
use coreir.Types.{HwType}
use coreir.Wiring.{check_types}
use coreir.Wireable.{Wireable}
use coreir.ModuleDef.{ModuleDef, work, report, validate_connections, validate_inputs, validate}
use coreir.ModuleDef.Drivers.{drivers, check_input_outputs_lem}

abbrev pub bad_connections : (ℕ → HwType) → Pairs → ℕ
bad_connections type_of [] = 0
bad_connections type_of ((a, b) ∷ cons) =
    (if check_types (type_of a) (type_of b) then 1 else 0) + bad_connections type_of cons

abbrev pub bad_wireables : Pairs → List Wireable → ℕ
bad_wireables s [] = 0
bad_wireables s (w ∷ ws) = (if leb 2 (drivers s w) then 1 else 0) + bad_wireables s ws

-- The outcome of finding `bad` errors after `errors` others.
abbrev pub outcome : (max_errors bad : ℕ) → Bool × ℕ → Option (Bool × ℕ)
outcome max_errors bad (err, errors) =
    if bad == 0
    then some (err, errors)
    else if ltb (errors + bad) max_errors
    then some (true, errors + bad)
    else none

report-outcome :
    (max_errors bad : ℕ) (b : Bool) (r : Bool × ℕ)
    → (report max_errors b r >>= outcome max_errors bad)
      ≡ outcome max_errors ((if b then 1 else 0) + bad) r
unfolding report
report-outcome max_errors bad false (err, errors) = ground arith
report-outcome max_errors bad true (err, errors) = ground arith

connections_outcome :
    (max_errors : ℕ) (type_of : ℕ → HwType) (cons : Pairs) (r : Bool × ℕ)
    → validate_connections max_errors type_of cons r
      ≡ outcome max_errors (bad_connections type_of cons) r
unfolding validate_connections
connections_outcome max_errors type_of [] (err, errors) = refl
connections_outcome max_errors type_of ((a, b) ∷ cons) r =
    ap (λ f. report max_errors (check_types (type_of a) (type_of b)) r >>= f)
      (fun_ext (connections_outcome max_errors type_of cons))
    ∙ report-outcome max_errors (bad_connections type_of cons) (check_types (type_of a) (type_of b))
        r

inputs_outcome :
    (max_errors : ℕ) (s : Pairs) (ws : List Wireable) (r : Bool × ℕ)
    → validate_inputs max_errors s ws r ≡ outcome max_errors (bad_wireables s ws) r
unfolding validate_inputs
inputs_outcome max_errors s [] (err, errors) = refl
inputs_outcome max_errors s (w ∷ ws) r =
    ap₂ (λ b f. report max_errors b r >>= f) (check_input_outputs_lem s w)
      (fun_ext (inputs_outcome max_errors s ws))
    ∙ report-outcome max_errors (bad_wireables s ws) (leb 2 (drivers s w)) r

two_outcomes :
    (max_errors m n : ℕ) (r : Bool × ℕ)
    → (outcome max_errors m r >>= outcome max_errors n) ≡ outcome max_errors (m + n) r
two_outcomes max_errors m n (err, errors) = ground arith

-- The errors of a definition: the connections whose types are not flips of one another, and the
-- interface and instances with two connections or more on one way down to an input.
pub count_errors : (ℕ → HwType) → ModuleDef → ℕ
count_errors type_of d =
    bad_connections type_of d.wiring.connections + bad_wireables d.wiring.connected (work d)

-- `validate` finds no error exactly if every connection joins a type and its flip, and the interface
-- and the instances have at most one connection on each way down their selects to an input; slices
-- that overlap are on different ways. It reports one error for each connection and each wireable that fails; the program
-- dies when these and the errors from before come to the limit.
pub validate_lem :
    (max_errors : ℕ) (type_of : ℕ → HwType) (d : ModuleDef)
    → validate max_errors type_of d ≡ (
        if count_errors type_of d == 0
        then some (false, d.wiring.errors)
        else if ltb (d.wiring.errors + count_errors type_of d) max_errors
        then some (true, d.wiring.errors + count_errors type_of d)
        else none)
unfolding validate count_errors
validate_lem max_errors type_of d =
    ap₂ (λ m f. m >>= f)
      (connections_outcome max_errors type_of d.wiring.connections (false, d.wiring.errors))
      (fun_ext (inputs_outcome max_errors d.wiring.connected (work d)))
    ∙ two_outcomes max_errors (bad_connections type_of d.wiring.connections)
        (bad_wireables d.wiring.connected (work d)) (false, d.wiring.errors)
