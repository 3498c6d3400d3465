-- ===== src/Wireable/Tests.antt =====
-- Selects at concrete wireables.
use coreir.Base.{ℕ, ◌≡◌, refl, none, some, false, List, [], ◌∷◌, true, arith}
use coreir.Names.{Name, is_slice, stoi}
use coreir.Types.{HwType, bit, bit_in, array, record_type, end, field}
use coreir.Types.Select.{can_sel, sel, can_sel_path}
use coreir.Wireable.{Wireable, wireable, no_selects, select, get_type, sel_along, get_all_selects}
use coreir.Wireable.Walk.{sel_along_again}
use coreir.Wireable.Typed.{WellTyped, sel_along-WellTyped}

abbrev out : Name
out = b'o' ∷ b'u' ∷ b't' ∷ []

abbrev en : Name
en = b'e' ∷ b'n' ∷ []

abbrev zeroth : Name
zeroth = b'0' ∷ []

abbrev port : HwType
port = record_type (field en bit_in (field out (array 2 bit) end))

abbrev root : Wireable
root = wireable 1 port no_selects

-- The root behind the selects `out` and `out.0`.
abbrev grown : Wireable
grown = wireable 1 port (
    select out (wireable 2 (array 2 bit) (select zeroth (wireable 3 bit no_selects) no_selects))
      no_selects)

path_made : sel_along false (out ∷ zeroth ∷ []) (2 ∷ 3 ∷ 4 ∷ []) root ≡ some (3, grown, 4 ∷ [])
unfolding sel_along can_sel sel is_slice stoi
path_made = refl

-- The first select of a wireable is filed under the wireable's own path and so is dropped; the
-- second gets the name of the first.
abbrev two_selects : Wireable
two_selects = wireable 1 port (
    select en (wireable 2 bit_in no_selects)
      (select out (wireable 3 (array 2 bit) no_selects) no_selects))

all_selects_misnamed : get_all_selects two_selects ≡ ([], 1) ∷ (en ∷ [], 3) ∷ []
unfolding get_all_selects
all_selects_misnamed = refl

-- `canSel` accepts the empty path; the cast of an instance fails.
empty_path_fails : sel_along false [] [] root ≡ none
unfolding sel_along
empty_path_fails = refl

sel_along_again_example :
    sel_along false (out ∷ zeroth ∷ []) (9 ∷ []) grown ≡ some (3, grown, 9 ∷ [])
sel_along_again_example =
    sel_along_again false (out ∷ zeroth ∷ []) (2 ∷ 3 ∷ 4 ∷ []) (4 ∷ []) root grown 3 (9 ∷ [])
      path_made

root-WellTyped : WellTyped root
unfolding WellTyped
root-WellTyped = tt

root_can : can_sel_path port (out ∷ zeroth ∷ []) ≡ some true
unfolding can_sel_path can_sel sel is_slice stoi
root_can = refl

sel_along-WellTyped_example :
    (a : ℕ) × (w' : Wireable) × (left : List ℕ) × (sel_along false
        (out ∷ zeroth ∷ [])
        (2 ∷ 3 ∷ [])
        root
      ≡ some (a, w', left))
    × WellTyped w'
    × (get_type w' ≡ port)
sel_along-WellTyped_example =
    sel_along-WellTyped false (out ∷ zeroth ∷ []) (2 ∷ 3 ∷ []) root root-WellTyped root_can
      (omega arith) refl
