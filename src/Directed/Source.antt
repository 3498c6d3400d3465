-- ===== src/Directed/Source.antt =====
-- The direction of the connections that `connect` makes.
use coreir.Base.{
  ℕ, ◌≡◌, refl, ap, ◌∙◌, sym, Bool, true, false, not, ◌&&◌, Option, none, some, ◌>>◌, guard,
  if◌then◌else◌, arith,
}
use mathlib.Core.Path.{subst}
use coreir.Types.{
  HwType, DirKind, dk_in, dk_out, dk_in_out, dk_mixed, dk_null, dir_eq, get_dir, flip,
}
use coreir.Types.Equal.{type_eq, type_eq_sound}
use coreir.Types.Flip.{flip_dir, flip_lem}
use coreir.Wiring.{check_types}
use coreir.Directed.{directed_connection}

not-false : (b : Bool) → not b ≡ false → b ≡ true
not-false b h = ground (arith, h)

fitting_dirs : (t u : HwType) → check_types t u ≡ false → get_dir t ≡ flip_dir (get_dir u)
unfolding check_types
fitting_dirs t u h =
    ap get_dir (type_eq_sound t (flip u) (not-false (type_eq t (flip u)) h)) ∙ (flip_lem u).0

-- The outcome by the directions alone.
abbrev outcome : DirKind → DirKind → ℕ → ℕ → Option (ℕ × ℕ)
outcome d e wa wb = do
  guard (not (dir_eq d dk_null) && not (dir_eq d dk_mixed))
  guard (not (dir_eq e dk_null) && not (dir_eq e dk_mixed))
  elim (dir_eq d dk_in) [
    | true ↦ do guard (dir_eq e dk_out); some (wb, wa)
    | false ↦ do guard (dir_eq d dk_out && dir_eq e dk_in); some (wa, wb)
  ]

outcome_of :
    (e : DirKind) (wa wb : ℕ)
    → outcome (flip_dir e) e wa wb ≡ (
        if dir_eq (flip_dir e) dk_in
        then some (wb, wa)
        else if dir_eq (flip_dir e) dk_out
        then some (wa, wb)
        else none)
outcome_of dk_in wa wb = refl
outcome_of dk_out wa wb = refl
outcome_of dk_in_out wa wb = refl
outcome_of dk_mixed wa wb = refl
outcome_of dk_null wa wb = refl

-- On a connection whose types `connect` admits the constructor finds the source and the sink exactly
-- if the type of the first wireable is all input or all output, and then the source is the output. On
-- the connection of two inouts, of mixed types or of types without bits it fails an assertion.
pub directed_connection_lem :
    (type_of : ℕ → HwType) (wa wb : ℕ)
    → check_types (type_of wa) (type_of wb) ≡ false
    → directed_connection type_of (wa, wb) ≡ (
        if dir_eq (get_dir (type_of wa)) dk_in
        then some (wb, wa)
        else if dir_eq (get_dir (type_of wa)) dk_out
        then some (wa, wb)
        else none)
unfolding directed_connection
directed_connection_lem type_of wa wb fits =
    subst
      (λ d. outcome d (get_dir (type_of wb)) wa wb ≡ (
        if dir_eq d dk_in then some (wb, wa) else if dir_eq d dk_out then some (wa, wb) else none))
      (sym (fitting_dirs (type_of wa) (type_of wb) fits)) (outcome_of (get_dir (type_of wb)) wa wb)
