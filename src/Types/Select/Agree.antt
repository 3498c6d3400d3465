-- ===== src/Types/Select/Agree.antt =====
-- `canSel` foretells `sel`, and both agree on a type and its flip.
use mathlib.Core.Option
use coreir.Base.{
  ℕ, ◌≡◌, ◌≢◌, refl, sym, ap, ◌∙◌, Bool, true, false, Option, none, some, List, [], ◌∷◌, ◌>>=◌,
  ◌>>◌, guard, ◌-◌, if◌then◌else◌, arith,
}
use coreir.Names.{Name, parse_slice}
use coreir.Types.{
  HwType, bit, bit_in, bit_in_out, array, record_type, named, Fields, end, field, flip, flip_fields,
  DirKind, dk_in, dk_out, dk_in_out, dk_mixed, dk_null, dir_eq, get_dir, dir_set, dir_of_set,
}
use coreir.Types.Select.{
  lookup_field, sel_array, sel, can_sel_array, can_sel, can_sel_path, sel_path, slice_is_valid,
}

-- Whether there is a result.
abbrev pub returns {ℓ} : {A : Type ℓ} → Option A → Bool
returns none = false
returns (some x) = true

false-ne-true : false ≢ true
false-ne-true h = cc

array_agrees :
    (len : ℕ) (t : HwType) (s : Name) {b : Bool}
    → can_sel_array len t s ≡ some b
    → returns (sel_array len t s) ≡ b
unfolding can_sel_array sel_array
array_agrees len t s h = ground arith

-- Where `canSel` gives an answer, the answer tells whether `sel` returns a type.
pub can_sel-sel : (t : HwType) (s : Name) {b : Bool} → can_sel t s ≡ some b → returns (sel t s) ≡ b
unfolding can_sel sel
can_sel-sel (array len t) s h = array_agrees len t s h
can_sel-sel (record_type fs) s h = ground arith
can_sel-sel bit s h = cc
can_sel-sel bit_in s h = cc
can_sel-sel bit_in_out s h = cc
can_sel-sel (named n f t) s h = cc

path_step :
    (here : Option Bool) (next : Option HwType) (path : List Name)
    → ((b : Bool) → here ≡ some b → returns next ≡ b)
    → ((u : HwType) (b : Bool) → can_sel_path u path ≡ some b → returns (sel_path u path) ≡ b)
    → {b : Bool}
    → (here >>= λ yes_here. elim yes_here [
      | true ↦ next >>= λ u. can_sel_path u path
      | false ↦ some false
    ])
      ≡ some b
    → returns (next >>= λ u. sel_path u path) ≡ b
path_step none next path agrees rest h = cc
path_step (some true) none path agrees rest h = absurd (false-ne-true (agrees true refl))
path_step (some true) (some u) path agrees rest {b} h = rest u b h
path_step (some false) none path agrees rest h = cc
path_step (some false) (some u) path agrees rest h =
    absurd (false-ne-true (sym (agrees false refl)))

-- The same holds of a path: where `canSel` gives an answer, it tells whether the selection along the
-- path returns a type.
pub can_sel_path-sel_path :
    (t : HwType) (path : List Name) {b : Bool}
    → can_sel_path t path ≡ some b
    → returns (sel_path t path) ≡ b
unfolding can_sel_path sel_path
can_sel_path-sel_path t [] h = cc
can_sel_path-sel_path t (s ∷ path) h =
    path_step (can_sel t s) (sel t s) path (λ b. can_sel-sel t s {b = b})
      (λ u b. can_sel_path-sel_path u path {b = b}) h

lookup_field-flip :
    (s : Name) (fs : Fields) → lookup_field s (flip_fields fs) ≡ Option.map flip (lookup_field s fs)
unfolding flip flip_fields
lookup_field-flip s end = refl
lookup_field-flip s (field n t fs) = ground (arith, lookup_field-flip s fs)

flip_unless :
    (d : DirKind) (x y : HwType) → d ≢ dk_in_out → (if dir_eq d dk_in_out then x else y) ≡ y
flip_unless dk_in x y h = refl
flip_unless dk_out x y h = refl
flip_unless dk_in_out x y h = absurd (h refl)
flip_unless dk_mixed x y h = refl
flip_unless dk_null x y h = refl

flip_array : (t : HwType) → get_dir t ≢ dk_in_out → (n : ℕ) → flip (array n t) ≡ array n (flip t)
unfolding flip
flip_array t mono n = flip_unless (get_dir t) (array n t) (array n (flip t)) mono

slice-flip :
    (p : Option (ℕ × ℕ)) (len : ℕ) (t : HwType)
    → ((n : ℕ) → flip (array n t) ≡ array n (flip t))
    → (p >>= λ (r : ℕ × ℕ). guard (slice_is_valid r.0 r.1 len) >> some (array (r.1 - r.0) (flip t)))
      ≡ Option.map flip
          (p >>= λ (r : ℕ × ℕ). guard (slice_is_valid r.0 r.1 len) >> some (array (r.1 - r.0) t))
slice-flip none len t h = refl
slice-flip (some (low, high)) len t h = ground (arith, h (high - low))

array-flip :
    (len : ℕ) (t : HwType) (s : Name)
    → get_dir t ≢ dk_in_out
    → sel_array len (flip t) s ≡ Option.map flip (sel_array len t s)
unfolding sel_array
array-flip len t s mono = ground (arith, slice-flip (parse_slice s) len t (flip_array t mono))

-- A select of the flip of a type that is not of direction inout is the flip of that select of the
-- type.
pub sel-flip :
    (t : HwType) (s : Name) → get_dir t ≢ dk_in_out → sel (flip t) s ≡ Option.map flip (sel t s)
unfolding sel flip get_dir
sel-flip (array len t) s mono = ap (λ x. sel x s) (flip_array t mono len) ∙ array-flip len t s mono
sel-flip (record_type fs) s mono =
    ap (λ x. sel x s)
      (flip_unless (dir_of_set (dir_set fs)) (record_type fs) (record_type (flip_fields fs)) mono)
    ∙ lookup_field-flip s fs
sel-flip bit s mono = refl
sel-flip bit_in s mono = refl
sel-flip bit_in_out s mono = refl
sel-flip (named n f t) s mono = refl
