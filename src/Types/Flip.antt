-- ===== src/Types/Flip.antt =====
-- A type and its flip, `getFlipped`: the pairing of the cache and of `newNamedType`.
use coreir.Base.{
  ℕ, ◌+◌, ◌*◌, ◌%◌, ◌^◌, ◌≡◌, refl, ap, ap₂, ◌∙◌, ◌⊎◌, inl, inr, Bool, true, false, List, [], ◌∷◌,
  map, if◌then◌else◌, arith,
}
use coreir.Names.{Name}
use coreir.Types.{
  HwType, bit, bit_in, bit_in_out, array, record_type, named, Fields, end, field, DirKind, dk_in,
  dk_out, dk_in_out, dk_mixed, dk_null, dir_eq, insert_dir, dir_of_set, get_dir, dir_set, seen,
  get_size, size_fields, flip, flip_fields,
}

-- The direction that a flipped type has.
abbrev pub flip_dir : DirKind → DirKind
flip_dir dk_in = dk_out
flip_dir dk_out = dk_in
flip_dir d = d

flip_dir_eq : (d e : DirKind) → dir_eq (flip_dir d) (flip_dir e) ≡ dir_eq d e
flip_dir_eq d e = ground arith

insert_dir-flip :
    (d : DirKind) (es : List DirKind)
    → insert_dir (flip_dir d) (map flip_dir es) ≡ map flip_dir (insert_dir d es)
insert_dir-flip d [] = refl
insert_dir-flip d (e ∷ es) = ground (arith, insert_dir-flip d es, flip_dir_eq d e)

dir_of_set-flip : (es : List DirKind) → dir_of_set (map flip_dir es) ≡ flip_dir (dir_of_set es)
dir_of_set-flip [] = refl
dir_of_set-flip (d ∷ []) = refl
dir_of_set-flip (d ∷ e ∷ es) = refl

-- A type whose direction is inout keeps it under the flip; the others change it to one that is not
-- inout.
kind_cases :
    (d : DirKind)
    → (dir_eq d dk_in_out ≡ true) × (d ≡ flip_dir d)
      ⊎ (dir_eq d dk_in_out ≡ false) × (dir_eq (flip_dir d) dk_in_out ≡ false)
kind_cases dk_in = inr (refl, refl)
kind_cases dk_out = inr (refl, refl)
kind_cases dk_in_out = inl (refl, refl)
kind_cases dk_mixed = inr (refl, refl)
kind_cases dk_null = inr (refl, refl)

if_dir :
    (d : DirKind) (x y : HwType)
    → get_dir x ≡ d
    → get_dir y ≡ flip_dir d
    → get_dir (if dir_eq d dk_in_out then x else y) ≡ flip_dir d
if_dir d x y same flipped = elim (kind_cases d) [
  | inl (t, e) ↦ ground (arith, t, same, e)
  | inr (f, e) ↦ ground (arith, f, flipped)
]

mutual
  unfolding flip flip_fields get_dir dir_set

  dir_flip : (t : HwType) → get_dir (flip t) ≡ flip_dir (get_dir t)
  dir_flip bit = refl
  dir_flip bit_in = refl
  dir_flip bit_in_out = refl
  dir_flip (array len t) = if_dir (get_dir t) (array len t) (array len (flip t)) refl (dir_flip t)
  dir_flip (record_type fs) =
      if_dir (dir_of_set (dir_set fs)) (record_type fs) (record_type (flip_fields fs)) refl
        (ap dir_of_set (dirs_flip fs) ∙ dir_of_set-flip (dir_set fs))
  dir_flip (named n f t) = dir_flip t

  dirs_flip : (fs : Fields) → dir_set (flip_fields fs) ≡ map flip_dir (dir_set fs)
  dirs_flip end = refl
  dirs_flip (field n t fs) =
      ap₂ insert_dir (dir_flip t) (dirs_flip fs) ∙ insert_dir-flip (get_dir t) (dir_set fs)

if_size :
    (b : Bool) (x y : HwType) → get_size y ≡ get_size x → get_size (if b then x else y) ≡ get_size x
if_size true x y h = refl
if_size false x y h = h

mutual
  unfolding flip flip_fields get_size size_fields

  same_size : (t : HwType) → get_size (flip t) ≡ get_size t
  same_size bit = refl
  same_size bit_in = refl
  same_size bit_in_out = refl
  same_size (array len t) =
      if_size (dir_eq (get_dir t) dk_in_out) (array len t) (array len (flip t))
        (ap (λ n. (len * n) % 2 ^ 32) (same_size t))
  same_size (record_type fs) =
      if_size (dir_eq (dir_of_set (dir_set fs)) dk_in_out) (record_type fs)
        (record_type (flip_fields fs)) (same_size_fields fs [])
  same_size (named n f t) = same_size t

  same_size_fields :
      (fs : Fields) (names : List Name) → size_fields (flip_fields fs) names ≡ size_fields fs names
  same_size_fields end names = refl
  same_size_fields (field n t fs) names =
      ap₂ (λ a b. ((if seen n names then 0 else a) + b) % 2 ^ 32) (same_size t)
        (same_size_fields fs (n ∷ names))

-- Flipping a type swaps the directions in and out and keeps the others, and it keeps the size.
pub flip_lem :
    (t : HwType) → (get_dir (flip t) ≡ flip_dir (get_dir t)) × (get_size (flip t) ≡ get_size t)
flip_lem t = (dir_flip t, same_size t)

flip-array :
    (len : ℕ) (t u : HwType)
    → get_dir u ≡ flip_dir (get_dir t)
    → flip u ≡ t
    → flip (if dir_eq (get_dir t) dk_in_out then array len t else array len u) ≡ array len t
unfolding flip
flip-array len t u d twice = elim (kind_cases (get_dir t)) [
  | inl (e, same) ↦ ground (arith, e)
  | inr (e, other) ↦ ground (arith, e, other)
]

flip-record :
    (fs gs : Fields)
    → dir_of_set (dir_set gs) ≡ flip_dir (dir_of_set (dir_set fs))
    → flip_fields gs ≡ fs
    → flip (if dir_eq (dir_of_set (dir_set fs)) dk_in_out then record_type fs else record_type gs)
      ≡ record_type fs
unfolding flip
flip-record fs gs d twice = elim (kind_cases (dir_of_set (dir_set fs))) [
  | inl (e, same) ↦ ground (arith, e)
  | inr (e, other) ↦ ground (arith, e, other)
]

mutual
  unfolding flip flip_fields

  twice : (t : HwType) → flip (flip t) ≡ t
  twice bit = refl
  twice bit_in = refl
  twice bit_in_out = refl
  twice (array len t) = flip-array len t (flip t) (dir_flip t) (twice t)
  twice (record_type fs) =
      flip-record fs (flip_fields fs) (ap dir_of_set (dirs_flip fs) ∙ dir_of_set-flip (dir_set fs))
        (twice_fields fs)
  twice (named n f t) = ap (named n f) (twice t)

  twice_fields : (fs : Fields) → flip_fields (flip_fields fs) ≡ fs
  twice_fields end = refl
  twice_fields (field n t fs) = ap₂ (field n) (twice t) (twice_fields fs)

-- Flipping a type twice gives it back: the pairing is a symmetric one.
pub flip-flip : (t : HwType) → flip (flip t) ≡ t
flip-flip = twice
