-- ===== src/Types/Equal.antt =====
-- Equality of types: the cache makes equal types one object, so the code compares addresses.
use coreir.Base.{◌≡◌, ap, ap₂, refl, ◌∙◌, Bool, true, false, ◌&&◌, ◌==◌, ℕ, arith}
use coreir.Names.{Name, name_eq}
use coreir.Names.Equal.{name_eq_sound}
use coreir.Types.{HwType, bit, bit_in, bit_in_out, array, record_type, named, Fields, end, field}

unfoldable mutual
  pub type_eq : HwType → HwType → Bool
  type_eq bit bit = true
  type_eq bit_in bit_in = true
  type_eq bit_in_out bit_in_out = true
  type_eq (array m t) (array n u) = (m == n) && type_eq t u
  type_eq (record_type fs) (record_type gs) = fields_eq fs gs
  type_eq (named n f t) (named m g u) = name_eq n m && (name_eq f g && type_eq t u)
  type_eq _ _ = false

  pub fields_eq : Fields → Fields → Bool
  fields_eq end end = true
  fields_eq (field n t fs) (field m u gs) = name_eq n m && (type_eq t u && fields_eq fs gs)
  fields_eq _ _ = false

array_eq : (m n : ℕ) (t u : HwType) → (m == n) ≡ true → t ≡ u → array m t ≡ array n u
array_eq m n t u h e = ap₂ (λ k x. array k x) (ground arith) e

named_eq :
    (n m f g : Name) (t u : HwType)
    → name_eq n m ≡ true
    → name_eq f g ≡ true
    → t ≡ u
    → named n f t ≡ named m g u
named_eq n m f g t u h k e =
    ap₂ (λ x y. named x y t) (name_eq_sound n m h) (name_eq_sound f g k) ∙ ap (named m g) e

field_eq :
    (n m : Name) (t u : HwType) (fs gs : Fields)
    → name_eq n m ≡ true
    → t ≡ u
    → fs ≡ gs
    → field n t fs ≡ field m u gs
field_eq n m t u fs gs h e es =
    ap₂ (λ x y. field x y fs) (name_eq_sound n m h) e ∙ ap (field m u) es

both : (a b : Bool) → (a && b) ≡ true → (a ≡ true) × (b ≡ true)
both a b h = (ground (arith, h), ground (arith, h))

-- Types that the test finds equal are equal.
mutual
  unfolding type_eq fields_eq

  pub type_eq_sound : (t u : HwType) → type_eq t u ≡ true → t ≡ u
  type_eq_sound bit bit h = refl
  type_eq_sound bit_in bit_in h = refl
  type_eq_sound bit_in_out bit_in_out h = refl
  type_eq_sound (array m t) (array n u) h =
      let (size, elem) = both (m == n) (type_eq t u) h in
      array_eq m n t u size (type_eq_sound t u elem)
  type_eq_sound (record_type fs) (record_type gs) h = ap record_type (fields_eq_sound fs gs h)
  type_eq_sound (named n f t) (named m g u) h =
      let (name, rest) = both (name_eq n m) (name_eq f g && type_eq t u) h in
      let (flipped, raw) = both (name_eq f g) (type_eq t u) rest in
      named_eq n m f g t u name flipped (type_eq_sound t u raw)
  type_eq_sound _ _ h = cc

  fields_eq_sound : (fs gs : Fields) → fields_eq fs gs ≡ true → fs ≡ gs
  fields_eq_sound end end h = refl
  fields_eq_sound (field n t fs) (field m u gs) h =
      let (name, rest) = both (name_eq n m) (type_eq t u && fields_eq fs gs) h in
      let (here, later) = both (type_eq t u) (fields_eq fs gs) rest in
      field_eq n m t u fs gs name (type_eq_sound t u here) (fields_eq_sound fs gs later)
  fields_eq_sound _ _ h = cc
