-- ===== src/Names/Equal.antt =====
-- Equality of names is equality of texts.
use coreir.Base.{ℕ, ◌≡◌, refl, ap, ap₂, ◌∙◌, true, [], ◌∷◌, ◌==◌, arith}
use coreir.Names.{Name, name_eq}

same_byte : (c d : ℕ) → (c == d) ≡ true → c ≡ d
same_byte c d h = ground arith

pub name_eq_sound : (s t : Name) → name_eq s t ≡ true → s ≡ t
name_eq_sound [] [] h = refl
name_eq_sound [] (d ∷ t) h = cc
name_eq_sound (c ∷ s) [] h = cc
name_eq_sound (c ∷ s) (d ∷ t) h =
    ap₂ (λ x y. x ∷ y) (same_byte c d (ground arith)) (name_eq_sound s t (ground arith))

pub name_eq_self : (s : Name) → name_eq s s ≡ true
name_eq_self [] = refl
name_eq_self (c ∷ s) = ground (arith, name_eq_self s)

pub name_eq_swap : (s t : Name) → name_eq t s ≡ true → name_eq s t ≡ true
name_eq_swap s t h = ap (λ x. name_eq s x) (name_eq_sound t s h) ∙ name_eq_self s
