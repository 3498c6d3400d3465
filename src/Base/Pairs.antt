-- ===== src/Base/Pairs.antt =====
-- Sets of pairs of numbers, as lists that hold no pair twice.
use Prim.Native.Nat.{ℕ}
use mathlib.Core.Path.{◌≡◌, refl}
use mathlib.Core.Bool.{Bool, true, false, ◌&&◌, ◌||◌}
use mathlib.Core.List.{List, [], ◌∷◌}
use native.Mathlib.Omega.{arith}
use coreir.Base.Tests.{◌==◌, if◌then◌else◌}

abbrev pub Pairs : Type 0
Pairs = List (ℕ × ℕ)

abbrev pub same_pair : (a b c d : ℕ) → Bool
same_pair a b c d = (a == c) && (b == d)

unfoldable pub has_pair : (a b : ℕ) → Pairs → Bool
has_pair a b [] = false
has_pair a b ((c, d) ∷ s) = same_pair a b c d || has_pair a b s

unfoldable pub insert_pair : (a b : ℕ) → Pairs → Pairs
unfolding has_pair
insert_pair a b s = if has_pair a b s then s else (a, b) ∷ s

unfoldable pub erase_pair : (a b : ℕ) → Pairs → Pairs
erase_pair a b [] = []
erase_pair a b ((c, d) ∷ s) =
    let rest = erase_pair a b s in if same_pair a b c d then rest else (c, d) ∷ rest

abbrev pub Distinct : Pairs → Type 0
Distinct [] = Unit {0}
Distinct ((c, d) ∷ s) = (has_pair c d s ≡ false) × Distinct s

has_pair-same :
    (x y a b : ℕ) (s : Pairs) → same_pair x y a b ≡ true → has_pair x y s ≡ has_pair a b s
unfolding has_pair
has_pair-same x y a b [] h = refl
has_pair-same x y a b ((c, d) ∷ s) h = ground (arith, has_pair-same x y a b s)

pub has_pair-insert_pair :
    (x y a b : ℕ) (s : Pairs)
    → has_pair x y (insert_pair a b s) ≡ (same_pair x y a b || has_pair x y s)
unfolding insert_pair has_pair
has_pair-insert_pair x y a b s = ground (arith, has_pair-same x y a b s)

pub has_pair-erase_pair :
    (x y a b : ℕ) (s : Pairs)
    → has_pair x y (erase_pair a b s) ≡ (if same_pair x y a b then false else has_pair x y s)
unfolding erase_pair has_pair
has_pair-erase_pair x y a b [] = ground arith
has_pair-erase_pair x y a b ((c, d) ∷ s) = ground (arith, has_pair-erase_pair x y a b s)

pub insert_pair-Distinct : (a b : ℕ) (s : Pairs) → Distinct s → Distinct (insert_pair a b s)
unfolding insert_pair
insert_pair-Distinct a b s h = ground arith

pub erase_pair-Distinct : (a b : ℕ) (s : Pairs) → Distinct s → Distinct (erase_pair a b s)
unfolding erase_pair
erase_pair-Distinct a b [] h = tt
erase_pair-Distinct a b ((c, d) ∷ s) h =
    ground (arith, erase_pair-Distinct a b s h.1, has_pair-erase_pair c d a b s)

-- Taking out a pair that is not there changes nothing.
pub erase_pair_absent : (a b : ℕ) (s : Pairs) → has_pair a b s ≡ false → erase_pair a b s ≡ s
unfolding erase_pair has_pair
erase_pair_absent a b [] h = refl
erase_pair_absent a b ((c, d) ∷ s) h = ground (arith, erase_pair_absent a b s)
