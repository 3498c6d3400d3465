-- ===== src/Simulator/Operations/Meaning.antt =====
-- The operations on binary vectors, as arithmetic.
use coreir.Base.{
  ==→eq, ℕ, suc, ◌+◌, ◌-◌, ◌*◌, ◌%◌, ◌^◌, ◌/◌, ◌&&◌, ◌<◌, ◌≡◌, refl, sym, ap, ◌∙◌, Bool, true,
  false, not, ◌||◌, Option, some, ltb, leb, ◌==◌, if◌then◌else◌, Bool-cases, inl, inr, arith,
  bit_and, bit_or, bit_xor,
}
use coreir.Base.Int.{ltb_ℤ}
use coreir.BitVec.{QuadValueBitVector, zeros, equals, not_equals}
use coreir.BitVec.Words.{word, word-mod}
use coreir.BitVec.Access.{from_int-word, equals-word}
use coreir.BitVec.Compare.{gt, lt, or_else, signed_gt, signed_gte}
use coreir.BitVec.Compare.Order.{compare-word, signed_gt-word, signed_value}
use coreir.BitVec.Arith.Add.{add-word}
use coreir.BitVec.Arith.Sub.{sub-word}
use coreir.BitVec.Arith.Mul.{mul-word}
use coreir.BitVec.Logic.Bitwise.{bitwise-word}
use coreir.BitVec.Shift.Widths.{concat-word}
use coreir.BitVec.Shift.{concat, lshr, ashr, shl}
use coreir.BitVec.Shift.Amounts.{lshr-word, shl-word}
use coreir.BitVec.Shift.Signed.{ashr_value, ashr-word}
use coreir.BitVec.Divide.Quotient.{unsigned_divide-word}
use coreir.Base.Pow.{two-pow-pos}
use native.Mathlib.Nat.{mod-lt}
use coreir.Simulator.Operations.{
  BinaryOp, op_and, op_eq, op_neq, op_or, op_xor, op_add, op_sub, op_mul, op_concat, op_lshr,
  op_ashr, op_shl, op_ult, op_ule, op_ugt, op_uge, op_smax, op_smin, op_sgt, op_sge, op_udiv,
  op_slt, op_sle, binary_op, truth, choose, concat_bits,
}

-- What the shifts and the division take: at most 64 digits, an amount of at most 64 that is not above
-- the width where the shift goes right, and a divisor that is not 0.
abbrev pub takes : BinaryOp → (v y : ℕ) → Bool
takes op_lshr v y = leb (suc v) 64 && (leb (y % 2 ^ suc v) 64 && leb (y % 2 ^ suc v) (suc v))
takes op_ashr v y = leb (suc v) 64 && (leb (y % 2 ^ suc v) 64 && leb (y % 2 ^ suc v) (suc v))
takes op_shl v y = leb (suc v) 64 && leb (y % 2 ^ suc v) 64
takes op_udiv v y = leb (suc v) 64 && ltb 0 (y % 2 ^ suc v)
takes _ v y = true

abbrev pub flag : Bool → QuadValueBitVector
flag b = word 1 (if b then 1 else 0)

-- The result for the numbers `x` and `y` in `v + 1` digits.
abbrev pub meaning : BinaryOp → (v x y : ℕ) → QuadValueBitVector
meaning op_and v x y = word (suc v) (bit_and x y)
meaning op_eq v x y = flag (x % 2 ^ suc v == y % 2 ^ suc v)
meaning op_neq v x y = flag (not (x % 2 ^ suc v == y % 2 ^ suc v))
meaning op_or v x y = word (suc v) (bit_or x y)
meaning op_xor v x y = word (suc v) (bit_xor x y)
meaning op_add v x y = word (suc v) (x + y)
meaning op_sub v x y = word (suc v) (x + (2 ^ suc v - y % 2 ^ suc v))
meaning op_mul v x y = word (suc v) (x * y)
meaning op_concat v x y = word (suc v + suc v) (x % 2 ^ suc v + 2 ^ suc v * y)
meaning op_ult v x y = flag (ltb (x % 2 ^ suc v) (y % 2 ^ suc v))
meaning op_ule v x y = flag (leb (x % 2 ^ suc v) (y % 2 ^ suc v))
meaning op_ugt v x y = flag (ltb (y % 2 ^ suc v) (x % 2 ^ suc v))
meaning op_uge v x y = flag (leb (y % 2 ^ suc v) (x % 2 ^ suc v))
meaning op_sgt v x y = flag (ltb_ℤ (signed_value v y) (signed_value v x))
meaning op_sle v x y = flag (not (ltb_ℤ (signed_value v y) (signed_value v x)))
meaning op_sge v x y =
    flag (ltb_ℤ (signed_value v y) (signed_value v x) || x % 2 ^ suc v == y % 2 ^ suc v)
meaning op_slt v x y =
    flag (not (ltb_ℤ (signed_value v y) (signed_value v x) || x % 2 ^ suc v == y % 2 ^ suc v))
meaning op_smax v x y = word (suc v) (if ltb_ℤ (signed_value v y) (signed_value v x) then x else y)
meaning op_smin v x y = word (suc v) (if ltb_ℤ (signed_value v y) (signed_value v x) then y else x)
meaning op_lshr v x y = word (suc v) (x % 2 ^ suc v / 2 ^ (y % 2 ^ suc v))
meaning op_ashr v x y = word (suc v) (ashr_value v x (y % 2 ^ suc v))
meaning op_shl v x y = word (suc v) (x * 2 ^ (y % 2 ^ suc v))
meaning op_udiv v x y = word (suc v) (x % 2 ^ suc v / (y % 2 ^ suc v))

or_some : (a b : Bool) → or_else (some a) (some b) ≡ some (a || b)
or_some true b = refl
or_some false b = refl

truth-flag : (m : Option Bool) (b : Bool) → m ≡ some b → truth m ≡ some (flag b)
truth-flag m true e = rw e (from_int-word 1 1 (omega arith))
truth-flag m false e = rw e (from_int-word 1 0 (omega arith))

module _ (v x y : ℕ) where
  abbrev less : Bool
  less = ltb_ℤ (signed_value v y) (signed_value v x)

  abbrev same : Bool
  same = x % 2 ^ suc v == y % 2 ^ suc v

  abbrev left : QuadValueBitVector
  left = word (suc v) x

  abbrev right : QuadValueBitVector
  right = word (suc v) y

  greater_or_same : or_else (signed_gt left right) (equals left right) ≡ some (less || same)
  greater_or_same = rw (signed_gt-word v x y, equals-word (suc v) x y) (or_some less same)

  signed_gte-word : signed_gte left right ≡ some (less || same)
  unfolding signed_gte
  signed_gte-word = greater_or_same

  same_words : same ≡ true → left ≡ right
  same_words h =
      sym (word-mod (suc v) x)
      ∙ ap (word (suc v)) (==→eq (x % 2 ^ suc v) (y % 2 ^ suc v) h)
      ∙ word-mod (suc v) y

  smax-word :
      choose (or_else (signed_gt left right) (equals left right)) left right
      ≡ some (word (suc v) (if less then x else y))
  smax-word = rw greater_or_same (elim (Bool-cases less) [
    | inl h ↦ rw h refl
    | inr h ↦ elim (Bool-cases same) [
      | inl s ↦ rw (h, s) (ap (λ t. some t) (same_words s))
      | inr s ↦ rw (h, s) refl
    ]
  ])

  smin-word :
      choose (or_else (signed_gt left right) (equals left right)) right left
      ≡ some (word (suc v) (if less then y else x))
  smin-word = rw greater_or_same (elim (Bool-cases less) [
    | inl h ↦ rw h refl
    | inr h ↦ elim (Bool-cases same) [
      | inl s ↦ rw (h, s) (ap (λ t. some t) (sym (same_words s)))
      | inr s ↦ rw (h, s) refl
    ]
  ])

  below_or_same :
      or_else (lt left right) (equals left right) ≡ some (leb (x % 2 ^ suc v) (y % 2 ^ suc v))
  below_or_same =
      let (eq, gt, ge, lt) = compare-word (suc v) x y in
      rw (lt, eq)
        (or_some (ltb (x % 2 ^ suc v) (y % 2 ^ suc v)) same
          ∙ ap (λ b. some b) (joined (x % 2 ^ suc v) (y % 2 ^ suc v)))
    where
      joined : (a b : ℕ) → (ltb a b || a == b) ≡ leb a b
      joined a b = ground arith

  above_or_same :
      or_else (gt left right) (equals left right) ≡ some (leb (y % 2 ^ suc v) (x % 2 ^ suc v))
  above_or_same =
      let (eq, gt, ge, lt) = compare-word (suc v) x y in
      rw (gt, eq)
        (or_some (ltb (y % 2 ^ suc v) (x % 2 ^ suc v)) same
          ∙ ap (λ b. some b) (joined (x % 2 ^ suc v) (y % 2 ^ suc v)))
    where
      joined : (a b : ℕ) → (ltb b a || a == b) ≡ leb b a
      joined a b = ground arith

  not_equals-word : not_equals left right ≡ some (not same)
  unfolding not_equals
  not_equals-word = rw (equals-word (suc v) x y) (flipped same)
    where
      flipped : (b : Bool) → some (if b then false else true) ≡ some (not b)
      flipped true = refl
      flipped false = refl

  concat_bits-word :
      concat_bits left right ≡ some (word (suc v + suc v) (x % 2 ^ suc v + 2 ^ suc v * y))
  unfolding concat_bits concat zeros
  concat_bits-word = concat-word (suc v) (suc v) x y

amount_low : (v y : ℕ) → y % 2 ^ suc v < 2 ^ suc v
amount_low v y = mod-lt y (two-pow-pos (suc v))

-- On two binary vectors of one width above 0, every operation on bits returns, and its result is that
-- on the numbers: modulo 2 ^ w, and by the two's complement readings for the signed operations. A
-- shift or a division must have at most 64 digits, a shift an amount of at most 64, a shift to the
-- right one of at most the width, and a division a divisor that is not 0.
pub binary_op-word :
    (op : BinaryOp) (v x y : ℕ)
    → takes op v y ≡ true
    → binary_op op (word (suc v) x) (word (suc v) y) ≡ some (meaning op v x y)
unfolding binary_op
binary_op-word op_and v x y h = (bitwise-word (suc v) x y).0
binary_op-word op_eq v x y h = truth-flag _ _ (equals-word (suc v) x y)
binary_op-word op_neq v x y h = truth-flag _ _ (not_equals-word v x y)
binary_op-word op_or v x y h = (bitwise-word (suc v) x y).1
binary_op-word op_xor v x y h = (bitwise-word (suc v) x y).2
binary_op-word op_add v x y h = add-word (suc v) x y
binary_op-word op_sub v x y h = sub-word (suc v) x y
binary_op-word op_mul v x y h = mul-word (suc v) x y
binary_op-word op_concat v x y h = concat_bits-word v x y
binary_op-word op_lshr v x y h =
    ap (λ r. lshr (word (suc v) x) r) (sym (word-mod (suc v) y))
    ∙ lshr-word (suc v) (suc v) x (y % 2 ^ suc v) (ground (arith, h)) (amount_low v y)
        (ground (arith, h)) (ground (arith, h))
binary_op-word op_ashr v x y h =
    ap (λ r. ashr (word (suc v) x) r) (sym (word-mod (suc v) y))
    ∙ ashr-word v (suc v) x (y % 2 ^ suc v) (ground (arith, h)) (amount_low v y) (ground (arith, h))
        (ground (arith, h))
binary_op-word op_shl v x y h =
    ap (λ r. shl (word (suc v) x) r) (sym (word-mod (suc v) y))
    ∙ shl-word (suc v) (suc v) x (y % 2 ^ suc v) (ground (arith, h)) (amount_low v y)
        (ground (arith, h))
binary_op-word op_ult v x y h = truth-flag _ _ (compare-word (suc v) x y).3
binary_op-word op_ule v x y h = truth-flag _ _ (below_or_same v x y)
binary_op-word op_ugt v x y h = truth-flag _ _ (compare-word (suc v) x y).1
binary_op-word op_uge v x y h = truth-flag _ _ (above_or_same v x y)
binary_op-word op_smax v x y h = smax-word v x y
binary_op-word op_smin v x y h = smin-word v x y
binary_op-word op_sgt v x y h = truth-flag _ _ (signed_gt-word v x y)
binary_op-word op_sge v x y h = truth-flag _ _ (signed_gte-word v x y)
binary_op-word op_udiv v x y h =
    unsigned_divide-word (suc v) x y (ground (arith, h)) (ground (arith, h))
binary_op-word op_slt v x y h = truth-flag _ _ (rw (signed_gte-word v x y) refl)
binary_op-word op_sle v x y h = truth-flag _ _ (rw (signed_gt-word v x y) refl)
