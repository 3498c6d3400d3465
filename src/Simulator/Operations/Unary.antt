-- ===== src/Simulator/Operations/Unary.antt =====
-- The operations on one binary vector, as arithmetic.
use native.Mathlib.Nat.{zero-add, mod-lt}
use coreir.Base.{
  ℕ, zero, suc, ◌+◌, ◌-◌, ◌/◌, ◌%◌, ◌^◌, ◌≤◌, ◌<◌, ◌≡◌, refl, sym, ap, ◌∙◌, Bool, true, false, ◌&&◌,
  some, none, Option, [], ◌>>=◌, ltb, leb, ◌==◌, ==→eq, append-nil, for_up, arith, ltb→lt, lt→ltb,
  get_elem?,
}
use mathlib.Core.Path.{subst}
use coreir.Quad
use coreir.Quad.{QuadValue, low, high, unknown, high_impedance, is_binary, binary_value}
use coreir.BitVec.{QuadValueBitVector, bit_length, from_int, get, fill_step}
use coreir.BitVec.Words.{word-mod, word, digits, length-digits, get_elem?-digits_above}
use coreir.BitVec.Access.{from_int-word}
use coreir.BitVec.Fill.{fill_up}
use coreir.BitVec.Logic.{andr_loop, orr_loop, andr, orr}
use coreir.BitVec.Logic.Bitwise.{bitwise-word}
use coreir.BitVec.Logic.Reduce.{reductions-word, all_ones, any_one}
use coreir.BitVec.Arith.{negate_general_width_bv}
use coreir.BitVec.Arith.Sub.{sub-word}
use coreir.BitVec.Shift.{zero_extend, get_shift_int}
use coreir.BitVec.Shift.Amounts.{get_shift_int-word}
use coreir.Base.Pow.{two-pow-pos}
use coreir.BitVec.Shift.Widths.{zero_extend-word}
use coreir.Simulator.Operations.{
  UnaryOp, op_not, op_neg, op_wire, op_andr, op_orr, op_slice, op_zext, op_lut, unary_op, andr_bits,
  orr_bits, slice_bits, zext_bits, lut_bit,
}

abbrev is_digit : Option QuadValue → Bool
is_digit none = false
is_digit (some q) = is_binary q

-- The digit 1 is the number 1.
abbrev entry : Option QuadValue → ℕ
entry none = 0
entry (some high) = 1
entry (some _) = 0

-- The vectors that an operation takes. A table is read at an index of at most 64, and has 0 or 1 there.
abbrev pub fits : UnaryOp → (w x : ℕ) → Bool
fits (op_slice lo hi) w x = ltb lo hi && leb hi w
fits (op_zext width_in width_out) w x = (w == width_in) && leb width_in width_out
fits (op_lut n init) w x =
    (bit_length init == 2 ^ n)
    && (leb w 64 && (leb (x % 2 ^ w) 64 && is_digit (get init (x % 2 ^ w))))
fits _ w x = true

abbrev pub unary_meaning : UnaryOp → (w x : ℕ) → QuadValueBitVector
unary_meaning op_not w x = word w (2 ^ w - 1 - x % 2 ^ w)
unary_meaning op_neg w x = word w (2 ^ w - x % 2 ^ w)
unary_meaning op_wire w x = word w x
unary_meaning op_andr w x = word 1 (all_ones w x)
unary_meaning op_orr w x = word 1 (any_one w x)
unary_meaning (op_slice lo hi) w x = word (hi - lo) (x / 2 ^ lo)
unary_meaning (op_zext width_in width_out) w x = word width_out (x % 2 ^ w)
unary_meaning (op_lut n init) w x = word 1 (entry (get init (x % 2 ^ w)))

-- The loops of the interpreter are those of the reductions.
andr_bits_same : (s : QuadValueBitVector) (k i : ℕ) → andr_bits s k i ≡ andr_loop s k i
unfolding andr_bits andr_loop from_int coreir.BitVec.from_string
andr_bits_same s zero i = refl
andr_bits_same s (suc k) i =
    ap (λ r. get s i >>= λ q. Quad.ne q high >>= λ t. elim t [ true ↦ from_int 1 0 | false ↦ r ])
      (andr_bits_same s k (suc i))

orr_bits_same : (s : QuadValueBitVector) (k i : ℕ) → orr_bits s k i ≡ orr_loop s k i
unfolding orr_bits orr_loop from_int coreir.BitVec.from_string
orr_bits_same s zero i = refl
orr_bits_same s (suc k) i =
    ap (λ r. get s i >>= λ q. Quad.eq q high >>= λ t. elim t [ true ↦ from_int 1 1 | false ↦ r ])
      (orr_bits_same s k (suc i))

andr_bits-word : (w x : ℕ) → andr_bits (word w x) w 0 ≡ some (word 1 (all_ones w x))
unfolding andr
andr_bits-word w x = andr_bits_same (word w x) w 0 ∙ (reductions-word w x).0

orr_bits-word : (w x : ℕ) → orr_bits (word w x) w 0 ≡ some (word 1 (any_one w x))
unfolding orr
orr_bits-word w x = orr_bits_same (word w x) w 0 ∙ (reductions-word w x).1

negate-word : (w x : ℕ) → negate_general_width_bv (word w x) ≡ some (word w (2 ^ w - x % 2 ^ w))
unfolding negate_general_width_bv
negate-word w x =
    rw (from_int-word w 0 (omega arith))
      (sub-word w 0 x ∙ ap (λ y. some (word w y)) (zero-add (2 ^ w - x % 2 ^ w)))

zext_bits-word : (w o x : ℕ) → w ≤ o → zext_bits w o (word w x) ≡ some (word o (x % 2 ^ w))
unfolding zext_bits zero_extend
zext_bits-word w o x h = rw (self w) (zero_extend-word w o x h)
  where
    self : (w : ℕ) → (w == w) ≡ true
    self w = ground arith

slice_bits-word :
    (w lo hi x : ℕ)
    → lo < hi
    → hi ≤ w
    → slice_bits lo hi (word w x) ≡ some (word (hi - lo) (x / 2 ^ lo))
unfolding slice_bits
slice_bits-word w lo hi x h g =
    rw (lt→ltb lo hi h, from_int-word (hi - lo) 1 (omega arith))
      (copied (hi - lo) (omega (arith, g, h)))
  where
    read : (k : ℕ) → get (word w x) k ≡ get_elem? (digits w x) k
    read k = refl

    copied :
        (n : ℕ)
        → lo + n ≤ w
        → for_up (fill_step (λ i. i - lo) (get (word w x))) n lo (word n 1)
          ≡ some (word n (x / 2 ^ lo))
    copied n fit =
        let ys = digits n (x / 2 ^ lo) in
        let filled =
          fill_up (λ i. i - lo) (get (word w x)) ys (digits n 1) [] [] n lo
            (length-digits n 1 ∙ sym (length-digits n (x / 2 ^ lo)))
            (λ k low.
              read (lo + k)
              ∙ get_elem?-digits_above w x lo n k fit
                  (omega (arith, low, length-digits n (x / 2 ^ lo))))
            (λ k low. omega arith) in
        rw (append-nil (digits n 1), append-nil ys, length-digits n (x / 2 ^ lo)) at filled

some_digit :
    (m : Option QuadValue)
    → is_digit m ≡ true
    → (q : QuadValue) × (m ≡ some q) × (binary_value q ≡ some (entry m))
some_digit none h = cc
some_digit (some low) h = (low, refl, refl)
some_digit (some high) h = (high, refl, refl)
some_digit (some unknown) h = cc
some_digit (some high_impedance) h = cc

entry_small : (m : Option QuadValue) → entry m < 2 ^ 32
entry_small none = omega arith
entry_small (some low) = omega arith
entry_small (some high) = omega arith
entry_small (some unknown) = omega arith
entry_small (some high_impedance) = omega arith

all_four :
    (a b c d : Bool)
    → (a && (b && (c && d))) ≡ true
    → (a ≡ true) × (b ≡ true) × (c ≡ true) × (d ≡ true)
all_four true true true true h = (refl, refl, refl, refl)
all_four true true true false h = cc
all_four true true false d h = cc
all_four true false c d h = cc
all_four false b c d h = cc

at_most : (a : ℕ) → leb a 64 ≡ true → a ≤ 64
at_most a h = ground (arith, h)

lut_bit-word :
    (n : ℕ) (init : QuadValueBitVector) (w x : ℕ)
    → fits (op_lut n init) w x ≡ true
    → lut_bit n init (word w x) ≡ some (word 1 (entry (get init (x % 2 ^ w))))
unfolding lut_bit
lut_bit-word n init w x h =
    let (size, width, low_index, known) =
      all_four (bit_length init == 2 ^ n) (leb w 64) (leb (x % 2 ^ w) 64)
        (is_digit (get init (x % 2 ^ w))) h in
    let (q, there, value) = some_digit (get init (x % 2 ^ w)) known in
    let index =
      ap get_shift_int (sym (word-mod w x))
      ∙ get_shift_int-word w (x % 2 ^ w) (at_most w width) (mod-lt x (two-pow-pos w))
          (at_most (x % 2 ^ w) low_index) in
    let done =
      from_int-word 1 (entry (get init (x % 2 ^ w))) (entry_small (get init (x % 2 ^ w))) in
    rw (size, index)
      (ap (λ m. m >>= λ q. binary_value q >>= from_int 1) there
        ∙ ap (λ b. b >>= from_int 1) value
        ∙ done)

-- On a binary vector of a width that it takes, every operation returns, and its result is that on the
-- number. A slice must lie in the vector, an extension must have the vector's width and not be
-- shorter, and a table must be of 2 ^ n entries, with 0 or 1 at the vector's number, which is at most
-- 64 and in at most 64 digits.
pub unary_op-word :
    (op : UnaryOp) (w x : ℕ)
    → fits op w x ≡ true
    → unary_op op (word w x) ≡ some (unary_meaning op w x)
unfolding unary_op
unary_op-word op_not w x h = (bitwise-word w x 0).3
unary_op-word op_neg w x h = negate-word w x
unary_op-word op_wire w x h = refl
unary_op-word op_andr w x h = andr_bits-word w x
unary_op-word op_orr w x h = orr_bits-word w x
unary_op-word (op_slice lo hi) w x h =
    slice_bits-word w lo hi x (ltb→lt lo hi (ground (arith, h))) (ground (arith, h))
unary_op-word (op_zext width_in width_out) w x h =
    let same : w ≡ width_in = ==→eq w width_in (ground (arith, h)) in
    subst (λ v. zext_bits v width_out (word w x) ≡ some (word width_out (x % 2 ^ w))) same
      (zext_bits-word w width_out x (omega (arith, same, fit w width_in width_out h)))
  where
    fit : (w a b : ℕ) → (w == a && leb a b) ≡ true → a ≤ b
    fit w a b h = ground arith
unary_op-word (op_lut n init) w x h = lut_bit-word n init w x h
