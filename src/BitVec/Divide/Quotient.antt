-- ===== src/BitVec/Divide/Quotient.antt =====
-- `unsigned_divide` computes the quotient of the numbers, and all ones for a zero divisor.
use native.Mathlib.Nat.{mod-lt, mod-eq_of_lt, zero-add, div-eq_of_lt}
use native.Mathlib.Nat.{add-mul-div_left, add-mul-mod_self_left}
use native.Mathlib.Decide.{dec_le}
use coreir.Base.{
  ap₂, for_down_round, ℕ, zero, suc, ◌+◌, ◌-◌, ◌*◌, ◌/◌, ◌%◌, ◌^◌, ◌≤◌, ◌<◌, ◌≡◌, sym, ap, ◌∙◌,
  ◌>>=◌, >>=_assoc, true, false, Option, some, ◌∷◌, ◌++◌, leb, ltb, ◌==◌, if◌then◌else◌, le→leb,
  lt→leb_false, replicate, length-replicate, for_down, arith,
}
use coreir.Base.Pow.{two-pow-pos, two-pow-suc, two-pow_mono, lt-two-pow, two-pow_add}
use coreir.Quad.{low, high}
use coreir.BitVec.{QuadValueBitVector, from_int, equals, set_value}
use coreir.BitVec.Words.{digits, word, digits-mul_pow}
use coreir.BitVec.Fill.{set_value_here}
use coreir.BitVec.Access.{from_int-word, equals-word, ==_refl}
use coreir.BitVec.Arith.Sub.{sub-word_add}
use coreir.BitVec.Arith.{sub_general_width_bv}
use coreir.BitVec.Compare.{lt, or_else}
use coreir.BitVec.Shift.{shl}
use coreir.BitVec.Compare.Order.{lt-word}
use coreir.BitVec.Shift.Amounts.{shl-word}
use coreir.BitVec.Shift.Widths.{zero_extend-word}
use coreir.BitVec.Divide.{divide_step, unsigned_divide}

-- Digit `i`, which is still 0 in the quotient, is set.
set_digit :
    (w i q : ℕ)
    → i < w
    → set_value (word w (2 * q * 2 ^ i)) i high ≡ some (word w ((2 * q + 1) * 2 ^ i))
set_digit w i q h =
    let m = w - suc i in
    let e : w ≡ i + suc m = omega arith in
    let even : 2 * q % 2 ≡ 0 = omega arith in
    let odd : (2 * q + 1) % 2 ≡ 1 = omega arith in
    let half : (2 * q + 1) / 2 ≡ 2 * q / 2 = omega arith in
    let before : digits w (2 * q * 2 ^ i) ≡ replicate i low ++ low ∷ digits m (2 * q / 2) =
      ap (λ t. digits t (2 * q * 2 ^ i)) e ∙ rw (digits-mul_pow, even) in
    let after : digits w ((2 * q + 1) * 2 ^ i) ≡ replicate i low ++ high ∷ digits m (2 * q / 2) =
      ap (λ t. digits t ((2 * q + 1) * 2 ^ i)) e ∙ rw (digits-mul_pow, odd, half) in
    rw (before, after)
      (set_value_here (replicate i low) low (digits m (2 * q / 2)) w i high
        (sym (length-replicate i low)))

mul-lt : (b m p q : ℕ) → b < m → 0 < p → p ≤ q → b * p < m * q
mul-lt b m p q h pos g = grind arith

-- A divisor below 2 ^ w, shifted by less than w, fits in twice the width.
shifted_fits : (w i b : ℕ) → i < w → b < 2 ^ w → b * 2 ^ i < 2 ^ (2 * w)
shifted_fits w i b h hb =
    let e : 2 * w ≡ w + w = omega arith in
    rw (e, two-pow_add)
      (mul-lt b (2 ^ w) (2 ^ i) (2 ^ w) hb (two-pow-pos i) (two-pow_mono i w (omega arith)))

fits_tests : (a b : ℕ) → (if ltb a b then some true else some (a == b)) ≡ some (leb a b)
fits_tests a b = ground arith

module _ (w i b r : ℕ) (hw : w ≤ 64) (hi : i < w) (hb : b < 2 ^ w) (hr : r < 2 ^ (2 * w)) where
  abbrev part : ℕ
  part = b * 2 ^ i

  shift_amount : (from_int w i >>= λ n. shl (word (2 * w) b) n) ≡ some (word (2 * w) part)
  shift_amount =
      let small : i < 2 ^ w = omega (arith, lt-two-pow i, two-pow_mono i w (omega arith)) in
      rw (from_int-word w i (omega arith)) (shl-word (2 * w) w b i hw small (omega arith))

  fits :
      or_else
        (lt (word (2 * w) part) (word (2 * w) r))
        (equals (word (2 * w) part) (word (2 * w) r))
      ≡ some (leb part r)
  fits =
      rw
        (
          lt-word (2 * w) part r,
          equals-word (2 * w) part r,
          mod-eq_of_lt (shifted_fits w i b hi hb),
          mod-eq_of_lt hr,
        )
        (fits_tests part r)

  abbrev after_shift :
      QuadValueBitVector → QuadValueBitVector → Option (QuadValueBitVector × QuadValueBitVector)
  after_shift quotient shifted_b = do
    t ← or_else (lt shifted_b (word (2 * w) r)) (equals shifted_b (word (2 * w) r))
    elim t [
      | true ↦ do
        quotient' ← set_value quotient i high
        rest ← sub_general_width_bv (word (2 * w) r) shifted_b
        some (quotient', rest)
      | false ↦ some (quotient, word (2 * w) r)
    ]

  step_shifted :
      (quotient : QuadValueBitVector)
      → divide_step (word (2 * w) b) w i (quotient, word (2 * w) r)
        ≡ after_shift quotient (word (2 * w) part)
  step_shifted quotient =
      sym (>>=_assoc (from_int w i) (λ n. shl (word (2 * w) b) n) (after_shift quotient))
      ∙ ap (λ m. m >>= after_shift quotient) shift_amount

  subtracts :
      (quotient : QuadValueBitVector)
      → part ≤ r
      → divide_step (word (2 * w) b) w i (quotient, word (2 * w) r)
        ≡ (set_value quotient i high >>= λ q. some (q, word (2 * w) (r - part)))
  subtracts quotient h =
      let e : r ≡ r - part + part = omega arith in
      let rest : sub_general_width_bv (word (2 * w) r) (word (2 * w) part)
          ≡ some (word (2 * w) (r - part)) =
        ap (λ t. sub_general_width_bv (word (2 * w) t) (word (2 * w) part)) e
        ∙ sub-word_add (2 * w) (r - part) part in
      step_shifted quotient ∙ rw (fits, le→leb part r h, rest)

  keeps :
      (quotient : QuadValueBitVector)
      → r < part
      → divide_step (word (2 * w) b) w i (quotient, word (2 * w) r)
        ≡ some (quotient, word (2 * w) r)
  keeps quotient h = step_shifted quotient ∙ rw (fits, lt→leb_false part r h)

-- A remainder in a loop with `k` rounds left stays in range.
remainder_fits : (w k b r : ℕ) → k ≤ w → b < 2 ^ w → r < b * 2 ^ k → r < 2 ^ (2 * w)
remainder_fits w k b r h hb hr =
    let e : 2 * w ≡ w + w = omega arith in
    rw (e, two-pow_add)
      (omega (arith, mul-lt b (2 ^ w) (2 ^ k) (2 ^ w) hb (two-pow-pos k) (two-pow_mono k w h)))

-- A multiple of the divisor moves from the remainder to the quotient.
quotient_step :
    (b p r : ℕ) → 0 < b → b * p ≤ r → (r / b ≡ (r - b * p) / b + p) × (r % b ≡ (r - b * p) % b)
quotient_step b p r pos h =
    let e : r ≡ r - b * p + b * p = omega arith in
    (
      ap (λ (t : ℕ). t / b) e ∙ add-mul-div_left (r - b * p) p pos,
      ap (λ (t : ℕ). t % b) e ∙ add-mul-mod_self_left (r - b * p) b p,
    )

module _ (w b : ℕ) (hw : w ≤ 64) (hb : b < 2 ^ w) (pos : 0 < b) where
  divide_loop :
      (k q r : ℕ)
      → k ≤ w
      → r < b * 2 ^ k
      → for_down (divide_step (word (2 * w) b) w) k 0 (word w (q * 2 ^ k), word (2 * w) r)
        ≡ some (word w (q * 2 ^ k + r / b), word (2 * w) (r % b))
  unfolding for_down
  divide_loop zero q r h hr =
      let small : r < b = omega arith in
      let e : q * 1 + 0 ≡ q * 1 = omega arith in rw (div-eq_of_lt small, mod-eq_of_lt small, e)
  divide_loop (suc k) q r h hr =
      let r_fits = remainder_fits w (suc k) b r h hb hr in
      let doubled : b * 2 ^ suc k ≡ b * 2 ^ k + b * 2 ^ k =
        omega (arith, ap (λ (t : ℕ). b * t) (two-pow-suc k)) in
      let q_even : q * 2 ^ suc k ≡ 2 * q * 2 ^ k =
        omega (arith, ap (λ (t : ℕ). q * t) (two-pow-suc k)) in
      let body = divide_step (word (2 * w) b) w in
      let at_round =
        ap₂ (λ (i z : ℕ). divide_step (word (2 * w) b) w i (word w z, word (2 * w) r)) (zero-add k)
          q_even in
      elim (dec_le (b * 2 ^ k) r) [
        | yes le ↦
            let r' = r - b * 2 ^ k in
            let (quotient_e, rem_e) = quotient_step b (2 ^ k) r pos le in
            let sum : (2 * q + 1) * 2 ^ k + r' / b ≡ q * 2 ^ suc k + r / b = omega arith in
            let taken = subtracts w k b r hw h hb r_fits (word w (2 * q * 2 ^ k)) le in
            for_down_round body k 0 _ (word w ((2 * q + 1) * 2 ^ k), word (2 * w) r')
              (at_round ∙ rw (set_digit w k q h) at taken)
              (rw (sum, ← rem_e) at (divide_loop k (2 * q + 1) r' (omega arith) (omega arith)))
        | no gt ↦
            let kept = keeps w k b r hw h hb r_fits (word w (2 * q * 2 ^ k)) (omega arith) in
            for_down_round body k 0 _ (word w (2 * q * 2 ^ k), word (2 * w) r) (at_round ∙ kept)
              (divide_loop k (2 * q) r (omega arith) (omega arith)
                ∙ ap (λ (z : ℕ). some (word w (z + r / b), word (2 * w) (r % b))) (sym q_even))
      ]

wide_enough : (a b p : ℕ) → a < p → 0 < b → a < b * p
wide_enough a b p h pos = grind arith

-- For all widths up to 64 and values with a divisor that is not 0: the quotient of the numbers.
pub unsigned_divide-word :
    (w x y : ℕ)
    → w ≤ 64
    → 0 < y % 2 ^ w
    → unsigned_divide (word w x) (word w y) ≡ some (word w (x % 2 ^ w / (y % 2 ^ w)))
unfolding unsigned_divide
unsigned_divide-word w x y hw pos =
    let a = x % 2 ^ w in
    let b = y % 2 ^ w in
    let loop =
      divide_loop w b hw (mod-lt y (two-pow-pos w)) pos w 0 a (omega arith)
        (wide_enough a b (2 ^ w) (mod-lt x (two-pow-pos w)) pos) in
    let nothing : 0 * 2 ^ w ≡ 0 = omega arith in
    rw
      (
        ==_refl w,
        zero_extend-word w (2 * w) x (omega arith),
        zero_extend-word w (2 * w) y (omega arith),
        from_int-word w 0 (omega arith),
      )
      (ap (λ m. m >>= λ (s : QuadValueBitVector × QuadValueBitVector). some s.0)
        (rw (nothing, zero-add (a / b)) at loop))

-- A zero divisor is subtracted in every round, and every digit of the quotient is set.
divide_zero_loop :
    (w k q r : ℕ)
    → w ≤ 64
    → k ≤ w
    → r < 2 ^ (2 * w)
    → for_down (divide_step (word (2 * w) 0) w) k 0 (word w (q * 2 ^ k), word (2 * w) r)
      ≡ some (word w (q * 2 ^ k + (2 ^ k - 1)), word (2 * w) r)
divide_zero_loop w zero q r hw h hr =
    let e : q * 1 + 0 ≡ q * 1 = omega arith in unfold for_down in rw e
divide_zero_loop w (suc k) q r hw h hr =
    let q_even : q * 2 ^ suc k ≡ 2 * q * 2 ^ k =
      omega (arith, ap (λ (t : ℕ). q * t) (two-pow-suc k)) in
    let body = divide_step (word (2 * w) 0) w in
    let at_round =
      ap₂ (λ (i z : ℕ). divide_step (word (2 * w) 0) w i (word w z, word (2 * w) r)) (zero-add k)
        q_even in
    let taken = subtracts w k 0 r hw h (two-pow-pos w) hr (word w (2 * q * 2 ^ k)) (omega arith) in
    let whole : r - 0 * 2 ^ k ≡ r = omega arith in
    let sum : (2 * q + 1) * 2 ^ k + (2 ^ k - 1) ≡ q * 2 ^ suc k + (2 ^ suc k - 1) =
      omega (arith, two-pow-suc k, two-pow-pos k, q_even) in
    for_down_round body k 0 _ (word w ((2 * q + 1) * 2 ^ k), word (2 * w) r)
      (at_round ∙ rw (set_digit w k q h, whole) at taken)
      (divide_zero_loop w k (2 * q + 1) r hw (omega arith) hr
        ∙ ap (λ (z : ℕ). some (word w z, word (2 * w) r)) sum)

-- For all widths up to 64: division by zero gives all ones.
pub unsigned_divide_zero :
    (w x y : ℕ)
    → w ≤ 64
    → y % 2 ^ w ≡ 0
    → unsigned_divide (word w x) (word w y) ≡ some (word w (2 ^ w - 1))
unfolding unsigned_divide
unsigned_divide_zero w x y hw h =
    let fits : x % 2 ^ w < 2 ^ (2 * w) =
      omega (arith, mod-lt x (two-pow-pos w), two-pow_mono w (2 * w) (omega arith)) in
    let loop = divide_zero_loop w w 0 (x % 2 ^ w) hw (omega arith) fits in
    let nothing : 0 * 2 ^ w ≡ 0 = omega arith in
    rw
      (
        ==_refl w,
        zero_extend-word w (2 * w) x (omega arith),
        zero_extend-word w (2 * w) y (omega arith),
        from_int-word w 0 (omega arith),
        h,
      )
      (ap (λ m. m >>= λ (s : QuadValueBitVector × QuadValueBitVector). some s.0)
        (rw (nothing, zero-add (2 ^ w - 1)) at loop))
