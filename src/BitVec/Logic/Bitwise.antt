-- ===== src/BitVec/Logic/Bitwise.antt =====
-- The bitwise operations on binary vectors are those on the numbers.
use Prim.Native.Nat.{min, max, differ}
use native.Mathlib.Nat.{mod-lt}
use coreir.Base.{
  ℕ, zero, suc, ◌+◌, ◌-◌, ◌*◌, ◌/◌, ◌%◌, ◌^◌, ◌<◌, ◌≡◌, refl, ◌>>=◌, Option, some, get_elem?,
  bit_and, bit_or, bit_xor, arith,
}
use coreir.Base.Bits.{bit_and_step, bit_or_step, bit_xor_step}
use coreir.Base.Pow.{two-pow-suc, two-pow-pos, mod-two-pow-suc}
use coreir.Quad.{QuadValue}
use coreir.Quad
use coreir.BitVec.{get}
use coreir.BitVec.Words.{bit, digits, word, length-digits}
use coreir.BitVec.Fill.{fill_zeros}
use coreir.BitVec.Logic.{bitwise_loop, land, lor, lxor, lnot}

-- An operator on digits that computes a function of numbers digit by digit.
module _ (op : QuadValue → QuadValue → Option QuadValue) (f : ℕ → ℕ → ℕ)
    (digit : (x y : ℕ) → op (bit (x % 2)) (bit (y % 2)) ≡ some (bit (f x y % 2)))
    (half : (x y : ℕ) → f x y / 2 ≡ f (x / 2) (y / 2)) where
  digit_at :
      (w x y k : ℕ)
      → k < w
      → (get_elem? (digits w x) k >>= λ p. get_elem? (digits w y) k >>= λ q. op p q)
        ≡ get_elem? (digits w (f x y)) k
  digit_at zero x y k h = absurd (omega arith)
  digit_at (suc w) x y zero h = digit x y
  digit_at (suc w) x y (suc k) h = rw (half x y) (digit_at w (x / 2) (y / 2) k (omega arith))

  bitwise_loop-word : (w x y : ℕ) → bitwise_loop op (word w x) (word w y) ≡ some (word w (f x y))
  bitwise_loop-word w x y =
      fill_zeros _ (digits w (f x y)) w (length-digits w (f x y))
        (λ k h. unfold get in digit_at w x y k h)

differ_bit : (m o : ℕ) → m < 2 → o < 2 → differ m o < 2
differ_bit zero o hm ho = ho
differ_bit (suc zero) zero hm ho = omega arith
differ_bit (suc zero) (suc zero) hm ho = omega arith
differ_bit (suc (suc m)) o hm ho = absurd (omega arith)
differ_bit (suc zero) (suc (suc o)) hm ho = absurd (omega arith)

and_table : (m o : ℕ) → m < 2 → o < 2 → Quad.land (bit m) (bit o) ≡ some (bit (min m o))
unfolding Quad.land
and_table zero zero hm ho = refl
and_table zero (suc zero) hm ho = refl
and_table (suc zero) zero hm ho = refl
and_table (suc zero) (suc zero) hm ho = refl
and_table (suc (suc m)) o hm ho = absurd (omega arith)
and_table m (suc (suc o)) hm ho = absurd (omega arith)

and_digit : (x y : ℕ) → Quad.land (bit (x % 2)) (bit (y % 2)) ≡ some (bit (bit_and x y % 2))
and_digit x y =
    let low_digit : bit_and x y % 2 ≡ min (x % 2) (y % 2) = omega (arith, bit_and_step x y) in
    rw low_digit (and_table (x % 2) (y % 2) (omega arith) (omega arith))

and_half : (x y : ℕ) → bit_and x y / 2 ≡ bit_and (x / 2) (y / 2)
and_half x y = omega (arith, bit_and_step x y)

land-word : (w x y : ℕ) → land (word w x) (word w y) ≡ some (word w (bit_and x y))
unfolding land
land-word = bitwise_loop-word Quad.land bit_and and_digit and_half

or_table : (m o : ℕ) → m < 2 → o < 2 → Quad.lor (bit m) (bit o) ≡ some (bit (max m o))
unfolding Quad.lor
or_table zero zero hm ho = refl
or_table zero (suc zero) hm ho = refl
or_table (suc zero) zero hm ho = refl
or_table (suc zero) (suc zero) hm ho = refl
or_table (suc (suc m)) o hm ho = absurd (omega arith)
or_table m (suc (suc o)) hm ho = absurd (omega arith)

or_digit : (x y : ℕ) → Quad.lor (bit (x % 2)) (bit (y % 2)) ≡ some (bit (bit_or x y % 2))
or_digit x y =
    let low_digit : bit_or x y % 2 ≡ max (x % 2) (y % 2) = omega (arith, bit_or_step x y) in
    rw low_digit (or_table (x % 2) (y % 2) (omega arith) (omega arith))

or_half : (x y : ℕ) → bit_or x y / 2 ≡ bit_or (x / 2) (y / 2)
or_half x y = omega (arith, bit_or_step x y)

lor-word : (w x y : ℕ) → lor (word w x) (word w y) ≡ some (word w (bit_or x y))
unfolding lor
lor-word = bitwise_loop-word Quad.lor bit_or or_digit or_half

xor_table : (m o : ℕ) → m < 2 → o < 2 → Quad.lxor (bit m) (bit o) ≡ some (bit (differ m o))
unfolding Quad.lxor
xor_table zero zero hm ho = refl
xor_table zero (suc zero) hm ho = refl
xor_table (suc zero) zero hm ho = refl
xor_table (suc zero) (suc zero) hm ho = refl
xor_table (suc (suc m)) o hm ho = absurd (omega arith)
xor_table m (suc (suc o)) hm ho = absurd (omega arith)

xor_digit : (x y : ℕ) → Quad.lxor (bit (x % 2)) (bit (y % 2)) ≡ some (bit (bit_xor x y % 2))
xor_digit x y =
    let low_digit : bit_xor x y % 2 ≡ differ (x % 2) (y % 2) =
      omega (arith, bit_xor_step x y, differ_bit (x % 2) (y % 2) (omega arith) (omega arith)) in
    rw low_digit (xor_table (x % 2) (y % 2) (omega arith) (omega arith))

xor_half : (x y : ℕ) → bit_xor x y / 2 ≡ bit_xor (x / 2) (y / 2)
xor_half x y =
    omega (arith, bit_xor_step x y, differ_bit (x % 2) (y % 2) (omega arith) (omega arith))

lxor-word : (w x y : ℕ) → lxor (word w x) (word w y) ≡ some (word w (bit_xor x y))
unfolding lxor
lxor-word = bitwise_loop-word Quad.lxor bit_xor xor_digit xor_half

not_table : (m : ℕ) → m < 2 → Quad.lnot (bit m) ≡ some (bit (1 - m))
unfolding Quad.lnot
not_table zero h = refl
not_table (suc zero) h = refl
not_table (suc (suc m)) h = absurd (omega arith)

-- The complement of the lowest `w` digits.
abbrev pub complement : ℕ → ℕ → ℕ
complement w x = 2 ^ w - 1 - x % 2 ^ w

complement-suc : (w x : ℕ) → complement (suc w) x ≡ complement w (x / 2) * 2 + (1 - x % 2)
complement-suc w x =
    omega (arith, mod-two-pow-suc x w, two-pow-suc w, mod-lt (x / 2) (two-pow-pos w))

not_at :
    (w x k : ℕ)
    → k < w
    → (get_elem? (digits w x) k >>= λ p. Quad.lnot p) ≡ get_elem? (digits w (complement w x)) k
not_at zero x k h = absurd (omega arith)
not_at (suc w) x zero h =
    let e : complement (suc w) x % 2 ≡ 1 - x % 2 = omega (arith, complement-suc w x) in
    rw e (not_table (x % 2) (omega arith))
not_at (suc w) x (suc k) h =
    let e : complement (suc w) x / 2 ≡ complement w (x / 2) = omega (arith, complement-suc w x) in
    rw e (not_at w (x / 2) k (omega arith))

lnot-word : (w x : ℕ) → lnot (word w x) ≡ some (word w (2 ^ w - 1 - x % 2 ^ w))
unfolding lnot
lnot-word w x =
    fill_zeros _ (digits w (complement w x)) w (length-digits w (complement w x))
      (λ k h. unfold get in not_at w x k h)

-- For all widths and values: `land`, `lor` and `lxor` are the bitwise operations on the numbers, and
-- `lnot` is the complement to 2 ^ w - 1.
pub bitwise-word :
    (w x y : ℕ)
    → (land (word w x) (word w y) ≡ some (word w (bit_and x y)))
      × (lor (word w x) (word w y) ≡ some (word w (bit_or x y)))
      × (lxor (word w x) (word w y) ≡ some (word w (bit_xor x y)))
      × (lnot (word w x) ≡ some (word w (2 ^ w - 1 - x % 2 ^ w)))
bitwise-word w x y = (land-word w x y, lor-word w x y, lxor-word w x y, lnot-word w x)
