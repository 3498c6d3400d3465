-- ===== src/BitVec.antt =====
-- Class `quad_value_bit_vector` of include/coreir/ir/dynamic_bit_vector.h: its state, its
-- constructors and its element access. The children define the operations, one group each.
-- An index or a size is an `int` of the source; sizes stay far below 2 ^ 31 and are not wrapped.
pub mod Words
mod Tests
pub mod Fill
pub mod Access
pub mod Logic
pub mod Arith
pub mod Compare
pub mod Shift
pub mod Divide
pub mod Hex
use coreir.Base.{
  ℕ, zero, suc, ◌+◌, ◌-◌, ◌*◌, ◌/◌, ◌%◌, ◌^◌, Bool, true, false, ◌&&◌, ◌||◌, Option, none, some,
  List, [], ◌∷◌, ◌>>=◌, ◌>>◌, guard, ltb, leb, ◌==◌, if◌then◌else◌, length, get_elem?, set,
  replicate, for_up, for_down, bit_and,
}
use coreir.Quad.{QuadValue, low, is_binary, quad_value, binary_value}
use coreir.Quad

-- The fields `bits` and `N`.
pub record QuadValueBitVector : Type 0 where
  pub bits : List QuadValue
  pub n : ℕ

abbrev pub bit_length : QuadValueBitVector → ℕ
bit_length v = v.n

-- `quad_value_bit_vector(N_)`: all bits 0.
unfoldable pub zeros : ℕ → QuadValueBitVector
zeros n = record { bits = replicate n low; n = n }

-- `get`: the assertion is on the size of `bits`.
unfoldable pub get : QuadValueBitVector → ℕ → Option QuadValue
get v i = get_elem? v.bits i

-- `set(ind, quad_value)`
unfoldable pub set_value : QuadValueBitVector → ℕ → QuadValue → Option QuadValueBitVector
set_value v i q = do guard (ltb i (length v.bits)); some (record v { bits = set v.bits i q })

-- `set(ind, int)`
unfoldable pub set_int : QuadValueBitVector → ℕ → ℕ → Option QuadValueBitVector
unfolding set_value
set_int v i k = do q ← quad_value k; set_value v i q

-- The body of a loop that writes `src i` at index `dst i`.
abbrev pub fill_step :
    (ℕ → ℕ) → (ℕ → Option QuadValue) → ℕ → QuadValueBitVector → Option QuadValueBitVector
fill_step dst src i v = do q ← src i; set_value v (dst i) q

-- `quad_value_bit_vector(N_, val)`; `val` is given by its 32-bit pattern.
unfoldable pub from_int : ℕ → ℕ → Option QuadValueBitVector
unfolding for_up zeros set_value
from_int n val =
    for_up (fill_step (λ i. i) (λ i. quad_value (if ltb i 32 then bit_and (val / 2 ^ i) 1 else 0)))
      n 0 (zeros n)

-- A loop that returns early from a search over the indices below a bound.
unfoldable pub all_up : (ℕ → Option Bool) → (rounds start : ℕ) → Option Bool
all_up test zero i = some true
all_up test (suc k) i = do b ← test i; elim b [ true ↦ all_up test k (suc i) | false ↦ some false ]

-- Method `is_binary`.
unfoldable pub is_binary_vector : QuadValueBitVector → Option Bool
unfolding all_up get
is_binary_vector v = all_up (λ i. do q ← get v i; some (is_binary q)) (bit_length v) 0

-- Method `equals`, and operator== on vectors.
unfoldable pub equals : QuadValueBitVector → QuadValueBitVector → Option Bool
unfolding all_up get
equals a b =
    if bit_length b == bit_length a
    then all_up (λ i. do p ← get a i; q ← get b i; Quad.eq p q) (bit_length a) 0
    else some false

-- operator!= on vectors
unfoldable pub not_equals : QuadValueBitVector → QuadValueBitVector → Option Bool
unfolding equals
not_equals a b = do e ← equals a b; some (if e then false else true)

-- Function `same_representation`.
unfoldable pub same_representation : QuadValueBitVector → QuadValueBitVector → Option Bool
unfolding all_up get
same_representation a b =
    if bit_length a == bit_length b
    then all_up (λ i. do p ← get a i; q ← get b i; some (Quad.same_representation p q))
        (bit_length a) 0
    else some false

-- Template `to_type`, into an unsigned type of `w` bits: the loop keeps `tmp` and `exp`.
abbrev pub to_type_step : ℕ → QuadValueBitVector → ℕ → ℕ × ℕ → Option (ℕ × ℕ)
to_type_step w v i (tmp, exp) = do
  q ← get_elem? v.bits i
  b ← binary_value q
  some ((tmp + exp * b) % 2 ^ w, exp * 2 % 2 ^ w)

unfoldable pub to_type : ℕ → QuadValueBitVector → Option ℕ
unfolding for_up
to_type w v = do (tmp, exp) ← for_up (to_type_step w v) (bit_length v) 0 (0, 1); some tmp

-- `quad_value_bit_vector(N_, str_raw)`: underscores are dropped, and digits are counted.
abbrev pub is_digit : ℕ → Bool
is_digit c = leb b'0' c && leb c b'9'

unfoldable pub strip_underscores : List ℕ → Option (List ℕ × ℕ)
strip_underscores [] = some ([], 0)
strip_underscores (c ∷ cs) = do
  (str, num_digits) ← strip_underscores cs
  if is_digit c
      then some (c ∷ str, num_digits + 1)
      else if (c == b'z') || (c == b'x')
      then some (c ∷ str, num_digits)
      else (guard (c == b'_') >> some (str, num_digits))

abbrev pub digit_value : ℕ → ℕ
digit_value c = if c == b'z' then 3 else if c == b'x' then 2 else if c == b'0' then 0 else 1

-- The body of the loop over the characters, which stand from the highest bit to the lowest.
abbrev pub from_string_step : List ℕ → ℕ → QuadValueBitVector → Option QuadValueBitVector
from_string_step str i v = do c ← get_elem? str i; set_int v (length str - i - 1) (digit_value c)

unfoldable pub from_string : ℕ → List ℕ → Option QuadValueBitVector
unfolding for_down zeros set_int strip_underscores
from_string n str_raw = do
  (str, num_digits) ← strip_underscores str_raw
  guard (leb num_digits n)
  v ← for_down (from_string_step str) (length str) 0 (zeros n)
  for_down (λ i w. set_int w i 0) (n - length str) (length str) v

-- `unknown_bv`: every digit is 'x'.
unfoldable pub unknown_bv : ℕ → Option QuadValueBitVector
unfolding from_string
unknown_bv len = from_string len (replicate len b'x')

-- Function `highBit`: reads index -1, out of bounds, when there are no bits.
unfoldable pub high_bit : QuadValueBitVector → Option QuadValue
unfolding get
high_bit v = elim (bit_length v) [ zero ↦ none | suc k ↦ get v k ]
