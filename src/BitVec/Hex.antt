-- ===== src/BitVec/Hex.antt =====
-- The texts of vectors: the constructor from a Verilog literal such as "8'h2a", `hex_digits` and
-- `binary_string`.
mod Tests
use coreir.Base.{
  ℕ, zero, suc, ◌+◌, ◌-◌, ◌*◌, ◌/◌, ◌^◌, Bool, true, false, ◌&&◌, ◌||◌, Option, none, some, List,
  [], ◌∷◌, ◌++◌, ◌>>=◌, ◌>>◌, guard, ltb, leb, ◌==◌, if◌then◌else◌, length, for_down, bit_and,
  bit_or,
}
use coreir.Quad.{QuadValue, low, high, unknown, high_impedance, quad_value}
use coreir.BitVec.{QuadValueBitVector, bit_length, zeros, get, set_value, is_digit}

-- The binary text of a digit of the letters or numbers, highest bit first.
abbrev pub hex_digit_to_binary : ℕ → Option (List ℕ)
hex_digit_to_binary c =
    if c == b'0'
    then some (b'0' ∷ b'0' ∷ b'0' ∷ b'0' ∷ [])
    else if c == b'1'
    then some (b'0' ∷ b'0' ∷ b'0' ∷ b'1' ∷ [])
    else if c == b'2'
    then some (b'0' ∷ b'0' ∷ b'1' ∷ b'0' ∷ [])
    else if c == b'3'
    then some (b'0' ∷ b'0' ∷ b'1' ∷ b'1' ∷ [])
    else if c == b'4'
    then some (b'0' ∷ b'1' ∷ b'0' ∷ b'0' ∷ [])
    else if c == b'5'
    then some (b'0' ∷ b'1' ∷ b'0' ∷ b'1' ∷ [])
    else if c == b'6'
    then some (b'0' ∷ b'1' ∷ b'1' ∷ b'0' ∷ [])
    else if c == b'7'
    then some (b'0' ∷ b'1' ∷ b'1' ∷ b'1' ∷ [])
    else if c == b'8'
    then some (b'1' ∷ b'0' ∷ b'0' ∷ b'0' ∷ [])
    else if c == b'9'
    then some (b'1' ∷ b'0' ∷ b'0' ∷ b'1' ∷ [])
    else if c == b'a'
    then some (b'1' ∷ b'0' ∷ b'1' ∷ b'0' ∷ [])
    else if c == b'b'
    then some (b'1' ∷ b'0' ∷ b'1' ∷ b'1' ∷ [])
    else if c == b'c'
    then some (b'1' ∷ b'1' ∷ b'0' ∷ b'0' ∷ [])
    else if c == b'd'
    then some (b'1' ∷ b'1' ∷ b'0' ∷ b'1' ∷ [])
    else if c == b'e'
    then some (b'1' ∷ b'1' ∷ b'1' ∷ b'0' ∷ [])
    else if c == b'f'
    then some (b'1' ∷ b'1' ∷ b'1' ∷ b'1' ∷ [])
    else if c == b'x'
    then some (b'x' ∷ b'x' ∷ b'x' ∷ b'x' ∷ [])
    else if c == b'z'
    then some (b'z' ∷ b'z' ∷ b'z' ∷ b'z' ∷ [])
    else none

-- The text before the quote, which holds digits only, and the text behind it.
unfoldable pub split_size : List ℕ → Option (List ℕ × List ℕ)
split_size [] = none
split_size (c ∷ cs) =
    if c == b'\''
    then some ([], cs)
    else do guard (is_digit c); (size, rest) ← split_size cs; some (c ∷ size, rest)

-- `std::stoi` in base 10 on digits.
unfoldable pub decimal : List ℕ → ℕ → ℕ
decimal [] acc = acc
decimal (c ∷ cs) acc = decimal cs (acc * 10 + (c - b'0'))

unfoldable pub stoi : List ℕ → Option ℕ
unfolding decimal
stoi [] = none
stoi (c ∷ cs) = do guard (ltb (decimal (c ∷ cs) 0) (2 ^ 31)); some (decimal (c ∷ cs) 0)

-- The value that a character of the binary text stands for.
abbrev pub char_value : ℕ → Option QuadValue
char_value c =
    if c == b'1'
    then quad_value 1
    else if c == b'0'
    then quad_value 0
    else if c == b'x'
    then quad_value 2
    else if c == b'z'
    then quad_value 3
    else none

-- The loop over `j`, on the characters from the last to the first. Those past the end of the vector
-- are dropped, and only the others advance `k`.
unfoldable pub set_nibble :
    List ℕ → (bit_ind k : ℕ) → QuadValueBitVector → Option QuadValueBitVector
unfolding set_value
set_nibble [] bit_ind k v = some v
set_nibble (c ∷ cs) bit_ind k v = elim (ltb (bit_ind + k) (bit_length v)) [
  | true ↦ do q ← char_value c; v' ← set_value v (bit_ind + k) q; set_nibble cs bit_ind (suc k) v'
  | false ↦ set_nibble cs bit_ind k v
]

abbrev pub reverse_onto : List ℕ → List ℕ → List ℕ
reverse_onto acc [] = acc
reverse_onto acc (c ∷ cs) = reverse_onto (c ∷ acc) cs

-- The loop over the digits, from the last to the first.
unfoldable pub set_digits : List ℕ → (bit_ind : ℕ) → QuadValueBitVector → Option QuadValueBitVector
unfolding set_nibble
set_digits [] bit_ind v = some v
set_digits (c ∷ cs) bit_ind v = do
  hex_to_binary ← hex_digit_to_binary c
  v' ← set_nibble (reverse_onto [] hex_to_binary) bit_ind 0 v
  set_digits cs (bit_ind + 4) v'

-- `quad_value_bit_vector(str_raw)`: of the formats only `h` passes the assertions.
unfoldable pub from_hex : List ℕ → Option QuadValueBitVector
unfolding split_size stoi set_digits zeros
from_hex str_raw = do
  (bv_size, behind) ← split_size str_raw
  elim behind [
    | [] ↦ none
    | format ∷ digits ↦ do
      guard (format == b'h')
      num_bits ← stoi bv_size
      set_digits (reverse_onto [] digits) 0 (zeros num_bits)
  ]

-- The inner loop of `hex_digits`: the character of the four digits from `i` on. The first digit that
-- is not binary decides it, and those past the end count as 0.
unfoldable pub nibble_char : QuadValueBitVector → (i rounds j bit_l : ℕ) → Option ℕ
unfolding get
nibble_char v i zero j bit_l = some (if ltb 9 bit_l then bit_l + 87 else bit_l + 48)
nibble_char v i (suc k) j bit_l = elim (leb (length v.bits) (i + j)) [
  | true ↦ nibble_char v i k (suc j) bit_l
  | false ↦ do
    q ← get v (i + j)
    elim q [
      | low ↦ nibble_char v i k (suc j) bit_l
      | high ↦ nibble_char v i k (suc j) (bit_or bit_l (2 ^ j))
      | unknown ↦ some b'x'
      | high_impedance ↦ some b'z'
    ]
]

-- The outer loop, `for (i = 0; i < size; i += 4)`: the rounds are the size divided by 4, rounded up.
unfoldable pub nibbles : QuadValueBitVector → (rounds i : ℕ) → Option (List ℕ)
unfolding nibble_char
nibbles v zero i = some []
nibbles v (suc k) i = do c ← nibble_char v i 4 0 0; cs ← nibbles v k (i + 4); some (c ∷ cs)

unfoldable pub hex_digits : QuadValueBitVector → Option (List ℕ)
unfolding nibbles
hex_digits v = do cs ← nibbles v ((length v.bits + 3) / 4) 0; some (reverse_onto [] cs)

-- `binary_string` of a digit and of a vector, the highest digit first.
abbrev pub digit_char : QuadValue → ℕ
digit_char high = b'1'
digit_char low = b'0'
digit_char unknown = b'x'
digit_char high_impedance = b'z'

unfoldable pub binary_string_below : QuadValueBitVector → ℕ → Option (List ℕ)
unfolding get
binary_string_below v zero = some []
binary_string_below v (suc i) = do
  q ← get v i
  str ← binary_string_below v i
  some (digit_char q ∷ str)

unfoldable pub binary_string : QuadValueBitVector → Option (List ℕ)
unfolding binary_string_below
binary_string v = binary_string_below v (bit_length v)
