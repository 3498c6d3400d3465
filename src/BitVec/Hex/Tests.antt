-- ===== src/BitVec/Hex/Tests.antt =====
-- Texts of vectors read and printed.
use coreir.Base.{ℕ, ◌≡◌, refl, some, List, [], ◌∷◌, ◌>>=◌}
use coreir.Quad.{low, high, unknown, high_impedance}
use coreir.BitVec.{QuadValueBitVector, from_string}
use coreir.BitVec.Words.{word}
use coreir.BitVec.Hex.{from_hex, hex_digits, binary_string}

abbrev literal_6h2a : List ℕ
literal_6h2a = b'6' ∷ b'\'' ∷ b'h' ∷ b'2' ∷ b'a' ∷ []

read_literal : from_hex literal_6h2a ≡ some (word 6 42)
unfolding from_hex
read_literal = refl

printed : hex_digits (word 6 42) ≡ some (b'2' ∷ b'a' ∷ [])
unfolding hex_digits
printed = refl

abbrev mixed_digits : QuadValueBitVector
mixed_digits = record { bits = low ∷ high ∷ unknown ∷ high_impedance ∷ []; n = 4 }

printed_in_binary : binary_string mixed_digits ≡ some (b'z' ∷ b'x' ∷ b'1' ∷ b'0' ∷ [])
unfolding binary_string
printed_in_binary = refl

read_back : (binary_string mixed_digits >>= from_string 4) ≡ some mixed_digits
unfolding binary_string from_string
read_back = refl
