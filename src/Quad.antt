-- ===== src/Quad.antt =====
-- The four-valued digits of include/coreir/ir/dynamic_bit_vector.h: class `quad_value` and the
-- operators on it. A failed `assert` is `none`.
use coreir.Base.{
  ℕ, zero, suc, ◌+◌, ◌-◌, ◌^◌, Bool, true, false, not, ◌&&◌, ◌||◌, Option, none, some, bit_and,
  bit_or, bit_xor, ◌>>=◌, ◌>>◌, guard, ltb, ◌==◌, if◌then◌else◌,
}

-- The values 0, 1, QBV_UNKNOWN_VALUE and QBV_HIGH_IMPEDANCE_VALUE of the field `value`.
pub data QuadValue : Type 0 where
  low high unknown high_impedance : QuadValue

-- The constructor from a char, with its assertion.
abbrev pub quad_value : ℕ → Option QuadValue
quad_value zero = some low
quad_value (suc zero) = some high
quad_value (suc (suc zero)) = some unknown
quad_value (suc (suc (suc zero))) = some high_impedance
quad_value (suc (suc (suc (suc n)))) = none

abbrev pub get_char : QuadValue → ℕ
get_char low = 0
get_char high = 1
get_char unknown = 2
get_char high_impedance = 3

unfoldable pub same_representation : QuadValue → QuadValue → Bool
same_representation a b = get_char a == get_char b

abbrev pub is_binary : QuadValue → Bool
is_binary low = true
is_binary high = true
is_binary _ = false

abbrev pub is_unknown : QuadValue → Bool
is_unknown unknown = true
is_unknown _ = false

abbrev pub is_high_impedance : QuadValue → Bool
is_high_impedance high_impedance = true
is_high_impedance _ = false

abbrev pub binary_value : QuadValue → Option ℕ
binary_value low = some 0
binary_value high = some 1
binary_value _ = none

unfoldable pub plus : QuadValue → QuadValue → Option QuadValue
plus a b = do
  guard (is_binary b)
  guard (is_binary a)
  y ← binary_value b
  x ← binary_value a
  quad_value (bit_and (y + x) 1)

-- Method `equals`: an unknown digit equals nothing.
unfoldable pub equals : QuadValue → QuadValue → Bool
equals a b = if is_unknown a || is_unknown b then false else get_char a == get_char b

-- `binary_string`, as the code of its one character.
abbrev pub binary_string : QuadValue → ℕ
binary_string high = b'1'
binary_string low = b'0'
binary_string unknown = b'x'
binary_string high_impedance = b'z'

-- The operands of every operator below must not be high impedance.
abbrev driven : QuadValue → QuadValue → Option (Unit {0})
driven a b = do guard (not (is_high_impedance a)); guard (not (is_high_impedance b))

-- operator+
unfoldable pub add : QuadValue → QuadValue → Option QuadValue
unfolding plus
add a b = driven a b >> plus a b

-- operator&
unfoldable pub land : QuadValue → QuadValue → Option QuadValue
land a b =
    driven a b
    >> (if is_binary a && (get_char a == 0)
        then some low
        else if is_binary b && (get_char b == 0)
        then some low
        else if is_unknown a || is_unknown b
        then some unknown
        else do x ← binary_value a; y ← binary_value b; quad_value (bit_and x y))

-- operator|
unfoldable pub lor : QuadValue → QuadValue → Option QuadValue
lor a b =
    driven a b
    >> (if is_binary a && (get_char a == 1)
        then some high
        else if is_binary b && (get_char b == 1)
        then some high
        else if is_unknown a || is_unknown b
        then some unknown
        else do x ← binary_value a; y ← binary_value b; quad_value (bit_or x y))

-- operator^
unfoldable pub lxor : QuadValue → QuadValue → Option QuadValue
lxor a b =
    driven a b
    >> (if is_unknown a || is_unknown b
        then some unknown
        else do x ← binary_value a; y ← binary_value b; quad_value (bit_xor x y))

-- operator>
unfoldable pub gt : QuadValue → QuadValue → Option Bool
gt a b = driven a b >> (do x ← binary_value a; y ← binary_value b; some (ltb y x))

-- operator<
unfoldable pub lt : QuadValue → QuadValue → Option Bool
lt a b = driven a b >> (do x ← binary_value a; y ← binary_value b; some (ltb x y))

-- operator~
unfoldable pub lnot : QuadValue → Option QuadValue
lnot a =
    guard (not (is_high_impedance a))
    >> (if is_unknown a
        then some unknown
        else do x ← binary_value a; quad_value (bit_and (2 ^ 32 - 1 - x) 1))

-- operator==
unfoldable pub eq : QuadValue → QuadValue → Option Bool
unfolding equals
eq a b = driven a b >> some (equals a b)

-- operator!=
unfoldable pub ne : QuadValue → QuadValue → Option Bool
unfolding eq
ne a b = driven a b >> (do e ← eq a b; some (not e))
