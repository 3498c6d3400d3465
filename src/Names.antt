-- ===== src/Names.antt =====
-- Names and selects as byte strings: src/ir/common.cpp, and the parts of the standard library's
-- `std::stoi` that it relies on.
pub mod Equal
use coreir.Base.{
  ℕ, zero, suc, ◌+◌, ◌-◌, ◌*◌, ◌^◌, Bool, true, false, ◌&&◌, ◌||◌, Option, none, some, List, [],
  ◌∷◌, ◌>>=◌, ◌>>◌, guard, ltb, leb, ◌==◌, if◌then◌else◌, drop, bit_and,
}

abbrev pub Name : Type 0
Name = List ℕ

-- Equality of `std::string`.
abbrev pub name_eq : Name → Name → Bool
name_eq [] [] = true
name_eq (c ∷ s) (d ∷ t) = (c == d) && name_eq s t
name_eq _ _ = false

-- The order of `std::string`.
abbrev pub name_lt : Name → Name → Bool
name_lt s [] = false
name_lt [] (d ∷ t) = true
name_lt (c ∷ s) (d ∷ t) = ltb c d || ((c == d) && name_lt s t)

abbrev pub is_digit : ℕ → Bool
is_digit c = leb b'0' c && leb c b'9'

abbrev pub all_digits : Name → Bool
all_digits [] = true
all_digits (c ∷ s) = is_digit c && all_digits s

-- `isNumber`
abbrev pub is_number : Name → Bool
is_number [] = false
is_number (c ∷ s) = all_digits (c ∷ s)

-- The text before and behind the first colon.
abbrev pub split_colon : Name → Option (Name × Name)
split_colon [] = none
split_colon (c ∷ s) =
    if c == b':' then some ([], s) else split_colon s >>= λ (p : Name × Name). some (c ∷ p.0, p.1)

-- `isSlice`
unfoldable pub is_slice : Name → Bool
is_slice s = elim (split_colon s) [ none ↦ false | some (l, r) ↦ is_number l && is_number r ]

-- `std::stoi` in base 0 on a text that begins with a digit: the value of the longest prefix of
-- digits and its length. A leading 0 means octal digits; other texts and values above the largest
-- `int` throw, `none`. (Signs, spaces and `0x` do not pass `isNumber` and `isSlice`.)
abbrev pub prefix_value : (base : ℕ) → Name → (acc used : ℕ) → ℕ × ℕ
prefix_value base [] acc used = (acc, used)
prefix_value base (c ∷ s) acc used =
    if leb b'0' c && ltb c (b'0' + base)
    then prefix_value base s (acc * base + (c - b'0')) (used + 1)
    else (acc, used)

unfoldable pub stoi : Name → Option (ℕ × ℕ)
stoi [] = none
stoi (c ∷ s) = do
  guard (is_digit c)
  let r = prefix_value (if c == b'0' then 8 else 10) (c ∷ s) 0 0
  guard (ltb r.0 (2 ^ 31))
  some r

-- `parseSlice`: the second number begins one place behind the last digit that was used.
unfoldable pub parse_slice : Name → Option (ℕ × ℕ)
unfolding stoi
parse_slice s = do low ← stoi s; high ← stoi (drop (low.1 + 1) s); some (low.0, high.0)

-- `isPower2` on a 32-bit unsigned number.
unfoldable pub is_power2 : ℕ → Bool
is_power2 zero = bit_and 0 (2 ^ 32 - 1) == 0
is_power2 (suc n) = bit_and (suc n) n == 0

-- `syntaxW`, `syntaxWN` and `checkStringSyntax`; `str[0]` of an empty text is 0.
abbrev pub syntax_w : ℕ → Bool
syntax_w c =
    (leb b'a' c && leb c b'z')
    || (leb b'A' c && leb c b'Z')
    || (c == b'_')
    || (c == b'-')
    || (c == b'$')

abbrev pub syntax_wn : ℕ → Bool
syntax_wn c =
    (leb b'a' c && leb c b'z')
    || (leb b'A' c && leb c b'Z')
    || (leb b'0' c && leb c b'9')
    || (c == b'_')
    || (c == b'-')
    || (c == b'$')

abbrev pub all_syntax_wn : Name → Bool
all_syntax_wn [] = true
all_syntax_wn (c ∷ s) = syntax_wn c && all_syntax_wn s

unfoldable pub check_string_syntax : Name → Bool
check_string_syntax [] = syntax_w 0
check_string_syntax (c ∷ s) = syntax_w c && all_syntax_wn s
