-- ===== src/Simulator/Memory/Access.antt =====
-- What a memory holds, and the bounds of its addresses.
use native.Mathlib.Nat.{mod-lt, mod-eq_of_lt}
use coreir.Base.{
  ℕ, ◌%◌, ◌^◌, ◌≤◌, ◌<◌, ◌≡◌, refl, ap, ◌∙◌, Bool, true, false, not, ◌&&◌, Option, none, some, [],
  ◌∷◌, ltb, ◌==◌, if◌then◌else◌, Bool-cases, inl, inr, lt→ltb, arith,
}
use coreir.Base.Pow.{two-pow-pos, two-pow_mono}
use coreir.BitVec.{QuadValueBitVector, bit_length, from_int, to_type}
use coreir.BitVec.Words.{word}
use coreir.BitVec.Access.{from_int-word, to_type-word}
use coreir.BitVec.Compare.Order.{compare-word}
use coreir.Simulator.Memory.{Cells, SimMemory, same_cell, find_addr, erase_addr, set_addr, get_addr}

-- All addresses in the memory are binary and of the given width.
abbrev pub HasWidth : ℕ → Cells → Type 0
HasWidth w [] = Unit {0}
HasWidth w ((k, v) ∷ vs) = ((x : ℕ) × (k ≡ word w x)) × HasWidth w vs

module _ (w : ℕ) where
  abbrev same : (a b : ℕ) → Bool
  same a b = a % 2 ^ w == b % 2 ^ w

  same_cell-word : (a b : ℕ) → same_cell (word w a) (word w b) ≡ some (same a b)
  unfolding same_cell
  same_cell-word a b =
      rw ((compare-word w a b).3, (compare-word w b a).3)
        (ap (λ t. some t) (neither (a % 2 ^ w) (b % 2 ^ w)))
    where
      neither : (x y : ℕ) → (not (ltb x y) && not (ltb y x)) ≡ (x == y)
      neither x y = ground arith

  address : (a : ℕ) → w ≤ 32 → to_type 32 (word w a) ≡ some (a % 2 ^ w)
  address a h =
      to_type-word 32 w a (omega arith)
      ∙ ap (λ t. some t)
          (mod-eq_of_lt (omega (arith, mod-lt a (two-pow-pos w), two-pow_mono w 32 h)))

  erased : (a : ℕ) (vs : Cells) → HasWidth w vs → Cells
  erased a [] h = []
  erased a ((k, v) ∷ vs) ((x, e), h) = if same a x then erased a vs h else (k, v) ∷ erased a vs h

  erased-HasWidth : (a : ℕ) (vs : Cells) (h : HasWidth w vs) → HasWidth w (erased a vs h)
  unfolding erased
  erased-HasWidth a [] h = tt
  erased-HasWidth a ((k, v) ∷ vs) ((x, e), h) = elim (Bool-cases (same a x)) [
    | inl i ↦ rw i (erased-HasWidth a vs h)
    | inr i ↦ rw i ((x, e), erased-HasWidth a vs h)
  ]

  erase_addr-erased :
      (a : ℕ) (vs : Cells) (h : HasWidth w vs) → erase_addr (word w a) vs ≡ some (erased a vs h)
  unfolding erase_addr erased
  erase_addr-erased a [] h = refl
  erase_addr-erased a ((k, v) ∷ vs) ((x, e), h) =
      rw (ap (same_cell (word w a)) e, same_cell-word a x, erase_addr-erased a vs h) refl

  -- A search behind the erased entries.
  find_addr-erased :
      (a b : ℕ) (vs : Cells) (h : HasWidth w vs)
      → same a b ≡ false
      → find_addr (word w b) (erased a vs h) ≡ find_addr (word w b) vs
  unfolding find_addr erased
  find_addr-erased a b [] h other = refl
  find_addr-erased a b ((k, v) ∷ vs) ((x, e), h) other = elim (Bool-cases (same a x)) [
    | inl i ↦
        rw
          (
            i,
            ap (same_cell (word w b)) e,
            same_cell-word b x,
            differs (a % 2 ^ w) (b % 2 ^ w) (x % 2 ^ w) other i,
          )
          (find_addr-erased a b vs h other)
    | inr i ↦ elim (Bool-cases (same b x)) [
      | inl j ↦ rw (i, ap (same_cell (word w b)) e, same_cell-word b x, j) refl
      | inr j ↦
          rw (i, ap (same_cell (word w b)) e, same_cell-word b x, j)
            (find_addr-erased a b vs h other)
    ]
  ]
    where
      differs : (p q r : ℕ) → (p == q) ≡ false → (p == r) ≡ true → (q == r) ≡ false
      differs p q r h i = ground arith

  find_addr_returns :
      (b : ℕ) (vs : Cells)
      → HasWidth w vs
      → (found : Option QuadValueBitVector) × (find_addr (word w b) vs ≡ some found)
  unfolding find_addr
  find_addr_returns b [] h = (none, refl)
  find_addr_returns b ((k, v) ∷ vs) ((x, e), h) = elim (Bool-cases (same b x)) [
    | inl i ↦ (some v, rw (ap (same_cell (word w b)) e, same_cell-word b x, i) refl)
    | inr i ↦
        let (found, done) = find_addr_returns b vs h in
        (found, rw (ap (same_cell (word w b)) e, same_cell-word b x, i) done)
  ]

  same_refl : (a : ℕ) → same a a ≡ true
  same_refl a = ground arith

-- On a memory whose addresses have `w` binary digits, a value of its width can be stored at every
-- address below its depth. Reading that address then gives the value, and reading any other address
-- gives what it gave before.
pub get_addr-set_addr :
    (w a : ℕ) (val : QuadValueBitVector) (m : SimMemory)
    → w ≤ 32
    → HasWidth w m.values
    → bit_length val ≡ m.width
    → a % 2 ^ w < m.depth
    → (m' : SimMemory) × (set_addr (word w a) val m ≡ some m')
      × HasWidth w m'.values
      × ((b : ℕ)
          → get_addr (word w b) m'
            ≡ (if a % 2 ^ w == b % 2 ^ w then some val else get_addr (word w b) m))
unfolding set_addr get_addr find_addr
get_addr-set_addr w a val m hw keys fits below = (
  stored,
  rw
      (
        same_width (bit_length val) m.width fits,
        address w a hw,
        lt→ltb (a % 2 ^ w) m.depth below,
        erase_addr-erased w a m.values keys,
      )
      refl,
  ((a, refl), erased-HasWidth w a m.values keys),
  λ b. rw (address w b hw) (elim (Bool-cases (same w a b)) [
    | inl i ↦
        rw
          (
            i,
            same_cell-word w b a,
            turned w a b true i,
            in_depth (a % 2 ^ w) (b % 2 ^ w) m.depth i below,
          )
          refl
    | inr i ↦
        rw (i, same_cell-word w b a, turned w a b false i, find_addr-erased w a b m.values keys i)
          refl
  ]),
)
  where
    stored : SimMemory
    stored = record m { values = (word w a, val) ∷ erased w a m.values keys }

    same_width : (x y : ℕ) → x ≡ y → (x == y) ≡ true
    same_width x y e = ground arith

    in_depth : (x y d : ℕ) → (x == y) ≡ true → x < d → ltb y d ≡ true
    in_depth x y d e h = ground arith

    turned : (w a b : ℕ) (t : Bool) → same w a b ≡ t → same w b a ≡ t
    turned w a b t e = ground arith

abbrev pub returns : {A : Type 0} → Option A → Bool
returns none = false
returns (some a) = true

-- On such a memory, reading returns exactly at the addresses below the depth, and storing exactly at
-- these addresses and for the values of the memory's width.
pub access_bounds :
    (w a : ℕ) (val : QuadValueBitVector) (m : SimMemory)
    → w ≤ 32
    → HasWidth w m.values
    → (returns (get_addr (word w a) m) ≡ ltb (a % 2 ^ w) m.depth)
      × (returns (set_addr (word w a) val m)
          ≡ (bit_length val == m.width && ltb (a % 2 ^ w) m.depth))
unfolding set_addr get_addr
access_bounds w a val m hw keys = (
  rw (address w a hw) (elim (Bool-cases (ltb (a % 2 ^ w) m.depth)) [
    | inl i ↦
        let (found, done) = find_addr_returns w a m.values keys in
        rw (i, done) (reads m.width found)
    | inr i ↦ rw i refl
  ]),
  elim (Bool-cases (bit_length val == m.width)) [
    | inr i ↦ rw i refl
    | inl i ↦ elim (Bool-cases (ltb (a % 2 ^ w) m.depth)) [
      | inl j ↦ rw (i, address w a hw, j, erase_addr-erased w a m.values keys) refl
      | inr j ↦ rw (i, address w a hw, j) refl
    ]
  ],
)
  where
    reads :
        (n : ℕ) (found : Option QuadValueBitVector)
        → returns (elim found [ none ↦ from_int n 0 | some v ↦ some v ]) ≡ true
    reads n none = rw (from_int-word n 0 (omega arith)) refl
    reads n (some v) = refl
