-- ===== src/Simulator/Arrays.antt =====
-- Bits of arrays: `setValue` of src/simulator/interpret.cpp puts them into the array, from which
-- `getValue` reads them.
use coreir.Base.{
  some_eq, ==→eq, ℕ, zero, suc, ◌<◌, ◌≡◌, refl, sym, ap, ◌∙◌, Bool, true, false, not, ◌&&◌, ◌||◌,
  Option, none, some, List, [], ◌∷◌, ◌>>=◌, guard, guard-true, ◌==◌, ltb, ltb→lt, length, get_elem?,
  set, Bool-cases, inl, inr, member, arith, >>=-eq-some,
}
use coreir.Quad.{QuadValue}
use coreir.BitVec.{QuadValueBitVector, bit_length, zeros, get, set_value, from_int}
use coreir.Simulator.State.{
  Select, port, element, SimValue, sim_bits, sim_clock, CircuitState, put_value, array_of, is_set,
  get_value, get_bit_vec, set_sim_value, to_sim_bit_vector,
}
use coreir.Simulator.Frame.{touches, set_sim_value-Keeps}
use coreir.Simulator.Settled.{get_value-Agree}

-- The first digit of a value.
abbrev pub digit_of : Option SimValue → Option QuadValue
digit_of m = m >>= to_sim_bit_vector >>= λ bits. get bits 0

-- What was put at a bit of an array is read there.
abbrev pub Shows : Select → CircuitState → Type 0
Shows (port a) c = Unit {0}
Shows (element a parent index arr_len) c =
    (q : QuadValue) × (digit_of (get_value (element a parent index arr_len) c) ≡ some q)
    × (digit_of (c.val_map a) ≡ some q)

-- An array is no bit of another one, and has an entry of its own.
abbrev pub flat : Select → Bool
flat (port a) = true
flat (element a (port p) index arr_len) = not (a == p)
flat (element a (element b parent j n) index arr_len) = false

-- A write at another bit of the array `p`.
abbrev other_bit : Select → (p index : ℕ) → Bool
other_bit (port b) p index = false
other_bit (element b (port p') j n) p index = (p' == p) && (not (b == p) && not (j == index))
other_bit (element b (element b' parent k m) j n) p index = false

-- A write at `t` that leaves alone what is shown at `d`.
abbrev pub spares : (t d : Select) → Bool
spares t (port a) = true
spares t (element a (port p) index arr_len) =
    not (member a (touches t)) && (not (member p (touches t)) || other_bit t p index)
spares t (element a (element b parent j n) index arr_len) = false

get_elem?-set {ℓ} :
    {A : Type ℓ} (xs : List A) (i : ℕ) (x : A) → i < length xs → get_elem? (set xs i x) i ≡ some x
get_elem?-set [] i x h = absurd (omega (arith, h))
get_elem?-set (y ∷ xs) zero x h = refl
get_elem?-set (y ∷ xs) (suc i) x h = get_elem?-set xs i x (omega (arith, h))

get_elem?-set_other {ℓ} :
    {A : Type ℓ} (xs : List A) (i j : ℕ) (x : A)
    → (i == j) ≡ false
    → get_elem? (set xs i x) j ≡ get_elem? xs j
get_elem?-set_other [] i j x h = refl
get_elem?-set_other (y ∷ xs) zero zero x h = absurd (ground (arith, h))
get_elem?-set_other (y ∷ xs) zero (suc j) x h = refl
get_elem?-set_other (y ∷ xs) (suc i) zero x h = refl
get_elem?-set_other (y ∷ xs) (suc i) (suc j) x h = get_elem?-set_other xs i j x (ground (arith, h))

written :
    (v v' : QuadValueBitVector) (i : ℕ) (q : QuadValue)
    → set_value v i q ≡ some v'
    → (get v' i ≡ some q) × ((j : ℕ) → (i == j) ≡ false → get v' j ≡ get v j)
unfolding set_value get
written v v' i q h =
    let (u, low, done) = >>=-eq-some (guard (ltb i (length v.bits))) _ h in
    let same : set v.bits i q ≡ v'.bits = ap (λ (w : QuadValueBitVector). w.bits) (some_eq done) in
    let inside : i < length v.bits = ltb→lt i (length v.bits) (guard-true _ low) in
    (
      sym (ap (λ ds. get_elem? ds i) same) ∙ get_elem?-set v.bits i q inside,
      λ j other. sym (ap (λ ds. get_elem? ds j) same) ∙ get_elem?-set_other v.bits i j q other,
    )

read_digit :
    (a p i n : ℕ) (c : CircuitState) (bv : QuadValueBitVector)
    → c.val_map p ≡ some (sim_bits bv)
    → digit_of (get_value (element a (port p) i n) c) ≡ get bv i
unfolding get_value from_int set_value zeros
read_digit a p i n c bv h = rw h (elim_digit (get bv i))
  where
    elim_digit :
        (m : Option QuadValue)
        → digit_of (from_int 1 0 >>= λ b. m >>= λ q. set_value b 0 q >>= λ res. some (sim_bits res))
          ≡ m
    elim_digit none = refl
    elim_digit (some q) = refl

vector_of :
    (v : SimValue) (bv : QuadValueBitVector) → to_sim_bit_vector v ≡ some bv → v ≡ sim_bits bv
vector_of (sim_bits b) bv e = ap sim_bits (cc e)
vector_of (sim_clock k) bv e = cc e

-- An array whose bit can be read.
known_array :
    (a p i n : ℕ) (c : CircuitState) (q : QuadValue)
    → digit_of (get_value (element a (port p) i n) c) ≡ some q
    → (bv : QuadValueBitVector) × (c.val_map p ≡ some (sim_bits bv)) × (get bv i ≡ some q)
unfolding get_value
known_array a p i n c q h =
    let (x, is_x, h1) =
      >>=-eq-some (get_value (element a (port p) i n) c >>= to_sim_bit_vector) _ h in
    let (y, is_y, h2) = >>=-eq-some (get_value (element a (port p) i n) c) to_sim_bit_vector is_x in
    let (val, there, h3) = >>=-eq-some (c.val_map p) _ is_y in
    let (bv, bits, h4) = >>=-eq-some (to_sim_bit_vector val) _ h3 in
    let array = there ∙ ap (λ v. some v) (vector_of val bv bits) in
    (bv, array, sym (read_digit a p i n c bv array) ∙ h)

array_of_set :
    (p n : ℕ) (c : CircuitState) (bv : QuadValueBitVector)
    → c.val_map p ≡ some (sim_bits bv)
    → array_of (port p) n c ≡ some bv
unfolding array_of is_set get_bit_vec get_value
array_of_set p n c bv h = rw (array_of, h) (ap (λ o. o >>= to_sim_bit_vector) h)

put_here : (a : ℕ) (v : SimValue) (c : CircuitState) → (put_value a v c).val_map a ≡ some v
unfolding put_value
put_here a v c = ground arith

put_there :
    (a b : ℕ) (v : SimValue) (c : CircuitState)
    → (b == a) ≡ false
    → (put_value a v c).val_map b ≡ c.val_map b
unfolding put_value
put_there a b v c h = rw h refl

-- What is behind a write at a bit.
record Put (b p j n : ℕ) (v : SimValue) (c c' : CircuitState) : Type 0 where
  old_bv : QuadValueBitVector
  new_bv : QuadValueBitVector
  digit : QuadValue
  before : array_of (port p) n c ≡ some old_bv
  stored : set_value old_bv j digit ≡ some new_bv
  value : digit_of (some v) ≡ some digit
  array : c'.val_map p ≡ some (sim_bits new_bv)
  entry : c'.val_map b ≡ some v

puts :
    (b p j n : ℕ) (v : SimValue) (c c' : CircuitState)
    → (b == p) ≡ false
    → set_sim_value (element b (port p) j n) v c ≡ some c'
    → Put b p j n v c c'
unfolding set_sim_value
puts b p j n v c c' apart e =
    let (bits, is_bits, e1) = >>=-eq-some (to_sim_bit_vector v) _ e in
    let (u, one, e2) = >>=-eq-some (guard (bit_length bits == 1)) _ e1 in
    let (old_bv, has_old, e3) = >>=-eq-some (array_of (port p) n c) _ e2 in
    let (q, digit, e4) = >>=-eq-some (get bits 0) _ e3 in
    let (new_bv, put, e5) = >>=-eq-some (set_value old_bv j q) _ e4 in
    let same = sym (some_eq e5) in
    record {
      old_bv = old_bv;
      new_bv = new_bv;
      digit = q;
      before = has_old;
      stored = put;
      value = rw is_bits digit;
      array =
          ap (λ d. d.val_map p) same
          ∙ put_there b p v (put_value p (sim_bits new_bv) c) (swapped b p apart)
          ∙ put_here p (sim_bits new_bv) c;
      entry = ap (λ d. d.val_map b) same ∙ put_here b v (put_value p (sim_bits new_bv) c);
    }
  where
    swapped : (b p : ℕ) → (b == p) ≡ false → (p == b) ≡ false
    swapped b p h = ground (arith, h)

-- A write is shown.
pub set_sim_value-Shows :
    (t : Select) (v : SimValue) (c c' : CircuitState)
    → flat t ≡ true
    → set_sim_value t v c ≡ some c'
    → Shows t c'
set_sim_value-Shows (port a) v c c' f e = tt
set_sim_value-Shows (element b (element b' parent k m) j n) v c c' f e = cc f
set_sim_value-Shows (element b (port p) j n) v c c' f e =
    let put = puts b p j n v c c' (ground (arith, f)) e in
    (
      put.digit,
      read_digit b p j n c' put.new_bv put.array
          ∙ (written put.old_bv put.new_bv j put.digit put.stored).0,
      ap digit_of put.entry ∙ put.value,
    )

-- A write that spares a bit leaves it shown.
other_bit-Shows :
    (t : Select) (a p i n : ℕ) (v : SimValue) (c c' : CircuitState)
    → other_bit t p i ≡ true
    → set_sim_value t v c ≡ some c'
    → (q : QuadValue) → digit_of (get_value (element a (port p) i n) c) ≡ some q
    → digit_of (get_value (element a (port p) i n) c') ≡ some q
other_bit-Shows (port b) a p i n v c c' o e q h = cc o
other_bit-Shows (element b (element b' parent k m) j r) a p i n v c c' o e q h = cc o
other_bit-Shows (element b (port p') j r) a p i n v c c' o e q h =
    let same : p' ≡ p = ==→eq p' p (ground (arith, o)) in
    let put =
      puts b p j r v c c' (ground (arith, o))
        (ap (λ x. set_sim_value (element b (port x) j r) v c) (sym same) ∙ e) in
    let (bv, array, digit) = known_array a p i n c q h in
    let old : bv ≡ put.old_bv = some_eq (sym (array_of_set p r c bv array) ∙ put.before) in
    read_digit a p i n c' put.new_bv put.array
    ∙ (written put.old_bv put.new_bv j put.digit put.stored).1 i (ground (arith, o))
    ∙ sym (ap (λ b. get b i) old)
    ∙ digit

pub spares-Shows :
    (t d : Select) (v : SimValue) (c c' : CircuitState)
    → spares t d ≡ true
    → set_sim_value t v c ≡ some c'
    → Shows d c
    → Shows d c'
spares-Shows t (port a) v c c' s e h = tt
spares-Shows t (element a (element b parent j n) i m) v c c' s e h = cc s
spares-Shows t (element a (port p) i n) v c c' s e (q, read, put) =
    let kept = set_sim_value-Keeps a t v c c' (ground (arith, s)) e in
    (
      q,
      elim (Bool-cases (member p (touches t))) [
        | inr away ↦
            ap digit_of (
              get_value-Agree (element a (port p) i n) c c' (set_sim_value-Keeps p t v c c' away e))
            ∙ read
        | inl here ↦ other_bit-Shows t a p i n v c c' (ground (arith, s, here)) e q read
      ],
      ap digit_of kept ∙ put,
    )
