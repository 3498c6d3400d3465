-- ===== src/BitVec/Arith/Add.antt =====
-- `add_general_width_bv` adds modulo 2 ^ N, and an unknown digit makes the sum unknown.
use native.Mathlib.Nat.{add-zero}
use coreir.Base.{
  ℕ, zero, suc, ◌+◌, ◌/◌, ◌%◌, ◌≤◌, ◌<◌, ◌≡◌, refl, ◌∙◌, some, List, [], ◌∷◌, ◌++◌, ◌>>=◌,
  append_assoc, length, length_snoc, arith,
}
use coreir.Quad.{QuadValue}
use coreir.BitVec.{QuadValueBitVector, get, set_value}
use coreir.BitVec.Words.{vec, bit, digits, word, zeros-eq-word, length-digits}
use coreir.BitVec.Fill.{set_value_here, Reads, Reads-head, Reads-tail, Reads-self}
use coreir.BitVec.Arith.{add_loop, add_general_width_bv}

-- One column of binary digits `m` and `o`, with the carry `c`.
add_column :
    (a b : QuadValueBitVector) (k i : ℕ) (res : QuadValueBitVector) (c m o : ℕ)
    → c < 2
    → m < 2
    → o < 2
    → get a i ≡ some (bit m)
    → get b i ≡ some (bit o)
    → add_loop a b (suc k) i c res
      ≡ (set_value res i (bit ((m + o + c) % 2)) >>= add_loop a b k (suc i) ((m + o + c) / 2))
unfolding add_loop
add_column a b k i res zero zero zero hc hm ho ga gb = rw (ga, gb)
add_column a b k i res zero zero (suc zero) hc hm ho ga gb = rw (ga, gb)
add_column a b k i res zero (suc zero) zero hc hm ho ga gb = rw (ga, gb)
add_column a b k i res zero (suc zero) (suc zero) hc hm ho ga gb = rw (ga, gb)
add_column a b k i res (suc zero) zero zero hc hm ho ga gb = rw (ga, gb)
add_column a b k i res (suc zero) zero (suc zero) hc hm ho ga gb = rw (ga, gb)
add_column a b k i res (suc zero) (suc zero) zero hc hm ho ga gb = rw (ga, gb)
add_column a b k i res (suc zero) (suc zero) (suc zero) hc hm ho ga gb = rw (ga, gb)
add_column a b k i res (suc (suc c)) m o hc hm ho ga gb = absurd (omega arith)
add_column a b k i res c (suc (suc m)) o hc hm ho ga gb = absurd (omega arith)
add_column a b k i res c m (suc (suc o)) hc hm ho ga gb = absurd (omega arith)

add_loop-digits :
    (a b : QuadValueBitVector) (k i c x y n : ℕ) (r zs : List QuadValue)
    → Reads a i (digits k x)
    → Reads b i (digits k y)
    → c ≤ 1
    → i ≡ length r
    → length zs ≡ k
    → add_loop a b k i c (vec (r ++ zs) n) ≡ some (vec (r ++ digits k (x + y + c)) n)
unfolding add_loop
add_loop-digits a b zero i c x y n r [] ra rb hc hr hz = refl
add_loop-digits a b zero i c x y n r (z ∷ zs) ra rb hc hr hz = absurd (omega arith)
add_loop-digits a b (suc k) i c x y n r [] ra rb hc hr hz = absurd (omega arith)
add_loop-digits a b (suc k) i c x y n r (z ∷ zs) ra rb hc hr hz =
    let s = x % 2 + y % 2 + c in
    let s_mod : s % 2 ≡ (x + y + c) % 2 = omega arith in
    let s_div : x / 2 + y / 2 + s / 2 ≡ (x + y + c) / 2 = omega arith in
    let d = bit ((x + y + c) % 2) in
    let rest =
      add_loop-digits a b k (suc i) (s / 2) (x / 2) (y / 2) n (r ++ d ∷ []) zs
        (Reads-tail a i (bit (x % 2)) (digits k (x / 2)) ra)
        (Reads-tail b i (bit (y % 2)) (digits k (y / 2)) rb) (omega arith)
        (omega (arith, length_snoc r d)) (omega arith) in
    let rest' =
      rw
        (
          append_assoc r (d ∷ []) zs,
          append_assoc r (d ∷ []) (digits k (x / 2 + y / 2 + s / 2)),
          s_div,
        )
        at rest in
    add_column a b k i (vec (r ++ z ∷ zs) n) c (x % 2) (y % 2) (omega arith) (omega arith)
      (omega arith) (Reads-head a i (bit (x % 2)) (digits k (x / 2)) ra)
      (Reads-head b i (bit (y % 2)) (digits k (y / 2)) rb)
    ∙ rw (s_mod, set_value_here r z zs n i d hr) rest'

-- For all widths and values: the sum of two binary vectors is the vector of the sum.
pub add-word : (w x y : ℕ) → add_general_width_bv (word w x) (word w y) ≡ some (word w (x + y))
unfolding add_general_width_bv
add-word w x y =
    let sum =
      add_loop-digits (word w x) (word w y) w 0 0 x y w [] (digits w 0) (Reads-self (digits w x) w)
        (Reads-self (digits w y) w) (omega arith) refl (length-digits w 0) in
    rw (zeros-eq-word w) (rw (add-zero (x + y)) at sum)
