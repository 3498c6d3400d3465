-- ===== src/BitVec/Shift/Widths.antt =====
-- `concat`, `slice`, `extend` and `zero_extend` on binary vectors, as arithmetic.
use native.Mathlib.Nat.{sub-zero, div-one, mod-add-div, zero-add, add_comm}
use coreir.Base.{
  ap₂, ◌>>=◌, ℕ, ◌+◌, ◌-◌, ◌*◌, ◌/◌, ◌%◌, ◌^◌, ◌≤◌, ◌≡◌, refl, sym, ◌∙◌, some, [], ◌++◌, append-nil,
  le→leb, replicate, length-replicate, replicate-append, get_elem?, for_up, arith,
}
use coreir.Quad.{low}
use coreir.BitVec.{zeros, get, fill_step}
use coreir.BitVec.Words.{
  vec, digits, word, length-digits, digits-zero, digits_pad, digits_join, get_elem?-digits_above,
}
use coreir.BitVec.Fill.{fill_up, fill_zeros, fill_front}
use coreir.BitVec.Access.{from_int-word}
use coreir.BitVec.Shift.{concat, slice, extend, zero_extend}

read_self : (w x k : ℕ) → get (word w x) k ≡ get_elem? (digits w x) k
unfolding get
read_self w x k = refl

-- The first loop of `concat`, `extend` and `zero_extend`: the digits, and zeros behind them.
copy_front :
    (w m n x : ℕ)
    → for_up (fill_step (λ i. i) (get (word w x))) w 0 (vec (replicate (w + m) low) n)
      ≡ some (vec (digits w x ++ replicate m low) n)
copy_front w m n x = rw (← replicate-append w m low) (
    fill_front (get (word w x)) (digits w x) (replicate w low) (replicate m low) w n
      (length-digits w x) (length-replicate w low) (λ k h. read_self w x k))

-- For all widths and values: `extend` keeps the number in the larger width.
pub extend-word : (w m x : ℕ) → extend (word w x) m ≡ some (word (w + m) (x % 2 ^ w))
unfolding extend zeros
extend-word w m x = rw (digits_pad w m x) (copy_front w m (w + m) x)

-- Extending to a width at least as large keeps the number.
pub zero_extend-word : (w o x : ℕ) → w ≤ o → zero_extend o (word w x) ≡ some (word o (x % 2 ^ w))
unfolding zero_extend
zero_extend-word w o x h =
    let m = o - w in
    let e : o ≡ w + m = omega arith in
    rw (from_int-word o 0 (omega arith), digits-zero o, e, digits_pad w m x)
      (copy_front w m (w + m) x)

-- For all widths and values: `concat` puts the second vector's digits above the first's.
pub concat-word :
    (m n x y : ℕ) → concat (word m x) (word n y) ≡ some (word (m + n) (x % 2 ^ m + 2 ^ m * y))
unfolding concat zeros
concat-word m n x y =
    let upper =
      fill_up (λ i. i + m) (get (word n y)) (digits n y) (replicate n low) (digits m x) [] (m + n) 0
        (length-replicate n low ∙ sym (length-digits n y)) (λ k h. rw zero-add (read_self n y k))
        (λ k h. omega (arith, length-digits m x)) in
    let upper' =
      rw (append-nil (replicate n low), append-nil (digits n y), length-digits n y) at upper in
    rw (copy_front m n (m + n) x, digits_join m n x y) upper'

-- For `start` at most `end` and `end` at most the width: `slice` takes the digits from `start` up to
-- `end`.
pub slice-word :
    (w x start end : ℕ)
    → start ≤ end
    → end ≤ w
    → slice (word w x) start end ≡ some (word (end - start) (x / 2 ^ start))
unfolding slice
slice-word w x start end h g = rw (le→leb start end h) (
    fill_zeros (λ i. get (word w x) (i + start)) (digits (end - start) (x / 2 ^ start))
      (end - start) (length-digits (end - start) (x / 2 ^ start))
      (λ k hk.
        read_self w x (k + start)
        ∙ rw (add_comm k start)
            (get_elem?-digits_above w x start (end - start) k (omega arith) hk)))

-- Taking a vector apart at any place and joining the parts again gives the vector back.
pub concat-slice :
    (w x k : ℕ)
    → k ≤ w
    → (do a ← slice (word w x) 0 k; b ← slice (word w x) k w; concat a b) ≡ some (word w x)
concat-slice w x k h =
    let width : k - 0 + (w - k) ≡ w = omega arith in
    let whole : x / 2 ^ 0 % 2 ^ (k - 0) + 2 ^ (k - 0) * (x / 2 ^ k) ≡ x =
      rw (sub-zero, div-one) (mod-add-div x (2 ^ k)) in
    rw (slice-word w x 0 k (omega arith) h, slice-word w x k w h (omega arith))
      (concat-word (k - 0) (w - k) (x / 2 ^ 0) (x / 2 ^ k)
        ∙ ap₂ (λ v z. some (word v z)) width whole)
