-- ===== src/BitVec/Compare/Order.antt =====
-- The comparisons of binary vectors are those of the numbers, unsigned and in two's complement.
use native.Mathlib.Nat.{mod-one, mod-lt}
use coreir.Base.{
  ℕ, zero, suc, ◌+◌, ◌-◌, ◌*◌, ◌/◌, ◌%◌, ◌^◌, ◌≤◌, ◌<◌, ◌≡◌, refl, sym, ap, ◌∙◌, inl, inr, Bool,
  true, false, not, some, ltb, leb, ◌==◌, if◌then◌else◌, Bool-cases, arith,
}
use coreir.Base.Int.{ℤ, pos, negsuc, ltb_ℤ}
use coreir.Base.Pow.{two-pow-pos, mod-two-pow_top}
use coreir.BitVec.{QuadValueBitVector, get, equals}
use coreir.BitVec.Words.{bit, word, get_elem?-digits}
use coreir.BitVec.Access.{equals-word, is_binary_vector-word, ==_refl}
use coreir.BitVec.Compare.{gt_loop, gt, ge, lt, signed_gt}

get-word : (w x k : ℕ) → k < w → get (word w x) k ≡ some (bit (x / 2 ^ k % 2))
unfolding get
get-word w x k h = get_elem?-digits w x k h

-- One digit decides, or the digits below it do.
gt_digit :
    (a b : QuadValueBitVector) (k m o : ℕ)
    → m < 2
    → o < 2
    → get a k ≡ some (bit m)
    → get b k ≡ some (bit o)
    → gt_loop a b (suc k) ≡ (if m == o then gt_loop a b k else some (ltb o m))
unfolding gt_loop
gt_digit a b k zero zero hm ho ga gb = rw (ga, gb)
gt_digit a b k zero (suc zero) hm ho ga gb = rw (ga, gb)
gt_digit a b k (suc zero) zero hm ho ga gb = rw (ga, gb)
gt_digit a b k (suc zero) (suc zero) hm ho ga gb = rw (ga, gb)
gt_digit a b k (suc (suc m)) o hm ho ga gb = absurd (omega arith)
gt_digit a b k m (suc (suc o)) hm ho ga gb = absurd (omega arith)

gt_top :
    (k m o r s p : ℕ)
    → m < 2
    → o < 2
    → r < p
    → s < p
    → (if m == o then ltb s r else ltb o m) ≡ ltb (o * p + s) (m * p + r)
gt_top k m o r s p hm ho hr hs = ground arith

if_some : (c a b : Bool) → (if c then some a else some b) ≡ some (if c then a else b)
if_some true a b = refl
if_some false a b = refl

gt_loop-word :
    (w x y k : ℕ) → k ≤ w → gt_loop (word w x) (word w y) k ≡ some (ltb (y % 2 ^ k) (x % 2 ^ k))
gt_loop-word w x y zero h = unfold gt_loop in rw (mod-one, mod-one)
gt_loop-word w x y (suc k) h =
    let m = x / 2 ^ k % 2 in
    let o = y / 2 ^ k % 2 in
    let digit =
      gt_digit (word w x) (word w y) k m o (omega arith) (omega arith) (get-word w x k h)
        (get-word w y k h) in
    let below = rw (gt_loop-word w x y k (omega arith)) at digit in
    rw (mod-two-pow_top x k, mod-two-pow_top y k)
      (below
        ∙ if_some (m == o) _ _
        ∙ ap some (
            gt_top k m o (x % 2 ^ k) (y % 2 ^ k) (2 ^ k) (omega arith) (omega arith)
              (mod-lt x (two-pow-pos k)) (mod-lt y (two-pow-pos k))))

gt-word : (w x y : ℕ) → gt (word w x) (word w y) ≡ some (ltb (y % 2 ^ w) (x % 2 ^ w))
unfolding gt
gt-word w x y =
    rw (is_binary_vector-word w x, is_binary_vector-word w y) (gt_loop-word w x y w (omega arith))

ge_tests : (a b : ℕ) → (if ltb b a then some true else some (a == b)) ≡ some (leb b a)
ge_tests a b = ground arith

ge-word : (w x y : ℕ) → ge (word w x) (word w y) ≡ some (leb (y % 2 ^ w) (x % 2 ^ w))
unfolding ge
ge-word w x y =
    rw (is_binary_vector-word w x, is_binary_vector-word w y, gt-word w x y, equals-word w x y)
      (ge_tests (x % 2 ^ w) (y % 2 ^ w))

lt_irrefl_test : (a b : ℕ) → (a == b) ≡ true → ltb a b ≡ false
lt_irrefl_test a b h = ground arith

lt_tests : (a b : ℕ) → (a == b) ≡ false → not (ltb b a) ≡ ltb a b
lt_tests a b h = ground arith

pub lt-word : (w x y : ℕ) → lt (word w x) (word w y) ≡ some (ltb (x % 2 ^ w) (y % 2 ^ w))
unfolding lt
lt-word w x y =
    rw (is_binary_vector-word w x, is_binary_vector-word w y, equals-word w x y)
      (elim (Bool-cases (x % 2 ^ w == y % 2 ^ w)) [
        | inl same ↦ rw same (ap some (sym (lt_irrefl_test _ _ same)))
        | inr other ↦ rw (other, gt-word w x y) (ap some (lt_tests _ _ other))
      ])

-- The two's complement reading of `v + 1` digits.
abbrev pub signed_value : ℕ → ℕ → ℤ
signed_value v x = if x / 2 ^ v % 2 == 1 then negsuc (2 ^ v - x % 2 ^ v - 1) else pos (x % 2 ^ v)

-- For all widths and values: the operators == > >= and < on binary vectors of one width compare the
-- numbers modulo 2 ^ w.
pub compare-word :
    (w x y : ℕ)
    → let a = x % 2 ^ w in
      let b = y % 2 ^ w in
      (equals (word w x) (word w y) ≡ some (a == b))
      × (gt (word w x) (word w y) ≡ some (ltb b a))
      × (ge (word w x) (word w y) ≡ some (leb b a))
      × (lt (word w x) (word w y) ≡ some (ltb a b))
compare-word w x y = (equals-word w x y, gt-word w x y, ge-word w x y, lt-word w x y)

-- The sign digits decide, or the digits below them do.
signed_gt_signs :
    (v x y m o : ℕ)
    → m < 2
    → o < 2
    → get (word (suc v) x) v ≡ some (bit m)
    → get (word (suc v) y) v ≡ some (bit o)
    → signed_gt (word (suc v) x) (word (suc v) y)
      ≡ (if m == o then gt_loop (word (suc v) x) (word (suc v) y) (suc v - 1) else some (ltb m o))
unfolding signed_gt
signed_gt_signs v x y zero zero hm ho ga gb =
    rw (is_binary_vector-word (suc v) x, is_binary_vector-word (suc v) y, ==_refl (suc v), ga, gb)
signed_gt_signs v x y zero (suc zero) hm ho ga gb =
    rw (is_binary_vector-word (suc v) x, is_binary_vector-word (suc v) y, ==_refl (suc v), ga, gb)
signed_gt_signs v x y (suc zero) zero hm ho ga gb =
    rw (is_binary_vector-word (suc v) x, is_binary_vector-word (suc v) y, ==_refl (suc v), ga, gb)
signed_gt_signs v x y (suc zero) (suc zero) hm ho ga gb =
    rw (is_binary_vector-word (suc v) x, is_binary_vector-word (suc v) y, ==_refl (suc v), ga, gb)
signed_gt_signs v x y (suc (suc m)) o hm ho ga gb = absurd (omega arith)
signed_gt_signs v x y m (suc (suc o)) hm ho ga gb = absurd (omega arith)

-- In two's complement the digits below the sign compare as they stand.
signed_top :
    (p m o r s : ℕ)
    → m < 2
    → o < 2
    → r < p
    → s < p
    → (if m == o then ltb s r else ltb m o)
      ≡ ltb_ℤ
          (if o == 1 then negsuc (p - s - 1) else pos s)
          (if m == 1 then negsuc (p - r - 1) else pos r)
signed_top p m o r s hm ho hr hs = ground arith

-- For all widths above 0 and all values: `signed_gt` compares the two's complement readings.
pub signed_gt-word :
    (v x y : ℕ)
    → signed_gt (word (suc v) x) (word (suc v) y)
      ≡ some (ltb_ℤ (signed_value v y) (signed_value v x))
signed_gt-word v x y =
    let m = x / 2 ^ v % 2 in
    let o = y / 2 ^ v % 2 in
    let below : suc v - 1 ≡ v = omega arith in
    let signs =
      signed_gt_signs v x y m o (omega arith) (omega arith) (get-word (suc v) x v (omega arith))
        (get-word (suc v) y v (omega arith)) in
    let whole = rw (below, gt_loop-word (suc v) x y v (omega arith)) at signs in
    whole
    ∙ if_some (m == o) _ _
    ∙ ap some (
        signed_top (2 ^ v) m o (x % 2 ^ v) (y % 2 ^ v) (omega arith) (omega arith)
          (mod-lt x (two-pow-pos v)) (mod-lt y (two-pow-pos v)))
