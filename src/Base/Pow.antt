-- ===== src/Base/Pow.antt =====
-- Remainders by powers of two, from the lowest digit.
use Prim.Native.Nat.{ℕ, zero, suc, ◌+◌, ◌*◌, ◌/◌, ◌%◌, ◌^◌, ◌≤◌, ◌<◌}
use mathlib.Core.Path.{◌≡◌, sym, ap, ◌∙◌}
use mathlib.Core.Logic.{◌⊎◌}
use native.Mathlib.Nat.{
  pow-suc, one-le-pow, mod-lt, div-add-mod, add-mul-mod_self_right, mod-eq_of_lt,
  div-div-eq-div-mul, div-one, mod-one, zero-add, suc-add,
}
use native.Mathlib.Omega.{arith}

pub two-pow-pos : (w : ℕ) → 0 < 2 ^ w
two-pow-pos w = one-le-pow w 2 (omega arith)

pub two-pow-suc : (w : ℕ) → 2 ^ suc w ≡ 2 * 2 ^ w
two-pow-suc w = omega (arith, pow-suc 2 w)

mod_double : (x m : ℕ) → 0 < m → x % (2 * m) ≡ x / 2 % m * 2 + x % 2
mod_double x m pos =
    let q = x / 2 / m in
    let r = x / 2 % m in
    let low = r * 2 + x % 2 in
    let split : m * q + r ≡ x / 2 = div-add-mod (x / 2) m in
    let small : low < 2 * m = omega (arith, mod-lt (x / 2) pos) in
    let whole : x ≡ low + q * (2 * m) = omega arith in
    ap (λ (t : ℕ). t % (2 * m)) whole ∙ add-mul-mod_self_right low q (2 * m) ∙ mod-eq_of_lt small

pub mod-two-pow-suc : (x w : ℕ) → x % 2 ^ suc w ≡ x / 2 % 2 ^ w * 2 + x % 2
mod-two-pow-suc x w = rw (two-pow-suc w) (mod_double x (2 ^ w) (two-pow-pos w))

pub div-two-pow-suc : (x w : ℕ) → x / 2 ^ suc w ≡ x / 2 / 2 ^ w
div-two-pow-suc x w = rw (two-pow-suc w) (sym (div-div-eq-div-mul x 2 (2 ^ w)))

pub parity : (x : ℕ) → (x % 2 ≡ 0) ⊎ (x % 2 ≡ 1)
parity x = omega arith

pub two-pow_mono : (v w : ℕ) → v ≤ w → 2 ^ v ≤ 2 ^ w
two-pow_mono zero w h = two-pow-pos w
two-pow_mono (suc v) zero h = absurd (omega arith)
two-pow_mono (suc v) (suc w) h =
    omega (arith, two-pow-suc v, two-pow-suc w, two-pow_mono v w (omega arith))

-- The remainder by its highest digit.
pub mod-two-pow_top : (x k : ℕ) → x % 2 ^ suc k ≡ x / 2 ^ k % 2 * 2 ^ k + x % 2 ^ k
mod-two-pow_top x zero = rw (div-one, mod-one) (omega arith)
mod-two-pow_top x (suc k) =
    let half = mod-two-pow_top (x / 2) k in
    rw (mod-two-pow-suc x (suc k), mod-two-pow-suc x k, div-two-pow-suc x k, half, two-pow-suc k)
      (omega arith)

pub div-two-pow-add : (x s k : ℕ) → x / 2 ^ (s + k) ≡ x / 2 ^ s / 2 ^ k
div-two-pow-add x zero k = rw (zero-add, div-one)
div-two-pow-add x (suc s) k =
    rw (suc-add, div-two-pow-suc, div-two-pow-suc) (div-two-pow-add (x / 2) s k)

-- Dividing a remainder.
pub mod-div-two-pow : (x k d : ℕ) → x % 2 ^ (k + d) / 2 ^ k ≡ x / 2 ^ k % 2 ^ d
mod-div-two-pow x zero d = rw (zero-add, div-one, div-one)
mod-div-two-pow x (suc k) d =
    let half : x % 2 ^ suc (k + d) / 2 ≡ x / 2 % 2 ^ (k + d) =
      omega (arith, mod-two-pow-suc x (k + d)) in
    rw (suc-add, div-two-pow-suc (x % 2 ^ suc (k + d)) k, half, div-two-pow-suc x k)
      (mod-div-two-pow (x / 2) k d)

pub lt-two-pow : (n : ℕ) → n < 2 ^ n
lt-two-pow zero = omega arith
lt-two-pow (suc n) = omega (arith, two-pow-suc n, lt-two-pow n)

pub two-pow_add : (m n : ℕ) → 2 ^ (m + n) ≡ 2 ^ m * 2 ^ n
two-pow_add zero n = rw (zero-add) (omega arith)
two-pow_add (suc m) n = rw (suc-add, two-pow-suc, two-pow-suc, two-pow_add m n) (omega arith)
