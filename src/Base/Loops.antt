-- ===== src/Base/Loops.antt =====
-- Counted loops whose body may abort, and what a loop that fills a list writes.
use Prim.Native.Nat.{ℕ, zero, suc, ◌+◌}
use mathlib.Core.Path.{◌≡◌, refl}
use mathlib.Core.Option.{Option, none, some}
use native.Mathlib.Nat.{add-zero, add-suc, suc-add}
use coreir.Base.Tests.{◌>>=◌}

module _ {ℓ} {S : Type ℓ} (body : ℕ → S → Option S) where
  -- `for (i = start; i < start + rounds; i++) body`
  unfoldable pub for_up : (rounds start : ℕ) → S → Option S
  for_up zero i s = some s
  for_up (suc k) i s = body i s >>= λ s'. for_up k (suc i) s'

  -- `for (i = start + rounds - 1; i >= start; i--) body`
  unfoldable pub for_down : (rounds start : ℕ) → S → Option S
  for_down zero i s = some s
  for_down (suc k) i s = body (i + k) s >>= λ s'. for_down k i s'

bind_some {ℓ} : {S : Type ℓ} (m : Option S) → (m >>= λ s. some s) ≡ m
bind_some none = refl
bind_some (some s) = refl

bind_assoc {ℓ} :
    {S : Type ℓ} (m : Option S) (f g h : S → Option S)
    → ((s : S) → f s ≡ (g s >>= h))
    → (m >>= f) ≡ ((m >>= g) >>= h)
bind_assoc none f g h e = refl
bind_assoc (some s) f g h e = e s

-- The first round of a loop going down may be taken last.
pub for_down-suc {ℓ} :
    {S : Type ℓ} (body : ℕ → S → Option S) (k i : ℕ) (s : S)
    → for_down body (suc k) i s ≡ (for_down body k (suc i) s >>= body i)
unfolding for_down
for_down-suc body zero i s = rw add-zero (bind_some (body i s))
for_down-suc body (suc k) i s =
    rw (add-suc, suc-add)
      (bind_assoc (body (suc (i + k)) s) _ (λ s'. for_down body k (suc i) s') (body i)
        (for_down-suc body k i))

-- One round of a loop going down that does not abort.
pub for_down_round {ℓ} :
    {S : Type ℓ} (body : ℕ → S → Option S) (k i : ℕ) (s s' : S) {t : Option S}
    → body (i + k) s ≡ some s'
    → for_down body k i s' ≡ t
    → for_down body (suc k) i s ≡ t
unfolding for_down
for_down_round body k i s s' h rest = rw h rest
