-- ===== src/InstanceGraph/Ends.antt =====
-- On a graph without cycles `sortVisit` returns, with fuel above the rank of the node.
use coreir.Base.{
  ℕ, zero, suc, ◌<◌, ◌≡◌, refl, ◌∙◌, sym, true, false, some, List, [], ◌∷◌, ◌==◌, member,
  Bool-cases, inl, inr, arith,
}
use mathlib.Core.Path.{subst}
use coreir.InstanceGraph.{Users, Sorting, set_mark, push_sorted, visit_each, sort_visit}
use coreir.InstanceGraph.Order.{IsSorted, set_mark-IsSorted, sort_visit_lem}

-- The rank falls along each edge, so the graph has no cycle.
abbrev pub Falls : Users → (ℕ → ℕ) → Type 0
Falls u rank = (n m : ℕ) → member m (u n) ≡ true → rank m < rank n

-- The nodes that are being visited have a higher rank.
abbrev OpenAbove : (ℕ → ℕ) → ℕ → Sorting → Type 0
OpenAbove rank r s = (x : ℕ) → (s.mark x == 1) ≡ true → r < rank x

module _ (u : Users) (rank : ℕ → ℕ) (falls : Falls u rank) where
  abbrev Returns : ℕ → Type 0
  Returns k =
      (n : ℕ) (s : Sorting)
      → IsSorted u s
      → OpenAbove rank (rank n) s
      → rank n < k
      → (t : Sorting) × (sort_visit u k n s ≡ some t)

  pub visit_each-Returns :
      (k : ℕ)
      → Returns k
      → (ns : List ℕ) (s : Sorting) → IsSorted u s
      → ((m : ℕ) → member m ns ≡ true → OpenAbove rank (rank m) s × (rank m < k))
      → (t : Sorting) × (visit_each (sort_visit u k) ns s ≡ some t)
  unfolding visit_each
  visit_each-Returns k returns [] s o low = (s, refl)
  visit_each-Returns k returns (n ∷ ns) s o low =
      let (above, below) = low n (ground arith) in
      let (r, visited) = returns n s o above below in
      let (or, ar, mr) = sort_visit_lem u k n s r o visited in
      let (t, rest) = visit_each-Returns k returns ns r or λ m h.
        let (above', below') = low m (ground (arith, h)) in
        (λ x is_open. above' x (sym (ar.open_kept x) ∙ is_open), below') in
      (t, rw visited rest)

  opened :
      (n m : ℕ) (s : Sorting)
      → OpenAbove rank (rank n) s
      → rank m < rank n
      → OpenAbove rank (rank m) (set_mark n 1 s)
  unfolding set_mark
  opened n m s above lt x is_open = elim (Bool-cases (x == n)) [
    | inl here ↦ subst (λ z. rank m < rank z) (at x here) lt
    | inr there ↦ higher x (above x (ground (arith, is_open, there)))
  ]
    where
      at : (x : ℕ) → (x == n) ≡ true → n ≡ x
      at x e = ground arith

      higher : (x : ℕ) → rank n < rank x → rank m < rank x
      higher x h = omega (arith, h, lt)

  not_open : (n : ℕ) (s : Sorting) → OpenAbove rank (rank n) s → (s.mark n == 1) ≡ false
  not_open n s above = elim (Bool-cases (s.mark n == 1)) [
    | inl is_open ↦ absurd (omega (arith, above n is_open))
    | inr closed ↦ closed
  ]

  pub sort_visit-Returns : (k : ℕ) → Returns k
  unfolding sort_visit
  sort_visit-Returns zero n s o above lt = absurd (omega (arith, lt))
  sort_visit-Returns (suc k) n s o above lt = elim (Bool-cases (s.mark n == 2)) [
    | inl done ↦ (s, rw (sort_visit, done) refl)
    | inr new ↦
        let (r, each) =
          visit_each-Returns k (sort_visit-Returns k) (u n) (set_mark n 1 s)
            (set_mark-IsSorted u n s new o)
            λ m h. (opened n m s above (falls n m h), omega (arith, falls n m h, lt)) in
        (push_sorted n r, rw (sort_visit, new, not_open n s above, each) refl)
  ]
