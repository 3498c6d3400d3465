-- ===== src/InstanceGraph/Order.antt =====
-- `sortVisit` puts a node before the nodes of its list.
use coreir.Base.{
  ℕ, zero, suc, ◌≡◌, refl, ap, ◌∙◌, sym, true, false, Option, some, List, [], ◌∷◌, ◌==◌, member,
  Bool-cases, inl, inr, >>=-eq-some, arith,
}
use mathlib.Core.Path.{subst}
use coreir.InstanceGraph.{Users, Sorting, set_mark, push_sorted, visit_each, sort_visit}

-- Each node once, and before all the nodes of its list.
abbrev pub Ordered : Users → List ℕ → Type 0
Ordered u [] = Unit {0}
Ordered u (n ∷ ns) =
    (member n ns ≡ false) × ((m : ℕ) → member m (u n) ≡ true → member m ns ≡ true) × Ordered u ns

-- The nodes of mark 2 are those that were sorted.
pub record IsSorted (u : Users) (s : Sorting) : Type 0 where
  pub ordered : Ordered u s.sorted_nodes
  pub marked : (x : ℕ) → (s.mark x == 2) ≡ member x s.sorted_nodes

-- A later state: no node is lost, and the same nodes are being visited.
pub record IsAfter (s t : Sorting) : Type 0 where
  pub kept : (x : ℕ) → member x s.sorted_nodes ≡ true → member x t.sorted_nodes ≡ true
  pub open_kept : (x : ℕ) → (t.mark x == 1) ≡ (s.mark x == 1)

pub IsAfter-trans : (r s t : Sorting) → IsAfter r s → IsAfter s t → IsAfter r t
IsAfter-trans r s t a b = record {
  kept = λ x h. b.kept x (a.kept x h);
  open_kept = λ x. b.open_kept x ∙ a.open_kept x;
}

pub IsAfter-refl : (s : Sorting) → IsAfter s s
IsAfter-refl s = record { kept = λ x h. h; open_kept = λ x. refl }

abbrev pub Visits : Users → ℕ → (s t : Sorting) → Type 0
Visits u n s t = IsSorted u t × IsAfter s t × (member n t.sorted_nodes ≡ true)

pub visit_each_lem :
    (u : Users) (visit : ℕ → Sorting → Option Sorting)
    → ((n : ℕ) (s t : Sorting) → IsSorted u s → visit n s ≡ some t → Visits u n s t)
    → (ns : List ℕ) (s t : Sorting) → IsSorted u s
    → visit_each visit ns s ≡ some t
    → IsSorted u t × IsAfter s t × ((x : ℕ) → member x ns ≡ true → member x t.sorted_nodes ≡ true)
unfolding visit_each
visit_each_lem u visit ok [] s t o h =
    let same : s ≡ t = ground (arith, h) in
    (subst (IsSorted u) same o, subst (IsAfter s) same (IsAfter-refl s), λ x m. ground (arith, m))
visit_each_lem u visit ok (n ∷ ns) s t o h =
    let (r, first_done, rest) = >>=-eq-some (visit n s) _ h in
    let (or, ar, mr) = ok n s r o first_done in
    let (ot, at, mt) = visit_each_lem u visit ok ns r t or rest in
    (
      ot,
      IsAfter-trans s r t ar at,
      λ x m. elim (Bool-cases (x == n)) [
        | inl here ↦ at.kept x (ap (λ z. member z r.sorted_nodes) (same x n here) ∙ mr)
        | inr there ↦ mt x (ground (arith, m, there))
      ],
    )
  where
    same : (x n : ℕ) → (x == n) ≡ true → x ≡ n
    same x n e = ground arith

-- A visit begins.
pub set_mark-IsSorted :
    (u : Users) (n : ℕ) (s : Sorting)
    → (s.mark n == 2) ≡ false
    → IsSorted u s
    → IsSorted u (set_mark n 1 s)
unfolding set_mark
set_mark-IsSorted u n s h o = record {
  ordered = o.ordered;
  marked = λ x. ground (arith, o.marked x, at x n, h);
}
  where
    at : (x n : ℕ) → (x == n) ≡ true → (s.mark x == 2) ≡ (s.mark n == 2)
    at x n e = ap (λ z. s.mark z == 2) (ground arith)

-- A visit ends.
module _ (u : Users) (n : ℕ) (s t : Sorting) (fresh : (s.mark n == 1) ≡ false) (o : IsSorted u t)
    (a : IsAfter (set_mark n 1 s) t) where
  open_at : (t.mark n == 1) ≡ true
  unfolding set_mark
  open_at = a.open_kept n ∙ ground arith

  not_sorted : member n t.sorted_nodes ≡ false
  not_sorted = sym (o.marked n) ∙ ground (arith, open_at)

  push_sorted-IsSorted :
      ((m : ℕ) → member m (u n) ≡ true → member m t.sorted_nodes ≡ true)
      → IsSorted u (push_sorted n t)
  unfolding push_sorted set_mark
  push_sorted-IsSorted users = record {
    ordered = (not_sorted, users, o.ordered);
    marked = λ x. ground (arith, o.marked x);
  }

  push_sorted-IsAfter : IsAfter s (push_sorted n t)
  unfolding push_sorted set_mark
  push_sorted-IsAfter = record {
    kept = λ x h. ground (arith, a.kept x h);
    open_kept = λ x. ground (arith, a.open_kept x, at x, fresh);
  }
    where
      at : (x : ℕ) → (x == n) ≡ true → (s.mark x == 1) ≡ (s.mark n == 1)
      at x e = ap (λ z. s.mark z == 1) (ground arith)

pub sort_visit_lem :
    (u : Users) (k n : ℕ) (s t : Sorting)
    → IsSorted u s
    → sort_visit u k n s ≡ some t
    → Visits u n s t
unfolding sort_visit
sort_visit_lem u zero n s t o h = cc
sort_visit_lem u (suc k) n s t o h = elim (Bool-cases (s.mark n == 2)) [
  | inl done ↦
      let same : s ≡ t = ground (arith, rw (sort_visit, done) at h) in
      subst (Visits u n s) same (o, IsAfter-refl s, sym (o.marked n) ∙ done)
  | inr new ↦ elim (Bool-cases (s.mark n == 1)) [
    | inl cyclic ↦ absurd (ground (arith, rw (sort_visit, new, cyclic) at h))
    | inr fresh ↦
        let (r, each, last_step) =
          >>=-eq-some (visit_each (sort_visit u k) (u n) (set_mark n 1 s)) _
            (rw (sort_visit, new, fresh) at h) in
        let (or, ar, users) =
          visit_each_lem u (sort_visit u k) (sort_visit_lem u k) (u n) (set_mark n 1 s) r
            (set_mark-IsSorted u n s new o) each in
        subst (Visits u n s) (ground (arith, last_step)) (
          push_sorted-IsSorted u n s r fresh or ar users,
          push_sorted-IsAfter u n s r fresh or ar,
          finished n r,
        )
  ]
]
  where
    finished : (n : ℕ) (r : Sorting) → member n (push_sorted n r).sorted_nodes ≡ true
    finished n r = ground arith
