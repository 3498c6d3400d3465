-- ===== src/InstanceGraph/Construct.antt =====
-- `construct` sorts the modules: every module stands before the modules that hold its instances.
use coreir.Base.{
  ℕ, ◌<◌, ◌≡◌, refl, ◌∙◌, true, some, List, [], ◌∷◌, ◌==◌, member, Bool-cases, inl, inr,
  >>=-eq-some, arith,
}
use mathlib.Core.Path.{subst}
use coreir.Base.Once.{precedes, NoneTwice}
use coreir.InstanceGraph.{
  Modules, Users, modules_of, populate, unsorted, visit_each, sort_visit, construct,
}
use coreir.InstanceGraph.Users.{
  instantiates, AllKnown, member-populate, instantiates_known, populate_returns,
}
use coreir.InstanceGraph.Order.{Ordered, IsSorted, visit_each_lem, sort_visit_lem}
use coreir.InstanceGraph.Ends.{Falls, visit_each-Returns, sort_visit-Returns}

-- A list of all modules, each once and before the modules that hold its instances.
pub record Sorts (ms : Modules) (sorted : List ℕ) : Type 0 where
  pub complete : (m : ℕ) → member m (modules_of ms) ≡ true → member m sorted ≡ true
  pub once : NoneTwice sorted
  pub dependencies_first : (m r : ℕ) → instantiates m r ms ≡ true → precedes r m sorted ≡ true

Ordered-NoneTwice : (u : Users) (ns : List ℕ) → Ordered u ns → NoneTwice ns
Ordered-NoneTwice u [] o = tt
Ordered-NoneTwice u (n ∷ ns) (one, users, o) = (one, Ordered-NoneTwice u ns o)

precedes-Ordered :
    (u : Users) (r m : ℕ) (ns : List ℕ)
    → Ordered u ns
    → member r ns ≡ true
    → member m (u r) ≡ true
    → precedes r m ns ≡ true
precedes-Ordered u r m [] o h k = cc
precedes-Ordered u r m (n ∷ ns) (one, users, o) h k = elim (Bool-cases (r == n)) [
  | inl here ↦ rw here (users m (subst (λ x. member m (u x) ≡ true) (at r n here) k))
  | inr there ↦ rw there (precedes-Ordered u r m ns o (ground (arith, h, there)) k)
]
  where
    at : (r n : ℕ) → (r == n) ≡ true → r ≡ n
    at r n e = ground arith

unsorted-IsSorted : (u : Users) → IsSorted u unsorted
unsorted-IsSorted u = record { ordered = tt; marked = λ x. refl }

-- Whatever the fuel, a list that `construct` returns has every module, each once, and each before
-- the modules that hold an instance of it. So on modules that hold each other it does not return.
pub construct-Sorts :
    (fuel : ℕ) (ms : Modules) (sorted : List ℕ) → construct fuel ms ≡ some sorted → Sorts ms sorted
unfolding construct
construct-Sorts fuel ms sorted h =
    let nodes = modules_of ms in
    let (u, populated, rest) = >>=-eq-some (populate nodes ms (λ n. [])) _ h in
    let (s, visited, done) = >>=-eq-some (visit_each (sort_visit u fuel) nodes unsorted) _ rest in
    let (o, after, all) =
      visit_each_lem u (sort_visit u fuel) (sort_visit_lem u fuel) nodes unsorted s
        (unsorted-IsSorted u) visited in
    subst (Sorts ms) (ground (arith, done)) (record {
      complete = all;
      once = Ordered-NoneTwice u s.sorted_nodes o.ordered;
      dependencies_first = λ m r i.
          precedes-Ordered u r m s.sorted_nodes o.ordered
            (all r (instantiates_known nodes ms (λ n. []) u m r populated i))
            (member-populate nodes ms (λ n. []) u m r populated ∙ ground (arith, i));
    })

-- When every instance is of a module that has a node, and no module holds itself through others, which
-- a rank shows that is lower for a module than for the modules of its instances, then `construct`
-- returns; a fuel above all ranks is enough.
pub construct_returns :
    (fuel : ℕ) (ms : Modules) (rank : ℕ → ℕ)
    → AllKnown (modules_of ms) ms
    → ((m r : ℕ) → instantiates m r ms ≡ true → rank m < rank r)
    → ((m : ℕ) → member m (modules_of ms) ≡ true → rank m < fuel)
    → (sorted : List ℕ) × (construct fuel ms ≡ some sorted) × Sorts ms sorted
unfolding construct
construct_returns fuel ms rank known falls low =
    let nodes = modules_of ms in
    let (u, populated) = populate_returns nodes ms (λ n. []) known in
    let down : Falls u rank =
      λ r m h. falls m r (ground (arith, h, member-populate nodes ms (λ n. []) u m r populated)) in
    let (s, visited) =
      visit_each-Returns u rank down fuel (sort_visit-Returns u rank down fuel) nodes unsorted
        (unsorted-IsSorted u) λ m h. (λ x is_open. absurd (ground (arith, is_open)), low m h) in
    let returned : construct fuel ms ≡ some s.sorted_nodes = rw (populated, visited) refl in
    (s.sorted_nodes, returned, construct-Sorts fuel ms s.sorted_nodes returned)
