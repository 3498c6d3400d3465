-- ===== src/InstanceGraph/Users.antt =====
-- The lists of users hold exactly the modules with an instance of the node.
use coreir.Base.{
  ℕ, ◌≡◌, refl, ap, ◌∙◌, sym, Bool, true, false, ◌&&◌, ◌||◌, some, List, [], ◌∷◌, ◌==◌, member,
  >>=-eq-some, arith,
}
use coreir.Iter.Links.{member-append}
use coreir.InstanceGraph.{Modules, Users, push_user, add_instances, populate}

-- Whether the definition of `m` holds an instance of `r`.
abbrev pub instantiates : (m r : ℕ) → Modules → Bool
instantiates m r [] = false
instantiates m r ((n, refs) ∷ ms) = ((m == n) && member r refs) || instantiates m r ms

member-push_user :
    (r n m x : ℕ) (u : Users)
    → member m (push_user r n u x) ≡ (((m == n) && (x == r)) || member m (u x))
unfolding push_user
member-push_user r n m x u = ground (arith, member-append m n (u x))

member-add_instances :
    (nodes : List ℕ) (n : ℕ) (refs : List ℕ) (u v : Users) (m x : ℕ)
    → add_instances nodes n refs u ≡ some v
    → member m (v x) ≡ (((m == n) && member x refs) || member m (u x))
unfolding add_instances
member-add_instances nodes n [] u v m x h =
    let same : u ≡ v = ground (arith, h) in ap (λ w. member m (w x)) (sym same) ∙ ground arith
member-add_instances nodes n (r ∷ refs) u v m x h =
    let h' : add_instances nodes n refs (push_user r n u) ≡ some v = ground (arith, h) in
    ground (
      arith,
      member-add_instances nodes n refs (push_user r n u) v m x h',
      member-push_user r n m x u,
    )

pub member-populate :
    (nodes : List ℕ) (ms : Modules) (u v : Users) (m x : ℕ)
    → populate nodes ms u ≡ some v
    → member m (v x) ≡ (instantiates m x ms || member m (u x))
unfolding populate
member-populate nodes [] u v m x h =
    let same : u ≡ v = ground (arith, h) in ap (λ w. member m (w x)) (sym same)
member-populate nodes ((n, refs) ∷ ms) u v m x h =
    let (u', added, rest) = >>=-eq-some (add_instances nodes n refs u) _ h in
    ground (
      arith,
      member-add_instances nodes n refs u u' m x added,
      member-populate nodes ms u' v m x rest,
    )

-- Each instance is of a module that has a node.
refs_known :
    (nodes : List ℕ) (n : ℕ) (refs : List ℕ) (u v : Users) (x : ℕ)
    → add_instances nodes n refs u ≡ some v
    → member x refs ≡ true
    → member x nodes ≡ true
unfolding add_instances
refs_known nodes n [] u v x h m = cc
refs_known nodes n (r ∷ refs) u v x h m =
    let h' : add_instances nodes n refs (push_user r n u) ≡ some v = ground (arith, h) in
    ground (arith, m, h, refs_known nodes n refs (push_user r n u) v x h', same x r nodes)
  where
    same : (x r : ℕ) (nodes : List ℕ) → (x == r) ≡ true → member x nodes ≡ member r nodes
    same x r nodes e = ap (λ z. member z nodes) (ground arith)

pub instantiates_known :
    (nodes : List ℕ) (ms : Modules) (u v : Users) (m x : ℕ)
    → populate nodes ms u ≡ some v
    → instantiates m x ms ≡ true
    → member x nodes ≡ true
unfolding populate
instantiates_known nodes [] u v m x h i = cc
instantiates_known nodes ((n, refs) ∷ ms) u v m x h i =
    let (u', added, rest) = >>=-eq-some (add_instances nodes n refs u) _ h in
    ground
      (arith, i, refs_known nodes n refs u u' x added, instantiates_known nodes ms u' v m x rest)

-- The lists can be made when every instance is of a module that has a node.
abbrev pub AllKnown : (nodes : List ℕ) → Modules → Type 0
AllKnown nodes [] = Unit {0}
AllKnown nodes ((n, refs) ∷ ms) =
    ((x : ℕ) → member x refs ≡ true → member x nodes ≡ true) × AllKnown nodes ms

add_instances_returns :
    (nodes : List ℕ) (n : ℕ) (refs : List ℕ) (u : Users)
    → ((x : ℕ) → member x refs ≡ true → member x nodes ≡ true)
    → (v : Users) × (add_instances nodes n refs u ≡ some v)
unfolding add_instances
add_instances_returns nodes n [] u k = (u, refl)
add_instances_returns nodes n (r ∷ refs) u k =
    let (v, e) =
      add_instances_returns nodes n refs (push_user r n u) (λ x m. k x (ground (arith, m))) in
    (v, rw (k r (ground arith)) e)

pub populate_returns :
    (nodes : List ℕ) (ms : Modules) (u : Users)
    → AllKnown nodes ms
    → (v : Users) × (populate nodes ms u ≡ some v)
unfolding populate
populate_returns nodes [] u k = (u, refl)
populate_returns nodes ((n, refs) ∷ ms) u (k, ks) =
    let (u', e) = add_instances_returns nodes n refs u k in
    let (v, e') = populate_returns nodes ms u' ks in (v, rw e e')
