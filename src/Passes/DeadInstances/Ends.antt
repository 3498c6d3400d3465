-- ===== src/Passes/DeadInstances/Ends.antt =====
-- The pass ends, and then every instance that is left drives something.
use mathlib.Core.Path.{subst}
use coreir.Base.{
  ℕ, zero, suc, ◌+◌, ◌<◌, ◌≡◌, refl, sym, ap, ◌∙◌, Bool, true, false, ◌||◌, Option, some, List, [],
  ◌∷◌, ◌>>=◌, Bool-cases, inl, inr, length, arith,
}
use coreir.Base.Pairs.{Pairs}
use coreir.Names.{Name, name_eq}
use coreir.Names.Equal.{name_eq_sound, name_eq_self}
use coreir.Types.{HwType}
use coreir.Wireable.{Wireable}
use coreir.ModuleDef.{ModuleDef, Instances, erase_instance}
use coreir.ModuleDef.Consistent.{IsConsistent, IsWithout, remove_instance-IsConsistent}
use coreir.Passes.DeadInstances.{has_output_connection, find_dead, remove_each, delete_loop}
use coreir.ModuleDef.Listed.{has_name, has_name-erase, AllListed}

-- Names of instances, none twice.
abbrev pub has : Name → List Name → Bool
has n [] = false
has n (m ∷ ms) = name_eq n m || has n ms

abbrev NamesIn : Instances → List Name → Type 0
NamesIn is [] = Unit {0}
NamesIn is (n ∷ ns) = (has_name n is ≡ true) × (has n ns ≡ false) × NamesIn is ns

names_left :
    (n : Name) (is : Instances) (ns : List Name)
    → has n ns ≡ false
    → NamesIn is ns
    → NamesIn (erase_instance n is) ns
names_left n is [] h l = tt
names_left n is (m ∷ ms) h (at, one, l) = (
  has_name-erase m n is (other m n (ground arith)) ∙ at,
  one,
  names_left n is ms (ground arith) l,
)
  where
    other : (m n : Name) → name_eq n m ≡ false → name_eq m n ≡ false
    other m n h = elim (Bool-cases (name_eq m n)) [
      | inl e ↦
          absurd (clash (sym h ∙ (ap (λ x. name_eq n x) (name_eq_sound m n e) ∙ name_eq_self n)))
      | inr e ↦ e
    ]
      where
        clash : false ≡ true → ⊥
        clash p = cc

names_more :
    (m : Name) (w : Wireable) (is : Instances) (ns : List Name)
    → NamesIn is ns
    → NamesIn ((m, w) ∷ is) ns
names_more m w is [] l = tt
names_more m w is (n ∷ ns) (at, one, l) = (ground (arith, at), one, names_more m w is ns l)

module _ (type_of : ℕ → HwType) where
  pub not_dead :
      (n : Name) (s : Pairs) (is : Instances)
      → has_name n is ≡ false
      → has n (find_dead type_of s is) ≡ false
  unfolding find_dead
  not_dead n s [] h = refl
  not_dead n s ((m, w) ∷ is) h = ground (arith, not_dead n s is)

  dead_names :
      (s : Pairs) (order : List ℕ) (is : Instances)
      → AllListed order is
      → NamesIn is (find_dead type_of s is)
  unfolding find_dead
  dead_names s order [] l = tt
  dead_names s order ((m, w) ∷ is) (at, one, name, l) =
      elim (Bool-cases (has_output_connection type_of s w)) [
        | inl alive ↦
            rw alive (names_more m w is (find_dead type_of s is) (dead_names s order is l))
        | inr dead ↦ rw dead (
          ground (arith, name_eq_self m),
          not_dead m s is name,
          names_more m w is (find_dead type_of s is) (dead_names s order is l),
        )
      ]

  -- Every instance that is left drives something.
  abbrev pub AllAlive : Pairs → Instances → Type 0
  AllAlive s [] = Unit {0}
  AllAlive s ((m, w) ∷ is) = (has_output_connection type_of s w ≡ true) × AllAlive s is

  alive_of_none_dead : (s : Pairs) (is : Instances) → find_dead type_of s is ≡ [] → AllAlive s is
  unfolding find_dead
  alive_of_none_dead s [] h = tt
  alive_of_none_dead s ((m, w) ∷ is) h = ground (arith, alive_of_none_dead s is)

-- What a round keeps (`P`) of the definition, if the names that it removes are all of one kind (`Q`).
abbrev pub AllOf : (Name → Type 0) → List Name → Type 0
AllOf Q [] = Unit {0}
AllOf Q (n ∷ ns) = Q n × AllOf Q ns

module _ (type_of : ℕ → HwType) (P : ModuleDef → Type 0) (Q : Name → Type 0)
    (kind : (d : ModuleDef) (order : List ℕ)
      → IsConsistent d order
      → P d
      → AllOf Q (find_dead type_of d.wiring.connected d.instances))
    (keep : (n : Name) (inst : Wireable) (d t : ModuleDef)
      → IsWithout n inst d t
      → Q n
      → P d
      → P t) where
  remove_each-IsConsistent :
      (ns : List Name) (d : ModuleDef) (order : List ℕ)
      → IsConsistent d order
      → NamesIn d.instances ns
      → P d
      → AllOf Q ns
      → (t : ModuleDef) × (order' : List ℕ) × (remove_each ns d ≡ some t)
        × IsConsistent t order'
        × P t
        × (length t.instances + length ns ≡ length d.instances)
  unfolding remove_each
  remove_each-IsConsistent [] d order c l p q = (d, order, refl, c, p, omega arith)
  remove_each-IsConsistent (n ∷ ns) d order c (at, one, l) p (q, qs) =
      let (t, order', removed, c', (inst, w), size) = remove_instance-IsConsistent n d order c at in
      let (t', order'', rest, c'', p', size') =
        remove_each-IsConsistent ns t order' c'
          (subst (λ is. NamesIn is ns) (sym w.gone) (names_left n d.instances ns one l))
          (keep n inst d t w q p) qs in
      (
        t',
        order'',
        ap (λ m. m >>= remove_each ns) removed ∙ rest,
        c'',
        p',
        omega (arith, size, size'),
      )

  abbrev pub Ends : Option (ModuleDef × Bool) → Type 0
  Ends result =
      (t : ModuleDef) × (order' : List ℕ) × (result ≡ some (t, false))
      × IsConsistent t order'
      × P t
      × AllAlive type_of t.wiring.connected t.instances

  delete_round :
      (k : ℕ) (d : ModuleDef) (order : List ℕ) (dead : List Name)
      → find_dead type_of d.wiring.connected d.instances ≡ dead
      → IsConsistent d order
      → P d
      → length d.instances < suc k
      → ((t : ModuleDef) (order' : List ℕ)
          → IsConsistent t order'
          → P t
          → length t.instances < k
          → Ends (delete_loop type_of k t))
      → Ends (delete_loop type_of (suc k) d)
  unfolding delete_loop
  delete_round k d order [] e c p lt next = (
    d,
    order,
    rw (delete_loop, e) refl,
    c,
    p,
    alive_of_none_dead type_of d.wiring.connected d.instances e,
  )
  delete_round k d order (n ∷ ns) e c p lt next =
      let names =
        subst (NamesIn d.instances) e
          (dead_names type_of d.wiring.connected order d.instances c.listed) in
      let (t, order', removed, c', p', size) =
        remove_each-IsConsistent (n ∷ ns) d order c names p
          (subst (AllOf Q) e (kind d order c p)) in
      let (t', order'', ends, c'', p'', alive) = next t order' c' p' (omega (arith, size, lt)) in
      (
        t',
        order'',
        rw (delete_loop, e) (ap (λ m. m >>= delete_loop type_of k) removed ∙ ends),
        c'',
        p'',
        alive,
      )

  pub delete_loop-Ends :
      (k : ℕ) (d : ModuleDef) (order : List ℕ)
      → IsConsistent d order
      → P d
      → length d.instances < k
      → Ends (delete_loop type_of k d)
  delete_loop-Ends zero d order c p lt = absurd (omega arith)
  delete_loop-Ends (suc k) d order c p lt =
      delete_round k d order (find_dead type_of d.wiring.connected d.instances) refl c p lt
        (delete_loop-Ends k)
