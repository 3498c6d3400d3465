-- ===== src/Iter/Links.antt =====
-- The maps stand for a list of instances: appending to them is appending to the list, and the loop
-- over them runs through the list.
use coreir.Base.{
  member, ℕ, ◌≡◌, ◌≢◌, refl, sym, ap, ◌∙◌, true, false, ◌||◌, some, List, [], ◌∷◌, ◌++◌, ◌==◌,
  length, arith,
}
use coreir.Iter.{Pointers, set_pointer, Iter, append_instance, get_next, instances_from}

abbrev pub head_or_null : List ℕ → ℕ
head_or_null [] = 0
head_or_null (x ∷ xs) = x

-- From behind `prev` on the maps lead through the instances of the list to the last.
abbrev pub Links : Iter → (prev : ℕ) → List ℕ → Type 0
Links s prev [] = s.last ≡ prev
Links s prev (x ∷ xs) =
    (x ≢ 0)
    × (s.prev_map x ≡ some prev)
    × (s.next_map x ≡ some (head_or_null xs))
    × (member x xs ≡ false)
    × Links s x xs

-- The state stands for the list.
abbrev pub Represents : Iter → List ℕ → Type 0
Represents s xs = (s.first ≡ head_or_null xs) × Links s 0 xs

pub last-member :
    (s : Iter) (p x : ℕ) (xs : List ℕ) → Links s p (x ∷ xs) → member s.last (x ∷ xs) ≡ true
last-member s p x [] l = ground (arith, l)
last-member s p x (y ∷ ys) l = ground (arith, last-member s x y ys l.4)

last_next :
    (s : Iter) (p x : ℕ) (xs : List ℕ)
    → Links s p (x ∷ xs)
    → (s.next_map s.last ≡ some 0) × (s.last ≢ 0)
last_next s p x [] (nz, pr, nx, out, rest) = (rw rest nx, rw rest nz)
last_next s p x (y ∷ ys) l = last_next s x y ys l.4

appended : ℕ → Iter → Iter
appended i s = record {
  first = s.first;
  last = i;
  next_map = set_pointer (set_pointer s.next_map s.last i) i 0;
  prev_map = set_pointer s.prev_map i s.last;
}

pub member-append : (x i : ℕ) (xs : List ℕ) → member x (xs ++ i ∷ []) ≡ (member x xs || (x == i))
member-append x i [] = ground arith
member-append x i (y ∷ ys) = ground (arith, member-append x i ys)

head_or_null-append : (i y : ℕ) (ys : List ℕ) → head_or_null ((y ∷ ys) ++ i ∷ []) ≡ y
head_or_null-append i y ys = refl

pub set_pointer_other :
    (m : Pointers) (at to i : ℕ) → (i == at) ≡ false → set_pointer m at to i ≡ m i
unfolding set_pointer
set_pointer_other m at to i h = rw h refl

pub set_pointer_self : (m : Pointers) (at to : ℕ) → set_pointer m at to at ≡ some to
unfolding set_pointer
set_pointer_self m at to = ground arith

same_member : (x a : ℕ) (zs : List ℕ) → (x == a) ≡ true → member x zs ≡ member a zs
same_member x a zs h = ap (λ z. member z zs) (ground arith)

pub member-ne :
    (x a : ℕ) (zs : List ℕ) → member a zs ≡ true → member x zs ≡ false → (x == a) ≡ false
member-ne x a zs h k = ground (arith, same_member x a zs)

pub member-cons_ne : (i x : ℕ) (xs : List ℕ) → member i (x ∷ xs) ≡ false → (x == i) ≡ false
member-cons_ne i x xs h = ground arith

Links-appended :
    (i : ℕ) (s : Iter) (p : ℕ) (xs : List ℕ)
    → i ≢ 0
    → member i xs ≡ false
    → Links s p xs
    → Links (appended i s) p (xs ++ i ∷ [])
unfolding appended set_pointer
Links-appended i s p [] nz out l = (
  nz,
  set_pointer_self s.prev_map i s.last ∙ ap some l,
  set_pointer_self (set_pointer s.next_map s.last i) i 0,
  refl,
  refl,
)
Links-appended i s p (x ∷ []) nz out (xnz, pr, nx, dup, l) =
    let ne = member-cons_ne i x [] out in
    (
      xnz,
      set_pointer_other s.prev_map i s.last x ne ∙ pr,
      set_pointer_other (set_pointer s.next_map s.last i) i 0 x ne
          ∙ (ap (set_pointer s.next_map s.last i) (sym l) ∙ set_pointer_self s.next_map s.last i),
      ground (arith, out),
      Links-appended i s x [] nz refl l,
    )
Links-appended i s p (x ∷ y ∷ ys) nz out (xnz, pr, nx, dup, l) =
    let ne = member-cons_ne i x (y ∷ ys) out in
    let behind = member-ne x s.last (y ∷ ys) (last-member s x y ys l) dup in
    (
      xnz,
      set_pointer_other s.prev_map i s.last x ne ∙ pr,
      set_pointer_other (set_pointer s.next_map s.last i) i 0 x ne
          ∙ (set_pointer_other s.next_map s.last i x behind ∙ nx),
      member-append x i (y ∷ ys) ∙ ground (arith, ne, dup),
      Links-appended i s x (y ∷ ys) nz (ground (arith, out)) l,
    )

-- Appending an instance that is not in the list succeeds, and the new state stands for the list with
-- the instance at its end.
pub append_instance-Represents :
    (i : ℕ) (s : Iter) (xs : List ℕ)
    → Represents s xs
    → i ≢ 0
    → member i xs ≡ false
    → (t : Iter) × (append_instance i s ≡ some t) × Represents t (xs ++ i ∷ [])
unfolding append_instance appended
append_instance-Represents i s [] (f, l) nz out = (
  record {
    first = i;
    last = i;
    next_map = set_pointer s.next_map i 0;
    prev_map = set_pointer s.prev_map i 0;
  },
  ground (arith, f, l),
  (refl, (nz, set_pointer_self s.prev_map i 0, set_pointer_self s.next_map i 0, refl, refl)),
)
append_instance-Represents i s (x ∷ xs) (f, l) nz out =
    let (ends, lnz) = last_next s 0 x xs l in
    (appended i s, ground (arith, f, l.0, ends, lnz), (f, Links-appended i s 0 (x ∷ xs) nz out l))

loop_Links :
    (s : Iter) (p : ℕ) (xs : List ℕ)
    → Links s p xs
    → instances_from (length xs) (head_or_null xs) s ≡ some xs
unfolding instances_from get_next
loop_Links s p [] l = refl
loop_Links s p (x ∷ xs) (nz, pr, nx, out, l) = ground (arith, nz, nx, loop_Links s x xs l)

-- The loop over the instances sees those of the list, in their order.
pub instances_from-Represents :
    (s : Iter) (xs : List ℕ) → Represents s xs → instances_from (length xs) s.first s ≡ some xs
instances_from-Represents s xs (f, l) =
    ap (λ i. instances_from (length xs) i s) f ∙ loop_Links s 0 xs l
