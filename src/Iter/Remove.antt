-- ===== src/Iter/Remove.antt =====
-- Removing an instance from the maps removes it from the list that they stand for.
use mathlib.Core.Path.{subst}
use coreir.Base.{
  member, ℕ, ◌≡◌, ◌≢◌, ◌⊎◌, inl, inr, refl, sym, ap, ◌∙◌, true, false, some, List, [], ◌∷◌, ◌==◌,
  Bool-cases, if◌then◌else◌, arith,
}
use coreir.Iter.{set_pointer, Iter, remove_instance}
use coreir.Iter.Links.{
  head_or_null, Links, Represents, last-member, set_pointer_other, set_pointer_self, member-ne,
}

-- The list without the instance.
abbrev pub drop_instance : ℕ → List ℕ → List ℕ
drop_instance i [] = []
drop_instance i (x ∷ xs) = if i == x then xs else x ∷ drop_instance i xs

-- The neighbours that the maps give an instance of the list.
next_of :
    (s : Iter) (i q : ℕ) (xs : List ℕ)
    → Links s q xs
    → member i xs ≡ true
    → (n : ℕ) × (s.next_map i ≡ some n) × ((n ≡ 0) ⊎ (member n xs ≡ true))
next_of s i q [] l m = cc
next_of s i q (x ∷ xs) (nz, pr, nx, out, l) m = elim (Bool-cases (i == x)) [
  | inl here ↦ (head_or_null xs, ap s.next_map (ground (arith, here)) ∙ nx, head_in x xs)
  | inr there ↦
      let (n, e, at) = next_of s i x xs l (ground (arith, there, m)) in (n, e, further x n xs at)
]
  where
    head_in :
        (x : ℕ) (xs : List ℕ) → (head_or_null xs ≡ 0) ⊎ (member (head_or_null xs) (x ∷ xs) ≡ true)
    head_in x [] = inl refl
    head_in x (y ∷ ys) = inr (ground arith)

    further :
        (x n : ℕ) (xs : List ℕ)
        → (n ≡ 0) ⊎ (member n xs ≡ true)
        → (n ≡ 0) ⊎ (member n (x ∷ xs) ≡ true)
    further x n xs (inl z) = inl z
    further x n xs (inr h) = inr (ground arith)

prev_of :
    (s : Iter) (i q : ℕ) (xs : List ℕ)
    → Links s q xs
    → member i xs ≡ true
    → (p : ℕ) × (s.prev_map i ≡ some p) × (((p ≡ q) × (i ≡ head_or_null xs)) ⊎ (member p xs ≡ true))
prev_of s i q [] l m = cc
prev_of s i q (x ∷ xs) (nz, pr, nx, out, l) m = elim (Bool-cases (i == x)) [
  | inl here ↦ let e : i ≡ x = ground (arith, here) in (q, ap s.prev_map e ∙ pr, inl (refl, e))
  | inr there ↦
      let (p, e, at) = prev_of s i x xs l (ground (arith, there, m)) in
      (p, e, inr (behind x p i xs at))
]
  where
    behind :
        (x p i : ℕ) (xs : List ℕ)
        → ((p ≡ x) × (i ≡ head_or_null xs)) ⊎ (member p xs ≡ true)
        → member p (x ∷ xs) ≡ true
    behind x p i xs (inl (e, h)) = ground arith
    behind x p i xs (inr h) = ground arith

member-drop_instance :
    (x i : ℕ) (xs : List ℕ) → member x xs ≡ false → member x (drop_instance i xs) ≡ false
member-drop_instance x i [] h = refl
member-drop_instance x i (y ∷ ys) h = ground (arith, member-drop_instance x i ys)

removed : (i p n : ℕ) → Iter → Iter
removed i p n s = record {
  first = if i == s.first then n else s.first;
  last = if i == s.last then p else s.last;
  next_map = set_pointer s.next_map p n;
  prev_map = set_pointer s.prev_map n p;
}

-- A part of the list without the instance and its neighbours is as before.
untouched :
    (s : Iter) (i p n q : ℕ) (xs : List ℕ)
    → (i == s.last) ≡ false
    → member p xs ≡ false
    → member n xs ≡ false
    → Links s q xs
    → Links (removed i p n s) q xs
unfolding removed
untouched s i p n q [] nl hp hn l = rw nl l
untouched s i p n q (x ∷ xs) nl hp hn (nz, pr, nx, out, l) = (
  nz,
  set_pointer_other s.prev_map n p x (ground (arith, hn)) ∙ pr,
  set_pointer_other s.next_map p n x (ground (arith, hp)) ∙ nx,
  out,
  untouched s i p n x xs nl (ground (arith, hp)) (ground (arith, hn)) l,
)

-- The part behind the instance hangs at the instance before it.
joined :
    (s : Iter) (i p : ℕ) (xs : List ℕ)
    → member p xs ≡ false
    → member i xs ≡ false
    → Links s i xs
    → Links (removed i p (head_or_null xs) s) p xs
unfolding removed
joined s i p [] hp hi l = ground (arith, l)
joined s i p (x ∷ xs) hp hi (nz, pr, nx, out, l) = (
  nz,
  set_pointer_self s.prev_map x p,
  set_pointer_other s.next_map p x x (ground (arith, hp)) ∙ nx,
  out,
  untouched s i p x x xs
      (member-ne i s.last (x ∷ xs) (last-member s i x xs (nz, pr, nx, out, l)) hi)
      (ground (arith, hp)) out l,
)

-- At the head of a part the instance goes; further on the head stays.
at_head :
    (s : Iter) (i p n q x : ℕ) (xs : List ℕ)
    → s.prev_map i ≡ some p
    → s.next_map i ≡ some n
    → member q (x ∷ xs) ≡ false
    → i ≡ x
    → Links s q (x ∷ xs)
    → Links (removed i p n s) q xs
at_head s i p n q x xs hp hn out e (nz, pr, nx, dup, l) =
    let pe : q ≡ p = ground (arith, pr, hp, ap s.prev_map e) in
    let ne : head_or_null xs ≡ n = ground (arith, nx, hn, ap s.next_map e) in
    subst (λ k. Links (removed i p k s) q xs) ne
      (subst (λ k. Links (removed i k (head_or_null xs) s) q xs) pe
        (joined s i q xs (ground (arith, out)) (ap (λ k. member k xs) e ∙ dup)
          (subst (λ k. Links s k xs) (sym e) l)))

second :
    (s : Iter) (i p n x y : ℕ) (ys : List ℕ)
    → s.prev_map i ≡ some p
    → s.next_map i ≡ some n
    → member x (y ∷ ys) ≡ false
    → s.next_map x ≡ some y
    → Links s x (y ∷ ys)
    → member i (y ∷ ys) ≡ true
    → (removed i p n s).next_map x ≡ some (head_or_null (drop_instance i (y ∷ ys)))
unfolding removed
second s i p n x y ys hp hn out nx l m = elim (Bool-cases (i == y)) [
  | inl here ↦
      let e : i ≡ y = ground (arith, here) in
      let xe : x ≡ p = ground (arith, l.1, hp, ap s.prev_map e) in
      let ne : head_or_null ys ≡ n = ground (arith, l.2, hn, ap s.next_map e) in
      rw here
        (ap (set_pointer s.next_map p n) xe ∙ (set_pointer_self s.next_map p n ∙ ap some (sym ne)))
  | inr there ↦
      let (p', e, at) = prev_of s i x (y ∷ ys) l m in
      let pe : p' ≡ p = ground (arith, e, hp) in
      rw there (set_pointer_other s.next_map p n x (apart x p' p i y ys pe there out at) ∙ nx)
]
  where
    apart :
        (x p' p i y : ℕ) (ys : List ℕ)
        → p' ≡ p
        → (i == y) ≡ false
        → member x (y ∷ ys) ≡ false
        → ((p' ≡ x) × (i ≡ y)) ⊎ (member p' (y ∷ ys) ≡ true)
        → (x == p) ≡ false
    apart x p' p i y ys pe there out (inl (a, b)) = ground arith
    apart x p' p i y ys pe there out (inr h) =
        ap (λ k. x == k) (sym pe) ∙ member-ne x p' (y ∷ ys) h out

in_front : (i x : ℕ) → i ≡ x → (i == x) ≡ true
in_front i x e = ground arith

Links-removed :
    (s : Iter) (i p n q : ℕ) (xs : List ℕ)
    → s.prev_map i ≡ some p
    → s.next_map i ≡ some n
    → member q xs ≡ false
    → member i xs ≡ true
    → Links s q xs
    → Links (removed i p n s) q (drop_instance i xs)
unfolding removed
Links-removed s i p n q [] hp hn out m l = cc
Links-removed s i p n q (x ∷ []) hp hn out m l =
    let e : i ≡ x = ground arith in rw (in_front i x e) (at_head s i p n q x [] hp hn out e l)
Links-removed s i p n q (x ∷ y ∷ ys) hp hn out m (nz, pr, nx, dup, l) = elim (Bool-cases (i == x)) [
  | inl here ↦
      rw here (at_head s i p n q x (y ∷ ys) hp hn out (ground (arith, here)) (nz, pr, nx, dup, l))
  | inr there ↦
      let mi : member i (y ∷ ys) ≡ true = ground (arith, there, m) in
      let (n', e, at) = next_of s i x (y ∷ ys) l mi in
      rw there (
        nz,
        set_other_prev s p n n' x (y ∷ ys) (ground (arith, e, hn)) nz dup at ∙ pr,
        second s i p n x y ys hp hn dup nx l mi,
        member-drop_instance x i (y ∷ ys) dup,
        Links-removed s i p n x (y ∷ ys) hp hn dup mi l,
      )
]
  where
    set_other_prev :
        (s : Iter) (p n n' x : ℕ) (zs : List ℕ)
        → n' ≡ n
        → x ≢ 0
        → member x zs ≡ false
        → (n' ≡ 0) ⊎ (member n' zs ≡ true)
        → set_pointer s.prev_map n p x ≡ s.prev_map x
    set_other_prev s p n n' x zs ne nz out (inl z) =
        set_pointer_other s.prev_map n p x (ground arith)
    set_other_prev s p n n' x zs ne nz out (inr h) =
        set_pointer_other s.prev_map n p x (ap (λ k. x == k) (sym ne) ∙ member-ne x n' zs h out)

first-removed :
    (s : Iter) (i p n : ℕ) (xs : List ℕ)
    → Represents s xs
    → member i xs ≡ true
    → s.next_map i ≡ some n
    → (removed i p n s).first ≡ head_or_null (drop_instance i xs)
unfolding removed
first-removed s i p n [] (f, l) m hn = cc
first-removed s i p n (x ∷ xs) (f, l) m hn = ground (arith, f, l.2, hn, same_next s i x)
  where
    same_next : (s : Iter) (i x : ℕ) → (i == x) ≡ true → s.next_map i ≡ s.next_map x
    same_next s i x h = ap s.next_map (ground arith)

no_null : (s : Iter) (q : ℕ) (xs : List ℕ) → Links s q xs → member 0 xs ≡ false
no_null s q [] l = refl
no_null s q (x ∷ xs) (nz, pr, nx, dup, l) = ground (arith, nz, no_null s x xs l)

-- Removing an instance of the list succeeds, and the new state stands for the list without it.
pub remove_instance-Represents :
    (i : ℕ) (s : Iter) (xs : List ℕ)
    → Represents s xs
    → member i xs ≡ true
    → (t : Iter) × (remove_instance i s ≡ some t) × Represents t (drop_instance i xs)
unfolding remove_instance removed
remove_instance-Represents i s xs (f, l) m =
    let (n, hn, nat) = next_of s i 0 xs l m in
    let (p, hp, pat) = prev_of s i 0 xs l m in
    (
      removed i p n s,
      ground (arith, hn, hp),
      (
        first-removed s i p n xs (f, l) m hn,
        Links-removed s i p n 0 xs hp hn (no_null s 0 xs l) m l,
      ),
    )
