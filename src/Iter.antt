-- ===== src/Iter.antt =====
-- The order in which a definition hands out its instances: `appendInstanceToIter`,
-- `removeInstanceFromIter` and `getInstancesIterNext` of src/ir/moduledef.cpp. A pointer to an
-- instance is a number and `nullptr` is 0, which the two maps have as a key, too.
pub mod Links
pub mod Remove
mod Tests
use coreir.Base.{
  ℕ, zero, suc, Bool, true, false, not, ◌&&◌, Option, none, some, List, [], ◌∷◌, ◌>>=◌, ◌>>◌, guard,
  ◌==◌, if◌then◌else◌,
}

-- A `std::map` from instances to instances.
abbrev pub Pointers : Type 0
Pointers = ℕ → Option ℕ

unfoldable pub set_pointer : Pointers → (at to : ℕ) → Pointers
set_pointer m at to i = if i == at then some to else m i

-- `map[key]`, read: a missing key has the null pointer.
abbrev pub pointer_at : Pointers → ℕ → ℕ
pointer_at m i = elim (m i) [ none ↦ 0 | some p ↦ p ]

abbrev pub has_key : Pointers → ℕ → Bool
has_key m i = elim (m i) [ none ↦ false | some p ↦ true ]

-- `instancesIterFirst`, `instancesIterLast`, `instancesIterNextMap` and `instancesIterPrevMap`.
pub record Iter : Type 0 where
  pub first : ℕ
  pub last : ℕ
  pub next_map : Pointers
  pub prev_map : Pointers

abbrev pub no_instances : Iter
no_instances = record { first = 0; last = 0; next_map = λ i. none; prev_map = λ i. none }

unfoldable pub append_instance : ℕ → Iter → Option Iter
unfolding set_pointer
append_instance i s = elim (s.first == 0) [
  | true ↦ do
    guard (s.last == 0)
    some (record {
      first = i;
      last = i;
      next_map = set_pointer s.next_map i 0;
      prev_map = set_pointer s.prev_map i 0;
    })
  | false ↦ do
    guard (not (s.last == 0))
    guard (pointer_at s.next_map s.last == 0)
    some (record {
      first = s.first;
      last = i;
      next_map = set_pointer (set_pointer s.next_map s.last i) i 0;
      prev_map = set_pointer s.prev_map i s.last;
    })
]

unfoldable pub remove_instance : ℕ → Iter → Option Iter
unfolding set_pointer
remove_instance i s = do
  guard (has_key s.next_map i)
  guard (has_key s.prev_map i)
  let next = pointer_at s.next_map i
  let prev = pointer_at s.prev_map i
  some (record {
    first = if i == s.first then next else s.first;
    last = if i == s.last then prev else s.last;
    next_map = set_pointer s.next_map prev next;
    prev_map = set_pointer s.prev_map next prev;
  })

unfoldable pub get_next : ℕ → Iter → Option ℕ
get_next i s = do guard (not (i == 0)); s.next_map i

-- The loop `for (i = begin; i != end; i = next(i))`, on fuel.
unfoldable pub instances_from : (fuel : ℕ) → ℕ → Iter → Option (List ℕ)
unfolding get_next
instances_from zero i s = if i == 0 then some [] else none
instances_from (suc k) i s = elim (i == 0) [
  | true ↦ some []
  | false ↦ do n ← get_next i s; rest ← instances_from k n s; some (i ∷ rest)
]
