-- ===== src/Iter/Tests.antt =====
-- The order of the instances at a concrete state.
use coreir.Base.{◌==◌, if◌then◌else◌, none, ℕ, ◌≡◌, refl, some, List, [], ◌∷◌, ◌++◌, ◌>>=◌, arith}
use coreir.Iter.{Iter, no_instances, append_instance, remove_instance, instances_from}
use coreir.Iter.Links.{Represents, append_instance-Represents}
use coreir.Iter.Remove.{drop_instance, remove_instance-Represents}

-- The maps after the instances 5, 3 and 8 were appended.
abbrev three : Iter
three = record {
  first = 5;
  last = 8;
  next_map =
      λ i. if i == 5 then some 3 else if i == 3 then some 8 else if i == 8 then some 0 else none;
  prev_map =
      λ i. if i == 5 then some 0 else if i == 3 then some 5 else if i == 8 then some 3 else none;
}

abbrev order : List ℕ
order = 5 ∷ 3 ∷ 8 ∷ []

three-Represents : Represents three order
three-Represents = ground arith

appended_in_order :
    (append_instance 5 no_instances >>= append_instance 3 >>= append_instance 8 >>= λ s.
    instances_from 4 s.first s)
    ≡ some order
unfolding append_instance instances_from
appended_in_order = refl

removed_from_middle :
    (remove_instance 3 three >>= λ s. instances_from 4 s.first s) ≡ some (5 ∷ 8 ∷ [])
unfolding remove_instance instances_from
removed_from_middle = refl

append_instance-Represents_example :
    (t : Iter) × (append_instance 7 three ≡ some t) × Represents t (order ++ 7 ∷ [])
append_instance-Represents_example =
    append_instance-Represents 7 three order three-Represents (omega arith) refl

remove_instance-Represents_example :
    (t : Iter) × (remove_instance 3 three ≡ some t) × Represents t (drop_instance 3 order)
remove_instance-Represents_example = remove_instance-Represents 3 three order three-Represents refl
