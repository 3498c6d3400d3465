-- ===== src/Types/Record.antt =====
-- Making record types: the constructor of `RecordType`, `appendField` and `detachField`. The field
-- `record` is a `std::map`, which its readers see in the order of the names.
pub mod Edit
use coreir.Base.{
  ℕ, Bool, true, false, not, ◌&&◌, ◌||◌, Option, none, some, List, [], ◌∷◌, ◌>>=◌, ◌>>◌, guard, ltb,
  ◌==◌, if◌then◌else◌,
}
use coreir.Names.{Name, name_eq, name_lt, check_string_syntax}
use coreir.Types.{HwType, record_type, Fields, end, field, DirKind, dk_null, dir_eq, dir_set}
use coreir.Types.Select.{lookup_field}

abbrev pub has_field : Name → Fields → Bool
has_field s fs = elim (lookup_field s fs) [ none ↦ false | some t ↦ true ]

-- `record.emplace`, which does nothing for a name that is there.
unfoldable pub insert_sorted : Name → HwType → Fields → Fields
insert_sorted n t end = field n t end
insert_sorted n t (field m u fs) =
    if name_lt n m then field n t (field m u fs) else field m u (insert_sorted n t fs)

unfoldable pub emplace : Name → HwType → Fields → Fields
unfolding insert_sorted
emplace n t fs = if has_field n fs then fs else insert_sorted n t fs

-- `getRecord`, of a type that was made from `params`.
unfoldable pub record_from : Fields → Fields → Fields
unfolding emplace
record_from fields end = fields
record_from fields (field n t params) = record_from (emplace n t fields) params

unfoldable pub get_record : Fields → Fields
unfolding record_from
get_record params = record_from end params

abbrev all_names_valid : Fields → Bool
all_names_valid end = true
all_names_valid (field n t fs) = check_string_syntax n && all_names_valid fs

abbrev has_null : List DirKind → Bool
has_null [] = false
has_null (d ∷ ds) = dir_eq d dk_null || has_null ds

-- The constructor, with its assertions on the names and on fields that have no direction.
unfoldable pub make_record : Fields → Option HwType
make_record params = do
  guard (all_names_valid params)
  guard (not (has_null (dir_set params)))
  some (record_type params)

unfoldable pub append_field : Fields → Name → HwType → Option HwType
unfolding make_record get_record
append_field params label t = do
  guard (check_string_syntax label)
  guard (not (has_field label (get_record params)))
  make_record (field label t (get_record params))

unfoldable pub without_field : Name → Fields → Fields
without_field label end = end
without_field label (field n t fs) =
    if name_eq n label then without_field label fs else field n t (without_field label fs)

unfoldable pub detach_field : Fields → Name → Option HwType
unfolding make_record get_record without_field
detach_field params label = do
  guard (has_field label (get_record params))
  make_record (without_field label (get_record params))
