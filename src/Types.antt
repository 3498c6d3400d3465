-- ===== src/Types.antt =====
-- The types of ports: src/ir/types.cpp and include/coreir/ir/types.h. A type is the tree of its
-- parts; the cache of src/ir/typecache.cpp makes equal trees the same object.
pub mod Select
pub mod Equal
pub mod Flip
pub mod Inputs
pub mod Record
mod Tests
use coreir.Base.{
  ℕ, zero, suc, ◌+◌, ◌-◌, ◌*◌, ◌%◌, ◌^◌, Bool, true, false, not, ◌&&◌, ◌||◌, Option, none, some,
  List, [], ◌∷◌, ◌>>=◌, ◌>>◌, guard, ltb, leb, ◌==◌, if◌then◌else◌,
}
use coreir.Names.{Name, name_eq, is_number, is_slice, stoi, parse_slice, check_string_syntax}

-- `TypeKind`, with the fields of each class. A named type has its name, the name of its flip and its
-- raw type; a record has the parameters that it was made from, in order.
mutual
  pub data HwType : Type 0 where
    bit bit_in bit_in_out : HwType
    array : ℕ → HwType → HwType
    record_type : Fields → HwType
    named : Name → Name → HwType → HwType

  pub data Fields : Type 0 where
    end : Fields
    field : Name → HwType → Fields → Fields

pub data DirKind : Type 0 where
  dk_in dk_out dk_in_out dk_mixed dk_null : DirKind

abbrev pub dir_code : DirKind → ℕ
dir_code dk_in = 0
dir_code dk_out = 1
dir_code dk_in_out = 2
dir_code dk_mixed = 3
dir_code dk_null = 4

abbrev pub dir_eq : DirKind → DirKind → Bool
dir_eq d e = dir_code d == dir_code e

-- `std::set<uint> dirs` in the constructor of `RecordType`.
abbrev pub insert_dir : DirKind → List DirKind → List DirKind
insert_dir d [] = d ∷ []
insert_dir d (e ∷ es) = if dir_eq d e then e ∷ es else e ∷ insert_dir d es

abbrev pub dir_of_set : List DirKind → DirKind
dir_of_set [] = dk_null
dir_of_set (d ∷ []) = d
dir_of_set (d ∷ e ∷ es) = dk_mixed

unfoldable mutual
  -- `getDir`, as the constructors set it.
  pub get_dir : HwType → DirKind
  get_dir bit = dk_out
  get_dir bit_in = dk_in
  get_dir bit_in_out = dk_in_out
  get_dir (array len elem_type) = get_dir elem_type
  get_dir (record_type fs) = dir_of_set (dir_set fs)
  get_dir (named name flip_name raw) = get_dir raw

  pub dir_set : Fields → List DirKind
  dir_set end = []
  dir_set (field name t fs) = insert_dir (get_dir t) (dir_set fs)

-- `record` of a record type is a map: of fields of one name the first counts.
abbrev pub seen : Name → List Name → Bool
seen n [] = false
seen n (m ∷ ms) = name_eq n m || seen n ms

unfoldable mutual
  -- `getSize`, a 32-bit unsigned number.
  pub get_size : HwType → ℕ
  get_size bit = 1
  get_size bit_in = 1
  get_size bit_in_out = 1
  get_size (array len elem_type) = (len * get_size elem_type) % 2 ^ 32
  get_size (record_type fs) = size_fields fs []
  get_size (named name flip_name raw) = get_size raw

  pub size_fields : Fields → List Name → ℕ
  size_fields end names = 0
  size_fields (field name t fs) names =
      ((if seen name names then 0 else get_size t) + size_fields fs (name ∷ names)) % 2 ^ 32

unfoldable mutual
  -- `getFlipped`, as the cache and `newNamedType` pair the types: an array or a record of direction
  -- inout is its own flip.
  pub flip : HwType → HwType
  flip bit = bit_in
  flip bit_in = bit
  flip bit_in_out = bit_in_out
  flip (array len elem_type) =
      if dir_eq (get_dir elem_type) dk_in_out
      then array len elem_type
      else array len (flip elem_type)
  flip (record_type fs) =
      if dir_eq (dir_of_set (dir_set fs)) dk_in_out
      then record_type fs
      else record_type (flip_fields fs)
  flip (named name flip_name raw) = named flip_name name (flip raw)

  pub flip_fields : Fields → Fields
  flip_fields end = end
  flip_fields (field name t fs) = field name (flip t) (flip_fields fs)

unfoldable mutual
  -- `hasInput`: the fields are asked only when the direction is mixed.
  pub has_input : HwType → Bool
  has_input bit = false
  has_input bit_in = true
  has_input bit_in_out = false
  has_input (array len elem_type) =
      if dir_eq (get_dir elem_type) dk_in
      then true
      else if dir_eq (get_dir elem_type) dk_mixed
      then has_input elem_type
      else false
  has_input (record_type fs) =
      if dir_eq (dir_of_set (dir_set fs)) dk_in
      then true
      else if dir_eq (dir_of_set (dir_set fs)) dk_mixed
      then has_input_fields fs []
      else false
  has_input (named name flip_name raw) =
      if dir_eq (get_dir raw) dk_in
      then true
      else if dir_eq (get_dir raw) dk_mixed
      then has_input raw
      else false

  pub has_input_fields : Fields → List Name → Bool
  has_input_fields end names = false
  has_input_fields (field name t fs) names =
      (not (seen name names) && has_input t) || has_input_fields fs (name ∷ names)
