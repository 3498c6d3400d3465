-- ===== src/Types/Record/Edit.antt =====
-- What the selects of a record type are when a field was added or removed.
use coreir.Base.{◌≡◌, refl, ap, sym, true, Option, none, some, if◌then◌else◌, arith}
use coreir.Names.{Name, name_eq}
use coreir.Names.Equal.{name_eq_sound}
use coreir.Types.{HwType, record_type, Fields, end, field}
use coreir.Types.Select.{lookup_field, sel}
use coreir.Types.Record.{
  insert_sorted, emplace, record_from, get_record, make_record, append_field, without_field,
  detach_field,
}

same_lookup :
    (s n : Name) (fs : Fields) → name_eq s n ≡ true → lookup_field s fs ≡ lookup_field n fs
same_lookup s n fs h = ap (λ m. lookup_field m fs) (name_eq_sound s n h)

lookup_field-insert_sorted :
    (s n : Name) (t : HwType) (fs : Fields)
    → lookup_field n fs ≡ none
    → lookup_field s (insert_sorted n t fs) ≡ (if name_eq s n then some t else lookup_field s fs)
unfolding insert_sorted
lookup_field-insert_sorted s n t end h = refl
lookup_field-insert_sorted s n t (field m u fs) h = ground (
  arith,
  lookup_field-insert_sorted s n t fs (ground (arith, h)),
  same_lookup s n (field m u fs),
  h,
)

or_else_lookup : Option HwType → Option HwType → Option HwType
or_else_lookup none b = b
or_else_lookup (some t) b = some t

lookup_field-emplace :
    (s n : Name) (t : HwType) (fs : Fields)
    → lookup_field s (emplace n t fs)
      ≡ or_else_lookup (lookup_field s fs) (if name_eq s n then some t else none)
unfolding emplace or_else_lookup
lookup_field-emplace s n t fs =
    ground (arith, same_lookup s n fs, lookup_field-insert_sorted s n t fs)

lookup_field-record_from :
    (s : Name) (fields params : Fields)
    → lookup_field s (record_from fields params)
      ≡ or_else_lookup (lookup_field s fields) (lookup_field s params)
unfolding record_from or_else_lookup
lookup_field-record_from s fields end = ground arith
lookup_field-record_from s fields (field n t params) = ground (
  arith,
  lookup_field-record_from s (emplace n t fields) params,
  lookup_field-emplace s n t fields,
)

lookup_field-get_record :
    (s : Name) (params : Fields) → lookup_field s (get_record params) ≡ lookup_field s params
unfolding get_record or_else_lookup
lookup_field-get_record s params = lookup_field-record_from s end params

same_right : (s n m : Name) → name_eq n m ≡ true → name_eq s n ≡ name_eq s m
same_right s n m h = ap (λ x. name_eq s x) (name_eq_sound n m h)

same_left : (s n m : Name) → name_eq s n ≡ true → name_eq s m ≡ name_eq n m
same_left s n m h = ap (λ x. name_eq x m) (name_eq_sound s n h)

lookup_field-without_field :
    (s label : Name) (fs : Fields)
    → lookup_field s (without_field label fs)
      ≡ (if name_eq s label then none else lookup_field s fs)
unfolding without_field
lookup_field-without_field s label end = ground arith
lookup_field-without_field s label (field n t fs) =
    ground (arith, lookup_field-without_field s label fs, same_right s n label, same_left s n label)

made : (params : Fields) {u : HwType} → make_record params ≡ some u → record_type params ≡ u
unfolding make_record
made params h = ground arith

sel-make_record :
    (params : Fields) {u : HwType} (s : Name)
    → make_record params ≡ some u
    → sel u s ≡ lookup_field s params
unfolding sel
sel-make_record params s h = ap (λ x. sel x s) (sym (made params h))

-- The selects of the type that `appendField` returns are those of the record type, and the new label
-- selects the new field.
pub sel-append_field :
    (params : Fields) (label : Name) (t : HwType) {u : HwType} (s : Name)
    → append_field params label t ≡ some u
    → sel u s ≡ (if name_eq s label then some t else sel (record_type params) s)
unfolding append_field sel
sel-append_field params label t {u} s h = ground (
  arith,
  sel-make_record (field label t (get_record params)) {u = u} s (ground (arith, h)),
  lookup_field-get_record s params,
)

-- The selects of the type that `detachField` returns are those of the record type without the label.
pub sel-detach_field :
    (params : Fields) (label : Name) {u : HwType} (s : Name)
    → detach_field params label ≡ some u
    → sel u s ≡ (if name_eq s label then none else sel (record_type params) s)
unfolding detach_field sel
sel-detach_field params label {u} s h = ground (
  arith,
  sel-make_record (without_field label (get_record params)) {u = u} s (ground (arith, h)),
  lookup_field-without_field s label (get_record params),
  lookup_field-get_record s params,
)
