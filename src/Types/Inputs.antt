-- ===== src/Types/Inputs.antt =====
-- `hasInput` asks the fields only of a type of mixed direction; here it is compared with a search of
-- the whole type.
use coreir.Base.{
  ◌≡◌, ◌≢◌, ◌⊎◌, inl, inr, refl, sym, ap, ap₂, Bool, true, false, not, ◌&&◌, ◌||◌, List, [], ◌∷◌,
  if◌then◌else◌, arith,
}
use coreir.Names.{Name}
use coreir.Types.{
  HwType, bit, bit_in, bit_in_out, array, record_type, named, Fields, end, field, DirKind, dk_in,
  dk_out, dk_in_out, dk_mixed, dk_null, dir_eq, dir_code, insert_dir, dir_of_set, get_dir, dir_set,
  seen, has_input, has_input_fields,
}

-- Whether a type has an input bit among its parts; of the fields of one name the first counts.
mutual
  pub holds_input : HwType → Bool
  holds_input bit = false
  holds_input bit_in = true
  holds_input bit_in_out = false
  holds_input (array len t) = holds_input t
  holds_input (record_type fs) = holds_input_fields fs []
  holds_input (named n f t) = holds_input t

  pub holds_input_fields : Fields → List Name → Bool
  holds_input_fields end names = false
  holds_input_fields (field n t fs) names =
      (not (seen n names) && holds_input t) || holds_input_fields fs (n ∷ names)

insert_dir-nil : (d : DirKind) (es : List DirKind) → insert_dir d es ≢ []
insert_dir-nil d [] h = cc
insert_dir-nil d (e ∷ es) h = ground arith

code-injective : (d e : DirKind) → dir_code d ≡ dir_code e → d ≡ e
code-injective d e h = ground arith

-- The set of directions holds one only if the last one that came in is that one.
insert_dir-one :
    (d e : DirKind) (es : List DirKind)
    → insert_dir d es ≡ e ∷ []
    → (d ≡ e) × ((es ≡ []) ⊎ (es ≡ e ∷ []))
insert_dir-one d e [] h = (cc, inl refl)
insert_dir-one d e (e' ∷ es) h = ground (arith, insert_dir-nil d es, code-injective d e')

dir_set-nil : (fs : Fields) → dir_set fs ≡ [] → fs ≡ end
unfolding dir_set
dir_set-nil end h = refl
dir_set-nil (field n t fs) h = absurd (insert_dir-nil (get_dir t) (dir_set fs) h)

pure_set :
    (d : DirKind) (es : List DirKind) → dir_of_set es ≡ d → d ≢ dk_mixed → (es ≡ []) ⊎ (es ≡ d ∷ [])
pure_set d [] h m = inl refl
pure_set d (e ∷ []) h m = inr (ap (λ x. x ∷ []) h)
pure_set d (e ∷ e' ∷ es) h m = absurd (m (sym h))

-- A type that is not of mixed direction has an input exactly if its direction is in.
mutual
  unfolding get_dir dir_set holds_input holds_input_fields

  pure_holds :
      (t : HwType) (d : DirKind) → get_dir t ≡ d → d ≢ dk_mixed → holds_input t ≡ dir_eq d dk_in
  pure_holds bit d h m = ground arith
  pure_holds bit_in d h m = ground arith
  pure_holds bit_in_out d h m = ground arith
  pure_holds (array len t) d h m = pure_holds t d h m
  pure_holds (named n f t) d h m = pure_holds t d h m
  pure_holds (record_type fs) d h m = pure_record fs d h (pure_set d (dir_set fs) h m) m

  pure_record :
      (fs : Fields) (d : DirKind)
      → dir_of_set (dir_set fs) ≡ d
      → (dir_set fs ≡ []) ⊎ (dir_set fs ≡ d ∷ [])
      → d ≢ dk_mixed
      → holds_input_fields fs [] ≡ dir_eq d dk_in
  pure_record end d h ds m = ground arith
  pure_record (field n t fs) d h (inl e) m = absurd (insert_dir-nil (get_dir t) (dir_set fs) e)
  pure_record (field n t fs) d h (inr e) m =
      let (here, there) = insert_dir-one (get_dir t) d (dir_set fs) e in
      ground (arith, pure_holds t d here m, pure_others fs d (n ∷ []) there m)

  pure_others :
      (fs : Fields) (d : DirKind) (names : List Name)
      → (dir_set fs ≡ []) ⊎ (dir_set fs ≡ d ∷ [])
      → d ≢ dk_mixed
      → dir_eq d dk_in ≡ false
      → holds_input_fields fs names ≡ false
  pure_others end d names ds m out = refl
  pure_others (field n t fs) d names (inl e) m out =
      absurd (insert_dir-nil (get_dir t) (dir_set fs) e)
  pure_others (field n t fs) d names (inr e) m out =
      let (here, there) = insert_dir-one (get_dir t) d (dir_set fs) e in
      ground (arith, pure_holds t d here m, pure_others fs d (n ∷ names) there m out)

by_direction :
    (d : DirKind) (has holds : Bool)
    → (d ≢ dk_mixed → holds ≡ dir_eq d dk_in)
    → has ≡ holds
    → (if dir_eq d dk_in then true else if dir_eq d dk_mixed then has else false) ≡ holds
by_direction dk_in has holds pure same = sym (pure (λ h. cc))
by_direction dk_out has holds pure same = sym (pure (λ h. cc))
by_direction dk_in_out has holds pure same = sym (pure (λ h. cc))
by_direction dk_null has holds pure same = sym (pure (λ h. cc))
by_direction dk_mixed has holds pure same = same

mutual
  unfolding has_input has_input_fields holds_input holds_input_fields get_dir

  has-holds : (t : HwType) → has_input t ≡ holds_input t
  has-holds bit = refl
  has-holds bit_in = refl
  has-holds bit_in_out = refl
  has-holds (array len t) =
      by_direction (get_dir t) (has_input t) (holds_input t) (pure_holds t (get_dir t) refl)
        (has-holds t)
  has-holds (named n f t) =
      by_direction (get_dir t) (has_input t) (holds_input t) (pure_holds t (get_dir t) refl)
        (has-holds t)
  has-holds (record_type fs) =
      by_direction (dir_of_set (dir_set fs)) (has_input_fields fs []) (holds_input_fields fs [])
        (pure_holds (record_type fs) (dir_of_set (dir_set fs)) refl) (has-holds_fields fs [])

  has-holds_fields :
      (fs : Fields) (names : List Name) → has_input_fields fs names ≡ holds_input_fields fs names
  has-holds_fields end names = refl
  has-holds_fields (field n t fs) names =
      ap₂ (λ here there. (not (seen n names) && here) || there) (has-holds t)
        (has-holds_fields fs (n ∷ names))

-- `hasInput`, which looks below a type only where its direction is mixed, finds an input exactly if
-- the search of the whole type does.
pub has_input_lem : (t : HwType) → has_input t ≡ holds_input t
has_input_lem = has-holds
