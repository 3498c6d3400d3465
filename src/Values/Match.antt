-- ===== src/Values/Match.antt =====
-- What the checks of arguments say.
use coreir.Base.{
  ◌≡◌, refl, sym, Bool, true, false, not, ◌||◌, Option, none, some, [], ◌∷◌, ◌>>◌, guard,
  if◌then◌else◌, length, Bool-cases, inl, inr, arith,
}
use mathlib.Core.Path.{subst}
use coreir.Names.{Name, name_eq}
use coreir.Names.Equal.{name_eq_sound, name_eq_self}
use coreir.Values.Keys.{
  has_entry, IsMap, has_entry-same, same_keys, has_entry-find_key, find_of_key,
}
use coreir.Values.{
  Value, ValueType, Values, Params, get_value_type, same_value_type, is_any, find_key, check_each,
  check_values_are_params, match_each, do_values_match_params,
}

check_each-match_each :
    (args : Values) (params : Params)
    → check_each args params ≡ (if match_each args params then some tt else none)
unfolding check_each match_each
check_each-match_each args [] = refl
check_each-match_each args ((p, vt) ∷ params) =
    found (find_key p args) (check_each args params) (match_each args params)
      (check_each-match_each args params)
  where
    found :
        (m : Option Value) (r : Option (Unit {0})) (b : Bool)
        → r ≡ (if b then some tt else none)
        → elim m [
          | none ↦ none
          | some v ↦ do guard (is_any vt || same_value_type (get_value_type v) vt); r
        ]
          ≡ (if (elim m [
            | none ↦ false
            | some v ↦
                if is_any vt
                then b
                else if not (same_value_type (get_value_type v) vt)
                then false
                else b
          ])
              then some tt
              else none)
    found none r b h = refl
    found (some v) r b h = ground (arith, h)

-- The check that asserts and the check that answers agree.
pub check_values_lem :
    (args : Values) (params : Params)
    → check_values_are_params args params
      ≡ (if do_values_match_params args params then some tt else none)
unfolding check_values_are_params do_values_match_params
check_values_lem args params = ground (arith, check_each-match_each args params)

-- The arguments fit when there is an argument for each parameter, of the parameter's type unless this is
-- any type.
abbrev pub Fits : Values → Params → Type 0
Fits args params =
    (p : Name) (vt : ValueType)
    → find_key p params ≡ some vt
    → (v : Value) × (find_key p args ≡ some v)
      × ((is_any vt || same_value_type (get_value_type v) vt) ≡ true)

-- The first parameter.
match_first :
    (args : Values) (q : Name) (wt : ValueType) (params : Params)
    → match_each args ((q, wt) ∷ params) ≡ true
    → ((v : Value) × (find_key q args ≡ some v)
        × ((is_any wt || same_value_type (get_value_type v) wt) ≡ true))
      × (match_each args params ≡ true)
unfolding match_each
match_first args q wt params h = found (find_key q args) refl h
  where
    found :
        (m : Option Value)
        → find_key q args ≡ m
        → elim m [
          | none ↦ false
          | some v ↦
              if is_any wt
              then match_each args params
              else if not (same_value_type (get_value_type v) wt)
              then false
              else match_each args params
        ]
          ≡ true
        → ((v : Value) × (find_key q args ≡ some v)
            × ((is_any wt || same_value_type (get_value_type v) wt) ≡ true))
          × (match_each args params ≡ true)
    found none e h = cc
    found (some v) e h = ((v, e, ground (arith, h)), ground (arith, h))

matched : (args : Values) (params : Params) → match_each args params ≡ true → Fits args params
unfolding find_key
matched args [] h p vt e = cc
matched args ((q, wt) ∷ params) h p vt e = elim (Bool-cases (name_eq p q)) [
  | inl here ↦
      let same : wt ≡ vt = ground (arith, e, here) in
      subst
        (λ t.
          (v : Value) × (find_key p args ≡ some v)
          × ((is_any t || same_value_type (get_value_type v) t) ≡ true))
        same
        (subst
          (λ n.
            (v : Value) × (find_key n args ≡ some v)
            × ((is_any wt || same_value_type (get_value_type v) wt) ≡ true))
          (sym (name_eq_sound p q here)) (match_first args q wt params h).0)
  | inr there ↦
      matched args params (match_first args q wt params h).1 p vt (ground (arith, e, there))
]

params_given :
    (args : Values) (params : Params)
    → Fits args params
    → (k : Name) → has_entry k params ≡ true
    → has_entry k args ≡ true
params_given args params fits k h =
    let (vt, e) = find_of_key k params h in
    let (v, given, ok) = fits k vt e in has_entry-find_key k args v given

later-Fits :
    (args : Values) (q : Name) (wt : ValueType) (params : Params)
    → has_entry q params ≡ false
    → Fits args ((q, wt) ∷ params)
    → Fits args params
unfolding find_key
later-Fits args q wt params one fits p vt e = elim (Bool-cases (name_eq p q)) [
  | inl here ↦
      absurd (ground (arith, has_entry-same p q params here, one, has_entry-find_key p params vt e))
  | inr there ↦ fits p vt (rw there e)
]

fitting :
    (args : Values) (params : Params)
    → IsMap params
    → Fits args params
    → match_each args params ≡ true
unfolding match_each find_key
fitting args [] m fits = refl
fitting args ((q, wt) ∷ params) (one, m) fits =
    let (v, given, ok) = fits q wt (rw (name_eq_self q) refl) in
    let rest = fitting args params m (later-Fits args q wt params one fits) in
    rw (match_each, given, rest) (ground (arith, ok))

-- `doValuesMatchParams` answers true exactly if there are as many arguments as parameters and each
-- parameter has an argument of its type, or of any type where it takes any. Then the arguments have the
-- names of the parameters and no others.
pub match_lem :
    (args : Values) (params : Params)
    → IsMap args
    → IsMap params
    → (do_values_match_params args params ≡ true
        → (length args ≡ length params)
          × Fits args params
          × ((k : Name) → has_entry k args ≡ has_entry k params))
      × (length args ≡ length params → Fits args params → do_values_match_params args params ≡ true)
unfolding do_values_match_params
match_lem args params ma mp = (sound, complete)
  where
    sound :
        do_values_match_params args params ≡ true
        → (length args ≡ length params)
          × Fits args params
          × ((k : Name) → has_entry k args ≡ has_entry k params)
    sound h =
        let fits = matched args params (ground (arith, h)) in
        let size : length args ≡ length params = ground (arith, h) in
        let given = params_given args params fits in
        let wanted = same_keys params args mp ma given (omega (arith, size)) in
        (size, fits, λ k. ground (arith, given k, wanted k))

    complete :
        length args ≡ length params → Fits args params → do_values_match_params args params ≡ true
    complete size fits = ground (arith, size, fitting args params mp fits)
