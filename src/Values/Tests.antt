-- ===== src/Values/Tests.antt =====
-- Arguments of a counter: its width, and whether it has a reset.
use coreir.Base.{◌≡◌, refl, true, false, [], ◌∷◌, length}
use coreir.Names.{Name}
use coreir.Values.{
  Values, Params, const_int, const_bool, int_type, any_type, find_key, merge_values,
  do_values_match_params,
}
use coreir.Values.Merge.{or_from, find_key-merge_values}
use coreir.Values.Keys.{has_entry}
use coreir.Values.Match.{Fits, match_lem}

abbrev width : Name
width = b'w' ∷ []

abbrev reset : Name
reset = b'r' ∷ []

abbrev params : Params
params = (reset, any_type) ∷ (width, int_type) ∷ []

abbrev given : Values
given = (width, const_int 8) ∷ []

abbrev defaults : Values
defaults = (reset, const_bool false) ∷ (width, const_int 16) ∷ []

abbrev merged : Values
merged = (reset, const_bool false) ∷ (width, const_int 8) ∷ []

defaults_fill_in : merge_values given defaults ≡ merged
unfolding merge_values
defaults_fill_in = refl

reset_missing : do_values_match_params given params ≡ false
unfolding do_values_match_params
reset_missing = refl

find_key-merge_values_example :
    find_key width (merge_values given defaults)
    ≡ or_from (find_key width given) (find_key width defaults)
find_key-merge_values_example = find_key-merge_values defaults given width

match_lem_example :
    (do_values_match_params merged params ≡ true
      → (length merged ≡ length params)
        × Fits merged params
        × ((k : Name) → has_entry k merged ≡ has_entry k params))
    × (length merged ≡ length params
        → Fits merged params
        → do_values_match_params merged params ≡ true)
match_lem_example = match_lem merged params (refl, (refl, tt)) (refl, (refl, tt))
