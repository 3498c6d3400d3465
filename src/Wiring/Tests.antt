-- ===== src/Wiring/Tests.antt =====
-- The connections at concrete states: the wireables 1 and 2 of one definition, of a bit and its flip.
use coreir.Base.{
  ℕ, ◌≡◌, refl, Bool, true, false, ◌||◌, none, some, [], ◌∷◌, ◌>>=◌, ◌==◌, if◌then◌else◌, arith,
}
use coreir.Base.Pairs.{has_pair}
use coreir.Types.{HwType, bit, bit_in, bit_in_out}
use coreir.Wiring.{
  Wiring, has_connection, connected_state, check_types, connect, disconnect_pair, disconnect,
}
use coreir.Wiring.Invariant.{IsValid}
use coreir.Wiring.Connect.{same_connection, connected_state-IsValid, connect_lem}
use coreir.Wiring.Disconnect.{disconnect_lem}
use coreir.Wiring.Undo.{disconnect_pair-connect, self_connection_stays}

abbrev unwired : Wiring
unwired = record { connected = []; connections = []; meta_data = []; errors = 0 }

abbrev one_wire : Wiring
one_wire = record {
  connected = (2, 1) ∷ (1, 2) ∷ [];
  connections = (1, 2) ∷ [];
  meta_data = [];
  errors = 0;
}

abbrev ours : ℕ → Bool
ours w = (w == 1) || (w == 2)

abbrev types : ℕ → HwType
types w = if w == 1 then bit else bit_in

abbrev inouts : ℕ → HwType
inouts w = bit_in_out

unwired-IsValid : IsValid unwired
unfolding has_pair
unwired-IsValid = record {
  linked = λ a b. refl;
  ordered = λ a b h. ground arith;
  distinct = tt;
  described = λ a b h. h;
}

one_wire-IsValid : IsValid one_wire
unfolding connected_state
one_wire-IsValid = connected_state-IsValid 1 2 unwired (omega arith) unwired-IsValid

connect_again : connect 2 ours types 2 1 one_wire ≡ none
unfolding connect check_types
connect_again = refl

one_wire_gone : disconnect 2 one_wire ≡ some unwired
unfolding disconnect
one_wire_gone = refl

types_fit : check_types (types 1) (types 2) ≡ false
unfolding check_types
types_fit = refl

free : has_connection 1 2 unwired ≡ false
unfolding has_pair
free = refl

connect_lem_example :
    (t : Wiring) × (connect 2 ours types 1 2 unwired ≡ some t)
    × IsValid t
    × ((x y : ℕ) → has_connection x y t ≡ (same_connection x y 1 2 || has_connection x y unwired))
connect_lem_example =
    connect_lem 2 ours types 1 2 unwired unwired-IsValid (omega arith) refl refl types_fit free

one_wire_there : has_connection 2 1 one_wire ≡ true
unfolding has_pair
one_wire_there = refl

disconnect_lem_example :
    (t : Wiring) × (disconnect 2 one_wire ≡ some t)
    × IsValid t
    × ((x y : ℕ)
        → has_connection x y t
          ≡ (if (x == 2) || (y == 2) then false else has_connection x y one_wire))
disconnect_lem_example = disconnect_lem 2 one_wire one_wire-IsValid

disconnect_pair-connect_example :
    (connect 2 ours types 1 2 unwired >>= disconnect_pair 1 2) ≡ some unwired
disconnect_pair-connect_example =
    disconnect_pair-connect 2 ours types 1 2 unwired unwired-IsValid (omega arith) refl refl
      types_fit free

inouts_fit : check_types (inouts 1) (inouts 1) ≡ false
unfolding check_types
inouts_fit = refl

self_connection_stays_example :
    (t : Wiring) × (connect 2 ours inouts 1 1 one_wire ≡ some t)
    × (has_connection 1 1 t ≡ true)
    × (disconnect_pair 1 1 t ≡ none)
self_connection_stays_example =
    self_connection_stays 2 ours inouts 1 one_wire one_wire-IsValid refl inouts_fit
