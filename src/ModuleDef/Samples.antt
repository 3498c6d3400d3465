-- ===== src/ModuleDef/Samples.antt =====
-- A definition with two instances, for the tests: the instance `alive` at 5, of a bit, drives the
-- interface's input at 2; the instance `idle` at 3 is not connected.
use coreir.Base.{ℕ, refl, ◌==◌, none, some, [], ◌∷◌, if◌then◌else◌, arith}
use coreir.Base.Pairs.{has_pair}
use coreir.Names.{Name}
use coreir.Types.{HwType, bit, bit_in, record_type, field, end}
use coreir.Wiring.{Wiring, connected_state}
use coreir.Wiring.Invariant.{IsValid}
use coreir.Wiring.Connect.{connected_state-IsValid}
use coreir.Wireable.{wireable, no_selects, select}
use coreir.ModuleDef.{ModuleDef}
use coreir.ModuleDef.Consistent.{IsConsistent}

abbrev pub alive : Name
alive = b'a' ∷ []

abbrev pub idle : Name
idle = b'i' ∷ []

abbrev pub out : Name
out = b'o' ∷ []

abbrev pub types : ℕ → HwType
types w = if w == 1 then record_type (field out bit_in end) else if w == 2 then bit_in else bit

abbrev pub two : ModuleDef
two = record {
  interface =
      wireable 1 (record_type (field out bit_in end))
        (select out (wireable 2 bit_in no_selects) no_selects);
  instances = (alive, wireable 5 bit no_selects) ∷ (idle, wireable 3 bit no_selects) ∷ [];
  wiring = record {
    connected = (5, 2) ∷ (2, 5) ∷ [];
    connections = (2, 5) ∷ [];
    meta_data = [];
    errors = 0;
  };
  iter = record {
    first = 5;
    last = 3;
    next_map = λ i. if i == 5 then some 3 else if i == 3 then some 0 else none;
    prev_map = λ i. if i == 5 then some 0 else if i == 3 then some 5 else none;
  };
}

abbrev pub unwired : Wiring
unwired = record { connected = []; connections = []; meta_data = []; errors = 0 }

pub unwired-IsValid : IsValid unwired
unfolding has_pair
unwired-IsValid = record {
  linked = λ a b. refl;
  ordered = λ a b h. ground arith;
  distinct = tt;
  described = λ a b h. h;
}

pub two-IsValid : IsValid two.wiring
unfolding connected_state
two-IsValid = connected_state-IsValid 2 5 unwired (omega arith) unwired-IsValid

pub two-IsConsistent : IsConsistent two (5 ∷ 3 ∷ [])
two-IsConsistent = record {
  wired = two-IsValid;
  ordered = ground arith;
  listed = ground arith;
  covered = λ x m. ground arith;
}
