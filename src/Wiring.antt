-- ===== src/Wiring.antt =====
-- The connections of a module's definition: src/ir/moduledef.cpp, with the sets `connected` of
-- src/ir/wireable.cpp. A wireable is its address. The field `connected` holds the pair (w, o) when
-- `o` is in the set of `w`; `meta_data` holds the connections that have metadata.
pub mod Invariant
pub mod Connect
pub mod Disconnect
pub mod Undo
pub mod Keep
mod Tests
use coreir.Base.{
  ℕ, suc, Bool, true, false, not, ◌&&◌, Option, none, some, List, [], ◌∷◌, ◌>>=◌, ◌>>◌, guard, ltb,
  leb, ◌==◌, if◌then◌else◌,
}
use coreir.Base.Pairs.{Pairs, has_pair, insert_pair, erase_pair}
use coreir.Types.{HwType, flip}
use coreir.Types.Equal.{type_eq}

pub record Wiring : Type 0 where
  pub connected : Pairs
  pub connections : Pairs
  pub meta_data : Pairs
  pub errors : ℕ

-- `connectionCtor`: the wireable of the lower address comes first.
abbrev pub connection_ctor : ℕ → ℕ → ℕ × ℕ
connection_ctor a b = if ltb a b then (a, b) else (b, a)

-- `hasConnection`
abbrev pub has_connection : ℕ → ℕ → Wiring → Bool
has_connection a b s = has_pair (connection_ctor a b).0 (connection_ctor a b).1 s.connections

unfoldable pub get_connection : ℕ → ℕ → Wiring → Option (ℕ × ℕ)
get_connection a b s = do guard (has_connection a b s); some (connection_ctor a b)

-- `addConnectedWireable` and `removeConnectedWireable` of the wireable `w`.
unfoldable pub add_connected_wireable : (w other : ℕ) → Wiring → Wiring
unfolding insert_pair
add_connected_wireable w other s = record s { connected = insert_pair w other s.connected }

unfoldable pub remove_connected_wireable : (w other : ℕ) → Wiring → Option Wiring
unfolding has_pair erase_pair
remove_connected_wireable w other s = do
  guard (has_pair w other s.connected)
  some (record s { connected = erase_pair w other s.connected })

-- `Context::error`: the program dies when as many errors as `max_errors` were reported.
unfoldable pub error : (max_errors : ℕ) → Wiring → Option Wiring
error max_errors s = do
  guard (not (leb max_errors (suc s.errors)))
  some (record s { errors = suc s.errors })

-- `checkTypes`: true is an error.
unfoldable pub check_types : HwType → HwType → Bool
unfolding type_eq flip
check_types ta tb = not (type_eq ta (flip tb))

-- The updates of `connect`: both sets and the set of connections.
unfoldable pub connected_state : (a b : ℕ) → Wiring → Wiring
unfolding add_connected_wireable insert_pair
connected_state a b s =
    let linked = add_connected_wireable b a (add_connected_wireable a b s) in
    record linked {
      connections = insert_pair (connection_ctor a b).0 (connection_ctor a b).1 s.connections;
    }

-- `connect`, of wireables with the types that `type_of` gives; `contained` tells whether a wireable
-- is one of this definition. On types that do not fit the program dies.
module _ (max_errors : ℕ) (contained : ℕ → Bool) (type_of : ℕ → HwType) where
  unfoldable pub connect : ℕ → ℕ → Wiring → Option Wiring
  unfolding error connected_state has_pair
  connect a b s = elim (contained a && contained b) [
    | false ↦ error max_errors s
    | true ↦ do
      guard (not (check_types (type_of a) (type_of b)))
      guard (not (has_connection a b s))
      some (connected_state a b s)
  ]

-- `disconnect(Connection)`
unfoldable pub disconnect_connection : ℕ × ℕ → Wiring → Option Wiring
unfolding remove_connected_wireable has_pair erase_pair
disconnect_connection fst_con s = do
  let con = connection_ctor fst_con.0 fst_con.1
  guard (has_pair con.0 con.1 s.connections)
  s' ← remove_connected_wireable con.0 con.1 s
  s'' ← remove_connected_wireable con.1 con.0 s'
  some (record s'' {
    connections = erase_pair con.0 con.1 s.connections;
    meta_data = erase_pair con.0 con.1 s.meta_data;
  })

-- `disconnect(Wireable*, Wireable*)`
unfoldable pub disconnect_pair : ℕ → ℕ → Wiring → Option Wiring
unfolding disconnect_connection
disconnect_pair a b s = disconnect_connection (connection_ctor a b) s

-- `getConnectedWireables`
unfoldable pub get_connected : ℕ → Pairs → List ℕ
get_connected w [] = []
get_connected w ((v, o) ∷ s) = let rest = get_connected w s in if v == w then o ∷ rest else rest

-- `disconnect(Wireable*)`: the wireables to disconnect are copied before the first is.
unfoldable pub disconnect_each : ℕ → List ℕ → Wiring → Option Wiring
unfolding disconnect_pair
disconnect_each w [] s = some s
disconnect_each w (wc ∷ to_delete) s = do
  s' ← disconnect_pair w wc s
  disconnect_each w to_delete s'

unfoldable pub disconnect : ℕ → Wiring → Option Wiring
unfolding disconnect_each get_connected
disconnect w s = disconnect_each w (get_connected w s.connected) s

-- `getMetaData`, which makes the metadata when there is none, and `hasMetaData`.
unfoldable pub get_meta_data : ℕ → ℕ → Wiring → Option Wiring
unfolding insert_pair has_pair
get_meta_data a b s = do
  guard (has_connection a b s)
  some (record s {
    meta_data = insert_pair (connection_ctor a b).0 (connection_ctor a b).1 s.meta_data;
  })

abbrev pub has_meta_data : ℕ → ℕ → Wiring → Bool
has_meta_data a b s = has_pair (connection_ctor a b).0 (connection_ctor a b).1 s.meta_data
