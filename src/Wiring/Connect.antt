-- ===== src/Wiring/Connect.antt =====
-- What `connect` does on each of its branches.
use coreir.Base.{ℕ, ◌≡◌, ◌≢◌, Bool, true, false, not, ◌&&◌, ◌||◌, none, some, if◌then◌else◌, arith}
use coreir.Base.Pairs.{
  Distinct, same_pair, has_pair, insert_pair, has_pair-insert_pair, insert_pair-Distinct,
}
use coreir.Types.{HwType}
use coreir.Wiring.{
  Wiring, connection_ctor, has_connection, connected_state, error, check_types, connect,
}
use coreir.Wiring.Invariant.{IsValid}

-- Whether the pairs (x, y) and (a, b) are one connection.
abbrev pub same_connection : (x y a b : ℕ) → Bool
same_connection x y a b = same_pair x y a b || same_pair x y b a

pub has_connection-connected_state :
    (a b x y : ℕ) (s : Wiring)
    → has_connection x y (connected_state a b s) ≡ (same_connection x y a b || has_connection x y s)
unfolding connected_state
has_connection-connected_state a b x y s = ground (
  arith,
  has_pair-insert_pair (connection_ctor x y).0 (connection_ctor x y).1 (connection_ctor a b).0
      (connection_ctor a b).1 s.connections,
)

has_pair-connected_state :
    (a b x y : ℕ) (s : Wiring)
    → has_pair x y (connected_state a b s).connected
      ≡ (same_connection x y a b || has_pair x y s.connected)
unfolding connected_state
has_pair-connected_state a b x y s = ground (
  arith,
  has_pair-insert_pair x y b a (insert_pair a b s.connected),
  has_pair-insert_pair x y a b s.connected,
)

has_pair-connections :
    (a b x y : ℕ) (s : Wiring)
    → has_pair x y (connected_state a b s).connections ≡ (
        same_pair x y (connection_ctor a b).0 (connection_ctor a b).1 || has_pair x y s.connections)
unfolding connected_state
has_pair-connections a b x y s =
    has_pair-insert_pair x y (connection_ctor a b).0 (connection_ctor a b).1 s.connections

connected_state-Distinct :
    (a b : ℕ) (s : Wiring) → Distinct s.connected → Distinct (connected_state a b s).connected
unfolding connected_state
connected_state-Distinct a b s h =
    insert_pair-Distinct b a (insert_pair a b s.connected) (insert_pair-Distinct a b s.connected h)

described_kept :
    (a b : ℕ) (s : Wiring)
    → IsValid s
    → (x y : ℕ) → has_pair x y (connected_state a b s).meta_data ≡ true
    → has_pair x y (connected_state a b s).connections ≡ true
unfolding connected_state
described_kept a b s v x y h = ground (arith, has_pair-connections a b x y s, v.described x y)

pub connected_state-IsValid :
    (a b : ℕ) (s : Wiring) → a ≢ b → IsValid s → IsValid (connected_state a b s)
connected_state-IsValid a b s apart v = record {
  linked = λ x y. ground (
    arith,
    has_pair-connected_state a b x y s,
    has_connection-connected_state a b x y s,
    v.linked x y,
  );
  ordered = λ x y h. ground (arith, has_pair-connections a b x y s, v.ordered x y, apart);
  distinct = connected_state-Distinct a b s v.distinct;
  described = described_kept a b s v;
}

module _ (max_errors : ℕ) (contained : ℕ → Bool) (type_of : ℕ → HwType) (a b : ℕ) (s : Wiring) where
  pub connect_returns :
      contained a ≡ true
      → contained b ≡ true
      → check_types (type_of a) (type_of b) ≡ false
      → has_connection a b s ≡ false
      → connect max_errors contained type_of a b s ≡ some (connected_state a b s)
  unfolding connect
  connect_returns ha hb fits free = ground arith

  -- Two different wireables of the definition whose types are flips of one another and that are not
  -- connected become connected: `connect` succeeds, keeps the invariant, and adds this connection and
  -- no other.
  pub connect_lem :
      IsValid s
      → a ≢ b
      → contained a ≡ true
      → contained b ≡ true
      → check_types (type_of a) (type_of b) ≡ false
      → has_connection a b s ≡ false
      → (t : Wiring) × (connect max_errors contained type_of a b s ≡ some t)
        × IsValid t
        × ((x y : ℕ) → has_connection x y t ≡ (same_connection x y a b || has_connection x y s))
  connect_lem v apart ha hb fits free = (
    connected_state a b s,
    connect_returns ha hb fits free,
    connected_state-IsValid a b s apart v,
    λ x y. has_connection-connected_state a b x y s,
  )

  -- A refused `connect` changes no connection: it dies where the types do not fit or the wireables
  -- are connected already, and reports an error, which ends the program at the limit, where one of
  -- them is not of this definition.
  pub connect_refused :
      (contained a
          && contained b
          && not (check_types (type_of a) (type_of b))
          && not (has_connection a b s))
        ≡ false
      → connect max_errors contained type_of a b s
        ≡ (if contained a && contained b then none else error max_errors s)
  unfolding connect
  connect_refused h = ground arith
