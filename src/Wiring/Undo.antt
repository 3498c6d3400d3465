-- ===== src/Wiring/Undo.antt =====
-- A connection that was made can be taken back, unless it is of a wireable with itself.
use coreir.Base.{
  ℕ, ◌≡◌, ◌≢◌, refl, ap, ◌∙◌, Bool, true, false, none, some, ltb, ◌>>=◌, Bool-cases, inl, inr,
  arith,
}
use coreir.Base.Pairs.{
  Pairs, has_pair, insert_pair, erase_pair, has_pair-erase_pair, has_pair-insert_pair,
  erase_pair_absent,
}
use coreir.Types.{HwType}
use coreir.Wiring.{
  Wiring, connection_ctor, has_connection, remove_connected_wireable, connected_state, check_types,
  connect, disconnect_connection, disconnect_pair,
}
use coreir.Wiring.Invariant.{IsValid}
use coreir.Wiring.Connect.{connect_returns, connected_state-IsValid, has_connection-connected_state}
use coreir.Wiring.Disconnect.{disconnected_state, disconnect_pair_returns}

erase-insert :
    (a b : ℕ) (s : Pairs) → has_pair a b s ≡ false → erase_pair a b (insert_pair a b s) ≡ s
unfolding insert_pair erase_pair
erase-insert a b s free = ground (arith, free, erase_pair_absent a b s free)

module _ (a b : ℕ) (s : Pairs) (apart : a ≢ b) (free : has_pair a b s ≡ false)
    (back : has_pair b a s ≡ false) where
  -- Two pairs that were put in are taken out, in either order.
  erase_both_last : erase_pair a b (erase_pair b a (insert_pair b a (insert_pair a b s))) ≡ s
  erase_both_last =
      ap (erase_pair a b)
        (erase-insert b a (insert_pair a b s) (ground (arith, has_pair-insert_pair b a a b s)))
      ∙ erase-insert a b s free

  erase_both_first : erase_pair b a (erase_pair a b (insert_pair b a (insert_pair a b s))) ≡ s
  unfolding insert_pair erase_pair
  erase_both_first = ground (arith, erase_pair_absent a b s free, erase_pair_absent b a s back)

undone_connected :
    (a b : ℕ) (s : Pairs)
    → a ≢ b
    → has_pair a b s ≡ false
    → has_pair b a s ≡ false
    → erase_pair (connection_ctor a b).1 (connection_ctor a b).0 (
        erase_pair
          (connection_ctor a b).0
          (connection_ctor a b).1
          (insert_pair b a (insert_pair a b s)))
      ≡ s
undone_connected a b s apart free back = elim (Bool-cases (ltb a b)) [
  | inl h ↦ rw h (erase_both_first a b s apart free back)
  | inr h ↦ rw h (erase_both_last a b s apart free back)
]

module _ (a b : ℕ) (s : Wiring) (v : IsValid s) (apart : a ≢ b)
    (free : has_connection a b s ≡ false) where
  undone_meta_data :
      erase_pair (connection_ctor a b).0 (connection_ctor a b).1 s.meta_data ≡ s.meta_data
  undone_meta_data =
      erase_pair_absent (connection_ctor a b).0 (connection_ctor a b).1 s.meta_data
        (ground (arith, v.described (connection_ctor a b).0 (connection_ctor a b).1))

  disconnected-connected : disconnected_state a b (connected_state a b s) ≡ s
  unfolding disconnected_state connected_state
  disconnected-connected =
      rw
        (
          undone_connected a b s.connected apart (ground (arith, v.linked a b))
              (ground (arith, v.linked b a)),
          erase-insert (connection_ctor a b).0 (connection_ctor a b).1 s.connections free,
          undone_meta_data,
        )
        refl

-- Connecting two different wireables and disconnecting them again, in either order of the two, gives
-- back the very state from before.
pub disconnect_pair-connect :
    (max_errors : ℕ) (contained : ℕ → Bool) (type_of : ℕ → HwType) (a b : ℕ) (s : Wiring)
    → IsValid s
    → a ≢ b
    → contained a ≡ true
    → contained b ≡ true
    → check_types (type_of a) (type_of b) ≡ false
    → has_connection a b s ≡ false
    → (connect max_errors contained type_of a b s >>= disconnect_pair a b) ≡ some s
disconnect_pair-connect max_errors contained type_of a b s v apart ha hb fits free =
    ap (λ r. r >>= disconnect_pair a b)
      (connect_returns max_errors contained type_of a b s ha hb fits free)
    ∙ disconnect_pair_returns a b (connected_state a b s) (connected_state-IsValid a b s apart v)
        (ground (arith, has_connection-connected_state a b a b s))
    ∙ ap some (disconnected-connected a b s v apart free)

ctor_self : (a : ℕ) → connection_ctor a a ≡ (a, a)
ctor_self a = ground arith

remove_twice :
    (a : ℕ) (s : Wiring)
    → (remove_connected_wireable a a s >>= remove_connected_wireable a a) ≡ none
unfolding remove_connected_wireable
remove_twice a s = ground (arith, has_pair-erase_pair a a a a s.connected)

self_disconnect : (a : ℕ) (t : Wiring) → disconnect_pair a a t ≡ none
unfolding disconnect_pair disconnect_connection
self_disconnect a t = rw (ctor_self a, ctor_self a) (ground (arith, remove_twice a t))

-- A wireable whose type is its own flip can be connected with itself, and then the connection cannot
-- be removed: the second of the two removals finds the set without it, and its assertion fails.
pub self_connection_stays :
    (max_errors : ℕ) (contained : ℕ → Bool) (type_of : ℕ → HwType) (a : ℕ) (s : Wiring)
    → IsValid s
    → contained a ≡ true
    → check_types (type_of a) (type_of a) ≡ false
    → (t : Wiring) × (connect max_errors contained type_of a a s ≡ some t)
      × (has_connection a a t ≡ true)
      × (disconnect_pair a a t ≡ none)
self_connection_stays max_errors contained type_of a s v ha fits = (
  connected_state a a s,
  connect_returns max_errors contained type_of a a s ha ha fits (ground (arith, v.ordered a a)),
  ground (arith, has_connection-connected_state a a a a s),
  self_disconnect a (connected_state a a s),
)
