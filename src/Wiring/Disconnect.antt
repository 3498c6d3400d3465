-- ===== src/Wiring/Disconnect.antt =====
-- What the overloads of `disconnect` do: on a valid state none of their assertions fails.
use coreir.Base.{
  member, ℕ, ◌<◌, ◌≡◌, refl, sym, ap, ◌∙◌, Bool, true, false, ◌&&◌, ◌||◌, Option, some, List, [],
  ◌∷◌, ◌==◌, if◌then◌else◌, arith,
}
use coreir.Base.Once.{NoneTwice}
use coreir.Base.Pairs.{
  Pairs, Distinct, has_pair, erase_pair, has_pair-erase_pair, erase_pair-Distinct,
}
use coreir.Wiring.{
  Wiring, connection_ctor, has_connection, remove_connected_wireable, disconnect_connection,
  disconnect_pair, get_connected, disconnect_each, disconnect,
}
use coreir.Wiring.Invariant.{IsValid}
use coreir.Wiring.Connect.{same_connection}

-- The state after the connection of `a` and `b` was removed.
unfoldable pub disconnected_state : (a b : ℕ) → Wiring → Wiring
disconnected_state a b s =
    let con = connection_ctor a b in
    record s {
      connected = erase_pair con.1 con.0 (erase_pair con.0 con.1 s.connected);
      connections = erase_pair con.0 con.1 s.connections;
      meta_data = erase_pair con.0 con.1 s.meta_data;
    }

has_connection-disconnected_state :
    (a b x y : ℕ) (s : Wiring)
    → has_connection x y (disconnected_state a b s)
      ≡ (if same_connection x y a b then false else has_connection x y s)
unfolding disconnected_state
has_connection-disconnected_state a b x y s = ground (
  arith,
  has_pair-erase_pair (connection_ctor x y).0 (connection_ctor x y).1 (connection_ctor a b).0
      (connection_ctor a b).1 s.connections,
)

has_pair-disconnected_state :
    (a b x y : ℕ) (s : Wiring)
    → has_pair x y (disconnected_state a b s).connected
      ≡ (if same_connection x y a b then false else has_pair x y s.connected)
unfolding disconnected_state
has_pair-disconnected_state a b x y s = ground (
  arith,
  has_pair-erase_pair x y (connection_ctor a b).1 (connection_ctor a b).0
      (erase_pair (connection_ctor a b).0 (connection_ctor a b).1 s.connected),
  has_pair-erase_pair x y (connection_ctor a b).0 (connection_ctor a b).1 s.connected,
)

erased_ordered :
    (a b : ℕ) (s : Wiring)
    → IsValid s
    → (x y : ℕ) → has_pair x y (disconnected_state a b s).connections ≡ true
    → x < y
unfolding disconnected_state
erased_ordered a b s v x y h = ground (
  arith,
  has_pair-erase_pair x y (connection_ctor a b).0 (connection_ctor a b).1 s.connections,
  v.ordered x y,
)

disconnected_state-Distinct :
    (a b : ℕ) (s : Wiring) → IsValid s → Distinct (disconnected_state a b s).connected
unfolding disconnected_state
disconnected_state-Distinct a b s v =
    erase_pair-Distinct (connection_ctor a b).1 (connection_ctor a b).0
      (erase_pair (connection_ctor a b).0 (connection_ctor a b).1 s.connected)
      (erase_pair-Distinct (connection_ctor a b).0 (connection_ctor a b).1 s.connected v.distinct)

erased_described :
    (a b : ℕ) (s : Wiring)
    → IsValid s
    → (x y : ℕ) → has_pair x y (disconnected_state a b s).meta_data ≡ true
    → has_pair x y (disconnected_state a b s).connections ≡ true
unfolding disconnected_state
erased_described a b s v x y h = ground (
  arith,
  has_pair-erase_pair x y (connection_ctor a b).0 (connection_ctor a b).1 s.connections,
  has_pair-erase_pair x y (connection_ctor a b).0 (connection_ctor a b).1 s.meta_data,
  v.described x y,
)

disconnected_state-IsValid : (a b : ℕ) (s : Wiring) → IsValid s → IsValid (disconnected_state a b s)
disconnected_state-IsValid a b s v = record {
  linked = λ x y. ground (
    arith,
    has_pair-disconnected_state a b x y s,
    has_connection-disconnected_state a b x y s,
    v.linked x y,
  );
  ordered = erased_ordered a b s v;
  distinct = disconnected_state-Distinct a b s v;
  described = erased_described a b s v;
}

module _ (p q : ℕ) (s : Wiring) (v : IsValid s) (h : has_pair p q s.connections ≡ true) where
  -- Both removals find their wireable: the two ends differ and each is in the set of the other.
  in_order : connection_ctor p q ≡ (p, q)
  in_order = ground (arith, v.ordered p q h)

  linked_there : has_pair p q s.connected ≡ true
  linked_there = ground (arith, v.ordered p q h, v.linked p q, h)

  linked_back : has_pair q p (erase_pair p q s.connected) ≡ true
  linked_back =
      ground (arith, v.ordered p q h, v.linked q p, h, has_pair-erase_pair q p p q s.connected)

  disconnect_sorted : disconnect_connection (p, q) s ≡ some (disconnected_state p q s)
  unfolding disconnect_connection disconnected_state remove_connected_wireable
  disconnect_sorted = rw (in_order, h, linked_there, linked_back) refl

ctor_twice :
    (a b : ℕ)
    → connection_ctor (connection_ctor a b).0 (connection_ctor a b).1 ≡ connection_ctor a b
ctor_twice a b = ground arith

sorted_state :
    (a b : ℕ) (s : Wiring)
    → disconnected_state (connection_ctor a b).0 (connection_ctor a b).1 s
      ≡ disconnected_state a b s
unfolding disconnected_state
sorted_state a b s =
    ap
      (λ (con : ℕ × ℕ). record s {
        connected = erase_pair con.1 con.0 (erase_pair con.0 con.1 s.connected);
        connections = erase_pair con.0 con.1 s.connections;
        meta_data = erase_pair con.0 con.1 s.meta_data;
      })
      (ctor_twice a b)

pub disconnect_pair_returns :
    (a b : ℕ) (s : Wiring)
    → IsValid s
    → has_connection a b s ≡ true
    → disconnect_pair a b s ≡ some (disconnected_state a b s)
unfolding disconnect_pair
disconnect_pair_returns a b s v h =
    disconnect_sorted (connection_ctor a b).0 (connection_ctor a b).1 s v h
    ∙ ap some (sorted_state a b s)

-- A connection is removed: `disconnect` of its ends, in either order, succeeds, keeps the invariant,
-- and removes this connection and no other.
pub disconnect_pair_lem :
    (a b : ℕ) (s : Wiring)
    → IsValid s
    → has_connection a b s ≡ true
    → (t : Wiring) × (disconnect_pair a b s ≡ some t)
      × IsValid t
      × ((x y : ℕ)
          → has_connection x y t
            ≡ (if same_connection x y a b then false else has_connection x y s))
disconnect_pair_lem a b s v h = (
  disconnected_state a b s,
  disconnect_pair_returns a b s v h,
  disconnected_state-IsValid a b s v,
  λ x y. has_connection-disconnected_state a b x y s,
)

-- The wireables of a list, each once.
abbrev cut : ℕ → List ℕ → ℕ → ℕ → Bool
cut w others x y = ((x == w) && member y others) || ((y == w) && member x others)

pub member-get_connected : (w x : ℕ) (s : Pairs) → member x (get_connected w s) ≡ has_pair w x s
unfolding get_connected has_pair
member-get_connected w x [] = refl
member-get_connected w x ((v, o) ∷ s) = ground (arith, member-get_connected w x s)

get_connected-NoneTwice : (w : ℕ) (s : Pairs) → Distinct s → NoneTwice (get_connected w s)
unfolding get_connected
get_connected-NoneTwice w [] h = tt
get_connected-NoneTwice w ((v, o) ∷ s) h =
    ground (arith, get_connected-NoneTwice w s h.1, member-get_connected w o s)

abbrev Cuts : (w : ℕ) → List ℕ → Wiring → Option Wiring → Type 0
Cuts w others s result =
    (t : Wiring) × (result ≡ some t)
    × IsValid t
    × ((x y : ℕ)
        → has_connection x y t ≡ (if cut w others x y then false else has_connection x y s))

disconnect_each-Cuts :
    (w : ℕ) (others : List ℕ) (s : Wiring)
    → IsValid s
    → NoneTwice others
    → ((o : ℕ) → member o others ≡ true → has_connection w o s ≡ true)
    → Cuts w others s (disconnect_each w others s)
unfolding disconnect_each
disconnect_each-Cuts w [] s v d all = (s, refl, v, λ x y. ground arith)
disconnect_each-Cuts w (wc ∷ others) s v d all =
    let s' = disconnected_state w wc s in
    let kept = λ (x y : ℕ). has_connection-disconnected_state w wc x y s in
    let (t, returns, valid, left) =
      disconnect_each-Cuts w others s' (disconnected_state-IsValid w wc s v) d.1
        (λ o m. ground (arith, kept w o, all o, d.0, m)) in
    (
      t,
      rw (disconnect_pair_returns w wc s v (all wc (ground arith))) returns,
      valid,
      λ x y. ground (arith, left x y, kept x y),
    )

-- All connections of a wireable are removed: `disconnect` of a wireable succeeds, keeps the
-- invariant, leaves it with no connection, and leaves the connections of the others as they are.
pub disconnect_lem :
    (w : ℕ) (s : Wiring)
    → IsValid s
    → (t : Wiring) × (disconnect w s ≡ some t)
      × IsValid t
      × ((x y : ℕ)
          → has_connection x y t ≡ (if (x == w) || (y == w) then false else has_connection x y s))
unfolding disconnect
disconnect_lem w s v =
    let others = get_connected w s.connected in
    let found = λ (o : ℕ). member-get_connected w o s.connected in
    let (t, returns, valid, left) =
      disconnect_each-Cuts w others s v (get_connected-NoneTwice w s.connected v.distinct)
        (λ o m. sym (v.linked w o) ∙ (sym (found o) ∙ m)) in
    (
      t,
      returns,
      valid,
      λ x y. ground (arith, left x y, found x, found y, v.linked w x, v.linked w y),
    )
