-- ===== src/Wiring/Keep.antt =====
-- Every operation on the connections keeps the invariant, whatever branch it takes.
use mathlib.Core.Path.{subst}
use coreir.Base.{
  ℕ, suc, ◌≡◌, ◌≢◌, refl, sym, ◌∙◌, Bool, true, false, not, ◌&&◌, Option, none, some, ◌==◌,
  if◌then◌else◌, Bool-cases, inl, inr, arith,
}
use coreir.Base.Pairs.{Pairs, has_pair, insert_pair, has_pair-insert_pair}
use coreir.Types.{HwType}
use coreir.Wiring.{
  Wiring, connection_ctor, has_connection, error, check_types, connected_state, connect,
  disconnect_connection, disconnect_pair, disconnect, get_meta_data,
}
use coreir.Wiring.Invariant.{IsValid}
use coreir.Wiring.Connect.{connected_state-IsValid, connect_returns, connect_refused}
use coreir.Wiring.Disconnect.{disconnect_pair_lem, disconnect_lem}

error-IsValid :
    (max_errors : ℕ) (s t : Wiring) → IsValid s → error max_errors s ≡ some t → IsValid t
unfolding error
error-IsValid max_errors s t v h =
    let eq : record s { errors = suc s.errors } ≡ t = ground (arith, h) in
    subst IsValid eq (record {
      linked = v.linked;
      ordered = v.ordered;
      distinct = v.distinct;
      described = v.described;
    })

-- Two results of one operation.
same_result : (r : Option Wiring) (t u : Wiring) → r ≡ some t → r ≡ some u → u ≡ t
same_result r t u h k = ground (arith, h, k)

module _ (max_errors : ℕ) (contained : ℕ → Bool) (type_of : ℕ → HwType) (a b : ℕ)
    (s t : Wiring) where
  refused-IsValid :
      IsValid s
      → (if contained a && contained b then none else error max_errors s) ≡ some t
      → IsValid t
  refused-IsValid v h = elim (Bool-cases (contained a && contained b)) [
    | inl inside ↦ absurd (ground (arith, inside, h))
    | inr outside ↦ error-IsValid max_errors s t v (rw outside at h)
  ]

  pub connect-IsValid :
      IsValid s → a ≢ b → connect max_errors contained type_of a b s ≡ some t → IsValid t
  connect-IsValid v apart h =
      elim (Bool-cases (
        contained a
        && contained b
        && not (check_types (type_of a) (type_of b))
        && not (has_connection a b s))) [
          | inl fine ↦
              subst IsValid
                (same_result (connect max_errors contained type_of a b s) t (connected_state a b s)
                  h
                  (connect_returns max_errors contained type_of a b s (ground (arith, fine))
                    (ground (arith, fine)) (ground (arith, fine)) (ground (arith, fine))))
                (connected_state-IsValid a b s apart v)
          | inr refused ↦
              refused-IsValid v
                (sym (connect_refused max_errors contained type_of a b s refused) ∙ h)
        ]

missing : (a b : ℕ) (s : Wiring) → has_connection a b s ≡ false → disconnect_pair a b s ≡ none
unfolding disconnect_pair disconnect_connection
missing a b s h = ground (arith, h)

pub disconnect_pair-IsValid :
    (a b : ℕ) (s t : Wiring) → IsValid s → disconnect_pair a b s ≡ some t → IsValid t
disconnect_pair-IsValid a b s t v h = elim (Bool-cases (has_connection a b s)) [
  | inl there ↦
      let (u, returned, v', left) = disconnect_pair_lem a b s v there in
      subst IsValid (same_result (disconnect_pair a b s) t u h returned) v'
  | inr absent ↦ absurd (ground (arith, missing a b s absent, h))
]

pub disconnect-IsValid : (w : ℕ) (s t : Wiring) → IsValid s → disconnect w s ≡ some t → IsValid t
disconnect-IsValid w s t v h =
    let (u, returned, v', left) = disconnect_lem w s v in
    subst IsValid (same_result (disconnect w s) t u h returned) v'

described_state : (a b : ℕ) → Wiring → Wiring
described_state a b s = record s {
  meta_data = insert_pair (connection_ctor a b).0 (connection_ctor a b).1 s.meta_data;
}

described_state-IsValid :
    (a b : ℕ) (s : Wiring)
    → IsValid s
    → has_connection a b s ≡ true
    → IsValid (described_state a b s)
unfolding described_state
described_state-IsValid a b s v h = record {
  linked = v.linked;
  ordered = v.ordered;
  distinct = v.distinct;
  described = λ x y m. ground (
    arith,
    has_pair-insert_pair x y (connection_ctor a b).0 (connection_ctor a b).1 s.meta_data,
    v.described x y,
    same x y (connection_ctor a b).0 (connection_ctor a b).1 s.connections,
    h,
  );
}
  where
    same :
        (x y c d : ℕ) (p : Pairs) → ((x == c) && (y == d)) ≡ true → has_pair x y p ≡ has_pair c d p
    same x y c d p e = rw (left x y c d e, right x y c d e) refl
      where
        left : (x y c d : ℕ) → ((x == c) && (y == d)) ≡ true → x ≡ c
        left x y c d e = ground arith

        right : (x y c d : ℕ) → ((x == c) && (y == d)) ≡ true → y ≡ d
        right x y c d e = ground arith

pub get_meta_data-IsValid :
    (a b : ℕ) (s t : Wiring) → IsValid s → get_meta_data a b s ≡ some t → IsValid t
unfolding get_meta_data described_state
get_meta_data-IsValid a b s t v h =
    subst IsValid (ground (arith, h)) (described_state-IsValid a b s v (ground (arith, h)))
