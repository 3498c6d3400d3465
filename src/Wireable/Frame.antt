-- ===== src/Wireable/Frame.antt =====
-- What `disconnectAll` of src/ir/wireable.cpp does not touch.
use coreir.Base.{
  some_eq, ℕ, ◌≡◌, refl, sym, ap, ◌∙◌, true, not, ◌&&◌, ◌||◌, some, List, [], ◌∷◌, guard,
  guard-true, arith, >>=-eq-some,
}
use mathlib.Core.Path.{subst}
use coreir.Base.Pairs.{has_pair, erase_pair, has_pair-erase_pair}
use coreir.Wiring.{
  Wiring, connection_ctor, remove_connected_wireable, disconnect_connection, disconnect_pair,
  get_connected, disconnect_each, disconnect,
}
use coreir.Wireable.{
  Wireable, wireable, Selects, no_selects, select, disconnect_all, disconnect_selects,
}

-- Connections are only lost, each with its metadata, and no error is counted.
pub record Loses (s t : Wiring) : Type 0 where
  pub same_errors : t.errors ≡ s.errors
  pub fewer : (x y : ℕ) → has_pair x y t.connections ≡ true → has_pair x y s.connections ≡ true
  pub described :
      (x y : ℕ)
      → has_pair x y t.meta_data ≡ (
          has_pair x y s.meta_data
          && (has_pair x y t.connections || not (has_pair x y s.connections)))

Loses-refl : (s : Wiring) → Loses s s
Loses-refl s = record { same_errors = refl; fewer = λ x y h. h; described = λ x y. ground arith }

Loses-trans : (s t u : Wiring) → Loses s t → Loses t u → Loses s u
Loses-trans s t u f g = record {
  same_errors = g.same_errors ∙ f.same_errors;
  fewer = λ x y h. f.fewer x y (g.fewer x y h);
  described = λ x y. ground (arith, f.described x y, g.described x y, f.fewer x y, g.fewer x y);
}

disconnect_connection-Loses :
    (con : ℕ × ℕ) (s t : Wiring) → disconnect_connection con s ≡ some t → Loses s t
unfolding disconnect_connection remove_connected_wireable
disconnect_connection-Loses con s t h =
    let p = (connection_ctor con.0 con.1).0 in
    let q = (connection_ctor con.0 con.1).1 in
    let (u, there, h1) = >>=-eq-some (guard (has_pair p q s.connections)) _ h in
    let (s1, first, h2) = >>=-eq-some (remove_connected_wireable p q s) _ h1 in
    let (s2, second, h3) = >>=-eq-some (remove_connected_wireable q p s1) _ h2 in
    let (u1, linked, r1) = >>=-eq-some (guard (has_pair p q s.connected)) _ first in
    let (u2, back, r2) = >>=-eq-some (guard (has_pair q p s1.connected)) _ second in
    let errors1 : s1.errors ≡ s.errors = ap (λ (w : Wiring). w.errors) (sym (some_eq r1)) in
    let errors2 : s2.errors ≡ s1.errors = ap (λ (w : Wiring). w.errors) (sym (some_eq r2)) in
    let con_t : t.connections ≡ erase_pair p q s.connections =
      ap (λ (w : Wiring). w.connections) (sym (some_eq h3)) in
    let meta_t : t.meta_data ≡ erase_pair p q s.meta_data =
      ap (λ (w : Wiring). w.meta_data) (sym (some_eq h3)) in
    let known = guard-true (has_pair p q s.connections) there in
    record {
      same_errors = ap (λ (w : Wiring). w.errors) (sym (some_eq h3)) ∙ errors2 ∙ errors1;
      fewer = λ x y i. erased_fewer p q x y s (sym (ap (λ ps. has_pair x y ps) con_t) ∙ i);
      described = λ x y. rw (con_t, meta_t) (erased_described p q x y s known);
    }
  where
    erased_fewer :
        (p q x y : ℕ) (s : Wiring)
        → has_pair x y (erase_pair p q s.connections) ≡ true
        → has_pair x y s.connections ≡ true
    erased_fewer p q x y s i = ground (arith, has_pair-erase_pair x y p q s.connections, i)

    erased_described :
        (p q x y : ℕ) (s : Wiring)
        → has_pair p q s.connections ≡ true
        → has_pair x y (erase_pair p q s.meta_data) ≡ (
            has_pair x y s.meta_data
            && (has_pair x y (erase_pair p q s.connections) || not (has_pair x y s.connections)))
    erased_described p q x y s known = ground (
      arith,
      has_pair-erase_pair x y p q s.connections,
      has_pair-erase_pair x y p q s.meta_data,
      known,
    )

disconnect_each-Loses :
    (w : ℕ) (others : List ℕ) (s t : Wiring) → disconnect_each w others s ≡ some t → Loses s t
unfolding disconnect_each disconnect_pair
disconnect_each-Loses w [] s t h = subst (Loses s) (some_eq h) (Loses-refl s)
disconnect_each-Loses w (o ∷ others) s t h =
    let (s', one, rest) = >>=-eq-some (disconnect_pair w o s) (disconnect_each w others) h in
    Loses-trans s s' t (disconnect_connection-Loses (connection_ctor w o) s s' one)
      (disconnect_each-Loses w others s' t rest)

disconnect-Loses : (w : ℕ) (s t : Wiring) → disconnect w s ≡ some t → Loses s t
unfolding disconnect
disconnect-Loses w s t h = disconnect_each-Loses w (get_connected w s.connected) s t h

mutual
  unfolding disconnect_all disconnect_selects

  pub disconnect_all-Loses : (w : Wireable) (s t : Wiring) → disconnect_all w s ≡ some t → Loses s t
  disconnect_all-Loses (wireable a ty ss) s t h =
      let (s', below, here) = >>=-eq-some (disconnect_selects ss s) (disconnect a) h in
      Loses-trans s s' t (disconnect_selects-Loses ss s s' below) (disconnect-Loses a s' t here)

  disconnect_selects-Loses :
      (ss : Selects) (s t : Wiring) → disconnect_selects ss s ≡ some t → Loses s t
  disconnect_selects-Loses no_selects s t h = subst (Loses s) (some_eq h) (Loses-refl s)
  disconnect_selects-Loses (select m c ss) s t h =
      let (s', one, rest) = >>=-eq-some (disconnect_all c s) (disconnect_selects ss) h in
      Loses-trans s s' t (disconnect_all-Loses c s s' one) (disconnect_selects-Loses ss s' t rest)
