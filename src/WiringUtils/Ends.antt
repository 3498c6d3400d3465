-- ===== src/WiringUtils/Ends.antt =====
-- Which connections are found.
use coreir.Base.{
  ℕ, ◌≡◌, refl, ap, ◌∙◌, Bool, true, false, ◌&&◌, ◌||◌, List, [], ◌∷◌, ◌++◌, ◌==◌, member,
  Bool-cases, inl, inr, arith,
}
use coreir.Base.Pairs.{Pairs, has_pair}
use coreir.Types.{HwType, DirKind, dk_in, dk_out, dir_eq, get_dir}
use coreir.Wiring.{get_connected}
use coreir.Wiring.Disconnect.{member-get_connected}
use coreir.Wireable.{Wireable, wireable, Selects, no_selects, select}
use coreir.ModuleDef.{owns, owns_select}
use coreir.WiringUtils.{
  connections_of, get_receiver_connections, receivers_of_selects, get_source_connections,
  sources_of_selects,
}

no_pair : (x y : ℕ) → has_pair x y [] ≡ false
unfolding has_pair
no_pair x y = refl

has_pair-append :
    (x y : ℕ) (s t : Pairs) → has_pair x y (s ++ t) ≡ (has_pair x y s || has_pair x y t)
unfolding has_pair
has_pair-append x y [] t = refl
has_pair-append x y ((a, b) ∷ s) t = ground (arith, has_pair-append x y s t)

kept :
    (same here dir m r : Bool)
    → r ≡ (here && (m && dir))
    → (same ≡ true → dir ≡ true)
    → ((same && here) || r) ≡ (here && ((same || m) && dir))
kept same here dir m r h k = ground (arith, h, k)

left_out :
    (same here dir m r : Bool)
    → r ≡ (here && (m && dir))
    → (same ≡ true → dir ≡ false)
    → r ≡ (here && ((same || m) && dir))
left_out same here dir m r h k = ground (arith, h, k)

module _ (type_of : ℕ → HwType) where
  abbrev pub is_dir : DirKind → ℕ → Bool
  is_dir d y = dir_eq (get_dir (type_of y)) d

  same_dir : (d : DirKind) (y z : ℕ) → (y == z) ≡ true → is_dir d y ≡ is_dir d z
  same_dir d y z h = ap (is_dir d) (ground arith)

  has_pair-connections_of :
      (d : DirKind) (a x y : ℕ) (sels : List ℕ)
      → has_pair y x (connections_of type_of d a sels) ≡ ((x == a) && (member y sels && is_dir d y))
  unfolding has_pair connections_of
  has_pair-connections_of d a x y [] = ground arith
  has_pair-connections_of d a x y (z ∷ sels) = elim (Bool-cases (is_dir d z)) [
    | inl is ↦ rw is (
        kept (y == z) (x == a) (is_dir d y) (member y sels)
          (has_pair y x (connections_of type_of d a sels)) (has_pair-connections_of d a x y sels)
          (λ h. same_dir d y z h ∙ is))
    | inr other ↦ rw other (
        left_out (y == z) (x == a) (is_dir d y) (member y sels)
          (has_pair y x (connections_of type_of d a sels)) (has_pair-connections_of d a x y sels)
          (λ h. same_dir d y z h ∙ other))
  ]

  -- The connections of one node.
  node :
      (d : DirKind) (a x y : ℕ) (s : Pairs)
      → has_pair y x (connections_of type_of d a (get_connected a s))
        ≡ ((x == a) && (has_pair x y s && is_dir d y))
  node d a x y s = ground (
    arith,
    has_pair-connections_of d a x y (get_connected a s),
    member-get_connected a y s,
    at a x,
  )
    where
      at : (a x : ℕ) → (x == a) ≡ true → has_pair x y s ≡ has_pair a y s
      at a x h = ap (λ z. has_pair z y s) (ground arith)

  step :
      (p q r o : Bool) (c b : Bool)
      → p ≡ (o && c)
      → q ≡ (b && c)
      → r ≡ (p || q)
      → r ≡ ((o || b) && c)
  step p q r o c b h k e = ground (arith, h, k, e)

  module _ (s : Pairs) (x y : ℕ) where
    mutual
      unfolding get_receiver_connections receivers_of_selects owns owns_select

      receivers_lem :
          (w : Wireable)
          → has_pair y x (get_receiver_connections type_of s w)
            ≡ (owns w x && (has_pair x y s && is_dir dk_in y))
      receivers_lem (wireable a t ss) =
          step _ _ _ (x == a) (has_pair x y s && is_dir dk_in y) (owns_select ss x)
            (node dk_in a x y s) (receivers_select_lem ss)
            (has_pair-append y x (connections_of type_of dk_in a (get_connected a s))
              (receivers_of_selects type_of s ss))

      receivers_select_lem :
          (ss : Selects)
          → has_pair y x (receivers_of_selects type_of s ss)
            ≡ (owns_select ss x && (has_pair x y s && is_dir dk_in y))
      receivers_select_lem no_selects = no_pair y x
      receivers_select_lem (select m c ss) =
          step _ _ _ (owns c x) (has_pair x y s && is_dir dk_in y) (owns_select ss x)
            (receivers_lem c) (receivers_select_lem ss)
            (has_pair-append y x (get_receiver_connections type_of s c)
              (receivers_of_selects type_of s ss))

    mutual
      unfolding get_source_connections sources_of_selects owns owns_select

      sources_lem :
          (w : Wireable)
          → has_pair y x (get_source_connections type_of s w)
            ≡ (owns w x && (has_pair x y s && is_dir dk_out y))
      sources_lem (wireable a t ss) =
          step _ _ _ (x == a) (has_pair x y s && is_dir dk_out y) (owns_select ss x)
            (node dk_out a x y s) (sources_select_lem ss)
            (has_pair-append y x (connections_of type_of dk_out a (get_connected a s))
              (sources_of_selects type_of s ss))

      sources_select_lem :
          (ss : Selects)
          → has_pair y x (sources_of_selects type_of s ss)
            ≡ (owns_select ss x && (has_pair x y s && is_dir dk_out y))
      sources_select_lem no_selects = no_pair y x
      sources_select_lem (select m c ss) =
          step _ _ _ (owns c x) (has_pair x y s && is_dir dk_out y) (owns_select ss x)
            (sources_lem c) (sources_select_lem ss)
            (has_pair-append y x (get_source_connections type_of s c)
              (sources_of_selects type_of s ss))

-- `getReceiverConnections` finds exactly the pairs of an end of direction in and a wireable connected
-- to it that is the given one or one of its selects; `getSourceConnections` finds those with an end of
-- direction out.
pub get_receiver_connections_lem :
    (type_of : ℕ → HwType) (s : Pairs) (w : Wireable) (x y : ℕ)
    → (has_pair y x (get_receiver_connections type_of s w)
        ≡ (owns w x && (has_pair x y s && is_dir type_of dk_in y)))
      × (has_pair y x (get_source_connections type_of s w)
          ≡ (owns w x && (has_pair x y s && is_dir type_of dk_out y)))
get_receiver_connections_lem type_of s w x y =
    (receivers_lem type_of s x y w, sources_lem type_of s x y w)
