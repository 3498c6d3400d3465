-- ===== src/ModuleDef/Drivers.antt =====
-- The checks on inputs against a count: how many connections meet on one way from a wireable down to
-- one of its selects.
use coreir.Base.{
  ℕ, ◌+◌, ◌≡◌, refl, ap, ap₂, ◌∙◌, Bool, true, ◌&&◌, ◌||◌, ltb, leb, ◌==◌, if◌then◌else◌, length,
  arith,
}
use coreir.Base.Pairs.{Pairs}
use coreir.Types.{has_input}
use coreir.Wiring.{get_connected}
use coreir.Wireable.{Wireable, wireable, Selects, no_selects, select}
use coreir.ModuleDef.{
  check_input_connected, any_input_connected, check_input_outputs, any_input_outputs,
}

abbrev pub larger : ℕ → ℕ → ℕ
larger m n = if ltb m n then n else m

-- The most connections on one way down, through wireables whose type has an input.
unfoldable mutual
  unfolding has_input get_connected

  pub drivers : Pairs → Wireable → ℕ
  drivers s (wireable a t ss) =
      if has_input t then length (get_connected a s) + most_drivers s ss else 0

  pub most_drivers : Pairs → Selects → ℕ
  most_drivers s no_selects = 0
  most_drivers s (select m c ss) = larger (drivers s c) (most_drivers s ss)

connected_node : (h : Bool) (k m : ℕ) → (h && (leb 1 k || leb 1 m)) ≡ leb 1 (if h then k + m else 0)
connected_node h k m = ground arith

outputs_node :
    (h : Bool) (k m : ℕ)
    → (h && (if leb 2 k then true else if k == 0 then leb 2 m else leb 1 m))
      ≡ leb 2 (if h then k + m else 0)
outputs_node h k m = ground arith

larger_test : (n a b : ℕ) → (leb n a || leb n b) ≡ leb n (larger a b)
larger_test n a b = ground arith

mutual
  unfolding check_input_connected any_input_connected drivers most_drivers

  connected_lem : (s : Pairs) (w : Wireable) → check_input_connected s w ≡ leb 1 (drivers s w)
  connected_lem s (wireable a t ss) =
      ap (λ b. has_input t && (leb 1 (length (get_connected a s)) || b)) (any_connected_lem s ss)
      ∙ connected_node (has_input t) (length (get_connected a s)) (most_drivers s ss)

  any_connected_lem :
      (s : Pairs) (ss : Selects) → any_input_connected s ss ≡ leb 1 (most_drivers s ss)
  any_connected_lem s no_selects = refl
  any_connected_lem s (select m c ss) =
      ap₂ (λ x y. x || y) (connected_lem s c) (any_connected_lem s ss)
      ∙ larger_test 1 (drivers s c) (most_drivers s ss)

mutual
  unfolding check_input_outputs any_input_outputs drivers most_drivers

  outputs_lem : (s : Pairs) (w : Wireable) → check_input_outputs s w ≡ leb 2 (drivers s w)
  outputs_lem s (wireable a t ss) =
      ap₂
        (λ x y.
          has_input t
          && (if leb 2 (length (get_connected a s))
              then true
              else if length (get_connected a s) == 0
              then x
              else y))
        (any_outputs_lem s ss) (any_connected_lem s ss)
      ∙ outputs_node (has_input t) (length (get_connected a s)) (most_drivers s ss)

  any_outputs_lem : (s : Pairs) (ss : Selects) → any_input_outputs s ss ≡ leb 2 (most_drivers s ss)
  any_outputs_lem s no_selects = refl
  any_outputs_lem s (select m c ss) =
      ap₂ (λ x y. x || y) (outputs_lem s c) (any_outputs_lem s ss)
      ∙ larger_test 2 (drivers s c) (most_drivers s ss)

-- `checkInputOutputs` finds an error exactly if two connections or more meet on one way down through
-- wireables that have an input, be they on one wireable or on a wireable and a select below it.
pub check_input_outputs_lem :
    (s : Pairs) (w : Wireable) → check_input_outputs s w ≡ leb 2 (drivers s w)
check_input_outputs_lem = outputs_lem
