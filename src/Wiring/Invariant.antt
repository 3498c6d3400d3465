-- ===== src/Wiring/Invariant.antt =====
-- The invariant of the connections of a definition.
use coreir.Base.{ℕ, ◌<◌, ◌≡◌, true}
use coreir.Base.Pairs.{has_pair, Distinct}
use coreir.Wiring.{Wiring, has_connection}

-- The sets `connected` are symmetric and hold exactly the connections; no wireable is connected to
-- itself, and metadata belongs to connections.
pub record IsValid (s : Wiring) : Type 0 where
  pub linked : (a b : ℕ) → has_pair a b s.connected ≡ has_connection a b s
  pub ordered : (a b : ℕ) → has_pair a b s.connections ≡ true → a < b
  pub distinct : Distinct s.connected
  pub described : (a b : ℕ) → has_pair a b s.meta_data ≡ true → has_pair a b s.connections ≡ true
