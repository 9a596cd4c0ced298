-- ===== src/Impact/Lost.antt =====
-- What the analysis of a link failure says of the access nodes.
use mathlib.Core.List.Memᴰ
use telconet_sentinel.Common.{ℕ, ◌<◌, String, none, some, List, [], Memᴰ, ◌≡◌}
use telconet_sentinel.Errors.{ok}
use telconet_sentinel.Topology.{Topology}
use telconet_sentinel.Topology.Distance.{shortest_distance}
use telconet_sentinel.Impact.{Changes}

module _ (t : Topology) (services : List String) (k : String) where
  -- Without the link no service node can be reached.
  abbrev pub IsLost : String → Type 0
  IsLost x = shortest_distance t x services (some k) none ≡ ok none

  -- Without the link the nearest service node is farther away.
  abbrev pub IsFarther : String → Type 0
  IsFarther x =
      (before after : ℕ) × (shortest_distance t x services none none ≡ ok (some before))
      × (shortest_distance t x services (some k) none ≡ ok (some after))
      × (before < after)

abbrev no_changes : Changes
no_changes = record { changed_costs = []; unavailable = []; affected_access = [] }
