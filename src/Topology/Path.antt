-- ===== src/Topology/Path.antt =====
-- `has_path` of topology.py: a breadth-first search that stops at the first target it meets.
pub mod Neighbors
pub mod Invariant
pub mod Rounds
pub mod Correct
use telconet_sentinel.Common.{
  ℕ, zero, suc, ◌+◌, String, Bool, true, false, Option, none, some, List, [], ◌∷◌, ◌++◌,
  if◌then◌else◌, length, keep_if, is_empty, contains, add,
}
use telconet_sentinel.Common.Dict.{keys}
use telconet_sentinel.Errors.{Result, ok, err, ◌>>=◌, ◌>>◌, out_of_fuel}
use telconet_sentinel.Topology.{Topology, known, node, neighbors}

pub record Frontier : Type 0 where
  pub visited : List String
  pub pending : List String

pub data Visit : Type 0 where
  reached : Visit
  searching : Frontier → Visit

unfoldable pub enqueue : Frontier → String → Frontier
enqueue s neighbor = record {
  visited = add neighbor s.visited;
  pending = s.pending ++ neighbor ∷ [];
}

-- The loop over the neighbors.
unfoldable pub visit : List String → Frontier → List String → Visit
visit targets s [] = searching s
visit targets s (neighbor ∷ rest) =
    let skip = visit targets s rest in
    let go_on = visit targets (enqueue s neighbor) rest in
    if contains neighbor s.visited
    then skip
    else if contains neighbor targets
    then reached
    else go_on

abbrev pub finish : Visit → (Frontier → Result Bool) → Result Bool
finish reached again = ok true
finish (searching s) again = again s

unfoldable pub loop : Topology → Option String → List String → ℕ → Frontier → Result Bool
loop t excluded_link targets zero s = err out_of_fuel
loop t excluded_link targets (suc fuel) s = elim s.pending [
  | [] ↦ ok false
  | current ∷ rest ↦ neighbors t current excluded_link >>= λ found.
      finish (visit targets (record s { pending = rest }) found) (loop t excluded_link targets fuel)
]

-- Each round takes a node off the queue, and each node is put there once.
abbrev pub fuel : Topology → ℕ
fuel t = length (keys t.nodes_by_name) + 2

unfoldable pub has_path : Topology → String → List String → Option String → Result Bool
has_path t source targets excluded_link = do
  _ ← node t source
  let known_targets = keep_if (known t.nodes_by_name) targets
  let found =
      loop t excluded_link known_targets (fuel t)
        (record { visited = source ∷ []; pending = source ∷ [] })
  if is_empty known_targets
      then ok false
      else if contains source known_targets
      then ok true
      else found
