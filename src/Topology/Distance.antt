-- ===== src/Topology/Distance.antt =====
-- `shortest_distance_excluding` and `shortest_distance` of topology.py: Dijkstra's algorithm with a
-- heap from which stale entries are dropped when they are popped.
pub mod Queue
pub mod Invariant
pub mod Scan
pub mod Frontier
pub mod Step
pub mod Loop
pub mod Start
pub mod Checks
pub mod Correct
use telconet_sentinel.Common.{
  ℕ, zero, suc, ◌+◌, ◌*◌, String, Bool, true, false, not, Option, none, some, List, [], ◌∷◌, foldl,
  ◌==◌, ltb, nat_beq, if◌then◌else◌, length, keep_if, is_empty, contains, name_leb, insert_sorted,
}
use telconet_sentinel.Common.Dict.{Dict, lookup, insert, keys, values, or_default}
use telconet_sentinel.Errors.{Result, ok, err, ◌>>=◌, ◌>>◌, missing_key, out_of_fuel}
use telconet_sentinel.Models.{Node, Link}
use telconet_sentinel.Topology.{Topology, node, link, known}
use telconet_sentinel.Topology.Walk.{Excluded}

abbrev pub Entry : Type 0
Entry = ℕ × String

-- The order of the heap's entries: by distance, then by name.
unfoldable pub entry_leb : Entry → Entry → Bool
entry_leb (d, n) (e, m) = if ltb d e then true else if ltb e d then false else name_leb n m

-- The heap is kept as the list of its entries in order, so `heappop` takes the first.
pub record Search : Type 0 where
  pub distances : Dict ℕ
  pub pending : List Entry

unfoldable pub heappush : List Entry → Entry → List Entry
heappush pending entry = insert_sorted entry_leb entry pending

unfoldable pub relax : Excluded → Search → String → ℕ → Search
relax x s neighbor candidate =
    if contains neighbor x.nodes
    then s
    else if ltb candidate (or_default (lookup neighbor s.distances) (candidate + 1))
    then record {
      distances = insert neighbor candidate s.distances;
      pending = heappush s.pending (candidate, neighbor);
    }
    else s

-- The body of the loop over the links.
unfoldable pub offer : Excluded → ℕ → String → Search → Link → Search
offer x distance current s link =
    if contains link.id x.links
    then s
    else if link.endpoint_a == current
    then relax x s link.endpoint_b (distance + link.cost)
    else if link.endpoint_b == current
    then relax x s link.endpoint_a (distance + link.cost)
    else s

unfoldable pub scan : Excluded → ℕ → String → Search → List Link → Search
scan x distance current = foldl (offer x distance current)

-- One round of the `while` loop ends the method or leaves a search to go on with.
pub data Round : Type 0 where
  return : Result (Option ℕ) → Round
  continue : Search → Round

unfoldable pub settle : List Link → Excluded → List String → Search → ℕ → String → Round
settle ls x targets s distance current = elim (lookup current s.distances) [
  | none ↦ return (err (missing_key current))
  | some best ↦
      if not (nat_beq distance best)
      then continue s
      else if contains current targets
      then return (ok (some distance))
      else continue (scan x distance current s ls)
]

unfoldable pub round : List Link → Excluded → List String → Search → Round
round ls x targets s = elim s.pending [
  | [] ↦ return (ok none)
  | (distance, current) ∷ rest ↦ settle ls x targets (record s { pending = rest }) distance current
]

abbrev pub finish : Round → (Search → Result (Option ℕ)) → Result (Option ℕ)
finish (return r) again = r
finish (continue s) again = again s

unfoldable pub loop : List Link → Excluded → List String → ℕ → Search → Result (Option ℕ)
loop ls x targets zero s = err out_of_fuel
loop ls x targets (suc fuel) s = finish (round ls x targets s) (loop ls x targets fuel)

-- `for link_id in excluded_links: self.link(link_id)`, and so for the nodes
unfoldable pub check_links : Topology → List String → Result (Unit {0})
check_links t [] = ok tt
check_links t (link_id ∷ rest) = do _ ← link t link_id; check_links t rest

unfoldable pub check_nodes : Topology → List String → Result (Unit {0})
check_nodes t [] = ok tt
check_nodes t (name ∷ rest) = do _ ← node t name; check_nodes t rest

unfoldable pub known_targets : Topology → List String → List String → List String
known_targets t targets excluded_nodes =
    keep_if (λ name. not (contains name excluded_nodes)) (keep_if (known t.nodes_by_name) targets)

unfoldable pub initial : String → Search
initial source = record { distances = (source, 0) ∷ []; pending = (0, source) ∷ [] }

-- One round for each entry of the heap, and an entry for each link and node, the first, and the end.
abbrev pub fuel : Topology → ℕ
fuel t = length (values t.links_by_id) * length (keys t.nodes_by_name) + 2

unfoldable pub shortest_distance_excluding :
    Topology → String → List String → Excluded → Result (Option ℕ)
shortest_distance_excluding t source targets x = do
  _ ← node t source
  check_links t x.links
  check_nodes t x.nodes
  let goals = known_targets t targets x.nodes
  let found = loop (values t.links_by_id) x goals (fuel t) (initial source)
  if contains source x.nodes then ok none else if is_empty goals then ok none else found

abbrev pub singleton : Option String → List String
singleton none = []
singleton (some name) = name ∷ []

unfoldable pub shortest_distance :
    Topology → String → List String → Option String → Option String → Result (Option ℕ)
shortest_distance t source targets excluded_link excluded_node =
    shortest_distance_excluding t source targets
      (record { links = singleton excluded_link; nodes = singleton excluded_node })
