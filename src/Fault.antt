-- ===== src/Fault.antt =====
-- fault.py: fault scenarios and the single failures of a topology. That `kind` is a `FaultKind`, which
-- the source tests, is the type here.
use telconet_sentinel.Common.{
  ℕ, ◌+◌, String, Bool, true, false, not, ◌||◌, ◌&&◌, List, [], ◌∷◌, ltb, nat_beq, length, is_empty,
  keep_if, distinct, is_lower, is_digit, is_identifier, ◌<>◌,
}
use telconet_sentinel.Errors.{
  Result, ok, ◌>>=◌, ◌>>◌, raise_if, map_result, invalid_scenario_id, no_component, not_one_link,
  not_one_node, not_composite, no_transport_node,
}
use telconet_sentinel.Models.{Node, Link, NodeRole, aggregation, core}
use telconet_sentinel.Topology.{Topology, nodes, links}

pub data FaultKind : Type 0 where
  link node composite : FaultKind

pub record FaultScenario : Type 0 where
  pub id : String
  pub kind : FaultKind
  pub excluded_links : List String
  pub excluded_nodes : List String

abbrev pub is_link : FaultKind → Bool
is_link link = true
is_link _ = false

abbrev pub is_node : FaultKind → Bool
is_node node = true
is_node _ = false

abbrev pub is_composite : FaultKind → Bool
is_composite composite = true
is_composite _ = false

abbrev pub is_scenario_code : ℕ → Bool
is_scenario_code c = is_lower c || is_digit c || nat_beq c b':' || nat_beq c b'-'

-- `__post_init__`, on the record of the arguments
unfoldable pub post_init : FaultScenario → Result FaultScenario
post_init s = do
  let excluded_links = distinct s.excluded_links
  let excluded_nodes = distinct s.excluded_nodes
  raise_if (not (is_identifier is_scenario_code 255 s.id)) invalid_scenario_id
  let component_count = length excluded_links + length excluded_nodes
  raise_if (nat_beq component_count 0) no_component
  raise_if
      (is_link s.kind && (not (nat_beq (length excluded_links) 1) || not (is_empty excluded_nodes)))
      not_one_link
  raise_if
      (is_node s.kind && (not (nat_beq (length excluded_nodes) 1) || not (is_empty excluded_links)))
      not_one_node
  raise_if (is_composite s.kind && ltb component_count 2) not_composite
  ok (record s { excluded_links = excluded_links; excluded_nodes = excluded_nodes })

unfoldable pub link_failure : Link → Result FaultScenario
link_failure l =
    post_init (record {
      id = "link:" <> l.id;
      kind = link;
      excluded_links = l.id ∷ [];
      excluded_nodes = [];
    })

unfoldable pub link_failure_scenarios : Topology → Result (List FaultScenario)
link_failure_scenarios t = map_result link_failure (links t)

abbrev pub is_transport : NodeRole → Bool
is_transport aggregation = true
is_transport core = true
is_transport _ = false

unfoldable pub node_failure : Node → Result FaultScenario
node_failure n = post_init (record {
  id = "node:" <> n.name;
  kind = node;
  excluded_links = [];
  excluded_nodes = n.name ∷ [];
})

unfoldable pub transport_node_failure_scenarios : Topology → Result (List FaultScenario)
transport_node_failure_scenarios t = do
  scenarios ← map_result node_failure (keep_if (λ n. is_transport n.role) (nodes t))
  raise_if (is_empty scenarios) no_transport_node
  ok scenarios
