-- ===== src/Runtime/Plan.antt =====
-- runtime_resilience.py: `build_runtime_n1_plan`, from the topology of the intent and the links of the
-- lab. The digests of the topology and of the lab's bytes come from outside.
pub mod Faults
use telconet_sentinel.Common.{
  ℕ, zero, suc, ◌+◌, String, Bool, true, false, not, Option, none, some, List, [], ◌∷◌, ◌++◌, map,
  leb, ltb, nat_beq, length, keep_if, any, contains, sort, name_leb,
}
use telconet_sentinel.Common.Dict.{Dict, lookup, insert, keys, values}
use telconet_sentinel.Errors.{
  Result, ok, err, ◌>>=◌, ◌>>◌, raise_if, or_raise, map_result, missing_key, access_limit,
  prefix_limit, not_one_service_prefix, scenario_limit, isolated_node, missing_lab_link,
  no_lab_interface, stop_iteration,
}
use telconet_sentinel.Models.{Node, Link}
use telconet_sentinel.Topology.{Topology, nodes, links, link}
use telconet_sentinel.Fault.{
  FaultScenario, link_failure_scenarios, transport_node_failure_scenarios,
}
use telconet_sentinel.Audit.{
  AccessPathResult, FaultScenarioResult, is_access, is_service, audit_fault_scenarios,
}
use telconet_sentinel.Runtime.{
  InjectionInterface, RuntimePathExpectation, BaselineAdjacencyExpectation, RuntimeFaultPlan,
  RuntimeN1Plan, validate_fault_plan, validate_plan,
}
use telconet_sentinel.Runtime.Lab.{find_pair, is_within}

unfoldable pub all_prefixes : List Node → List String
all_prefixes [] = []
all_prefixes (n ∷ ns) = n.prefixes ++ all_prefixes ns

-- `degrees[node] += 1`
unfoldable pub add_degree : String → Dict ℕ → Result (Dict ℕ)
add_degree name degrees = do
  degree ← or_raise (lookup name degrees) (missing_key name)
  ok (insert name (suc degree) degrees)

unfoldable pub add_degrees : Dict ℕ → List Link → Result (Dict ℕ)
add_degrees degrees [] = ok degrees
add_degrees degrees (l ∷ rest) = do
  first ← add_degree l.endpoint_a degrees
  second ← add_degree l.endpoint_b first
  add_degrees second rest

-- `{node.name: 0 for node in topology.nodes}`
unfoldable pub no_degrees : Dict ℕ → List Node → Dict ℕ
no_degrees degrees [] = degrees
no_degrees degrees (n ∷ ns) = no_degrees (insert n.name 0 degrees) ns

unfoldable pub link_injection : Dict String → String → Result InjectionInterface
link_injection interfaces name = do
  interface ← or_raise (lookup name interfaces) (missing_key name)
  ok (record { node = name; interface = interface })

-- The interfaces of a node, in the order of the links.
unfoldable pub node_injections : String → List (Dict String) → List InjectionInterface
node_injections component_id [] = []
node_injections component_id (interfaces ∷ rest) =
    let others = node_injections component_id rest in
    elim (lookup component_id interfaces) [
      | none ↦ others
      | some interface ↦ record { node = component_id; interface = interface } ∷ others
    ]

abbrev pub interface_leb : InjectionInterface → InjectionInterface → Bool
interface_leb i j = name_leb i.interface j.interface

abbrev pub path_expectation : AccessPathResult → RuntimePathExpectation
path_expectation p = record {
  access_node = p.access_node;
  baseline_metric = p.baseline_cost;
  fault_metric = p.post_fault_cost;
}

-- The component of a fault and its interfaces.
unfoldable pub injections_of :
    Topology → List (Dict String) → FaultScenario → Result (String × List InjectionInterface)
injections_of t lab_links fault = by_links fault.excluded_links
  where
    by_links : List String → Result (String × List InjectionInterface)
    by_links (component_id ∷ _) = do
      l ← link t component_id
      interfaces ←
          or_raise (find_pair (l.endpoint_a ∷ l.endpoint_b ∷ []) lab_links)
            (missing_lab_link component_id)
      injections ← map_result (link_injection interfaces) (l.endpoint_a ∷ l.endpoint_b ∷ [])
      ok (component_id, injections)
    by_links [] = by_nodes fault.excluded_nodes
      where
        by_nodes : List String → Result (String × List InjectionInterface)
        by_nodes (component_id ∷ _) = do
          let injections = sort interface_leb (node_injections component_id lab_links)
          raise_if (nat_beq (length injections) 0) (no_lab_interface component_id)
          ok (component_id, injections)
        by_nodes [] = err stop_iteration

-- The body of the loop over the results of the audit.
unfoldable pub plan_scenario :
    Topology → List (Dict String) → FaultScenarioResult → Result RuntimeFaultPlan
plan_scenario t lab_links result = do
  found ← injections_of t lab_links result.fault
  let plan : RuntimeFaultPlan = record {
    scenario_id = result.fault.id;
    kind = result.fault.kind;
    component_id = found.0;
    injections = found.1;
    paths = map path_expectation result.paths;
  }
  validate_fault_plan plan
  ok plan

unfoldable pub adjacency : Dict ℕ → Node → Result BaselineAdjacencyExpectation
adjacency degrees n = do
  degree ← or_raise (lookup n.name degrees) (missing_key n.name)
  ok (record { router = n.name; full_neighbors = degree })

-- `service_prefixes[0]`, of a list of one
unfoldable pub single_prefix : List String → Result String
single_prefix (prefix ∷ []) = ok prefix
single_prefix _ = err not_one_service_prefix

module _ (topology_fingerprint : Topology → String) where
  unfoldable pub build_runtime_n1_plan :
      Topology → List (Dict String) → String → Result RuntimeN1Plan
  build_runtime_n1_plan t lab_links lab_sha256 = do
    let access_nodes = keep_if (λ (n : Node). is_access n.role) (nodes t)
    raise_if (not (is_within 16 (length access_nodes))) access_limit
    raise_if (ltb 128 (length (all_prefixes (nodes t)))) prefix_limit
    service_prefix ← single_prefix (all_prefixes (keep_if (λ n. is_service n.role) (nodes t)))
    of_links ← link_failure_scenarios t
    of_nodes ← transport_node_failure_scenarios t
    let faults = of_links ++ of_nodes
    raise_if (ltb 64 (length faults)) scenario_limit
    audit ← audit_fault_scenarios t faults
    degrees ← add_degrees (no_degrees [] (nodes t)) (links t)
    raise_if (any (nat_beq 0) (values degrees)) isolated_node
    scenarios ← map_result (plan_scenario t lab_links) audit.scenarios
    baseline_adjacencies ← map_result (adjacency degrees) (nodes t)
    validate_plan (record {
      schema_version = 1;
      topology_sha256 = topology_fingerprint t;
      lab_sha256 = lab_sha256;
      service_prefix = service_prefix;
      baseline_adjacencies = baseline_adjacencies;
      scenarios = scenarios;
    })
