-- ===== src/Tests/Plans.antt =====
-- A plan for a triangle of three nodes, and the observation of a run of it.
use telconet_sentinel.Common.{
  String, ℕ, some, List, [], ◌∷◌, true, contains, ◌≡◌, refl, map, codes_leb, name_leb, keep_if, any,
  add, insert_sorted, sort, distinct, all_distinct, subset, same_names, is_identifier,
  matches_codes, all_codes, after, after_codes, is_hex, split_codes, number_of, text_before, Memᴰ,
}
use telconet_sentinel.Common.Dict.{Dict, lookup, insert}
use telconet_sentinel.Errors.{ok, map_result}
use telconet_sentinel.Models.{Node, Link, access, aggregation, service}
use telconet_sentinel.Topology.{
  Topology, new, add_nodes, add_node, add_links, add_link, unknown_endpoints, known, node, link,
  nodes, links, fetch_all,
}
use telconet_sentinel.Topology.Valid.{IsValid, new-IsValid}
use telconet_sentinel.Topology.Distance.{
  entry_leb, heappush, relax, offer, scan, settle, round, loop, check_links, check_nodes,
  known_targets, initial, shortest_distance_excluding, shortest_distance,
}
use telconet_sentinel.Fault.{
  FaultScenario, post_init, link_failure, link_failure_scenarios, node_failure,
  transport_node_failure_scenarios,
}
use telconet_sentinel.Fault as Fault
use telconet_sentinel.Audit.{
  access_names, service_names, add_baselines, tally_access, tally_all, classify, prefixes_of,
  audit_fault, audit_fault_scenarios,
}
use telconet_sentinel.Audit.Report.{IsMeasured}
use telconet_sentinel.Runtime.{
  RuntimeFaultPlan, RuntimeN1Plan, RuntimePathExpectation, InjectionInterface,
  RuntimeN1PublishedEvidence, RuntimeN1PublishedScenario, validate_plan, validate_fault_plan,
  validate_injection, validate_adjacency, validate_service_prefix, is_interface_name,
  is_scenario_id, has_pair, distinct_pairs, same_codes, is_octet, is_address, is_full_length,
  is_host_network, expected_node,
}
use telconet_sentinel.Runtime.Lab.{find_pair}
use telconet_sentinel.Runtime.Plan.{
  all_prefixes, add_degree, add_degrees, no_degrees, link_injection, node_injections, injections_of,
  plan_scenario, adjacency, single_prefix, build_runtime_n1_plan,
}
use telconet_sentinel.Runtime.Plan.Faults.{IsSingleFault, measured_path, plan-IsMeasured}
use telconet_sentinel.Runtime.Commands.{baseline_by_access}
use telconet_sentinel.Runtime.Commands.Baselines.{HasBaseline, baseline_by_access-ok}
use telconet_sentinel.Tests.Sample.{named}

abbrev near : Link
near = record { id = "acc-agg"; endpoint_a = "acc-1"; endpoint_b = "agg-1"; cost = 10 }

abbrev far : Link
far = record { id = "acc-svc"; endpoint_a = "acc-1"; endpoint_b = "svc-1"; cost = 50 }

abbrev last_hop : Link
last_hop = record { id = "agg-svc"; endpoint_a = "agg-1"; endpoint_b = "svc-1"; cost = 10 }

abbrev triangle_nodes : List Node
triangle_nodes =
    named "acc-1" access []
    ∷ named "agg-1" aggregation []
    ∷ named "svc-1" service ("192.0.2.1/32" ∷ [])
    ∷ []

abbrev pub triangle : Topology
triangle = record {
  nodes_by_name =
      ("acc-1", named "acc-1" access [])
      ∷ ("agg-1", named "agg-1" aggregation [])
      ∷ ("svc-1", named "svc-1" service ("192.0.2.1/32" ∷ []))
      ∷ [];
  links_by_id = ("acc-agg", near) ∷ ("acc-svc", far) ∷ ("agg-svc", last_hop) ∷ [];
}

triangle_built : new triangle_nodes (near ∷ far ∷ last_hop ∷ []) ≡ ok triangle
unfolding new add_nodes add_node add_links add_link unknown_endpoints known insert contains keep_if
    sort insert_sorted
triangle_built = refl

pub triangle-IsValid : IsValid triangle
triangle-IsValid = new-IsValid triangle_nodes (near ∷ far ∷ last_hop ∷ []) triangle triangle_built

abbrev pub digest : String
digest = "0123456789abcdef0123456789abcdef0123456789abcdef0123456789abcdef"

abbrev pub fingerprint : Topology → String
fingerprint t = digest

abbrev interfaces : String → String → String → String → Dict String
interfaces a i b j = (a, i) ∷ (b, j) ∷ []

abbrev pub lab : List (Dict String)
lab =
    interfaces "acc-1" "eth1" "agg-1" "eth1"
    ∷ interfaces "acc-1" "eth2" "svc-1" "eth1"
    ∷ interfaces "agg-1" "eth2" "svc-1" "eth2"
    ∷ []

abbrev at : String → String → InjectionInterface
at node interface = record { node = node; interface = interface }

abbrev path : ℕ → RuntimePathExpectation
path after = record { access_node = "acc-1"; baseline_metric = 20; fault_metric = some after }

abbrev planned : String → Fault.FaultKind → String → List InjectionInterface → ℕ → RuntimeFaultPlan
planned id kind component injections after = record {
  scenario_id = id;
  kind = kind;
  component_id = component;
  injections = injections;
  paths = path after ∷ [];
}

abbrev pub without_near : RuntimeFaultPlan
without_near =
    planned "link:acc-agg" Fault.link "acc-agg" (at "acc-1" "eth1" ∷ at "agg-1" "eth1" ∷ []) 50

abbrev pub plan : RuntimeN1Plan
plan = record {
  schema_version = 1;
  topology_sha256 = digest;
  lab_sha256 = digest;
  service_prefix = "192.0.2.1/32";
  baseline_adjacencies =
      record { router = "acc-1"; full_neighbors = 2 }
      ∷ record { router = "agg-1"; full_neighbors = 2 }
      ∷ record { router = "svc-1"; full_neighbors = 2 }
      ∷ [];
  scenarios =
      without_near
      ∷ planned "link:acc-svc" Fault.link "acc-svc" (at "acc-1" "eth2" ∷ at "svc-1" "eth1" ∷ []) 20
      ∷ planned "link:agg-svc" Fault.link "agg-svc" (at "agg-1" "eth2" ∷ at "svc-1" "eth2" ∷ []) 50
      ∷ planned "node:agg-1" Fault.node "agg-1" (at "agg-1" "eth1" ∷ at "agg-1" "eth2" ∷ []) 50
      ∷ [];
}

pub built : build_runtime_n1_plan fingerprint triangle lab digest ≡ ok plan
unfolding build_runtime_n1_plan all_prefixes add_degree add_degrees no_degrees link_injection
    node_injections injections_of plan_scenario adjacency single_prefix find_pair same_names subset
    validate_plan validate_fault_plan validate_injection validate_adjacency validate_service_prefix
    is_interface_name is_scenario_id has_pair distinct_pairs same_codes is_octet is_address
    is_full_length is_host_network after after_codes is_hex split_codes number_of text_before
    link_failure_scenarios link_failure transport_node_failure_scenarios node_failure post_init
    distinct is_identifier matches_codes all_codes audit_fault_scenarios all_distinct audit_fault
    access_names service_names add_baselines tally_access tally_all classify prefixes_of map_result
    nodes links fetch_all sort shortest_distance shortest_distance_excluding check_links check_nodes
    known_targets initial loop round settle scan offer relax heappush entry_leb name_leb codes_leb
    known node link contains lookup keep_if any insert insert_sorted add
built = refl

plan-IsMeasured_example :
    (f : FaultScenario) × (f.id ≡ "link:acc-agg")
    × IsSingleFault triangle f
    × (map expected_node without_near.paths ≡ access_names triangle)
    × ((p : RuntimePathExpectation)
        → Memᴰ p without_near.paths
        → IsMeasured triangle f (measured_path p))
plan-IsMeasured_example =
    plan-IsMeasured fingerprint triangle lab digest plan triangle-IsValid built without_near
      (Memᴰ.head refl)

baseline_by_access-ok_example :
    (baselines : Dict ℕ) × (baseline_by_access [] plan.scenarios ≡ ok baselines)
    × ((name : String) (cost : ℕ)
        → lookup name baselines ≡ some cost
        → HasBaseline triangle name cost)
baseline_by_access-ok_example =
    baseline_by_access-ok fingerprint triangle lab digest plan triangle-IsValid built

abbrev run_of : String → Fault.FaultKind → RuntimeN1PublishedScenario
run_of id kind = record { scenario_id = id; kind = kind; passed = true }

abbrev commit : String
commit = "0123456789abcdef0123456789abcdef01234567"

abbrev pub published : RuntimeN1PublishedEvidence
published = record {
  schema_version = 1;
  source_commit = commit;
  workflow_run_id = 7;
  archive_sha256 = digest;
  source_evidence_sha256 = digest;
  plan_sha256 = digest;
  observation_sha256 = digest;
  topology_sha256 = digest;
  lab_sha256 = digest;
  runtime_configuration_sha256 = digest;
  passed_all = true;
  total_checks = 32;
  passed_checks = 32;
  failed_checks = 0;
  scenarios =
      run_of "link:acc-agg" Fault.link
      ∷ run_of "link:acc-svc" Fault.link
      ∷ run_of "link:agg-svc" Fault.link
      ∷ run_of "node:agg-1" Fault.node
      ∷ [];
}
