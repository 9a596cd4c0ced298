-- ===== src/Tests/Nodes.antt =====
-- The N-1 audit of the sample network's transport nodes.
use telconet_sentinel.Common.{
  String, [], ◌∷◌, true, Memᴰ, ◌≡◌, refl, ◌↔◌, codes_leb, name_leb, contains, keep_if, add,
  insert_sorted, sort, distinct, all_distinct, is_identifier, matches_codes, all_codes,
}
use telconet_sentinel.Common.Dict.{lookup, insert}
use telconet_sentinel.Errors.{ok, map_result}
use telconet_sentinel.Models.{Node, aggregation, core, degraded, redundancy_reduced}
use telconet_sentinel.Topology.{known, node, link, nodes, fetch_all}
use telconet_sentinel.Topology.Distance.{
  entry_leb, heappush, relax, offer, scan, settle, round, loop, check_links, check_nodes,
  known_targets, initial, shortest_distance_excluding, shortest_distance,
}
use telconet_sentinel.Fault.{
  is_transport, post_init, node_failure, transport_node_failure_scenarios,
}
use telconet_sentinel.Audit.{
  access_names, service_names, add_baselines, tally_access, tally_all, classify, prefixes_of,
  audit_fault, audit_fault_scenarios,
}
use telconet_sentinel.Resilience.{
  NodeResilienceAudit, node_scenario, node_audit_passes, audit_single_node_failures,
}
use telconet_sentinel.Resilience.Nodes.{SurvivesNode, node_audit_passes_iff}
use telconet_sentinel.Tests.Sample.{network, network-IsValid}

abbrev resilience : NodeResilienceAudit
resilience = record {
  scenarios =
      record {
        node_name = "agg-1";
        role = aggregation;
        service_impact = degraded;
        affected_nodes = "acc-1" ∷ [];
        affected_prefixes = "10.0.0.0/24" ∷ [];
      }
      ∷ record {
        node_name = "core-1";
        role = core;
        service_impact = redundancy_reduced;
        affected_nodes = [];
        affected_prefixes = [];
      }
      ∷ [];
}

nodes_audited : audit_single_node_failures network ≡ ok resilience
unfolding audit_single_node_failures node_scenario transport_node_failure_scenarios node_failure
    post_init distinct is_identifier matches_codes all_codes audit_fault_scenarios all_distinct
    audit_fault access_names service_names add_baselines tally_access tally_all classify prefixes_of
    map_result nodes fetch_all sort shortest_distance shortest_distance_excluding check_links
    check_nodes known_targets initial loop round settle scan offer relax heappush entry_leb name_leb
    codes_leb known node link contains lookup keep_if insert insert_sorted add
nodes_audited = refl

node_audit_passes_iff_example : (node_audit_passes resilience ≡ true) ↔ (
    (n : Node)
    → Memᴰ n (nodes network)
    → is_transport n.role ≡ true
    → (name : String) → Memᴰ name (access_names network)
    → SurvivesNode network n name)
node_audit_passes_iff_example =
    node_audit_passes_iff network resilience network-IsValid nodes_audited
