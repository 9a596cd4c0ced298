-- ===== src/Tests/Audits.antt =====
-- The audit of the sample network's links.
use telconet_sentinel.Common.{
  String, some, List, [], ◌∷◌, true, contains, ◌≡◌, refl, codes_leb, name_leb, keep_if, add,
  insert_sorted, sort, ◌<>◌, Memᴰ, ◌↔◌, distinct, all_distinct, count_if, is_identifier,
  matches_codes, all_codes,
}
use telconet_sentinel.Common.Dict.{lookup, insert}
use telconet_sentinel.Errors.{ok, map_result}
use telconet_sentinel.Models.{degraded, redundancy_reduced}
use telconet_sentinel.Topology.{known, node, link, nodes, links, fetch_all}
use telconet_sentinel.Topology.Distance.{
  entry_leb, heappush, relax, offer, scan, settle, round, loop, check_links, check_nodes,
  known_targets, initial, shortest_distance_excluding, shortest_distance,
}
use telconet_sentinel.Fault.{
  FaultScenario, FaultKind, post_init, link_failure, link_failure_scenarios,
}
use telconet_sentinel.Fault as Fault
use telconet_sentinel.Audit.{
  AccessPathResult, FaultScenarioResult, FaultAuditResult, count, passes_n_minus_one, access_names,
  service_names, add_baselines, tally_access, tally_all, classify, prefixes_of, audit_fault,
  audit_fault_scenarios,
}
use telconet_sentinel.Audit.Paths.{access_of}
use telconet_sentinel.Audit.Classes.{impact_of}
use telconet_sentinel.Audit.Verdict.{Survives, passes_n_minus_one_iff}
use telconet_sentinel.Audit.Report.{IsMeasured, audit-IsMeasured}
use telconet_sentinel.Tests.Sample.{network, network-IsValid}

abbrev pub link_down : String → FaultScenario
link_down k = record {
  id = "link:" <> k;
  kind = Fault.link;
  excluded_links = k ∷ [];
  excluded_nodes = [];
}

abbrev pub faults : List FaultScenario
faults =
    link_down "acc-agg" ∷ link_down "acc-core" ∷ link_down "agg-svc" ∷ link_down "core-svc" ∷ []

pub generated : link_failure_scenarios network ≡ ok faults
unfolding link_failure_scenarios link_failure post_init map_result links fetch_all sort
    insert_sorted name_leb codes_leb lookup distinct contains is_identifier matches_codes all_codes
generated = refl

abbrev longer : String → FaultScenarioResult
longer k = record {
  fault = link_down k;
  service_impact = degraded;
  affected_nodes = "acc-1" ∷ [];
  affected_prefixes = "10.0.0.0/24" ∷ [];
  paths = record { access_node = "acc-1"; baseline_cost = 20; post_fault_cost = some 30 } ∷ [];
}

abbrev unchanged : String → FaultScenarioResult
unchanged k = record {
  fault = link_down k;
  service_impact = redundancy_reduced;
  affected_nodes = [];
  affected_prefixes = [];
  paths = record { access_node = "acc-1"; baseline_cost = 20; post_fault_cost = some 20 } ∷ [];
}

abbrev pub report : FaultAuditResult
report = record {
  scenarios =
      longer "acc-agg" ∷ unchanged "acc-core" ∷ longer "agg-svc" ∷ unchanged "core-svc" ∷ [];
}

pub audited : audit_fault_scenarios network faults ≡ ok report
unfolding audit_fault_scenarios all_distinct audit_fault access_names service_names add_baselines
    tally_access tally_all classify prefixes_of map_result nodes fetch_all sort shortest_distance
    shortest_distance_excluding check_links check_nodes known_targets initial loop round settle scan
    offer relax heappush entry_leb name_leb codes_leb known node link contains lookup keep_if insert
    insert_sorted add
audited = refl

passes : passes_n_minus_one report ≡ true
unfolding passes_n_minus_one count count_if
passes = refl

passes_n_minus_one_iff_example : (passes_n_minus_one report ≡ true) ↔ (
    (fault : FaultScenario)
    → Memᴰ fault faults
    → (name : String) → Memᴰ name (access_names network)
    → Survives network fault name)
passes_n_minus_one_iff_example =
    passes_n_minus_one_iff network faults report network-IsValid audited

audit-IsMeasured_example :
    Memᴰ (link_down "acc-agg") faults
    × (access_of (longer "acc-agg").paths ≡ access_names network)
    × (degraded ≡ impact_of (longer "acc-agg").paths)
    × ((p : AccessPathResult)
        → Memᴰ p (longer "acc-agg").paths
        → IsMeasured network (link_down "acc-agg") p)
audit-IsMeasured_example =
    audit-IsMeasured network faults report network-IsValid audited (longer "acc-agg")
      (Memᴰ.head refl)
