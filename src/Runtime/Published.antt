-- ===== src/Runtime/Published.antt =====
-- runtime_resilience.py: the published evidence against a topology, and its metrics. The digest of a
-- topology comes from outside.
pub mod Accepted
use telconet_sentinel.Common.{
  ℕ, String, Bool, true, false, not, List, [], ◌∷◌, ◌++◌, map, ◌==◌, count_if, decimal, join, ◌<>◌,
  same_names, if◌then◌else◌,
}
use telconet_sentinel.Errors.{
  Result, ◌>>=◌, ◌>>◌, raise_if, fingerprint_mismatch, configuration_mismatch, matrix_mismatch,
}
use telconet_sentinel.Fault.{
  FaultKind, link, node, FaultScenario, is_link, is_node, link_failure_scenarios,
  transport_node_failure_scenarios,
}
use telconet_sentinel.Topology.{Topology}
use telconet_sentinel.Runtime.{
  RuntimeN1PublishedScenario, RuntimeN1PublishedEvidence, published_id, kind_value,
}

abbrev pub fault_id : FaultScenario → String
fault_id f = f.id

module _ (topology_fingerprint : Topology → String) where
  unfoldable pub validate_runtime_n1_published_topology :
      RuntimeN1PublishedEvidence → Topology → String → Result (Unit {0})
  validate_runtime_n1_published_topology evidence topology runtime_configuration_sha256 = do
    raise_if (not (topology_fingerprint topology == evidence.topology_sha256)) fingerprint_mismatch
    raise_if (not (runtime_configuration_sha256 == evidence.runtime_configuration_sha256))
        configuration_mismatch
    of_links ← link_failure_scenarios topology
    of_nodes ← transport_node_failure_scenarios topology
    raise_if
        (not
          (same_names (map published_id evidence.scenarios) (map fault_id (of_links ++ of_nodes))))
        matrix_mismatch

-- `kind_counts[kind]`, by the test for the kind
unfoldable pub kind_count : (FaultKind → Bool) → List RuntimeN1PublishedScenario → ℕ
kind_count is_kind = count_if (λ (s : RuntimeN1PublishedScenario). is_kind s.kind)

abbrev pub gauge : Bool → String
gauge b = if b then "1" else "0"

unfoldable pub scenario_line : RuntimeN1PublishedScenario → String
scenario_line s =
    "telconet_runtime_n1_scenario_pass{kind=\""
    <> kind_value s.kind
    <> "\",scenario_id=\""
    <> s.scenario_id
    <> "\"} "
    <> gauge s.passed

unfoldable pub render_runtime_n1_metrics : RuntimeN1PublishedEvidence → String
render_runtime_n1_metrics e =
    join "\n" (
      "# HELP telconet_runtime_n1_pass Whether the attested runtime N-1 matrix passed."
        ∷ "# TYPE telconet_runtime_n1_pass gauge"
        ∷ ("telconet_runtime_n1_pass " <> gauge e.passed_all)
        ∷ "# HELP telconet_runtime_n1_scenarios_total Runtime N-1 scenarios by kind."
        ∷ "# TYPE telconet_runtime_n1_scenarios_total gauge"
        ∷ ("telconet_runtime_n1_scenarios_total{kind=\"link\"} "
            <> decimal (kind_count is_link e.scenarios))
        ∷ ("telconet_runtime_n1_scenarios_total{kind=\"node\"} "
            <> decimal (kind_count is_node e.scenarios))
        ∷ "# HELP telconet_runtime_n1_checks_total Runtime N-1 checks by result."
        ∷ "# TYPE telconet_runtime_n1_checks_total gauge"
        ∷ ("telconet_runtime_n1_checks_total{result=\"passed\"} " <> decimal e.passed_checks)
        ∷ ("telconet_runtime_n1_checks_total{result=\"failed\"} " <> decimal e.failed_checks)
        ∷ "# HELP telconet_runtime_n1_scenario_pass Whether one runtime scenario passed."
        ∷ "# TYPE telconet_runtime_n1_scenario_pass gauge"
        ∷ map scenario_line e.scenarios
      ++ "# HELP telconet_runtime_n1_evidence_info Attested runtime evidence identity."
        ∷ "# TYPE telconet_runtime_n1_evidence_info gauge"
        ∷ ("telconet_runtime_n1_evidence_info{source_commit=\""
            <> e.source_commit
            <> "\",workflow_run=\""
            <> decimal e.workflow_run_id
            <> "\"} 1")
        ∷ [])
    <> "\n"
