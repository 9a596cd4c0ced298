-- ===== src/Resilience/Metrics.antt =====
-- The metric texts of resilience.py, line by line.
use telconet_sentinel.Common.{
  String, Bool, List, [], ◌∷◌, map, decimal, join, escape_label, ◌<>◌, ◌==◌, not, ◌||◌,
  if◌then◌else◌,
}
use telconet_sentinel.Errors.{Result, ok, ◌>>◌, raise_if, unsupported_design}
use telconet_sentinel.Models.{ServiceImpact, degraded, outage, redundancy_reduced, impact_value}
use telconet_sentinel.Resilience.{
  ResilienceAudit, NodeResilienceAudit, LinkFailureScenario, link_count, node_count,
  link_audit_passes, node_audit_passes,
}

abbrev one_if : Bool → String
one_if passes = if passes then "1" else "0"

unfoldable pub impact_line : ResilienceAudit → ServiceImpact → String
impact_line audit impact =
    "telconet_n1_scenarios_total{impact=\""
    <> impact_value impact
    <> "\"} "
    <> decimal (link_count audit impact)

unfoldable pub link_line : LinkFailureScenario → String
link_line scenario =
    "telconet_n1_link_impact{impact=\""
    <> impact_value scenario.service_impact
    <> "\",link_id=\""
    <> escape_label scenario.link_id
    <> "\"} 1"

unfoldable pub render_resilience_metrics : ResilienceAudit → String
render_resilience_metrics audit =
    join "\n" (
      "# HELP telconet_n1_design_pass Whether every simulated single-link failure preserves service reachability."
      ∷ "# TYPE telconet_n1_design_pass gauge"
      ∷ ("telconet_n1_design_pass " <> one_if (link_audit_passes audit))
      ∷ "# HELP telconet_n1_scenarios_total Simulated single-link failures by impact."
      ∷ "# TYPE telconet_n1_scenarios_total gauge"
      ∷ impact_line audit degraded
      ∷ impact_line audit outage
      ∷ impact_line audit redundancy_reduced
      ∷ "# HELP telconet_n1_link_impact Impact classification for each simulated link failure."
      ∷ "# TYPE telconet_n1_link_impact gauge"
      ∷ map link_line audit.scenarios)
    <> "\n"

unfoldable pub render_candidate_resilience_metrics : ResilienceAudit → String
render_candidate_resilience_metrics audit = join "\n" (
    "# HELP telconet_n1_candidate_design_pass Whether every modeled single-link failure preserves candidate service reachability."
    ∷ "# TYPE telconet_n1_candidate_design_pass gauge"
    ∷ ("telconet_n1_candidate_design_pass " <> one_if (link_audit_passes audit))
    ∷ "# HELP telconet_n1_candidate_outages_total Modeled single-link failures causing candidate service outage."
    ∷ "# TYPE telconet_n1_candidate_outages_total gauge"
    ∷ ("telconet_n1_candidate_outages_total " <> decimal (link_count audit outage))
    ∷ ""
    ∷ [])

abbrev node_lines : NodeResilienceAudit → String → String → List String
node_lines audit design prefix =
    ("# HELP " <> prefix <> "_design_pass Whether every modeled transport-node failure preserves "
      <> design <> " service reachability.")
    ∷ ("# TYPE " <> prefix <> "_design_pass gauge")
    ∷ (prefix <> "_design_pass " <> one_if (node_audit_passes audit))
    ∷ ("# HELP " <> prefix <> "_outages_total Modeled transport-node failures causing " <> design
        <> " service outage.")
    ∷ ("# TYPE " <> prefix <> "_outages_total gauge")
    ∷ (prefix <> "_outages_total " <> decimal (node_count audit outage))
    ∷ ""
    ∷ []

unfoldable pub render_node_resilience_metrics : NodeResilienceAudit → String → Result String
render_node_resilience_metrics audit design = do
  raise_if (not (design == "baseline" || design == "candidate")) (unsupported_design design)
  let infix_text = if design == "candidate" then "_candidate" else ""
  ok (join "\n" (node_lines audit design ("telconet_n1_node" <> infix_text)))
