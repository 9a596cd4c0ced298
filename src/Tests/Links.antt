-- ===== src/Tests/Links.antt =====
-- The N-1 audit of the sample network's links.
use telconet_sentinel.Common.{String, true, [], ◌∷◌, ◌≡◌, refl, ◌↔◌, Memᴰ}
use telconet_sentinel.Common.Dict.{lookup}
use telconet_sentinel.Errors.{ok, map_result}
use telconet_sentinel.Models.{Link, degraded, redundancy_reduced}
use telconet_sentinel.Topology.{link, links}
use telconet_sentinel.Audit.{access_names}
use telconet_sentinel.Resilience.{
  LinkFailureScenario, ResilienceAudit, link_audit_passes, link_scenario,
  audit_single_link_failures,
}
use telconet_sentinel.Resilience.Links.{link_audit_passes_iff, StillServed}
use telconet_sentinel.Tests.Sample.{network, network-IsValid, north, south, east, west}
use telconet_sentinel.Tests.Audits.{generated, audited}

abbrev longer : Link → LinkFailureScenario
longer l = record {
  link_id = l.id;
  endpoints = (l.endpoint_a, l.endpoint_b);
  service_impact = degraded;
  affected_nodes = "acc-1" ∷ [];
  affected_prefixes = "10.0.0.0/24" ∷ [];
}

abbrev unchanged : Link → LinkFailureScenario
unchanged l = record {
  link_id = l.id;
  endpoints = (l.endpoint_a, l.endpoint_b);
  service_impact = redundancy_reduced;
  affected_nodes = [];
  affected_prefixes = [];
}

abbrev resilience : ResilienceAudit
resilience = record {
  scenarios = longer north ∷ unchanged south ∷ longer east ∷ unchanged west ∷ [];
}

resilience_audited : audit_single_link_failures network ≡ ok resilience
unfolding audit_single_link_failures link_scenario map_result link lookup
resilience_audited = rw (generated, audited) refl

link_audit_passes_iff_example : (link_audit_passes resilience ≡ true) ↔ (
    (l : Link)
    → Memᴰ l (links network)
    → (name : String) → Memᴰ name (access_names network)
    → StillServed network l name)
link_audit_passes_iff_example =
    link_audit_passes_iff network resilience network-IsValid resilience_audited
