-- ===== src/Tests/Domains.antt =====
-- The audit of a conduit that carries both links of the triangle's cheap way.
use telconet_sentinel.Common.{
  String, [], ◌∷◌, some, true, contains, ◌≡◌, refl, Memᴰ, ◌↔◌, keep_if, add, insert_sorted, sort,
  distinct, all_distinct, is_hex, is_identifier, matches_codes, all_codes, codes_leb, name_leb,
}
use telconet_sentinel.Common.Dict.{lookup, insert}
use telconet_sentinel.Errors.{ok, map_result}
use telconet_sentinel.Models.{degraded}
use telconet_sentinel.Topology.{known, node, link, nodes, fetch_all}
use telconet_sentinel.Topology.Distance.{
  entry_leb, heappush, relax, offer, scan, settle, round, loop, check_links, check_nodes,
  known_targets, initial, shortest_distance_excluding, shortest_distance,
}
use telconet_sentinel.Fault.{post_init}
use telconet_sentinel.Audit.{
  access_names, service_names, add_baselines, tally_access, tally_all, classify, prefixes_of,
  audit_fault, audit_fault_scenarios,
}
use telconet_sentinel.FailureDomain.{
  FailureDomainIntent, FailureDomainCatalog, FailureDomainAudit, shared_conduit, check_components,
  validate_components, validate_domain_ids, validate_catalog, passes_all, domain_fault,
  domain_scenario, domain_scenarios, audit_failure_domains,
}
use telconet_sentinel.FailureDomain.Audited.{SurvivesDomain, passes_all_iff}
use telconet_sentinel.Tests.Plans.{triangle, triangle-IsValid, fingerprint, digest}

abbrev conduit : FailureDomainIntent
conduit = record { type = shared_conduit; links = "agg-svc" ∷ "acc-agg" ∷ []; nodes = [] }

abbrev catalog : FailureDomainCatalog
catalog = record {
  version = 1;
  design = "candidate";
  topology_sha256 = digest;
  failure_domains = ("conduit-1", conduit) ∷ [];
}

accepted : validate_catalog catalog ≡ ok tt
unfolding validate_catalog validate_components check_components validate_domain_ids is_hex
    is_identifier matches_codes all_codes all_distinct map_result contains
accepted = refl

abbrev audit : FailureDomainAudit
audit = record {
  design = "candidate";
  topology_sha256 = digest;
  scenarios =
      record {
        domain_id = "conduit-1";
        domain_type = shared_conduit;
        excluded_links = "acc-agg" ∷ "agg-svc" ∷ [];
        excluded_nodes = [];
        service_impact = degraded;
        affected_nodes = "acc-1" ∷ [];
        affected_prefixes = [];
        paths =
            record { access_node = "acc-1"; baseline_cost = 20; post_fault_cost = some 50 } ∷ [];
      }
      ∷ [];
}

audited : audit_failure_domains fingerprint triangle catalog ≡ ok audit
unfolding audit_failure_domains domain_fault domain_scenario domain_scenarios post_init distinct
    is_identifier matches_codes all_codes audit_fault_scenarios all_distinct audit_fault
    access_names service_names add_baselines tally_access tally_all classify prefixes_of map_result
    nodes fetch_all sort shortest_distance shortest_distance_excluding check_links check_nodes
    known_targets initial loop round settle scan offer relax heappush entry_leb name_leb codes_leb
    known node link contains lookup keep_if insert insert_sorted add
audited = refl

passes_all_iff_example : (passes_all audit ≡ true) ↔ (
    (item : String × FailureDomainIntent)
    → Memᴰ item catalog.failure_domains
    → (name : String) → Memᴰ name (access_names triangle)
    → SurvivesDomain triangle item.1 name)
passes_all_iff_example =
    passes_all_iff fingerprint triangle catalog audit triangle-IsValid accepted audited
