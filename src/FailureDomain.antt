-- ===== src/FailureDomain.antt =====
-- failure_domain.py: the catalog of shared-risk failures with the checks of its classes, their audit,
-- its metrics and its evidence. The digest of a topology comes from outside; the names of the
-- evidence's fixed fields are left out.
pub mod Audited
use telconet_sentinel.Common.{
  ℕ, ◌+◌, String, Bool, true, false, not, ◌||◌, ◌&&◌, Option, none, some, List, [], ◌∷◌, ◌++◌, map,
  nat_beq, leb, ltb, length, count_if, all_distinct, is_identifier, is_name_code, is_hex, sort,
  name_leb, decimal, join, escape_label, ◌<>◌, ◌==◌, if◌then◌else◌,
}
use telconet_sentinel.Common.Dict.{Dict, keys}
use telconet_sentinel.Errors.{
  Result, ok, err, ◌>>=◌, ◌>>◌, raise_if, map_result, invalid_field, duplicate_component,
  too_few_components, invalid_component, invalid_domain_id, unsupported_version,
  fingerprint_mismatch, not_a_candidate,
}
use telconet_sentinel.Models.{ServiceImpact, degraded, outage, redundancy_reduced, impact_value}
use telconet_sentinel.Topology.{Topology}
use telconet_sentinel.Fault.{FaultScenario, composite, post_init}
use telconet_sentinel.Audit.{
  AccessPathResult, FaultScenarioResult, same_impact, audit_fault_scenarios,
}

pub data FailureDomainType : Type 0 where
  shared_conduit power_domain site : FailureDomainType

abbrev pub type_value : FailureDomainType → String
type_value shared_conduit = "shared_conduit"
type_value power_domain = "power_domain"
type_value site = "site"

pub record FailureDomainIntent : Type 0 where
  pub type : FailureDomainType
  pub links : List String
  pub nodes : List String

-- The loop over the components.
unfoldable pub check_components : List String → Result (Unit {0})
check_components [] = ok tt
check_components (component ∷ rest) = do
  raise_if (not (is_identifier is_name_code 127 component)) (invalid_component component)
  check_components rest

unfoldable pub validate_components : FailureDomainIntent → Result (Unit {0})
validate_components d = do
  raise_if (ltb 32 (length d.links)) (invalid_field "links")
  raise_if (ltb 32 (length d.nodes)) (invalid_field "nodes")
  raise_if (not (all_distinct d.links) || not (all_distinct d.nodes)) duplicate_component
  raise_if (ltb (length d.links + length d.nodes) 2) too_few_components
  check_components (d.links ++ d.nodes)

pub record FailureDomainCatalog : Type 0 where
  pub version : ℕ
  pub design : String
  pub topology_sha256 : String
  pub failure_domains : Dict FailureDomainIntent

unfoldable pub validate_domain_ids : List String → Result (Unit {0})
validate_domain_ids [] = ok tt
validate_domain_ids (domain_id ∷ rest) = do
  raise_if (not (is_identifier is_name_code 63 domain_id)) (invalid_domain_id domain_id)
  validate_domain_ids rest

unfoldable pub validate_catalog : FailureDomainCatalog → Result (Unit {0})
validate_catalog c = do
  raise_if (not (nat_beq c.version 1)) unsupported_version
  raise_if (not (is_identifier is_name_code 63 c.design)) (invalid_field "design")
  raise_if (not (is_hex 64 c.topology_sha256)) (invalid_field "topology_sha256")
  raise_if (not (leb 1 (length c.failure_domains) && leb (length c.failure_domains) 64))
      (invalid_field "failure_domains")
  _ ← map_result (λ (d : String × FailureDomainIntent). validate_components d.1) c.failure_domains
  validate_domain_ids (keys c.failure_domains)

pub record FailureDomainScenarioResult : Type 0 where
  pub domain_id : String
  pub domain_type : FailureDomainType
  pub excluded_links : List String
  pub excluded_nodes : List String
  pub service_impact : ServiceImpact
  pub affected_nodes : List String
  pub affected_prefixes : List String
  pub paths : List AccessPathResult

pub record FailureDomainAudit : Type 0 where
  pub design : String
  pub topology_sha256 : String
  pub scenarios : List FailureDomainScenarioResult

abbrev pub total_domains : FailureDomainAudit → ℕ
total_domains a = length a.scenarios

unfoldable pub domain_count : FailureDomainAudit → ServiceImpact → ℕ
domain_count a impact =
    count_if (λ (s : FailureDomainScenarioResult). same_impact s.service_impact impact) a.scenarios

unfoldable pub passes_all : FailureDomainAudit → Bool
passes_all a = nat_beq (domain_count a outage) 0

-- What the source reads of the design that a catalog names: whether it is a candidate, and the
-- fingerprint of the topology that its intent declares.
pub record DesignRecord : Type 0 where
  pub is_candidate : Bool
  pub declared_fingerprint : String

unfoldable pub validate_failure_domain_design :
    FailureDomainCatalog → Option DesignRecord → Result (Unit {0})
validate_failure_domain_design c none = err (not_a_candidate c.design)
validate_failure_domain_design c (some d) = do
  raise_if (not d.is_candidate) (not_a_candidate c.design)
  raise_if (not (d.declared_fingerprint == c.topology_sha256)) fingerprint_mismatch

-- The items in the order of their keys, of which no two are equal.
abbrev pub item_leb : String × FailureDomainIntent → String × FailureDomainIntent → Bool
item_leb a b = name_leb a.0 b.0

unfoldable pub domain_fault : String × FailureDomainIntent → Result FaultScenario
domain_fault (domain_id, domain) = post_init (record {
  id = "srlg:" <> domain_id;
  kind = composite;
  excluded_links = domain.links;
  excluded_nodes = domain.nodes;
})

unfoldable pub domain_scenario :
    String × FailureDomainIntent → FaultScenarioResult → FailureDomainScenarioResult
domain_scenario (domain_id, domain) result = record {
  domain_id = domain_id;
  domain_type = domain.type;
  excluded_links = sort name_leb domain.links;
  excluded_nodes = sort name_leb domain.nodes;
  service_impact = result.service_impact;
  affected_nodes = result.affected_nodes;
  affected_prefixes = result.affected_prefixes;
  paths = result.paths;
}

-- `zip(domain_items, audit.scenarios, strict=True)`
unfoldable pub domain_scenarios :
    List (String × FailureDomainIntent)
    → List FaultScenarioResult
    → Result (List FailureDomainScenarioResult)
domain_scenarios [] [] = ok []
domain_scenarios (d ∷ ds) (r ∷ rs) = do
  rest ← domain_scenarios ds rs
  ok (domain_scenario d r ∷ rest)
domain_scenarios _ _ = err (invalid_field "zip")

module _ (topology_fingerprint : Topology → String) where
  unfoldable pub audit_failure_domains : Topology → FailureDomainCatalog → Result FailureDomainAudit
  audit_failure_domains t c = do
    raise_if (not (topology_fingerprint t == c.topology_sha256)) fingerprint_mismatch
    let domain_items = sort item_leb c.failure_domains
    faults ← map_result domain_fault domain_items
    audit ← audit_fault_scenarios t faults
    scenarios ← domain_scenarios domain_items audit.scenarios
    ok (record { design = c.design; topology_sha256 = c.topology_sha256; scenarios = scenarios })

-- The metrics, line by line.
unfoldable pub count_line : FailureDomainAudit → ServiceImpact → String
count_line a impact =
    "telconet_srlg_scenarios_total{impact=\""
    <> impact_value impact
    <> "\"} "
    <> decimal (domain_count a impact)

unfoldable pub domain_line : FailureDomainScenarioResult → String
domain_line s =
    "telconet_srlg_impact{domain_id=\""
    <> escape_label s.domain_id
    <> "\",domain_type=\""
    <> type_value s.domain_type
    <> "\",impact=\""
    <> impact_value s.service_impact
    <> "\"} 1"

unfoldable pub render_failure_domain_metrics : FailureDomainAudit → String
render_failure_domain_metrics a =
    join "\n" (
      "# HELP telconet_srlg_design_pass Whether every declared shared-risk failure preserves service reachability."
      ∷ "# TYPE telconet_srlg_design_pass gauge"
      ∷ ("telconet_srlg_design_pass " <> (if passes_all a then "1" else "0"))
      ∷ "# HELP telconet_srlg_scenarios_total Declared shared-risk failures by impact."
      ∷ "# TYPE telconet_srlg_scenarios_total gauge"
      ∷ count_line a degraded
      ∷ count_line a outage
      ∷ count_line a redundancy_reduced
      ∷ "# HELP telconet_srlg_impact Impact classification for each declared shared-risk failure."
      ∷ "# TYPE telconet_srlg_impact gauge"
      ∷ map domain_line a.scenarios)
    <> "\n"

pub record FailureDomainSummary : Type 0 where
  pub total : ℕ
  pub outages : ℕ
  pub degradations : ℕ
  pub reductions : ℕ

pub record FailureDomainEvidence : Type 0 where
  pub design : String
  pub topology_sha256 : String
  pub passes : Bool
  pub summary : FailureDomainSummary
  pub scenarios : List FailureDomainScenarioResult

unfoldable pub build_failure_domain_evidence : FailureDomainAudit → FailureDomainEvidence
build_failure_domain_evidence a = record {
  design = a.design;
  topology_sha256 = a.topology_sha256;
  passes = passes_all a;
  summary = record {
    total = total_domains a;
    outages = domain_count a outage;
    degradations = domain_count a degraded;
    reductions = domain_count a redundancy_reduced;
  };
  scenarios = a.scenarios;
}
