-- ===== src/Runtime.antt =====
-- runtime_resilience.py: the models of the plan, of the observation and of the published evidence,
-- each with the checks that its class makes of its arguments. The literals that name the source of
-- a document are left out. Of several failed checks the first is raised.
pub mod Accepted
pub mod Evidence
pub mod Published
pub mod Lab
pub mod Plan
pub mod Commands
use telconet_sentinel.Common.{
  ℕ, ◌+◌, ◌*◌, String, Bool, true, false, not, ◌||◌, ◌&&◌, Option, none, some, List, [], ◌∷◌, map,
  ltb, leb, nat_beq, length, is_empty, any, codes, all_distinct, is_digit, is_name_code, is_hex,
  is_identifier, matches_codes, all_codes, after, split_codes, text_before, number_of, ◌<>◌,
  if◌then◌else◌, ◌==◌,
}
use telconet_sentinel.Common.Dict.{is_some}
use telconet_sentinel.Errors.{
  Result, ok, err, ◌>>=◌, ◌>>◌, raise_if, map_result, invalid_field, duplicate_injection,
  duplicate_access_node, duplicate_scenario_id, duplicate_router, unsupported_version,
  not_ipv4_host, kind_mismatch, inconsistent_totals, not_eight_checks, conflicting_results,
  conflicting_passed_all,
}
use telconet_sentinel.Fault.{FaultKind, link, node, composite, is_composite}

-- `[a-z][a-z0-9-]{0,63}`
abbrev pub is_node_name : String → Bool
is_node_name = is_identifier is_name_code 63

-- What follows the prefix of a pattern, if the text has the prefix.
abbrev pub rest_matches : (List ℕ → Bool) → Option (List ℕ) → Bool
rest_matches p none = false
rest_matches p (some cs) = p cs

-- `eth[0-9]{1,2}`
unfoldable pub is_interface_name : String → Bool
is_interface_name s =
    rest_matches (λ cs. all_codes is_digit cs && leb 1 (length cs) && leb (length cs) 2)
      (after "eth" s)

-- `(?:link|node):[a-z][a-z0-9-]{0,127}`
unfoldable pub is_scenario_id : String → Bool
is_scenario_id s =
    rest_matches (matches_codes is_name_code 127) (after "link:" s)
    || rest_matches (matches_codes is_name_code 127) (after "node:" s)

abbrev pub kind_value : FaultKind → String
kind_value link = "link"
kind_value node = "node"
kind_value composite = "composite"

-- `Field(min_length=1, max_length=limit)`
abbrev pub check_size : ℕ → ℕ → String → Result (Unit {0})
check_size limit n name = raise_if (not (leb 1 n && leb n limit)) (invalid_field name)

-- `Field(pattern=...)`
abbrev pub check_field : Bool → String → Result (Unit {0})
check_field b name = raise_if (not b) (invalid_field name)

pub record InjectionInterface : Type 0 where
  pub node : String
  pub interface : String

unfoldable pub validate_injection : InjectionInterface → Result (Unit {0})
validate_injection i = do
  check_field (is_node_name i.node) "node"
  check_field (is_interface_name i.interface) "interface"

pub record RuntimePathExpectation : Type 0 where
  pub access_node : String
  pub baseline_metric : ℕ
  pub fault_metric : Option ℕ

abbrev pub expected_node : RuntimePathExpectation → String
expected_node p = p.access_node

pub record BaselineAdjacencyExpectation : Type 0 where
  pub router : String
  pub full_neighbors : ℕ

unfoldable pub validate_adjacency : BaselineAdjacencyExpectation → Result (Unit {0})
validate_adjacency a = do
  check_field (is_node_name a.router) "router"
  check_size 16 a.full_neighbors "full_neighbors"

pub record RuntimeFaultPlan : Type 0 where
  pub scenario_id : String
  pub kind : FaultKind
  pub component_id : String
  pub injections : List InjectionInterface
  pub paths : List RuntimePathExpectation

abbrev pub plan_id : RuntimeFaultPlan → String
plan_id s = s.scenario_id

-- `len(keys) == len(set(keys))`, for pairs of texts
unfoldable pub has_pair : String × String → List (String × String) → Bool
has_pair k [] = false
has_pair k (j ∷ js) = if (j.0 == k.0) && (j.1 == k.1) then true else has_pair k js

unfoldable pub distinct_pairs : List (String × String) → Bool
distinct_pairs [] = true
distinct_pairs (k ∷ ks) = not (has_pair k ks) && distinct_pairs ks

unfoldable pub validate_fault_plan : RuntimeFaultPlan → Result (Unit {0})
validate_fault_plan s = do
  check_field (is_scenario_id s.scenario_id) "scenario_id"
  check_field (not (is_composite s.kind)) "kind"
  check_field (is_identifier is_name_code 127 s.component_id) "component_id"
  check_size 16 (length s.injections) "injections"
  _ ← map_result validate_injection s.injections
  check_size 16 (length s.paths) "paths"
  _ ← map_result (λ p. check_field (is_node_name (expected_node p)) "access_node") s.paths
  raise_if
      (not (distinct_pairs (map (λ (i : InjectionInterface). (i.node, i.interface)) s.injections)))
      duplicate_injection
  raise_if (not (all_distinct (map expected_node s.paths))) duplicate_access_node

pub record RuntimeN1Plan : Type 0 where
  pub schema_version : ℕ
  pub topology_sha256 : String
  pub lab_sha256 : String
  pub service_prefix : String
  pub baseline_adjacencies : List BaselineAdjacencyExpectation
  pub scenarios : List RuntimeFaultPlan

unfoldable pub same_codes : List ℕ → List ℕ → Bool
same_codes [] [] = true
same_codes (c ∷ cs) (d ∷ ds) = nat_beq c d && same_codes cs ds
same_codes _ _ = false

-- One part of an IPv4 address: one to three digits, no leading zero, at most 255.
unfoldable pub is_octet : List ℕ → Bool
is_octet cs =
    all_codes is_digit cs
    && leb 1 (length cs)
    && leb (length cs) 3
    && (nat_beq (length cs) 1 || not (starts_with_zero cs))
    && leb (number_of 0 cs) 255
  where
    starts_with_zero : List ℕ → Bool
    starts_with_zero [] = false
    starts_with_zero (c ∷ cs) = nat_beq c b'0'

unfoldable pub is_address : List (List ℕ) → Bool
is_address (a ∷ b ∷ c ∷ d ∷ []) = is_octet a && is_octet b && is_octet c && is_octet d
is_address _ = false

-- The length 32 as digits, or as a mask.
unfoldable pub is_full_length : List ℕ → Bool
is_full_length cs =
    (all_codes is_digit cs && not (is_empty cs) && nat_beq (number_of 0 cs) 32)
    || same_codes cs (codes "255.255.255.255")

unfoldable pub is_host_network : List (List ℕ) → Bool
is_host_network (a ∷ []) = is_address (split_codes b'.' a)
is_host_network (a ∷ l ∷ []) = is_address (split_codes b'.' a) && is_full_length l
is_host_network _ = false

-- `validate_service_prefix`: the text of the network that `ip_network` reads, for a network of one
-- IPv4 address. The two errors of the source, for no network and for another network, are one here.
unfoldable pub validate_service_prefix : String → Result String
validate_service_prefix value = do
  raise_if (not (is_host_network (split_codes b'/' (codes value)))) not_ipv4_host
  ok (text_before b'/' value <> "/32")

-- The plan that is kept has the service prefix in canonical form.
unfoldable pub validate_plan : RuntimeN1Plan → Result RuntimeN1Plan
validate_plan p = do
  raise_if (not (nat_beq p.schema_version 1)) unsupported_version
  check_field (is_hex 64 p.topology_sha256) "topology_sha256"
  check_field (is_hex 64 p.lab_sha256) "lab_sha256"
  check_size 64 (length (codes p.service_prefix)) "service_prefix"
  service_prefix ← validate_service_prefix p.service_prefix
  check_size 64 (length p.baseline_adjacencies) "baseline_adjacencies"
  _ ← map_result validate_adjacency p.baseline_adjacencies
  check_size 64 (length p.scenarios) "scenarios"
  _ ← map_result validate_fault_plan p.scenarios
  raise_if (not (all_distinct (map plan_id p.scenarios))) duplicate_scenario_id
  raise_if
      (not (
        all_distinct (map (λ (a : BaselineAdjacencyExpectation). a.router) p.baseline_adjacencies)))
      duplicate_router
  ok (record p { service_prefix = service_prefix })

pub record RuntimePathObservation : Type 0 where
  pub access_node : String
  pub fault_metric : Option ℕ
  pub fault_reachable : Bool
  pub restored_metric : Option ℕ
  pub restored_reachable : Bool

abbrev pub observed_node : RuntimePathObservation → String
observed_node p = p.access_node

pub record RuntimeScenarioObservation : Type 0 where
  pub scenario_id : String
  pub paths : List RuntimePathObservation

abbrev pub observed_id : RuntimeScenarioObservation → String
observed_id s = s.scenario_id

unfoldable pub validate_scenario_observation : RuntimeScenarioObservation → Result (Unit {0})
validate_scenario_observation s = do
  check_field (is_scenario_id s.scenario_id) "scenario_id"
  check_size 16 (length s.paths) "paths"
  _ ← map_result (λ p. check_field (is_node_name (observed_node p)) "access_node") s.paths
  raise_if (not (all_distinct (map observed_node s.paths))) duplicate_access_node

pub record RuntimeN1Observation : Type 0 where
  pub schema_version : ℕ
  pub scenarios : List RuntimeScenarioObservation

unfoldable pub validate_observation : RuntimeN1Observation → Result (Unit {0})
validate_observation o = do
  raise_if (not (nat_beq o.schema_version 1)) unsupported_version
  check_size 64 (length o.scenarios) "scenarios"
  _ ← map_result validate_scenario_observation o.scenarios
  raise_if (not (all_distinct (map observed_id o.scenarios))) duplicate_scenario_id

pub record RuntimeN1PublishedScenario : Type 0 where
  pub scenario_id : String
  pub kind : FaultKind
  pub passed : Bool

abbrev pub published_id : RuntimeN1PublishedScenario → String
published_id s = s.scenario_id

unfoldable pub validate_published_scenario : RuntimeN1PublishedScenario → Result (Unit {0})
validate_published_scenario s = do
  check_field (is_scenario_id s.scenario_id) "scenario_id"
  check_field (not (is_composite s.kind)) "kind"
  raise_if (not (is_some (after (kind_value s.kind <> ":") s.scenario_id))) kind_mismatch

pub record RuntimeN1PublishedEvidence : Type 0 where
  pub schema_version : ℕ
  pub source_commit : String
  pub workflow_run_id : ℕ
  pub archive_sha256 : String
  pub source_evidence_sha256 : String
  pub plan_sha256 : String
  pub observation_sha256 : String
  pub topology_sha256 : String
  pub lab_sha256 : String
  pub runtime_configuration_sha256 : String
  pub passed_all : Bool
  pub total_checks : ℕ
  pub passed_checks : ℕ
  pub failed_checks : ℕ
  pub scenarios : List RuntimeN1PublishedScenario

-- `a != b`, for two Booleans
abbrev pub differ : Bool → Bool → Bool
differ true b = not b
differ false b = b

-- `all(scenario.passed for scenario in scenarios)`
unfoldable pub every_passed : List RuntimeN1PublishedScenario → Bool
every_passed [] = true
every_passed (s ∷ ss) = s.passed && every_passed ss

unfoldable pub validate_consistency : RuntimeN1PublishedEvidence → Result (Unit {0})
validate_consistency e = do
  raise_if (not (all_distinct (map published_id e.scenarios))) duplicate_scenario_id
  raise_if (not (nat_beq e.total_checks (e.passed_checks + e.failed_checks))) inconsistent_totals
  raise_if (not (nat_beq e.total_checks (length e.scenarios * 8))) not_eight_checks
  raise_if (differ (nat_beq e.failed_checks 0) (every_passed e.scenarios)) conflicting_results
  raise_if (differ e.passed_all (nat_beq e.failed_checks 0)) conflicting_passed_all

unfoldable pub validate_published : RuntimeN1PublishedEvidence → Result (Unit {0})
validate_published e = do
  raise_if (not (nat_beq e.schema_version 1)) unsupported_version
  check_field (is_hex 40 e.source_commit) "source_commit"
  check_field (leb 1 e.workflow_run_id) "workflow_run_id"
  check_field (is_hex 64 e.archive_sha256) "archive_sha256"
  check_field (is_hex 64 e.source_evidence_sha256) "source_evidence_sha256"
  check_field (is_hex 64 e.plan_sha256) "plan_sha256"
  check_field (is_hex 64 e.observation_sha256) "observation_sha256"
  check_field (is_hex 64 e.topology_sha256) "topology_sha256"
  check_field (is_hex 64 e.lab_sha256) "lab_sha256"
  check_field (is_hex 64 e.runtime_configuration_sha256) "runtime_configuration_sha256"
  check_size 1024 e.total_checks "total_checks"
  check_field (leb e.passed_checks 1024) "passed_checks"
  check_field (leb e.failed_checks 1024) "failed_checks"
  check_size 64 (length e.scenarios) "scenarios"
  _ ← map_result validate_published_scenario e.scenarios
  validate_consistency e
