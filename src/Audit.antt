-- ===== src/Audit.antt =====
-- audit.py: the impact of each fault scenario on the paths from the access nodes to the services.
pub mod Paths
pub mod Classes
pub mod Verdict
pub mod Report
pub mod Baselines
pub mod Totality
use telconet_sentinel.Common.{
  ℕ, zero, ◌+◌, String, Bool, true, false, not, ◌||◌, Option, none, some, List, [], ◌∷◌, ◌++◌, map,
  foldl, ltb, nat_beq, if◌then◌else◌, length, is_empty, keep_if, count_if, contains, add,
  all_distinct, sort, name_leb,
}
use telconet_sentinel.Common.Dict.{Dict, lookup, insert}
use telconet_sentinel.Errors.{
  Result, ok, err, ◌>>=◌, ◌>>◌, raise_if, or_raise, map_result, missing_key, no_access_node,
  no_service_node, no_scenario, duplicate_scenario, no_baseline_path,
}
use telconet_sentinel.Models.{
  Node, NodeRole, access, aggregation, core, service, ServiceImpact, degraded, outage,
  redundancy_reduced,
}
use telconet_sentinel.Topology.{Topology, nodes, node}
use telconet_sentinel.Topology.Distance.{
  check_links, check_nodes, shortest_distance, shortest_distance_excluding,
}
use telconet_sentinel.Fault.{FaultScenario}

pub record AccessPathResult : Type 0 where
  pub access_node : String
  pub baseline_cost : ℕ
  pub post_fault_cost : Option ℕ

pub record FaultScenarioResult : Type 0 where
  pub fault : FaultScenario
  pub service_impact : ServiceImpact
  pub affected_nodes : List String
  pub affected_prefixes : List String
  pub paths : List AccessPathResult

pub record FaultAuditResult : Type 0 where
  pub scenarios : List FaultScenarioResult

abbrev pub same_impact : ServiceImpact → ServiceImpact → Bool
same_impact degraded degraded = true
same_impact outage outage = true
same_impact redundancy_reduced redundancy_reduced = true
same_impact _ _ = false

abbrev pub total_scenarios : FaultAuditResult → ℕ
total_scenarios a = length a.scenarios

unfoldable pub count : FaultAuditResult → ServiceImpact → ℕ
count a impact = count_if (λ s. same_impact s.service_impact impact) a.scenarios

unfoldable pub passes_n_minus_one : FaultAuditResult → Bool
passes_n_minus_one a = nat_beq (count a outage) 0

abbrev pub is_access : NodeRole → Bool
is_access access = true
is_access _ = false

abbrev pub is_service : NodeRole → Bool
is_service service = true
is_service _ = false

abbrev pub names_of : List Node → List String
names_of = map (λ (n : Node). n.name)

unfoldable pub access_names : Topology → List String
access_names t = names_of (keep_if (λ n. is_access n.role) (nodes t))

unfoldable pub service_names : Topology → List String
service_names t = names_of (keep_if (λ n. is_service n.role) (nodes t))

-- The loop that fills `baseline_costs`.
unfoldable pub add_baselines : Topology → List String → Dict ℕ → List String → Result (Dict ℕ)
add_baselines t services costs [] = ok costs
add_baselines t services costs (access_node ∷ rest) = do
  distance ← shortest_distance t access_node services none none
  cost ← or_raise distance (no_baseline_path access_node)
  add_baselines t services (insert access_node cost costs) rest

-- The sets and the list that the loop over the access nodes fills.
pub record Tally : Type 0 where
  pub unavailable : List String
  pub degraded_nodes : List String
  pub paths : List AccessPathResult

abbrev pub is_worse : ℕ → Option ℕ → Bool
is_worse baseline none = false
is_worse baseline (some after) = ltb baseline after

abbrev pub is_lost : Option ℕ → Bool
is_lost none = true
is_lost (some after) = false

unfoldable pub tally_access : Tally → String → ℕ → Option ℕ → Tally
tally_access tally access_node baseline after = record {
  unavailable = if is_lost after then add access_node tally.unavailable else tally.unavailable;
  degraded_nodes =
      if is_worse baseline after
      then add access_node tally.degraded_nodes
      else tally.degraded_nodes;
  paths =
      tally.paths
      ++ record { access_node = access_node; baseline_cost = baseline; post_fault_cost = after }
        ∷ [];
}

unfoldable pub tally_all :
    Topology → List String → Dict ℕ → FaultScenario → Tally → List String → Result Tally
tally_all t services baselines fault tally [] = ok tally
tally_all t services baselines fault tally (access_node ∷ rest) = do
  after ←
      shortest_distance_excluding t access_node services
        (record { links = fault.excluded_links; nodes = fault.excluded_nodes })
  baseline ← or_raise (lookup access_node baselines) (missing_key access_node)
  tally_all t services baselines fault (tally_access tally access_node baseline after) rest

unfoldable pub classify : Tally → ServiceImpact
classify tally =
    if not (is_empty tally.unavailable)
    then outage
    else if not (is_empty tally.degraded_nodes)
    then degraded
    else redundancy_reduced

-- `unavailable | degraded`
abbrev pub union : List String → List String → List String
union xs ys = foldl (λ zs y. add y zs) xs ys

unfoldable pub prefixes_of : Topology → List String → Result (List String)
prefixes_of t [] = ok []
prefixes_of t (name ∷ rest) = do n ← node t name; more ← prefixes_of t rest; ok (n.prefixes ++ more)

-- The body of the loop over the scenarios.
unfoldable pub audit_fault :
    Topology → List String → List String → Dict ℕ → FaultScenario → Result FaultScenarioResult
audit_fault t access_nodes services baselines fault = do
  check_links t fault.excluded_links
  check_nodes t fault.excluded_nodes
  tally ←
      tally_all t services baselines fault
        (record { unavailable = []; degraded_nodes = []; paths = [] }) access_nodes
  let affected_nodes = sort name_leb (union tally.unavailable tally.degraded_nodes)
  prefixes ← prefixes_of t affected_nodes
  ok (record {
    fault = fault;
    service_impact = classify tally;
    affected_nodes = affected_nodes;
    affected_prefixes = sort name_leb prefixes;
    paths = tally.paths;
  })

unfoldable pub audit_fault_scenarios : Topology → List FaultScenario → Result FaultAuditResult
audit_fault_scenarios t scenarios = do
  let access_nodes = access_names t
  let services = service_names t
  raise_if (is_empty access_nodes) no_access_node
  raise_if (is_empty services) no_service_node
  raise_if (is_empty scenarios) no_scenario
  raise_if (not (all_distinct (map (λ (s : FaultScenario). s.id) scenarios))) duplicate_scenario
  baselines ← add_baselines t services [] access_nodes
  results ← map_result (audit_fault t access_nodes services baselines) scenarios
  ok (record { scenarios = results })
