-- ===== src/Resilience.antt =====
-- resilience.py: the N-1 audits of single links and of single transport nodes.
pub mod Links
pub mod Nodes
pub mod Metrics
use telconet_sentinel.Common.{
  ℕ, String, Bool, Option, none, some, List, [], ◌∷◌, nat_beq, length, count_if,
}
use telconet_sentinel.Errors.{Result, ok, ◌>>=◌, or_raise, map_result, stop_iteration}
use telconet_sentinel.Models.{NodeRole, ServiceImpact, outage}
use telconet_sentinel.Topology.{Topology, node, link}
use telconet_sentinel.Fault.{link_failure_scenarios, transport_node_failure_scenarios}
use telconet_sentinel.Audit.{FaultScenarioResult, same_impact, audit_fault_scenarios}

pub record LinkFailureScenario : Type 0 where
  pub link_id : String
  pub endpoints : String × String
  pub service_impact : ServiceImpact
  pub affected_nodes : List String
  pub affected_prefixes : List String

pub record NodeFailureScenario : Type 0 where
  pub node_name : String
  pub role : NodeRole
  pub service_impact : ServiceImpact
  pub affected_nodes : List String
  pub affected_prefixes : List String

pub record ResilienceAudit : Type 0 where
  pub scenarios : List LinkFailureScenario

pub record NodeResilienceAudit : Type 0 where
  pub scenarios : List NodeFailureScenario

-- The properties and the count of the two classes.
unfoldable pub link_count : ResilienceAudit → ServiceImpact → ℕ
link_count a impact =
    count_if (λ (s : LinkFailureScenario). same_impact s.service_impact impact) a.scenarios

unfoldable pub link_audit_passes : ResilienceAudit → Bool
link_audit_passes a = nat_beq (link_count a outage) 0

abbrev pub total_link_scenarios : ResilienceAudit → ℕ
total_link_scenarios a = length a.scenarios

unfoldable pub node_count : NodeResilienceAudit → ServiceImpact → ℕ
node_count a impact =
    count_if (λ (s : NodeFailureScenario). same_impact s.service_impact impact) a.scenarios

unfoldable pub node_audit_passes : NodeResilienceAudit → Bool
node_audit_passes a = nat_beq (node_count a outage) 0

abbrev pub total_node_scenarios : NodeResilienceAudit → ℕ
total_node_scenarios a = length a.scenarios

-- `next(iter(names))`, for a set of one name
abbrev pub first_of : List String → Option String
first_of [] = none
first_of (x ∷ xs) = some x

unfoldable pub link_scenario : Topology → FaultScenarioResult → Result LinkFailureScenario
link_scenario t result = do
  link_id ← or_raise (first_of result.fault.excluded_links) stop_iteration
  l ← link t link_id
  ok (record {
    link_id = link_id;
    endpoints = (l.endpoint_a, l.endpoint_b);
    service_impact = result.service_impact;
    affected_nodes = result.affected_nodes;
    affected_prefixes = result.affected_prefixes;
  })

unfoldable pub audit_single_link_failures : Topology → Result ResilienceAudit
audit_single_link_failures t = do
  faults ← link_failure_scenarios t
  audit ← audit_fault_scenarios t faults
  scenarios ← map_result (link_scenario t) audit.scenarios
  ok (record { scenarios = scenarios })

unfoldable pub node_scenario : Topology → FaultScenarioResult → Result NodeFailureScenario
node_scenario t result = do
  node_name ← or_raise (first_of result.fault.excluded_nodes) stop_iteration
  n ← node t node_name
  ok (record {
    node_name = node_name;
    role = n.role;
    service_impact = result.service_impact;
    affected_nodes = result.affected_nodes;
    affected_prefixes = result.affected_prefixes;
  })

unfoldable pub audit_single_node_failures : Topology → Result NodeResilienceAudit
audit_single_node_failures t = do
  faults ← transport_node_failure_scenarios t
  audit ← audit_fault_scenarios t faults
  scenarios ← map_result (node_scenario t) audit.scenarios
  ok (record { scenarios = scenarios })
