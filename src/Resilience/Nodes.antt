-- ===== src/Resilience/Nodes.antt =====
-- What the N-1 audit of single transport nodes says of the network.
use telconet_sentinel.Common.{
  false, ℕ, String, true, List, [], ◌∷◌, Memᴰ, ◌≡◌, refl, sym, ap, subst, ◌∙◌, ◌↔◌, nat_beq,
  is_empty, count_if, keep_if, Memᴰ-keep_if, contains, distinct, ◌<>◌,
}
use telconet_sentinel.Common.Dict.{values}
use telconet_sentinel.Errors.{
  ok, >>=-eq-ok, ok-injective, raise_if, or_raise, map_result, map_result-source, map_result-target,
  stop_iteration, no_transport_node,
}
use telconet_sentinel.Models.{Node, outage}
use telconet_sentinel.Topology.{Topology, nodes}
use telconet_sentinel.Topology as Topology
use telconet_sentinel.Topology.Valid.{IsValid}
use telconet_sentinel.Topology.Walk.{Excluded, Walk}
use telconet_sentinel.Fault.{
  FaultScenario, is_transport, node_failure, transport_node_failure_scenarios,
}
use telconet_sentinel.Fault as Fault
use telconet_sentinel.Audit.{
  FaultScenarioResult, FaultAuditResult, same_impact, count, passes_n_minus_one, access_names,
  service_names, audit_fault_scenarios,
}
use telconet_sentinel.Audit.Paths.{excluded}
use telconet_sentinel.Audit.Verdict.{Survives, passes_n_minus_one_iff}
use telconet_sentinel.Resilience.{
  NodeFailureScenario, NodeResilienceAudit, node_count, node_audit_passes, first_of, node_scenario,
  audit_single_node_failures,
}
use telconet_sentinel.Resilience.Links.{post_init-value}

abbrev with_names : List String → List String → Excluded
with_names ls ns = record { links = ls; nodes = ns }

-- Without a node the access node is still there and has a walk to a service node.
abbrev pub SurvivesNode : Topology → Node → String → Type 0
SurvivesNode t n name =
    (contains name (n.name ∷ []) ≡ false)
    × ((service : String) × (d : ℕ) × (contains service (service_names t) ≡ true)
        × Walk (values t.links_by_id) (with_names [] (n.name ∷ [])) name service d)

node_failure-value :
    (n : Node) (f : FaultScenario)
    → node_failure n ≡ ok f
    → (f.excluded_links ≡ []) × (f.excluded_nodes ≡ n.name ∷ [])
unfolding node_failure distinct contains
node_failure-value n f h =
    post_init-value
      (record {
        id = "node:" <> n.name;
        kind = Fault.node;
        excluded_links = [];
        excluded_nodes = n.name ∷ [];
      })
      f h

-- The access node is still there and has a walk to a service node without `x`.
abbrev Under : Topology → String → Excluded → Type 0
Under t name x =
    (contains name x.nodes ≡ false)
    × ((service : String) × (d : ℕ) × (contains service (service_names t) ≡ true)
        × Walk (values t.links_by_id) x name service d)

fault-SurvivesNode :
    (t : Topology) (n : Node) (f : FaultScenario) (name : String)
    → node_failure n ≡ ok f
    → Survives t f name ↔ SurvivesNode t n name
fault-SurvivesNode t n f name made =
    let (same_links, same_nodes) = node_failure-value n f made in
    let same : excluded f ≡ with_names [] (n.name ∷ []) =
      ap (λ ns. with_names f.excluded_links ns) same_nodes
      ∙ ap (λ ls. with_names ls (n.name ∷ [])) same_links in
    (
      λ survives. subst (Under t name) same survives,
      λ survives. subst (Under t name) (sym same) survives,
    )

node_audit-parts :
    (t : Topology) (r : NodeResilienceAudit)
    → audit_single_node_failures t ≡ ok r
    → (faults : List FaultScenario) × (a : FaultAuditResult) × (map_result node_failure
          (keep_if (λ (n : Node). is_transport n.role) (nodes t))
        ≡ ok faults)
      × (audit_fault_scenarios t faults ≡ ok a)
      × (map_result (node_scenario t) a.scenarios ≡ ok r.scenarios)
unfolding audit_single_node_failures transport_node_failure_scenarios
node_audit-parts t r h =
    let (faults, generated, h₁) = >>=-eq-ok (transport_node_failure_scenarios t) _ h in
    let (a, audited, h₂) = >>=-eq-ok (audit_fault_scenarios t faults) _ h₁ in
    let (scenarios, made, h₃) = >>=-eq-ok (map_result (node_scenario t) a.scenarios) _ h₂ in
    let transport = keep_if (λ (n : Node). is_transport n.role) (nodes t) in
    let (fs, each, g₁) = >>=-eq-ok (map_result node_failure transport) _ generated in
    let (_, _, g₂) = >>=-eq-ok (raise_if (is_empty fs) no_transport_node) _ g₁ in
    (
      faults,
      a,
      each ∙ g₂,
      audited,
      made ∙ ap (λ (r : NodeResilienceAudit). ok r.scenarios) (ok-injective h₃),
    )

node_scenario-impact :
    (t : Topology) (result : FaultScenarioResult) (s : NodeFailureScenario)
    → node_scenario t result ≡ ok s
    → s.service_impact ≡ result.service_impact
unfolding node_scenario
node_scenario-impact t result s h =
    let (name, _, h₁) =
      >>=-eq-ok (or_raise (first_of result.fault.excluded_nodes) stop_iteration) _ h in
    let (n, _, h₂) = >>=-eq-ok (Topology.node t name) _ h₁ in
    sym (ap (λ (s : NodeFailureScenario). s.service_impact) (ok-injective h₂))

same_outages :
    (t : Topology) (results : List FaultScenarioResult) (ss : List NodeFailureScenario)
    → map_result (node_scenario t) results ≡ ok ss
    → count_if (λ (s : NodeFailureScenario). same_impact s.service_impact outage) ss
      ≡ count_if (λ (s : FaultScenarioResult). same_impact s.service_impact outage) results
unfolding map_result count_if
same_outages t [] ss h = let nothing : [] ≡ ss = ok-injective h in rw (← nothing) refl
same_outages t (result ∷ results) ss h =
    let (s, made, h₁) = >>=-eq-ok (node_scenario t result) _ h in
    let (rest, made', h₂) = >>=-eq-ok (map_result (node_scenario t) results) _ h₁ in
    let split : s ∷ rest ≡ ss = ok-injective h₂ in
    rw (← split, node_scenario-impact t result s made, same_outages t results rest made') refl

-- An audit of the single nodes of a valid topology that returns passes exactly if, whichever
-- aggregation or core node is taken away, every access node is still there and has a walk to a
-- service node.
pub node_audit_passes_iff :
    (t : Topology) (r : NodeResilienceAudit)
    → IsValid t
    → audit_single_node_failures t ≡ ok r
    → (node_audit_passes r ≡ true) ↔ (
        (n : Node)
        → Memᴰ n (nodes t)
        → is_transport n.role ≡ true
        → (name : String) → Memᴰ name (access_names t)
        → SurvivesNode t n name)
unfolding node_audit_passes node_count passes_n_minus_one count
node_audit_passes_iff t r valid h =
    let (faults, a, generated, done, made) = node_audit-parts t r h in
    let transport = λ (n : Node). is_transport n.role in
    let verdict = passes_n_minus_one_iff t faults a valid done in
    let same : node_audit_passes r ≡ passes_n_minus_one a =
      ap (λ k. nat_beq k 0) (same_outages t a.scenarios r.scenarios made) in
    (
      λ passes n m role name listed.
          let kept = (Memᴰ-keep_if transport n (nodes t)).1 (m, role) in
          let (f, k, each) =
            map_result-target node_failure (keep_if transport (nodes t)) faults n generated kept in
          (fault-SurvivesNode t n f name each).0 (verdict.0 (sym same ∙ passes) f k name listed),
      λ all.
          same
          ∙ verdict.1 (λ f k name listed.
            let (n, m, each) =
              map_result-source node_failure (keep_if transport (nodes t)) faults f generated k in
            let (there, role) = (Memᴰ-keep_if transport n (nodes t)).0 m in
            (fault-SurvivesNode t n f name each).1 (all n there role name listed)),
    )
