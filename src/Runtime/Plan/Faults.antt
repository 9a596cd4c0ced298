-- ===== src/Runtime/Plan/Faults.antt =====
-- A plan against the faults of its topology.
use mathlib.Core.List.Memᴰ
use telconet_sentinel.Common.{
  String, not, List, [], ◌∷◌, ◌++◌, map, ltb, nat_beq, length, keep_if, any, Memᴰ, ◌≡◌, refl, sym,
  ap, subst, ◌∙◌,
}
use telconet_sentinel.Common.Dict.{Dict, values}
use telconet_sentinel.Errors.{
  ok, >>=-eq-ok, ok-injective, map_result, map_result-source, raise_if, access_limit, prefix_limit,
  scenario_limit, isolated_node,
}
use telconet_sentinel.Models.{Node}
use telconet_sentinel.Topology.{Topology, nodes, links}
use telconet_sentinel.Topology.Valid.{IsValid}
use telconet_sentinel.Fault.{
  FaultScenario, link_failure_scenarios, transport_node_failure_scenarios,
}
use telconet_sentinel.Audit.{
  AccessPathResult, FaultScenarioResult, FaultAuditResult, is_access, is_service, access_names,
  audit_fault_scenarios,
}
use telconet_sentinel.Audit.Paths.{access_of}
use telconet_sentinel.Audit.Report.{IsMeasured, audit-IsMeasured}
use telconet_sentinel.Runtime.{
  RuntimePathExpectation, RuntimeFaultPlan, RuntimeN1Plan, expected_node, validate_fault_plan,
}
use telconet_sentinel.Runtime.Accepted.{same_scenarios, same_fingerprint}
use telconet_sentinel.Runtime.Lab.{is_within}
use telconet_sentinel.Runtime.Plan.{
  all_prefixes, add_degrees, no_degrees, injections_of, path_expectation, plan_scenario, adjacency,
  single_prefix, build_runtime_n1_plan,
}

abbrev pub measured_path : RuntimePathExpectation → AccessPathResult
measured_path p = record {
  access_node = p.access_node;
  baseline_cost = p.baseline_metric;
  post_fault_cost = p.fault_metric;
}

expected_nodes :
    (ps : List AccessPathResult) → map expected_node (map path_expectation ps) ≡ access_of ps
expected_nodes [] = refl
expected_nodes (p ∷ ps) = ap (λ ns. p.access_node ∷ ns) (expected_nodes ps)

-- A fault is one of those that are generated for the links and the transport nodes.
abbrev pub IsSingleFault : Topology → FaultScenario → Type 0
IsSingleFault t f =
    (of_links : List FaultScenario) × (of_nodes : List FaultScenario) × (link_failure_scenarios t
      ≡ ok of_links)
    × (transport_node_failure_scenarios t ≡ ok of_nodes)
    × Memᴰ f (of_links ++ of_nodes)

module _ (topology_fingerprint : Topology → String) (t : Topology) (lab_links : List (Dict String))
    (lab_sha256 : String) (plan : RuntimeN1Plan) (valid : IsValid t)
    (built : build_runtime_n1_plan topology_fingerprint t lab_links lab_sha256 ≡ ok plan) where
  -- What a plan that is built was made of.
  record Made : Type 0 where
    pub of_links : List FaultScenario
    pub of_nodes : List FaultScenario
    pub links_generated : link_failure_scenarios t ≡ ok of_links
    pub nodes_generated : transport_node_failure_scenarios t ≡ ok of_nodes
    pub audit : FaultAuditResult
    pub audited : audit_fault_scenarios t (of_links ++ of_nodes) ≡ ok audit
    pub scenarios : map_result (plan_scenario t lab_links) audit.scenarios ≡ ok plan.scenarios
    pub fingerprint : plan.topology_sha256 ≡ topology_fingerprint t

  made : Made
  unfolding build_runtime_n1_plan
  made =
      let access_nodes = keep_if (λ (n : Node). is_access n.role) (nodes t) in
      let services = keep_if (λ (n : Node). is_service n.role) (nodes t) in
      let (_, _, h₁) =
        >>=-eq-ok (raise_if (not (is_within 16 (length access_nodes))) access_limit) _ built in
      let (_, _, h₂) =
        >>=-eq-ok (raise_if (ltb 128 (length (all_prefixes (nodes t)))) prefix_limit) _ h₁ in
      let (prefix, _, h₃) = >>=-eq-ok (single_prefix (all_prefixes services)) _ h₂ in
      let (of_links, links_generated, h₄) = >>=-eq-ok (link_failure_scenarios t) _ h₃ in
      let (of_nodes, nodes_generated, h₅) = >>=-eq-ok (transport_node_failure_scenarios t) _ h₄ in
      let (_, _, h₆) =
        >>=-eq-ok (raise_if (ltb 64 (length (of_links ++ of_nodes))) scenario_limit) _ h₅ in
      let (audit, audited, h₇) = >>=-eq-ok (audit_fault_scenarios t (of_links ++ of_nodes)) _ h₆ in
      let (degrees, _, h₈) = >>=-eq-ok (add_degrees (no_degrees [] (nodes t)) (links t)) _ h₇ in
      let (_, _, h₉) = >>=-eq-ok (raise_if (any (nat_beq 0) (values degrees)) isolated_node) _ h₈ in
      let (scenarios, planned, h₁₀) =
        >>=-eq-ok (map_result (plan_scenario t lab_links) audit.scenarios) _ h₉ in
      let (adjacencies, _, h₁₁) = >>=-eq-ok (map_result (adjacency degrees) (nodes t)) _ h₁₀ in
      let raw : RuntimeN1Plan = record {
        schema_version = 1;
        topology_sha256 = topology_fingerprint t;
        lab_sha256 = lab_sha256;
        service_prefix = prefix;
        baseline_adjacencies = adjacencies;
        scenarios = scenarios;
      } in
      record {
        of_links = of_links;
        of_nodes = of_nodes;
        links_generated = links_generated;
        nodes_generated = nodes_generated;
        audit = audit;
        audited = audited;
        scenarios = planned ∙ ap ok (same_scenarios raw plan h₁₁);
        fingerprint = sym (same_fingerprint raw plan h₁₁);
      }

  -- The values of a scenario that are those of the result it plans.
  plan_scenario-value :
      (r : FaultScenarioResult) (s : RuntimeFaultPlan)
      → plan_scenario t lab_links r ≡ ok s
      → (s.scenario_id ≡ r.fault.id) × (s.paths ≡ map path_expectation r.paths)
  unfolding plan_scenario
  plan_scenario-value r s h =
      let (found, _, h₁) = >>=-eq-ok (injections_of t lab_links r.fault) _ h in
      let (_, _, h₂) =
        >>=-eq-ok
          (validate_fault_plan (record {
            scenario_id = r.fault.id;
            kind = r.fault.kind;
            component_id = found.0;
            injections = found.1;
            paths = map path_expectation r.paths;
          }))
          _ h₁ in
      let same = ok-injective h₂ in
      (
        ap (λ (s : RuntimeFaultPlan). s.scenario_id) (sym same),
        ap (λ (s : RuntimeFaultPlan). s.paths) (sym same),
      )

  result_id : FaultScenarioResult → String
  result_id r = r.fault.id

  -- Every scenario of a plan that is built for a valid topology is that of a fault of a single link
  -- or of a single transport node. Its paths are those of the access nodes, and their metrics are
  -- the distances to the services before the fault and under it.
  pub plan-IsMeasured :
      (s : RuntimeFaultPlan)
      → Memᴰ s plan.scenarios
      → (f : FaultScenario) × (f.id ≡ s.scenario_id)
        × IsSingleFault t f
        × (map expected_node s.paths ≡ access_names t)
        × ((p : RuntimePathExpectation) → Memᴰ p s.paths → IsMeasured t f (measured_path p))
  plan-IsMeasured s m =
      let (r, listed, planned) =
        map_result-source (plan_scenario t lab_links) made.audit.scenarios plan.scenarios s
          made.scenarios m in
      let (same_id, same_paths) = plan_scenario-value r s planned in
      let (single, accesses, _, measured) =
        audit-IsMeasured t (made.of_links ++ made.of_nodes) made.audit valid made.audited r
          listed in
      (
        r.fault,
        sym same_id,
        (made.of_links, made.of_nodes, made.links_generated, made.nodes_generated, single),
        ap (map expected_node) same_paths ∙ expected_nodes r.paths ∙ accesses,
        λ p n.
            let (q, inside, same) =
              Memᴰ.of_map path_expectation r.paths (subst (Memᴰ p) same_paths n) in
            subst (λ p. IsMeasured t r.fault (measured_path p)) same (measured q inside),
      )
