-- ===== src/Audit/Verdict.antt =====
-- What an audit that returns says of the network.
use mathlib.Core.List.Memᴰ
use telconet_sentinel.Common.{
  ℕ, String, Bool, true, false, not, Option, none, some, List, [], map, Memᴰ, ◌≡◌, refl, sym, inl,
  inr, ◌↔◌, subst, arith, is_empty, any, any-mem, any_of_mem, count_if-eq-zero, contains,
  Bool-cases, all_distinct,
}
use telconet_sentinel.Common.Dict.{Dict, keys, values}
use telconet_sentinel.Errors.{
  ok, >>=-eq-ok, raise_if, no_access_node, no_service_node, no_scenario, duplicate_scenario,
  map_result, map_result-source, map_result-target,
}
use telconet_sentinel.Models.{outage}
use telconet_sentinel.Topology.{Topology}
use telconet_sentinel.Topology.Valid.{IsValid}
use telconet_sentinel.Topology.Walk.{Walk, IsLeast}
use telconet_sentinel.Topology.Distance.Correct.{shortest_distance_excluding-IsLeast}
use telconet_sentinel.Fault.{FaultScenario}
use telconet_sentinel.Audit.{
  AccessPathResult, FaultScenarioResult, is_lost, FaultAuditResult, count, passes_n_minus_one,
  same_impact, access_names, service_names, audit_fault, add_baselines, audit_fault_scenarios,
}
use telconet_sentinel.Audit.Paths.{excluded, lost}
use telconet_sentinel.Audit.Classes.{
  outage_of-paths, IsResult, audit_fault-IsResult, AreBaselines, add_baselines-AreBaselines,
  access_names-known, no_costs-AreBaselines,
}

-- Under a fault an access node is still there and a walk leads from it to a service node.
abbrev pub Survives : Topology → FaultScenario → String → Type 0
Survives t fault name =
    (contains name fault.excluded_nodes ≡ false)
    × ((service : String) × (d : ℕ) × (contains service (service_names t) ≡ true)
        × Walk (values t.links_by_id) (excluded fault) name service d)

Survives-iff :
    (t : Topology) (fault : FaultScenario) (name : String) (d : Option ℕ)
    → (contains name fault.excluded_nodes ≡ true → d ≡ none)
    → (contains name fault.excluded_nodes ≡ false
        → IsLeast (values t.links_by_id) (excluded fault) name (service_names t) d)
    → (is_lost d ≡ false) ↔ Survives t fault name
Survives-iff t fault name none gone least = (
  λ h. absurd (ground arith),
  λ (inside, (s, k, served, walk)). absurd (least inside s k served walk),
)
Survives-iff t fault name (some d) gone least = (λ _. (inside, reached), λ _. refl)
  where
    inside : contains name fault.excluded_nodes ≡ false
    inside = ground (arith, gone)

    reached :
        (s : String) × (k : ℕ) × (contains s (service_names t) ≡ true)
        × Walk (values t.links_by_id) (excluded fault) name s k
    reached = let (s, served, walk, _) = least inside in (s, d, served, walk)

module _ (t : Topology) (scenarios : List FaultScenario) (a : FaultAuditResult) (valid : IsValid t)
    (audited : audit_fault_scenarios t scenarios ≡ ok a) where
  -- The steps of the audit, with the baseline costs that it used.
  pub record Audited : Type 0 where
    pub baselines : Dict ℕ
    pub are_baselines : AreBaselines t (service_names t) baselines
    pub results :
        map_result (audit_fault t (access_names t) (service_names t) baselines) scenarios
        ≡ ok a.scenarios

  pub steps : Audited
  unfolding audit_fault_scenarios
  steps =
      let ids = map (λ (s : FaultScenario). s.id) scenarios in
      let (_, _, h₁) = >>=-eq-ok (raise_if (is_empty (access_names t)) no_access_node) _ audited in
      let (_, _, h₂) = >>=-eq-ok (raise_if (is_empty (service_names t)) no_service_node) _ h₁ in
      let (_, _, h₃) = >>=-eq-ok (raise_if (is_empty scenarios) no_scenario) _ h₂ in
      let (_, _, h₄) = >>=-eq-ok (raise_if (not (all_distinct ids)) duplicate_scenario) _ h₃ in
      let (baselines, found, h₅) =
        >>=-eq-ok (add_baselines t (service_names t) [] (access_names t)) _ h₄ in
      let (results, made, h₆) =
        >>=-eq-ok
          (map_result (audit_fault t (access_names t) (service_names t) baselines) scenarios) _
          h₅ in
      record {
        baselines = baselines;
        are_baselines =
            add_baselines-AreBaselines t (service_names t) [] (access_names t) baselines
              (no_costs-AreBaselines t (service_names t)) found;
        results = cc;
      }

  abbrev used : Dict ℕ
  used = steps.baselines

  -- A path of the audit tells whether its node survives.
  path-Survives :
      (fault : FaultScenario) (names : List String) (r : FaultScenarioResult)
      → IsResult t (service_names t) used fault names r
      → (p : AccessPathResult) → Memᴰ p r.paths
      → contains p.access_node (keys t.nodes_by_name) ≡ true
      → (lost p ≡ false) ↔ Survives t fault p.access_node
  path-Survives fault names r h p m known_access =
      let (d, e, gone, least) =
        shortest_distance_excluding-IsLeast t p.access_node (service_names t) (excluded fault) valid
          known_access h.known in
      let same : d ≡ p.post_fault_cost = cc (h.paths p m).distance in
      subst (λ after. (is_lost after ≡ false) ↔ Survives t fault p.access_node) same
        (Survives-iff t fault p.access_node d gone least)

  outage_iff :
      (fault : FaultScenario) (r : FaultScenarioResult)
      → IsResult t (service_names t) used fault (access_names t) r
      → (same_impact r.service_impact outage ≡ false)
        ↔ ((name : String) → Memᴰ name (access_names t) → Survives t fault name)
  outage_iff fault r h = (
    λ safe name listed.
        let (p, m, named) =
          Memᴰ.of_map (λ (q : AccessPathResult). q.access_node) r.paths
            (subst (Memᴰ name) (sym h.accesses) listed) in
        subst (Survives t fault) named (
          (path-Survives fault (access_names t) r h p m
              (rw named (access_names-known t valid name listed))).0
            (ground (arith, any_of_mem lost r.paths p m, outage_of-paths r.paths, h.impact))),
    λ all. elim (Bool-cases (any lost r.paths)) [
      | inl some_lost ↦
          let (p, m, is_lost_p) = any-mem lost r.paths some_lost in
          let listed : Memᴰ p.access_node (access_names t) =
            subst (Memᴰ p.access_node) h.accesses
              (Memᴰ.map (λ (q : AccessPathResult). q.access_node) m) in
          let kept =
            (path-Survives fault (access_names t) r h p m
                (access_names-known t valid p.access_node listed)).1
              (all p.access_node listed) in
          absurd (ground arith)
      | inr none_lost ↦ ground (arith, outage_of-paths r.paths, h.impact)
    ],
  )

  abbrev is_outage : FaultScenarioResult → Bool
  is_outage r = same_impact r.service_impact outage

  -- An audit of a valid topology that returns passes N-1 exactly if under every fault scenario
  -- every access node is still there and has a walk to a service node.
  pub passes_n_minus_one_iff : (passes_n_minus_one a ≡ true) ↔ (
      (fault : FaultScenario)
      → Memᴰ fault scenarios
      → (name : String) → Memᴰ name (access_names t)
      → Survives t fault name)
  unfolding passes_n_minus_one count
  passes_n_minus_one_iff = (
    λ passes fault m.
        let (r, listed, made) =
          map_result-target (audit_fault t (access_names t) (service_names t) used) scenarios
            a.scenarios fault steps.results m in
        (outage_iff fault r
            (audit_fault-IsResult t (service_names t) used fault (access_names t) r made)).0
          (ground (
            arith,
            (count_if-eq-zero is_outage a.scenarios).0,
            any_of_mem is_outage a.scenarios r listed,
          )),
    λ all.
        (count_if-eq-zero is_outage a.scenarios).1 (elim (Bool-cases (any is_outage a.scenarios)) [
          | inl some_outage ↦
              let (r, m, is_out) = any-mem is_outage a.scenarios some_outage in
              let (fault, listed, made) =
                map_result-source (audit_fault t (access_names t) (service_names t) used) scenarios
                  a.scenarios r steps.results m in
              let safe =
                (outage_iff fault r
                    (audit_fault-IsResult t (service_names t) used fault (access_names t) r made)).1
                  (all fault listed) in
              absurd (ground arith)
          | inr no_outage ↦ no_outage
        ]),
  )
