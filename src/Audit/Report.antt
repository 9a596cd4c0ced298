-- ===== src/Audit/Report.antt =====
-- The results of an audit, one by one, and its counts.
use mathlib.Core.List.Memᴰ
use telconet_sentinel.Common.{
  ℕ, ◌+◌, none, some, List, [], ◌∷◌, Memᴰ, ◌≡◌, refl, sym, subst, subst₂, arith, length, count_if,
}
use telconet_sentinel.Common.Dict.{Dict}
use telconet_sentinel.Errors.{ok, map_result-source}
use telconet_sentinel.Models.{outage, degraded, redundancy_reduced}
use telconet_sentinel.Topology.{Topology}
use telconet_sentinel.Topology.Valid.{IsValid}
use telconet_sentinel.Topology.Agreement.{IsNoNearer, shortest_distance-IsNoNearer}
use telconet_sentinel.Topology.Distance.{shortest_distance, shortest_distance_excluding}
use telconet_sentinel.Fault.{FaultScenario}
use telconet_sentinel.Audit.{
  AccessPathResult, FaultScenarioResult, FaultAuditResult, count, total_scenarios, same_impact,
  access_names, service_names, audit_fault, audit_fault_scenarios,
}
use telconet_sentinel.Audit.Paths.{excluded, access_of}
use telconet_sentinel.Audit.Classes.{
  impact_of, AreBaselines, IsResult, audit_fault-IsResult, access_names-known, baseline_distance,
}
use telconet_sentinel.Audit.Verdict.{steps}

-- A path with the two distances that it stands for.
pub record IsMeasured (t : Topology) (fault : FaultScenario) (p : AccessPathResult) : Type 0 where
  pub before :
      shortest_distance t p.access_node (service_names t) none none ≡ ok (some p.baseline_cost)
  pub after :
      shortest_distance_excluding t p.access_node (service_names t) (excluded fault)
      ≡ ok p.post_fault_cost
  pub no_nearer : IsNoNearer (some p.baseline_cost) p.post_fault_cost

path-IsMeasured :
    (t : Topology) (costs : Dict ℕ) (fault : FaultScenario) (r : FaultScenarioResult)
    → IsValid t
    → AreBaselines t (service_names t) costs
    → IsResult t (service_names t) costs fault (access_names t) r
    → (p : AccessPathResult) → Memᴰ p r.paths
    → IsMeasured t fault p
path-IsMeasured t costs fault r valid are_baselines h p m =
    let path = h.paths p m in
    let listed : Memᴰ p.access_node (access_names t) =
      subst (Memᴰ p.access_node) h.accesses
        (Memᴰ.map (λ (q : AccessPathResult). q.access_node) m) in
    let at_first =
      baseline_distance t (service_names t) costs are_baselines p.access_node p.baseline_cost
        path.baseline in
    let (b, d, e, f, nearer) =
      shortest_distance-IsNoNearer t p.access_node (service_names t) valid
        (access_names-known t valid p.access_node listed) (excluded fault) h.known in
    let same_before : b ≡ some p.baseline_cost = cc in
    let same_after : d ≡ p.post_fault_cost = cc path.distance in
    record {
      before = at_first;
      after = path.distance;
      no_nearer = subst₂ IsNoNearer same_before same_after nearer;
    }

module _ (t : Topology) (scenarios : List FaultScenario) (a : FaultAuditResult) (valid : IsValid t)
    (audited : audit_fault_scenarios t scenarios ≡ ok a) where
  -- Every result of an audit of a valid topology is that of one of the scenarios. It has one path
  -- for each access node, in order, whose costs are the distances before and under the fault, the
  -- second no nearer than the first, and its class is the one that its paths stand for.
  pub audit-IsMeasured :
      (r : FaultScenarioResult)
      → Memᴰ r a.scenarios
      → Memᴰ r.fault scenarios
        × (access_of r.paths ≡ access_names t)
        × (r.service_impact ≡ impact_of r.paths)
        × ((p : AccessPathResult) → Memᴰ p r.paths → IsMeasured t r.fault p)
  audit-IsMeasured r m =
      let done = steps t scenarios a valid audited in
      let (fault, listed, made) =
        map_result-source (audit_fault t (access_names t) (service_names t) done.baselines)
          scenarios a.scenarios r done.results m in
      let h =
        audit_fault-IsResult t (service_names t) done.baselines fault (access_names t) r made in
      (
        subst (λ f. Memᴰ f scenarios) (sym h.same_fault) listed,
        h.accesses,
        h.impact,
        λ p n.
            subst (λ f. IsMeasured t f p) (sym h.same_fault)
              (path-IsMeasured t done.baselines fault r valid done.are_baselines h p n),
      )

-- Every scenario is counted once, under one of the three impacts.
pub count-add :
    (a : FaultAuditResult)
    → count a degraded + count a outage + count a redundancy_reduced ≡ total_scenarios a
unfolding count count_if
count-add a = go a.scenarios
  where
    go :
        (rs : List FaultScenarioResult)
        → count_if (λ r. same_impact r.service_impact degraded) rs
            + count_if (λ r. same_impact r.service_impact outage) rs
            + count_if (λ r. same_impact r.service_impact redundancy_reduced) rs
          ≡ length rs
    go [] = refl
    go (r ∷ rs) = ground (arith, go rs)
