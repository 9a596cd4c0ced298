-- ===== src/Resilience/Links.antt =====
-- What the N-1 audit of single links says of the network.
use telconet_sentinel.Common.{
  ℕ, ◌+◌, String, true, not, ◌&&◌, ◌||◌, some, List, [], ◌∷◌, Memᴰ, ◌≡◌, refl, sym, ap, subst, ◌∙◌,
  ◌↔◌, nat_beq, ltb, length, is_empty, count_if, contains, distinct, is_identifier, ◌<>◌,
}
use telconet_sentinel.Common.Dict.{values}
use telconet_sentinel.Errors.{
  ok, >>=-eq-ok, ok-injective, raise_if, or_raise, map_result, map_result-source, map_result-target,
  stop_iteration, invalid_scenario_id, no_component, not_one_link, not_one_node, not_composite,
}
use telconet_sentinel.Models.{Link, ServiceImpact, outage}
use telconet_sentinel.Topology.{Topology, links}
use telconet_sentinel.Topology as Topology
use telconet_sentinel.Topology.Valid.{IsValid}
use telconet_sentinel.Topology.Walk.{Excluded, Walk}
use telconet_sentinel.Topology.Path.Neighbors.{without}
use telconet_sentinel.Fault.{
  FaultScenario, is_scenario_code, is_link, is_node, is_composite, post_init, link_failure,
  link_failure_scenarios,
}
use telconet_sentinel.Fault as Fault
use telconet_sentinel.Audit.{
  FaultScenarioResult, FaultAuditResult, same_impact, count, passes_n_minus_one, access_names,
  service_names, audit_fault_scenarios,
}
use telconet_sentinel.Audit.Paths.{excluded}
use telconet_sentinel.Audit.Verdict.{Survives, passes_n_minus_one_iff}
use telconet_sentinel.Resilience.{
  LinkFailureScenario, ResilienceAudit, link_count, link_audit_passes, first_of, link_scenario,
  audit_single_link_failures,
}

-- A scenario that passes its checks excludes what it was given, each name once.
pub post_init-value :
    (s f : FaultScenario)
    → post_init s ≡ ok f
    → (f.excluded_links ≡ distinct s.excluded_links)
      × (f.excluded_nodes ≡ distinct s.excluded_nodes)
unfolding post_init
post_init-value s f h =
    let ls = distinct s.excluded_links in
    let ns = distinct s.excluded_nodes in
    let (_, _, h₁) =
      >>=-eq-ok (raise_if (not (is_identifier is_scenario_code 255 s.id)) invalid_scenario_id) _
        h in
    let (_, _, h₂) = >>=-eq-ok (raise_if (nat_beq (length ls + length ns) 0) no_component) _ h₁ in
    let (_, _, h₃) =
      >>=-eq-ok
        (raise_if (is_link s.kind && (not (nat_beq (length ls) 1) || not (is_empty ns)))
          not_one_link)
        _ h₂ in
    let (_, _, h₄) =
      >>=-eq-ok
        (raise_if (is_node s.kind && (not (nat_beq (length ns) 1) || not (is_empty ls)))
          not_one_node)
        _ h₃ in
    let (_, _, h₅) =
      >>=-eq-ok (raise_if (is_composite s.kind && ltb (length ls + length ns) 2) not_composite) _
        h₄ in
    let same = ok-injective h₅ in
    (
      sym (ap (λ (f : FaultScenario). f.excluded_links) same),
      sym (ap (λ (f : FaultScenario). f.excluded_nodes) same),
    )

link_failure-value :
    (l : Link) (f : FaultScenario)
    → link_failure l ≡ ok f
    → (f.excluded_links ≡ l.id ∷ []) × (f.excluded_nodes ≡ [])
unfolding link_failure distinct contains
link_failure-value l f h =
    post_init-value
      (record {
        id = "link:" <> l.id;
        kind = Fault.link;
        excluded_links = l.id ∷ [];
        excluded_nodes = [];
      })
      f h

-- The parts of an audit that returns.
audit-parts :
    (t : Topology) (r : ResilienceAudit)
    → audit_single_link_failures t ≡ ok r
    → (faults : List FaultScenario) × (a : FaultAuditResult) × (link_failure_scenarios t
        ≡ ok faults)
      × (audit_fault_scenarios t faults ≡ ok a)
      × (map_result (link_scenario t) a.scenarios ≡ ok r.scenarios)
unfolding audit_single_link_failures
audit-parts t r h =
    let (faults, generated, h₁) = >>=-eq-ok (link_failure_scenarios t) _ h in
    let (a, audited, h₂) = >>=-eq-ok (audit_fault_scenarios t faults) _ h₁ in
    let (scenarios, made, h₃) = >>=-eq-ok (map_result (link_scenario t) a.scenarios) _ h₂ in
    (
      faults,
      a,
      generated,
      audited,
      made ∙ ap (λ (r : ResilienceAudit). ok r.scenarios) (ok-injective h₃),
    )

link_scenario-impact :
    (t : Topology) (result : FaultScenarioResult) (s : LinkFailureScenario)
    → link_scenario t result ≡ ok s
    → s.service_impact ≡ result.service_impact
unfolding link_scenario
link_scenario-impact t result s h =
    let (link_id, _, h₁) =
      >>=-eq-ok (or_raise (first_of result.fault.excluded_links) stop_iteration) _ h in
    let (l, _, h₂) = >>=-eq-ok (Topology.link t link_id) _ h₁ in
    sym (ap (λ (s : LinkFailureScenario). s.service_impact) (ok-injective h₂))

same_counts :
    (t : Topology) (impact : ServiceImpact) (results : List FaultScenarioResult)
    (ss : List LinkFailureScenario)
    → map_result (link_scenario t) results ≡ ok ss
    → count_if (λ (s : LinkFailureScenario). same_impact s.service_impact impact) ss
      ≡ count_if (λ (s : FaultScenarioResult). same_impact s.service_impact impact) results
unfolding map_result count_if
same_counts t impact [] ss h = let nothing : [] ≡ ss = ok-injective h in rw (← nothing) refl
same_counts t impact (result ∷ results) ss h =
    let (s, made, h₁) = >>=-eq-ok (link_scenario t result) _ h in
    let (rest, made', h₂) = >>=-eq-ok (map_result (link_scenario t) results) _ h₁ in
    let split : s ∷ rest ≡ ss = ok-injective h₂ in
    rw (← split, link_scenario-impact t result s made, same_counts t impact results rest made') refl

abbrev with_names : List String → List String → Excluded
with_names ls ns = record { links = ls; nodes = ns }

abbrev Served : Topology → Excluded → String → Type 0
Served t x name =
    (service : String) × (d : ℕ) × (contains service (service_names t) ≡ true)
    × Walk (values t.links_by_id) x name service d

-- Without a link an access node still has a walk to a service node.
abbrev pub StillServed : Topology → Link → String → Type 0
StillServed t l name =
    (service : String) × (d : ℕ) × (contains service (service_names t) ≡ true)
    × Walk (values t.links_by_id) (without (some l.id)) name service d

fault-Survives :
    (t : Topology) (l : Link) (f : FaultScenario) (name : String)
    → link_failure l ≡ ok f
    → Survives t f name ↔ StillServed t l name
unfolding contains
fault-Survives t l f name made =
    let (same_links, same_nodes) = link_failure-value l f made in
    let same : excluded f ≡ without (some l.id) =
      ap (λ ns. with_names f.excluded_links ns) same_nodes
      ∙ ap (λ ls. with_names ls []) same_links in
    (
      λ survives. subst (λ x. Served t x name) same survives.1,
      λ served. (ap (contains name) same_nodes, subst (λ x. Served t x name) (sym same) served),
    )

module _ (t : Topology) (r : ResilienceAudit) (audited : audit_single_link_failures t ≡ ok r) where
  -- If the audit of single links returns, so does the fault audit of its scenarios, and for each
  -- impact the two count the same.
  pub link_count-audit :
      (faults : List FaultScenario) × (a : FaultAuditResult) × (link_failure_scenarios t
        ≡ ok faults)
      × (audit_fault_scenarios t faults ≡ ok a)
      × ((impact : ServiceImpact) → link_count r impact ≡ count a impact)
  unfolding link_count count
  link_count-audit =
      let (faults, a, generated, done, made) = audit-parts t r audited in
      (faults, a, generated, done, λ impact. same_counts t impact a.scenarios r.scenarios made)

module _ (t : Topology) (r : ResilienceAudit) (valid : IsValid t)
    (audited : audit_single_link_failures t ≡ ok r) where
  -- An audit of the single links of a valid topology that returns passes exactly if, whichever link
  -- is taken away, every access node still has a walk to a service node.
  pub link_audit_passes_iff : (link_audit_passes r ≡ true) ↔ (
      (l : Link)
      → Memᴰ l (links t)
      → (name : String) → Memᴰ name (access_names t)
      → StillServed t l name)
  unfolding link_audit_passes passes_n_minus_one link_failure_scenarios
  link_audit_passes_iff =
      let (faults, a, generated, done, same) = link_count-audit t r audited in
      let verdict = passes_n_minus_one_iff t faults a valid done in
      let same_verdict : link_audit_passes r ≡ passes_n_minus_one a =
        ap (λ n. nat_beq n 0) (same outage) in
      (
        λ passes l m name listed.
            let (f, n, made) = map_result-target link_failure (links t) faults l generated m in
            (fault-Survives t l f name made).0
              (verdict.0 (sym same_verdict ∙ passes) f n name listed),
        λ all.
            same_verdict
            ∙ verdict.1 (λ f n name listed.
              let (l, m, made) = map_result-source link_failure (links t) faults f generated n in
              (fault-Survives t l f name made).1 (all l m name listed)),
      )
