-- ===== src/FailureDomain/Audited.antt =====
-- What the audit of a catalog says of the network.
use telconet_sentinel.Common.{
  ℕ, String, true, false, not, List, [], ◌∷◌, Memᴰ, ◌≡◌, refl, sym, ap, subst, ◌∙◌, inl, inr, ◌↔◌,
  arith, nat_beq, count_if, contains, distinct, contains-distinct, all_distinct, sort, Memᴰ-sort,
  ◌<>◌, ◌==◌,
}
use telconet_sentinel.Common.Dict.{values}
use telconet_sentinel.Errors.{
  Result, Result-cases, ok, >>=-eq-ok, ok-injective, raise_if, map_result, map_result-source,
  map_result-target, fingerprint_mismatch,
}
use telconet_sentinel.Models.{ServiceImpact, outage}
use telconet_sentinel.Topology.{Topology}
use telconet_sentinel.Topology.Valid.{IsValid}
use telconet_sentinel.Topology.Walk.{Walk}
use telconet_sentinel.Fault.{FaultScenario, composite}
use telconet_sentinel.Audit.{
  FaultScenarioResult, FaultAuditResult, same_impact, count, passes_n_minus_one, access_names,
  service_names, audit_fault_scenarios,
}
use telconet_sentinel.Audit.Verdict.{Survives, passes_n_minus_one_iff}
use telconet_sentinel.Resilience.Links.{post_init-value}
use telconet_sentinel.Runtime.Accepted.{each-accepted}
use telconet_sentinel.FailureDomain.{
  FailureDomainIntent, FailureDomainCatalog, FailureDomainScenarioResult, FailureDomainAudit,
  validate_components, validate_catalog, domain_count, passes_all, item_leb, domain_fault,
  domain_scenario, domain_scenarios, audit_failure_domains,
}

distinct-of_all_distinct : (xs : List String) → all_distinct xs ≡ true → distinct xs ≡ xs
unfolding distinct all_distinct
distinct-of_all_distinct [] h = refl
distinct-of_all_distinct (x ∷ xs) h =
    ground (arith, distinct-of_all_distinct xs, contains-distinct x xs)

-- Without the components of a domain an access node is still there and has a walk to a service node.
abbrev pub SurvivesDomain : Topology → FailureDomainIntent → String → Type 0
SurvivesDomain t d name =
    (contains name d.nodes ≡ false)
    × ((service : String) × (cost : ℕ) × (contains service (service_names t) ≡ true)
        × Walk (values t.links_by_id) (record { links = d.links; nodes = d.nodes }) name service
            cost)

abbrev fault_of : List String → List String → FaultScenario
fault_of ls ns = record { id = ""; kind = composite; excluded_links = ls; excluded_nodes = ns }

components-distinct :
    (d : FailureDomainIntent)
    → validate_components d ≡ ok tt
    → (all_distinct d.links ≡ true) × (all_distinct d.nodes ≡ true)
unfolding validate_components
components-distinct d h = (ground arith, ground arith)

catalog-domains :
    (c : FailureDomainCatalog)
    → validate_catalog c ≡ ok tt
    → (item : String × FailureDomainIntent) → Memᴰ item c.failure_domains
    → (all_distinct item.1.links ≡ true) × (all_distinct item.1.nodes ≡ true)
unfolding validate_catalog
catalog-domains c h item m =
    let check : String × FailureDomainIntent → Result (Unit {0}) =
      λ (d : String × FailureDomainIntent). validate_components d.1 in
    elim (Result-cases (map_result check c.failure_domains)) [
      | inl (out, each) ↦
          components-distinct item.1 (each-accepted check c.failure_domains out each item m)
      | inr (e, failed) ↦ absurd (ground arith)
    ]

domain_fault-value :
    (item : String × FailureDomainIntent) (f : FaultScenario)
    → all_distinct item.1.links ≡ true
    → all_distinct item.1.nodes ≡ true
    → domain_fault item ≡ ok f
    → (f.excluded_links ≡ item.1.links) × (f.excluded_nodes ≡ item.1.nodes)
unfolding domain_fault
domain_fault-value (domain_id, d) f links_once nodes_once h =
    let (of_links, of_nodes) =
      post_init-value
        (record {
          id = "srlg:" <> domain_id;
          kind = composite;
          excluded_links = d.links;
          excluded_nodes = d.nodes;
        })
        f h in
    (
      of_links ∙ distinct-of_all_distinct d.links links_once,
      of_nodes ∙ distinct-of_all_distinct d.nodes nodes_once,
    )

fault-SurvivesDomain :
    (t : Topology) (f : FaultScenario) (d : FailureDomainIntent) (name : String)
    → f.excluded_links ≡ d.links
    → f.excluded_nodes ≡ d.nodes
    → Survives t f name ↔ SurvivesDomain t d name
fault-SurvivesDomain t f d name same_links same_nodes =
    subst (λ ls. Survives t f name ↔ Survives t (fault_of ls d.nodes) name) same_links
      (subst (λ ns. Survives t f name ↔ Survives t (fault_of f.excluded_links ns) name) same_nodes
        (λ h. h, λ h. h))

same_counts :
    (impact : ServiceImpact) (ds : List (String × FailureDomainIntent))
    (rs : List FaultScenarioResult) (ss : List FailureDomainScenarioResult)
    → domain_scenarios ds rs ≡ ok ss
    → count_if (λ (s : FailureDomainScenarioResult). same_impact s.service_impact impact) ss
      ≡ count_if (λ (s : FaultScenarioResult). same_impact s.service_impact impact) rs
unfolding domain_scenarios domain_scenario count_if
same_counts impact [] [] ss h = let nothing : [] ≡ ss = ok-injective h in rw (← nothing) refl
same_counts impact [] (r ∷ rs) ss h = absurd (ground arith)
same_counts impact (d ∷ ds) [] ss h = absurd (ground arith)
same_counts impact (d ∷ ds) (r ∷ rs) ss h =
    let (rest, made, h₁) = >>=-eq-ok (domain_scenarios ds rs) _ h in
    let split : domain_scenario d r ∷ rest ≡ ss = ok-injective h₁ in
    rw (← split, same_counts impact ds rs rest made) refl

module _ (topology_fingerprint : Topology → String) (t : Topology) (c : FailureDomainCatalog)
    (a : FailureDomainAudit) (valid : IsValid t) (accepted : validate_catalog c ≡ ok tt)
    (audited : audit_failure_domains topology_fingerprint t c ≡ ok a) where
  -- The fault audit that the audit of the domains was made of.
  record Made : Type 0 where
    pub faults : List FaultScenario
    pub report : FaultAuditResult
    pub generated : map_result domain_fault (sort item_leb c.failure_domains) ≡ ok faults
    pub done : audit_fault_scenarios t faults ≡ ok report
    pub zipped :
        domain_scenarios (sort item_leb c.failure_domains) report.scenarios ≡ ok a.scenarios

  made : Made
  unfolding audit_failure_domains
  made =
      let domain_items = sort item_leb c.failure_domains in
      let (_, _, h₁) =
        >>=-eq-ok
          (raise_if (not (topology_fingerprint t == c.topology_sha256)) fingerprint_mismatch) _
          audited in
      let (faults, generated, h₂) = >>=-eq-ok (map_result domain_fault domain_items) _ h₁ in
      let (report, done, h₃) = >>=-eq-ok (audit_fault_scenarios t faults) _ h₂ in
      let (scenarios, zipped, h₄) =
        >>=-eq-ok (domain_scenarios domain_items report.scenarios) _ h₃ in
      record {
        faults = faults;
        report = report;
        generated = generated;
        done = done;
        zipped = zipped ∙ ap (λ (a : FailureDomainAudit). ok a.scenarios) (ok-injective h₄);
      }

  same_verdict : passes_all a ≡ passes_n_minus_one made.report
  unfolding passes_all passes_n_minus_one domain_count count
  same_verdict =
      ap (λ n. nat_beq n 0)
        (same_counts outage (sort item_leb c.failure_domains) made.report.scenarios a.scenarios
          made.zipped)

  -- The audit of an accepted catalog on a valid topology, if it returns, passes exactly if,
  -- whichever failure domain is taken away, every access node is still there and has a walk to a
  -- service node.
  pub passes_all_iff : (passes_all a ≡ true) ↔ (
      (item : String × FailureDomainIntent)
      → Memᴰ item c.failure_domains
      → (name : String) → Memᴰ name (access_names t)
      → SurvivesDomain t item.1 name)
  passes_all_iff =
      let domain_items = sort item_leb c.failure_domains in
      let verdict = passes_n_minus_one_iff t made.faults made.report valid made.done in
      (
        λ passes item m name listed.
            let (f, n, generated) =
              map_result-target domain_fault domain_items made.faults item made.generated
                ((Memᴰ-sort item_leb item c.failure_domains).1 m) in
            let (links_once, nodes_once) = catalog-domains c accepted item m in
            let (same_links, same_nodes) =
              domain_fault-value item f links_once nodes_once generated in
            (fault-SurvivesDomain t f item.1 name same_links same_nodes).0
              (verdict.0 (sym same_verdict ∙ passes) f n name listed),
        λ all.
            same_verdict
            ∙ verdict.1 (λ f n name listed.
              let (item, m, generated) =
                map_result-source domain_fault domain_items made.faults f made.generated n in
              let in_catalog = (Memᴰ-sort item_leb item c.failure_domains).0 m in
              let (links_once, nodes_once) = catalog-domains c accepted item in_catalog in
              let (same_links, same_nodes) =
                domain_fault-value item f links_once nodes_once generated in
              (fault-SurvivesDomain t f item.1 name same_links same_nodes).1
                (all item in_catalog name listed)),
      )
