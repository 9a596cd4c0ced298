-- ===== src/Audit/Classes.antt =====
-- The class of one scenario, and the costs that it rests on.
use mathlib.Core.List.Memᴰ
use telconet_sentinel.Common.{
  ℕ, String, true, none, some, List, [], ◌∷◌, Memᴰ, ◌≡◌, ap, sym, ◌∙◌, inl, inr, subst, arith,
  if◌then◌else◌, any, contains, Bool-cases, Option-cases, eq_iff, Memᴰ-keep_if, keep_if, sort,
  name_leb, ◌==◌,
}
use telconet_sentinel.Common.Dict.{Dict, lookup, insert, keys, lookup-insert, contains-keys}
use telconet_sentinel.Errors.{ok, or_raise, >>=-eq-ok, or_raise-eq-ok, no_baseline_path}
use telconet_sentinel.Models.{Node, ServiceImpact, outage, degraded, redundancy_reduced}
use telconet_sentinel.Topology.{Topology, nodes, fetch_all}
use telconet_sentinel.Topology.Valid.{IsValid}
use telconet_sentinel.Topology.Distance.{check_links, check_nodes, shortest_distance}
use telconet_sentinel.Topology.Distance.Checks.{AreKnown, checks-AreKnown}
use telconet_sentinel.Fault.{FaultScenario}
use telconet_sentinel.Audit.{
  AccessPathResult, FaultScenarioResult, Tally, tally_all, classify, same_impact, audit_fault,
  prefixes_of, add_baselines, access_names, is_access, union,
}
use telconet_sentinel.Audit.Paths.{
  excluded, lost, worse, access_of, IsPath, IsTally, tally_all-IsTally, no_tally, no_tally-IsTally,
}

-- The class that the recorded paths stand for: the worst of them decides.
unfoldable pub impact_of : List AccessPathResult → ServiceImpact
impact_of paths =
    if any lost paths then outage else if any worse paths then degraded else redundancy_reduced

pub outage_of-paths :
    (paths : List AccessPathResult) → same_impact (impact_of paths) outage ≡ any lost paths
unfolding impact_of
outage_of-paths paths = ground arith

module _ (t : Topology) (services : List String) (baselines : Dict ℕ) (fault : FaultScenario) where
  classify-eq-impact_of :
      (names : List String) (tally : Tally)
      → IsTally t services baselines fault names tally
      → classify tally ≡ impact_of tally.paths
  unfolding classify impact_of
  classify-eq-impact_of names tally h = rw (h.unavailable, h.degraded_nodes)

  -- A scenario's result: the names of the fault are known, the paths are those of the access nodes,
  -- and the class is theirs.
  pub record IsResult (names : List String) (r : FaultScenarioResult) : Type 0 where
    pub same_fault : r.fault ≡ fault
    pub known : AreKnown t (excluded fault)
    pub accesses : access_of r.paths ≡ names
    pub paths : (p : AccessPathResult) → Memᴰ p r.paths → IsPath t services baselines fault p
    pub impact : r.service_impact ≡ impact_of r.paths

  pub audit_fault-IsResult :
      (names : List String) (r : FaultScenarioResult)
      → audit_fault t names services baselines fault ≡ ok r
      → IsResult names r
  unfolding audit_fault
  audit_fault-IsResult names r h =
      let (_, links_pass, h₁) = >>=-eq-ok (check_links t fault.excluded_links) _ h in
      let (_, nodes_pass, h₂) = >>=-eq-ok (check_nodes t fault.excluded_nodes) _ h₁ in
      let (tally, tallied, h₃) =
        >>=-eq-ok (tally_all t services baselines fault no_tally names) _ h₂ in
      let (prefixes, found, h₄) =
        >>=-eq-ok (prefixes_of t (sort name_leb (union tally.unavailable tally.degraded_nodes))) _
          h₃ in
      let is_tally =
        tally_all-IsTally t services baselines fault [] names no_tally tally
          (no_tally-IsTally t services baselines fault) tallied in
      let same_paths : tally.paths ≡ r.paths = cc in
      record {
        same_fault = cc;
        known = checks-AreKnown t (excluded fault) links_pass nodes_pass;
        accesses = rw (← same_paths) is_tally.accesses;
        paths = λ p m. is_tally.paths p (subst (Memᴰ p) (sym same_paths) m);
        impact = cc (classify-eq-impact_of names tally is_tally);
      }

-- A baseline cost is the distance in the whole topology.
pub AreBaselines : Topology → List String → Dict ℕ → Type 0
AreBaselines t services costs =
    (name : String) (cost : ℕ)
    → lookup name costs ≡ some cost
    → shortest_distance t name services none none ≡ ok (some cost)

pub no_costs-AreBaselines : (t : Topology) (services : List String) → AreBaselines t services []
unfolding AreBaselines lookup
no_costs-AreBaselines t services name cost h = cc

pub baseline_distance :
    (t : Topology) (services : List String) (costs : Dict ℕ)
    → AreBaselines t services costs
    → (name : String) (cost : ℕ) → lookup name costs ≡ some cost
    → shortest_distance t name services none none ≡ ok (some cost)
unfolding AreBaselines
baseline_distance t services costs h = h

pub add_baselines-AreBaselines :
    (t : Topology) (services : List String) (costs : Dict ℕ) (rest : List String) (costs' : Dict ℕ)
    → AreBaselines t services costs
    → add_baselines t services costs rest ≡ ok costs'
    → AreBaselines t services costs'
unfolding add_baselines AreBaselines
add_baselines-AreBaselines t services costs [] costs' h e =
    let same : costs ≡ costs' = cc in rw (← same) h
add_baselines-AreBaselines t services costs (name ∷ rest) costs' h e =
    let (distance, measured, e₁) = >>=-eq-ok (shortest_distance t name services none none) _ e in
    let (cost, found, e₂) = >>=-eq-ok (or_raise distance (no_baseline_path name)) _ e₁ in
    let there = or_raise-eq-ok distance (no_baseline_path name) cost found in
    add_baselines-AreBaselines t services (insert name cost costs) rest costs'
      (λ other c p. elim (Bool-cases (name == other)) [
        | inl same ↦
            let is_name : name ≡ other = (eq_iff name other).0 same in
            let is_cost : cost ≡ c = ground (arith, lookup-insert other name cost costs) in
            rw (← is_name, ← is_cost) (measured ∙ ap ok there)
        | inr differs ↦ h other c (ground (arith, lookup-insert other name cost costs))
      ])
      e₂

-- The nodes of a topology are known by their names.
fetch_all-lookup {ℓ} :
    {V : Type ℓ} (d : Dict V) (ks : List String) (v : V)
    → Memᴰ v (fetch_all d ks)
    → (k : String) × (lookup k d ≡ some v)
unfolding fetch_all
fetch_all-lookup d [] v m = absurd (Memᴰ.not-nil m)
fetch_all-lookup d (k ∷ ks) v m = elim (Option-cases (lookup k d)) [
  | inl missing ↦ fetch_all-lookup d ks v (rw (missing, fetch_all) at m)
  | inr (w, found) ↦ elim (Memᴰ.cases_cons (rw (found, fetch_all) at m)) [
    | inl same ↦ (k, found ∙ ap some (sym same))
    | inr later ↦ fetch_all-lookup d ks v later
  ]
]

pub access_names-known :
    (t : Topology)
    → IsValid t
    → (name : String) → Memᴰ name (access_names t)
    → contains name (keys t.nodes_by_name) ≡ true
unfolding access_names nodes
access_names-known t valid name m =
    let ns = nodes t in
    let (n, listed, named) =
      Memᴰ.of_map (λ (n : Node). n.name) (keep_if (λ n. is_access n.role) ns) m in
    let (k, found) =
      fetch_all-lookup t.nodes_by_name (sort name_leb (keys t.nodes_by_name)) n
        ((Memᴰ-keep_if (λ n. is_access n.role) n ns).0 listed).0 in
    ground (arith, contains-keys name t.nodes_by_name, valid.node_key k n found)
