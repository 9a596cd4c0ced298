-- ===== src/Runtime/Commands/Baselines.antt =====
-- The baseline metrics that the settings of a plan collect.
use telconet_sentinel.Common.{
  ℕ, String, none, some, List, [], ◌∷◌, Memᴰ, ◌≡◌, refl, sym, subst₂, Bool-cases, ◌∙◌, inl, inr,
  arith, eq_iff, ◌==◌, Option-cases,
}
use telconet_sentinel.Common.Dict.{Dict, lookup, insert, lookup-insert}
use telconet_sentinel.Errors.{Result, ok}
use telconet_sentinel.Topology.{Topology}
use telconet_sentinel.Topology.Valid.{IsValid}
use telconet_sentinel.Topology.Distance.{shortest_distance}
use telconet_sentinel.Audit.{service_names}
use telconet_sentinel.Runtime.{RuntimePathExpectation, RuntimeFaultPlan, RuntimeN1Plan}
use telconet_sentinel.Runtime.Plan.{build_runtime_n1_plan}
use telconet_sentinel.Runtime.Plan.Faults.{plan-IsMeasured}
use telconet_sentinel.Runtime.Commands.{add_baseline, add_path_baselines, baseline_by_access}

-- The distance of a node to the services.
abbrev pub HasBaseline : Topology → String → ℕ → Type 0
HasBaseline t name d = shortest_distance t name (service_names t) none none ≡ ok (some d)

HasBaseline-unique :
    (t : Topology) (name : String) (c d : ℕ) → HasBaseline t name c → HasBaseline t name d → c ≡ d
HasBaseline-unique t name c d h k = let same : ok (some c) ≡ ok (some d) = sym h ∙ k in cc

module _ (t : Topology) where
  abbrev AllBaselines : Dict ℕ → Type 0
  AllBaselines d = (name : String) (cost : ℕ) → lookup name d ≡ some cost → HasBaseline t name cost

  abbrev Collected : (Dict ℕ → Result (Dict ℕ)) → Type 0
  Collected step =
      (d : Dict ℕ) → AllBaselines d → (d' : Dict ℕ) × (step d ≡ ok d') × AllBaselines d'

  add_baseline-Collected :
      (p : RuntimePathExpectation)
      → HasBaseline t p.access_node p.baseline_metric
      → Collected (λ d. add_baseline d p)
  unfolding add_baseline
  add_baseline-Collected p h d all = elim (Option-cases (lookup p.access_node d)) [
    | inl missing ↦ (
      insert p.access_node p.baseline_metric d,
      ground arith,
      λ name cost found. elim (Bool-cases (p.access_node == name)) [
        | inl here ↦
            let is_cost : p.baseline_metric ≡ cost =
              ground (arith, lookup-insert name p.access_node p.baseline_metric d) in
            subst₂ (HasBaseline t) ((eq_iff p.access_node name).0 here) is_cost h
        | inr there ↦
            all name cost (ground (arith, lookup-insert name p.access_node p.baseline_metric d))
      ],
    )
    | inr (previous, found) ↦
        let same =
          HasBaseline-unique t p.access_node previous p.baseline_metric
            (all p.access_node previous found) h in
        (d, ground arith, all)
  ]

  add_path_baselines-Collected :
      (ps : List RuntimePathExpectation)
      → ((p : RuntimePathExpectation) → Memᴰ p ps → HasBaseline t p.access_node p.baseline_metric)
      → Collected (λ d. add_path_baselines d ps)
  unfolding add_path_baselines
  add_path_baselines-Collected [] h d all = (d, refl, all)
  add_path_baselines-Collected (p ∷ ps) h d all =
      let (d', made, all') = add_baseline-Collected p (h p (Memᴰ.head refl)) d all in
      let (d'', made', all'') =
        add_path_baselines-Collected ps (λ q m. h q (Memᴰ.tail m)) d' all' in
      (d'', rw made made', all'')

  baseline_by_access-Collected :
      (ss : List RuntimeFaultPlan)
      → ((s : RuntimeFaultPlan)
          → Memᴰ s ss
          → (p : RuntimePathExpectation) → Memᴰ p s.paths
          → HasBaseline t p.access_node p.baseline_metric)
      → Collected (λ d. baseline_by_access d ss)
  unfolding baseline_by_access
  baseline_by_access-Collected [] h d all = (d, refl, all)
  baseline_by_access-Collected (s ∷ ss) h d all =
      let (d', made, all') = add_path_baselines-Collected s.paths (h s (Memᴰ.head refl)) d all in
      let (d'', made', all'') =
        baseline_by_access-Collected ss (λ r m. h r (Memᴰ.tail m)) d' all' in
      (d'', rw made made', all'')

-- For a plan that is built for a valid topology the settings find no inconsistent baseline, and
-- every baseline that they collect is the distance of its node to the services.
pub baseline_by_access-ok :
    (topology_fingerprint : Topology → String) (t : Topology) (lab_links : List (Dict String))
    (lab_sha256 : String) (plan : RuntimeN1Plan)
    → IsValid t
    → build_runtime_n1_plan topology_fingerprint t lab_links lab_sha256 ≡ ok plan
    → (baselines : Dict ℕ) × (baseline_by_access [] plan.scenarios ≡ ok baselines)
      × ((name : String) (cost : ℕ) → lookup name baselines ≡ some cost → HasBaseline t name cost)
unfolding lookup
baseline_by_access-ok topology_fingerprint t lab_links lab_sha256 plan valid built =
    baseline_by_access-Collected t plan.scenarios
      (λ s m p n.
        let (f, _, _, _, measured) =
          plan-IsMeasured topology_fingerprint t lab_links lab_sha256 plan valid built s m in
        (measured p n).before)
      [] (λ name cost found. absurd (ground arith))
