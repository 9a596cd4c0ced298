-- ===== src/Runtime/Evidence/Passed.antt =====
-- When the evidence passes, and how large its counters are.
use telconet_sentinel.Common.{
  ◌+◌, ◌-◌, ◌*◌, ◌≤◌, String, true, not, List, [], ◌∷◌, Memᴰ, ◌≡◌, refl, sym, ap, ◌↔◌, arith,
  nat_beq, length, same_names,
}
use telconet_sentinel.Common.Dict.{Dict, keys}
use telconet_sentinel.Common.Dict.Index.{index_by}
use telconet_sentinel.Errors.{ok, >>=-eq-ok, ok-injective, raise_if, scenario_set_mismatch}
use telconet_sentinel.Runtime.{
  RuntimePathExpectation, RuntimeFaultPlan, RuntimeN1Plan, RuntimePathObservation,
  RuntimeScenarioObservation, RuntimeN1Observation, plan_id, observed_id, validate_observation,
  validate_plan,
}
use telconet_sentinel.Runtime.Accepted.{AcceptedPlan, AcceptedPlan-validate_plan}
use telconet_sentinel.Runtime.Evidence.{
  Progress, check_scenarios, RuntimeN1Evidence, build_runtime_n1_evidence,
}
use telconet_sentinel.Runtime.Evidence.Checks.{Met}
use telconet_sentinel.Runtime.Evidence.Totals.{AllMet, path_count, Counted, check_scenarios-Counted}

-- Every path of every scenario of the plan was observed as the plan expects it.
abbrev pub AsPlanned : RuntimeN1Plan → RuntimeN1Observation → Type 0
AsPlanned plan observation =
    (s : RuntimeFaultPlan)
    → Memᴰ s plan.scenarios
    → (o : RuntimeScenarioObservation) × Memᴰ o observation.scenarios
      × (o.scenario_id ≡ s.scenario_id)
      × ((p : RuntimePathExpectation)
          → Memᴰ p s.paths
          → (q : RuntimePathObservation) × Memᴰ q o.paths
            × (q.access_node ≡ p.access_node)
            × Met p q)

abbrev start : Progress
start = record { total = 0; passed = 0; scenario_evidence = [] }

path_count-le :
    (ss : List RuntimeFaultPlan)
    → ((s : RuntimeFaultPlan) → Memᴰ s ss → length s.paths ≤ 16)
    → path_count ss ≤ 16 * length ss
unfolding path_count
path_count-le [] few = omega arith
path_count-le (s ∷ ss) few =
    omega (arith, few s (Memᴰ.head refl), path_count-le ss (λ t m. few t (Memᴰ.tail m)))

module _ (plan_digest : RuntimeN1Plan → String)
    (observation_digest : RuntimeN1Observation → String) where
  -- The loop of a call that returns, and what the evidence takes from it.
  record Finished (plan : RuntimeN1Plan) (o : RuntimeN1Observation) (e : RuntimeN1Evidence)
      : Type 0 where
    pub last : Progress
    pub looped : check_scenarios (index_by observed_id o.scenarios) start plan.scenarios ≡ ok last
    pub total : e.total ≡ last.total
    pub passed : e.passed ≡ last.passed
    pub failed : e.failed ≡ last.total - last.passed
    pub passed_all : e.passed_all ≡ nat_beq last.passed last.total

  finished :
      (plan : RuntimeN1Plan) (o : RuntimeN1Observation) (e : RuntimeN1Evidence)
      → build_runtime_n1_evidence plan_digest observation_digest plan o ≡ ok e
      → Finished plan o e
  unfolding build_runtime_n1_evidence
  finished plan o e h =
      let by_id = index_by observed_id o.scenarios in
      let (_, _, h₁) =
        >>=-eq-ok
          (raise_if (not (same_names (keys by_id) (keys (index_by plan_id plan.scenarios))))
            scenario_set_mismatch)
          _ h in
      let (last, looped, h₂) = >>=-eq-ok (check_scenarios by_id start plan.scenarios) _ h₁ in
      let same = ok-injective h₂ in
      record {
        last = last;
        looped = looped;
        total = ap (λ (e : RuntimeN1Evidence). e.total) (sym same);
        passed = ap (λ (e : RuntimeN1Evidence). e.passed) (sym same);
        failed = ap (λ (e : RuntimeN1Evidence). e.failed) (sym same);
        passed_all = ap (λ (e : RuntimeN1Evidence). e.passed_all) (sym same);
      }

  module _ (raw plan : RuntimeN1Plan) (o : RuntimeN1Observation) (e : RuntimeN1Evidence)
      (accepted : validate_plan raw ≡ ok plan) (observed : validate_observation o ≡ ok tt)
      (built : build_runtime_n1_evidence plan_digest observation_digest plan o ≡ ok e) where
    abbrev by_id : Dict RuntimeScenarioObservation
    by_id = index_by observed_id o.scenarios

    run : Finished plan o e
    run = finished plan o e built

    valid_plan : AcceptedPlan plan
    valid_plan = AcceptedPlan-validate_plan raw plan accepted

    counted :
        Counted start run.last
          (path_count plan.scenarios)
          ((s : RuntimeFaultPlan) → Memᴰ s plan.scenarios → AllMet by_id s)
    counted =
        check_scenarios-Counted by_id start plan.scenarios run.last
          (λ s m. (valid_plan.nodes s m).0) run.looped

    passed_all-counted : (e.passed_all ≡ true) ↔ (run.last.passed ≡ run.last.total)
    passed_all-counted = ground (arith, run.passed_all)

    -- The evidence that is built for an accepted plan and an accepted observation has four checks
    -- for each path of the plan, at most 4096; each has passed or failed, and the evidence passes
    -- exactly if none has failed.
    pub total-IsBounded :
        (e.total ≡ 4 * path_count plan.scenarios)
        × (e.total ≤ 4096)
        × (e.passed + e.failed ≡ e.total)
        × ((e.passed_all ≡ true) ↔ (e.failed ≡ 0))
    total-IsBounded =
        let few = path_count-le plan.scenarios (λ s m. (valid_plan.nodes s m).1) in
        let grown = counted.grown in
        let bounded = counted.bounded in
        (
          omega (arith, grown, run.total),
          omega (arith, grown, run.total, few, valid_plan.scenario_limit),
          omega (arith, bounded, run.total, run.passed, run.failed),
          (
            λ passes. omega (arith, passed_all-counted.0 passes, run.failed),
            λ none_failed.
                passed_all-counted.1
                  (omega (arith, none_failed, run.failed, run.total, run.passed, bounded)),
          ),
        )
