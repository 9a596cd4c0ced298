-- ===== src/Runtime/Accepted.antt =====
-- What the checks of the models make sure of.
use telconet_sentinel.Common.{
  ◌≤◌, true, List, map, Memᴰ, ◌≡◌, refl, sym, inl, inr, ap, subst, ◌∙◌, arith, length, all_distinct,
}
use telconet_sentinel.Errors.{Result, Result-cases, ok, map_result, map_result-target}
use telconet_sentinel.Runtime.{
  RuntimeFaultPlan, RuntimeN1Plan, RuntimeScenarioObservation, RuntimeN1Observation, plan_id,
  expected_node, observed_node, observed_id, validate_observation, validate_scenario_observation,
  validate_plan, validate_fault_plan,
}

unit_values : (u : Unit {0}) → u ≡ tt
unit_values tt = refl

-- Every item of a list passes a check that the list passes.
pub each-accepted {ℓ} :
    {A : Type ℓ} (check : A → Result (Unit {0})) (xs : List A) (out : List (Unit {0}))
    → map_result check xs ≡ ok out
    → (x : A) → Memᴰ x xs
    → check x ≡ ok tt
each-accepted check xs out h x m =
    let (u, _, made) = map_result-target check xs out x h m in made ∙ ap ok (unit_values u)

pub record AcceptedPlan (p : RuntimeN1Plan) : Type 0 where
  pub scenario_ids : all_distinct (map plan_id p.scenarios) ≡ true
  pub scenario_limit : length p.scenarios ≤ 64
  pub nodes :
      (s : RuntimeFaultPlan)
      → Memᴰ s p.scenarios
      → (all_distinct (map expected_node s.paths) ≡ true) × (length s.paths ≤ 16)

fault_plan-accepted :
    (s : RuntimeFaultPlan)
    → validate_fault_plan s ≡ ok tt
    → (all_distinct (map expected_node s.paths) ≡ true) × (length s.paths ≤ 16)
unfolding validate_fault_plan
fault_plan-accepted s h = ground arith

-- The part of a plan that its checks are about: all but the canonical service prefix.
pub same_scenarios :
    (raw p : RuntimeN1Plan) → validate_plan raw ≡ ok p → raw.scenarios ≡ p.scenarios
unfolding validate_plan
same_scenarios raw p h = ground arith

pub same_fingerprint :
    (raw p : RuntimeN1Plan) → validate_plan raw ≡ ok p → raw.topology_sha256 ≡ p.topology_sha256
unfolding validate_plan
same_fingerprint raw p h = ground arith

checked_scenarios :
    (raw p : RuntimeN1Plan)
    → validate_plan raw ≡ ok p
    → (all_distinct (map plan_id raw.scenarios) ≡ true)
      × (length raw.scenarios ≤ 64)
      × ((out : List (Unit {0})) × (map_result validate_fault_plan raw.scenarios ≡ ok out))
unfolding validate_plan
checked_scenarios raw p h = (
  ground arith,
  ground arith,
  elim (Result-cases (map_result validate_fault_plan raw.scenarios)) [
    | inl found ↦ found
    | inr (e, failed) ↦ absurd (ground arith)
  ],
)

accepted_raw : (raw p : RuntimeN1Plan) → validate_plan raw ≡ ok p → AcceptedPlan raw
accepted_raw raw p h =
    let (ids, limit, (out, each)) = checked_scenarios raw p h in
    record {
      scenario_ids = ids;
      scenario_limit = limit;
      nodes = λ s m.
          fault_plan-accepted s (each-accepted validate_fault_plan raw.scenarios out each s m);
    }

pub AcceptedPlan-validate_plan : (raw p : RuntimeN1Plan) → validate_plan raw ≡ ok p → AcceptedPlan p
AcceptedPlan-validate_plan raw p h =
    let same = same_scenarios raw p h in
    let a = accepted_raw raw p h in
    record {
      scenario_ids = subst (λ ss. all_distinct (map plan_id ss) ≡ true) same a.scenario_ids;
      scenario_limit = subst (λ (ss : List RuntimeFaultPlan). length ss ≤ 64) same a.scenario_limit;
      nodes = λ s m. a.nodes s (subst (Memᴰ s) (sym same) m);
    }

pub record AcceptedObservation (o : RuntimeN1Observation) : Type 0 where
  pub scenario_ids : all_distinct (map observed_id o.scenarios) ≡ true
  pub nodes :
      (s : RuntimeScenarioObservation)
      → Memᴰ s o.scenarios
      → all_distinct (map observed_node s.paths) ≡ true

scenario_observation-accepted :
    (s : RuntimeScenarioObservation)
    → validate_scenario_observation s ≡ ok tt
    → all_distinct (map observed_node s.paths) ≡ true
unfolding validate_scenario_observation
scenario_observation-accepted s h = ground arith

all_scenarios :
    (o : RuntimeN1Observation)
    → validate_observation o ≡ ok tt
    → (all_distinct (map observed_id o.scenarios) ≡ true)
      × ((out : List (Unit {0})) × (map_result validate_scenario_observation o.scenarios ≡ ok out))
unfolding validate_observation
all_scenarios o h = (
  ground arith,
  elim (Result-cases (map_result validate_scenario_observation o.scenarios)) [
    | inl found ↦ found
    | inr (e, failed) ↦ absurd (ground arith)
  ],
)

pub AcceptedObservation-validate_observation :
    (o : RuntimeN1Observation) → validate_observation o ≡ ok tt → AcceptedObservation o
AcceptedObservation-validate_observation o h =
    let (ids, (out, each)) = all_scenarios o h in
    record {
      scenario_ids = ids;
      nodes = λ s m.
          scenario_observation-accepted s
            (each-accepted validate_scenario_observation o.scenarios out each s m);
    }
