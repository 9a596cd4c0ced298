-- ===== src/Runtime/Evidence/Totals.antt =====
-- What the counters of the evidence count, over the loop on the scenarios of a plan.
use mathlib.Core.List.Memᴰ
use telconet_sentinel.Common.{
  ℕ, ◌+◌, ◌*◌, ◌≤◌, true, not, some, List, [], ◌∷◌, map, foldl, Memᴰ, ◌≡◌, refl, sym, ap, subst,
  ◌∙◌, inl, inr, ◌↔◌, arith, length, count_if, same_names, all_distinct,
}
use telconet_sentinel.Common.Dict.{Dict, lookup, keys}
use telconet_sentinel.Common.Dict.Index.{index_by, index_by-map}
use telconet_sentinel.Errors.{
  ok, >>=-eq-ok, ok-injective, raise_if, or_raise, or_raise-eq-ok, missing_key, access_set_mismatch,
}
use telconet_sentinel.Runtime.{
  RuntimePathExpectation, RuntimeFaultPlan, RuntimeScenarioObservation, expected_node,
  observed_node,
}
use telconet_sentinel.Runtime.Evidence.{
  RuntimeCheck, is_passed, scenario_checks, Progress, count_check, check_scenario, check_scenarios,
}
use telconet_sentinel.Runtime.Evidence.Checks.{
  IsMet, scenario_checks-Checked, both_full, some-injective,
}

count_checks :
    (p : Progress) (checks : List RuntimeCheck)
    → ((foldl count_check p checks).total ≡ p.total + length checks)
      × ((foldl count_check p checks).passed ≡ p.passed + count_if is_passed checks)
unfolding count_check count_if
count_checks p [] = (omega arith, omega arith)
count_checks p (c ∷ cs) =
    let (more, passed) = count_checks (count_check p c) cs in
    (omega (arith, more), omega (arith, passed))

-- No access node has two paths in the scenario.
abbrev pub HasDistinctPaths : RuntimeFaultPlan → Type 0
HasDistinctPaths s = all_distinct (map expected_node s.paths) ≡ true

-- Every path of the scenario was observed, and met what was expected.
abbrev pub AllMet : Dict RuntimeScenarioObservation → RuntimeFaultPlan → Type 0
AllMet observed_by_id s =
    (o : RuntimeScenarioObservation) × (lookup s.scenario_id observed_by_id ≡ some o)
    × ((p : RuntimePathExpectation) → Memᴰ p s.paths → IsMet (index_by observed_node o.paths) p)

-- The paths of some scenarios.
unfoldable pub path_count : List RuntimeFaultPlan → ℕ
path_count [] = 0
path_count (s ∷ ss) = length s.paths + path_count ss

-- From one state of the counters to another, by the checks of some paths.
pub record Counted (p q : Progress) (paths : ℕ) (Good : Type 0) : Type 0 where
  pub grown : q.total ≡ p.total + 4 * paths
  pub bounded : q.passed + p.total ≤ q.total + p.passed
  pub exact : (q.passed + p.total ≡ q.total + p.passed) ↔ Good

check_scenario-Counted :
    (observed_by_id : Dict RuntimeScenarioObservation) (p : Progress) (s : RuntimeFaultPlan)
    (q : Progress)
    → HasDistinctPaths s
    → check_scenario observed_by_id p s ≡ ok q
    → Counted p q (length s.paths) (AllMet observed_by_id s)
unfolding check_scenario
check_scenario-Counted observed_by_id p s q distinct h =
    let (o, found, h₁) =
      >>=-eq-ok (or_raise (lookup s.scenario_id observed_by_id) (missing_key s.scenario_id)) _ h in
    let observed_paths = index_by observed_node o.paths in
    let expected_paths = index_by expected_node s.paths in
    let (_, _, h₂) =
      >>=-eq-ok
        (raise_if (not (same_names (keys observed_paths) (keys expected_paths)))
          (access_set_mismatch s.scenario_id))
        _ h₁ in
    let (checks, made, h₃) = >>=-eq-ok (scenario_checks observed_paths expected_paths) _ h₂ in
    let there =
      or_raise-eq-ok (lookup s.scenario_id observed_by_id) (missing_key s.scenario_id) o found in
    let checked = scenario_checks-Checked observed_paths s.paths checks (
      ap (scenario_checks observed_paths) (sym (index_by-map expected_node s.paths distinct))
      ∙ made) in
    let (total, passed) = count_checks p checks in
    let same_total : (foldl count_check p checks).total ≡ q.total =
      ap (λ (r : Progress). r.total) (ok-injective h₃) in
    let same_passed : (foldl count_check p checks).passed ≡ q.passed =
      ap (λ (r : Progress). r.passed) (ok-injective h₃) in
    record {
      grown = omega (arith, total, same_total, checked.size);
      bounded = omega (arith, total, passed, same_total, same_passed, checked.bounded);
      exact = (
        λ full. (
          o,
          there,
          checked.exact.0 (omega (arith, full, total, passed, same_total, same_passed)),
        ),
        λ (o', there', each).
            let same : o' ≡ o = some-injective (sym there' ∙ there) in
            let full = checked.exact.1 (
              subst
                (λ (r : RuntimeScenarioObservation).
                  (p : RuntimePathExpectation)
                  → Memᴰ p s.paths
                  → IsMet (index_by observed_node r.paths) p)
                same each) in
            omega (arith, full, total, passed, same_total, same_passed),
      );
    }

pub check_scenarios-Counted :
    (observed_by_id : Dict RuntimeScenarioObservation) (p : Progress) (ss : List RuntimeFaultPlan)
    (q : Progress)
    → ((s : RuntimeFaultPlan) → Memᴰ s ss → HasDistinctPaths s)
    → check_scenarios observed_by_id p ss ≡ ok q
    → Counted p q (path_count ss) ((s : RuntimeFaultPlan) → Memᴰ s ss → AllMet observed_by_id s)
unfolding check_scenarios path_count
check_scenarios-Counted observed_by_id p [] q distinct h =
    let same_total : p.total ≡ q.total = ap (λ (r : Progress). r.total) (ok-injective h) in
    let same_passed : p.passed ≡ q.passed = ap (λ (r : Progress). r.passed) (ok-injective h) in
    record {
      grown = omega (arith, same_total);
      bounded = omega (arith, same_total, same_passed);
      exact = (λ _ s m. absurd (Memᴰ.not-nil m), λ _. omega (arith, same_total, same_passed));
    }
check_scenarios-Counted observed_by_id p (s ∷ ss) q distinct h =
    let (r, made, h₁) = >>=-eq-ok (check_scenario observed_by_id p s) _ h in
    let first = check_scenario-Counted observed_by_id p s r (distinct s (Memᴰ.head refl)) made in
    let rest =
      check_scenarios-Counted observed_by_id r ss q (λ s' m. distinct s' (Memᴰ.tail m)) h₁ in
    let full =
      both_full (r.passed + p.total) (q.passed + r.total) (r.total + p.passed) (q.total + r.passed)
        first.bounded rest.bounded in
    record {
      grown = omega (arith, first.grown, rest.grown);
      bounded = omega (arith, first.bounded, rest.bounded);
      exact = (
        λ all s' m.
            let (here, there) = full.0 (omega (arith, all)) in
            elim (Memᴰ.cases_cons m) [
              | inl same ↦ subst (AllMet observed_by_id) (sym same) (first.exact.0 here)
              | inr m' ↦ rest.exact.0 there s' m'
            ],
        λ each.
            let h = full.1 (
              first.exact.1 (each s (Memᴰ.head refl)),
              rest.exact.1 (λ s' m. each s' (Memᴰ.tail m)),
            ) in
            omega (arith, h),
      );
    }
