-- ===== src/Runtime/Evidence.antt =====
-- runtime_resilience.py: `build_runtime_n1_evidence`. The two digests of the documents come from
-- outside.
pub mod Checks
pub mod Totals
pub mod Passed
use telconet_sentinel.Common.{
  ℕ, suc, ◌+◌, ◌-◌, String, Bool, true, false, not, ◌&&◌, Option, none, some, List, [], ◌∷◌, ◌++◌,
  foldl, nat_beq, same_names, if◌then◌else◌,
}
use telconet_sentinel.Common.Dict.{Dict, lookup, keys, is_some}
use telconet_sentinel.Common.Dict.Index.{index_by}
use telconet_sentinel.Errors.{
  Result, ok, ◌>>=◌, ◌>>◌, raise_if, or_raise, missing_key, scenario_set_mismatch,
  access_set_mismatch,
}
use telconet_sentinel.Fault.{FaultKind}
use telconet_sentinel.Runtime.{
  RuntimePathExpectation, RuntimeFaultPlan, RuntimeN1Plan, RuntimePathObservation,
  RuntimeScenarioObservation, RuntimeN1Observation, expected_node, plan_id, observed_node,
  observed_id, differ,
}

-- What a check compares: two metrics, or two answers.
pub data CheckValue : Type 0 where
  metric : Option ℕ → CheckValue
  reachable : Bool → CheckValue

abbrev pub same_metric : Option ℕ → Option ℕ → Bool
same_metric none none = true
same_metric (some a) (some b) = nat_beq a b
same_metric _ _ = false

abbrev pub same_value : CheckValue → CheckValue → Bool
same_value (metric a) (metric b) = same_metric a b
same_value (reachable a) (reachable b) = not (differ a b)
same_value _ _ = false

pub record RuntimeCheck : Type 0 where
  pub check : String
  pub access_node : String
  pub expected : CheckValue
  pub actual : CheckValue
  pub passed : Bool

abbrev pub is_passed : RuntimeCheck → Bool
is_passed c = c.passed

unfoldable pub compare : String → String → CheckValue → CheckValue → RuntimeCheck
compare check access_node expected actual = record {
  check = check;
  access_node = access_node;
  expected = expected;
  actual = actual;
  passed = same_value expected actual;
}

-- The four comparisons of a path.
unfoldable pub path_checks :
    String → RuntimePathExpectation → RuntimePathObservation → List RuntimeCheck
path_checks access_node expected actual =
    compare "fault_route_metric" access_node (metric expected.fault_metric)
      (metric actual.fault_metric)
    ∷ compare "fault_reachability" access_node (reachable (is_some expected.fault_metric))
        (reachable actual.fault_reachable)
    ∷ compare "restored_route_metric" access_node (metric (some expected.baseline_metric))
        (metric actual.restored_metric)
    ∷ compare "restored_reachability" access_node (reachable true)
        (reachable actual.restored_reachable)
    ∷ []

unfoldable pub scenario_checks :
    Dict RuntimePathObservation → Dict RuntimePathExpectation → Result (List RuntimeCheck)
scenario_checks observed_paths [] = ok []
scenario_checks observed_paths ((access_node, expected) ∷ rest) = do
  actual ← or_raise (lookup access_node observed_paths) (missing_key access_node)
  checks ← scenario_checks observed_paths rest
  ok (path_checks access_node expected actual ++ checks)

pub record ScenarioEvidence : Type 0 where
  pub scenario_id : String
  pub kind : FaultKind
  pub component_id : String
  pub passed : Bool
  pub checks : List RuntimeCheck

-- `all(check["passed"] for check in checks)`
unfoldable pub all_passed : List RuntimeCheck → Bool
all_passed [] = true
all_passed (c ∷ cs) = is_passed c && all_passed cs

-- The counters and the list of the loop over the scenarios.
pub record Progress : Type 0 where
  pub total : ℕ
  pub passed : ℕ
  pub scenario_evidence : List ScenarioEvidence

unfoldable pub count_check : Progress → RuntimeCheck → Progress
count_check p c = record p {
  total = suc p.total;
  passed = p.passed + (if is_passed c then 1 else 0);
}

-- The body of the loop over the scenarios of the plan.
unfoldable pub check_scenario :
    Dict RuntimeScenarioObservation → Progress → RuntimeFaultPlan → Result Progress
check_scenario observed_by_id p scenario = do
  observed ←
      or_raise (lookup scenario.scenario_id observed_by_id) (missing_key scenario.scenario_id)
  let observed_paths = index_by observed_node observed.paths
  let expected_paths = index_by expected_node scenario.paths
  raise_if (not (same_names (keys observed_paths) (keys expected_paths)))
      (access_set_mismatch scenario.scenario_id)
  checks ← scenario_checks observed_paths expected_paths
  let counted = foldl count_check p checks
  ok (record counted {
    scenario_evidence =
        counted.scenario_evidence
        ++ record {
          scenario_id = scenario.scenario_id;
          kind = scenario.kind;
          component_id = scenario.component_id;
          passed = all_passed checks;
          checks = checks;
        }
          ∷ [];
  })

unfoldable pub check_scenarios :
    Dict RuntimeScenarioObservation → Progress → List RuntimeFaultPlan → Result Progress
check_scenarios observed_by_id p [] = ok p
check_scenarios observed_by_id p (scenario ∷ rest) = do
  next ← check_scenario observed_by_id p scenario
  check_scenarios observed_by_id next rest

pub record RuntimeN1Evidence : Type 0 where
  pub plan_sha256 : String
  pub observation_sha256 : String
  pub topology_sha256 : String
  pub lab_sha256 : String
  pub passed_all : Bool
  pub total : ℕ
  pub passed : ℕ
  pub failed : ℕ
  pub scenarios : List ScenarioEvidence

module _ (canonical_sha256 : RuntimeN1Plan → String)
    (observation_sha256 : RuntimeN1Observation → String) where
  unfoldable pub build_runtime_n1_evidence :
      RuntimeN1Plan → RuntimeN1Observation → Result RuntimeN1Evidence
  build_runtime_n1_evidence plan observation = do
    let observed_by_id = index_by observed_id observation.scenarios
    let expected_ids = keys (index_by plan_id plan.scenarios)
    raise_if (not (same_names (keys observed_by_id) expected_ids)) scenario_set_mismatch
    p ←
        check_scenarios observed_by_id (record { total = 0; passed = 0; scenario_evidence = [] })
          plan.scenarios
    ok (record {
      plan_sha256 = canonical_sha256 plan;
      observation_sha256 = observation_sha256 observation;
      topology_sha256 = plan.topology_sha256;
      lab_sha256 = plan.lab_sha256;
      passed_all = nat_beq p.passed p.total;
      total = p.total;
      passed = p.passed;
      failed = p.total - p.passed;
      scenarios = p.scenario_evidence;
    })
