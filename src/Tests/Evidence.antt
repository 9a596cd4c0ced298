-- ===== src/Tests/Evidence.antt =====
-- The evidence of a run of the triangle's plan, and the published form of one.
use telconet_sentinel.Common.{
  String, ℕ, some, [], ◌∷◌, Bool, true, false, contains, ◌≡◌, ◌≤◌, ◌+◌, ◌*◌, refl, ◌↔◌,
  all_distinct, subset, same_names, is_identifier, matches_codes, all_codes, after, after_codes,
  is_hex, split_codes, number_of, text_before,
}
use telconet_sentinel.Common.Dict.{lookup, insert}
use telconet_sentinel.Common.Dict.Index.{index_by, index_from}
use telconet_sentinel.Errors.{ok, map_result}
use telconet_sentinel.Fault.{FaultKind, link, node}
use telconet_sentinel.Runtime.{
  RuntimeN1Plan, RuntimeN1Observation, RuntimeScenarioObservation, validate_plan,
  validate_fault_plan, validate_injection, validate_adjacency, validate_service_prefix,
  validate_observation, validate_scenario_observation, is_interface_name, is_scenario_id, has_pair,
  distinct_pairs, same_codes, is_octet, is_address, is_full_length, is_host_network,
}
use telconet_sentinel.Runtime.Evidence.{
  RuntimeN1Evidence, ScenarioEvidence, build_runtime_n1_evidence, check_scenarios, check_scenario,
  count_check, all_passed, scenario_checks, path_checks, compare,
}
use telconet_sentinel.Runtime.Evidence.Totals.{path_count}
use telconet_sentinel.Runtime.Evidence.Passed.{total-IsBounded}
use telconet_sentinel.Tests.Plans.{plan, digest}

accepted : validate_plan plan ≡ ok plan
unfolding validate_plan validate_fault_plan validate_injection validate_adjacency
    validate_service_prefix is_interface_name is_scenario_id has_pair distinct_pairs same_codes
    is_octet is_address is_full_length is_host_network after after_codes is_hex split_codes
    number_of text_before is_identifier matches_codes all_codes all_distinct map_result contains
accepted = refl

abbrev seen : String → ℕ → RuntimeScenarioObservation
seen id metric = record {
  scenario_id = id;
  paths =
      record {
        access_node = "acc-1";
        fault_metric = some metric;
        fault_reachable = true;
        restored_metric = some 20;
        restored_reachable = true;
      }
      ∷ [];
}

abbrev observation : RuntimeN1Observation
observation = record {
  schema_version = 1;
  scenarios =
      seen "link:agg-svc" 50
      ∷ seen "link:acc-agg" 50
      ∷ seen "link:acc-svc" 30
      ∷ seen "node:agg-1" 50
      ∷ [];
}

observed : validate_observation observation ≡ ok tt
unfolding validate_observation validate_scenario_observation is_scenario_id after after_codes
    is_identifier matches_codes all_codes all_distinct map_result contains
observed = refl

-- The evidence of one scenario, whose path costs `expected` and was observed to cost `metric`.
abbrev judged : String → FaultKind → String → ℕ → ℕ → Bool → ScenarioEvidence
judged id kind component expected metric passed = record {
  scenario_id = id;
  kind = kind;
  component_id = component;
  passed = passed;
  checks =
      path_checks "acc-1"
        (record { access_node = "acc-1"; baseline_metric = 20; fault_metric = some expected })
        (record {
          access_node = "acc-1";
          fault_metric = some metric;
          fault_reachable = true;
          restored_metric = some 20;
          restored_reachable = true;
        });
}

abbrev evidence : RuntimeN1Evidence
evidence = record {
  plan_sha256 = digest;
  observation_sha256 = digest;
  topology_sha256 = digest;
  lab_sha256 = digest;
  passed_all = false;
  total = 16;
  passed = 15;
  failed = 1;
  scenarios =
      judged "link:acc-agg" link "acc-agg" 50 50 true
      ∷ judged "link:acc-svc" link "acc-svc" 20 30 false
      ∷ judged "link:agg-svc" link "agg-svc" 50 50 true
      ∷ judged "node:agg-1" node "agg-1" 50 50 true
      ∷ [];
}

abbrev plan_digest : RuntimeN1Plan → String
plan_digest p = digest

abbrev observation_digest : RuntimeN1Observation → String
observation_digest o = digest

evidence_built :
    build_runtime_n1_evidence plan_digest observation_digest plan observation ≡ ok evidence
unfolding build_runtime_n1_evidence check_scenarios check_scenario count_check all_passed
    scenario_checks path_checks compare index_by index_from lookup insert same_names subset contains
evidence_built = refl

total-IsBounded_example :
    (evidence.total ≡ 4 * path_count plan.scenarios)
    × (evidence.total ≤ 4096)
    × (evidence.passed + evidence.failed ≡ evidence.total)
    × ((evidence.passed_all ≡ true) ↔ (evidence.failed ≡ 0))
total-IsBounded_example =
    total-IsBounded plan_digest observation_digest plan plan observation evidence accepted observed
      evidence_built
