-- ===== src/Runtime/Commands.antt =====
-- runtime_resilience.py: the hook of its JSON reader, what it extracts from the output of a router,
-- and the lines that its commands print.
pub mod Baselines
use telconet_sentinel.Common.{
  ℕ, zero, suc, ◌+◌, String, Bool, true, false, not, ◌&&◌, ◌||◌, Option, none, some, List, [], ◌∷◌,
  map, ◌==◌, nat_beq, leb, length, keep_if, codes, is_upper, lower_code, after_codes, decimal, join,
  ◌<>◌, same_names, text_before, if◌then◌else◌,
}
use telconet_sentinel.Common.Dict.{Dict, lookup, insert, keys, is_some}
use telconet_sentinel.Common.Dict.Index.{index_by}
use telconet_sentinel.Common.Int.{ℤ}
use telconet_sentinel.Common.Json.{
  Json, Items, Members, null, boolean, integer, float, constant, text, array, object, no_items,
  item, no_members, member, items, as_text, is_true, walk, members,
}
use telconet_sentinel.Errors.{
  Result, ok, err, ◌>>=◌, ◌>>◌, raise_if, or_raise, duplicate_json_key, json_constant,
  not_one_selected_route, entries_not_lists, not_runner_paths, unreachable_path,
  inconsistent_baseline, not_runner_baselines, missing_key,
}
use telconet_sentinel.Runtime.{
  InjectionInterface, RuntimePathExpectation, RuntimeFaultPlan, RuntimeN1Plan,
  BaselineAdjacencyExpectation, expected_node, kind_value,
}
use telconet_sentinel.Runtime.Lab.{mapping}

-- The hook that a JSON reader calls with the pairs of each object.
unfoldable pub unique_json_object : Dict Json → Dict Json → Result (Dict Json)
unique_json_object result [] = ok result
unique_json_object result ((key, value) ∷ pairs) = do
  raise_if (is_some (lookup key result)) (duplicate_json_key key)
  unique_json_object (insert key value result) pairs

-- The two hooks on everything that is read: the constants, and the pairs of each object.
unfoldable mutual
  pub check_json : Json → Result (Unit {0})
  check_json null = ok tt
  check_json (boolean b) = ok tt
  check_json (integer n) = ok tt
  check_json (float s) = ok tt
  check_json (constant s) = err (json_constant s)
  check_json (text s) = ok tt
  check_json (array xs) = check_items xs
  check_json (object xs) = check_members xs >> (unique_json_object [] (members xs) >>= λ _. ok tt)

  pub check_items : Items → Result (Unit {0})
  check_items no_items = ok tt
  check_items (item x xs) = check_json x >> check_items xs

  pub check_members : Members → Result (Unit {0})
  check_members no_members = ok tt
  check_members (member k x xs) = check_json x >> check_members xs

-- `values.get("metric")`, for an integer
abbrev pub metric_of : Option Json → Option ℤ
metric_of (some (integer n)) = some n
metric_of _ = none

abbrev pub is_text : String → Option Json → Bool
is_text s (some (text t)) = t == s
is_text s _ = false

unfoldable pub is_selected : Dict Json → Bool
is_selected values =
    is_text "ospf" (lookup "protocol" values)
    && is_true (lookup "selected" values)
    && is_true (lookup "installed" values)
    && is_some (metric_of (lookup "metric" values))

unfoldable pub only : List (Dict Json) → Result (Dict Json)
only (values ∷ []) = ok values
only _ = err not_one_selected_route

unfoldable pub extract_selected_route_metric : Json → Result ℤ
extract_selected_route_metric document = do
  check_json document
  selected ← only (keep_if is_selected (walk document))
  or_raise (metric_of (lookup "metric" selected)) (missing_key "metric")

-- `str(state).lower().startswith("full")`; only a text can start with these letters.
unfoldable pub is_full : Option Json → Bool
is_full (some (text s)) = is_some (after_codes (codes "full") (map lower_code (codes s)))
is_full _ = false

unfoldable pub count_entries : ℕ → List Json → Result ℕ
count_entries count [] = ok count
count_entries count (entry ∷ rest) = do
  values ← mapping (some entry) "OSPF neighbor entry"
  count_entries (if is_full (lookup "nbrState" values) then suc count else count) rest

unfoldable pub count_neighbors : ℕ → Dict Json → Result ℕ
count_neighbors count [] = ok count
count_neighbors count ((_, array entries) ∷ rest) = do
  more ← count_entries count (items entries)
  count_neighbors more rest
count_neighbors count ((_, _) ∷ rest) = err entries_not_lists

unfoldable pub extract_full_neighbor_count : Json → Result ℕ
extract_full_neighbor_count document = do
  check_json document
  root ← mapping (some document) "OSPF neighbor output"
  neighbors ← mapping (lookup "neighbors" root) "OSPF neighbors"
  count_neighbors 0 neighbors

abbrev pub tab : String
tab = "\t"

abbrev pub runner_nodes : List String
runner_nodes = "access1" ∷ "access2" ∷ []

-- The fault metric of a path, which the runner needs.
abbrev pub fault_metric_of : Option RuntimePathExpectation → Option ℕ
fault_metric_of none = none
fault_metric_of (some p) = p.fault_metric

-- `plan rows`: the line of one scenario
unfoldable pub row : RuntimeFaultPlan → Result String
row scenario = do
  let paths = index_by expected_node scenario.paths
  raise_if (not (same_names (keys paths) runner_nodes)) not_runner_paths
  first ← or_raise (fault_metric_of (lookup "access1" paths)) unreachable_path
  second ← or_raise (fault_metric_of (lookup "access2" paths)) unreachable_path
  ok (
      join tab (
        scenario.scenario_id
        ∷ kind_value scenario.kind
        ∷ scenario.component_id
        ∷ join ","
            (map (λ (i : InjectionInterface). i.node <> ":" <> i.interface) scenario.injections)
        ∷ decimal first
        ∷ decimal second
        ∷ []))

-- The lines that are printed, and how the command ends.
unfoldable pub rows : List RuntimeFaultPlan → List String × Result (Unit {0})
rows [] = ([], ok tt)
rows (scenario ∷ rest) =
    let later = rows rest in
    elim (row scenario) [ err e ↦ ([], err e) | ok line ↦ (line ∷ later.0, later.1) ]

-- `baseline_by_access.setdefault(...)`, with the test of what was there
unfoldable pub add_baseline : Dict ℕ → RuntimePathExpectation → Result (Dict ℕ)
add_baseline baselines p = by_previous (lookup p.access_node baselines)
  where
    by_previous : Option ℕ → Result (Dict ℕ)
    by_previous none = ok (insert p.access_node p.baseline_metric baselines)
    by_previous (some previous) = do
      raise_if (not (nat_beq previous p.baseline_metric)) (inconsistent_baseline p.access_node)
      ok baselines

unfoldable pub add_path_baselines : Dict ℕ → List RuntimePathExpectation → Result (Dict ℕ)
add_path_baselines baselines [] = ok baselines
add_path_baselines baselines (p ∷ ps) = do
  more ← add_baseline baselines p
  add_path_baselines more ps

unfoldable pub baseline_by_access : Dict ℕ → List RuntimeFaultPlan → Result (Dict ℕ)
baseline_by_access baselines [] = ok baselines
baseline_by_access baselines (s ∷ ss) = do
  more ← add_path_baselines baselines s.paths
  baseline_by_access more ss

-- `plan settings`: the line that is printed
unfoldable pub settings : RuntimeN1Plan → Result String
settings plan = do
  baselines ← baseline_by_access [] plan.scenarios
  raise_if (not (same_names (keys baselines) runner_nodes)) not_runner_baselines
  first ← or_raise (lookup "access1" baselines) (missing_key "access1")
  second ← or_raise (lookup "access2" baselines) (missing_key "access2")
  ok (
      join tab (
        plan.service_prefix
        ∷ text_before b'/' plan.service_prefix
        ∷ decimal first
        ∷ decimal second
        ∷ []))

-- `plan adjacencies`: the lines that are printed
unfoldable pub adjacencies : RuntimeN1Plan → List String
adjacencies plan =
    map (λ (a : BaselineAdjacencyExpectation). a.router <> tab <> decimal a.full_neighbors)
      plan.baseline_adjacencies
