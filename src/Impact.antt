-- ===== src/Impact.antt =====
-- impact.py: what the loss of one link does to the paths from the access nodes to the services.
pub mod Lost
use telconet_sentinel.Common.{
  ℕ, String, not, Option, none, some, List, [], ◌∷◌, ◌++◌, ◌==◌, ltb, if◌then◌else◌, is_empty, add,
  sort, name_leb, ◌<>◌, decimal,
}
use telconet_sentinel.Errors.{
  Result, ok, ◌>>=◌, ◌>>◌, raise_if, or_raise, unsupported_event, no_service_node, no_baseline_path,
}
use telconet_sentinel.Models.{
  NetworkEvent, ImpactAnalysis, ServiceImpact, degraded, outage, redundancy_reduced,
}
use telconet_sentinel.Topology.{Topology, link}
use telconet_sentinel.Topology.Distance.{shortest_distance}
use telconet_sentinel.Audit.{access_names, service_names, prefixes_of}

-- What the loop over the access nodes fills.
pub record Changes : Type 0 where
  pub changed_costs : List String
  pub unavailable : List String
  pub affected_access : List String

unfoldable pub note_change : Changes → String → ℕ → Option ℕ → Changes
note_change c access_node before none = record {
  unavailable = add access_node c.unavailable;
  affected_access = add access_node c.affected_access;
  changed_costs =
      c.changed_costs
      ++ ("shortest service path lost: " <> access_node <> " " <> decimal before <> "->unreachable")
        ∷ [];
}
note_change c access_node before (some after) =
    if ltb before after
    then record c {
      affected_access = add access_node c.affected_access;
      changed_costs =
          c.changed_costs
          ++ ("shortest service path cost changed: "
              <> access_node
              <> " "
              <> decimal before
              <> "->"
              <> decimal after)
            ∷ [];
    }
    else c

unfoldable pub find_changes :
    Topology → List String → String → Changes → List String → Result Changes
find_changes t services failed_link c [] = ok c
find_changes t services failed_link c (access_node ∷ rest) = do
  before ← shortest_distance t access_node services none none
  after ← shortest_distance t access_node services (some failed_link) none
  cost ← or_raise before (no_baseline_path access_node)
  find_changes t services failed_link (note_change c access_node cost after) rest

unfoldable pub impact_of_changes : Changes → ServiceImpact
impact_of_changes c =
    if not (is_empty c.unavailable)
    then outage
    else if not (is_empty c.affected_access)
    then degraded
    else redundancy_reduced

unfoldable pub path_evidence : ServiceImpact → String
path_evidence outage = "no alternate service path"
path_evidence degraded = "alternate service path available"
path_evidence redundancy_reduced = "active shortest path unchanged"

unfoldable pub analyze_link_down : Topology → NetworkEvent → Result ImpactAnalysis
analyze_link_down t event = do
  raise_if (not (event.event_type == "link_down")) (unsupported_event event.event_type)
  failed_link ← link t event.link_id
  let services = service_names t
  raise_if (is_empty services) no_service_node
  c ←
      find_changes t services failed_link.id
        (record { changed_costs = []; unavailable = []; affected_access = [] }) (access_names t)
  let impact = impact_of_changes c
  let affected_nodes = sort name_leb c.affected_access
  prefixes ← prefixes_of t affected_nodes
  ok (record {
    failed_component = failed_link.id;
    evidence =
        ("link_down observed on " <> failed_link.id) ∷ path_evidence impact ∷ c.changed_costs;
    affected_nodes = affected_nodes;
    affected_prefixes = sort name_leb prefixes;
    service_impact = impact;
  })
