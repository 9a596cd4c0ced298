-- ===== src/Tests/Incidents.antt =====
-- The incident service on the sample network, with room for one incident.
use telconet_sentinel.Common.{
  String, none, List, [], ◌∷◌, true, contains, ◌≡◌, refl, codes_leb, name_leb, keep_if, add,
  insert_sorted, sort, ℕ, ◌<>◌, decimal, decimal_within, digit,
}
use telconet_sentinel.Common.Dict.{lookup, insert, remove}
use telconet_sentinel.Common.Int.{pos, ◌-ℤ◌}
use telconet_sentinel.Errors.{ok, err, unsupported_event, not_awaiting_approval}
use telconet_sentinel.Models.{
  ServiceImpact, degraded, redundancy_reduced, NetworkEvent, Incident, ImpactAnalysis, RecoveryPlan,
  awaiting_approval, approved,
}
use telconet_sentinel.Topology.{known, node, link, nodes, fetch_all}
use telconet_sentinel.Topology.Distance.{
  entry_leb, heappush, relax, offer, scan, settle, round, loop, check_links, check_nodes,
  known_targets, initial, shortest_distance_excluding, shortest_distance,
}
use telconet_sentinel.Audit.{access_names, service_names, prefixes_of}
use telconet_sentinel.Impact.{
  note_change, find_changes, impact_of_changes, path_evidence, analyze_link_down,
}
use telconet_sentinel.Recovery.{create_recovery_plan, approve_recovery}
use telconet_sentinel.Service.{
  IncidentService, new, evict_one, evict, is_repeat, find_repeat, record_incident, Arrival,
  fingerprint_of, create_incident, answer, ingest, get, approve,
}
use telconet_sentinel.Service.Valid.{IsValid, new_service-IsValid}
use telconet_sentinel.Service.Ingest.{ingest-IsValid, get-ingest, ingest-repeated, ingest-raises}
use telconet_sentinel.Service.Approve.{approve-IsValid, approve-approve}
use telconet_sentinel.Tests.Sample.{network}

-- The digest stands for itself.
abbrev sha256 : String → String
sha256 text = text

abbrev event : NetworkEvent
event = record { link_id = "acc-agg"; event_type = "link_down"; observed_at = 3 }

abbrev other_event : NetworkEvent
other_event = record { link_id = "acc-core"; event_type = "link_down"; observed_at = 4 }

abbrev at : ℕ → String → Arrival
at received_at hex = record { received_at = pos received_at; hex = hex; now = received_at }

abbrev empty : IncidentService
empty = record {
  topology = network;
  dedup_window = pos 60;
  max_incidents = 1;
  incidents = [];
  incident_id_by_fingerprint = [];
  last_seen_by_fingerprint = [];
}

started : new network (pos 60) 1 ≡ ok empty
unfolding new
started = refl

abbrev analysis_of :
    String → ServiceImpact → List String → List String → List String → ImpactAnalysis
analysis_of link_id impact evidence affected prefixes = record {
  failed_component = link_id;
  evidence = ("link_down observed on " <> link_id) ∷ evidence;
  affected_nodes = affected;
  affected_prefixes = prefixes;
  service_impact = impact;
}

abbrev plan_of : String → String → RecoveryPlan
plan_of incident_id link_id = record {
  incident_id = incident_id;
  action = "restore_link";
  target = link_id;
  status = awaiting_approval;
}

abbrev incident : Incident
incident = record {
  id = "inc-01";
  fingerprint = "link_down:acc-agg";
  event = event;
  analysis =
      analysis_of "acc-agg" degraded
        ("alternate service path available" ∷ "shortest service path cost changed: acc-1 20->30"
          ∷ [])
        ("acc-1" ∷ []) ("10.0.0.0/24" ∷ []);
  recovery_plan = plan_of "inc-01" "acc-agg";
  created_at = 100;
}

abbrev other_incident : Incident
other_incident = record {
  id = "inc-02";
  fingerprint = "link_down:acc-core";
  event = other_event;
  analysis =
      analysis_of "acc-core" redundancy_reduced ("active shortest path unchanged" ∷ []) [] [];
  recovery_plan = plan_of "inc-02" "acc-core";
  created_at = 130;
}

abbrev holds : Incident → ℕ → IncidentService
holds i seen_at = record empty {
  incidents = (i.id, i) ∷ [];
  incident_id_by_fingerprint = (i.fingerprint, i.id) ∷ [];
  last_seen_by_fingerprint = (i.fingerprint, pos seen_at) ∷ [];
}

-- The first event makes an incident, its repetition does not, and another event's incident takes
-- its place.
runs :
    (ingest sha256 empty (at 100 "01") event ≡ ok (holds incident 100, incident))
    × (ingest sha256 (holds incident 100) (at 130 "02") event ≡ ok (holds incident 130, incident))
    × (ingest sha256 (holds incident 130) (at 130 "02") other_event
        ≡ ok (holds other_incident 130, other_incident))
unfolding ingest answer create_incident record_incident evict evict_one find_repeat is_repeat
    analyze_link_down find_changes note_change impact_of_changes path_evidence create_recovery_plan
    access_names service_names prefixes_of nodes fetch_all sort shortest_distance
    shortest_distance_excluding check_links check_nodes known_targets initial loop round settle scan
    offer relax heappush entry_leb name_leb codes_leb known node link contains lookup keep_if insert
    insert_sorted add remove decimal decimal_within digit ◌-ℤ◌
runs = (refl, refl, refl)

empty-IsValid : IsValid empty
empty-IsValid = new_service-IsValid network (pos 60) 1 empty started

first_is_new : lookup "inc-01" empty.incidents ≡ none
unfolding lookup
first_is_new = refl

second_is_new : lookup "inc-02" (holds incident 100).incidents ≡ none
unfolding lookup
second_is_new = refl

holds-IsValid : IsValid (holds incident 100)
holds-IsValid =
    ingest-IsValid sha256 empty (at 100 "01") event (holds incident 100) incident empty-IsValid
      first_is_new runs.0

ingest-IsValid_example : IsValid (holds incident 130)
ingest-IsValid_example =
    ingest-IsValid sha256 (holds incident 100) (at 130 "02") event (holds incident 130) incident
      holds-IsValid second_is_new runs.1

repeated-IsValid : IsValid (holds incident 130)
repeated-IsValid =
    ingest-IsValid sha256 (holds incident 100) (at 130 "02") event (holds incident 130) incident
      holds-IsValid second_is_new runs.1

later_is_new : lookup "inc-02" (holds incident 130).incidents ≡ none
unfolding lookup
later_is_new = refl

get-ingest_example :
    (get (holds other_incident 130) "inc-02" ≡ ok other_incident)
    × ("link_down:acc-core" ≡ fingerprint_of sha256 other_event)
    × (true ≡ true)
get-ingest_example =
    get-ingest sha256 (holds incident 130) (at 130 "02") other_event (holds other_incident 130)
      other_incident repeated-IsValid later_is_new runs.2

ingest-repeated_example :
    (s : IncidentService) × (ingest sha256 (holds incident 100) (at 130 "02") event
      ≡ ok (s, incident))
    × (s.incidents ≡ (holds incident 100).incidents)
    × (s.incident_id_by_fingerprint ≡ (holds incident 100).incident_id_by_fingerprint)
unfolding ◌-ℤ◌
ingest-repeated_example =
    ingest-repeated sha256 empty (at 100 "01") event (holds incident 100) incident (at 130 "02")
      event empty-IsValid first_is_new runs.0 refl refl refl

abbrev link_up : NetworkEvent
link_up = record event { event_type = "link_up" }

refused : ingest sha256 empty (at 100 "01") link_up ≡ err (unsupported_event "link_up")
unfolding ingest answer create_incident find_repeat analyze_link_down lookup
refused = refl

ingest-raises_example :
    create_incident sha256 empty (at 100 "01") link_up ≡ err (unsupported_event "link_up")
ingest-raises_example =
    ingest-raises sha256 empty (at 100 "01") link_up (unsupported_event "link_up")
      empty-IsValid.consistent refused

abbrev approved_incident : Incident
approved_incident = record incident {
  recovery_plan = record incident.recovery_plan { status = approved };
}

approval :
    approve (holds incident 100) "inc-01"
    ≡ ok (
      record (holds incident 100) { incidents = ("inc-01", approved_incident) ∷ [] },
      approved_incident,
    )
unfolding approve get approve_recovery lookup insert
approval = refl

abbrev after_approval : IncidentService
after_approval = record (holds incident 100) { incidents = ("inc-01", approved_incident) ∷ [] }

approve-IsValid_example : IsValid after_approval
approve-IsValid_example =
    approve-IsValid (holds incident 100) after_approval "inc-01" approved_incident approval
      holds-IsValid

approve-approve_example :
    (get after_approval "inc-01" ≡ ok approved_incident)
    × (approved ≡ approved)
    × (approve after_approval "inc-01" ≡ err not_awaiting_approval)
approve-approve_example =
    approve-approve (holds incident 100) after_approval "inc-01" approved_incident approval
