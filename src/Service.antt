-- ===== src/Service.antt =====
-- service.py: the incident service. The clock's reading, the random part of the identifier and the
-- time of creation are arguments of `ingest`, and the digest is a parameter. A call holds the lock
-- from start to end, so calls follow one another. A call that raises leaves the state as it was.
pub mod Valid
pub mod Evict
pub mod Record
pub mod Newest
pub mod Stored
pub mod Ingest
pub mod Approve
use telconet_sentinel.Common.{
  ℕ, zero, suc, String, Bool, true, false, not, ◌&&◌, Option, none, some, List, [], ◌∷◌, ◌==◌, ltb,
  if◌then◌else◌, length, ◌<>◌,
}
use telconet_sentinel.Common.Dict.{Dict, lookup, insert, remove}
use telconet_sentinel.Common.Int.{ℤ, pos, ◌-ℤ◌, leb_ℤ, ltb_ℤ}
use telconet_sentinel.Errors.{
  Result, ok, err, ◌>>=◌, ◌>>◌, raise_if, or_raise, missing_key, window_not_positive,
  max_not_positive, incident_not_found,
}
use telconet_sentinel.Models.{Instant, NetworkEvent, Incident}
use telconet_sentinel.Topology.{Topology}
use telconet_sentinel.Impact.{analyze_link_down}
use telconet_sentinel.Recovery.{is_awaiting, create_recovery_plan, approve_recovery}

pub record IncidentService : Type 0 where
  pub topology : Topology
  pub dedup_window : ℤ
  pub max_incidents : ℕ
  pub incidents : Dict Incident
  pub incident_id_by_fingerprint : Dict String
  pub last_seen_by_fingerprint : Dict ℤ

unfoldable pub new : Topology → ℤ → ℕ → Result IncidentService
new t dedup_window max_incidents = do
  raise_if (leb_ℤ dedup_window (pos 0)) window_not_positive
  raise_if (not (ltb 0 max_incidents)) max_not_positive
  ok (record {
    topology = t;
    dedup_window = dedup_window;
    max_incidents = max_incidents;
    incidents = [];
    incident_id_by_fingerprint = [];
    last_seen_by_fingerprint = [];
  })

abbrev pub same_id : Option String → String → Bool
same_id none x = false
same_id (some y) x = y == x

-- The body of the eviction loop, for the oldest incident, which leaves `rest`.
unfoldable pub evict_one : IncidentService → String → Incident → Dict Incident → IncidentService
evict_one s evicted_id evicted rest =
    if same_id (lookup evicted.fingerprint s.incident_id_by_fingerprint) evicted_id
    then record s {
      incidents = rest;
      incident_id_by_fingerprint = remove evicted.fingerprint s.incident_id_by_fingerprint;
      last_seen_by_fingerprint = remove evicted.fingerprint s.last_seen_by_fingerprint;
    }
    else record s { incidents = rest }

-- The eviction loop over the incidents from the oldest on, which are those of the state.
unfoldable pub evict : Dict Incident → IncidentService → IncidentService
evict [] s = s
evict ((evicted_id, evicted) ∷ rest) s =
    let evicted_more = evict rest (evict_one s evicted_id evicted rest) in
    if ltb s.max_incidents (length ((evicted_id, evicted) ∷ rest)) then evicted_more else s

-- Whether an event repeats the incident `existing`, last seen at `last_seen`.
unfoldable pub is_repeat : IncidentService → Incident → ℤ → ℤ → Bool
is_repeat s existing last_seen received_at =
    let elapsed = received_at -ℤ last_seen in
    is_awaiting existing.recovery_plan.status
    && leb_ℤ (pos 0) elapsed
    && leb_ℤ elapsed s.dedup_window

-- The incident that an event repeats, if any.
unfoldable pub find_repeat : IncidentService → String → ℤ → Result (Option Incident)
find_repeat s fingerprint received_at = elim (lookup fingerprint s.incident_id_by_fingerprint) [
  | none ↦ ok none
  | some existing_id ↦
      or_raise (lookup existing_id s.incidents) (missing_key existing_id) >>= λ existing.
      or_raise (lookup fingerprint s.last_seen_by_fingerprint) (missing_key fingerprint)
      >>= λ last_seen.
          ok (if is_repeat s existing last_seen received_at then some existing else none)
]

unfoldable pub record_incident : IncidentService → Incident → ℤ → IncidentService
record_incident s incident received_at = record s {
  incidents = insert incident.id incident s.incidents;
  incident_id_by_fingerprint = insert incident.fingerprint incident.id s.incident_id_by_fingerprint;
  last_seen_by_fingerprint = insert incident.fingerprint received_at s.last_seen_by_fingerprint;
}

-- What a call of `ingest` is given from outside.
pub record Arrival : Type 0 where
  pub received_at : ℤ
  pub hex : String
  pub now : Instant

module _ (sha256 : String → String) where
  abbrev pub fingerprint_of : NetworkEvent → String
  fingerprint_of event = sha256 (event.event_type <> ":" <> event.link_id)

  unfoldable pub create_incident : IncidentService → Arrival → NetworkEvent → Result Incident
  create_incident s arrival event = do
    analysis ← analyze_link_down s.topology event
    let incident_id = "inc-" <> arrival.hex
    plan ← create_recovery_plan s.topology incident_id "restore_link" analysis.failed_component
    ok (record {
      id = incident_id;
      fingerprint = fingerprint_of event;
      event = event;
      analysis = analysis;
      recovery_plan = plan;
      created_at = arrival.now;
    })

  -- The rest of `ingest`, once it has looked for an incident that the event repeats.
  unfoldable pub answer :
      IncidentService
      → Arrival
      → NetworkEvent
      → Option Incident
      → Result (IncidentService × Incident)
  answer s arrival event (some existing) =
      let touched = record s {
        last_seen_by_fingerprint =
            insert (fingerprint_of event) arrival.received_at s.last_seen_by_fingerprint;
      } in
      ok (touched, existing)
  answer s arrival event none = create_incident s arrival event >>= λ incident.
      let stored = record_incident s incident arrival.received_at in
      ok (evict stored.incidents stored, incident)

  unfoldable pub ingest :
      IncidentService → Arrival → NetworkEvent → Result (IncidentService × Incident)
  ingest s arrival event =
      find_repeat s (fingerprint_of event) arrival.received_at >>= λ o. answer s arrival event o

unfoldable pub get : IncidentService → String → Result Incident
get s incident_id = or_raise (lookup incident_id s.incidents) (incident_not_found incident_id)

-- The plan is changed in place, which is what the incident of the store then shows.
unfoldable pub approve : IncidentService → String → Result (IncidentService × Incident)
approve s incident_id = do
  incident ← get s incident_id
  plan ← approve_recovery incident.recovery_plan
  let approved_incident = record incident { recovery_plan = plan }
  ok (record s { incidents = insert incident_id approved_incident s.incidents }, approved_incident)
