-- ===== src/Service/Ingest.antt =====
-- The theorems on `ingest`: the invariant, what is stored, repeated events and errors.
use telconet_sentinel.Common.{
  String, true, Option, none, some, ◌≡◌, refl, sym, ap, ◌∙◌, inl, inr, arith, ◌<>◌,
}
use telconet_sentinel.Common.Dict.{lookup}
use telconet_sentinel.Common.Int.{pos, ◌-ℤ◌, leb_ℤ}
use telconet_sentinel.Errors.{Error, ok, err, ◌>>=◌, Result-cases}
use telconet_sentinel.Models.{Incident, NetworkEvent}
use telconet_sentinel.Recovery.{is_awaiting}
use telconet_sentinel.Service.{
  IncidentService, Arrival, fingerprint_of, create_incident, answer, ingest, get,
}
use telconet_sentinel.Service.Valid.{IsConsistent, IsValid}
use telconet_sentinel.Service.Record.{find_repeat-ok, find_repeat-found}
use telconet_sentinel.Service.Stored.{ingest-Stored}

module _ (sha256 : String → String) (s : IncidentService) (arrival : Arrival)
    (event : NetworkEvent) where
  -- From a valid service, with an identifier that is new to it, `ingest` leaves a valid service:
  -- the three dictionaries agree and there are at most `max_incidents` incidents.
  pub ingest-IsValid :
      (s' : IncidentService) (i : Incident)
      → IsValid s
      → lookup ("inc-" <> arrival.hex) s.incidents ≡ none
      → ingest sha256 s arrival event ≡ ok (s', i)
      → IsValid s'
  ingest-IsValid s' i h fresh e =
      let stored = ingest-Stored sha256 s arrival event s' i h fresh e in stored.is_valid

  -- From a valid service, with an identifier that is new to it, the incident that `ingest` returns
  -- can be got under its identifier (eviction never takes it), and it awaits approval.
  pub get-ingest :
      (s' : IncidentService) (i : Incident)
      → IsValid s
      → lookup ("inc-" <> arrival.hex) s.incidents ≡ none
      → ingest sha256 s arrival event ≡ ok (s', i)
      → (get s' i.id ≡ ok i)
        × (i.fingerprint ≡ fingerprint_of sha256 event)
        × (is_awaiting i.recovery_plan.status ≡ true)
  unfolding get
  get-ingest s' i h fresh e =
      let stored = ingest-Stored sha256 s arrival event s' i h fresh e in
      let there = stored.there in (rw there refl, stored.of_event, stored.awaits)

  -- From a valid service, with an identifier that is new to it, an event of the same fingerprint
  -- that comes later, by no more than the window, is answered with the same incident, and neither
  -- the incidents nor the index of fingerprints changes.
  pub ingest-repeated :
      (s' : IncidentService) (i : Incident) (arrival' : Arrival) (event' : NetworkEvent)
      → IsValid s
      → lookup ("inc-" <> arrival.hex) s.incidents ≡ none
      → ingest sha256 s arrival event ≡ ok (s', i)
      → fingerprint_of sha256 event' ≡ fingerprint_of sha256 event
      → leb_ℤ (pos 0) (arrival'.received_at -ℤ arrival.received_at) ≡ true
      → leb_ℤ (arrival'.received_at -ℤ arrival.received_at) s'.dedup_window ≡ true
      → (s'' : IncidentService) × (ingest sha256 s' arrival' event' ≡ ok (s'', i))
        × (s''.incidents ≡ s'.incidents)
        × (s''.incident_id_by_fingerprint ≡ s'.incident_id_by_fingerprint)
  unfolding ingest answer
  ingest-repeated s' i arrival' event' h fresh e same_print late soon =
      let stored = ingest-Stored sha256 s arrival event s' i h fresh e in
      let found =
        find_repeat-found s' (fingerprint_of sha256 event') arrival'.received_at arrival.received_at
          i (rw same_print stored.named) stored.there (rw same_print stored.seen) stored.awaits late
          soon in
      (_, ap (λ r. r >>= λ o. answer sha256 s' arrival' event' o) found, refl, refl)

  answer-raises :
      (x : Error) (o : Option Incident)
      → answer sha256 s arrival event o ≡ err x
      → create_incident sha256 s arrival event ≡ err x
  unfolding answer
  answer-raises x (some existing) e = absurd cc
  answer-raises x none e = elim (Result-cases (create_incident sha256 s arrival event)) [
    | inl (i, made) ↦ absurd (ground arith)
    | inr (y, failed) ↦ ground arith
  ]

  -- From a consistent service, `ingest` raises only what the analysis or the plan of a new
  -- incident raises: the lookups that the dictionaries' agreement guards raise no `KeyError`.
  pub ingest-raises :
      (x : Error)
      → IsConsistent s
      → ingest sha256 s arrival event ≡ err x
      → create_incident sha256 s arrival event ≡ err x
  unfolding ingest
  ingest-raises x h e =
      let (o, found) = find_repeat-ok s (fingerprint_of sha256 event) arrival.received_at h in
      answer-raises x o (sym (ap (λ r. r >>= λ o. answer sha256 s arrival event o) found) ∙ e)
