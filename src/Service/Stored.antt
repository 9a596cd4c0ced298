-- ===== src/Service/Stored.antt =====
-- The two ways in which `ingest` succeeds, and what the service then holds.
use telconet_sentinel.Common.{
  String, true, Option, none, some, ◌≡◌, sym, ap, subst, ◌∙◌, ◌⊎◌, inl, inr, arith, eq_iff, eq_refl,
  ◌<>◌,
}
use telconet_sentinel.Common.Dict.{lookup, insert, lookup-insert, insert_new-append}
use telconet_sentinel.Common.Int.{ℤ}
use telconet_sentinel.Errors.{ok, >>=-eq-ok, ok-injective}
use telconet_sentinel.Models.{Incident, NetworkEvent}
use telconet_sentinel.Recovery.{is_awaiting, create_recovery_plan, create_recovery_plan-awaits}
use telconet_sentinel.Impact.{analyze_link_down}
use telconet_sentinel.Service.{
  IncidentService, Arrival, evict, record_incident, find_repeat, fingerprint_of, create_incident,
  answer, ingest,
}
use telconet_sentinel.Service.Valid.{IsConsistent, IsValid}
use telconet_sentinel.Service.Evict.{evict-IsValid, evict-newest}
use telconet_sentinel.Service.Record.{record_incident-IsConsistent, find_repeat-some}
use telconet_sentinel.Service.Newest.{evict-newest_index}

-- The state after a repeated event.
abbrev touched : IncidentService → String → ℤ → IncidentService
touched s f received_at = record s {
  last_seen_by_fingerprint = insert f received_at s.last_seen_by_fingerprint;
}

touched-IsConsistent :
    (s : IncidentService) (f k : String) (received_at : ℤ)
    → IsConsistent s
    → lookup f s.incident_id_by_fingerprint ≡ some k
    → IsConsistent (touched s f received_at)
touched-IsConsistent s f k received_at h named = record {
  positive = h.positive;
  unique = h.unique;
  own_id = h.own_id;
  indexed = h.indexed;
  seen = λ g.
      ground
        (arith, h.seen g, eq_iff f g, lookup-insert g f received_at s.last_seen_by_fingerprint);
}

module _ (sha256 : String → String) (s : IncidentService) (arrival : Arrival)
    (event : NetworkEvent) where
  abbrev print : String
  print = fingerprint_of sha256 event

  create_incident-fields :
      (i : Incident)
      → create_incident sha256 s arrival event ≡ ok i
      → (i.id ≡ "inc-" <> arrival.hex)
        × (i.fingerprint ≡ print)
        × (is_awaiting i.recovery_plan.status ≡ true)
  unfolding create_incident
  create_incident-fields i e =
      let (analysis, analysed, e') = >>=-eq-ok (analyze_link_down s.topology event) _ e in
      let (plan, planned, e'') =
        >>=-eq-ok
          (create_recovery_plan s.topology ("inc-" <> arrival.hex) "restore_link"
            analysis.failed_component)
          _ e' in
      let is_i = ok-injective e'' in
      (
        sym (ap (λ (i : Incident). i.id) is_i),
        sym (ap (λ (i : Incident). i.fingerprint) is_i),
        subst (λ (i : Incident). is_awaiting i.recovery_plan.status ≡ true) is_i
            (create_recovery_plan-awaits s.topology ("inc-" <> arrival.hex) "restore_link"
              analysis.failed_component plan planned),
      )

  Outcome : IncidentService → Incident → Type 0
  Outcome s' i =
      ((find_repeat s print arrival.received_at ≡ ok (some i))
        × (s' ≡ touched s print arrival.received_at))
      ⊎ ((find_repeat s print arrival.received_at ≡ ok none)
          × (create_incident sha256 s arrival event ≡ ok i)
          × (let stored = record_incident s i arrival.received_at in
              s' ≡ evict stored.incidents stored))

  answer-cases :
      (o : Option Incident) (s' : IncidentService) (i : Incident)
      → find_repeat s print arrival.received_at ≡ ok o
      → answer sha256 s arrival event o ≡ ok (s', i)
      → Outcome s' i
  unfolding answer Outcome
  answer-cases (some existing) s' i found e =
      let same = ok-injective e in
      inl (found ∙ ap (λ r. ok (some (r.1))) same, sym (ap (λ r. r.0) same))
  answer-cases none s' i found e =
      let (created, made, e') = >>=-eq-ok (create_incident sha256 s arrival event) _ e in
      let same = ok-injective e' in
      let is_i : created ≡ i = ap (λ r. r.1) same in
      inr (
        found,
        made ∙ ap ok is_i,
        sym (ap (λ r. r.0) same)
            ∙ ap
                (λ i.
                  let stored = record_incident s i arrival.received_at in
                  evict stored.incidents stored)
                is_i,
      )

  -- The two ways in which `ingest` succeeds.
  ingest-cases :
      (s' : IncidentService) (i : Incident)
      → ingest sha256 s arrival event ≡ ok (s', i)
      → Outcome s' i
  unfolding ingest
  ingest-cases s' i e =
      let (o, found, e') = >>=-eq-ok (find_repeat s print arrival.received_at) _ e in
      answer-cases o s' i found e'

  -- What a service holds of an incident that `ingest` has returned.
  pub record Stored (s' : IncidentService) (i : Incident) : Type 0 where
    pub named : lookup print s'.incident_id_by_fingerprint ≡ some i.id
    pub there : lookup i.id s'.incidents ≡ some i
    pub seen : lookup print s'.last_seen_by_fingerprint ≡ some arrival.received_at
    pub awaits : is_awaiting i.recovery_plan.status ≡ true
    pub of_event : i.fingerprint ≡ print
    pub is_valid : IsValid s'

  touched-Stored :
      (i : Incident)
      → IsValid s
      → find_repeat s print arrival.received_at ≡ ok (some i)
      → Stored (touched s print arrival.received_at) i
  touched-Stored i h found =
      let (named, there, same_print, awaits) =
        find_repeat-some s print arrival.received_at i h.consistent found in
      record {
        named = named;
        there = there;
        seen = ground (
          arith,
          eq_refl print,
          lookup-insert print print arrival.received_at s.last_seen_by_fingerprint,
        );
        awaits = awaits;
        of_event = same_print;
        is_valid = record {
          consistent = touched-IsConsistent s print i.id arrival.received_at h.consistent named;
          bounded = h.bounded;
        };
      }

  created-Stored :
      (i : Incident)
      → IsValid s
      → lookup ("inc-" <> arrival.hex) s.incidents ≡ none
      → create_incident sha256 s arrival event ≡ ok i
      → let stored = record_incident s i arrival.received_at in
        Stored (evict stored.incidents stored) i
  unfolding record_incident
  created-Stored i h fresh made =
      let (own, same_print, awaits) = create_incident-fields i made in
      let new : lookup i.id s.incidents ≡ none = rw own fresh in
      let st = record_incident s i arrival.received_at in
      let grown = insert_new-append i.id i s.incidents new in
      let indexed : lookup print st.incident_id_by_fingerprint ≡ some i.id = rw same_print (
        ground
          (arith, eq_refl print, lookup-insert print print i.id s.incident_id_by_fingerprint)) in
      let timed : lookup print st.last_seen_by_fingerprint ≡ some arrival.received_at =
        rw same_print (
          ground (
            arith,
            eq_refl print,
            lookup-insert print print arrival.received_at s.last_seen_by_fingerprint,
          )) in
      let (named, times) =
        subst
          (λ d.
            (lookup print (evict d st).incident_id_by_fingerprint ≡ some i.id)
            × (lookup print (evict d st).last_seen_by_fingerprint
                ≡ lookup print st.last_seen_by_fingerprint))
          (sym grown)
          (evict-newest_index s.incidents st print i.id i h.consistent.positive new indexed) in
      record {
        named = named;
        there = evict-newest st i.id i s.incidents h.consistent.positive new grown;
        seen = times ∙ timed;
        awaits = awaits;
        of_event = same_print;
        is_valid =
            evict-IsValid st
              (record_incident-IsConsistent s i arrival.received_at h.consistent new);
      }

  pub ingest-Stored :
      (s' : IncidentService) (i : Incident)
      → IsValid s
      → lookup ("inc-" <> arrival.hex) s.incidents ≡ none
      → ingest sha256 s arrival event ≡ ok (s', i)
      → Stored s' i
  unfolding Outcome
  ingest-Stored s' i h fresh e = elim (ingest-cases s' i e) [
    | inl (found, is_touched) ↦ rw is_touched (touched-Stored i h found)
    | inr (_, made, is_evicted) ↦ rw is_evicted (created-Stored i h fresh made)
  ]
