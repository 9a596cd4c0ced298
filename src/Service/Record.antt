-- ===== src/Service/Record.antt =====
-- What `ingest` finds and stores: the search for a repeated event, and the new incident's entries.
use telconet_sentinel.Common.{
  String, true, Option, none, some, ◌≡◌, refl, sym, subst, ◌∙◌, inl, inr, arith, eq_iff, eq_refl,
  Bool-cases, Option-cases, ◌==◌, if◌then◌else◌,
}
use telconet_sentinel.Common.Dict.{lookup, insert, lookup-insert, IsUniqueKeys-insert}
use telconet_sentinel.Common.Int.{ℤ, pos, ◌-ℤ◌, leb_ℤ}
use telconet_sentinel.Errors.{ok}
use telconet_sentinel.Models.{Incident}
use telconet_sentinel.Recovery.{is_awaiting}
use telconet_sentinel.Service.{IncidentService, record_incident, is_repeat, find_repeat}
use telconet_sentinel.Service.Valid.{IsConsistent}

pub record_incident-IsConsistent :
    (s : IncidentService) (i : Incident) (received_at : ℤ)
    → IsConsistent s
    → lookup i.id s.incidents ≡ none
    → IsConsistent (record_incident s i received_at)
unfolding record_incident
record_incident-IsConsistent s i received_at h new = record {
  positive = h.positive;
  unique = IsUniqueKeys-insert i.id i s.incidents h.unique;
  own_id = λ k v p. ground (arith, lookup-insert k i.id i s.incidents, eq_iff i.id k, h.own_id k v);
  indexed = λ f k p.
      let stored = lookup-insert f i.fingerprint i.id s.incident_id_by_fingerprint in
      elim (Bool-cases (i.fingerprint == f)) [
        | inl same ↦
            let is_i : i.id ≡ k = ground arith in
            (
              i,
              subst (λ k. lookup k (insert i.id i s.incidents) ≡ some i) is_i
                  (ground (arith, lookup-insert i.id i.id i s.incidents, eq_refl i.id)),
              ground (arith, eq_iff i.fingerprint f),
            )
        | inr other ↦
            let (v, there, print) = h.indexed f k (ground arith) in
            (v, ground (arith, lookup-insert k i.id i s.incidents, eq_iff i.id k), print)
      ];
  seen = λ f. ground (
    arith,
    h.seen f,
    lookup-insert f i.fingerprint i.id s.incident_id_by_fingerprint,
    lookup-insert f i.fingerprint received_at s.last_seen_by_fingerprint,
  );
}

find_repeat-none :
    (s : IncidentService) (f : String) (received_at : ℤ)
    → lookup f s.incident_id_by_fingerprint ≡ none
    → find_repeat s f received_at ≡ ok none
unfolding find_repeat
find_repeat-none s f received_at missing = ground arith

find_repeat-value :
    (s : IncidentService) (f k : String) (received_at last_seen : ℤ) (i : Incident)
    → lookup f s.incident_id_by_fingerprint ≡ some k
    → lookup k s.incidents ≡ some i
    → lookup f s.last_seen_by_fingerprint ≡ some last_seen
    → find_repeat s f received_at
      ≡ ok (if is_repeat s i last_seen received_at then some i else none)
unfolding find_repeat
find_repeat-value s f k received_at last_seen i named there seen = ground arith

-- In a consistent service the search raises no `KeyError`.
pub find_repeat-ok :
    (s : IncidentService) (f : String) (received_at : ℤ)
    → IsConsistent s
    → (o : Option Incident) × (find_repeat s f received_at ≡ ok o)
find_repeat-ok s f received_at h = elim (Option-cases (lookup f s.incident_id_by_fingerprint)) [
  | inl missing ↦ (none, find_repeat-none s f received_at missing)
  | inr (k, named) ↦
      let (i, there, print) = h.indexed f k named in
      elim (Option-cases (lookup f s.last_seen_by_fingerprint)) [
        | inl unseen ↦ absurd (ground (arith, h.seen f))
        | inr (seen_at, seen) ↦ (_, find_repeat-value s f k received_at seen_at i named there seen)
      ]
]

-- What the search finds is a stored incident of the fingerprint that awaits approval.
pub find_repeat-some :
    (s : IncidentService) (f : String) (received_at : ℤ) (i : Incident)
    → IsConsistent s
    → find_repeat s f received_at ≡ ok (some i)
    → (lookup f s.incident_id_by_fingerprint ≡ some i.id)
      × (lookup i.id s.incidents ≡ some i)
      × (i.fingerprint ≡ f)
      × (is_awaiting i.recovery_plan.status ≡ true)
unfolding is_repeat
find_repeat-some s f received_at i h e =
    elim (Option-cases (lookup f s.incident_id_by_fingerprint)) [
      | inl missing ↦ absurd (ground (arith, find_repeat-none s f received_at missing))
      | inr (k, named) ↦
          let (v, there, print) = h.indexed f k named in
          elim (Option-cases (lookup f s.last_seen_by_fingerprint)) [
            | inl unseen ↦ absurd (ground (arith, h.seen f))
            | inr (seen_at, seen) ↦
                let value = find_repeat-value s f k received_at seen_at v named there seen in
                elim (Bool-cases (is_repeat s v seen_at received_at)) [
                  | inr not_repeated ↦ absurd (ground arith)
                  | inl repeated ↦
                      let is_v : v ≡ i = ground arith in
                      let own = h.own_id k v there in
                      let awaits : is_awaiting v.recovery_plan.status ≡ true = ground arith in
                      subst
                        (λ i.
                          (lookup f s.incident_id_by_fingerprint ≡ some i.id)
                          × (lookup i.id s.incidents ≡ some i)
                          × (i.fingerprint ≡ f)
                          × (is_awaiting i.recovery_plan.status ≡ true))
                        is_v
                        (
                          rw own named,
                          subst (λ k. lookup k s.incidents ≡ some v) (sym own) there,
                          print,
                          awaits,
                        )
                ]
          ]
    ]

-- The search finds the incident of an event that comes back within the window.
pub find_repeat-found :
    (s : IncidentService) (f : String) (received_at last_seen : ℤ) (i : Incident)
    → lookup f s.incident_id_by_fingerprint ≡ some i.id
    → lookup i.id s.incidents ≡ some i
    → lookup f s.last_seen_by_fingerprint ≡ some last_seen
    → is_awaiting i.recovery_plan.status ≡ true
    → leb_ℤ (pos 0) (received_at -ℤ last_seen) ≡ true
    → leb_ℤ (received_at -ℤ last_seen) s.dedup_window ≡ true
    → find_repeat s f received_at ≡ ok (some i)
unfolding is_repeat
find_repeat-found s f received_at last_seen i named there seen awaiting late soon =
    find_repeat-value s f i.id received_at last_seen i named there seen
    ∙ rw (awaiting, late, soon) refl
