-- ===== src/Service/Newest.antt =====
-- What eviction leaves of the incident that was stored last.
use telconet_sentinel.Common.{
  ◌<◌, String, false, none, some, [], ◌∷◌, ◌++◌, ◌≡◌, refl, ◌∙◌, inl, inr, arith, length, eq_iff,
  Bool-cases, ltb, ◌==◌,
}
use telconet_sentinel.Common.Dict.{Dict, lookup, lookup-remove, lookup-cons}
use telconet_sentinel.Models.{Incident}
use telconet_sentinel.Service.{IncidentService, same_id, evict_one, evict}
use telconet_sentinel.Service.Evict.{evict_one-max}

evict_one-index :
    (s : IncidentService) (f k j : String) (v : Incident) (rest : Dict Incident)
    → (j == k) ≡ false
    → lookup f s.incident_id_by_fingerprint ≡ some k
    → let s' = evict_one s j v rest in
      (lookup f s'.incident_id_by_fingerprint ≡ some k)
      × (lookup f s'.last_seen_by_fingerprint ≡ lookup f s.last_seen_by_fingerprint)
unfolding evict_one
evict_one-index s f k j v rest differs named =
    let removed_id = lookup-remove f v.fingerprint s.incident_id_by_fingerprint in
    let removed_time = lookup-remove f v.fingerprint s.last_seen_by_fingerprint in
    elim (Bool-cases (same_id (lookup v.fingerprint s.incident_id_by_fingerprint) j)) [
      | inr unnamed ↦ rw unnamed (named, refl)
      | inl by_j ↦
          let other : (v.fingerprint == f) ≡ false = elim (Bool-cases (v.fingerprint == f)) [
            | inr other ↦ other
            | inl same ↦
                let same' : v.fingerprint ≡ f = ground (arith, eq_iff v.fingerprint f) in
                let by_k : lookup v.fingerprint s.incident_id_by_fingerprint ≡ some k =
                  rw same' named in
                absurd (ground (arith, eq_iff j k, eq_iff k j))
          ] in
          rw by_j (ground (arith, removed_id), ground (arith, removed_time))
    ]

-- Eviction takes neither the newest incident's index entry nor its time away.
pub evict-newest_index :
    (d : Dict Incident) (s : IncidentService) (f k : String) (i : Incident)
    → 0 < s.max_incidents
    → lookup k d ≡ none
    → lookup f s.incident_id_by_fingerprint ≡ some k
    → let s' = evict (d ++ (k, i) ∷ []) s in
      (lookup f s'.incident_id_by_fingerprint ≡ some k)
      × (lookup f s'.last_seen_by_fingerprint ≡ lookup f s.last_seen_by_fingerprint)
unfolding evict
evict-newest_index [] s f k i positive new named =
    let room : ltb s.max_incidents 1 ≡ false = ground arith in rw room (named, refl)
evict-newest_index ((j, v) ∷ d) s f k i positive new named =
    let rest = d ++ (k, i) ∷ [] in
    elim (Bool-cases (ltb s.max_incidents (length ((j, v) ∷ rest)))) [
      | inr room ↦ rw room (named, refl)
      | inl full ↦
          let split = lookup-cons k j v d in
          let differs : (j == k) ≡ false = ground arith in
          let (named', times) = evict_one-index s f k j v rest differs named in
          let (named'', times') =
            evict-newest_index d (evict_one s j v rest) f k i
              (rw (evict_one-max s j v rest) positive) (ground arith) named' in
          rw full (named'', times' ∙ times)
    ]
