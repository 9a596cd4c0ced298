-- ===== src/Service/Evict.antt =====
-- Eviction keeps the dictionaries consistent and brings the store within its bound.
use telconet_sentinel.Common.{
  suc, ◌<◌, String, true, none, some, [], ◌∷◌, ◌++◌, ◌≡◌, refl, ◌≢◌, sym, subst, ◌∙◌, ap, inl, inr,
  arith, length, length-append, drop, drop-suc, length-drop, ◌-◌, eq_iff, Bool-cases, ltb, ◌==◌,
  if◌then◌else◌,
}
use telconet_sentinel.Common.Dict.{
  Dict, lookup, lookup-remove, lookup-cons, lookup-tail, IsUniqueKeys, IsUniqueKeys-tail,
  lookup-drop,
}
use telconet_sentinel.Models.{Incident}
use telconet_sentinel.Service.{IncidentService, same_id, evict_one, evict}
use telconet_sentinel.Service.Valid.{IsConsistent, IsValid}

module _ (s : IncidentService) (k : String) (i : Incident) (rest : Dict Incident)
    (e : s.incidents ≡ (k, i) ∷ rest) (h : IsConsistent s) where
  unique : IsUniqueKeys ((k, i) ∷ rest)
  unique = subst IsUniqueKeys e h.unique

  lookup-rest : (j : String) → lookup j s.incidents ≡ (if k == j then some i else lookup j rest)
  lookup-rest j = rw (e, lookup-cons)

  rest-lookup : (j : String) (v : Incident) → lookup j rest ≡ some v → lookup j s.incidents ≡ some v
  rest-lookup j v p = rw e (lookup-tail j k i v rest unique p)

  -- An incident that the index still names is not the one evicted.
  kept :
      (f j : String) (v : Incident)
      → lookup j s.incidents ≡ some v
      → v.fingerprint ≡ f
      → lookup f s.incident_id_by_fingerprint ≡ some j
      → (same_id (lookup i.fingerprint s.incident_id_by_fingerprint) k ≡ true → i.fingerprint ≢ f)
      → lookup j rest ≡ some v
  kept f j v at_j print named differs = elim (Bool-cases (k == j)) [
    | inl same ↦
        let here : v ≡ i = ground (arith, lookup-rest j) in
        let print_i : i.fingerprint ≡ f = sym (ap (λ (x : Incident). x.fingerprint) here) ∙ print in
        let found : lookup i.fingerprint s.incident_id_by_fingerprint ≡ some j = rw print_i named in
        absurd (differs (rw found (ground (arith, eq_iff k j, eq_iff j k))) print_i)
    | inr other ↦ ground (arith, lookup-rest j)
  ]

  evict_one-IsConsistent : IsConsistent (evict_one s k i rest)
  unfolding evict_one
  evict_one-IsConsistent =
      let (rest_unique, _) = IsUniqueKeys-tail k i rest unique in
      elim (Bool-cases (same_id (lookup i.fingerprint s.incident_id_by_fingerprint) k)) [
        | inl named ↦ rw named (record {
          positive = h.positive;
          unique = rest_unique;
          own_id = λ j v p. h.own_id j v (rest-lookup j v p);
          indexed = λ f j p.
              let removed = lookup-remove f i.fingerprint s.incident_id_by_fingerprint in
              let differs : i.fingerprint ≢ f = λ same. ground (arith, eq_iff i.fingerprint f) in
              let there : lookup f s.incident_id_by_fingerprint ≡ some j = ground arith in
              let (v, at_j, print) = h.indexed f j there in
              (v, kept f j v at_j print there (λ _. differs), print);
          seen = λ f. ground (
            arith,
            h.seen f,
            lookup-remove f i.fingerprint s.incident_id_by_fingerprint,
            lookup-remove f i.fingerprint s.last_seen_by_fingerprint,
          );
        })
        | inr unnamed ↦ rw unnamed (record {
          positive = h.positive;
          unique = rest_unique;
          own_id = λ j v p. h.own_id j v (rest-lookup j v p);
          indexed = λ f j p.
              let (v, at_j, print) = h.indexed f j p in
              (v, kept f j v at_j print p (λ named. absurd (ground arith)), print);
          seen = h.seen;
        })
      ]

evict_one-incidents :
    (s : IncidentService) (k : String) (i : Incident) (rest : Dict Incident)
    → (evict_one s k i rest).incidents ≡ rest
unfolding evict_one
evict_one-incidents s k i rest = ground arith

pub evict_one-max :
    (s : IncidentService) (k : String) (i : Incident) (rest : Dict Incident)
    → (evict_one s k i rest).max_incidents ≡ s.max_incidents
unfolding evict_one
evict_one-max s k i rest = ground arith

-- The loop leaves the newest incidents, as many as the bound allows.
pub evict-drop :
    (d : Dict Incident) (s : IncidentService)
    → s.incidents ≡ d
    → (evict d s).incidents ≡ drop (length d - s.max_incidents) d
unfolding evict drop
evict-drop [] s e = let none_over : 0 - s.max_incidents ≡ 0 = omega arith in rw none_over e
evict-drop ((k, i) ∷ rest) s e = elim (Bool-cases (ltb s.max_incidents (length ((k, i) ∷ rest)))) [
  | inl full ↦ rw full (
      evict-drop rest (evict_one s k i rest) (evict_one-incidents s k i rest)
      ∙ ap (λ m. drop (length rest - m) rest) (evict_one-max s k i rest)
      ∙ drop-suc s.max_incidents (k, i) rest (ground arith))
  | inr room ↦
      let none_over : suc (length rest) - s.max_incidents ≡ 0 = ground arith in
      rw (room, none_over) e
]

pub evict-max :
    (d : Dict Incident) (s : IncidentService) → (evict d s).max_incidents ≡ s.max_incidents
unfolding evict
evict-max [] s = refl
evict-max ((k, i) ∷ rest) s =
    ground (arith, evict-max rest (evict_one s k i rest), evict_one-max s k i rest)

pub evict-IsConsistent :
    (d : Dict Incident) (s : IncidentService)
    → s.incidents ≡ d
    → IsConsistent s
    → IsConsistent (evict d s)
unfolding evict
evict-IsConsistent [] s e h = h
evict-IsConsistent ((k, i) ∷ rest) s e h =
    elim (Bool-cases (ltb s.max_incidents (length ((k, i) ∷ rest)))) [
      | inl full ↦ rw full (
          evict-IsConsistent rest (evict_one s k i rest) (evict_one-incidents s k i rest)
            (evict_one-IsConsistent s k i rest e h))
      | inr room ↦ rw room h
    ]

pub evict-IsValid : (s : IncidentService) → IsConsistent s → IsValid (evict s.incidents s)
evict-IsValid s h = record {
  consistent = evict-IsConsistent s.incidents s refl h;
  bounded =
      rw (evict-max s.incidents s, evict-drop s.incidents s refl)
        (omega
          (arith, length-drop (length s.incidents - s.max_incidents) s.incidents (omega arith)));
}

-- The incident stored last stays.
pub evict-newest :
    (s : IncidentService) (k : String) (i : Incident) (d : Dict Incident)
    → 0 < s.max_incidents
    → lookup k d ≡ none
    → s.incidents ≡ d ++ (k, i) ∷ []
    → lookup k (evict s.incidents s).incidents ≡ some i
evict-newest s k i d positive new e =
    rw (evict-drop s.incidents s refl, e)
      (lookup-drop (length (d ++ (k, i) ∷ []) - s.max_incidents) k i d new
        (omega (arith, length-append d ((k, i) ∷ []))))
