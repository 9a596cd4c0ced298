-- ===== src/Service/Valid.antt =====
-- The invariant of the incident service: the three dictionaries agree, and the store is bounded.
use telconet_sentinel.Common.{ℕ, ◌≤◌, ◌<◌, String, some, [], ◌≡◌, arith, length, subst, sym, ap}
use telconet_sentinel.Common.Dict.{lookup, is_some, IsUniqueKeys, IsUniqueKeys-nil}
use telconet_sentinel.Common.Int.{ℤ}
use telconet_sentinel.Errors.{ok}
use telconet_sentinel.Models.{Incident}
use telconet_sentinel.Topology.{Topology}
use telconet_sentinel.Service.{IncidentService, new}

-- All but the bound, which does not hold while incidents are evicted.
pub record IsConsistent (s : IncidentService) : Type 0 where
  pub positive : 0 < s.max_incidents
  pub unique : IsUniqueKeys s.incidents
  pub own_id : (k : String) (i : Incident) → lookup k s.incidents ≡ some i → i.id ≡ k
  pub indexed :
      (f k : String)
      → lookup f s.incident_id_by_fingerprint ≡ some k
      → (i : Incident) × (lookup k s.incidents ≡ some i) × (i.fingerprint ≡ f)
  pub seen :
      (f : String)
      → is_some (lookup f s.last_seen_by_fingerprint)
        ≡ is_some (lookup f s.incident_id_by_fingerprint)

pub record IsValid (s : IncidentService) : Type 0 where
  pub consistent : IsConsistent s
  pub bounded : length s.incidents ≤ s.max_incidents

-- A service that the constructor returns is valid.
pub new_service-IsValid :
    (t : Topology) (window : ℤ) (max : ℕ) (s : IncidentService)
    → new t window max ≡ ok s
    → IsValid s
unfolding new lookup
new_service-IsValid t window max s h =
    let empty : s.incidents ≡ [] = ground arith in
    let no_index : s.incident_id_by_fingerprint ≡ [] = ground arith in
    let no_times : s.last_seen_by_fingerprint ≡ [] = ground arith in
    record {
      consistent = record {
        positive = ground arith;
        unique = subst IsUniqueKeys (sym empty) (IsUniqueKeys-nil Incident);
        own_id = λ k i p. absurd (ground (arith, empty, ap (lookup k) empty));
        indexed = λ f k p. absurd (ground (arith, ap (lookup f) no_index));
        seen = λ f. rw (no_index, no_times);
      };
      bounded = rw empty (ground arith);
    }
