-- ===== src/Convergence.antt =====
-- convergence.py: the events and runs of a convergence measurement, and their store in memory. A
-- time says whether it has a zone. A run is changed in place by `append_event`, which is what the
-- store then shows. Calls hold the lock, so they follow one another.
pub mod Runs
pub mod Accepted
pub mod Valid
pub mod Store
pub mod Append
pub mod Database
pub mod Metrics
use telconet_sentinel.Common.{
  ℕ, String, Bool, true, false, not, ◌&&◌, ◌||◌, Option, none, some, List, [], ◌∷◌, ◌++◌, ◌==◌, ltb,
  nat_beq, if◌then◌else◌, length, is_empty, any, last, ◌<>◌, contains, map,
}
use telconet_sentinel.Common.Dict.{Dict, lookup, insert, remove, is_some, or_default}
use telconet_sentinel.Common.Int.{ℤ, pos, ltb_ℤ}
use telconet_sentinel.Errors.{
  Result, ok, err, ◌>>=◌, ◌>>◌, raise_if, or_raise, missing_key, unsupported_profile,
  event_not_in_profile, duplicate_event, run_not_found, empty_endpoint, naive_started_at,
  naive_observed_at, negative_offset, no_route_metric, no_icmp_sequence, not_injected_first,
  not_monotonic, capacity_not_positive,
}
use telconet_sentinel.Models.{Instant}

pub data ConvergenceEventKind : Type 0 where
  blackhole_injected bfd_down ospf_neighbor_down : ConvergenceEventKind
  route_failover data_plane_recovered : ConvergenceEventKind

abbrev pub value : ConvergenceEventKind → String
value blackhole_injected = "blackhole_injected"
value bfd_down = "bfd_down"
value ospf_neighbor_down = "ospf_neighbor_down"
value route_failover = "route_failover"
value data_plane_recovered = "data_plane_recovered"

-- `a is b`, for members of the enumeration, whose values differ
unfoldable pub same_kind : ConvergenceEventKind → ConvergenceEventKind → Bool
same_kind a b = value a == value b

abbrev pub required_events_by_profile : Dict (List ConvergenceEventKind)
required_events_by_profile =
    (
      "ospf_only",
      blackhole_injected ∷ ospf_neighbor_down ∷ route_failover ∷ data_plane_recovered ∷ [],
    )
    ∷ (
      "bfd_100x3",
      blackhole_injected ∷ bfd_down ∷ ospf_neighbor_down ∷ route_failover ∷ data_plane_recovered
          ∷ [],
    )
    ∷ []

pub record Timestamp : Type 0 where
  pub at : Instant
  pub is_aware : Bool

pub record ConvergenceEvent : Type 0 where
  pub kind : ConvergenceEventKind
  pub offset_ms : ℤ
  pub observed_at : Timestamp
  pub route_metric : Option ℤ
  pub icmp_sequence : Option ℤ

pub record ConvergenceRun : Type 0 where
  pub id : String
  pub profile : String
  pub source : String
  pub target : String
  pub started_at : Timestamp
  pub events : List ConvergenceEvent

unfoldable pub has_kind : ConvergenceEventKind → List ConvergenceEventKind → Bool
has_kind k = any (same_kind k)

unfoldable pub kinds : List ConvergenceEvent → List ConvergenceEventKind
kinds = map (λ (e : ConvergenceEvent). e.kind)

-- `recorded == required`, for two sets
unfoldable pub same_set : List ConvergenceEventKind → List ConvergenceEventKind → Bool
same_set recorded required =
    not (any (λ k. not (has_kind k required)) recorded)
    && not (any (λ k. not (has_kind k recorded)) required)

unfoldable pub required_events : String → Result (List ConvergenceEventKind)
required_events profile = or_raise (lookup profile required_events_by_profile) (missing_key profile)

unfoldable pub status : ConvergenceRun → Result String
status run = do
  required ← required_events run.profile
  ok (if same_set (kinds run.events) required then "complete" else "collecting")

unfoldable pub validate_run : String → String → String → Timestamp → Result (Unit {0})
validate_run profile source target started_at = do
  raise_if (not (is_some (lookup profile required_events_by_profile))) (unsupported_profile profile)
  raise_if ((source == "") || (target == "")) empty_endpoint
  raise_if (not started_at.is_aware) naive_started_at

-- `n is None or n < least`
abbrev pub is_below : ℕ → Option ℤ → Bool
is_below least none = true
is_below least (some n) = ltb_ℤ n (pos least)

-- The offset goes back behind the last one.
abbrev pub is_earlier : ℤ → Option ConvergenceEvent → Bool
is_earlier offset_ms none = false
is_earlier offset_ms (some recorded) = ltb_ℤ offset_ms recorded.offset_ms

unfoldable pub validate_event : ConvergenceRun → ConvergenceEvent → Result (Unit {0})
validate_event run event = do
  raise_if (ltb_ℤ event.offset_ms (pos 0)) negative_offset
  raise_if (not event.observed_at.is_aware) naive_observed_at
  raise_if (same_kind event.kind route_failover && is_below 1 event.route_metric) no_route_metric
  raise_if (same_kind event.kind data_plane_recovered && is_below 0 event.icmp_sequence)
      no_icmp_sequence
  required ← required_events run.profile
  raise_if (not (has_kind event.kind required)) (event_not_in_profile (value event.kind))
  raise_if (is_empty run.events && not (same_kind event.kind blackhole_injected)) not_injected_first
  raise_if (has_kind event.kind (kinds run.events)) (duplicate_event (value event.kind))
  raise_if (is_earlier event.offset_ms (last run.events)) not_monotonic

pub record ConvergenceStore : Type 0 where
  pub capacity : ℕ
  pub runs : Dict ConvergenceRun
  pub order : List String

unfoldable pub new : ℕ → Result ConvergenceStore
new capacity = do
  raise_if (ltb capacity 1) capacity_not_positive
  ok (record { capacity = capacity; runs = []; order = [] })

-- `d[k]` and `del d[k]`
unfoldable pub delete : String → Dict ConvergenceRun → Result (Dict ConvergenceRun)
delete k runs = do _ ← or_raise (lookup k runs) (missing_key k); ok (remove k runs)

-- The loop that lets the oldest runs expire, over the order of the store.
unfoldable pub expire : List String → ConvergenceStore → Result ConvergenceStore
expire [] s = ok s
expire (expired ∷ rest) s =
    let more =
      delete expired s.runs >>= λ runs. expire rest (record s { runs = runs; order = rest }) in
    if ltb s.capacity (length (expired ∷ rest)) then more else ok s

-- What a call of `create_run` is given from outside.
pub record Creation : Type 0 where
  pub hex : String
  pub now : Timestamp

abbrev pub started_run : Creation → String → String → String → Option Timestamp → ConvergenceRun
started_run creation profile source target started_at = record {
  id = "run-" <> creation.hex;
  profile = profile;
  source = source;
  target = target;
  started_at = or_default started_at creation.now;
  events = [];
}

unfoldable pub create_run :
    ConvergenceStore
    → Creation
    → String
    → String
    → String
    → Option Timestamp
    → Result (ConvergenceStore × ConvergenceRun)
create_run s creation profile source target started_at = do
  validate_run profile source target (or_default started_at creation.now)
  let run = started_run creation profile source target started_at
  let order = s.order ++ run.id ∷ []
  expired ← expire order (record s { runs = insert run.id run s.runs; order = order })
  ok (expired, run)

-- `_lookup`, which is `get`
unfoldable pub get : ConvergenceStore → String → Result ConvergenceRun
get s run_id = or_raise (lookup run_id s.runs) (run_not_found run_id)

unfoldable pub append_event :
    ConvergenceStore → String → ConvergenceEvent → Result (ConvergenceStore × ConvergenceRun)
append_event s run_id event = do
  run ← get s run_id
  validate_event run event
  let grown = record run { events = run.events ++ event ∷ [] }
  ok (record s { runs = insert run_id grown s.runs }, grown)

unfoldable pub latest : ConvergenceStore → Result (Option ConvergenceRun)
latest s = elim (last s.order) [
  | none ↦ ok none
  | some run_id ↦ or_raise (lookup run_id s.runs) (missing_key run_id) >>= λ run. ok (some run)
]
