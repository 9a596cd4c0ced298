-- ===== src/Tests/Runs.antt =====
-- A measurement in a store of one run.
use telconet_sentinel.Common.{
  ℕ, none, some, List, [], ◌∷◌, ◌++◌, true, false, contains, ◌≡◌, refl, ◌↔◌, Memᴰ, any, last, sym,
  ap, subst, ◌∙◌,
}
use telconet_sentinel.Common.Dict.{lookup, insert, remove}
use telconet_sentinel.Common.Int.{pos}
use telconet_sentinel.Errors.{
  ok, err, ok-injective, duplicate_event, not_monotonic, not_injected_first, event_not_in_profile,
}
use telconet_sentinel.Convergence.{
  ConvergenceEventKind, blackhole_injected, bfd_down, ospf_neighbor_down, route_failover,
  data_plane_recovered, same_kind, Timestamp, ConvergenceEvent, ConvergenceRun, has_kind, kinds,
  same_set, required_events, status, validate_run, validate_event, ConvergenceStore, delete, expire,
  Creation, started_run, create_run, get, append_event, latest,
}
use telconet_sentinel.Convergence as Convergence
use telconet_sentinel.Convergence.Runs.{status-complete_iff}
use telconet_sentinel.Convergence.Valid.{IsRun, IsValid, new_store-IsValid}
use telconet_sentinel.Convergence.Store.{create_run-IsValid}
use telconet_sentinel.Convergence.Append.{append_event-IsValid}

abbrev pub now : Timestamp
now = record { at = 7; is_aware = true }

abbrev pub creation : Creation
creation = record { hex = "01"; now = now }

abbrev pub empty : ConvergenceStore
empty = record { capacity = 1; runs = []; order = [] }

abbrev pub run : ConvergenceRun
run = started_run creation "ospf_only" "acc-1" "svc-1" none

abbrev pub event : ConvergenceEventKind → ℕ → ConvergenceEvent
event kind offset_ms = record {
  kind = kind;
  offset_ms = pos offset_ms;
  observed_at = now;
  route_metric = some (pos 30);
  icmp_sequence = some (pos 4);
}

abbrev pub with_events : List ConvergenceEvent → ConvergenceRun
with_events es = record run { events = es }

abbrev pub holds : List ConvergenceEvent → ConvergenceStore
holds es = record { capacity = 1; runs = ("run-01", with_events es) ∷ []; order = "run-01" ∷ [] }

pub started : Convergence.new 1 ≡ ok empty
unfolding Convergence.new
started = refl

pub created : create_run empty creation "ospf_only" "acc-1" "svc-1" none ≡ ok (holds [], run)
unfolding create_run validate_run expire delete insert remove lookup
created = refl

abbrev pub first : ConvergenceEvent
first = event blackhole_injected 0

abbrev all_events : List ConvergenceEvent
all_events =
    first
    ∷ event ospf_neighbor_down 40
    ∷ event route_failover 40
    ∷ event data_plane_recovered 90
    ∷ []

pub appended :
    append_event (holds []) "run-01" first ≡ ok (holds (first ∷ []), with_events (first ∷ []))
unfolding append_event get validate_event required_events has_kind same_kind kinds any last lookup
    insert
appended = refl

refusals :
    (append_event (holds []) "run-01" (event route_failover 1) ≡ err not_injected_first)
    × (append_event (holds (first ∷ [])) "run-01" first
        ≡ err (duplicate_event "blackhole_injected"))
    × (append_event (holds (first ∷ [])) "run-01" (event bfd_down 1)
        ≡ err (event_not_in_profile "bfd_down"))
    × (append_event (holds (event blackhole_injected 5 ∷ [])) "run-01" (event ospf_neighbor_down 4)
        ≡ err not_monotonic)
unfolding append_event get validate_event required_events has_kind same_kind kinds any last lookup
    insert
refusals = (refl, refl, refl, refl)

complete : status (with_events all_events) ≡ ok "complete"
unfolding status required_events same_set has_kind same_kind kinds any lookup
complete = refl

empty-IsValid : IsValid empty
empty-IsValid = new_store-IsValid 1 empty started

pub id_is_new : contains "run-01" empty.order ≡ false
unfolding contains
id_is_new = refl

accepted : validate_run "ospf_only" "acc-1" "svc-1" now ≡ ok tt
unfolding validate_run lookup
accepted = refl

create_run-IsValid_example :
    (s : ConvergenceStore) × (create_run empty creation "ospf_only" "acc-1" "svc-1" none
      ≡ ok (s, run))
    × IsValid s
    × (get s "run-01" ≡ ok run)
    × (latest s ≡ ok (some run))
create_run-IsValid_example =
    create_run-IsValid empty creation "ospf_only" "acc-1" "svc-1" none empty-IsValid id_is_new
      accepted

holds-IsValid : IsValid (holds [])
holds-IsValid =
    let (s, made, is_valid, _, _) =
      create_run-IsValid empty creation "ospf_only" "acc-1" "svc-1" none empty-IsValid id_is_new
        accepted in
    let same : s ≡ holds [] = ap (λ p. p.0) (ok-injective (sym made ∙ created)) in
    subst IsValid same is_valid

append_event-IsValid_example :
    IsValid (holds (first ∷ []))
    × (get (holds (first ∷ [])) "run-01" ≡ ok (with_events (first ∷ [])))
    × ((r : ConvergenceRun) × (get (holds []) "run-01" ≡ ok r)
        × (first ∷ [] ≡ r.events ++ first ∷ []))
    × (append_event (holds (first ∷ [])) "run-01" first
        ≡ err (duplicate_event "blackhole_injected"))
append_event-IsValid_example =
    append_event-IsValid (holds []) (holds (first ∷ [])) "run-01" first (with_events (first ∷ []))
      appended holds-IsValid

first_run : IsRun (with_events (first ∷ []))
unfolding lookup
first_run =
    let (is_valid, _, _, _) =
      append_event-IsValid (holds []) (holds (first ∷ [])) "run-01" first (with_events (first ∷ []))
        appended holds-IsValid in
    is_valid.consistent.are_runs "run-01" (with_events (first ∷ [])) refl

status-complete_iff_example : (status (with_events (first ∷ [])) ≡ ok "complete") ↔ (
    (k : ConvergenceEventKind) → Memᴰ k first_run.required → has_kind k (kinds (first ∷ [])) ≡ true)
status-complete_iff_example =
    status-complete_iff (with_events (first ∷ [])) first_run.required first_run.of_profile
      first_run.trace
