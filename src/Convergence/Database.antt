-- ===== src/Convergence/Database.antt =====
-- convergence.py: the store in a database, `SQLiteConvergenceStore`. A table is the list of its rows
-- in the order of `sequence`, which grows with each row that is added. A call is one transaction: one
-- that raises leaves the tables as they were. A time is kept as it was written.
pub mod Refines
pub mod Opens
pub mod Appends
pub mod AppendStep
pub mod Creates
pub mod CreateStep
use telconet_sentinel.Common.{
  ℕ, String, Bool, true, false, not, ◌&&◌, ◌||◌, Option, none, some, List, [], ◌∷◌, ◌++◌, ◌-◌, ◌==◌,
  ltb, if◌then◌else◌, length, any, last, drop, keep_if, contains, map,
}
use telconet_sentinel.Common.Dict.{lookup, or_default}
use telconet_sentinel.Common.Int.{ℤ, pos, ltb_ℤ}
use telconet_sentinel.Errors.{
  Result, ok, err, ◌>>=◌, ◌>>◌, raise_if, or_raise, map_result, run_not_found,
  capacity_not_positive, integrity_error, unknown_kind,
}
use telconet_sentinel.Convergence.{
  ConvergenceEventKind, blackhole_injected, bfd_down, ospf_neighbor_down, route_failover,
  data_plane_recovered, value, Timestamp, ConvergenceEvent, ConvergenceRun, validate_run,
  validate_event, Creation, started_run,
}

pub record RunRow : Type 0 where
  pub id : String
  pub profile : String
  pub source : String
  pub target : String
  pub started_at : Timestamp

pub record EventRow : Type 0 where
  pub run_id : String
  pub kind : String
  pub offset_ms : ℤ
  pub observed_at : Timestamp
  pub route_metric : Option ℤ
  pub icmp_sequence : Option ℤ

pub record Database : Type 0 where
  pub capacity : ℕ
  pub convergence_runs : List RunRow
  pub convergence_events : List EventRow

abbrev pub ids : List RunRow → List String
ids [] = []
ids (row ∷ rows) = row.id ∷ ids rows

-- `ConvergenceEventKind(text)`
unfoldable pub kind_of : String → Result ConvergenceEventKind
kind_of text =
    or_raise
      (lookup text (
        ("blackhole_injected", blackhole_injected)
        ∷ ("bfd_down", bfd_down)
        ∷ ("ospf_neighbor_down", ospf_neighbor_down)
        ∷ ("route_failover", route_failover)
        ∷ ("data_plane_recovered", data_plane_recovered)
        ∷ []))
      unknown_kind

-- `DELETE` of the rows that are not among the newest, and of the events of the runs that go.
unfoldable pub prune : Database → Database
prune db =
    let newest = drop (length db.convergence_runs - db.capacity) db.convergence_runs in
    record db {
      convergence_runs = newest;
      convergence_events = keep_if (λ row. contains row.run_id (ids newest)) db.convergence_events;
    }

-- The constructor, for the tables that the file holds.
unfoldable pub open_store : ℕ → List RunRow → List EventRow → Result Database
open_store capacity runs events = do
  raise_if (ltb capacity 1) capacity_not_positive
  ok (prune (record { capacity = capacity; convergence_runs = runs; convergence_events = events }))

abbrev pub run_row : ConvergenceRun → RunRow
run_row run = record {
  id = run.id;
  profile = run.profile;
  source = run.source;
  target = run.target;
  started_at = run.started_at;
}

unfoldable pub insert_run : Database → ConvergenceRun → Result Database
insert_run db run = do
  raise_if (contains run.id (ids db.convergence_runs)) integrity_error
  ok (record db { convergence_runs = db.convergence_runs ++ run_row run ∷ [] })

unfoldable pub create_run :
    Database
    → Creation
    → String
    → String
    → String
    → Option Timestamp
    → Result (Database × ConvergenceRun)
create_run db creation profile source target started_at = do
  validate_run profile source target (or_default started_at creation.now)
  let run = started_run creation profile source target started_at
  inserted ← insert_run db run
  ok (prune inserted, run)

unfoldable pub load_event : EventRow → Result ConvergenceEvent
load_event row = do
  kind ← kind_of row.kind
  ok (record {
    kind = kind;
    offset_ms = row.offset_ms;
    observed_at = row.observed_at;
    route_metric = row.route_metric;
    icmp_sequence = row.icmp_sequence;
  })

-- `SELECT ... WHERE id = ?`, which has one row at most
unfoldable pub select_run : String → List RunRow → Option RunRow
select_run run_id [] = none
select_run run_id (row ∷ rows) = if row.id == run_id then some row else select_run run_id rows

unfoldable pub select_events : String → List EventRow → List EventRow
select_events run_id = keep_if (λ row. row.run_id == run_id)

unfoldable pub load : Database → String → Result ConvergenceRun
load db run_id = do
  row ← or_raise (select_run run_id db.convergence_runs) (run_not_found run_id)
  events ← map_result load_event (select_events run_id db.convergence_events)
  ok (record {
    id = row.id;
    profile = row.profile;
    source = row.source;
    target = row.target;
    started_at = row.started_at;
    events = events;
  })

abbrev pub event_row : String → ConvergenceEvent → EventRow
event_row run_id event = record {
  run_id = run_id;
  kind = value event.kind;
  offset_ms = event.offset_ms;
  observed_at = event.observed_at;
  route_metric = event.route_metric;
  icmp_sequence = event.icmp_sequence;
}

-- `INSERT`, with the table's constraints
unfoldable pub insert_event : Database → String → ConvergenceEvent → Result Database
insert_event db run_id event = do
  raise_if (ltb_ℤ event.offset_ms (pos 0)) integrity_error
  raise_if
      (any (λ row. (row.run_id == run_id) && (row.kind == value event.kind)) db.convergence_events)
      integrity_error
  raise_if (not (contains run_id (ids db.convergence_runs))) integrity_error
  ok (record db { convergence_events = db.convergence_events ++ event_row run_id event ∷ [] })

unfoldable pub append_event :
    Database → String → ConvergenceEvent → Result (Database × ConvergenceRun)
append_event db run_id event = do
  run ← load db run_id
  validate_event run event
  inserted ← insert_event db run_id event
  ok (inserted, record run { events = run.events ++ event ∷ [] })

unfoldable pub latest : Database → Result (Option ConvergenceRun)
latest db = elim (last db.convergence_runs) [
  | none ↦ ok none
  | some row ↦ load db row.id >>= λ run. ok (some run)
]
