-- ===== src/Telemetry/Store.antt =====
-- telemetry_store.py: the bounded store of snapshots in memory. The lock makes calls follow one
-- another.
pub mod Valid
pub mod Newest
pub mod Database
use telconet_sentinel.Common.{
  ℕ, String, Bool, true, false, not, ◌||◌, ◌&&◌, Option, none, some, List, [], ◌∷◌, ltb, leb,
  nat_beq, length, take, is_empty, keep_if, name_leb, sort, if◌then◌else◌, ◌==◌,
}
use telconet_sentinel.Common.Dict.{Dict, lookup, insert, values}
use telconet_sentinel.Common.Dict.Index.{index_by}
use telconet_sentinel.Errors.{
  Result, ok, err, ◌>>=◌, ◌>>◌, raise_if, capacity_not_positive, duplicate_snapshot,
}
use telconet_sentinel.Telemetry.{TelemetrySnapshot}
use telconet_sentinel.Telemetry.Same.{same_snapshot}

-- `_sort_key(a) <= _sort_key(b)`
unfoldable pub key_leb : TelemetrySnapshot → TelemetrySnapshot → Bool
key_leb a b =
    ltb a.observed_at b.observed_at
    || (nat_beq a.observed_at b.observed_at && name_leb a.snapshot_id b.snapshot_id)

-- The order of a sort with `reverse=True`: the newest first.
abbrev pub newest : TelemetrySnapshot → TelemetrySnapshot → Bool
newest a b = key_leb b a

abbrev pub snapshot_id_of : TelemetrySnapshot → String
snapshot_id_of s = s.snapshot_id

pub record TelemetryStore : Type 0 where
  pub capacity : ℕ
  pub snapshots : Dict TelemetrySnapshot

unfoldable pub new : ℕ → Result TelemetryStore
new capacity = do
  raise_if (ltb capacity 1) capacity_not_positive
  ok (record { capacity = capacity; snapshots = [] })

-- `min(snapshots, key=_sort_key)`, the first of the least, if there is one
unfoldable pub least_from : TelemetrySnapshot → List TelemetrySnapshot → TelemetrySnapshot
least_from best [] = best
least_from best (s ∷ rest) = least_from (if key_leb best s then best else s) rest

unfoldable pub oldest : List TelemetrySnapshot → Option TelemetrySnapshot
oldest [] = none
oldest (s ∷ rest) = some (least_from s rest)

-- A full store ignores a snapshot that is not newer than its oldest.
abbrev pub is_too_old : TelemetrySnapshot → Option TelemetrySnapshot → Bool
is_too_old s none = false
is_too_old s (some oldest_retained) = key_leb s oldest_retained

unfoldable pub retain : TelemetryStore → TelemetrySnapshot → TelemetryStore
retain store s = record store {
  snapshots =
      index_by snapshot_id_of
        (take store.capacity (sort newest (values (insert s.snapshot_id s store.snapshots))));
}

unfoldable pub save : TelemetryStore → TelemetrySnapshot → Result (TelemetryStore × Bool)
save store s = by_existing (lookup s.snapshot_id store.snapshots)
  where
    by_existing : Option TelemetrySnapshot → Result (TelemetryStore × Bool)
    by_existing (some existing) = do
      raise_if (not (same_snapshot existing s)) duplicate_snapshot
      ok (store, false)
    by_existing none =
        if leb store.capacity (length store.snapshots)
          && is_too_old s (oldest (values store.snapshots))
        then ok (store, false)
        else ok (retain store s, true)

-- The snapshots of a topology, or all of them.
abbrev pub matches : Option String → TelemetrySnapshot → Bool
matches none s = true
matches (some fingerprint) s = s.topology_fingerprint == fingerprint

unfoldable pub candidates : TelemetryStore → Option String → List TelemetrySnapshot
candidates store fingerprint = keep_if (matches fingerprint) (values store.snapshots)

-- `max(snapshots, key=_sort_key)`, the first of the greatest, if there is one
unfoldable pub greatest_from : TelemetrySnapshot → List TelemetrySnapshot → TelemetrySnapshot
greatest_from best [] = best
greatest_from best (s ∷ rest) = greatest_from (if key_leb s best then best else s) rest

unfoldable pub greatest : List TelemetrySnapshot → Option TelemetrySnapshot
greatest [] = none
greatest (s ∷ rest) = some (greatest_from s rest)

unfoldable pub latest : TelemetryStore → Option String → Option TelemetrySnapshot
latest store fingerprint = greatest (candidates store fingerprint)

unfoldable pub recent : TelemetryStore → Option String → List TelemetrySnapshot
recent store fingerprint = sort newest (candidates store fingerprint)
