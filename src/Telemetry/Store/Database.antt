-- ===== src/Telemetry/Store/Database.antt =====
-- telemetry_store.py: the store of snapshots in a table. A row keeps the time as an instant, whose
-- texts have the order of the instants, and the payload as the snapshot that its JSON text is read
-- into. A connection that fails rolls back, so that a save which raises leaves the table alone.
pub mod Rows
pub mod Refines
use telconet_sentinel.Common.{
  ℕ, String, Bool, true, false, not, ◌||◌, ◌&&◌, Option, none, some, List, [], ◌∷◌, map, ltb, leb,
  nat_beq, length, take, keep_if, contains, name_leb, sort, if◌then◌else◌, ◌==◌,
}
use telconet_sentinel.Errors.{
  Result, ok, err, ◌>>=◌, ◌>>◌, raise_if, capacity_not_positive, duplicate_snapshot,
}
use telconet_sentinel.Models.{Instant}
use telconet_sentinel.Telemetry.{TelemetrySnapshot}
use telconet_sentinel.Telemetry.Same.{same_snapshot}
use telconet_sentinel.Telemetry.Store.{matches}

pub record SnapshotRow : Type 0 where
  pub snapshot_id : String
  pub observed_at : Instant
  pub payload : TelemetrySnapshot

pub record SnapshotDatabase : Type 0 where
  pub capacity : ℕ
  pub telemetry_snapshots : List SnapshotRow

-- `ORDER BY observed_at ASC, snapshot_id ASC`, and `DESC`
unfoldable pub row_leb : SnapshotRow → SnapshotRow → Bool
row_leb a b =
    ltb a.observed_at b.observed_at
    || (nat_beq a.observed_at b.observed_at && name_leb a.snapshot_id b.snapshot_id)

abbrev pub newest_row : SnapshotRow → SnapshotRow → Bool
newest_row a b = row_leb b a

abbrev pub row_id : SnapshotRow → String
row_id r = r.snapshot_id

abbrev pub payload_of : SnapshotRow → TelemetrySnapshot
payload_of r = r.payload

abbrev pub row_of : TelemetrySnapshot → SnapshotRow
row_of s = record { snapshot_id = s.snapshot_id; observed_at = s.observed_at; payload = s }

-- `_prune`
unfoldable pub retained_ids : ℕ → List SnapshotRow → List String
retained_ids capacity rows = map row_id (take capacity (sort newest_row rows))

unfoldable pub delete_others : ℕ → List SnapshotRow → List SnapshotRow
delete_others capacity rows =
    keep_if (λ (r : SnapshotRow). contains r.snapshot_id (retained_ids capacity rows)) rows

-- The constructor, on the rows that the table has.
unfoldable pub open_database : ℕ → List SnapshotRow → Result SnapshotDatabase
open_database capacity rows = do
  raise_if (ltb capacity 1) capacity_not_positive
  ok (record { capacity = capacity; telemetry_snapshots = delete_others capacity rows })

-- `SELECT payload ... WHERE snapshot_id = ?`
unfoldable pub select_payload : String → List SnapshotRow → Option TelemetrySnapshot
select_payload id [] = none
select_payload id (r ∷ rs) = if r.snapshot_id == id then some r.payload else select_payload id rs

-- `... ASC LIMIT 1`, against the key of the candidate
abbrev pub is_not_after : SnapshotRow → List SnapshotRow → Bool
is_not_after candidate [] = false
is_not_after candidate (oldest ∷ rest) = row_leb candidate oldest

-- A table has no order, and a new row comes first here.
unfoldable pub insert_row : SnapshotDatabase → TelemetrySnapshot → SnapshotDatabase
insert_row db s = record db {
  telemetry_snapshots = delete_others db.capacity (row_of s ∷ db.telemetry_snapshots);
}

unfoldable pub save : SnapshotDatabase → TelemetrySnapshot → Result (SnapshotDatabase × Bool)
save db s = by_row (select_payload s.snapshot_id db.telemetry_snapshots)
  where
    by_row : Option TelemetrySnapshot → Result (SnapshotDatabase × Bool)
    by_row (some existing) = do
      raise_if (not (same_snapshot existing s)) duplicate_snapshot
      ok (db, false)
    by_row none =
        if leb db.capacity (length db.telemetry_snapshots)
          && is_not_after (row_of s) (sort row_leb db.telemetry_snapshots)
        then ok (db, false)
        else ok (insert_row db s, true)

unfoldable pub load_recent : SnapshotDatabase → ℕ → Option String → List TelemetrySnapshot
load_recent db limit fingerprint =
    take limit
      (keep_if (matches fingerprint) (map payload_of (sort newest_row db.telemetry_snapshots)))

abbrev pub first_loaded : List TelemetrySnapshot → Option TelemetrySnapshot
first_loaded [] = none
first_loaded (s ∷ rest) = some s

unfoldable pub latest : SnapshotDatabase → Option String → Option TelemetrySnapshot
latest db fingerprint = first_loaded (load_recent db 1 fingerprint)

unfoldable pub recent : SnapshotDatabase → Option String → List TelemetrySnapshot
recent db fingerprint = load_recent db db.capacity fingerprint
