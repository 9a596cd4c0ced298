-- ===== src/Tests/Snapshots.antt =====
-- An observation of a router, and two stores of two snapshots to which three are saved.
use telconet_sentinel.Common.{
  ℕ, String, true, false, none, some, Option, List, [], ◌∷◌, ◌≡◌, refl, take, sort, insert_sorted,
  keep_if, contains, all_distinct,
}
use telconet_sentinel.Errors.{ok}
use telconet_sentinel.Telemetry.{
  InterfaceTelemetry, RouterTelemetry, TelemetrySnapshot, up, unknown,
}
use telconet_sentinel.Telemetry.Store.{TelemetryStore, newest, key_leb, new, recent}
use telconet_sentinel.Telemetry.Store as Memory
use telconet_sentinel.Telemetry.Store.Valid.{ids}
use telconet_sentinel.Telemetry.Store.Newest.{saves, first_snapshot, saves-Newest, latest-eq-recent}
use telconet_sentinel.Telemetry.Store.Database.{SnapshotDatabase, open_database, delete_others}
use telconet_sentinel.Telemetry.Store.Database as Database
use telconet_sentinel.Telemetry.Store.Database.Refines.{table_saves, save-Refines}

abbrev pub port : String → InterfaceTelemetry
port name = record {
  name = name;
  state = up;
  rx_bytes = 10;
  tx_bytes = 20;
  rx_drops = 0;
  tx_drops = 0;
}

abbrev pub router : RouterTelemetry
router = record {
  name = "access1";
  collection_success = true;
  state = up;
  collection_error = none;
  interfaces = port "eth1" ∷ port "eth2" ∷ [];
  ospf_neighbors = record { neighbor = "agg1"; interface = "eth1"; state = up } ∷ [];
  bfd_peers =
      record { peer = "agg1"; interface = "eth1"; configured = false; state = unknown } ∷ [];
  routes =
      record {
        prefix = "192.0.2.1/32";
        present = true;
        metric = some 20;
        egress_interface = some "eth1";
      }
      ∷ [];
}

abbrev shot : String → ℕ → TelemetrySnapshot
shot id at = record {
  snapshot_id = id;
  observed_at = at;
  topology_fingerprint = "f";
  routers = router ∷ [];
}

abbrev shots : List TelemetrySnapshot
shots = shot "c" 5 ∷ shot "b" 7 ∷ shot "a" 3 ∷ []

abbrev store : TelemetryStore
store = record { capacity = 2; snapshots = [] }

store_new : new 2 ≡ ok store
unfolding new
store_new = refl

different : all_distinct (ids shots) ≡ true
unfolding all_distinct contains
different = refl

newest_two : take 2 (sort newest shots) ≡ shot "b" 7 ∷ shot "c" 5 ∷ []
unfolding sort insert_sorted key_leb
newest_two = refl

saves-Newest_example :
    (t : TelemetryStore) × (saves store shots ≡ ok t) × (recent t none ≡ take 2 (sort newest shots))
saves-Newest_example = saves-Newest 2 store shots store_new different

abbrev filled : TelemetryStore
filled = record { capacity = 2; snapshots = ("b", shot "b" 7) ∷ ("c", shot "c" 5) ∷ [] }

latest-eq-recent_example :
    Memory.latest filled (some "f") ≡ first_snapshot (recent filled (some "f"))
latest-eq-recent_example = latest-eq-recent filled (some "f")

abbrev table : SnapshotDatabase
table = record { capacity = 2; telemetry_snapshots = [] }

table_open : open_database 2 [] ≡ ok table
unfolding open_database delete_others keep_if
table_open = refl

save-Refines_example :
    (t : TelemetryStore) × (d : SnapshotDatabase) × (saves store shots ≡ ok t)
    × (table_saves table shots ≡ ok d)
    × ((fingerprint : Option String)
        → (Database.recent d fingerprint ≡ recent t fingerprint)
          × (Database.latest d fingerprint ≡ Memory.latest t fingerprint))
save-Refines_example = save-Refines 2 store table shots store_new table_open different
