-- ===== src/Telemetry/Store/Database/Refines.antt =====
-- The table answers as the store in memory does.
use mathlib.Core.List.Memᴰ
use telconet_sentinel.Common.{
  ℕ, zero, suc, ◌≤◌, String, Bool, true, false, ◌&&◌, Option, List, [], ◌∷◌, ◌++◌, map, Memᴰ, ◌≡◌,
  refl, sym, ap, subst, ◌∙◌, inl, inr, arith, leb, length, length-map, length-take, length-sort,
  take, keep_if, contains, all_distinct, Bool-cases, name_leb_total, name_leb_trans, sort,
  insert_sorted, IsOrdered, sort-IsOrdered, Memᴰ-sort,
}
use telconet_sentinel.Common.Keyed.{
  take-insert_sorted, take-append_one, take-all, sort-ordered, contains-sort, contains-take,
  insert_sorted-last, length-keep_if,
}
use telconet_sentinel.Common.Dict.{values}
use telconet_sentinel.Errors.{Result, ok, ◌>>=◌}
use telconet_sentinel.Telemetry.{TelemetrySnapshot}
use telconet_sentinel.Telemetry.Store.{
  TelemetryStore, key_leb, newest, snapshot_id_of, matches, candidates, new,
}
use telconet_sentinel.Telemetry.Store as Memory
use telconet_sentinel.Telemetry.Store.Valid.{ids, newest_total, newest_trans, newest_antisym}
use telconet_sentinel.Telemetry.Store.Newest.{
  saves, Filled, saves-Filled, new-Filled, first_snapshot, latest-eq-recent,
}
use telconet_sentinel.Telemetry.Store.Database.{
  SnapshotRow, SnapshotDatabase, row_leb, newest_row, payload_of, row_of, delete_others,
  open_database, select_payload, is_not_after, insert_row, save, load_recent, first_loaded, latest,
  recent,
}
use telconet_sentinel.Telemetry.Store.Database.Rows.{
  sort-row_of, left_by, delete_others-row_of, sort-left_by, all_distinct-keep_if,
  select_payload-none, payloads, IsOrdered-keep_if,
}

row_leb_total : (a b : SnapshotRow) → row_leb a b ≡ false → row_leb b a ≡ true
unfolding row_leb
row_leb_total a b h = ground (arith, name_leb_total a.snapshot_id b.snapshot_id)

row_leb_trans : (a b c : SnapshotRow) → row_leb a b ≡ true → row_leb b c ≡ true → row_leb a c ≡ true
unfolding row_leb
row_leb_trans a b c h k = ground (arith, name_leb_trans a.snapshot_id b.snapshot_id c.snapshot_id)

row_leb-row_of : (a b : TelemetrySnapshot) → row_leb (row_of a) (row_of b) ≡ key_leb a b
unfolding row_leb key_leb
row_leb-row_of a b = refl

-- A row that is not after the oldest row is before all rows.
before_all :
    (candidate : SnapshotRow) (rows : List SnapshotRow)
    → IsOrdered row_leb rows
    → is_not_after candidate rows ≡ true
    → (r : SnapshotRow) → Memᴰ r rows
    → row_leb candidate r ≡ true
before_all candidate [] ordered h r m = absurd (Memᴰ.not-nil m)
before_all candidate (oldest ∷ rest) ordered h r m = elim (Memᴰ.cases_cons m) [
  | inl same ↦ ap (row_leb candidate) same ∙ h
  | inr later ↦ row_leb_trans candidate oldest r h (ordered.0 r later)
]

before_snapshots :
    (x : TelemetrySnapshot) (xs : List TelemetrySnapshot)
    → is_not_after (row_of x) (sort row_leb (map row_of xs)) ≡ true
    → (y : TelemetrySnapshot) → Memᴰ y (sort newest xs)
    → newest y x ≡ true
before_snapshots x xs h y m =
    let listed : Memᴰ (row_of y) (sort row_leb (map row_of xs)) =
      (Memᴰ-sort row_leb (row_of y) (map row_of xs)).1
        (Memᴰ.map row_of ((Memᴰ-sort newest y xs).0 m)) in
    sym (row_leb-row_of x y)
    ∙ before_all (row_of x) (sort row_leb (map row_of xs))
        (sort-IsOrdered row_leb row_leb_total row_leb_trans (map row_of xs)) h (row_of y) listed

-- A table that was filled by saves of snapshots with different ids.
record Holds (cap : ℕ) (xs : List TelemetrySnapshot) (db : SnapshotDatabase) : Type 0 where
  pub held : List TelemetrySnapshot
  pub capacity : db.capacity ≡ cap
  pub rows : db.telemetry_snapshots ≡ map row_of held
  pub distinct : all_distinct (ids held) ≡ true
  pub top : sort newest held ≡ take cap (sort newest xs)

module _ (cap : ℕ) (xs : List TelemetrySnapshot) (x : TelemetrySnapshot) (db : SnapshotDatabase)
    (h : Holds cap xs db) (new_id : contains x.snapshot_id (ids xs) ≡ false) where
  new_in_sorted : contains x.snapshot_id (ids (sort newest h.held)) ≡ false
  new_in_sorted =
      ap (λ ys. contains x.snapshot_id (ids ys)) h.top
      ∙ contains-take newest snapshot_id_of cap x.snapshot_id (sort newest xs)
          (contains-sort newest snapshot_id_of x.snapshot_id xs ∙ new_id)

  new_in_held : contains x.snapshot_id (ids h.held) ≡ false
  new_in_held = sym (contains-sort newest snapshot_id_of x.snapshot_id h.held) ∙ new_in_sorted

  next_top :
      take cap (insert_sorted newest x (sort newest h.held)) ≡ take cap (sort newest (x ∷ xs))
  unfolding sort
  next_top =
      ap (λ ys. take cap (insert_sorted newest x ys)) h.top
      ∙ take-insert_sorted newest cap x (sort newest xs)

  insert_row-Holds : Holds cap (x ∷ xs) (insert_row db x)
  unfolding insert_row all_distinct sort
  insert_row-Holds =
      let together : all_distinct (ids (x ∷ h.held)) ≡ true =
        ground (arith, h.distinct, new_in_held) in
      record {
        held = left_by cap (x ∷ h.held);
        capacity = h.capacity;
        rows =
            ap (λ n. delete_others n (row_of x ∷ db.telemetry_snapshots)) h.capacity
            ∙ ap (λ rs. delete_others cap (row_of x ∷ rs)) h.rows
            ∙ delete_others-row_of cap (x ∷ h.held);
        distinct =
            all_distinct-keep_if
              (λ s. contains s.snapshot_id (ids (take cap (sort newest (x ∷ h.held))))) (x ∷ h.held)
              together;
        top = sort-left_by cap (x ∷ h.held) together ∙ next_top;
      }

  ignored-Holds :
      leb cap (length h.held) ≡ true
      → is_not_after (row_of x) (sort row_leb (map row_of h.held)) ≡ true
      → Holds cap (x ∷ xs) db
  ignored-Holds full old =
      let sorted = length-sort newest h.held in
      let kept = length-take cap (sort newest xs) in
      let same_length = ap length h.top in
      let all_there : length (sort newest h.held) ≡ cap =
        ground (arith, sorted, kept, same_length, full) in
      let at_end =
        insert_sorted-last newest newest_total newest_trans snapshot_id_of newest_antisym x
          (sort newest h.held) (before_snapshots x h.held old) new_in_sorted in
      record {
        held = h.held;
        capacity = h.capacity;
        rows = h.rows;
        distinct = h.distinct;
        top =
            sym (take-append_one (sort newest h.held) x)
            ∙ ap (λ n. take n (sort newest h.held ++ x ∷ [])) all_there
            ∙ ap (take cap) (sym at_end)
            ∙ next_top;
      }

  abbrev ignored : Bool
  ignored =
      leb db.capacity (length db.telemetry_snapshots)
      && is_not_after (row_of x) (sort row_leb db.telemetry_snapshots)

  save-Holds : (r : SnapshotDatabase × Bool) × (save db x ≡ ok r) × Holds cap (x ∷ xs) r.0
  unfolding save
  save-Holds =
      let missing =
        ap (select_payload x.snapshot_id) h.rows
        ∙ select_payload-none x.snapshot_id h.held new_in_held in
      let sized = ap length h.rows ∙ length-map row_of h.held in
      let first = ap (λ rs. is_not_after (row_of x) (sort row_leb rs)) h.rows in
      elim (Bool-cases ignored) [
        | inl old ↦ (
          (db, false),
          ground (arith, missing),
          ignored-Holds (ground (arith, sized, h.capacity)) (sym first ∙ ground arith),
        )
        | inr young ↦ ((insert_row db x, true), ground (arith, missing), insert_row-Holds)
      ]

-- The saves of some snapshots, from the last of the list to the first.
unfoldable pub table_saves : SnapshotDatabase → List TelemetrySnapshot → Result SnapshotDatabase
table_saves db [] = ok db
table_saves db (x ∷ xs) = table_saves db xs >>= λ d. save d x >>= λ r. ok r.0

table_saves-Holds :
    (cap : ℕ) (db : SnapshotDatabase) (xs : List TelemetrySnapshot)
    → Holds cap [] db
    → all_distinct (ids xs) ≡ true
    → (d : SnapshotDatabase) × (table_saves db xs ≡ ok d) × Holds cap xs d
unfolding table_saves all_distinct
table_saves-Holds cap db [] empty distinct = (db, refl, empty)
table_saves-Holds cap db (x ∷ xs) empty distinct =
    let (d, done, holds) = table_saves-Holds cap db xs empty (ground arith) in
    let (r, saved, after) = save-Holds cap xs x d holds (ground arith) in
    (r.0, rw (done, saved) refl, after)

take-nil : (n : ℕ) → take {A = TelemetrySnapshot} n [] ≡ []
take-nil zero = refl
take-nil (suc n) = refl

open_database-Holds :
    (cap : ℕ) (db : SnapshotDatabase) → open_database cap [] ≡ ok db → Holds cap [] db
unfolding open_database delete_others keep_if sort all_distinct
open_database-Holds cap db made =
    let same : record { capacity = cap; telemetry_snapshots = [] } ≡ db = ground arith in
    subst (Holds cap []) same (record {
      held = [];
      capacity = refl;
      rows = refl;
      distinct = refl;
      top = sym (take-nil cap);
    })

-- What a table answers, from the snapshots it holds.
load_recent-top :
    (cap : ℕ) (xs : List TelemetrySnapshot) (db : SnapshotDatabase)
    → Holds cap xs db
    → (limit : ℕ) (fingerprint : Option String)
    → load_recent db limit fingerprint
      ≡ take limit (keep_if (matches fingerprint) (take cap (sort newest xs)))
unfolding load_recent
load_recent-top cap xs db h limit fingerprint =
    ap (λ ys. take limit (keep_if (matches fingerprint) ys))
      (ap (λ rs. map payload_of (sort newest_row rs)) h.rows
        ∙ ap (map payload_of) (sort-row_of h.held)
        ∙ payloads (sort newest h.held)
        ∙ h.top)

memory_recent-top :
    (cap : ℕ) (xs : List TelemetrySnapshot) (s : TelemetryStore)
    → Filled cap xs s
    → (fingerprint : Option String)
    → Memory.recent s fingerprint ≡ keep_if (matches fingerprint) (take cap (sort newest xs))
unfolding Memory.recent candidates
memory_recent-top cap xs s filled fingerprint =
    sort-ordered newest (keep_if (matches fingerprint) (values s.snapshots)) (
      IsOrdered-keep_if newest newest_total newest_trans (matches fingerprint) (values s.snapshots)
        filled.valid.ordered)
    ∙ ap (keep_if (matches fingerprint)) filled.top

first_loaded-take : (xs : List TelemetrySnapshot) → first_loaded (take 1 xs) ≡ first_snapshot xs
first_loaded-take [] = refl
first_loaded-take (x ∷ xs) = refl

-- Saves of snapshots with different ids to a new store in memory and to a new table of the same
-- capacity all return, and then both answer the same, for any topology: the latest snapshot and the
-- recent ones.
pub save-Refines :
    (cap : ℕ) (s : TelemetryStore) (db : SnapshotDatabase) (xs : List TelemetrySnapshot)
    → new cap ≡ ok s
    → open_database cap [] ≡ ok db
    → all_distinct (ids xs) ≡ true
    → (t : TelemetryStore) × (d : SnapshotDatabase) × (saves s xs ≡ ok t)
      × (table_saves db xs ≡ ok d)
      × ((fingerprint : Option String)
          → (recent d fingerprint ≡ Memory.recent t fingerprint)
            × (latest d fingerprint ≡ Memory.latest t fingerprint))
unfolding recent latest
save-Refines cap s db xs made opened distinct =
    let (t, done, filled) = saves-Filled cap s xs (new-Filled cap s made) distinct in
    let (d, done', holds) =
      table_saves-Holds cap db xs (open_database-Holds cap db opened) distinct in
    (
      t,
      d,
      done,
      done',
      λ fingerprint.
          let top = take cap (sort newest xs) in
          let few : length (keep_if (matches fingerprint) top) ≤ cap =
            omega
              (arith, length-keep_if (matches fingerprint) top, length-take cap (sort newest xs)) in
          let in_memory = memory_recent-top cap xs t filled fingerprint in
          (
            ap (λ n. load_recent d n fingerprint) holds.capacity
                ∙ load_recent-top cap xs d holds cap fingerprint
                ∙ take-all cap (keep_if (matches fingerprint) top) few
                ∙ sym in_memory,
            ap first_loaded (load_recent-top cap xs d holds 1 fingerprint)
                ∙ first_loaded-take (keep_if (matches fingerprint) top)
                ∙ ap first_snapshot (sym in_memory)
                ∙ sym (latest-eq-recent t fingerprint),
          ),
    )
