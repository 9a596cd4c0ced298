-- ===== src/Convergence/Database/Refines.antt =====
-- The database stands for the store in memory: the relation, and the two reading operations.
use telconet_sentinel.Common.{
  String, true, false, none, some, List, [], ◌∷◌, Memᴰ, ◌≡◌, refl, sym, ap, ◌∙◌, ◌⊎◌, inl, inr,
  arith, last, contains, contains-cons, Option-cases, eq_iff,
}
use telconet_sentinel.Common.Dict.{lookup}
use telconet_sentinel.Errors.{Result, ok, err, ◌>>=◌, run_not_found}
use telconet_sentinel.Convergence.{
  ConvergenceEventKind, blackhole_injected, bfd_down, ospf_neighbor_down, route_failover,
  data_plane_recovered, value, ConvergenceEvent, ConvergenceRun, ConvergenceStore, get,
}
use telconet_sentinel.Convergence as Memory
use telconet_sentinel.Convergence.Valid.{IsValid}
use telconet_sentinel.Convergence.Store.{get-value, latest-value, contains-last}
use telconet_sentinel.Convergence.Append.{latest-none}
use telconet_sentinel.Convergence.Database.{
  RunRow, EventRow, Database, ids, kind_of, load_event, select_run, load, latest, event_row,
}

-- The tables hold the runs of the store, in its order, and no events of others.
pub record Refines (db : Database) (s : ConvergenceStore) : Type 0 where
  pub is_valid : IsValid s
  pub same_capacity : db.capacity ≡ s.capacity
  pub same_order : ids db.convergence_runs ≡ s.order
  pub same_runs : (k : String) → contains k s.order ≡ true → load db k ≡ get s k
  pub owned :
      (row : EventRow)
      → Memᴰ row db.convergence_events
      → contains row.run_id (ids db.convergence_runs) ≡ true

-- The same error, or the same run and states that stand for each other.
abbrev pub Simulates :
    Result (Database × ConvergenceRun) → Result (ConvergenceStore × ConvergenceRun) → Type 0
Simulates (err x) (err y) = x ≡ y
Simulates (ok (db, run)) (ok (s, run')) = Refines db s × (run ≡ run')
Simulates (err x) (ok p) = ⊥
Simulates (ok p) (err y) = ⊥

select_run-none :
    (k : String) (rows : List RunRow) → contains k (ids rows) ≡ false → select_run k rows ≡ none
unfolding select_run
select_run-none k [] h = refl
select_run-none k (row ∷ rows) h =
    ground (arith, select_run-none k rows, contains-cons k row.id (ids rows))

pub load-missing :
    (db : Database) (k : String)
    → contains k (ids db.convergence_runs) ≡ false
    → load db k ≡ err (run_not_found k)
unfolding load
load-missing db k h = rw (select_run-none k db.convergence_runs h) refl

last-ids :
    (rows : List RunRow)
    → ((last rows ≡ none) × (last (ids rows) ≡ none))
      ⊎ ((row : RunRow) × (last rows ≡ some row) × (last (ids rows) ≡ some row.id))
unfolding last
last-ids [] = inl (refl, refl)
last-ids (row ∷ []) = inr (row, refl, refl)
last-ids (row ∷ next ∷ rows) = last-ids (next ∷ rows)

latest-none_row : (db : Database) → last db.convergence_runs ≡ none → latest db ≡ ok none
unfolding latest
latest-none_row db h = ground arith

latest_row :
    (db : Database) (row : RunRow)
    → last db.convergence_runs ≡ some row
    → latest db ≡ (load db row.id >>= λ run. ok (some run))
unfolding latest
latest_row db row h = ground arith

-- The latest run of a database that stands for a store in memory is the latest of that store.
pub latest-eq-latest :
    (db : Database) (s : ConvergenceStore) → Refines db s → latest db ≡ Memory.latest s
latest-eq-latest db s h = elim (last-ids db.convergence_runs) [
  | inl (no_row, no_id) ↦
      let nothing = latest-none s (ap last (sym h.same_order) ∙ no_id) in
      latest-none_row db no_row ∙ sym nothing
  | inr (row, is_row, is_id) ↦
      let is_last : last s.order ≡ some row.id = ap last (sym h.same_order) ∙ is_id in
      let listed = contains-last row.id s.order is_last in
      elim (Option-cases (lookup row.id s.runs)) [
        | inl missing ↦ absurd (ground (arith, h.is_valid.consistent.stored row.id))
        | inr (run, there) ↦
            let loaded = h.same_runs row.id listed ∙ get-value s row.id run there in
            let newest = latest-value s row.id run is_last there in
            latest_row db row is_row ∙ ap (λ r. r >>= λ run. ok (some run)) loaded ∙ sym newest
      ]
]

pub kind_of-value : (k : ConvergenceEventKind) → kind_of (value k) ≡ ok k
unfolding kind_of lookup
kind_of-value blackhole_injected = refl
kind_of-value bfd_down = refl
kind_of-value ospf_neighbor_down = refl
kind_of-value route_failover = refl
kind_of-value data_plane_recovered = refl

-- A text that is read as a kind is that kind's value.
pub value-kind_of :
    (text : String) (k : ConvergenceEventKind) → kind_of text ≡ ok k → value k ≡ text
unfolding kind_of lookup
value-kind_of text k h = ground (
  arith,
  eq_iff "blackhole_injected" text,
  eq_iff "bfd_down" text,
  eq_iff "ospf_neighbor_down" text,
  eq_iff "route_failover" text,
  eq_iff "data_plane_recovered" text,
)

-- What is written of an event is read as that event.
pub load_event-event_row :
    (run_id : String) (e : ConvergenceEvent) → load_event (event_row run_id e) ≡ ok e
unfolding load_event
load_event-event_row run_id e = rw (kind_of-value e.kind) refl
