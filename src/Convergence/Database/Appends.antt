-- ===== src/Convergence/Database/Appends.antt =====
-- What `append_event` of the database does to its tables.
use mathlib.Core.List.Memᴰ
use telconet_sentinel.Common.{
  String, true, false, ◌&&◌, some, List, [], ◌∷◌, ◌++◌, ◌==◌, Memᴰ-keep_if, ◌≡◌, refl, sym, ap, ◌∙◌,
  inl, inr, arith, if◌then◌else◌, any, any-mem, any_of_mem, keep_if, map, contains, Bool-cases,
  eq_iff, eq_refl,
}
use telconet_sentinel.Common.Int.{pos, ltb_ℤ}
use telconet_sentinel.Errors.{
  Result, ok, >>=-eq-ok, ok-injective, or_raise, or_raise-eq-ok, map_result, map_result-target,
  run_not_found,
}
use telconet_sentinel.Convergence.{
  ConvergenceEventKind, value, same_kind, ConvergenceEvent, ConvergenceRun, has_kind, kinds,
  validate_event,
}
use telconet_sentinel.Convergence.Accepted.{validate_event-IsAccepted}
use telconet_sentinel.Convergence.Database.{
  RunRow, EventRow, Database, ids, load_event, select_run, select_events, load, insert_event,
  append_event, event_row, kind_of,
}
use telconet_sentinel.Convergence.Database.Refines.{load_event-event_row, value-kind_of}

map_result-append {ℓ κ} :
    {A : Type ℓ} {B : Type κ} (f : A → Result B) (xs : List A) (ys : List B) (x : A) (y : B)
    → map_result f xs ≡ ok ys
    → f x ≡ ok y
    → map_result f (xs ++ x ∷ []) ≡ ok (ys ++ y ∷ [])
unfolding map_result
map_result-append f [] ys x y h k =
    let none_yet : [] ≡ ys = ok-injective h in rw (k, ← none_yet) refl
map_result-append f (w ∷ ws) ys x y h k =
    let (z, made, h₁) = >>=-eq-ok (f w) _ h in
    let (zs, rest, h₂) = >>=-eq-ok (map_result f ws) _ h₁ in
    let split : z ∷ zs ≡ ys = ok-injective h₂ in
    rw (made, map_result-append f ws zs x y rest k, ← split) refl

select_events-append :
    (k j : String) (rows : List EventRow) (e : ConvergenceEvent)
    → select_events j (rows ++ event_row k e ∷ [])
      ≡ (if k == j then select_events j rows ++ event_row k e ∷ [] else select_events j rows)
unfolding select_events keep_if
select_events-append k j [] e = ground arith
select_events-append k j (row ∷ rows) e = ground (arith, select_events-append k j rows e)

-- The parts of a run that is read.
load-parts :
    (db : Database) (k : String) (run : ConvergenceRun)
    → load db k ≡ ok run
    → (row : RunRow) × (select_run k db.convergence_runs ≡ some row)
      × (map_result load_event (select_events k db.convergence_events) ≡ ok run.events)
      × (run ≡ record {
        id = row.id;
        profile = row.profile;
        source = row.source;
        target = row.target;
        started_at = row.started_at;
        events = run.events;
      })
unfolding load
load-parts db k run h =
    let (row, selected, h₁) =
      >>=-eq-ok (or_raise (select_run k db.convergence_runs) (run_not_found k)) _ h in
    let (es, read, h₂) =
      >>=-eq-ok (map_result load_event (select_events k db.convergence_events)) _ h₁ in
    let same = ok-injective h₂ in
    let same_events : es ≡ run.events = ap (λ (r : ConvergenceRun). r.events) same in
    (
      row,
      or_raise-eq-ok (select_run k db.convergence_runs) (run_not_found k) row selected,
      read ∙ ap ok same_events,
      sym same
          ∙ ap
              (λ es. record {
                id = row.id;
                profile = row.profile;
                source = row.source;
                target = row.target;
                started_at = row.started_at;
                events = es;
              })
              same_events,
    )

load_event-kind :
    (row : EventRow) (e : ConvergenceEvent) → load_event row ≡ ok e → value e.kind ≡ row.kind
unfolding load_event
load_event-kind row e h =
    let (kind, read, h₁) = >>=-eq-ok (kind_of row.kind) _ h in
    ap (λ (e : ConvergenceEvent). value e.kind) (sym (ok-injective h₁))
    ∙ value-kind_of row.kind kind read

-- The table has no row of a kind that the run has no event of.
no_duplicate :
    (rows : List EventRow) (k : String) (es : List ConvergenceEvent) (kind : ConvergenceEventKind)
    → map_result load_event (select_events k rows) ≡ ok es
    → has_kind kind (kinds es) ≡ false
    → any (λ (row : EventRow). (row.run_id == k) && (row.kind == value kind)) rows ≡ false
unfolding select_events has_kind same_kind kinds
no_duplicate rows k es kind read new =
    elim (Bool-cases
      (any (λ (row : EventRow). (row.run_id == k) && (row.kind == value kind)) rows)) [
        | inr none_such ↦ none_such
        | inl some_such ↦
            let (row, m, both) =
              any-mem (λ (row : EventRow). (row.run_id == k) && (row.kind == value kind)) rows
                some_such in
            let selected =
              (Memᴰ-keep_if (λ (row : EventRow). row.run_id == k) row rows).1 (m, ground arith) in
            let (e, listed, made) =
              map_result-target load_event (keep_if (λ (row : EventRow). row.run_id == k) rows) es
                row read selected in
            let same = load_event-kind row e made in
            absurd (
              ground (
                arith,
                any_of_mem (λ c. value kind == value c) (map (λ (e : ConvergenceEvent). e.kind) es)
                    e.kind (Memᴰ.map (λ (e : ConvergenceEvent). e.kind) listed),
                eq_iff (value kind) (value e.kind),
                eq_iff row.kind (value kind),
              ))
      ]

module _ (db : Database) (k : String) (e : ConvergenceEvent) where
  abbrev pub inserted : Database
  inserted = record db { convergence_events = db.convergence_events ++ event_row k e ∷ [] }

  pub load-inserted :
      (run : ConvergenceRun)
      → load db k ≡ ok run
      → load inserted k ≡ ok (record run { events = run.events ++ e ∷ [] })
  unfolding load
  load-inserted run h =
      let (row, selected, read, is_run) = load-parts db k run h in
      let rows = select_events-append k k db.convergence_events e in
      let grown : select_events k inserted.convergence_events
          ≡ select_events k db.convergence_events ++ event_row k e ∷ [] =
        ground (arith, rows, eq_refl k) in
      let all_read =
        map_result-append load_event (select_events k db.convergence_events) run.events
          (event_row k e) e read (load_event-event_row k e) in
      rw (selected, grown, all_read)
        (ap (λ (r : ConvergenceRun). ok (record r { events = run.events ++ e ∷ [] })) (sym is_run))

  pub load-inserted_other : (j : String) → (k == j) ≡ false → load inserted j ≡ load db j
  unfolding load
  load-inserted_other j other =
      let same : select_events j inserted.convergence_events
          ≡ select_events j db.convergence_events =
        ground (arith, select_events-append k j db.convergence_events e) in
      rw same refl

  insert_event-ok :
      ltb_ℤ e.offset_ms (pos 0) ≡ false
      → any
          (λ (row : EventRow). (row.run_id == k) && (row.kind == value e.kind))
          db.convergence_events
        ≡ false
      → contains k (ids db.convergence_runs) ≡ true
      → insert_event db k e ≡ ok inserted
  unfolding insert_event
  insert_event-ok positive new known_run = rw (positive, new, known_run) refl

  -- An accepted event is added to the tables.
  pub append_event-inserted :
      (run : ConvergenceRun)
      → load db k ≡ ok run
      → validate_event run e ≡ ok tt
      → contains k (ids db.convergence_runs) ≡ true
      → append_event db k e ≡ ok (inserted, record run { events = run.events ++ e ∷ [] })
  unfolding append_event
  append_event-inserted run loaded accepted known_run =
      let (row, _, read, _) = load-parts db k run loaded in
      let (required, _, is_accepted) = validate_event-IsAccepted run e accepted in
      let new = no_duplicate db.convergence_events k run.events e.kind read is_accepted.new in
      rw (loaded, accepted, insert_event-ok is_accepted.positive new known_run) refl
