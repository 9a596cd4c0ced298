-- ===== src/Convergence/Database/Creates.antt =====
-- What `create_run` of the database does to its tables.
use telconet_sentinel.Common.{
  ℕ, zero, suc, ◌-◌, String, true, false, some, List, [], ◌∷◌, ◌++◌, ◌==◌, Memᴰ, ◌≡◌, refl, sym, ap,
  ◌∙◌, arith, length, drop, keep_if, contains, contains-cons, all_distinct, eq_iff, eq_refl,
}
use telconet_sentinel.Errors.{ok, map_result}
use telconet_sentinel.Convergence.{ConvergenceRun}
use telconet_sentinel.Convergence.Database.{
  RunRow, EventRow, Database, ids, select_run, select_events, load, prune, run_row,
}

pub length-ids : (rows : List RunRow) → length (ids rows) ≡ length rows
length-ids [] = refl
length-ids (row ∷ rows) = ap suc (length-ids rows)

pub ids-append :
    (rows : List RunRow) (row : RunRow) → ids (rows ++ row ∷ []) ≡ ids rows ++ row.id ∷ []
ids-append [] row = refl
ids-append (r ∷ rows) row = ap (λ ks. r.id ∷ ks) (ids-append rows row)

pub ids-drop : (n : ℕ) (rows : List RunRow) → ids (drop n rows) ≡ drop n (ids rows)
unfolding drop
ids-drop zero rows = refl
ids-drop (suc n) [] = refl
ids-drop (suc n) (row ∷ rows) = ids-drop n rows

pub contains-drop :
    (n : ℕ) (k : String) (xs : List String) → contains k (drop n xs) ≡ true → contains k xs ≡ true
unfolding drop
contains-drop zero k xs h = h
contains-drop (suc n) k [] h = h
contains-drop (suc n) k (x ∷ xs) h = ground (arith, contains-drop n k xs h, contains-cons k x xs)

select_run-drop :
    (n : ℕ) (k : String) (rows : List RunRow)
    → all_distinct (ids rows) ≡ true
    → contains k (drop n (ids rows)) ≡ true
    → select_run k (drop n rows) ≡ select_run k rows
unfolding drop select_run all_distinct
select_run-drop zero k rows once there = refl
select_run-drop (suc n) k [] once there = refl
select_run-drop (suc n) k (row ∷ rows) once there =
    ground (arith, select_run-drop n k rows, contains-drop n k (ids rows) there, eq_iff row.id k)

select_run-append :
    (k : String) (rows : List RunRow) (row : RunRow)
    → (row.id == k) ≡ false
    → select_run k (rows ++ row ∷ []) ≡ select_run k rows
unfolding select_run
select_run-append k [] row other = ground arith
select_run-append k (r ∷ rows) row other = ground (arith, select_run-append k rows row)

select_run-new :
    (rows : List RunRow) (row : RunRow)
    → contains row.id (ids rows) ≡ false
    → select_run row.id (rows ++ row ∷ []) ≡ some row
unfolding select_run
select_run-new [] row new = ground (arith, eq_refl row.id)
select_run-new (r ∷ rows) row new =
    ground (arith, select_run-new rows row, contains-cons row.id r.id (ids rows))

select_events-kept :
    (k : String) (kept : List String) (rows : List EventRow)
    → contains k kept ≡ true
    → select_events k (keep_if (λ row. contains row.run_id kept) rows) ≡ select_events k rows
unfolding select_events keep_if
select_events-kept k kept [] there = refl
select_events-kept k kept (row ∷ rows) there =
    ground (arith, select_events-kept k kept rows, eq_iff row.run_id k)

select_events-none :
    (k : String) (known : List String) (rows : List EventRow)
    → contains k known ≡ false
    → ((row : EventRow) → Memᴰ row rows → contains row.run_id known ≡ true)
    → select_events k rows ≡ []
unfolding select_events keep_if
select_events-none k known [] new owned = refl
select_events-none k known (row ∷ rows) new owned = ground (
  arith,
  select_events-none k known rows new (λ r m. owned r (Memᴰ.tail m)),
  owned row (Memᴰ.head refl),
  eq_iff row.run_id k,
)

module _ (db : Database) (run : ConvergenceRun) where
  abbrev pub with_run : Database
  with_run = record db { convergence_runs = db.convergence_runs ++ run_row run ∷ [] }

  pub load-with_run :
      run.events ≡ []
      → contains run.id (ids db.convergence_runs) ≡ false
      → ((row : EventRow)
          → Memᴰ row db.convergence_events
          → contains row.run_id (ids db.convergence_runs) ≡ true)
      → load with_run run.id ≡ ok run
  unfolding load map_result
  load-with_run empty new owned =
      rw
        (
          select_run-new db.convergence_runs (run_row run) new,
          select_events-none run.id (ids db.convergence_runs) db.convergence_events new owned,
        )
        (ap (λ es. ok (record run { events = es })) (sym empty))

  pub load-with_run_other : (k : String) → (run.id == k) ≡ false → load with_run k ≡ load db k
  unfolding load
  load-with_run_other k other =
      rw (select_run-append k db.convergence_runs (run_row run) other) refl

-- What is not pruned is read as before.
pub load-prune :
    (db : Database) (k : String)
    → all_distinct (ids db.convergence_runs) ≡ true
    → contains k (ids (prune db).convergence_runs) ≡ true
    → load (prune db) k ≡ load db k
unfolding load prune
load-prune db k once there =
    let n = length db.convergence_runs - db.capacity in
    let row =
      select_run-drop n k db.convergence_runs once
        (ap (contains k) (sym (ids-drop n db.convergence_runs)) ∙ there) in
    let rows =
      select_events-kept k (ids (drop n db.convergence_runs)) db.convergence_events there in
    rw (row, rows) refl
