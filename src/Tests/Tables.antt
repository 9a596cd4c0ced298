-- ===== src/Tests/Tables.antt =====
-- The database store of one run, step by step with the store in memory.
use telconet_sentinel.Common.{none, [], ◌∷◌, ◌≡◌, refl, sym, subst, ◌∙◌, drop, keep_if}
use telconet_sentinel.Errors.{ok, ok-injective}
use telconet_sentinel.Convergence.{ConvergenceStore, latest}
use telconet_sentinel.Convergence as Memory
use telconet_sentinel.Convergence.Database.{Database, open_store, prune, create_run}
use telconet_sentinel.Convergence.Database as Database
use telconet_sentinel.Convergence.Database.Refines.{Refines, Simulates}
use telconet_sentinel.Convergence.Database.Opens.{open_store-Refines}
use telconet_sentinel.Convergence.Database.CreateStep.{create_run-Simulates}
use telconet_sentinel.Tests.Runs.{creation, now, empty, started, id_is_new}

abbrev no_rows : Database
no_rows = record { capacity = 1; convergence_runs = []; convergence_events = [] }

opened : open_store 1 [] [] ≡ ok no_rows
unfolding open_store prune drop keep_if
opened = refl

open_store-Refines_example : (s : ConvergenceStore) × (Memory.new 1 ≡ ok s) × Refines no_rows s
open_store-Refines_example = open_store-Refines 1 no_rows opened

no_rows-Refines : Refines no_rows empty
no_rows-Refines =
    let (s, made, refines) = open_store-Refines 1 no_rows opened in
    subst (Refines no_rows) (ok-injective (sym made ∙ started)) refines

abbrev one_row : Database
one_row = record no_rows {
  convergence_runs =
      record {
        id = "run-01";
        profile = "ospf_only";
        source = "acc-1";
        target = "svc-1";
        started_at = now;
      }
      ∷ [];
}

create_run-Simulates_example :
    Simulates
      (create_run no_rows creation "ospf_only" "acc-1" "svc-1" none)
      (Memory.create_run empty creation "ospf_only" "acc-1" "svc-1" none)
create_run-Simulates_example =
    create_run-Simulates no_rows empty creation "ospf_only" "acc-1" "svc-1" none no_rows-Refines
      id_is_new
