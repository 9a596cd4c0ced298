-- ===== src/Convergence/Database/AppendStep.antt =====
-- `append_event` of the database does what that of the store in memory does.
use mathlib.Core.List.Memᴰ
use telconet_sentinel.Common.{String, List, [], ◌∷◌, ◌++◌, Memᴰ}
use telconet_sentinel.Common.Dict.{insert}
use telconet_sentinel.Convergence.{ConvergenceEvent, ConvergenceRun, ConvergenceStore}
use telconet_sentinel.Convergence as Memory
use telconet_sentinel.Convergence.Database.{Database}
use telconet_sentinel.Convergence.Database.Refines.{Refines}

module _ (db : Database) (s : ConvergenceStore) (k : String) (e : ConvergenceEvent)
    (h : Refines db s) where
  abbrev with_event : ConvergenceRun → ConvergenceRun
  with_event run = record run { events = run.events ++ e ∷ [] }

  abbrev stored : ConvergenceRun → ConvergenceStore
  stored run = record s { runs = insert k (with_event run) s.runs }
