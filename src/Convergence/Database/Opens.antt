-- ===== src/Convergence/Database/Opens.antt =====
-- The constructor of the database store, on a new file.
use mathlib.Core.List.Memᴰ
use telconet_sentinel.Common.{
  ℕ, ◌-◌, [], ◌≡◌, refl, sym, subst, ◌∙◌, arith, drop, drop-all, keep_if, contains-empty, ltb,
}
use telconet_sentinel.Errors.{ok, >>=-eq-ok, ok-injective, raise_if, capacity_not_positive}
use telconet_sentinel.Convergence.{ConvergenceStore}
use telconet_sentinel.Convergence as Memory
use telconet_sentinel.Convergence.Valid.{new_store-IsValid}
use telconet_sentinel.Convergence.Database.{RunRow, Database, prune, open_store}
use telconet_sentinel.Convergence.Database.Refines.{Refines}

abbrev no_tables : ℕ → Database
no_tables capacity = record { capacity = capacity; convergence_runs = []; convergence_events = [] }

prune-no_tables : (capacity : ℕ) → prune (no_tables capacity) ≡ no_tables capacity
unfolding prune keep_if
prune-no_tables capacity =
    let nothing : drop {A = RunRow} (0 - capacity) [] ≡ [] = drop-all capacity [] (omega arith) in
    rw nothing refl

-- If the database store opens on an empty file, the store in memory is made with the same capacity,
-- and the database stands for it.
pub open_store-Refines :
    (capacity : ℕ) (db : Database)
    → open_store capacity [] [] ≡ ok db
    → (s : ConvergenceStore) × (Memory.new capacity ≡ ok s) × Refines db s
unfolding open_store Memory.new
open_store-Refines capacity db h =
    let (_, positive, h₁) = >>=-eq-ok (raise_if (ltb capacity 1) capacity_not_positive) _ h in
    let is_db : no_tables capacity ≡ db = sym (prune-no_tables capacity) ∙ ok-injective h₁ in
    let s : ConvergenceStore = record { capacity = capacity; runs = []; order = [] } in
    let made : Memory.new capacity ≡ ok s = rw positive refl in
    (
      s,
      made,
      subst (λ db. Refines db s) is_db
          (record {
            is_valid = new_store-IsValid capacity s made;
            same_capacity = refl;
            same_order = refl;
            same_runs = λ k there. absurd (ground (arith, contains-empty k [] refl));
            owned = λ row m. absurd (Memᴰ.not-nil m);
          }),
    )
