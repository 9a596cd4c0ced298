-- ===== src/Convergence/Database/CreateStep.antt =====
-- `create_run` of the database does what that of the store in memory does.
use telconet_sentinel.Common.{
  ◌-◌, String, true, false, Option, some, [], ◌∷◌, ◌++◌, ◌==◌, Memᴰ-keep_if, ◌≡◌, refl, sym, ap,
  subst, subst₂, ◌∙◌, inl, inr, arith, length, drop, contains, contains-append_one, all_distinct,
  Bool-cases, eq_iff,
}
use telconet_sentinel.Common.Dict.{lookup, or_default, lookup-insert}
use telconet_sentinel.Errors.{Error, Result, ok, err, Result-cases}
use telconet_sentinel.Convergence.{
  Timestamp, Creation, ConvergenceRun, ConvergenceStore, validate_run, started_run, expire, get,
}
use telconet_sentinel.Convergence as Memory
use telconet_sentinel.Convergence.Runs.{IsTrace-nil}
use telconet_sentinel.Convergence.Valid.{
  IsRun, IsConsistent, Expired, expire-Expired, Expired-IsValid,
}
use telconet_sentinel.Convergence.Store.{grown, grown-IsConsistent, validate_run-profile, get-value}
use telconet_sentinel.Convergence.Database.{
  EventRow, Database, ids, load, prune, run_row, insert_run, create_run,
}
use telconet_sentinel.Convergence.Database.Refines.{Refines, Simulates}
use telconet_sentinel.Convergence.Database.Creates.{
  length-ids, ids-append, ids-drop, contains-drop, with_run, load-with_run, load-with_run_other,
  load-prune,
}

module _ (db : Database) (s : ConvergenceStore) (run : ConvergenceRun) (h : Refines db s)
    (empty : run.events ≡ []) (new : contains run.id s.order ≡ false) (is_run : IsRun run) where
  abbrev g : ConvergenceStore
  g = grown s run

  g-IsConsistent : IsConsistent g
  g-IsConsistent = grown-IsConsistent s run h.is_valid.consistent new is_run

  new_in_tables : contains run.id (ids db.convergence_runs) ≡ false
  new_in_tables = ap (contains run.id) h.same_order ∙ new

  same_ids : ids (with_run db run).convergence_runs ≡ g.order
  same_ids =
      ids-append db.convergence_runs (run_row run) ∙ ap (λ ks. ks ++ run.id ∷ []) h.same_order

  pruned_ids :
      (s' : ConvergenceStore)
      → Expired g s' g.order
      → ids (prune (with_run db run)).convergence_runs ≡ s'.order
  unfolding prune
  pruned_ids s' x =
      let rows = (with_run db run).convergence_runs in
      let same_length : length rows ≡ length g.order = sym (length-ids rows) ∙ ap length same_ids in
      ids-drop (length rows - db.capacity) rows
      ∙ ap (drop (length rows - db.capacity)) same_ids
      ∙ ap (λ n. drop (n - db.capacity) g.order) same_length
      ∙ ap (λ c. drop (length g.order - c) g.order) h.same_capacity
      ∙ sym x.newest

  -- Before anything is pruned, the tables hold what the grown store holds.
  load_grown : (k : String) → contains k g.order ≡ true → load (with_run db run) k ≡ get g k
  unfolding get
  load_grown k there =
      let stored = lookup-insert k run.id run s.runs in
      elim (Bool-cases (run.id == k)) [
        | inl same ↦
            let same' : run.id ≡ k = ground (arith, eq_iff run.id k) in
            let found : lookup k g.runs ≡ some run = ground arith in
            subst (λ k. load (with_run db run) k ≡ ok run) same'
              (load-with_run db run empty new_in_tables h.owned)
            ∙ sym (get-value g k run found)
        | inr other ↦
            let old : contains k s.order ≡ true =
              ground (arith, contains-append_one k run.id s.order) in
            let same : lookup k g.runs ≡ lookup k s.runs = ground arith in
            load-with_run_other db run k other ∙ h.same_runs k old ∙ rw same refl
      ]

  get_kept :
      (s' : ConvergenceStore) (k : String)
      → Expired g s' g.order
      → contains k s'.order ≡ true
      → get s' k ≡ get g k
  unfolding get
  get_kept s' k x there = let same = x.kept k there in rw same refl

  created-Refines :
      (s' : ConvergenceStore) → Expired g s' g.order → Refines (prune (with_run db run)) s'
  unfolding prune
  created-Refines s' x = record {
    is_valid = Expired-IsValid g s' g.order x;
    same_capacity = h.same_capacity ∙ sym x.same_capacity;
    same_order = pruned_ids s' x;
    same_runs = λ k there.
        let in_order : contains k g.order ≡ true =
          contains-drop (length g.order - s.capacity) k g.order
            (ap (contains k) (sym x.newest) ∙ there) in
        let once : all_distinct (ids (with_run db run).convergence_runs) ≡ true =
          rw same_ids g-IsConsistent.once in
        load-prune (with_run db run) k once (ap (contains k) (pruned_ids s' x) ∙ there)
        ∙ load_grown k in_order
        ∙ sym (get_kept s' k x there);
    owned = λ row m.
        let rows = (with_run db run).convergence_runs in
        let newest = drop (length rows - db.capacity) rows in
        ((Memᴰ-keep_if (λ (r : EventRow). contains r.run_id (ids newest)) row
            db.convergence_events).0
          m).1;
  }

module _ (db : Database) (s : ConvergenceStore) (creation : Creation)
    (profile source target : String) (started_at : Option Timestamp) (h : Refines db s) where
  abbrev run : ConvergenceRun
  run = started_run creation profile source target started_at

  abbrev checked : Result (Unit {0})
  checked = validate_run profile source target (or_default started_at creation.now)

  refused_in_memory :
      (x : Error)
      → checked ≡ err x
      → Memory.create_run s creation profile source target started_at ≡ err x
  unfolding Memory.create_run
  refused_in_memory x refused = rw refused refl

  refused_in_tables :
      (x : Error)
      → checked ≡ err x
      → create_run db creation profile source target started_at ≡ err x
  unfolding create_run
  refused_in_tables x refused = rw refused refl

  created_in_memory :
      (s' : ConvergenceStore)
      → checked ≡ ok tt
      → expire (grown s run).order (grown s run) ≡ ok s'
      → Memory.create_run s creation profile source target started_at ≡ ok (s', run)
  unfolding Memory.create_run
  created_in_memory s' accepted expired = rw (accepted, expired) refl

  created_in_tables :
      checked ≡ ok tt
      → contains run.id (ids db.convergence_runs) ≡ false
      → create_run db creation profile source target started_at ≡ ok (prune (with_run db run), run)
  unfolding create_run insert_run
  created_in_tables accepted new = rw (accepted, new) refl

  -- A database that stands for a store in memory does with a new run, whose identifier is new, what
  -- that store does: it raises the same error, or returns the same run and stands for the store's
  -- next state.
  pub create_run-Simulates :
      contains run.id s.order ≡ false
      → Simulates
          (create_run db creation profile source target started_at)
          (Memory.create_run s creation profile source target started_at)
  create_run-Simulates new = elim (Result-cases checked) [
    | inr (x, refused) ↦
        subst₂ Simulates (sym (refused_in_tables x refused)) (sym (refused_in_memory x refused))
          refl
    | inl (_, accepted) ↦
        let (required, of_profile) =
          validate_run-profile profile source target (or_default started_at creation.now)
            accepted in
        let is_run : IsRun run = record {
          required = required;
          of_profile = of_profile;
          trace = IsTrace-nil required;
        } in
        let g = grown s run in
        let (s', expired, x) =
          expire-Expired g.order g refl
            (grown-IsConsistent s run h.is_valid.consistent new is_run) in
        let new_row = ap (contains run.id) h.same_order ∙ new in
        subst₂ Simulates (sym (created_in_tables accepted new_row))
          (sym (created_in_memory s' accepted expired))
          (created-Refines db s run h refl new is_run s' x, refl)
  ]
