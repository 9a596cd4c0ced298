-- ===== src/Convergence/Append.antt =====
-- The theorems on `append_event` and `latest`.
use telconet_sentinel.Common.{
  String, none, some, List, [], ◌∷◌, ◌++◌, ◌≡◌, refl, sym, ap, subst, ◌∙◌, ◌⊎◌, inl, inr, arith,
  last, ◌==◌, eq_iff, eq_refl, Bool-cases, Option-cases,
}
use telconet_sentinel.Common.Dict.{lookup, insert, lookup-insert}
use telconet_sentinel.Errors.{
  ok, err, >>=-eq-ok, ok-injective, or_raise-eq-ok, duplicate_event, run_not_found,
}
use telconet_sentinel.Convergence.{
  value, ConvergenceEvent, ConvergenceRun, ConvergenceStore, validate_event, get, append_event,
  latest,
}
use telconet_sentinel.Convergence.Runs.{IsTrace, IsTrace-append}
use telconet_sentinel.Convergence.Accepted.{validate_event-IsAccepted, validate_event-again}
use telconet_sentinel.Convergence.Valid.{IsRun, IsValid}
use telconet_sentinel.Convergence.Store.{get-value, latest-value, contains-last}

module _ (s s' : ConvergenceStore) (k : String) (e : ConvergenceEvent) (r : ConvergenceRun)
    (appended : append_event s k e ≡ ok (s', r)) where
  append_event-value :
      (run : ConvergenceRun) × (lookup k s.runs ≡ some run)
      × (validate_event run e ≡ ok tt)
      × (r ≡ record run { events = run.events ++ e ∷ [] })
      × (s' ≡ record s { runs = insert k r s.runs })
  unfolding append_event get
  append_event-value =
      let (run, got, h₁) = >>=-eq-ok (get s k) _ appended in
      let (_, accepted, h₂) = >>=-eq-ok (validate_event run e) _ h₁ in
      let same = ok-injective h₂ in
      (
        run,
        or_raise-eq-ok (lookup k s.runs) (run_not_found k) run got,
        accepted,
        sym (ap (λ p. p.1) same),
        sym (ap (λ p. p.0) same)
            ∙ ap (λ r. record s { runs = insert k r s.runs }) (ap (λ p. p.1) same),
      )

  again :
      (run : ConvergenceRun)
      → lookup k s'.runs ≡ some r
      → validate_event run e ≡ ok tt
      → r ≡ record run { events = run.events ++ e ∷ [] }
      → append_event s' k e ≡ err (duplicate_event (value e.kind))
  unfolding append_event
  again run found accepted is_r =
      let refused : validate_event r e ≡ err (duplicate_event (value e.kind)) =
        ap (λ r. validate_event r e) is_r ∙ validate_event-again run e accepted in
      rw (get-value s' k r found, refused) refl

  appended-IsRun :
      (run : ConvergenceRun)
      → IsRun run
      → validate_event run e ≡ ok tt
      → IsRun (record run { events = run.events ++ e ∷ [] })
  appended-IsRun run is_run accepted =
      let (required, of_profile, is_accepted) = validate_event-IsAccepted run e accepted in
      let same : is_run.required ≡ required = ok-injective (sym is_run.of_profile ∙ of_profile) in
      record {
        required = required;
        of_profile = of_profile;
        trace =
            IsTrace-append run required e (subst (λ ks. IsTrace ks run.events) same is_run.trace)
              is_accepted;
      }

  appended-IsValid :
      (run : ConvergenceRun)
      → IsValid s
      → lookup k s.runs ≡ some run
      → validate_event run e ≡ ok tt
      → r ≡ record run { events = run.events ++ e ∷ [] }
      → IsValid (record s { runs = insert k r s.runs })
  appended-IsValid run h there accepted is_r =
      let own : r.id ≡ k =
        ap (λ (r : ConvergenceRun). r.id) is_r ∙ h.consistent.own_id k run there in
      let is_run =
        subst IsRun (sym is_r) (appended-IsRun run (h.consistent.are_runs k run there) accepted) in
      record {
        consistent = record {
          positive = h.consistent.positive;
          once = h.consistent.once;
          stored =
              λ j. ground (arith, h.consistent.stored j, lookup-insert j k r s.runs, eq_iff k j);
          own_id = λ j v p.
              ground (arith, h.consistent.own_id j v, lookup-insert j k r s.runs, eq_iff k j);
          are_runs = λ j v p.
              let stored = lookup-insert j k r s.runs in
              elim (Bool-cases (k == j)) [
                | inl same ↦ let is_v : r ≡ v = ground arith in subst IsRun is_v is_run
                | inr other ↦ h.consistent.are_runs j v (ground arith)
              ];
        };
        bounded = h.bounded;
      }

  -- If `append_event` accepts an event in a valid store, the event goes to the end of the run's
  -- events, the store stays valid and has the grown run, and the same event again is refused as a
  -- duplicate.
  pub append_event-IsValid :
      IsValid s
      → IsValid s'
        × (get s' k ≡ ok r)
        × ((run : ConvergenceRun) × (get s k ≡ ok run) × (r.events ≡ run.events ++ e ∷ []))
        × (append_event s' k e ≡ err (duplicate_event (value e.kind)))
  append_event-IsValid h =
      let (run, there, accepted, is_r, is_s') = append_event-value in
      let found : lookup k s'.runs ≡ some r =
        rw is_s' (ground (arith, eq_refl k, lookup-insert k k r s.runs)) in
      (
        subst IsValid (sym is_s') (appended-IsValid run h there accepted is_r),
        get-value s' k r found,
        (run, get-value s k run there, ap (λ (r : ConvergenceRun). r.events) is_r),
        again run found accepted is_r,
      )

pub latest-none : (s : ConvergenceStore) → last s.order ≡ none → latest s ≡ ok none
unfolding latest
latest-none s h = ground arith

last-none : (xs : List String) → last xs ≡ none → xs ≡ []
unfolding last
last-none [] h = refl
last-none (x ∷ []) h = absurd (ground arith)
last-none (x ∷ y ∷ ys) h = absurd (ground (arith, last-none (y ∷ ys)))

-- The latest run of a valid store is one of its runs, and there is none only in an empty store.
pub latest-get :
    (s : ConvergenceStore)
    → IsValid s
    → ((latest s ≡ ok none) × (s.order ≡ []))
      ⊎ ((run : ConvergenceRun) × (latest s ≡ ok (some run)) × (get s run.id ≡ ok run))
latest-get s h = elim (Option-cases (last s.order)) [
  | inl none_last ↦ inl (latest-none s none_last, last-none s.order none_last)
  | inr (k, is_last) ↦ elim (Option-cases (lookup k s.runs)) [
    | inl missing ↦ absurd (ground (arith, h.consistent.stored k, contains-last k s.order is_last))
    | inr (run, there) ↦
        let own = h.consistent.own_id k run there in
        inr (
          run,
          latest-value s k run is_last there,
          get-value s run.id run (ap (λ k. lookup k s.runs) own ∙ there),
        )
  ]
]
