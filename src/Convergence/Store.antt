-- ===== src/Convergence/Store.antt =====
-- The theorems on the store's operations.
use telconet_sentinel.Common.{
  ℕ, zero, suc, ◌≤◌, ◌-◌, String, true, false, not, Option, some, List, [], ◌∷◌, ◌++◌, ◌≡◌, refl,
  ap, subst, ◌∙◌, inl, inr, arith, length, length-append, drop, last, contains, contains-append_one,
  contains-cons, all_distinct, ◌==◌, eq_iff, eq_refl, Bool-cases, Option-cases,
}
use telconet_sentinel.Common.Dict.{lookup, insert, is_some, or_default, lookup-insert}
use telconet_sentinel.Errors.{ok, >>=-eq-ok, raise_if, unsupported_profile}
use telconet_sentinel.Convergence.{
  ConvergenceEventKind, Timestamp, Creation, ConvergenceRun, ConvergenceStore, required_events,
  required_events_by_profile, validate_run, started_run, create_run, get, latest,
}
use telconet_sentinel.Convergence.Runs.{IsTrace-nil}
use telconet_sentinel.Convergence.Valid.{
  IsRun, IsConsistent, IsValid, expire-Expired, Expired-IsValid,
}

pub validate_run-profile :
    (profile source target : String) (started_at : Timestamp)
    → validate_run profile source target started_at ≡ ok tt
    → (required : List ConvergenceEventKind) × (required_events profile ≡ ok required)
unfolding validate_run required_events
validate_run-profile profile source target started_at h =
    let (_, a, _) =
      >>=-eq-ok
        (raise_if (not (is_some (lookup profile required_events_by_profile)))
          (unsupported_profile profile))
        _ h in
    elim (Option-cases (lookup profile required_events_by_profile)) [
      | inl missing ↦ absurd (ground arith)
      | inr (required, found) ↦ (required, rw found refl)
    ]

distinct-append :
    (x : String) (xs : List String)
    → contains x xs ≡ false
    → all_distinct xs ≡ true
    → all_distinct (xs ++ x ∷ []) ≡ true
unfolding all_distinct
distinct-append x [] new h = ground (arith, contains-append_one x x [])
distinct-append x (y ∷ ys) new h = ground (
  arith,
  distinct-append x ys,
  contains-append_one y x ys,
  contains-cons x y ys,
  eq_iff x y,
  eq_iff y x,
)

-- The store that `create_run` builds before runs expire.
abbrev pub grown : ConvergenceStore → ConvergenceRun → ConvergenceStore
grown s run = record s { runs = insert run.id run s.runs; order = s.order ++ run.id ∷ [] }

module _ (s : ConvergenceStore) (run : ConvergenceRun) (h : IsConsistent s)
    (new : contains run.id s.order ≡ false) (is_run : IsRun run) where
  pub grown-IsConsistent : IsConsistent (grown s run)
  grown-IsConsistent = record {
    positive = h.positive;
    once = distinct-append run.id s.order new h.once;
    stored = λ k. ground (
      arith,
      h.stored k,
      lookup-insert k run.id run s.runs,
      contains-append_one k run.id s.order,
    );
    own_id =
        λ k r p. ground (arith, h.own_id k r, lookup-insert k run.id run s.runs, eq_iff run.id k);
    are_runs = λ k r p.
        let stored = lookup-insert k run.id run s.runs in
        elim (Bool-cases (run.id == k)) [
          | inl same ↦ let is_r : run ≡ r = ground arith in subst IsRun is_r is_run
          | inr other ↦ h.are_runs k r (ground arith)
        ];
  }

pub get-value :
    (s : ConvergenceStore) (k : String) (run : ConvergenceRun)
    → lookup k s.runs ≡ some run
    → get s k ≡ ok run
unfolding get
get-value s k run there = rw there refl

pub latest-value :
    (s : ConvergenceStore) (k : String) (run : ConvergenceRun)
    → last s.order ≡ some k
    → lookup k s.runs ≡ some run
    → latest s ≡ ok (some run)
unfolding latest
latest-value s k run is_last there = ground arith

last-append : (x : String) (xs : List String) → last (xs ++ x ∷ []) ≡ some x
unfolding last
last-append x [] = refl
last-append x (y ∷ []) = refl
last-append x (y ∷ z ∷ zs) = last-append x (z ∷ zs)

last-drop :
    (n : ℕ) (x : String) (xs : List String) → n ≤ length xs → last (drop n (xs ++ x ∷ [])) ≡ some x
unfolding drop
last-drop zero x xs le = last-append x xs
last-drop (suc n) x [] le = absurd (omega arith)
last-drop (suc n) x (y ∷ ys) le = last-drop n x ys (omega arith)

pub contains-last : (x : String) (xs : List String) → last xs ≡ some x → contains x xs ≡ true
unfolding last
contains-last x [] h = absurd (ground arith)
contains-last x (y ∷ []) h = ground (arith, contains-cons x y [], eq_iff y x)
contains-last x (y ∷ z ∷ zs) h =
    ground (arith, contains-cons x y (z ∷ zs), contains-last x (z ∷ zs) h)

module _ (s : ConvergenceStore) (creation : Creation) (profile source target : String)
    (started_at : Option Timestamp) where
  abbrev run : ConvergenceRun
  run = started_run creation profile source target started_at

  -- In a valid store, with a new identifier and values that `validate_run` accepts, `create_run`
  -- returns the run without events and leaves a valid store, which has it and gives it as the latest.
  pub create_run-IsValid :
      IsValid s
      → contains run.id s.order ≡ false
      → validate_run profile source target (or_default started_at creation.now) ≡ ok tt
      → (s' : ConvergenceStore) × (create_run s creation profile source target started_at
          ≡ ok (s', run))
        × IsValid s'
        × (get s' run.id ≡ ok run)
        × (latest s' ≡ ok (some run))
  unfolding create_run
  create_run-IsValid h new valid_run =
      let (required, of_profile) =
        validate_run-profile profile source target (or_default started_at creation.now) valid_run in
      let is_run : IsRun run = record {
        required = required;
        of_profile = of_profile;
        trace = IsTrace-nil required;
      } in
      let g = grown s run in
      let (s', done, x) =
        expire-Expired g.order g refl (grown-IsConsistent s run h.consistent new is_run) in
      let is_last : last s'.order ≡ some run.id =
        ap last x.newest
        ∙ last-drop (length g.order - s.capacity) run.id s.order
            (omega (arith, length-append s.order (run.id ∷ []), h.consistent.positive)) in
      let there : lookup run.id s'.runs ≡ some run =
        x.kept run.id (contains-last run.id s'.order is_last)
        ∙ ground (arith, eq_refl run.id, lookup-insert run.id run.id run s.runs) in
      (
        s',
        rw (valid_run, done) refl,
        Expired-IsValid g s' g.order x,
        get-value s' run.id run there,
        latest-value s' run.id run is_last there,
      )
