-- ===== src/Convergence/Valid.antt =====
-- The invariant of the store of runs, and the loop that lets runs expire.
use telconet_sentinel.Common.{
  ℕ, ◌≤◌, ◌<◌, ◌-◌, String, true, false, some, List, [], ◌∷◌, ◌≡◌, refl, sym, ap, subst, ◌∙◌, inl,
  inr, arith, length, drop, drop-suc, drop-all, length-drop, contains, contains-cons, contains-head,
  all_distinct, ltb, ◌==◌, eq_iff, Bool-cases, Option-cases, if◌then◌else◌,
}
use telconet_sentinel.Common.Dict.{lookup, remove, is_some, lookup-remove}
use telconet_sentinel.Errors.{ok}
use telconet_sentinel.Convergence.{
  ConvergenceEventKind, ConvergenceRun, ConvergenceStore, required_events, new, delete, expire,
}
use telconet_sentinel.Convergence.Runs.{IsTrace}

-- A run has a profile, and its events are a trace within it.
pub record IsRun (run : ConvergenceRun) : Type 0 where
  pub required : List ConvergenceEventKind
  pub of_profile : required_events run.profile ≡ ok required
  pub trace : IsTrace required run.events

-- All but the bound, which does not hold while runs expire.
pub record IsConsistent (s : ConvergenceStore) : Type 0 where
  pub positive : 0 < s.capacity
  pub once : all_distinct s.order ≡ true
  pub stored : (k : String) → is_some (lookup k s.runs) ≡ contains k s.order
  pub own_id : (k : String) (run : ConvergenceRun) → lookup k s.runs ≡ some run → run.id ≡ k
  pub are_runs : (k : String) (run : ConvergenceRun) → lookup k s.runs ≡ some run → IsRun run

pub record IsValid (s : ConvergenceStore) : Type 0 where
  pub consistent : IsConsistent s
  pub bounded : length s.order ≤ s.capacity

-- A store that the constructor returns is valid.
pub new_store-IsValid : (capacity : ℕ) (s : ConvergenceStore) → new capacity ≡ ok s → IsValid s
unfolding new lookup contains all_distinct
new_store-IsValid capacity s h =
    let no_runs : s.runs ≡ [] = ground arith in
    let no_order : s.order ≡ [] = ground arith in
    record {
      consistent = record {
        positive = ground arith;
        once = rw no_order refl;
        stored = λ k. rw (no_runs, no_order) refl;
        own_id = λ k run p. absurd (ground (arith, ap (lookup k) no_runs));
        are_runs = λ k run p. absurd (ground (arith, ap (lookup k) no_runs));
      };
      bounded = rw no_order (ground arith);
    }

module _ (s : ConvergenceStore) (k : String) (rest : List String) (e : s.order ≡ k ∷ rest)
    (h : IsConsistent s) where
  head_once : (contains k rest ≡ false) × (all_distinct rest ≡ true)
  unfolding all_distinct
  head_once =
      let once : all_distinct (k ∷ rest) ≡ true = subst (λ o. all_distinct o ≡ true) e h.once in
      (ground arith, ground arith)

  delete-ok : delete k s.runs ≡ ok (remove k s.runs)
  unfolding delete
  delete-ok = elim (Option-cases (lookup k s.runs)) [
    | inr (run, there) ↦ rw there refl
    | inl missing ↦
        let at_head : contains k s.order ≡ true = rw e (contains-head k rest) in
        absurd (ground (arith, h.stored k))
  ]

  expired-IsConsistent : IsConsistent (record s { runs = remove k s.runs; order = rest })
  expired-IsConsistent = record {
    positive = h.positive;
    once = head_once.1;
    stored = λ j.
        let split : contains j s.order ≡ (if k == j then true else contains j rest) =
          rw e (contains-cons j k rest) in
        elim (Bool-cases (k == j)) [
          | inl same ↦
              let same' : k ≡ j = ground (arith, eq_iff k j) in
              let gone : contains j rest ≡ false =
                subst (λ j. contains j rest ≡ false) same' head_once.0 in
              ground (arith, lookup-remove j k s.runs)
          | inr other ↦ ground (arith, lookup-remove j k s.runs, h.stored j)
        ];
    own_id = λ j run p. h.own_id j run (ground (arith, lookup-remove j k s.runs));
    are_runs = λ j run p. h.are_runs j run (ground (arith, lookup-remove j k s.runs));
  }

-- The loop raises no `KeyError`, leaves the newest runs, as many as the capacity allows, and the
-- runs that it leaves are as they were.
pub record Expired (s s' : ConvergenceStore) (order : List String) : Type 0 where
  pub consistent : IsConsistent s'
  pub same_capacity : s'.capacity ≡ s.capacity
  pub newest : s'.order ≡ drop (length order - s.capacity) order
  pub kept : (k : String) → contains k s'.order ≡ true → lookup k s'.runs ≡ lookup k s.runs

unchanged_Expired :
    (s : ConvergenceStore) (order : List String)
    → s.order ≡ order
    → IsConsistent s
    → length order ≤ s.capacity
    → Expired s s order
unchanged_Expired s order e h le = record {
  consistent = h;
  same_capacity = refl;
  newest = e ∙ sym (drop-all s.capacity order le);
  kept = λ k p. refl;
}

pub expire-Expired :
    (order : List String) (s : ConvergenceStore)
    → s.order ≡ order
    → IsConsistent s
    → (s' : ConvergenceStore) × (expire order s ≡ ok s') × Expired s s' order
unfolding expire
expire-Expired [] s e h = (s, refl, unchanged_Expired s [] e h (omega arith))
expire-Expired (k ∷ rest) s e h = elim (Bool-cases (ltb s.capacity (length (k ∷ rest)))) [
  | inr room ↦ (s, rw room refl, unchanged_Expired s (k ∷ rest) e h (ground arith))
  | inl full ↦
      let t = record s { runs = remove k s.runs; order = rest } in
      let (s', expired, x) = expire-Expired rest t refl (expired-IsConsistent s k rest e h) in
      (
        s',
        rw (full, delete-ok s k rest e h) expired,
        record {
          consistent = x.consistent;
          same_capacity = x.same_capacity;
          newest = x.newest ∙ drop-suc s.capacity k rest (ground arith);
          kept = λ j p. ground (arith, x.kept j p, lookup-remove j k s.runs, x.consistent.stored j);
        },
      )
]

Expired-bounded :
    (s s' : ConvergenceStore) (order : List String)
    → Expired s s' order
    → length s'.order ≤ s'.capacity
Expired-bounded s s' order x =
    rw (x.newest, x.same_capacity)
      (omega (arith, length-drop (length order - s.capacity) order (omega arith)))

pub Expired-IsValid :
    (s s' : ConvergenceStore) (order : List String) → Expired s s' order → IsValid s'
Expired-IsValid s s' order x = record {
  consistent = x.consistent;
  bounded = Expired-bounded s s' order x;
}
