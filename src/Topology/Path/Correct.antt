-- ===== src/Topology/Path/Correct.antt =====
-- `has_path` decides whether a walk leads to a target, and agrees with the distances.
use telconet_sentinel.Common.{
  ℕ, zero, suc, ◌+◌, ◌≤◌, ◌<◌, String, Bool, true, false, Option, some, List, [], ◌∷◌, ◌≡◌, refl,
  sym, subst, ap, inl, inr, ◌↔◌, arith, contains, contains-mem, contains-cons, contains-empty,
  contains-head, if◌then◌else◌, Bool-cases, List-cases, eq_iff, length, is_empty, keep_if,
  Memᴰ-keep_if,
}
use telconet_sentinel.Common.Dict.{keys}
use telconet_sentinel.Errors.{Result, ok}
use telconet_sentinel.Topology.{Topology, known, node, neighbors}
use telconet_sentinel.Topology.Valid.{IsValid}
use telconet_sentinel.Topology.Walk.{Walk, here, step, Walk-known}
use telconet_sentinel.Topology.Distance.Checks.{lookup-known}
use telconet_sentinel.Topology.Distance.Frontier.{unsettled-mark-le, unsettled-nil}
use telconet_sentinel.Topology.Path.{
  Frontier, Visit, reached, searching, visit, finish, loop, fuel, has_path,
}
use telconet_sentinel.Topology.Path.Neighbors.{without, Leads, neighbors-lead}
use telconet_sentinel.Topology.Path.Invariant.{ls, names, work, Reach, Inv, dequeue-Inv, idle-Inv}
use telconet_sentinel.Topology.Path.Rounds.{Outcome, visit-Outcome}

-- What the answer says of the targets.
abbrev pub Decides : Topology → Option String → String → List String → Bool → Type 0
Decides t o source targets true = (v : String) × (contains v targets ≡ true) × Reach t o source v
Decides t o source targets false = (v : String) → contains v targets ≡ true → ¬ Reach t o source v

module _ (t : Topology) (o : Option String) (source : String) (targets : List String)
    (valid : IsValid t)
    (known_link : (k : String) → o ≡ some k → contains k (keys t.links_by_id) ≡ true)
    (known_source : contains source (names t) ≡ true) where
  -- With an empty queue every node that a walk reaches is visited.
  complete :
      {s : Frontier} {v : String} {d : ℕ}
      → Inv t o source targets [] s
      → s.pending ≡ []
      → Walk (ls t) (without o) source v d
      → contains v s.visited ≡ true
  complete h e here = h.origin
  complete {s} h e (step {u} {v} walk edge) = elim (h.closed u v (complete h e walk) (_, edge)) [
    | inl waiting ↦
        cc (contains-empty u [] refl, subst (λ queue. contains u queue ≡ true) e waiting)
    | inr (inl busy) ↦ cc (contains-empty u [] refl)
    | inr (inr seen) ↦ seen
  ]

  abbrev Returns : Result Bool → Type 0
  Returns r = (b : Bool) × (r ≡ ok b) × Decides t o source targets b

  finish-Returns :
      (u : String) (found : List String) (n : ℕ) (again : Frontier → Result Bool)
      → ((v : String) → Leads (ls t) o u v → contains v found ≡ true)
      → ((s : Frontier) → Inv t o source targets [] s → work t s ≤ n → Returns (again s))
      → (r : Visit) → Outcome t o source targets (u ∷ []) found n r
      → Returns (finish r again)
  finish-Returns u found n again all ih reached h = (true, refl, h)
  finish-Returns u found n again all ih (searching s) (inv, seen, less) =
      ih s (idle-Inv t o source targets s u (λ v e. seen v (all v e)) inv) less

  loop_step :
      (rounds : ℕ) (s : Frontier) (u : String) (rest found : List String)
      → s.pending ≡ u ∷ rest
      → neighbors t u o ≡ ok found
      → loop t o targets (suc rounds) s
        ≡ finish (visit targets (record s { pending = rest }) found) (loop t o targets rounds)
  unfolding loop
  loop_step rounds s u rest found e listed = rw (e, loop, listed)

  led :
      (u : String) (d : ℕ)
      → Walk (ls t) (without o) source u d
      → (v : String) → Leads (ls t) o u v
      → Reach t o source v × (contains v (names t) ≡ true)
  led u d walk v (c, e) =
      let further = step walk e in
      ((d + c, further), Walk-known (names t) valid.ends known_source further)

  loop-Returns :
      (rounds : ℕ) (s : Frontier)
      → Inv t o source targets [] s
      → work t s < rounds
      → Returns (loop t o targets rounds s)
  unfolding loop
  loop-Returns zero s h enough = absurd (omega arith)
  loop-Returns (suc rounds) s h enough = elim (List-cases s.pending) [
    | inl empty ↦
        (false, rw (empty, loop), λ v goal (d, walk). cc (h.goalless v (complete h empty walk)))
    | inr (u, rest, e) ↦
        let busy = dequeue-Inv t o source targets s u rest e h in
        let first : contains u s.visited ≡ true =
          h.queued u (subst (λ queue. contains u queue ≡ true) (sym e) (contains-head u rest)) in
        let (d, walk) = h.sound u first in
        let (found, listed, leads) =
          neighbors-lead t valid o known_link u
            (Walk-known (names t) valid.ends known_source walk) in
        rw (loop_step rounds s u rest found e listed) (
          finish-Returns u found (work t (record s { pending = rest })) (loop t o targets rounds)
            (λ v edge. (leads v).1 edge)
            (λ s' inv less. loop-Returns rounds s' inv (omega (arith, ap length e)))
            (visit targets (record s { pending = rest }) found)
            (visit-Outcome t o source targets (record s { pending = rest }) found
              (work t (record s { pending = rest })) (λ v p. led u d walk v ((leads v).0 p))
              (omega arith) busy))
  ]

  initial-Inv :
      contains source targets ≡ false
      → Inv t o source targets [] (record { visited = source ∷ []; pending = source ∷ [] })
  initial-Inv no_goal = record {
    sound = λ v p. subst (Reach t o source) (only v p) (0, here);
    origin = contains-head source [];
    closed = λ u v p e. inl p;
    queued = λ v p. p;
    goalless = λ v p. subst (λ w. contains w targets ≡ false) (only v p) no_goal;
  }
    where
      only : (v : String) → contains v (source ∷ []) ≡ true → source ≡ v
      only v p =
          ground (arith, contains-cons v source [], contains-empty v [] refl, eq_iff source v)

contains-known_targets :
    (t : Topology) (targets : List String) (k : String)
    → (contains k (keep_if (known t.nodes_by_name) targets) ≡ true)
      ↔ ((contains k targets ≡ true) × (contains k (names t) ≡ true))
unfolding known
contains-known_targets t targets k = ground (
  arith,
  contains-mem k (keep_if (λ n. contains n (names t)) targets),
  Memᴰ-keep_if (λ n. contains n (names t)) k targets,
  contains-mem k targets,
)

module _ (t : Topology) (source : String) (targets : List String) (o : Option String)
    (valid : IsValid t)
    (known_link : (k : String) → o ≡ some k → contains k (keys t.links_by_id) ≡ true)
    (known_source : contains source (names t) ≡ true) where
  abbrev goals : List String
  goals = keep_if (known t.nodes_by_name) targets

  Decides-targets : (b : Bool) → Decides t o source goals b → Decides t o source targets b
  Decides-targets true (v, goal, walk) = (v, ((contains-known_targets t targets v).0 goal).0, walk)
  Decides-targets false h = λ v goal (d, walk).
      h v
        ((contains-known_targets t targets v).1
          (goal, Walk-known (names t) valid.ends known_source walk))
        (d, walk)

  has_path-eq : has_path t source targets o ≡ (
      if is_empty goals
      then ok false
      else if contains source goals
      then ok true
      else loop t o goals (fuel t) (record { visited = source ∷ []; pending = source ∷ [] }))
  unfolding has_path node
  has_path-eq =
      let (n, at_source) = lookup-known source t.nodes_by_name known_source in rw at_source

  -- In a valid topology, from a known node, with no unknown link excluded, `has_path` returns, and
  -- its answer says whether some walk that does not use the excluded link leads to one of the
  -- targets.
  pub has_path-Decides :
      (b : Bool) × (has_path t source targets o ≡ ok b) × Decides t o source targets b
  has_path-Decides = elim (Bool-cases (is_empty goals)) [
    | inl empty ↦ (
      false,
      rw (has_path-eq, empty),
      Decides-targets false (λ v goal walk. cc (contains-empty v goals empty)),
    )
    | inr filled ↦ elim (Bool-cases (contains source goals)) [
      | inl at_goal ↦ (
        true,
        rw (has_path-eq, filled, at_goal),
        Decides-targets true (source, at_goal, (0, here)),
      )
      | inr away ↦
          let (b, e, decides) =
            loop-Returns t o source goals valid known_link known_source (fuel t)
              (record { visited = source ∷ []; pending = source ∷ [] })
              (initial-Inv t o source goals valid known_link known_source away)
              (omega (arith, unsettled-mark-le (names t) [] source, unsettled-nil (names t))) in
          (b, rw (has_path-eq, filled, away) e, Decides-targets b decides)
    ]
  ]
