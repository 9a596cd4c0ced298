-- ===== src/Topology/Path/Rounds.antt =====
-- Looking at the neighbors of one node ends at a target, or visits all of them.
use telconet_sentinel.Common.{
  ℕ, ◌≤◌, String, true, false, Option, List, [], ◌∷◌, ◌≡◌, refl, inl, inr, arith, contains,
  contains-add, contains-cons, contains-empty, contains-head, contains-tail, if◌then◌else◌,
  Bool-cases, ◌==◌, eq_iff, eq_refl, length-append,
}
use telconet_sentinel.Topology.{Topology}
use telconet_sentinel.Topology.Distance.Frontier.{unsettled-mark, unsettled-add}
use telconet_sentinel.Topology.Path.{Frontier, Visit, reached, searching, enqueue, visit}
use telconet_sentinel.Topology.Path.Invariant.{names, work, Reach, Inv, enqueue-Inv}

module _ (t : Topology) (o : Option String) (source : String) (targets : List String) where
  enqueue-work :
      (s : Frontier) (v : String)
      → contains v (names t) ≡ true
      → contains v s.visited ≡ false
      → work t (enqueue s v) ≤ work t s
  unfolding enqueue
  enqueue-work s v named new = omega (
    arith,
    length-append s.pending (v ∷ []),
    unsettled-add (names t) s.visited v,
    unsettled-mark (names t) s.visited v named new,
  )

  enqueue-visited :
      (s : Frontier) (v w : String)
      → contains w (enqueue s v).visited ≡ (if v == w then true else contains w s.visited)
  unfolding enqueue
  enqueue-visited s v w = contains-add w v s.visited

  -- What looking at the neighbors comes to: a target, or all of them visited with no more work left.
  abbrev pub Outcome : List String → List String → ℕ → Visit → Type 0
  Outcome busy found n reached = (v : String) × (contains v targets ≡ true) × Reach t o source v
  Outcome busy found n (searching s) =
      Inv t o source targets busy s
      × ((v : String) → contains v found ≡ true → contains v s.visited ≡ true)
      × (work t s ≤ n)

  visited_mono :
      (s : Frontier) (found : List String) (w : String) (s' : Frontier)
      → visit targets s found ≡ searching s'
      → contains w s.visited ≡ true
      → contains w s'.visited ≡ true
  unfolding visit
  visited_mono s [] w s' e p = ground arith
  visited_mono s (v ∷ found) w s' e p = ground (
    arith,
    visited_mono s found w s',
    visited_mono (enqueue s v) found w s',
    enqueue-visited s v w,
  )

  widen :
      (busy found : List String) (n : ℕ) (v : String) (r : Visit)
      → ((s : Frontier) → r ≡ searching s → contains v s.visited ≡ true)
      → Outcome busy found n r
      → Outcome busy (v ∷ found) n r
  widen busy found n v reached seen h = h
  widen busy found n v (searching s) seen (inv, all, less) =
      (inv, λ w p. ground (arith, contains-cons w v found, all w, seen s refl, eq_iff v w), less)

  pub visit-Outcome :
      {busy : List String} (s : Frontier) (found : List String) (n : ℕ)
      → ((v : String)
          → contains v found ≡ true
          → Reach t o source v × (contains v (names t) ≡ true))
      → work t s ≤ n
      → Inv t o source targets busy s
      → Outcome busy found n (visit targets s found)
  unfolding visit
  visit-Outcome s [] n leads less h = (h, λ v p. absurd (cc (contains-empty v [] refl)), less)
  visit-Outcome {busy} s (v ∷ found) n leads less h = elim (Bool-cases (contains v s.visited)) [
    | inl old ↦ rw old (
        widen busy found n v (visit targets s found) (λ s' e. visited_mono s found v s' e old)
          (visit-Outcome s found n leads_rest less h))
    | inr new ↦ elim (Bool-cases (contains v targets)) [
      | inl goal ↦ rw (new, goal) (v, goal, (leads v (contains-head v found)).0)
      | inr no_goal ↦
          rw (new, no_goal)
            (widen busy found n v (visit targets (enqueue s v) found)
              (λ s' e.
                visited_mono (enqueue s v) found v s' e
                  (ground (arith, enqueue-visited s v v, eq_refl v)))
              (visit-Outcome (enqueue s v) found n leads_rest
                (omega (arith, enqueue-work s v (leads v (contains-head v found)).1 new))
                (enqueue-Inv t o source targets v (leads v (contains-head v found)).0 no_goal h)))
    ]
  ]
    where
      leads_rest :
          (w : String)
          → contains w found ≡ true
          → Reach t o source w × (contains w (names t) ≡ true)
      leads_rest w p = leads w (contains-tail w v found p)
