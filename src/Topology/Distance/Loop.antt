-- ===== src/Topology/Distance/Loop.antt =====
-- The `while` loop: from the invariant and enough fuel it returns the least cost.
use telconet_sentinel.Common.{
  ℕ, zero, suc, ◌<◌, String, true, false, Option, none, some, List, [], ◌∷◌, Memᴰ, ◌≡◌, refl, ap,
  inl, inr, arith, contains, Bool-cases, length, nat_beq, nat_beq→eq, List-cases,
}
use telconet_sentinel.Common.Dict.{lookup}
use telconet_sentinel.Errors.{Result, ok}
use telconet_sentinel.Models.{Link}
use telconet_sentinel.Topology.Walk.{Excluded, IsProper, IsLeast, EndsIn, Walk-known}
use telconet_sentinel.Topology.Distance.{
  Entry, Search, Round, return, continue, settle, round, finish, loop, scan,
}
use telconet_sentinel.Topology.Distance.Invariant.{Inv}
use telconet_sentinel.Topology.Distance.Scan.{length-scan}
use telconet_sentinel.Topology.Distance.Frontier.{unsettled-mark, work}
use telconet_sentinel.Topology.Distance.Step.{
  empty-IsLeast, popped_entry, goal-IsLeast, stale-Inv, fresh, expanded-Inv,
}

module _ (ls : List Link) (x : Excluded) (goals : List String) (source : String)
    (names : List String) (proper : (l : Link) → Memᴰ l ls → IsProper l) (ends : EndsIn names ls)
    (known_source : contains source names ≡ true) where
  -- What a round comes to: the answer, or a search with less work left than `n`.
  abbrev Advances : ℕ → Round → Type 0
  Advances n (return r) = (a : Option ℕ) × (r ≡ ok a) × IsLeast ls x source goals a
  Advances n (continue s') =
      (settled' : List String) × (now' : ℕ) × Inv ls x goals source settled' settled' now' s'
      × (work ls names settled' s' < n)

  module _ {settled : List String} {now : ℕ} {s : Search}
      (h : Inv ls x goals source settled settled now s) where
    module _ (d : ℕ) (u : String) (rest : List Entry) (e : s.pending ≡ (d, u) ∷ rest) where
      length-pending : length s.pending ≡ suc (length rest)
      length-pending = ap length e

      abbrev popped : Search
      popped = record s { pending = rest }

      expanded-work :
          (at_u : lookup u s.distances ≡ some d)
          → contains u goals ≡ false
          → work ls names (u ∷ settled) (scan x d u popped ls) < work ls names settled s
      expanded-work at_u no_goal = grind (
        arith,
        length-pending,
        length-scan x d u popped ls,
        unsettled-mark names settled u (Walk-known names ends known_source (h.sound u d at_u))
            (fresh h d u rest e at_u no_goal),
      )

      settle-Advances : Advances (work ls names settled s) (settle ls x goals popped d u)
      unfolding settle
      settle-Advances =
          let (b, at_u, low, _) = popped_entry h d u rest e in
          elim (Bool-cases (nat_beq d b)) [
            | inl same ↦
                let at_d : lookup u s.distances ≡ some d = ground (arith, nat_beq→eq d b) in
                elim (Bool-cases (contains u goals)) [
                  | inl goal ↦
                      rw (at_u, settle, same, goal)
                        (some d, refl, goal-IsLeast h d u rest e at_d goal)
                  | inr no_goal ↦
                      rw (at_u, settle, same, no_goal)
                        (
                          u ∷ settled,
                          d,
                          expanded-Inv h d u rest e at_d no_goal proper,
                          expanded-work at_d no_goal,
                        )
                ]
            | inr differs ↦
                rw (at_u, settle, differs)
                  (
                    settled,
                    now,
                    stale-Inv h d u rest e b at_u (ground arith),
                    omega (arith, length-pending),
                  )
          ]

      round_pops : round ls x goals s ≡ settle ls x goals popped d u
      unfolding round
      round_pops = rw (e, round)

    round_empty : s.pending ≡ [] → round ls x goals s ≡ return (ok none)
    unfolding round
    round_empty empty = rw (empty, round)

    round-Advances : Advances (work ls names settled s) (round ls x goals s)
    round-Advances = elim (List-cases s.pending) [
      | inl empty ↦ rw (round_empty empty) (none, refl, empty-IsLeast h empty)
      | inr ((d, u), rest, e) ↦ rw (round_pops d u rest e) (settle-Advances d u rest e)
    ]

  -- With more fuel than work the loop returns the least cost.
  abbrev pub Returns : Result (Option ℕ) → Type 0
  Returns r = (a : Option ℕ) × (r ≡ ok a) × IsLeast ls x source goals a

  finish-Returns :
      (n : ℕ) (again : Search → Result (Option ℕ))
      → ((settled : List String) (now : ℕ) (s : Search)
          → Inv ls x goals source settled settled now s
          → work ls names settled s < n
          → Returns (again s))
      → (r : Round) → Advances n r
      → Returns (finish r again)
  finish-Returns n again ih (return r) a = a
  finish-Returns n again ih (continue s) (settled, now, h, less) = ih settled now s h less

  pub loop-Returns :
      (fuel : ℕ) {settled : List String} {now : ℕ} {s : Search}
      → Inv ls x goals source settled settled now s
      → work ls names settled s < fuel
      → Returns (loop ls x goals fuel s)
  unfolding loop
  loop-Returns zero h enough = absurd (omega arith)
  loop-Returns (suc fuel) {settled} {s = s} h enough =
      finish-Returns (work ls names settled s) (loop ls x goals fuel)
        (λ settled' now' s' h' less. loop-Returns fuel h' (omega arith)) (round ls x goals s)
        (round-Advances h)
