-- ===== src/Topology/Path/Invariant.antt =====
-- The invariant of the breadth-first search: what is visited is reached, and nothing is passed over.
use telconet_sentinel.Common.{
  ℕ, ◌+◌, String, true, false, Option, List, [], ◌∷◌, ◌≡◌, refl, subst, ◌⊎◌, inl, inr, arith,
  contains, contains-add, contains-cons, contains-append_one, contains-empty, contains-tail,
  Bool-cases, ◌==◌, eq_iff, length,
}
use telconet_sentinel.Common.Dict.{keys, values}
use telconet_sentinel.Models.{Link}
use telconet_sentinel.Topology.{Topology}
use telconet_sentinel.Topology.Walk.{Walk}
use telconet_sentinel.Topology.Distance.Frontier.{unsettled}
use telconet_sentinel.Topology.Path.{Frontier, enqueue}
use telconet_sentinel.Topology.Path.Neighbors.{without, Leads}

abbrev pub ls : Topology → List Link
ls t = values t.links_by_id

abbrev pub names : Topology → List String
names t = keys t.nodes_by_name

-- The nodes that are queued or not seen yet.
abbrev pub work : Topology → Frontier → ℕ
work t s = length s.pending + unsettled (names t) s.visited

-- Some walk leads from the source to `v`.
abbrev pub Reach : Topology → Option String → String → String → Type 0
Reach t o source v = (d : ℕ) × Walk (ls t) (without o) source v d

module _ (t : Topology) (o : Option String) (source : String) (targets : List String) where
  -- `busy` is the node whose neighbors are being looked at, if any: its edges are not complete yet.
  pub record Inv (busy : List String) (s : Frontier) : Type 0 where
    pub sound : (v : String) → contains v s.visited ≡ true → Reach t o source v
    pub origin : contains source s.visited ≡ true
    pub closed :
        (u v : String)
        → contains u s.visited ≡ true
        → Leads (ls t) o u v
        → (contains u s.pending ≡ true) ⊎ (contains u busy ≡ true) ⊎ (contains v s.visited ≡ true)
    pub queued : (v : String) → contains v s.pending ≡ true → contains v s.visited ≡ true
    pub goalless : (v : String) → contains v s.visited ≡ true → contains v targets ≡ false

  pub enqueue-Inv :
      {busy : List String} {s : Frontier} (v : String)
      → Reach t o source v
      → contains v targets ≡ false
      → Inv busy s
      → Inv busy (enqueue s v)
  unfolding enqueue
  enqueue-Inv {busy} {s} v walk no_goal h = record {
    sound = λ w p. elim (Bool-cases (v == w)) [
      | inl same ↦ subst (Reach t o source) ((eq_iff v w).0 same) walk
      | inr other ↦ h.sound w (ground (arith, contains-add w v s.visited))
    ];
    origin = ground (arith, contains-add source v s.visited, h.origin);
    closed = λ a b p e. elim (Bool-cases (v == a)) [
      | inl same ↦ inl (ground (arith, contains-append_one a v s.pending))
      | inr other ↦ elim (h.closed a b (ground (arith, contains-add a v s.visited)) e) [
        | inl q ↦ inl (ground (arith, contains-append_one a v s.pending))
        | inr (inl q) ↦ inr (inl q)
        | inr (inr q) ↦ inr (inr (ground (arith, contains-add b v s.visited)))
      ]
    ];
    queued = λ w p.
        ground (arith, contains-add w v s.visited, contains-append_one w v s.pending, h.queued w);
    goalless = λ w p. ground (arith, contains-add w v s.visited, eq_iff v w, h.goalless w);
  }

  -- The next node of the queue is busy until its neighbors have been looked at.
  pub dequeue-Inv :
      (s : Frontier) (u : String) (rest : List String)
      → s.pending ≡ u ∷ rest
      → Inv [] s
      → Inv (u ∷ []) (record s { pending = rest })
  dequeue-Inv s u rest e h = record {
    sound = h.sound;
    origin = h.origin;
    closed = λ a b p q. elim (h.closed a b p q) [
      | inl waiting ↦ split a b (subst (λ queue. contains a queue ≡ true) e waiting)
      | inr (inl none_busy) ↦ cc (contains-empty a [] refl)
      | inr (inr seen) ↦ inr (inr seen)
    ];
    queued = λ v p. h.queued v (rw e (contains-tail v u rest p));
    goalless = h.goalless;
  }
    where
      split :
          (a b : String)
          → contains a (u ∷ rest) ≡ true
          → (contains a rest ≡ true) ⊎ (contains a (u ∷ []) ≡ true) ⊎ (contains b s.visited ≡ true)
      split a b p = elim (Bool-cases (u == a)) [
        | inl same ↦ inr (inl (ground (arith, contains-cons a u [])))
        | inr other ↦ inl (ground (arith, contains-cons a u rest))
      ]

  pub idle-Inv :
      (s : Frontier) (u : String)
      → ((v : String) → Leads (ls t) o u v → contains v s.visited ≡ true)
      → Inv (u ∷ []) s
      → Inv [] s
  idle-Inv s u all h = record {
    sound = h.sound;
    origin = h.origin;
    closed = λ a b p q. elim (h.closed a b p q) [
      | inl waiting ↦ inl waiting
      | inr (inl busy) ↦ inr (
          inr (
            all b (
              subst (λ w. Leads (ls t) o w b)
                (ground (arith, contains-cons a u [], eq_iff u a, contains-empty a [] refl)) q)))
      | inr (inr seen) ↦ inr (inr seen)
    ];
    queued = h.queued;
    goalless = h.goalless;
  }
