-- ===== src/Topology/Distance/Step.antt =====
-- One round of the `while` loop keeps the invariant and uses up work, or ends with the least cost.
use mathlib.Core.List.Memᴰ
use telconet_sentinel.Common.{
  ℕ, ◌+◌, ◌≤◌, ◌<◌, String, true, false, none, some, List, [], ◌∷◌, Memᴰ, ◌≡◌, refl, ◌≢◌, sym,
  subst, ap, ◌⊎◌, inl, inr, arith, eq_iff, contains, contains-cons, Bool-cases, ◌==◌,
}
use telconet_sentinel.Common.Dict.{lookup}
use telconet_sentinel.Models.{Link}
use telconet_sentinel.Topology.Walk.{Excluded, Edge, Joins, IsProper, IsLeast}
use telconet_sentinel.Topology.Distance.{Entry, Search, scan}
use telconet_sentinel.Topology.Distance.Queue.{IsHeap, IsUniqueHeap, IsHeap-tail, IsHeap-head}
use telconet_sentinel.Topology.Distance.Invariant.{Within, Inv}
use telconet_sentinel.Topology.Distance.Scan.{scan-Inv, scan-Within, lookup-scan}
use telconet_sentinel.Topology.Distance.Frontier.{frontier}

module _ {ls : List Link} {x : Excluded} {goals : List String} {source : String}
    {settled : List String} {now : ℕ} {s : Search}
    (h : Inv ls x goals source settled settled now s) where
  -- The heap is empty: every node that a walk reaches is settled, and none is a goal.
  pub empty-IsLeast : s.pending ≡ [] → IsLeast ls x source goals none
  empty-IsLeast e goal d g walk = elim (frontier ls x goals source h walk) [
    | inl (old, _) ↦ cc (h.goalless goal old)
    | inr (k, w, m, low) ↦ Memᴰ.not-nil (subst (Memᴰ (k, w)) e m)
  ]

  module _ (d : ℕ) (u : String) (rest : List Entry) (e : s.pending ≡ (d, u) ∷ rest) where
    abbrev pub popped : Search
    popped = record s { pending = rest }

    in_heap : (k : ℕ) (v : String) → Memᴰ (k, v) rest → Memᴰ (k, v) s.pending
    in_heap k v m = subst (Memᴰ (k, v)) (sym e) (Memᴰ.tail m)

    popped-mem : (k : ℕ) (v : String) → Memᴰ (k, v) s.pending → (k ≡ d) × (v ≡ u) ⊎ Memᴰ (k, v) rest
    popped-mem k v m = elim (Memᴰ.cases_cons (subst (Memᴰ (k, v)) e m)) [
      | inl same ↦ inl (ap (λ (p : Entry). p.0) same, ap (λ (p : Entry). p.1) same)
      | inr other ↦ inr other
    ]

    heap : IsHeap ((d, u) ∷ rest)
    heap = subst IsHeap e h.heap

    -- The popped entry is the least of the heap.
    popped-le : (k : ℕ) (v : String) → Memᴰ (k, v) s.pending → d ≤ k
    popped-le k v m = elim (popped-mem k v m) [
      | inl (same, _) ↦ omega arith
      | inr other ↦ IsHeap-head d u rest heap k v other
    ]

    now-le : now ≤ d
    now-le = h.later d u (subst (Memᴰ (d, u)) (sym e) (Memᴰ.head refl))

    pub popped_entry :
        (b : ℕ) × (lookup u s.distances ≡ some b) × (b ≤ d) × (contains u settled ≡ true → b < d)
    popped_entry = h.entries d u (subst (Memᴰ (d, u)) (sym e) (Memᴰ.head refl))

    pub goal-IsLeast :
        lookup u s.distances ≡ some d → contains u goals ≡ true → IsLeast ls x source goals (some d)
    goal-IsLeast at_u g = (
      u,
      g,
      h.sound u d at_u,
      λ other k o walk. elim (frontier ls x goals source h walk) [
        | inl (old, _) ↦ cc (h.goalless other old)
        | inr (i, w, m, low) ↦ omega (arith, popped-le i w m)
      ],
    )

    pub stale-Inv :
        (b : ℕ)
        → lookup u s.distances ≡ some b
        → b ≢ d
        → Inv ls x goals source settled settled now popped
    stale-Inv b at_u stale = record {
      sound = h.sound;
      origin = h.origin;
      waiting = λ v k p q. elim (popped-mem k v (h.waiting v k p q)) [
        | inl (same_d, same_u) ↦ absurd (stale (cc))
        | inr other ↦ other
      ];
      entries = λ k v m. h.entries k v (in_heap k v m);
      edges = h.edges;
      within = h.within;
      reached = h.reached;
      later = λ k v m. h.later k v (in_heap k v m);
      heap = IsHeap-tail (d, u) rest heap;
      unique = (subst IsUniqueHeap e h.unique).1;
      goalless = h.goalless;
    }

    module _ (at_u : lookup u s.distances ≡ some d) (no_goal : contains u goals ≡ false) where
      pub fresh : contains u settled ≡ false
      fresh = elim (Bool-cases (contains u settled)) [
        | inl old ↦ let (b, at_u', low, strict) = popped_entry in absurd (ground arith)
        | inr new ↦ new
      ]

      abbrev mark : List String
      mark = u ∷ settled

      -- Another entry for the node has a larger distance, since no entry occurs twice.
      later_again :
          (b k : ℕ) (v : String) → lookup v s.distances ≡ some b → u ≡ v → Memᴰ (k, v) rest → b < k
      later_again b k v at_v same m =
          let b-eq : b ≡ d = cc in
          let k-ne : k ≢ d =
            λ p. (subst IsUniqueHeap e h.unique).0 (Memᴰ.cast (λ i. (sym p i, same i)) m) in
          omega (arith, IsHeap-head d u rest heap k v m)

      sooner : (v : String) → Within s v now → Within s v d
      sooner v (b, at_v, low) = (b, at_v, omega (arith, now-le))

      -- The popped node is settled, and its links are still to be looked at.
      mark-Inv : Inv ls x goals source settled mark d popped
      mark-Inv = record {
        sound = h.sound;
        origin = h.origin;
        waiting = λ v k p q.
            elim (popped-mem k v (h.waiting v k p (ground (arith, contains-cons v u settled)))) [
              | inl (_, same) ↦ absurd (ground (arith, contains-cons v u settled, eq_iff u v))
              | inr other ↦ other
            ];
        entries = λ k v m.
            let (b, at_v, low, strict) = h.entries k v (in_heap k v m) in
            (
              b,
              at_v,
              low,
              λ q. elim (Bool-cases (u == v)) [
                | inl same ↦ later_again b k v at_v ((eq_iff u v).0 same) m
                | inr other ↦ strict (ground (arith, contains-cons v u settled))
              ],
            );
        edges = h.edges;
        within = λ v p. ground (arith, contains-cons v u settled, h.within v);
        reached = λ v p. elim (Bool-cases (u == v)) [
          | inl same ↦ (d, rw (← (eq_iff u v).0 same) at_u, omega arith)
          | inr other ↦ sooner v (h.reached v (ground (arith, contains-cons v u settled)))
        ];
        later = λ k v m. popped-le k v (in_heap k v m);
        heap = IsHeap-tail (d, u) rest heap;
        unique = (subst IsUniqueHeap e h.unique).1;
        goalless = λ v p. ground (arith, contains-cons v u settled, h.goalless v, eq_iff u v);
      }

      abbrev pub expanded : Search
      expanded = scan x d u popped ls

      scanned-Inv :
          ((l : Link) → Memᴰ l ls → IsProper l) → Inv ls x goals source settled mark d expanded
      scanned-Inv proper =
          scan-Inv ls x goals source settled mark d u popped ls (λ l m. (m, proper l m)) at_u
            mark-Inv

      expanded-edges :
          (proper : (l : Link) → Memᴰ l ls → IsProper l)
          → (a v : String) (c k : ℕ) → contains a mark ≡ true
          → lookup a expanded.distances ≡ some k
          → Edge ls x a v c
          → Within expanded v (k + c)
      expanded-edges proper a v c k p q r = elim (Bool-cases (u == a)) [
        | inl same ↦
            let is_u : u ≡ a = (eq_iff u a).0 same in
            let at_d : lookup u expanded.distances ≡ some d = lookup-scan x d u popped ls at_u in
            let k-eq : k ≡ d = cc in
            subst (Within expanded v) (omega (arith, r.priced)) (
              scan-Within x d u popped ls v r.via r.present r.allowed r.open_end
                (proper r.via r.present).proper (subst (λ w. Joins r.via w v) (sym is_u) r.joins))
        | inr other ↦
            (scanned-Inv proper).edges a v c k (ground (arith, contains-cons a u settled)) q r
      ]

      pub expanded-Inv :
          ((l : Link) → Memᴰ l ls → IsProper l) → Inv ls x goals source mark mark d expanded
      expanded-Inv proper =
          let scanned = scanned-Inv proper in
          record {
            sound = scanned.sound;
            origin = scanned.origin;
            waiting = scanned.waiting;
            entries = scanned.entries;
            edges = expanded-edges proper;
            within = λ v p. p;
            reached = scanned.reached;
            later = scanned.later;
            heap = scanned.heap;
            unique = scanned.unique;
            goalless = scanned.goalless;
          }
