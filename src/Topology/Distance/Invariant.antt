-- ===== src/Topology/Distance/Invariant.antt =====
-- The invariant of the search, and that relaxing an edge keeps it.
use telconet_sentinel.Common.{
  ℕ, ◌+◌, ◌≤◌, ◌<◌, String, true, false, some, List, Memᴰ, ◌≡◌, ◌⊎◌, inl, inr, arith, eq_iff,
  eq_refl, contains, ltb, Bool-cases, Option-cases, ◌==◌,
}
use telconet_sentinel.Common.Dict.{lookup, insert, or_default, lookup-insert}
use telconet_sentinel.Models.{Link}
use telconet_sentinel.Topology.Walk.{Excluded, Edge, Walk, step}
use telconet_sentinel.Topology.Distance.{Search, relax, heappush}
use telconet_sentinel.Topology.Distance.Queue.{
  IsHeap, heappush-IsHeap, IsUniqueHeap, heappush-IsUniqueHeap, Memᴰ-heappush,
}

-- The search knows a distance to `v` that is at most `k`.
abbrev pub Within : Search → String → ℕ → Type 0
Within s v k = (b : ℕ) × (lookup v s.distances ≡ some b) × (b ≤ k)

module _ (ls : List Link) (x : Excluded) (goals : List String) (source : String) where
  -- `settled` are the nodes that were popped at their distance, and `closed` those of them whose
  -- links were all looked at; `now` is the distance popped last.
  pub record Inv (closed settled : List String) (now : ℕ) (s : Search) : Type 0 where
    pub sound : (v : String) (d : ℕ) → lookup v s.distances ≡ some d → Walk ls x source v d
    pub origin : lookup source s.distances ≡ some 0
    pub waiting :
        (v : String) (d : ℕ)
        → lookup v s.distances ≡ some d
        → contains v settled ≡ false
        → Memᴰ (d, v) s.pending
    pub entries :
        (d : ℕ) (v : String)
        → Memᴰ (d, v) s.pending
        → (b : ℕ) × (lookup v s.distances ≡ some b) × (b ≤ d) × (contains v settled ≡ true → b < d)
    pub edges :
        (u v : String) (c a : ℕ)
        → contains u closed ≡ true
        → lookup u s.distances ≡ some a
        → Edge ls x u v c
        → Within s v (a + c)
    pub within : (u : String) → contains u closed ≡ true → contains u settled ≡ true
    pub reached : (u : String) → contains u settled ≡ true → Within s u now
    pub later : (d : ℕ) (v : String) → Memᴰ (d, v) s.pending → now ≤ d
    pub heap : IsHeap s.pending
    pub unique : IsUniqueHeap s.pending
    pub goalless : (u : String) → contains u settled ≡ true → contains u goals ≡ false

cast-Walk :
    {ls : List Link} {x : Excluded} {source v w : String} {k d : ℕ}
    → v ≡ w
    → k ≡ d
    → Walk ls x source v k
    → Walk ls x source w d
cast-Walk p q walk = rw (← p, ← q) walk

module _ (s : Search) (v : String) (k : ℕ) where
  -- What `relax` leaves when it takes the candidate `k` for `v`.
  abbrev pub lower : Search
  lower = record { distances = insert v k s.distances; pending = heappush s.pending (k, v) }

  abbrev pub Improves : Type 0
  Improves = (b : ℕ) → lookup v s.distances ≡ some b → k < b

  pub relax_cases : (x : Excluded) → (relax x s v k ≡ s) ⊎ (relax x s v k ≡ lower) × Improves
  unfolding relax
  relax_cases x = elim (Bool-cases (contains v x.nodes)) [
    | inl out ↦ inl (rw out)
    | inr open_end ↦ elim (Bool-cases (ltb k (or_default (lookup v s.distances) (k + 1)))) [
      | inl less ↦ inr (rw (open_end, less), λ b e. ground arith)
      | inr more ↦ inl (rw (open_end, more))
    ]
  ]

  pub relax-Within : (x : Excluded) → contains v x.nodes ≡ false → Within (relax x s v k) v k
  unfolding relax
  relax-Within x open_end = elim (Option-cases (lookup v s.distances)) [
    | inl new ↦ (k, ground (arith, lookup-insert v v k s.distances, eq_refl v), ground arith)
    | inr (b, old) ↦ elim (Bool-cases (ltb k b)) [
      | inl less ↦ (k, ground (arith, lookup-insert v v k s.distances, eq_refl v), ground arith)
      | inr more ↦ (b, ground arith, ground arith)
    ]
  ]

  -- A candidate that is taken worsens no distance.
  pub lower-Within : Improves → (w : String) (m : ℕ) → Within s w m → Within lower w m
  lower-Within better w m (b, at_w, low) = elim (Bool-cases (v == w)) [
    | inl same ↦
        (k, ground (arith, lookup-insert w v k s.distances), ground (arith, better b, eq_iff v w))
    | inr other ↦ (b, ground (arith, lookup-insert w v k s.distances), low)
  ]

module _ {ls : List Link} {x : Excluded} {goals : List String} {source : String}
    {closed settled : List String} {now : ℕ} {s : Search}
    (h : Inv ls x goals source closed settled now s) (u v : String) (c : ℕ)
    (at_u : lookup u s.distances ≡ some now) (positive : 0 < c) (e : Edge ls x u v c)
    (improves : Improves s v (now + c)) where
  unsettled : contains v settled ≡ false
  unsettled = elim (Bool-cases (contains v settled)) [
    | inl old ↦ let (b, at_v, low) = h.reached v old in absurd (omega (arith, improves b at_v))
    | inr new ↦ new
  ]

  entry :
      (d : ℕ) (w : String)
      → (b : ℕ) × (lookup w s.distances ≡ some b) × (b ≤ d) × (contains w settled ≡ true → b < d)
      → (b : ℕ) × (lookup w (lower s v (now + c)).distances ≡ some b)
        × (b ≤ d)
        × (contains w settled ≡ true → b < d)
  entry d w (b, at_w, low, strict) = elim (Bool-cases (v == w)) [
    | inl same ↦ (
      now + c,
      ground (arith, lookup-insert w v (now + c) s.distances),
      ground (arith, improves b, eq_iff v w),
      λ old. ground (arith, unsettled, eq_iff v w),
    )
    | inr other ↦ (b, ground (arith, lookup-insert w v (now + c) s.distances), low, strict)
  ]

  lower-Inv : Inv ls x goals source closed settled now (lower s v (now + c))
  lower-Inv = record {
    sound = λ w d p. elim (Bool-cases (v == w)) [
      | inl same ↦
          cast-Walk ((eq_iff v w).0 same) (ground (arith, lookup-insert w v (now + c) s.distances))
            (step (h.sound u now at_u) e)
      | inr other ↦ h.sound w d (ground (arith, lookup-insert w v (now + c) s.distances))
    ];
    origin = ground (
      arith,
      lookup-insert source v (now + c) s.distances,
      eq_iff v source,
      improves 0,
      h.origin,
    );
    waiting = λ w d p q. ground (
      arith,
      lookup-insert w v (now + c) s.distances,
      eq_iff v w,
      h.waiting w d,
      Memᴰ-heappush (d, w) s.pending (now + c, v),
    );
    entries = λ d w m. elim ((Memᴰ-heappush (d, w) s.pending (now + c, v)).0 m) [
      | inl new ↦ (
        now + c,
        ground (arith, lookup-insert w v (now + c) s.distances, eq_iff v w),
        ground arith,
        λ old. ground (arith, unsettled),
      )
      | inr old ↦ entry d w (h.entries d w old)
    ];
    edges = λ a b k d p q r. lower-Within s v (now + c) improves b (d + k) (
        h.edges a b k d p
          (ground
            (arith, lookup-insert a v (now + c) s.distances, eq_iff v a, h.within a, unsettled))
          r);
    within = h.within;
    reached = λ w p. lower-Within s v (now + c) improves w now (h.reached w p);
    later = λ d w m. ground (arith, Memᴰ-heappush (d, w) s.pending (now + c, v), h.later d w);
    heap = heappush-IsHeap s.pending (now + c, v) h.heap;
    unique =
        heappush-IsUniqueHeap s.pending (now + c, v)
          (λ m.
            let (b, at_v, low, strict) = h.entries (now + c) v m in
            absurd (omega (arith, improves b at_v)))
          h.unique;
    goalless = h.goalless;
  }

module _ {ls : List Link} {x : Excluded} {goals : List String} {source : String}
    {closed settled : List String} {now : ℕ} {s : Search}
    (h : Inv ls x goals source closed settled now s) (u v : String) (c : ℕ)
    (at_u : lookup u s.distances ≡ some now) (positive : 0 < c) (e : Edge ls x u v c) where
  pub relax-Inv : Inv ls x goals source closed settled now (relax x s v (now + c))
  relax-Inv = elim (relax_cases s v (now + c) x) [
    | inl same ↦ rw same h
    | inr (lowered, better) ↦ rw lowered (lower-Inv h u v c at_u positive e better)
  ]
