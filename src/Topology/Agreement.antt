-- ===== src/Topology/Agreement.antt =====
-- The two searches agree, and what is taken out of a topology never brings a target nearer.
use telconet_sentinel.Common.{
  ℕ, ◌≤◌, String, Bool, true, false, Option, none, some, List, [], ◌≡◌, refl, arith, contains,
  contains-empty, contains-cons, eq_iff, Bool-cases, inl, inr,
}
use telconet_sentinel.Common.Dict.{keys, values, is_some}
use telconet_sentinel.Errors.{ok}
use telconet_sentinel.Models.{Link}
use telconet_sentinel.Topology.{Topology}
use telconet_sentinel.Topology.Valid.{IsValid}
use telconet_sentinel.Topology.Walk.{Excluded, Walk, here, step, IsLeast}
use telconet_sentinel.Topology.Distance.{shortest_distance, shortest_distance_excluding}
use telconet_sentinel.Topology.Distance.Checks.{AreKnown}
use telconet_sentinel.Topology.Distance.Correct.{shortest_distance_excluding-IsLeast}
use telconet_sentinel.Topology.Path.{has_path}
use telconet_sentinel.Topology.Path.Neighbors.{without}
use telconet_sentinel.Topology.Path.Correct.{Decides, has_path-Decides}

abbrev pub nothing : Excluded
nothing = record { links = []; nodes = [] }

Walk-nothing :
    {ls : List Link} {x : Excluded} {source v : String} {d : ℕ}
    → Walk ls x source v d
    → Walk ls nothing source v d
Walk-nothing here = here
Walk-nothing (step {u} {v} walk e) = step (Walk-nothing walk) (record {
  via = e.via;
  present = e.present;
  allowed = contains-empty e.via.id [] refl;
  joins = e.joins;
  open_end = contains-empty v [] refl;
  priced = e.priced;
})

IsLeast-agrees :
    (t : Topology) (o : Option String) (source : String) (targets : List String) (b : Bool)
    (r : Option ℕ)
    → Decides t o source targets b
    → IsLeast (values t.links_by_id) (without o) source targets r
    → b ≡ is_some r
IsLeast-agrees t o source targets true none (v, goal, (d, walk)) h = absurd (h v d goal walk)
IsLeast-agrees t o source targets true (some d) h k = refl
IsLeast-agrees t o source targets false none h k = refl
IsLeast-agrees t o source targets false (some d) h (v, goal, walk, _) = absurd (h v goal (d, walk))

-- A distance through what is left is no shorter than the distance through all.
IsLeast-le :
    (ls : List Link) (x : Excluded) (source : String) (targets : List String) (a b : ℕ)
    → IsLeast ls nothing source targets (some a)
    → IsLeast ls x source targets (some b)
    → a ≤ b
IsLeast-le ls x source targets a b (_, _, _, low) (v, goal, walk, _) =
    low v b goal (Walk-nothing walk)

pub no_names : (t : Topology) → AreKnown t nothing
no_names t = record {
  links = λ k p. cc (contains-empty k [] refl);
  nodes = λ k p. cc (contains-empty k [] refl);
}

-- The second distance is no nearer than the first, where `none` is beyond every number.
abbrev pub IsNoNearer : Option ℕ → Option ℕ → Type 0
IsNoNearer a none = Unit
IsNoNearer none (some b) = ⊥
IsNoNearer (some a) (some b) = a ≤ b

IsNoNearer-least :
    (ls : List Link) (x : Excluded) (source : String) (targets : List String) (a b : Option ℕ)
    → IsLeast ls nothing source targets a
    → IsLeast ls x source targets b
    → IsNoNearer a b
IsNoNearer-least ls x source targets a none h k = tt
IsNoNearer-least ls x source targets none (some b) h (v, goal, walk, _) =
    h v b goal (Walk-nothing walk)
IsNoNearer-least ls x source targets (some a) (some b) h k = IsLeast-le ls x source targets a b h k

no_name_known :
    (t : Topology) (o : Option String)
    → ((k : String) → o ≡ some k → contains k (keys t.links_by_id) ≡ true)
    → AreKnown t (without o)
no_name_known t none h = no_names t
no_name_known t (some k) h = record {
  links = λ j p. ground (arith, contains-cons j k [], contains-empty j [] refl, eq_iff k j, h j);
  nodes = λ j p. cc (contains-empty j [] refl);
}

module _ (t : Topology) (source : String) (targets : List String) (valid : IsValid t)
    (known_source : contains source (keys t.nodes_by_name) ≡ true) where
  -- In a valid topology, from a known node, with no unknown link excluded, both searches return,
  -- and `has_path` is true exactly if `shortest_distance` finds a distance.
  pub has_path-agrees :
      (o : Option String)
      → ((k : String) → o ≡ some k → contains k (keys t.links_by_id) ≡ true)
      → (b : Bool) × (r : Option ℕ) × (has_path t source targets o ≡ ok b)
        × (shortest_distance t source targets o none ≡ ok r)
        × (b ≡ is_some r)
  unfolding shortest_distance
  has_path-agrees o known_link =
      let (b, e, decides) = has_path-Decides t source targets o valid known_link known_source in
      let (r, f, _, least) =
        shortest_distance_excluding-IsLeast t source targets (without o) valid known_source
          (no_name_known t o known_link) in
      (
        b,
        r,
        e,
        f,
        IsLeast-agrees t o source targets b r decides (least (contains-empty source [] refl)),
      )

  -- In a valid topology, from a known node, both searches return, and taking known links and nodes
  -- out never brings a target nearer, and never makes one reachable that was not.
  pub shortest_distance-IsNoNearer :
      (x : Excluded)
      → AreKnown t x
      → (a b : Option ℕ) × (shortest_distance t source targets none none ≡ ok a)
        × (shortest_distance_excluding t source targets x ≡ ok b)
        × IsNoNearer a b
  unfolding shortest_distance
  shortest_distance-IsNoNearer x known_names =
      let (a, e, _, least) =
        shortest_distance_excluding-IsLeast t source targets nothing valid known_source
          (no_names t) in
      let (b, f, gone, least') =
        shortest_distance_excluding-IsLeast t source targets x valid known_source known_names in
      (
        a,
        b,
        e,
        f,
        elim (Bool-cases (contains source x.nodes)) [
          | inl out ↦ rw (gone out) tt
          | inr inside ↦
              IsNoNearer-least (values t.links_by_id) x source targets a b
                (least (contains-empty source [] refl)) (least' inside)
        ],
      )
