-- ===== src/Topology/Distance/Correct.antt =====
-- `shortest_distance_excluding` returns the least cost of a walk.
use telconet_sentinel.Common.{
  ℕ, ◌*◌, String, true, false, not, Option, none, some, List, ◌≡◌, refl, ap, inl, inr, ◌↔◌, arith,
  contains, contains-mem, contains-empty, keep_if, Memᴰ-keep_if, is_empty, Bool-cases, length,
  if◌then◌else◌,
}
use telconet_sentinel.Common.Dict.{keys, values}
use telconet_sentinel.Errors.{ok}
use telconet_sentinel.Models.{Link}
use telconet_sentinel.Topology.{Topology, known, node}
use telconet_sentinel.Topology.Valid.{IsValid}
use telconet_sentinel.Topology.Walk.{Excluded, Walk, here, step, IsLeast, Walk-known}
use telconet_sentinel.Topology.Distance.{
  loop, fuel, initial, known_targets, shortest_distance_excluding,
}
use telconet_sentinel.Topology.Distance.Start.{initial-Inv}
use telconet_sentinel.Topology.Distance.Checks.{
  AreKnown, lookup-known, check_links-ok, check_nodes-ok,
}
use telconet_sentinel.Topology.Distance.Frontier.{unsettled-nil}
use telconet_sentinel.Topology.Distance.Loop.{Returns, loop-Returns}

-- A goal that a walk can end in is a target that is known and not excluded.
contains-known_targets :
    (t : Topology) (targets excluded : List String) (k : String)
    → (contains k (known_targets t targets excluded) ≡ true) ↔ (
        (contains k targets ≡ true)
        × (contains k (keys t.nodes_by_name) ≡ true)
        × (contains k excluded ≡ false))
unfolding known_targets known
contains-known_targets t targets excluded k =
    let names = keys t.nodes_by_name in
    let known_ones = keep_if (λ n. contains n names) targets in
    let goals = keep_if (λ n. not (contains n excluded)) known_ones in
    ground (
      arith,
      contains-mem k goals,
      Memᴰ-keep_if (λ n. not (contains n excluded)) k known_ones,
      Memᴰ-keep_if (λ n. contains n names) k targets,
      contains-mem k targets,
    )

module _ (t : Topology) (source : String) (targets : List String) (x : Excluded) (valid : IsValid t)
    (known_source : contains source (keys t.nodes_by_name) ≡ true) where
  abbrev ls : List Link
  ls = values t.links_by_id

  abbrev goals : List String
  goals = known_targets t targets x.nodes

  -- A walk from a node that is not excluded ends in one that is not.
  Walk-end :
      {v : String} {d : ℕ}
      → contains source x.nodes ≡ false
      → Walk ls x source v d
      → contains v x.nodes ≡ false
  Walk-end h here = h
  Walk-end h (step w e) = e.open_end

  -- To the targets it is as far as to the goals.
  IsLeast-targets :
      (r : Option ℕ)
      → contains source x.nodes ≡ false
      → IsLeast ls x source goals r
      → IsLeast ls x source targets r
  IsLeast-targets none inside h = λ goal d g walk.
      h goal d
        ((contains-known_targets t targets x.nodes goal).1
          (g, Walk-known (keys t.nodes_by_name) valid.ends known_source walk, Walk-end inside walk))
        walk
  IsLeast-targets (some least) inside (goal, g, walk, low) = (
    goal,
    ((contains-known_targets t targets x.nodes goal).0 g).0,
    walk,
    λ other d o w.
        low other d
          ((contains-known_targets t targets x.nodes other).1
            (o, Walk-known (keys t.nodes_by_name) valid.ends known_source w, Walk-end inside w))
          w,
  )

  found :
      Returns ls x goals source
        (keys t.nodes_by_name)
        valid.proper
        valid.ends
        known_source
        (loop ls x goals (fuel t) (initial source))
  found =
      loop-Returns ls x goals source (keys t.nodes_by_name) valid.proper valid.ends known_source
        (fuel t) (initial-Inv ls x goals source)
        (unfold initial in
          omega (arith, ap (λ (m : ℕ). length ls * m) (unsettled-nil (keys t.nodes_by_name))))

  search_ok :
      AreKnown t x
      → shortest_distance_excluding t source targets x ≡ (
          if contains source x.nodes
          then ok none
          else if is_empty goals
          then ok none
          else loop ls x goals (fuel t) (initial source))
  unfolding shortest_distance_excluding node
  search_ok known_names =
      let (n, at_source) = lookup-known source t.nodes_by_name known_source in
      rw (
        at_source,
        check_links-ok t x.links known_names.links,
        check_nodes-ok t x.nodes known_names.nodes,
      )

  -- In a valid topology, from a known node, with known names excluded, the search returns: `none`
  -- if the node itself is excluded, and otherwise the least cost of a walk to a target, or `none`
  -- if no walk leads to one.
  pub shortest_distance_excluding-IsLeast :
      AreKnown t x
      → (r : Option ℕ) × (shortest_distance_excluding t source targets x ≡ ok r)
        × (contains source x.nodes ≡ true → r ≡ none)
        × (contains source x.nodes ≡ false → IsLeast ls x source targets r)
  shortest_distance_excluding-IsLeast known_names = elim (Bool-cases (contains source x.nodes)) [
    | inl out ↦ (none, rw (search_ok known_names, out), λ _. refl, λ inside. cc)
    | inr inside ↦ elim (Bool-cases (is_empty goals)) [
      | inl empty ↦ (
        none,
        rw (search_ok known_names, inside, empty),
        λ _. refl,
        λ _. IsLeast-targets none inside (no_goals empty),
      )
      | inr some_goal ↦
          let (r, e, least) = found in
          (
            r,
            rw (search_ok known_names, inside, some_goal) e,
            λ out. cc,
            λ _. IsLeast-targets r inside least,
          )
    ]
  ]
    where
      no_goals : is_empty goals ≡ true → IsLeast ls x source goals none
      no_goals empty = λ goal d g walk. cc (contains-empty goal goals empty)
