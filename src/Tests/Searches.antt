-- ===== src/Tests/Searches.antt =====
-- The searches on the sample network.
use telconet_sentinel.Common.{
  String, Option, none, some, List, [], ◌∷◌, true, false, contains, ◌≡◌, refl, subst, codes_leb,
  name_leb, keep_if, add, insert_sorted, sort, ℕ, ◌↔◌, arith, Bool,
}
use telconet_sentinel.Common.Dict.{lookup, insert, keys, values, is_some}
use telconet_sentinel.Errors.{ok, err, unknown_link}
use telconet_sentinel.Topology.{known, node, link, neighbors, add_neighbor, check_excluded}
use telconet_sentinel.Topology.Walk.{Excluded, IsLeast}
use telconet_sentinel.Topology.Valid.{IsValid, new-IsValid}
use telconet_sentinel.Topology.Distance.{
  entry_leb, heappush, relax, offer, scan, settle, round, loop, check_links, check_nodes,
  known_targets, initial, shortest_distance_excluding, shortest_distance,
}
use telconet_sentinel.Topology.Distance.Checks.{AreKnown}
use telconet_sentinel.Topology.Distance.Correct.{shortest_distance_excluding-IsLeast}
use telconet_sentinel.Topology.Path.{enqueue, visit, has_path}
use telconet_sentinel.Topology.Path as PathSearch
use telconet_sentinel.Topology.Path.Correct.{Decides, has_path-Decides}
use telconet_sentinel.Topology.Path.Neighbors.{neighbors-lead, Leads}
use telconet_sentinel.Topology.Agreement.{IsNoNearer, has_path-agrees, shortest_distance-IsNoNearer}
use telconet_sentinel.Tests.Sample.{
  network, network-IsValid, network_built, sample_nodes, sample_links, access_known,
}

-- The agg side is closed.
abbrev north_out : Excluded
north_out = record { links = "acc-agg" ∷ []; nodes = [] }

distances :
    (shortest_distance network "acc-1" ("svc-1" ∷ []) none none ≡ ok (some 20))
    × (shortest_distance network "acc-1" ("svc-1" ∷ []) (some "acc-agg") none ≡ ok (some 30))
    × (shortest_distance network "acc-1" ("svc-1" ∷ []) (some "acc-agg") (some "core-1") ≡ ok none)
    × (shortest_distance network "acc-1" ("svc-1" ∷ []) (some "x") none ≡ err (unknown_link "x"))
unfolding shortest_distance shortest_distance_excluding check_links check_nodes known_targets
    initial loop round settle scan offer relax heappush entry_leb name_leb codes_leb known node link
    contains lookup keep_if insert insert_sorted
distances = (refl, refl, refl, refl)

paths :
    (has_path network "acc-1" ("svc-1" ∷ []) none ≡ ok true)
    × (has_path network "acc-1" ("svc-1" ∷ []) (some "acc-agg") ≡ ok true)
    × (neighbors network "acc-1" none ≡ ok ("agg-1" ∷ "core-1" ∷ []))
unfolding has_path PathSearch.loop enqueue visit neighbors add_neighbor check_excluded known node
    link contains lookup keep_if add sort insert_sorted name_leb codes_leb
paths = (refl, refl, refl)

new-IsValid_example : IsValid network
new-IsValid_example = new-IsValid sample_nodes sample_links network network_built

link_known : (k : String) → some "acc-agg" ≡ some k → contains k (keys network.links_by_id) ≡ true
unfolding contains
link_known k e = subst (λ k. contains k (keys network.links_by_id) ≡ true) (some_eq e) refl
  where
    some_eq : some "acc-agg" ≡ some k → "acc-agg" ≡ k
    some_eq e = cc

north_known : AreKnown network north_out
unfolding contains
north_known = record { links = λ k p. ground arith; nodes = λ k p. cc }

shortest_distance_excluding-IsLeast_example :
    (r : Option ℕ) × (shortest_distance_excluding network "acc-1" ("svc-1" ∷ []) north_out ≡ ok r)
    × (contains "acc-1" [] ≡ true → r ≡ none)
    × (contains "acc-1" [] ≡ false
        → IsLeast (values network.links_by_id) north_out "acc-1" ("svc-1" ∷ []) r)
shortest_distance_excluding-IsLeast_example =
    shortest_distance_excluding-IsLeast network "acc-1" ("svc-1" ∷ []) north_out network-IsValid
      access_known north_known

has_path-Decides_example :
    (b : Bool) × (has_path network "acc-1" ("svc-1" ∷ []) (some "acc-agg") ≡ ok b)
    × Decides network (some "acc-agg") "acc-1" ("svc-1" ∷ []) b
has_path-Decides_example =
    has_path-Decides network "acc-1" ("svc-1" ∷ []) (some "acc-agg") network-IsValid link_known
      access_known

neighbors-lead_example :
    (found : List String) × (neighbors network "acc-1" (some "acc-agg") ≡ ok found)
    × ((v : String)
        → (contains v found ≡ true) ↔ Leads (values network.links_by_id) (some "acc-agg") "acc-1" v)
neighbors-lead_example =
    neighbors-lead network network-IsValid (some "acc-agg") link_known "acc-1" access_known

has_path-agrees_example :
    (b : Bool) × (r : Option ℕ) × (has_path network "acc-1" ("svc-1" ∷ []) (some "acc-agg") ≡ ok b)
    × (shortest_distance network "acc-1" ("svc-1" ∷ []) (some "acc-agg") none ≡ ok r)
    × (b ≡ is_some r)
has_path-agrees_example =
    has_path-agrees network "acc-1" ("svc-1" ∷ []) network-IsValid access_known (some "acc-agg")
      link_known

shortest_distance-IsNoNearer_example :
    (a b : Option ℕ) × (shortest_distance network "acc-1" ("svc-1" ∷ []) none none ≡ ok a)
    × (shortest_distance_excluding network "acc-1" ("svc-1" ∷ []) north_out ≡ ok b)
    × IsNoNearer a b
shortest_distance-IsNoNearer_example =
    shortest_distance-IsNoNearer network "acc-1" ("svc-1" ∷ []) network-IsValid access_known
      north_out north_known
