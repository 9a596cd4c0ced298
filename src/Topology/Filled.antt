-- ===== src/Topology/Filled.antt =====
-- What the loops of the constructor of `Topology` make of items that they take.
use telconet_sentinel.Common.{
  String, true, false, none, List, [], ◌∷◌, map, Memᴰ, ◌≡◌, refl, ap, ◌∙◌, arith, leb, all_distinct,
  contains, contains-head, contains-tail, keep_if, eq_iff, ◌==◌,
}
use telconet_sentinel.Common.Dict.{Dict, lookup, insert, keys, contains-keys, lookup-insert}
use telconet_sentinel.Common.Dict.Index.{index_from, index_by, index_by-map, with_key}
use telconet_sentinel.Errors.{ok}
use telconet_sentinel.Models.{Node, Link}
use telconet_sentinel.Topology.{
  known, unknown_endpoints, add_node, add_link, add_nodes, add_links, new,
}

abbrev pub name_of : Node → String
name_of n = n.name

abbrev pub id_of : Link → String
id_of l = l.id

add_node-fresh :
    (d : Dict Node) (n : Node) → lookup n.name d ≡ none → add_node d n ≡ ok (insert n.name n d)
unfolding add_node known
add_node-fresh d n h = ground (arith, contains-keys n.name d)

add_nodes-fresh :
    (ns : List Node) (d : Dict Node)
    → all_distinct (map name_of ns) ≡ true
    → ((k : String) → contains k (map name_of ns) ≡ true → lookup k d ≡ none)
    → add_nodes d ns ≡ ok (index_from name_of d ns)
unfolding add_nodes all_distinct index_from
add_nodes-fresh [] d h new = refl
add_nodes-fresh (n ∷ ns) d h new =
    rw (add_node-fresh d n (new n.name (contains-head n.name (map name_of ns)))) (
      add_nodes-fresh ns (insert n.name n d) (ground arith) (λ k listed. ground (
        arith,
        lookup-insert k n.name n d,
        eq_iff n.name k,
        new k (contains-tail k n.name (map name_of ns) listed),
      )))

pub add_nodes_from_empty :
    (ns : List Node)
    → all_distinct (map name_of ns) ≡ true
    → add_nodes [] ns ≡ ok (map (with_key name_of) ns)
unfolding lookup index_by
add_nodes_from_empty ns h =
    add_nodes-fresh ns [] h (λ k listed. refl) ∙ ap ok (index_by-map name_of ns h)

-- A link that the constructor of `Topology` takes.
pub record IsTaken (d : Dict Node) (l : Link) : Type 0 where
  pub positive : leb l.cost 0 ≡ false
  pub proper : (l.endpoint_a == l.endpoint_b) ≡ false
  pub known_a : contains l.endpoint_a (keys d) ≡ true
  pub known_b : contains l.endpoint_b (keys d) ≡ true

add_link-fresh :
    (d : Dict Node) (links : Dict Link) (l : Link)
    → IsTaken d l
    → lookup l.id links ≡ none
    → add_link d links l ≡ ok (insert l.id l links)
unfolding add_link known unknown_endpoints keep_if
add_link-fresh d links l h new =
    ground (arith, contains-keys l.id links, h.positive, h.proper, h.known_a, h.known_b)

add_links-fresh :
    (d : Dict Node) (ls : List Link) (links : Dict Link)
    → ((l : Link) → Memᴰ l ls → IsTaken d l)
    → all_distinct (map id_of ls) ≡ true
    → ((k : String) → contains k (map id_of ls) ≡ true → lookup k links ≡ none)
    → add_links d links ls ≡ ok (index_from id_of links ls)
unfolding add_links all_distinct index_from
add_links-fresh d [] links taken h new = refl
add_links-fresh d (l ∷ ls) links taken h new =
    let fresh = new l.id (contains-head l.id (map id_of ls)) in
    rw (add_link-fresh d links l (taken l (Memᴰ.head refl)) fresh) (
      add_links-fresh d ls (insert l.id l links) (λ k m. taken k (Memᴰ.tail m)) (ground arith)
        (λ k listed. ground (
          arith,
          lookup-insert k l.id l links,
          eq_iff l.id k,
          new k (contains-tail k l.id (map id_of ls) listed),
        )))

pub add_links_from_empty :
    (d : Dict Node) (ls : List Link)
    → ((l : Link) → Memᴰ l ls → IsTaken d l)
    → all_distinct (map id_of ls) ≡ true
    → add_links d [] ls ≡ ok (map (with_key id_of) ls)
unfolding lookup index_by
add_links_from_empty d ls taken h =
    add_links-fresh d ls [] taken h (λ k listed. refl) ∙ ap ok (index_by-map id_of ls h)
