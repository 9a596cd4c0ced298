-- ===== src/Topology/Valid.antt =====
-- What the constructor of `Topology` guarantees.
use mathlib.Core.List.Memᴰ
use telconet_sentinel.Common.{
  String, true, none, some, List, [], ◌∷◌, Memᴰ, ◌≡◌, inl, inr, arith, contains, eq_iff, is_empty,
  keep_if,
}
use telconet_sentinel.Common.Dict.{
  Dict, lookup, insert, keys, values, lookup-insert, contains-keys, Memᴰ-values-insert_new,
}
use telconet_sentinel.Errors.{ok, >>=-eq-ok}
use telconet_sentinel.Models.{Node, Link}
use telconet_sentinel.Topology.{
  Topology, known, unknown_endpoints, add_node, add_link, add_nodes, add_links, new,
}
use telconet_sentinel.Topology.Walk.{IsProper, EndsIn}

pub record IsValid (t : Topology) : Type 0 where
  pub proper : (l : Link) → Memᴰ l (values t.links_by_id) → IsProper l
  pub ends : EndsIn (keys t.nodes_by_name) (values t.links_by_id)
  pub stored : (l : Link) → Memᴰ l (values t.links_by_id) → lookup l.id t.links_by_id ≡ some l
  pub node_key : (k : String) (n : Node) → lookup k t.nodes_by_name ≡ some n → n.name ≡ k
  pub link_key : (k : String) (l : Link) → lookup k t.links_by_id ≡ some l → l.id ≡ k

no_entry {ℓ} : {V : Type ℓ} (k : String) (v : V) → ¬ (lookup k [] ≡ some v)
unfolding lookup
no_entry k v h = cc

-- A link that passed every check of the constructor.
record IsAccepted (nodes : Dict Node) (l : Link) : Type 0 where
  proper : IsProper l
  known_a : contains l.endpoint_a (keys nodes) ≡ true
  known_b : contains l.endpoint_b (keys nodes) ≡ true

unknown_endpoints-empty :
    (nodes : Dict Node) (l : Link)
    → is_empty (unknown_endpoints nodes l) ≡ true
    → (contains l.endpoint_a (keys nodes) ≡ true) × (contains l.endpoint_b (keys nodes) ≡ true)
unfolding unknown_endpoints keep_if known
unknown_endpoints-empty nodes l h = ground arith

add_link-eq-ok :
    (nodes : Dict Node) (links : Dict Link) (l : Link) (links' : Dict Link)
    → add_link nodes links l ≡ ok links'
    → IsAccepted nodes l × (lookup l.id links ≡ none) × (links' ≡ insert l.id l links)
unfolding add_link
add_link-eq-ok nodes links l links' h = (
  record {
    proper = record {
      positive = ground arith;
      proper = ground (arith, eq_iff l.endpoint_a l.endpoint_b);
    };
    known_a = ground (arith, unknown_endpoints-empty nodes l);
    known_b = ground (arith, unknown_endpoints-empty nodes l);
  },
  ground (arith, contains-keys l.id links),
  ground arith,
)

add_node-eq-ok :
    (nodes : Dict Node) (n : Node) (nodes' : Dict Node)
    → add_node nodes n ≡ ok nodes'
    → (lookup n.name nodes ≡ none) × (nodes' ≡ insert n.name n nodes)
unfolding add_node known
add_node-eq-ok nodes n nodes' h = (ground (arith, contains-keys n.name nodes), ground arith)

-- The dictionary of links, while the constructor fills it.
record AreLinks (nodes : Dict Node) (links : Dict Link) : Type 0 where
  accepted : (l : Link) → Memᴰ l (values links) → IsAccepted nodes l
  stored : (l : Link) → Memᴰ l (values links) → lookup l.id links ≡ some l
  link_key : (k : String) (l : Link) → lookup k links ≡ some l → l.id ≡ k

insert-AreLinks :
    (nodes : Dict Node) (links : Dict Link) (l : Link)
    → IsAccepted nodes l
    → lookup l.id links ≡ none
    → AreLinks nodes links
    → AreLinks nodes (insert l.id l links)
insert-AreLinks nodes links l good fresh h = record {
  accepted = λ k m. elim ((Memᴰ-values-insert_new k l.id l links fresh).0 m) [
    | inl same ↦ rw same good
    | inr old ↦ h.accepted k old
  ];
  stored = λ k m. elim ((Memᴰ-values-insert_new k l.id l links fresh).0 m) [
    | inl same ↦ rw same (ground (arith, lookup-insert l.id l.id l links, eq_iff l.id l.id))
    | inr old ↦ ground (arith, lookup-insert k.id l.id l links, eq_iff l.id k.id, h.stored k old)
  ];
  link_key = λ k m p. ground (arith, lookup-insert k l.id l links, eq_iff l.id k, h.link_key k m);
}

add_links-AreLinks :
    (nodes : Dict Node) (links : Dict Link) (rest : List Link) (links' : Dict Link)
    → AreLinks nodes links
    → add_links nodes links rest ≡ ok links'
    → AreLinks nodes links'
unfolding add_links
add_links-AreLinks nodes links [] links' h e = let same : links ≡ links' = cc in rw (← same) h
add_links-AreLinks nodes links (l ∷ rest) links' h e =
    let (more, added, e') = >>=-eq-ok (add_link nodes links l) (λ m. add_links nodes m rest) e in
    let (good, fresh, is_more) = add_link-eq-ok nodes links l more added in
    add_links-AreLinks nodes more rest links'
      (rw is_more (insert-AreLinks nodes links l good fresh h)) e'

abbrev HasNames : Dict Node → Type 0
HasNames nodes = (k : String) (n : Node) → lookup k nodes ≡ some n → n.name ≡ k

add_nodes-HasNames :
    (nodes : Dict Node) (rest : List Node) (nodes' : Dict Node)
    → HasNames nodes
    → add_nodes nodes rest ≡ ok nodes'
    → HasNames nodes'
unfolding add_nodes
add_nodes-HasNames nodes [] nodes' h e = let same : nodes ≡ nodes' = cc in rw (← same) h
add_nodes-HasNames nodes (n ∷ rest) nodes' h e =
    let (more, added, e') = >>=-eq-ok (add_node nodes n) (λ m. add_nodes m rest) e in
    let (fresh, is_more) = add_node-eq-ok nodes n more added in
    add_nodes-HasNames more rest nodes'
      (rw is_more (λ k m p. ground (arith, lookup-insert k n.name n nodes, eq_iff n.name k, h k m)))
      e'

new-eq-ok :
    (node_items : List Node) (link_items : List Link) (t : Topology)
    → new node_items link_items ≡ ok t
    → (add_nodes [] node_items ≡ ok t.nodes_by_name)
      × (add_links t.nodes_by_name [] link_items ≡ ok t.links_by_id)
unfolding new
new-eq-ok node_items link_items t h = ground arith

-- What `Topology(nodes, links)` returns has positive costs, no link of a node to itself, only
-- known endpoints, and each item under its own name.
pub new-IsValid :
    (node_items : List Node) (link_items : List Link) (t : Topology)
    → new node_items link_items ≡ ok t
    → IsValid t
new-IsValid node_items link_items t h =
    let (e, f) = new-eq-ok node_items link_items t h in
    let links =
      add_links-AreLinks t.nodes_by_name [] link_items t.links_by_id
        (record {
          accepted = λ l m. absurd (Memᴰ.not-nil m);
          stored = λ l m. absurd (Memᴰ.not-nil m);
          link_key = λ k l p. absurd (no_entry k l p);
        })
        f in
    record {
      proper = λ l m. (links.accepted l m).proper;
      ends = λ l m. ((links.accepted l m).known_a, (links.accepted l m).known_b);
      stored = links.stored;
      link_key = links.link_key;
      node_key =
          add_nodes-HasNames [] node_items t.nodes_by_name (λ k n p. absurd (no_entry k n p)) e;
    }
