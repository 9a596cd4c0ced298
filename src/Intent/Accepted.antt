-- ===== src/Intent/Accepted.antt =====
-- What the checks of a declared network make sure of, for `to_topology` and `load_topologies`.
use mathlib.Core.List.Memᴰ
use telconet_sentinel.Common.{
  String, Bool, true, false, List, [], ◌∷◌, map, Memᴰ, ◌≡◌, refl, sym, ap, subst, ◌∙◌, inl, inr,
  arith, leb, all_distinct, contains, keep_if, is_empty, nat_beq, not, ◌==◌,
}
use telconet_sentinel.Common.Dict.{Dict, keys, values}
use telconet_sentinel.Common.Dict.Index.{with_key}
use telconet_sentinel.Errors.{
  ok, raise_if, unsupported_version, invalid_field, >>=-eq-ok, map_result, map_result-target,
}
use telconet_sentinel.Models.{Node, Link}
use telconet_sentinel.Topology.{Topology, add_nodes, add_links, new}
use telconet_sentinel.Intent.{
  NetworkIntent, NodeIntent, LinkIntent, intended_node, intended_link, to_topology, unknown_names,
  check_references, validate_graph_references, validate_link_intent, validate_intent,
  validate_node_intent,
}
use telconet_sentinel.Topology.Filled.{
  name_of, id_of, IsTaken, add_nodes_from_empty, add_links_from_empty,
}

check_references-names :
    (names : List String) (links : List LinkIntent) (l : LinkIntent)
    → check_references names links ≡ ok tt
    → Memᴰ l links
    → ((l.endpoints.0 == l.endpoints.1) ≡ false)
      × (contains l.endpoints.0 names ≡ true)
      × (contains l.endpoints.1 names ≡ true)
unfolding check_references unknown_names keep_if
check_references-names names [] l h m = absurd (Memᴰ.not-nil m)
check_references-names names (k ∷ links) l h m = elim (Memᴰ.cases_cons m) [
  | inl same ↦ rw same (ground arith)
  | inr later ↦ check_references-names names links l (ground arith) later
]

-- The nodes and the links of an intent under their names, in the order of the intent.
abbrev pub named_nodes : Dict NodeIntent → Dict Node
named_nodes [] = []
named_nodes ((name, node) ∷ nodes) =
    (name, record { name = name; role = node.role; prefixes = node.prefixes }) ∷ named_nodes nodes

abbrev pub named_links : List LinkIntent → Dict Link
named_links [] = []
named_links (l ∷ links) =
    (
      l.id,
      record { id = l.id; endpoint_a = l.endpoints.0; endpoint_b = l.endpoints.1; cost = l.cost },
    )
    ∷ named_links links

abbrev pub intended : NetworkIntent → Topology
intended i = record { nodes_by_name = named_nodes i.nodes; links_by_id = named_links i.links }

with_key-intended_node :
    (nodes : Dict NodeIntent) → map (with_key name_of) (map intended_node nodes) ≡ named_nodes nodes
with_key-intended_node [] = refl
with_key-intended_node ((name, node) ∷ nodes) =
    ap (λ d. with_key name_of (intended_node (name, node)) ∷ d) (with_key-intended_node nodes)

with_key-intended_link :
    (links : List LinkIntent) → map (with_key id_of) (map intended_link links) ≡ named_links links
with_key-intended_link [] = refl
with_key-intended_link (l ∷ links) =
    ap (λ d. with_key id_of (intended_link l) ∷ d) (with_key-intended_link links)

names-intended_node : (nodes : Dict NodeIntent) → map name_of (map intended_node nodes) ≡ keys nodes
names-intended_node [] = refl
names-intended_node ((name, node) ∷ nodes) = ap (λ ns. name ∷ ns) (names-intended_node nodes)

keys-intended : (nodes : Dict NodeIntent) → keys (named_nodes nodes) ≡ keys nodes
keys-intended [] = refl
keys-intended ((name, node) ∷ nodes) = ap (λ ns. name ∷ ns) (keys-intended nodes)

ids-intended_link :
    (links : List LinkIntent)
    → map id_of (map intended_link links) ≡ map (λ (l : LinkIntent). l.id) links
ids-intended_link [] = refl
ids-intended_link (l ∷ links) = ap (λ ids. l.id ∷ ids) (ids-intended_link links)

Memᴰ-intended_link :
    (k : Link) (links : List LinkIntent)
    → Memᴰ k (map intended_link links)
    → (l : LinkIntent) × Memᴰ l links × (k ≡ intended_link l)
Memᴰ-intended_link k [] m = absurd (Memᴰ.not-nil m)
Memᴰ-intended_link k (l ∷ links) m = elim (Memᴰ.cases_cons m) [
  | inl same ↦ (l, Memᴰ.head refl, same)
  | inr later ↦ let (j, n, is) = Memᴰ-intended_link k links later in (j, Memᴰ.tail n, is)
]

validate_link_intent-positive :
    (l : LinkIntent) (u : Unit {0}) → validate_link_intent l ≡ ok u → leb l.cost 0 ≡ false
unfolding validate_link_intent
validate_link_intent-positive l u h = ground arith

validate_graph_references-eq-ok :
    (i : NetworkIntent)
    → validate_graph_references i ≡ ok tt
    → (all_distinct (map (λ (l : LinkIntent). l.id) i.links) ≡ true)
      × (check_references (keys i.nodes) i.links ≡ ok tt)
unfolding validate_graph_references
validate_graph_references-eq-ok i h = ground arith

module _ (is_canonical_prefix : String → Bool) (i : NetworkIntent)
    (accepted : validate_intent is_canonical_prefix i ≡ ok tt) where
  accepted_parts :
      (us : List (Unit {0})) × (map_result validate_link_intent i.links ≡ ok us)
      × (validate_graph_references i ≡ ok tt)
  unfolding validate_intent
  accepted_parts =
      let (_, versioned, e) =
        >>=-eq-ok (raise_if (not (nat_beq i.version 1)) unsupported_version) _ accepted in
      let (_, some_nodes, f) =
        >>=-eq-ok (raise_if (is_empty i.nodes) (invalid_field "nodes")) _ e in
      let (_, checked, g) =
        >>=-eq-ok (map_result (validate_node_intent is_canonical_prefix) (values i.nodes)) _ f in
      let (_, some_links, h) =
        >>=-eq-ok (raise_if (is_empty i.links) (invalid_field "links")) _ g in
      >>=-eq-ok (map_result validate_link_intent i.links) _ h

  accepted-IsTaken :
      (k : Link) → Memᴰ k (map intended_link i.links) → IsTaken (intended i).nodes_by_name k
  accepted-IsTaken k m =
      let (us, links_pass, graph_passes) = accepted_parts in
      let (l, n, is) = Memᴰ-intended_link k i.links m in
      let (u, _, passes) = map_result-target validate_link_intent i.links us l links_pass n in
      let (_, refer) = validate_graph_references-eq-ok i graph_passes in
      let (proper, known_a, known_b) = check_references-names (keys i.nodes) i.links l refer n in
      subst (IsTaken (intended i).nodes_by_name) (sym is) (record {
        positive = validate_link_intent-positive l u passes;
        proper = proper;
        known_a = ap (contains l.endpoints.0) (keys-intended i.nodes) ∙ known_a;
        known_b = ap (contains l.endpoints.1) (keys-intended i.nodes) ∙ known_b;
      })

  accepted-all_distinct : all_distinct (map id_of (map intended_link i.links)) ≡ true
  accepted-all_distinct =
      let (us, links_pass, graph_passes) = accepted_parts in
      ap all_distinct (ids-intended_link i.links)
      ∙ (validate_graph_references-eq-ok i graph_passes).0

  pub to_topology-intended : all_distinct (keys i.nodes) ≡ true → to_topology i ≡ ok (intended i)
  unfolding to_topology new
  to_topology-intended unique =
      let distinct_names : all_distinct (map name_of (map intended_node i.nodes)) ≡ true =
        ap all_distinct (names-intended_node i.nodes) ∙ unique in
      let nodes_added : add_nodes [] (map intended_node i.nodes) ≡ ok (intended i).nodes_by_name =
        add_nodes_from_empty (map intended_node i.nodes) distinct_names
        ∙ ap ok (with_key-intended_node i.nodes) in
      let links_added : add_links (intended i).nodes_by_name [] (map intended_link i.links)
          ≡ ok (intended i).links_by_id =
        add_links_from_empty (intended i).nodes_by_name (map intended_link i.links) accepted-IsTaken
          accepted-all_distinct
        ∙ ap ok (with_key-intended_link i.links) in
      rw (nodes_added, links_added) refl
