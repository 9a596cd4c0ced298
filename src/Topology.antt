-- ===== src/Topology.antt =====
-- The class `Topology` of topology.py: its dictionaries, its constructor and its lookups. A cost is
-- a natural number: the constructor refuses a negative cost as it does 0.
pub mod Valid
pub mod Walk
pub mod Distance
pub mod Path
pub mod Agreement
pub mod Filled
use telconet_sentinel.Common.{
  ℕ, String, Bool, true, false, not, Option, none, some, List, [], ◌∷◌, foldl, ◌==◌, leb,
  if◌then◌else◌, keep_if, is_empty, contains, add, sort, name_leb,
}
use telconet_sentinel.Common.Dict.{Dict, lookup, insert, keys, values}
use telconet_sentinel.Errors.{
  Result, ok, ◌>>=◌, ◌>>◌, raise_if, or_raise, duplicate_node, duplicate_link, cost_not_positive,
  self_link, unknown_endpoint, unknown_node, unknown_link,
}
use telconet_sentinel.Models.{Node, Link}

pub record Topology : Type 0 where
  pub nodes_by_name : Dict Node
  pub links_by_id : Dict Link

unfoldable pub known : Dict Node → String → Bool
known nodes name = contains name (keys nodes)

unfoldable pub add_node : Dict Node → Node → Result (Dict Node)
add_node nodes node = do
  raise_if (known nodes node.name) (duplicate_node node.name)
  ok (insert node.name node nodes)

unfoldable pub unknown_endpoints : Dict Node → Link → List String
unknown_endpoints nodes link =
    keep_if (λ endpoint. not (known nodes endpoint)) (link.endpoint_a ∷ link.endpoint_b ∷ [])

unfoldable pub add_link : Dict Node → Dict Link → Link → Result (Dict Link)
add_link nodes links link = do
  raise_if (contains link.id (keys links)) (duplicate_link link.id)
  raise_if (leb link.cost 0) (cost_not_positive link.id)
  raise_if (link.endpoint_a == link.endpoint_b) (self_link link.id)
  let unknown = unknown_endpoints nodes link
  raise_if (not (is_empty unknown)) (unknown_endpoint link.id (sort name_leb unknown))
  ok (insert link.id link links)

unfoldable pub add_nodes : Dict Node → List Node → Result (Dict Node)
add_nodes nodes [] = ok nodes
add_nodes nodes (node ∷ rest) = do more ← add_node nodes node; add_nodes more rest

unfoldable pub add_links : Dict Node → Dict Link → List Link → Result (Dict Link)
add_links nodes links [] = ok links
add_links nodes links (link ∷ rest) = do more ← add_link nodes links link; add_links nodes more rest

-- `Topology(nodes, links)`
unfoldable pub new : List Node → List Link → Result Topology
new node_items link_items = do
  nodes ← add_nodes [] node_items
  links ← add_links nodes [] link_items
  ok (record { nodes_by_name = nodes; links_by_id = links })

-- `d[k] for k in ks`, for keys of `d`: no key is missing, and one that were would be passed over.
unfoldable pub fetch_all {ℓ} : {V : Type ℓ} → Dict V → List String → List V
fetch_all d [] = []
fetch_all d (k ∷ ks) = elim (lookup k d) [ none ↦ fetch_all d ks | some v ↦ v ∷ fetch_all d ks ]

-- The properties `nodes` and `links`, in the order of their keys.
unfoldable pub nodes : Topology → List Node
nodes t = fetch_all t.nodes_by_name (sort name_leb (keys t.nodes_by_name))

unfoldable pub links : Topology → List Link
links t = fetch_all t.links_by_id (sort name_leb (keys t.links_by_id))

unfoldable pub node : Topology → String → Result Node
node t name = or_raise (lookup name t.nodes_by_name) (unknown_node name)

unfoldable pub link : Topology → String → Result Link
link t link_id = or_raise (lookup link_id t.links_by_id) (unknown_link link_id)

abbrev pub equals_option : String → Option String → Bool
equals_option x none = false
equals_option x (some y) = x == y

-- `neighbors`: the loop over the links, and the method.
unfoldable pub add_neighbor : Option String → String → List String → Link → List String
add_neighbor excluded_link node_name found link =
    if equals_option link.id excluded_link
    then found
    else if link.endpoint_a == node_name
    then add link.endpoint_b found
    else if link.endpoint_b == node_name
    then add link.endpoint_a found
    else found

unfoldable pub check_excluded : Topology → Option String → Result (Unit {0})
check_excluded t none = ok tt
check_excluded t (some link_id) = do _ ← link t link_id; ok tt

unfoldable pub neighbors : Topology → String → Option String → Result (List String)
neighbors t node_name excluded_link = do
  _ ← node t node_name
  check_excluded t excluded_link
  ok (sort name_leb (foldl (add_neighbor excluded_link node_name) [] (values t.links_by_id)))
