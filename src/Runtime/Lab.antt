-- ===== src/Runtime/Lab.antt =====
-- runtime_resilience.py: the documents that a plan is made of, from the value that their YAML text is
-- read into, and the links of the lab. The interfaces of a link are a dictionary from its two nodes.
use telconet_sentinel.Common.{
  ℕ, String, Bool, not, ◌||◌, ◌&&◌, Option, none, some, List, [], ◌∷◌, ◌++◌, nat_beq, leb, length,
  codes, contains, any, same_names, text_before, text_after, count_code, if◌then◌else◌,
}
use telconet_sentinel.Common.Dict.{Dict, lookup, insert, keys}
use telconet_sentinel.Common.Json.{Json, array, object, text, items, members}
use telconet_sentinel.Errors.{
  Result, ok, err, ◌>>=◌, ◌>>◌, raise_if, or_raise, map_result, not_a_mapping, not_a_sequence,
  node_limit, link_limit, not_an_endpoint, unknown_endpoint_node, unsupported_interface,
  invalid_node_name, not_only_endpoints, not_two_endpoints, lab_self_link, parallel_link,
}
use telconet_sentinel.Runtime.{is_node_name, is_interface_name}

unfoldable pub mapping : Option Json → String → Result (Dict Json)
mapping (some (object xs)) label = ok (members xs)
mapping _ label = err (not_a_mapping label)

unfoldable pub sequence : Option Json → String → Result (List Json)
sequence (some (array xs)) label = ok (items xs)
sequence _ label = err (not_a_sequence label)

abbrev pub is_within : ℕ → ℕ → Bool
is_within limit n = leb 1 n && leb n limit

unfoldable pub validate_raw_topology_limits : Dict Json → Result (Unit {0})
validate_raw_topology_limits document = do
  nodes ← mapping (lookup "nodes" document) "candidate intent nodes"
  raise_if (not (is_within 64 (length nodes))) node_limit
  links ← sequence (lookup "links" document) "candidate intent links"
  raise_if (not (is_within 128 (length links))) link_limit

-- A node and its interface, of a text with exactly one colon.
unfoldable pub parse_endpoint : List String → Json → Result (String × String)
parse_endpoint nodes (text value) = do
  raise_if (not (nat_beq (count_code b':' (codes value)) 1)) not_an_endpoint
  let node = text_before b':' value
  interface ← or_raise (text_after b':' value) not_an_endpoint
  raise_if (not (contains node nodes) || not (is_node_name node)) (unknown_endpoint_node node)
  raise_if (not (is_interface_name interface)) (unsupported_interface interface)
  ok (node, interface)
parse_endpoint nodes _ = err not_an_endpoint

-- `{node: interface for node, interface in endpoints}`
unfoldable pub add_interfaces : Dict String → List (String × String) → Dict String
add_interfaces d [] = d
add_interfaces d ((node, interface) ∷ rest) = add_interfaces (insert node interface d) rest

-- `pairs.get(pair)`: the keys of the entries are the sets of their two nodes.
unfoldable pub find_pair : List String → List (Dict String) → Option (Dict String)
find_pair pair [] = none
find_pair pair (d ∷ ds) = if same_names (keys d) pair then some d else find_pair pair ds

abbrev pub is_paired : List String → List (Dict String) → Bool
is_paired pair pairs = any (λ d. same_names (keys d) pair) pairs

unfoldable pub lab_link : List String → List (Dict String) → Json → Result (List (Dict String))
lab_link nodes pairs value = do
  link ← mapping (some value) "containerlab link"
  raise_if (not (same_names (keys link) ("endpoints" ∷ []))) not_only_endpoints
  endpoint_values ← sequence (lookup "endpoints" link) "containerlab endpoints"
  raise_if (not (nat_beq (length endpoint_values) 2)) not_two_endpoints
  endpoints ← map_result (parse_endpoint nodes) endpoint_values
  let interfaces = add_interfaces [] endpoints
  raise_if (not (nat_beq (length interfaces) 2)) lab_self_link
  raise_if (is_paired (keys interfaces) pairs) parallel_link
  ok (pairs ++ interfaces ∷ [])

unfoldable pub lab_links :
    List String → List (Dict String) → List Json → Result (List (Dict String))
lab_links nodes pairs [] = ok pairs
lab_links nodes pairs (value ∷ rest) = do
  more ← lab_link nodes pairs value
  lab_links nodes more rest

-- The links of the document; the bytes that the source returns with them are digested outside.
unfoldable pub load_lab_links : Json → Result (List (Dict String))
load_lab_links value = do
  document ← mapping (some value) "containerlab document"
  topology ← mapping (lookup "topology" document) "containerlab topology"
  node_document ← mapping (lookup "nodes" topology) "containerlab nodes"
  raise_if (not (is_within 64 (length node_document))) node_limit
  let nodes = keys node_document
  raise_if (any (λ name. not (is_node_name name)) nodes) invalid_node_name
  links ← sequence (lookup "links" topology) "containerlab links"
  raise_if (not (is_within 128 (length links))) link_limit
  lab_links nodes [] links
