-- ===== src/Telemetry/Binding/Lab.antt =====
-- telemetry_config.py: the document of the lab. A link of the lab is the dictionary from its two nodes
-- to their interfaces, and a pair of nodes finds it whatever their order.
use telconet_sentinel.Common.{
  String, Bool, true, not, ◌||◌, Option, some, List, [], ◌∷◌, ◌++◌, ◌==◌, nat_beq, length, codes,
  contains, text_before, text_after, count_code, if◌then◌else◌,
}
use telconet_sentinel.Common.Dict.{Dict, lookup, keys}
use telconet_sentinel.Common.Json.{Json, text}
use telconet_sentinel.Errors.{
  Result, ok, err, ◌>>=◌, ◌>>◌, raise_if, or_raise, map_result, not_an_endpoint, not_two_endpoints,
  unknown_endpoint_node, no_lab_name, reused_lab_interface, not_unique_lab_pair,
}
use telconet_sentinel.Runtime.{has_pair}
use telconet_sentinel.Runtime.Lab.{mapping, sequence, is_paired}

unfoldable pub clab_endpoint : Json → Result (String × String)
clab_endpoint (text value) = do
  raise_if (not (nat_beq (count_code b':' (codes value)) 1)) not_an_endpoint
  let node = text_before b':' value
  interface ← or_raise (text_after b':' value) not_an_endpoint
  raise_if ((node == "") || (interface == "")) not_an_endpoint
  ok (node, interface)
clab_endpoint _ = err not_an_endpoint

-- The loop over the two endpoints of a link.
unfoldable pub use_endpoints :
    List String → List (String × String) → List (String × String) → Result (List (String × String))
use_endpoints nodes used [] = ok used
use_endpoints nodes used (endpoint ∷ rest) = do
  raise_if (not (contains endpoint.0 nodes)) (unknown_endpoint_node endpoint.0)
  raise_if (has_pair endpoint used) (reused_lab_interface endpoint.0 endpoint.1)
  use_endpoints nodes (endpoint ∷ used) rest

abbrev is_reflexive : List (String × String) → Bool
is_reflexive ((a, i) ∷ (b, j) ∷ []) = a == b
is_reflexive _ = true

unfoldable pub clab_links :
    List String
    → List (String × String)
    → List (Dict String)
    → List Json
    → Result (List (Dict String))
clab_links nodes used links_by_pair [] = ok links_by_pair
clab_links nodes used links_by_pair (raw_link ∷ rest) = do
  link ← mapping (some raw_link) "containerlab link"
  endpoints ← sequence (lookup "endpoints" link) "containerlab link endpoints"
  raise_if (not (nat_beq (length endpoints) 2)) not_two_endpoints
  parsed ← map_result clab_endpoint endpoints
  more ← use_endpoints nodes used parsed
  raise_if (is_reflexive parsed || is_paired (keys parsed) links_by_pair) not_unique_lab_pair
  clab_links nodes more (links_by_pair ++ parsed ∷ []) rest

pub record ClabTopology : Type 0 where
  pub name : String
  pub nodes : List String
  pub links_by_pair : List (Dict String)

abbrev clab_name : Option Json → Result String
clab_name (some (text s)) = if s == "" then err no_lab_name else ok s
clab_name _ = err no_lab_name

unfoldable pub load_clab_topology : Json → Result ClabTopology
load_clab_topology value = do
  document ← mapping (some value) "containerlab document"
  name ← clab_name (lookup "name" document)
  topology ← mapping (lookup "topology" document) "containerlab topology"
  nodes ← mapping (lookup "nodes" topology) "containerlab nodes"
  raw_links ← sequence (lookup "links" topology) "containerlab links"
  links_by_pair ← clab_links (keys nodes) [] [] raw_links
  ok (record { name = name; nodes = keys nodes; links_by_pair = links_by_pair })
