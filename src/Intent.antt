-- ===== src/Intent.antt =====
-- intent.py: the declared networks with the checks of their classes, the catalog of designs, and the
-- topologies that are made of them. `ip_network` and the reading of a YAML document, which is taken
-- with its fields decoded, come from outside.
pub mod Accepted
pub mod Designs
use telconet_sentinel.Common.{
  ℕ, String, Bool, true, false, not, ◌&&◌, ◌||◌, Option, none, some, List, [], ◌∷◌, map, nat_beq,
  leb, length, all_distinct, is_identifier, is_name_code, is_lower, is_digit, all_codes,
  after_codes, codes, is_empty, keep_if, contains, sort, name_leb, ◌==◌, if◌then◌else◌,
}
use telconet_sentinel.Common.Dict.{Dict, lookup, insert, keys, values}
use telconet_sentinel.Errors.{
  Result, ok, err, ◌>>=◌, ◌>>◌, raise_if, map_result, invalid_field, candidate_without_baseline,
  baseline_with_based_on, not_one_baseline, invalid_design_id, unknown_baseline, duplicate_intent,
  unsupported_version, repeated_node_prefix, invalid_node_prefix, invalid_endpoint_name,
  invalid_intent_node, duplicate_link_id, self_link, unknown_endpoint, duplicate_prefix,
}
use telconet_sentinel.Models.{Node, Link, NodeRole}
use telconet_sentinel.Topology.{Topology, new}

pub data DesignRole : Type 0 where
  baseline candidate : DesignRole

abbrev pub is_baseline : DesignRole → Bool
is_baseline baseline = true
is_baseline candidate = false

pub record DesignCatalogEntry : Type 0 where
  pub intent : String
  pub role : DesignRole
  pub based_on : Option String

abbrev is_path_code : ℕ → Bool
is_path_code c = is_lower c || is_digit c || nat_beq c b'.' || nat_beq c b'-'

abbrev is_whole : Option (List ℕ) → Bool
is_whole none = false
is_whole (some []) = true
is_whole (some (c ∷ cs)) = false

unfoldable pub ends_in : List ℕ → List ℕ → Bool
ends_in suffix [] = false
ends_in suffix (c ∷ cs) = is_whole (after_codes suffix (c ∷ cs)) || ends_in suffix cs

unfoldable pub are_path_codes : List ℕ → Bool
are_path_codes [] = false
are_path_codes (c ∷ cs) =
    (is_lower c || is_digit c) && all_codes is_path_code cs && ends_in (codes ".yml") cs

abbrev is_baseline_id : Option String → Bool
is_baseline_id none = true
is_baseline_id (some id) = is_identifier is_name_code 63 id

unfoldable pub validate_relationship : DesignRole → Option String → Result (Unit {0})
validate_relationship candidate none = err candidate_without_baseline
validate_relationship candidate (some id) = ok tt
validate_relationship baseline none = ok tt
validate_relationship baseline (some id) = err baseline_with_based_on

unfoldable pub validate_entry : DesignCatalogEntry → Result (Unit {0})
validate_entry d = do
  raise_if (not (are_path_codes (codes d.intent))) (invalid_field "intent")
  raise_if (not (is_baseline_id d.based_on)) (invalid_field "based_on")
  validate_relationship d.role d.based_on

pub record DesignCatalog : Type 0 where
  pub version : ℕ
  pub designs : Dict DesignCatalogEntry

-- A set of keys of a dictionary, which has each of them once.
unfoldable pub baseline_ids : Dict DesignCatalogEntry → List String
baseline_ids designs =
    keys (keep_if (λ (d : String × DesignCatalogEntry). is_baseline d.1.role) designs)

abbrev pub is_among : Option String → List String → Bool
is_among none names = false
is_among (some name) names = contains name names

-- The loop over the designs.
unfoldable pub check_designs : List String → Dict DesignCatalogEntry → Result (Unit {0})
check_designs baselines [] = ok tt
check_designs baselines ((design_id, design) ∷ rest) = do
  raise_if (not (is_identifier is_name_code 63 design_id)) (invalid_design_id design_id)
  raise_if (not (is_baseline design.role) && not (is_among design.based_on baselines))
      (unknown_baseline design_id design.based_on)
  check_designs baselines rest

unfoldable pub validate_relationships : DesignCatalog → Result (Unit {0})
validate_relationships c = do
  raise_if (not (nat_beq (length (baseline_ids c.designs)) 1)) not_one_baseline
  check_designs (baseline_ids c.designs) c.designs
  raise_if (not (all_distinct (map (λ (d : DesignCatalogEntry). d.intent) (values c.designs))))
      duplicate_intent

unfoldable pub validate_design_catalog : DesignCatalog → Result (Unit {0})
validate_design_catalog c = do
  raise_if (not (nat_beq c.version 1)) unsupported_version
  raise_if (is_empty c.designs) (invalid_field "designs")
  _ ← map_result validate_entry (values c.designs)
  validate_relationships c

pub record NodeIntent : Type 0 where
  pub role : NodeRole
  pub prefixes : List String

pub record LinkIntent : Type 0 where
  pub id : String
  pub endpoints : String × String
  pub cost : ℕ

pub record NetworkIntent : Type 0 where
  pub version : ℕ
  pub nodes : Dict NodeIntent
  pub links : List LinkIntent

abbrev pub is_node_identifier : String → Bool
is_node_identifier name = is_identifier is_name_code 127 name

-- The loop over the two endpoints.
unfoldable pub check_endpoints : List String → Result (Unit {0})
check_endpoints [] = ok tt
check_endpoints (endpoint ∷ rest) = do
  raise_if (not (is_node_identifier endpoint)) (invalid_endpoint_name endpoint)
  check_endpoints rest

unfoldable pub validate_link_intent : LinkIntent → Result (Unit {0})
validate_link_intent l = do
  raise_if (not (is_node_identifier l.id)) (invalid_field "id")
  check_endpoints (l.endpoints.0 ∷ l.endpoints.1 ∷ [])
  raise_if (leb l.cost 0) (invalid_field "cost")

unfoldable pub check_names : List String → Result (Unit {0})
check_names [] = ok tt
check_names (name ∷ rest) = do
  raise_if (not (is_node_identifier name)) (invalid_intent_node name)
  check_names rest

-- `set(link.endpoints) - known_nodes`, of two endpoints that differ
unfoldable pub unknown_names : List String → LinkIntent → List String
unknown_names known_nodes link =
    keep_if (λ endpoint. not (contains endpoint known_nodes))
      (link.endpoints.0 ∷ link.endpoints.1 ∷ [])

-- The loop over the links.
unfoldable pub check_references : List String → List LinkIntent → Result (Unit {0})
check_references known_nodes [] = ok tt
check_references known_nodes (link ∷ rest) = do
  raise_if (link.endpoints.0 == link.endpoints.1) (self_link link.id)
  let unknown = unknown_names known_nodes link
  raise_if (not (is_empty unknown)) (unknown_endpoint link.id (sort name_leb unknown))
  check_references known_nodes rest

-- The loops over the nodes and over the prefixes of a node.
abbrev check_owner : Option String → String → String → Result (Unit {0})
check_owner none prefix name = ok tt
check_owner (some owner) prefix name = err (duplicate_prefix prefix owner name)

unfoldable pub add_owners : String → Dict String → List String → Result (Dict String)
add_owners name owners [] = ok owners
add_owners name owners (prefix ∷ rest) = do
  check_owner (lookup prefix owners) prefix name
  add_owners name (insert prefix name owners) rest

unfoldable pub add_all_owners : Dict String → Dict NodeIntent → Result (Dict String)
add_all_owners owners [] = ok owners
add_all_owners owners ((name, node) ∷ rest) = do
  more ← add_owners name owners node.prefixes
  add_all_owners more rest

unfoldable pub validate_graph_references : NetworkIntent → Result (Unit {0})
validate_graph_references i = do
  check_names (keys i.nodes)
  raise_if (not (all_distinct (map (λ (l : LinkIntent). l.id) i.links))) duplicate_link_id
  check_references (keys i.nodes) i.links
  _ ← add_all_owners [] i.nodes
  ok tt

abbrev pub intended_node : String × NodeIntent → Node
intended_node (name, node) = record { name = name; role = node.role; prefixes = node.prefixes }

abbrev pub intended_link : LinkIntent → Link
intended_link link = record {
  id = link.id;
  endpoint_a = link.endpoints.0;
  endpoint_b = link.endpoints.1;
  cost = link.cost;
}

unfoldable pub to_topology : NetworkIntent → Result Topology
to_topology i = new (map intended_node i.nodes) (map intended_link i.links)

module _ (is_canonical_prefix : String → Bool) where
  unfoldable pub check_prefixes : List String → Result (Unit {0})
  check_prefixes [] = ok tt
  check_prefixes (prefix ∷ rest) = do
    raise_if (not (is_canonical_prefix prefix)) (invalid_node_prefix prefix)
    check_prefixes rest

  unfoldable pub validate_node_intent : NodeIntent → Result (Unit {0})
  validate_node_intent n = do
    raise_if (not (all_distinct n.prefixes)) repeated_node_prefix
    check_prefixes n.prefixes

  unfoldable pub validate_intent : NetworkIntent → Result (Unit {0})
  validate_intent i = do
    raise_if (not (nat_beq i.version 1)) unsupported_version
    raise_if (is_empty i.nodes) (invalid_field "nodes")
    _ ← map_result validate_node_intent (values i.nodes)
    raise_if (is_empty i.links) (invalid_field "links")
    _ ← map_result validate_link_intent i.links
    validate_graph_references i

  module _ (load_yaml : String → Result NetworkIntent) where
    unfoldable pub load_intent : String → Result NetworkIntent
    load_intent path = do document ← load_yaml path; validate_intent document; ok document

    -- The path of an intent is taken from the directory of the catalog.
    unfoldable pub load_design : String × DesignCatalogEntry → Result (String × Topology)
    load_design (design_id, design) = do
      intent ← load_intent design.intent
      topology ← to_topology intent
      ok (design_id, topology)

    unfoldable pub load_topologies : DesignCatalog → Result (Dict Topology)
    load_topologies c = map_result load_design c.designs
