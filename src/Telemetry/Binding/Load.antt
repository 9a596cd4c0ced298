-- ===== src/Telemetry/Binding/Load.antt =====
-- telemetry_config.py: how a binding is made of the configuration, of the declared network and of the
-- document of the lab. The digest of the three files comes from outside.
pub mod Bound
use telconet_sentinel.Common.{
  ℕ, String, Bool, true, false, not, ◌||◌, ◌&&◌, Option, none, some, List, [], ◌∷◌, ◌++◌, ◌==◌, map,
  foldl, nat_beq, leb, is_hex, length, codes, contains, add, any, is_empty, keep_if, subset,
  same_names, sort, name_leb, join, text_before, text_after, count_code, ◌<>◌, if◌then◌else◌,
}
use telconet_sentinel.Common.Dict.{Dict, lookup, keys}
use telconet_sentinel.Common.Json.{Json, text}
use telconet_sentinel.Errors.{
  Result, ok, err, ◌>>=◌, ◌>>◌, raise_if, or_raise, map_result, missing_key, invalid_field,
  not_an_endpoint, not_two_endpoints, unknown_endpoint_node, no_lab_name, reused_lab_interface,
  not_unique_lab_pair, missing_from_intent, missing_from_lab, wrong_container, not_service_owner,
  undeclared_lab_links, link_missing_from_lab,
}
use telconet_sentinel.Models.{NodeRole}
use telconet_sentinel.Intent.{NetworkIntent, NodeIntent, LinkIntent, validate_intent}
use telconet_sentinel.Runtime.{has_pair}
use telconet_sentinel.Runtime.Lab.{mapping, sequence, find_pair, is_paired}
use telconet_sentinel.Telemetry.Binding.{
  TelemetryTarget, TelemetryConfig, BoundTelemetryPeer, BoundTelemetryTarget, TelemetryLink,
  TelemetryTopologyBinding, check_config_name, validate_config, validate_bound_target,
}
use telconet_sentinel.Telemetry.Binding.Lab.{ClabTopology, load_clab_topology}

abbrev pub config_nodes : TelemetryConfig → List String
config_nodes config = map (λ (t : TelemetryTarget). t.node) config.routers

-- `sorted(xs - ys)`
unfoldable pub missing_names : List String → List String → List String
missing_names xs ys = sort name_leb (keep_if (λ x. not (contains x ys)) xs)

unfoldable pub check_containers : String → List TelemetryTarget → Result (Unit {0})
check_containers name [] = ok tt
check_containers name (target ∷ rest) = do
  raise_if (not (target.container == ("clab-" <> name <> "-" <> target.node)))
      (wrong_container target.node)
  check_containers name rest

unfoldable pub service_owners : String → Dict NodeIntent → List String
service_owners prefix nodes =
    keys (keep_if (λ (n : String × NodeIntent). contains prefix n.1.prefixes) nodes)

abbrev pub endpoint_names : LinkIntent → List String
endpoint_names link = link.endpoints.0 ∷ link.endpoints.1 ∷ []

-- Tuples of names, in order.
unfoldable pub names_leb : List String → List String → Bool
names_leb [] ys = true
names_leb (x ∷ xs) [] = false
names_leb (x ∷ xs) (y ∷ ys) = if x == y then names_leb xs ys else name_leb x y

-- The managed links of the lab that are not declared, each as the text of its two nodes.
unfoldable pub undeclared_pairs : NetworkIntent → List (Dict String) → List String
undeclared_pairs intent clab =
    let managed = keep_if (λ d. subset (keys d) (keys intent.nodes)) clab in
    let undeclared =
      keep_if (λ d. not (any (λ l. same_names (endpoint_names l) (keys d)) intent.links)) managed in
    map (join "--") (sort names_leb (map (λ d. sort name_leb (keys d)) undeclared))

-- The entry of a target in the dictionary of interfaces, over the endpoints of every link.
unfoldable pub add_interface : String → List String → String × String → List String
add_interface node found (n, interface) = if n == node then add interface found else found

unfoldable pub interfaces_of : String → List (Dict String) → List String → List String
interfaces_of node [] found = found
interfaces_of node (endpoints ∷ rest) found =
    interfaces_of node rest (foldl (add_interface node) found endpoints)

unfoldable pub validate_telemetry_link : TelemetryLink → Result (Unit {0})
validate_telemetry_link l = do
  check_config_name "id" l.id
  check_config_name "source" l.source
  check_config_name "source_interface" l.source_interface
  check_config_name "target" l.target
  check_config_name "target_interface" l.target_interface

abbrev pub new_link : LinkIntent → String → String → TelemetryLink
new_link link source_interface target_interface = record {
  id = link.id;
  source = link.endpoints.0;
  source_interface = source_interface;
  target = link.endpoints.1;
  target_interface = target_interface;
}

unfoldable pub bound_link : List (Dict String) → LinkIntent → Result TelemetryLink
bound_link clab link = do
  by_node ← or_raise (find_pair (endpoint_names link) clab) (link_missing_from_lab link.id)
  source_interface ← or_raise (lookup link.endpoints.0 by_node) (missing_key link.endpoints.0)
  target_interface ← or_raise (lookup link.endpoints.1 by_node) (missing_key link.endpoints.1)
  let bound = new_link link source_interface target_interface
  validate_telemetry_link bound
  ok bound

-- The entry of a target in the dictionary of peers.
unfoldable pub peers_of : List String → String → List TelemetryLink → List BoundTelemetryPeer
peers_of target_nodes node [] = []
peers_of target_nodes node (link ∷ rest) =
    let more = peers_of target_nodes node rest in
    if not (contains link.source target_nodes && contains link.target target_nodes)
    then more
    else if link.source == node
    then record { peer = link.target; interface = link.source_interface } ∷ more
    else if link.target == node
    then record { peer = link.source; interface = link.target_interface } ∷ more
    else more

abbrev peer_leb : BoundTelemetryPeer → BoundTelemetryPeer → Bool
peer_leb p q = names_leb (p.interface ∷ p.peer ∷ []) (q.interface ∷ q.peer ∷ [])

abbrev pub new_target :
    NodeRole
    → List (Dict String)
    → List TelemetryLink
    → List String
    → TelemetryTarget
    → BoundTelemetryTarget
new_target role clab links target_nodes target = record {
  node = target.node;
  container = target.container;
  role = role;
  interfaces = sort name_leb (interfaces_of target.node clab []);
  protocol_peers = sort peer_leb (peers_of target_nodes target.node links);
}

unfoldable pub bound_target :
    NetworkIntent
    → List (Dict String)
    → List TelemetryLink
    → List String
    → TelemetryTarget
    → Result BoundTelemetryTarget
bound_target intent clab links target_nodes target = do
  node ← or_raise (lookup target.node intent.nodes) (missing_key target.node)
  let bound = new_target node.role clab links target_nodes target
  validate_bound_target bound
  ok bound

unfoldable pub validate_binding : TelemetryTopologyBinding → Result (Unit {0})
validate_binding b = do
  raise_if (not (is_hex 64 b.fingerprint)) (invalid_field "fingerprint")
  raise_if (not (nat_beq (length b.targets) 6)) (invalid_field "targets")
  raise_if (not (leb 1 (length b.links) && leb (length b.links) 64)) (invalid_field "links")

abbrev pub new_binding :
    TelemetryConfig
    → String
    → List BoundTelemetryTarget
    → List TelemetryLink
    → TelemetryTopologyBinding
new_binding config fingerprint targets links = record {
  config = config;
  fingerprint = fingerprint;
  targets = targets;
  links = links;
}

-- The checks of the three documents against each other.
unfoldable pub check_documents : TelemetryConfig → NetworkIntent → ClabTopology → Result (Unit {0})
check_documents config intent clab = do
  let not_in_intent = missing_names (config_nodes config) (keys intent.nodes)
  raise_if (not (is_empty not_in_intent)) (missing_from_intent not_in_intent)
  let not_in_lab = missing_names (config_nodes config) clab.nodes
  raise_if (not (is_empty not_in_lab)) (missing_from_lab not_in_lab)
  check_containers clab.name config.routers
  raise_if
      (not (same_names (service_owners config.service_prefix intent.nodes) ("service-host" ∷ [])))
      not_service_owner
  let undeclared = undeclared_pairs intent clab.links_by_pair
  raise_if (not (is_empty undeclared)) (undeclared_lab_links undeclared)

unfoldable pub make_binding :
    String → TelemetryConfig → NetworkIntent → List (Dict String) → Result TelemetryTopologyBinding
make_binding fingerprint config intent clab = do
  links ← map_result (bound_link clab) intent.links
  targets ← map_result (bound_target intent clab links (config_nodes config)) config.routers
  let binding = new_binding config fingerprint targets links
  validate_binding binding
  ok binding

module _ (is_canonical_prefix is_prefix : String → Bool) (fingerprint : String) where
  unfoldable pub load_telemetry_binding :
      TelemetryConfig → NetworkIntent → Json → Result TelemetryTopologyBinding
  load_telemetry_binding config intent lab = do
    validate_config is_canonical_prefix config
    validate_intent is_prefix intent
    clab ← load_clab_topology lab
    check_documents config intent clab
    make_binding fingerprint config intent clab.links_by_pair
