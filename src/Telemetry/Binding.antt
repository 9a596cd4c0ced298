-- ===== src/Telemetry/Binding.antt =====
-- telemetry_config.py: the configuration of the collector, its binding to a topology, and the checks
-- of a snapshot against a binding. Telemetry/Binding/Load makes a binding.
pub mod Lab
pub mod Load
use telconet_sentinel.Common.{
  ℕ, ◌+◌, ◌*◌, String, Bool, true, false, not, ◌||◌, ◌&&◌, Option, none, some, List, [], ◌∷◌, map,
  leb, ltb, nat_beq, length, any, codes, all_codes, all_distinct, subset, same_names, if◌then◌else◌,
  ◌==◌,
}
use telconet_sentinel.Common.Dict.{Dict, lookup}
use telconet_sentinel.Common.Dict.Index.{index_by}
use telconet_sentinel.Errors.{
  Result, ok, err, ◌>>=◌, ◌>>◌, raise_if, or_raise, map_result, missing_key, invalid_field,
  unsupported_version, invalid_prefix, duplicate_target, not_baseline_routers,
  duplicate_bound_interface, duplicate_bound_peer, unknown_bound_interface, fingerprint_mismatch,
  unexpected_interfaces, incomplete_interfaces, incomplete_peers, route_outside_allowlist,
  not_one_route, future_skew, naive_clock,
}
use telconet_sentinel.Models.{Instant, NodeRole, access, aggregation, core, service}
use telconet_sentinel.Runtime.{has_pair, distinct_pairs}
use telconet_sentinel.Telemetry.{
  baseline_routers, is_alphanumeric, is_identifier_code, RouterTelemetry, OspfNeighborTelemetry,
  BfdPeerTelemetry, RouteTelemetry, TelemetrySnapshot, interface_names,
}

-- `[A-Za-z0-9][A-Za-z0-9_.:-]{0,127}`
unfoldable pub are_config_codes : List ℕ → Bool
are_config_codes [] = false
are_config_codes (c ∷ cs) =
    is_alphanumeric c && all_codes is_identifier_code cs && leb (length cs) 127

unfoldable pub check_config_name : String → String → Result (Unit {0})
check_config_name field value =
    raise_if (not (are_config_codes (codes value))) (invalid_field field)

pub record TelemetryTarget : Type 0 where
  pub node : String
  pub container : String

pub record TelemetryConfig : Type 0 where
  pub version : ℕ
  pub poll_interval_seconds : ℕ
  pub service_prefix : String
  pub routers : List TelemetryTarget

unfoldable pub validate_target : TelemetryTarget → Result (Unit {0})
validate_target t = do check_config_name "node" t.node; check_config_name "container" t.container

unfoldable pub validate_targets : TelemetryConfig → Result (Unit {0})
validate_targets c = do
  let nodes = map (λ (t : TelemetryTarget). t.node) c.routers
  let containers = map (λ (t : TelemetryTarget). t.container) c.routers
  raise_if (not (all_distinct nodes) || not (all_distinct containers)) duplicate_target
  raise_if (not (same_names nodes baseline_routers)) not_baseline_routers

unfoldable pub validate_config : (String → Bool) → TelemetryConfig → Result (Unit {0})
validate_config is_canonical_prefix c = do
  raise_if (not (nat_beq c.version 1)) unsupported_version
  raise_if (not (leb 1 c.poll_interval_seconds && leb c.poll_interval_seconds 60))
      (invalid_field "poll_interval_seconds")
  raise_if
      (not (leb 3 (length (codes c.service_prefix)) && leb (length (codes c.service_prefix)) 64))
      (invalid_field "service_prefix")
  raise_if (not (is_canonical_prefix c.service_prefix)) invalid_prefix
  _ ← map_result validate_target c.routers
  validate_targets c

pub record BoundTelemetryPeer : Type 0 where
  pub peer : String
  pub interface : String

abbrev pub bound_key : BoundTelemetryPeer → String × String
bound_key p = (p.peer, p.interface)

pub record BoundTelemetryTarget : Type 0 where
  pub node : String
  pub container : String
  pub role : NodeRole
  pub interfaces : List String
  pub protocol_peers : List BoundTelemetryPeer

abbrev pub target_node : BoundTelemetryTarget → String
target_node t = t.node

unfoldable pub validate_bound_peer : BoundTelemetryPeer → Result (Unit {0})
validate_bound_peer p = do
  check_config_name "peer" p.peer
  check_config_name "interface" p.interface

unfoldable pub validate_inventory : BoundTelemetryTarget → Result (Unit {0})
validate_inventory t = do
  raise_if (not (all_distinct t.interfaces)) duplicate_bound_interface
  raise_if (not (distinct_pairs (map bound_key t.protocol_peers))) duplicate_bound_peer
  raise_if
      (not (subset (map (λ (p : BoundTelemetryPeer). p.interface) t.protocol_peers) t.interfaces))
      unknown_bound_interface

unfoldable pub validate_bound_target : BoundTelemetryTarget → Result (Unit {0})
validate_bound_target t = do
  check_config_name "node" t.node
  check_config_name "container" t.container
  raise_if (not (leb 1 (length t.interfaces) && leb (length t.interfaces) 64))
      (invalid_field "interfaces")
  _ ← map_result (check_config_name "interfaces") t.interfaces
  raise_if (ltb 64 (length t.protocol_peers)) (invalid_field "protocol_peers")
  _ ← map_result validate_bound_peer t.protocol_peers
  validate_inventory t

pub record TelemetryLink : Type 0 where
  pub id : String
  pub source : String
  pub source_interface : String
  pub target : String
  pub target_interface : String

pub record TelemetryTopologyBinding : Type 0 where
  pub config : TelemetryConfig
  pub fingerprint : String
  pub targets : List BoundTelemetryTarget
  pub links : List TelemetryLink

abbrev pub role_value : NodeRole → String
role_value access = "access"
role_value aggregation = "aggregation"
role_value core = "core"
role_value service = "service"

unfoldable pub roles : TelemetryTopologyBinding → List (String × String)
roles b = map (λ (t : BoundTelemetryTarget). (t.node, role_value t.role)) b.targets

unfoldable pub find_target : String → List BoundTelemetryTarget → Result BoundTelemetryTarget
find_target node [] = err (missing_key node)
find_target node (t ∷ ts) = if t.node == node then ok t else find_target node ts

unfoldable pub interface_link_id : String → String → List TelemetryLink → Option String
interface_link_id node interface [] = none
interface_link_id node interface (l ∷ ls) =
    let rest = interface_link_id node interface ls in
    if (l.source == node) && (l.source_interface == interface)
    then some l.id
    else if (l.target == node) && (l.target_interface == interface)
    then some l.id
    else rest

-- `set(keys) <= set(others)` and `==`, for pairs of names
unfoldable pub subset_pairs : List (String × String) → List (String × String) → Bool
subset_pairs [] others = true
subset_pairs (k ∷ ks) others = has_pair k others && subset_pairs ks others

unfoldable pub same_pairs : List (String × String) → List (String × String) → Bool
same_pairs ks others = subset_pairs ks others && subset_pairs others ks

abbrev pub neighbor_key : OspfNeighborTelemetry → String × String
neighbor_key n = (n.neighbor, n.interface)

abbrev pub peer_key : BfdPeerTelemetry → String × String
peer_key p = (p.peer, p.interface)

-- The body of the loop over the routers of a snapshot.
unfoldable pub check_router :
    TelemetryConfig → Dict BoundTelemetryTarget → RouterTelemetry → Result (Unit {0})
check_router config targets r = do
  target ← or_raise (lookup r.name targets) (missing_key r.name)
  let expected_peers = map bound_key target.protocol_peers
  raise_if (not (subset (interface_names r) target.interfaces)) (unexpected_interfaces r.name)
  raise_if (r.collection_success && not (same_names (interface_names r) target.interfaces))
      (incomplete_interfaces r.name)
  raise_if (any (λ (route : RouteTelemetry). not (route.prefix == config.service_prefix)) r.routes)
      route_outside_allowlist
  raise_if (r.collection_success && not (nat_beq (length r.routes) 1)) (not_one_route r.name)
  raise_if
      (r.collection_success && not (same_pairs (map neighbor_key r.ospf_neighbors) expected_peers))
      (incomplete_peers r.name)
  raise_if (r.collection_success && not (same_pairs (map peer_key r.bfd_peers) expected_peers))
      (incomplete_peers r.name)

unfoldable pub check_routers :
    TelemetryConfig → Dict BoundTelemetryTarget → List RouterTelemetry → Result (Unit {0})
check_routers config targets [] = ok tt
check_routers config targets (r ∷ rs) = do
  check_router config targets r
  check_routers config targets rs

unfoldable pub validate_telemetry_snapshot :
    TelemetrySnapshot → TelemetryTopologyBinding → Result (Unit {0})
validate_telemetry_snapshot snapshot binding = do
  raise_if (not (snapshot.topology_fingerprint == binding.fingerprint)) fingerprint_mismatch
  check_routers binding.config (index_by target_node binding.targets) snapshot.routers

-- The clock comes with whether it has a time zone; instants are microseconds.
unfoldable pub validate_telemetry_ingest :
    TelemetrySnapshot → TelemetryTopologyBinding → Instant → Bool → Result (Unit {0})
validate_telemetry_ingest snapshot binding server_now is_aware = do
  raise_if (not is_aware) naive_clock
  raise_if (ltb (server_now + 60 * 1000000) snapshot.observed_at) future_skew
  validate_telemetry_snapshot snapshot binding
