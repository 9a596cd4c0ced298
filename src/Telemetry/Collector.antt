-- ===== src/Telemetry/Collector.antt =====
-- telemetry_collector.py: what the collector reads from the output of a router's commands, and the
-- snapshot it makes of all routers. A command is known by how it ends; its text is the value that the
-- JSON reader makes of it. The identifier and the time of a snapshot come from outside. That a
-- snapshot is published, and the loop that does so, are not modelled.
pub mod Collected
pub mod Accepted
use telconet_sentinel.Common.{
  ℕ, String, Bool, true, false, not, ◌||◌, ◌&&◌, Option, none, some, List, [], ◌∷◌, map, nat_beq,
  is_empty, codes, lower_code, strip, after_codes, text_before, if◌then◌else◌, ◌==◌, ◌<>◌,
}
use telconet_sentinel.Common.Dict.{Dict, lookup, insert, is_some, or_default}
use telconet_sentinel.Common.Dict.Index.{index_by}
use telconet_sentinel.Common.Int.{ℤ, pos}
use telconet_sentinel.Common.Json.{
  Json, integer, text, array, object, items, members, walk, is_true, as_text,
}
use telconet_sentinel.Errors.{
  Result, ok, err, ◌>>=◌, ◌>>◌, raise_if, map_result, not_an_array, unexpected_interface,
  duplicate_protocol_interface,
}
use telconet_sentinel.Models.{Instant}
use telconet_sentinel.Runtime.{same_codes}
use telconet_sentinel.Telemetry.{
  TelemetryState, up, down, unknown, InterfaceTelemetry, OspfNeighborTelemetry, BfdPeerTelemetry,
  RouteTelemetry, RouterTelemetry, TelemetrySnapshot, validate_interface, validate_neighbor,
  validate_peer, validate_route, validate_router, validate_snapshot,
}
use telconet_sentinel.Telemetry.Binding.{
  BoundTelemetryPeer, BoundTelemetryTarget, TelemetryTopologyBinding,
}

-- A value that is no mapping, or no list, counts as an empty one.
unfoldable pub members_of : Option Json → Dict Json
members_of (some (object xs)) = members xs
members_of _ = []

unfoldable pub items_of : Option Json → List Json
items_of (some (array xs)) = items xs
items_of _ = []

unfoldable pub nonnegative_int : Option Json → ℕ
nonnegative_int (some (integer (pos n))) = n
nonnegative_int _ = 0

-- `_state`: a value that is no text has a text that stands for a state that is down.
unfoldable pub state_of : String → Option Json → TelemetryState
state_of up_value (some (text s)) =
    let normalized = map lower_code (strip (codes s)) in
    if is_some (after_codes (codes up_value) normalized)
    then up
    else if is_empty normalized || same_codes normalized (codes "unknown")
    then unknown
    else down
state_of up_value _ = down

-- The entries of the interfaces by their names.
unfoldable pub add_entries : Dict (Dict Json) → List Json → Dict (Dict Json)
add_entries entries [] = entries
add_entries entries (value ∷ rest) =
    add_entries (by_name (as_text (lookup "ifname" (members_of (some value))))) rest
  where
    by_name : Option String → Dict (Dict Json)
    by_name none = entries
    by_name (some name) = insert name (members_of (some value)) entries

unfoldable pub observed_interface : String → Option (Dict Json) → InterfaceTelemetry
observed_interface name none = record {
  name = name;
  state = unknown;
  rx_bytes = 0;
  tx_bytes = 0;
  rx_drops = 0;
  tx_drops = 0;
}
observed_interface name (some entry) =
    let stats = members_of (lookup "stats64" entry) in
    let rx = members_of (lookup "rx" stats) in
    let tx = members_of (lookup "tx" stats) in
    record {
      name = name;
      state = state_of "up" (lookup "operstate" entry);
      rx_bytes = nonnegative_int (lookup "bytes" rx);
      tx_bytes = nonnegative_int (lookup "bytes" tx);
      rx_drops = nonnegative_int (lookup "dropped" rx);
      tx_drops = nonnegative_int (lookup "dropped" tx);
    }

-- An observation that its class accepts.
abbrev pub checked {ℓ} : {A : Type ℓ} → (A → Result (Unit {0})) → A → Result A
checked check a = check a >> ok a

unfoldable pub parse_interface_telemetry : Json → List String → Result (List InterfaceTelemetry)
parse_interface_telemetry (array document) expected_interfaces =
    let entries = add_entries [] (items document) in
    map_result (λ name. checked validate_interface (observed_interface name (lookup name entries)))
      expected_interfaces
parse_interface_telemetry _ expected_interfaces = err not_an_array

-- `expected_by_interface`, and a new state of an interface of it
abbrev pub bound_interface : BoundTelemetryPeer → String
bound_interface p = p.interface

unfoldable pub add_state :
    Dict BoundTelemetryPeer
    → Dict TelemetryState
    → String
    → TelemetryState
    → Result (Dict TelemetryState)
add_state expected states interface state = do
  raise_if (not (is_some (lookup interface expected))) (unexpected_interface interface)
  raise_if (is_some (lookup interface states)) (duplicate_protocol_interface interface)
  ok (insert interface state states)

-- `entry.get("converged", entry.get("nbrState"))`
abbrev pub neighbor_state : Dict Json → Option Json
neighbor_state entry =
    if is_some (lookup "converged" entry) then lookup "converged" entry else lookup "nbrState" entry

unfoldable pub add_neighbor_state :
    Dict BoundTelemetryPeer → Dict TelemetryState → Dict Json → Result (Dict TelemetryState)
add_neighbor_state expected states entry = by_interface (as_text (lookup "ifaceName" entry))
  where
    by_interface : Option String → Result (Dict TelemetryState)
    by_interface none = ok states
    by_interface (some raw) =
        if raw == ""
        then ok states
        else add_state expected states (text_before b':' raw)
            (state_of "full" (neighbor_state entry))

unfoldable pub add_neighbor_states :
    Dict BoundTelemetryPeer → Dict TelemetryState → List Json → Result (Dict TelemetryState)
add_neighbor_states expected states [] = ok states
add_neighbor_states expected states (value ∷ rest) = do
  more ← add_neighbor_state expected states (members_of (some value))
  add_neighbor_states expected more rest

unfoldable pub add_all_neighbors :
    Dict BoundTelemetryPeer → Dict TelemetryState → Dict Json → Result (Dict TelemetryState)
add_all_neighbors expected states [] = ok states
add_all_neighbors expected states ((_, values) ∷ rest) = do
  more ← add_neighbor_states expected states (items_of (some values))
  add_all_neighbors expected more rest

unfoldable pub observed_neighbor : Dict TelemetryState → BoundTelemetryPeer → OspfNeighborTelemetry
observed_neighbor states p = record {
  neighbor = p.peer;
  interface = p.interface;
  state = or_default (lookup p.interface states) down;
}

unfoldable pub parse_ospf_neighbors :
    Json → List BoundTelemetryPeer → Result (List OspfNeighborTelemetry)
parse_ospf_neighbors document expected_peers = do
  let neighbors = members_of (lookup "neighbors" (members_of (some document)))
  states ← add_all_neighbors (index_by bound_interface expected_peers) [] neighbors
  map_result (λ p. checked validate_neighbor (observed_neighbor states p)) expected_peers

unfoldable pub add_peer_states :
    Dict BoundTelemetryPeer → Dict TelemetryState → List (Dict Json) → Result (Dict TelemetryState)
add_peer_states expected states [] = ok states
add_peer_states expected states (entry ∷ rest) = do
  more ← by_interface (as_text (lookup "interface" entry))
  add_peer_states expected more rest
  where
    by_interface : Option String → Result (Dict TelemetryState)
    by_interface none = ok states
    by_interface (some interface) =
        if is_some (lookup "peer" entry) || is_some (lookup "status" entry)
        then add_state expected states interface (state_of "up" (lookup "status" entry))
        else ok states

unfoldable pub observed_peer : Dict TelemetryState → BoundTelemetryPeer → BfdPeerTelemetry
observed_peer states p = record {
  peer = p.peer;
  interface = p.interface;
  configured = is_some (lookup p.interface states);
  state = or_default (lookup p.interface states) unknown;
}

unfoldable pub parse_bfd_peers : Json → List BoundTelemetryPeer → Result (List BfdPeerTelemetry)
parse_bfd_peers document expected_peers = do
  states ← add_peer_states (index_by bound_interface expected_peers) [] (walk document)
  map_result (λ p. checked validate_peer (observed_peer states p)) expected_peers

-- The first entry that is selected and installed.
unfoldable pub select_route : List Json → Option (Dict Json)
select_route [] = none
select_route (value ∷ rest) =
    let later = select_route rest in
    let candidate = members_of (some value) in
    if is_true (lookup "selected" candidate) && is_true (lookup "installed" candidate)
    then some candidate
    else later

unfoldable pub route_metric : Option Json → Option ℕ
route_metric (some (integer (pos n))) = some n
route_metric _ = none

-- The interface of the first next hop that is active, in the table, and named.
unfoldable pub egress_of : List Json → Option String
egress_of [] = none
egress_of (value ∷ rest) =
    first_egress (members_of (some value))
      (as_text (lookup "interfaceName" (members_of (some value)))) (egress_of rest)
  where
    first_egress : Dict Json → Option String → Option String → Option String
    first_egress next_hop none later = later
    first_egress next_hop (some interface) later =
        if is_true (lookup "active" next_hop) && is_true (lookup "fib" next_hop)
        then some interface
        else later

unfoldable pub observed_route : String → Option (Dict Json) → RouteTelemetry
observed_route prefix none = record {
  prefix = prefix;
  present = false;
  metric = none;
  egress_interface = none;
}
observed_route prefix (some selected) = record {
  prefix = prefix;
  present = true;
  metric = route_metric (lookup "metric" selected);
  egress_interface = egress_of (items_of (lookup "nexthops" selected));
}

-- How a command ends: with an output, which is no JSON for `none`, or in one of three exceptions.
pub data Outcome : Type 0 where
  printed : Option Json → Outcome
  timed_out command_failed os_error : Outcome

-- A step of a collection: it goes on, or the router counts as failed with a message.
pub data Attempt {ℓ} (A : Type ℓ) : Type ℓ where
  failure : String → Attempt A
  success : A → Attempt A

abbrev pub of_result {ℓ} : {A : Type ℓ} → Result A → Attempt A
of_result (ok a) = success a
of_result (err e) = failure "invalid telemetry response"

unfoldable pub attempt {ℓ} : {A : Type ℓ} → Outcome → (Json → Result A) → Attempt A
attempt (printed (some document)) parse = of_result (parse document)
attempt (printed none) parse = failure "invalid telemetry response"
attempt timed_out parse = failure "collection timed out"
attempt command_failed parse = failure "collection command failed"
attempt os_error parse = failure "invalid telemetry response"

abbrev pub and_then {ℓ κ} : {A : Type ℓ} {B : Type κ} → Attempt A → (A → Attempt B) → Attempt B
and_then (failure message) rest = failure message
and_then (success a) rest = rest a

pub data Command : Type 0 where
  interface_command ospf_command bfd_command route_command : Command

unfoldable pub failed_router : String → String → RouterTelemetry
failed_router name error = record {
  name = name;
  collection_success = false;
  state = unknown;
  collection_error = some error;
  interfaces = [];
  ospf_neighbors = [];
  bfd_peers = [];
  routes = [];
}

unfoldable pub collected_router :
    String
    → List InterfaceTelemetry
    → List OspfNeighborTelemetry
    → List BfdPeerTelemetry
    → RouteTelemetry
    → RouterTelemetry
collected_router name interfaces neighbors peers route = record {
  name = name;
  collection_success = true;
  state = up;
  collection_error = none;
  interfaces = interfaces;
  ospf_neighbors = neighbors;
  bfd_peers = peers;
  routes = route ∷ [];
}

module _ (is_canonical_prefix : String → Bool) where
  unfoldable pub parse_selected_route : Json → String → Result RouteTelemetry
  parse_selected_route document prefix =
      let entries = items_of (lookup prefix (members_of (some document))) in
      checked (validate_route is_canonical_prefix) (observed_route prefix (select_route entries))

  -- The messages of the collector are shorter than the 200 characters that are kept of one.
  unfoldable pub failed_router_telemetry : String → String → Result RouterTelemetry
  failed_router_telemetry name error =
      checked (validate_router is_canonical_prefix) (failed_router name error)

  unfoldable pub finish_router : String → Attempt RouterTelemetry → Result RouterTelemetry
  finish_router name (failure message) = failed_router_telemetry name message
  finish_router name (success router) = checked (validate_router is_canonical_prefix) router

  unfoldable pub collect_router :
      (Command → Outcome) → BoundTelemetryTarget → String → Result RouterTelemetry
  collect_router run target service_prefix = finish_router target.node (
      and_then
        (attempt (run interface_command) (λ d. parse_interface_telemetry d target.interfaces))
        (λ is.
          and_then (attempt (run ospf_command) (λ d. parse_ospf_neighbors d target.protocol_peers))
            (λ ns.
              and_then (attempt (run bfd_command) (λ d. parse_bfd_peers d target.protocol_peers))
                (λ ps.
                  and_then
                    (attempt (run route_command) (λ d. parse_selected_route d service_prefix))
                    (λ r. success (collected_router target.node is ns ps r))))))

  -- The body of the loop over the targets: whatever is raised makes the router a failed one.
  unfoldable pub isolate_router : String → Result RouterTelemetry → Result RouterTelemetry
  isolate_router name (ok router) = ok router
  isolate_router name (err e) = failed_router_telemetry name "collector error"

  unfoldable pub collect_snapshot :
      (String → Command → Outcome)
      → TelemetryTopologyBinding
      → String
      → Instant
      → Result TelemetrySnapshot
  collect_snapshot run binding snapshot_id observed_at = do
    routers ←
        map_result
          (λ (t : BoundTelemetryTarget).
            isolate_router t.node
              (collect_router (run t.container) t binding.config.service_prefix))
          binding.targets
    checked (validate_snapshot is_canonical_prefix true) (record {
      snapshot_id = snapshot_id;
      observed_at = observed_at;
      topology_fingerprint = binding.fingerprint;
      routers = routers;
    })
