-- ===== src/Tests/Collections.antt =====
-- A collection of six routers, of which one answers its commands.
use telconet_sentinel.Common.{
  String, Bool, true, false, none, some, List, [], ◌∷◌, ◌≡◌, refl, map, ◌==◌, contains,
  all_distinct, subset, same_names, distinct, keep_if, is_hex, all_codes, after_codes, strip_left,
  strip_right, text_before, if◌then◌else◌, ◌<>◌,
}
use telconet_sentinel.Common.Dict.{lookup, insert}
use telconet_sentinel.Common.Dict.Index.{index_by, index_from}
use telconet_sentinel.Common.Int.{pos}
use telconet_sentinel.Common.Json.{
  Json, boolean, integer, text, array, object, no_items, item, no_members, member, items, members,
  walk,
}
use telconet_sentinel.Errors.{ok, map_result}
use telconet_sentinel.Models.{access}
use telconet_sentinel.Runtime.{has_pair, distinct_pairs, same_codes}
use telconet_sentinel.Telemetry.{
  up, down, unknown, RouterTelemetry, TelemetrySnapshot, are_identifier_codes, check_identifier,
  check_counter, validate_interface, validate_neighbor, validate_peer, is_one_line,
  validate_collection_error, egress_interfaces, references, unknown_references, validate_success,
  validate_observation, validate_route, validate_router, validate_snapshot,
}
use telconet_sentinel.Telemetry.Binding.{
  BoundTelemetryTarget, TelemetryTopologyBinding, target_node, validate_telemetry_snapshot,
}
use telconet_sentinel.Telemetry.Collector.{
  Outcome, printed, timed_out, Command, interface_command, ospf_command, bfd_command, route_command,
  members_of, items_of, nonnegative_int, state_of, add_entries, observed_interface,
  parse_interface_telemetry, add_state, add_neighbor_state, add_neighbor_states, add_all_neighbors,
  observed_neighbor, parse_ospf_neighbors, add_peer_states, observed_peer, parse_bfd_peers,
  select_route, route_metric, egress_of, observed_route, parse_selected_route, attempt,
  failed_router, collected_router, failed_router_telemetry, finish_router, collect_router,
  isolate_router, collect_snapshot,
}
use telconet_sentinel.Telemetry.Collector.Accepted.{collect_snapshot-accepted}
use telconet_sentinel.Tests.Plans.{digest}

abbrev bound : String → BoundTelemetryTarget
bound name = record {
  node = name;
  container = "clab-" <> name;
  role = access;
  interfaces = "eth1" ∷ [];
  protocol_peers = record { peer = "agg1"; interface = "eth1" } ∷ [];
}

abbrev six : List BoundTelemetryTarget
six =
    bound "access1"
    ∷ bound "access2"
    ∷ bound "agg1"
    ∷ bound "agg2"
    ∷ bound "core1"
    ∷ bound "core2"
    ∷ []

abbrev binding : TelemetryTopologyBinding
binding = record {
  config = record {
    version = 1;
    poll_interval_seconds = 5;
    service_prefix = "192.0.2.1/32";
    routers = [];
  };
  fingerprint = digest;
  targets = six;
  links = [];
}

abbrev one : Json → Json
one j = array (item j no_items)

abbrev interfaces_output : Json
interfaces_output =
    one (object (member "ifname" (text "eth1") (member "operstate" (text "UP") no_members)))

abbrev ospf_output : Json
ospf_output = object (
    member "neighbors"
      (object (
        member "10.0.0.2"
          (one (
            object (
              member "ifaceName" (text "eth1:10.0.0.1")
                (member "nbrState" (text "Full/DR") no_members))))
          no_members))
      no_members)

abbrev bfd_output : Json
bfd_output = one (
    object (
      member "interface" (text "eth1")
        (member "peer" (text "10.0.0.2") (member "status" (text "down") no_members))))

abbrev route_output : Json
route_output = object (
    member "192.0.2.1/32"
      (one (
        object (
          member "selected" (boolean true) (
            member "installed" (boolean true) (
              member "metric" (integer (pos 20)) (
                member "nexthops"
                  (one (
                    object (
                      member "active" (boolean true) (
                        member "fib" (boolean true)
                          (member "interfaceName" (text "eth1") no_members)))))
                  no_members))))))
      no_members)

abbrev output_of : Command → Json
output_of interface_command = interfaces_output
output_of ospf_command = ospf_output
output_of bfd_command = bfd_output
output_of route_command = route_output

abbrev run : String → Command → Outcome
run container command =
    if container == "clab-access1" then printed (some (output_of command)) else timed_out

abbrev is_canonical_prefix : String → Bool
is_canonical_prefix s = s == "192.0.2.1/32"

abbrev answered : RouterTelemetry
answered = record {
  name = "access1";
  collection_success = true;
  state = up;
  collection_error = none;
  interfaces =
      record { name = "eth1"; state = up; rx_bytes = 0; tx_bytes = 0; rx_drops = 0; tx_drops = 0 }
      ∷ [];
  ospf_neighbors = record { neighbor = "agg1"; interface = "eth1"; state = up } ∷ [];
  bfd_peers = record { peer = "agg1"; interface = "eth1"; configured = true; state = down } ∷ [];
  routes =
      record {
        prefix = "192.0.2.1/32";
        present = true;
        metric = some 20;
        egress_interface = some "eth1";
      }
      ∷ [];
}

abbrev silent : String → RouterTelemetry
silent name = record {
  name = name;
  collection_success = false;
  state = unknown;
  collection_error = some "collection timed out";
  interfaces = [];
  ospf_neighbors = [];
  bfd_peers = [];
  routes = [];
}

abbrev snapshot : TelemetrySnapshot
snapshot = record {
  snapshot_id = "s-1";
  observed_at = 9;
  topology_fingerprint = digest;
  routers =
      answered
      ∷ silent "access2"
      ∷ silent "agg1"
      ∷ silent "agg2"
      ∷ silent "core1"
      ∷ silent "core2"
      ∷ [];
}

different : all_distinct (map target_node binding.targets) ≡ true
unfolding all_distinct contains
different = refl

collected : collect_snapshot is_canonical_prefix run binding "s-1" 9 ≡ ok snapshot
unfolding collect_snapshot isolate_router collect_router finish_router failed_router_telemetry
    collected_router failed_router attempt parse_selected_route observed_route egress_of
    route_metric select_route parse_bfd_peers observed_peer add_peer_states parse_ospf_neighbors
    observed_neighbor add_all_neighbors add_neighbor_states add_neighbor_state add_state
    parse_interface_telemetry observed_interface add_entries state_of nonnegative_int items_of
    members_of walk items members validate_snapshot validate_router validate_route
    validate_observation validate_success unknown_references references egress_interfaces
    validate_collection_error is_one_line validate_peer validate_neighbor validate_interface
    check_counter check_identifier are_identifier_codes has_pair distinct_pairs same_codes
    map_result index_by index_from lookup insert text_before strip_left strip_right after_codes
    all_codes is_hex keep_if distinct same_names subset all_distinct contains
collected = refl

collect_snapshot-accepted_example : validate_telemetry_snapshot snapshot binding ≡ ok tt
collect_snapshot-accepted_example =
    collect_snapshot-accepted is_canonical_prefix run binding "s-1" 9 snapshot different collected
