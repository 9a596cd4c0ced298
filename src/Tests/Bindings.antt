-- ===== src/Tests/Bindings.antt =====
-- The binding of a lab with six routers, of which none answers its commands.
use telconet_sentinel.Common.{String, Bool, false, some, List, [], ◌∷◌, ◌==◌, ◌<>◌}
use telconet_sentinel.Common.Json.{Json, text, array, object, no_items, item, no_members, member}
use telconet_sentinel.Models.{NodeRole, access, aggregation, core, service}
use telconet_sentinel.Intent.{NetworkIntent, LinkIntent, NodeIntent}
use telconet_sentinel.Telemetry.{RouterTelemetry, TelemetrySnapshot, unknown}
use telconet_sentinel.Telemetry.Binding.{
  BoundTelemetryTarget, BoundTelemetryPeer, TelemetryConfig, TelemetryTarget, TelemetryLink,
  TelemetryTopologyBinding,
}
use telconet_sentinel.Telemetry.Collector.{Command, Outcome, timed_out}
use telconet_sentinel.Tests.Plans.{digest}

abbrev target : String → TelemetryTarget
target name = record { node = name; container = "clab-lab-" <> name }

abbrev config : TelemetryConfig
config = record {
  version = 1;
  poll_interval_seconds = 5;
  service_prefix = "192.0.2.1/32";
  routers =
      target "access1"
      ∷ target "access2"
      ∷ target "agg1"
      ∷ target "agg2"
      ∷ target "core1"
      ∷ target "core2"
      ∷ [];
}

abbrev router : String → NodeRole → String × NodeIntent
router name role = (name, record { role = role; prefixes = [] })

abbrev declared : String → String → String → LinkIntent
declared id a b = record { id = id; endpoints = (a, b); cost = 10 }

abbrev intent : NetworkIntent
intent = record {
  version = 1;
  nodes =
      router "access1" access
      ∷ router "access2" access
      ∷ router "agg1" aggregation
      ∷ router "agg2" aggregation
      ∷ router "core1" core
      ∷ router "core2" core
      ∷ ("service-host", record { role = service; prefixes = "192.0.2.1/32" ∷ [] })
      ∷ [];
  links =
      declared "l1" "access1" "agg1"
      ∷ declared "l2" "access2" "agg2"
      ∷ declared "l3" "agg1" "core1"
      ∷ declared "l4" "agg2" "core2"
      ∷ declared "l5" "core1" "core2"
      ∷ declared "l6" "core1" "service-host"
      ∷ [];
}

abbrev lab_node : String → Json
lab_node a = object no_members

abbrev lab_wire : String → String → Json
lab_wire a b =
    object (member "endpoints" (array (item (text a) (item (text b) no_items))) no_members)

abbrev lab : Json
lab = object (
    member "name" (text "lab") (
      member "topology"
        (object (
          member "nodes"
            (object (
              member "access1" (object no_members) (
                member "access2" (object no_members) (
                  member "agg1" (object no_members) (
                    member "agg2" (object no_members) (
                      member "core1" (object no_members) (
                        member "core2" (object no_members)
                          (member "service-host" (object no_members) no_members))))))))
            (member "links"
              (array (
                item (lab_wire "agg1:eth1" "access1:eth1") (
                  item (lab_wire "access2:eth1" "agg2:eth1") (
                    item (lab_wire "agg1:eth2" "core1:eth1") (
                      item (lab_wire "agg2:eth2" "core2:eth1") (
                        item (lab_wire "core1:eth2" "core2:eth2")
                          (item (lab_wire "core1:eth3" "service-host:eth1") no_items)))))))
              no_members)))
        no_members))

abbrev peer_at : String → String → BoundTelemetryPeer
peer_at peer interface = record { peer = peer; interface = interface }

abbrev bound : String → NodeRole → List String → List BoundTelemetryPeer → BoundTelemetryTarget
bound name role interfaces peers = record {
  node = name;
  container = "clab-lab-" <> name;
  role = role;
  interfaces = interfaces;
  protocol_peers = peers;
}

abbrev wire : String → String → String → String → String → TelemetryLink
wire id a i b j = record {
  id = id;
  source = a;
  source_interface = i;
  target = b;
  target_interface = j;
}

abbrev binding : TelemetryTopologyBinding
binding = record {
  config = config;
  fingerprint = digest;
  targets =
      bound "access1" access ("eth1" ∷ []) (peer_at "agg1" "eth1" ∷ [])
      ∷ bound "access2" access ("eth1" ∷ []) (peer_at "agg2" "eth1" ∷ [])
      ∷ bound "agg1" aggregation ("eth1" ∷ "eth2" ∷ [])
          (peer_at "access1" "eth1" ∷ peer_at "core1" "eth2" ∷ [])
      ∷ bound "agg2" aggregation ("eth1" ∷ "eth2" ∷ [])
          (peer_at "access2" "eth1" ∷ peer_at "core2" "eth2" ∷ [])
      ∷ bound "core1" core ("eth1" ∷ "eth2" ∷ "eth3" ∷ [])
          (peer_at "agg1" "eth1" ∷ peer_at "core2" "eth2" ∷ [])
      ∷ bound "core2" core ("eth1" ∷ "eth2" ∷ [])
          (peer_at "agg2" "eth1" ∷ peer_at "core1" "eth2" ∷ [])
      ∷ [];
  links =
      wire "l1" "access1" "eth1" "agg1" "eth1"
      ∷ wire "l2" "access2" "eth1" "agg2" "eth1"
      ∷ wire "l3" "agg1" "eth2" "core1" "eth1"
      ∷ wire "l4" "agg2" "eth2" "core2" "eth1"
      ∷ wire "l5" "core1" "eth2" "core2" "eth2"
      ∷ wire "l6" "core1" "eth3" "service-host" "eth1"
      ∷ [];
}

abbrev is_host_prefix : String → Bool
is_host_prefix prefix = prefix == "192.0.2.1/32"

abbrev silent_run : String → Command → Outcome
silent_run container command = timed_out

abbrev silent : String → RouterTelemetry
silent name = record {
  name = name;
  collection_success = false;
  state = unknown;
  collection_error = some "collection timed out";
  interfaces = [];
  ospf_neighbors = [];
  bfd_peers = [];
  routes = [];
}

abbrev snapshot : TelemetrySnapshot
snapshot = record {
  snapshot_id = "s-1";
  observed_at = 9;
  topology_fingerprint = digest;
  routers =
      silent "access1"
      ∷ silent "access2"
      ∷ silent "agg1"
      ∷ silent "agg2"
      ∷ silent "core1"
      ∷ silent "core2"
      ∷ [];
}
