-- ===== src/Telemetry/Consistent.antt =====
-- What the checks of a router's observation make sure of.
use mathlib.Core.List.Memᴰ
use telconet_sentinel.Common.{String, true, false, none, List, [], Memᴰ, ◌≡◌}
use telconet_sentinel.Common.Dict.{is_some}
use telconet_sentinel.Telemetry.{
  RouterTelemetry, OspfNeighborTelemetry, BfdPeerTelemetry, up, unknown,
}

-- The observation of a router that was collected, or of one that was not.
pub data IsObservation (r : RouterTelemetry) : Type 0 where
  collected :
      r.collection_success ≡ true → r.state ≡ up → r.collection_error ≡ none → IsObservation r
  failed :
      r.collection_success ≡ false
      → r.state ≡ unknown
      → is_some r.collection_error ≡ true
      → r.interfaces ≡ []
      → r.ospf_neighbors ≡ []
      → r.bfd_peers ≡ []
      → r.routes ≡ []
      → IsObservation r

neighbor_interface : OspfNeighborTelemetry → String
neighbor_interface n = n.interface

peer_interface : BfdPeerTelemetry → String
peer_interface p = p.interface
