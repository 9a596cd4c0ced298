-- ===== src/Tests/Losses.antt =====
-- The analysis of the loss of the only link to a service node.
use telconet_sentinel.Common.{[], ◌∷◌}
use telconet_sentinel.Models.{access, service, outage, NetworkEvent, ImpactAnalysis}
use telconet_sentinel.Topology.{Topology}
use telconet_sentinel.Tests.Sample.{named}

abbrev line : Topology
line = record {
  nodes_by_name =
      ("acc-1", named "acc-1" access ("10.0.0.0/24" ∷ []))
      ∷ ("svc-1", named "svc-1" service [])
      ∷ [];
  links_by_id =
      ("l1", record { id = "l1"; endpoint_a = "acc-1"; endpoint_b = "svc-1"; cost = 12 }) ∷ [];
}

abbrev loss : NetworkEvent
loss = record { link_id = "l1"; event_type = "link_down"; observed_at = 3 }

abbrev analysis : ImpactAnalysis
analysis = record {
  failed_component = "l1";
  evidence =
      "link_down observed on l1" ∷ "no alternate service path"
      ∷ "shortest service path lost: acc-1 12->unreachable" ∷ [];
  affected_nodes = "acc-1" ∷ [];
  affected_prefixes = "10.0.0.0/24" ∷ [];
  service_impact = outage;
}
