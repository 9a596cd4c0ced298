-- ===== src/Tests/Sample.antt =====
-- A ring of four nodes: two ways from the access node to the service node, of costs 20 and 30.
use telconet_sentinel.Common.{
  List, [], ◌∷◌, String, true, contains, sort, insert_sorted, keep_if, ◌≡◌, refl,
}
use telconet_sentinel.Common.Dict.{insert, keys}
use telconet_sentinel.Errors.{ok}
use telconet_sentinel.Models.{Node, Link, NodeRole, access, aggregation, core, service}
use telconet_sentinel.Topology.{
  Topology, new, add_nodes, add_node, add_links, add_link, unknown_endpoints, known,
}
use telconet_sentinel.Topology.Valid.{IsValid, new-IsValid}

abbrev pub named : String → NodeRole → List String → Node
named name role prefixes = record { name = name; role = role; prefixes = prefixes }

abbrev pub north : Link
north = record { id = "acc-agg"; endpoint_a = "acc-1"; endpoint_b = "agg-1"; cost = 10 }

abbrev pub south : Link
south = record { id = "acc-core"; endpoint_a = "acc-1"; endpoint_b = "core-1"; cost = 15 }

abbrev pub east : Link
east = record { id = "agg-svc"; endpoint_a = "svc-1"; endpoint_b = "agg-1"; cost = 10 }

abbrev pub west : Link
west = record { id = "core-svc"; endpoint_a = "core-1"; endpoint_b = "svc-1"; cost = 15 }

abbrev pub sample_nodes : List Node
sample_nodes =
    named "acc-1" access ("10.0.0.0/24" ∷ [])
    ∷ named "agg-1" aggregation []
    ∷ named "core-1" core []
    ∷ named "svc-1" service []
    ∷ []

abbrev pub sample_links : List Link
sample_links = north ∷ south ∷ east ∷ west ∷ []

abbrev pub network : Topology
network = record {
  nodes_by_name =
      ("acc-1", named "acc-1" access ("10.0.0.0/24" ∷ []))
      ∷ ("agg-1", named "agg-1" aggregation [])
      ∷ ("core-1", named "core-1" core [])
      ∷ ("svc-1", named "svc-1" service [])
      ∷ [];
  links_by_id =
      ("acc-agg", north) ∷ ("acc-core", south) ∷ ("agg-svc", east) ∷ ("core-svc", west) ∷ [];
}

pub network_built : new sample_nodes sample_links ≡ ok network
unfolding new add_nodes add_node add_links add_link unknown_endpoints known insert contains keep_if
    sort insert_sorted
network_built = refl

pub network-IsValid : IsValid network
network-IsValid = new-IsValid sample_nodes sample_links network network_built

pub access_known : contains "acc-1" (keys network.nodes_by_name) ≡ true
unfolding contains
access_known = refl
