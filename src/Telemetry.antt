-- ===== src/Telemetry.antt =====
-- telemetry_models.py: the observations of a router and of the network, with the checks that the
-- classes make of their arguments. Whether a text is the canonical form of an IP network is asked of
-- the address library.
pub mod Consistent
pub mod Same
pub mod Store
pub mod Binding
pub mod Collector
use telconet_sentinel.Common.{
  ℕ, String, Bool, true, false, not, ◌||◌, ◌&&◌, Option, none, some, List, [], ◌∷◌, ◌++◌, map, leb,
  ltb, nat_beq, length, is_empty, keep_if, codes, all_codes, contains, distinct, all_distinct,
  same_names, is_lower, is_upper, is_digit, is_hex, sort, name_leb, if◌then◌else◌,
}
use telconet_sentinel.Common.Dict.{is_some}
use telconet_sentinel.Errors.{
  Result, ok, err, ◌>>=◌, ◌>>◌, raise_if, map_result, invalid_field, configured_state,
  invalid_prefix, incomplete_route, route_fields_of_absent, error_not_one_line, success_with_error,
  success_not_up, failure_not_unknown, partial_observations, duplicate_interface,
  duplicate_neighbor, duplicate_peer, duplicate_route, unknown_interfaces, not_baseline_routers,
  duplicate_router, naive_observed_at,
}
use telconet_sentinel.Models.{Instant}
use telconet_sentinel.Runtime.{distinct_pairs}

abbrev pub baseline_routers : List String
baseline_routers = "access1" ∷ "access2" ∷ "agg1" ∷ "agg2" ∷ "core1" ∷ "core2" ∷ []

abbrev pub max_counter : ℕ
max_counter = 18446744073709551615

abbrev pub is_alphanumeric : ℕ → Bool
is_alphanumeric c = is_lower c || is_upper c || is_digit c

abbrev pub is_identifier_code : ℕ → Bool
is_identifier_code c =
    is_alphanumeric c || nat_beq c b'_' || nat_beq c b'.' || nat_beq c b':' || nat_beq c b'-'

-- `[A-Za-z0-9][A-Za-z0-9_.:-]{0,63}`
unfoldable pub are_identifier_codes : List ℕ → Bool
are_identifier_codes [] = false
are_identifier_codes (c ∷ cs) =
    is_alphanumeric c && all_codes is_identifier_code cs && leb (length cs) 63

-- The checks of a field of the types `Identifier` and `Counter`.
unfoldable pub check_identifier : String → String → Result (Unit {0})
check_identifier name value =
    raise_if (not (are_identifier_codes (codes value))) (invalid_field name)

unfoldable pub check_counter : String → ℕ → Result (Unit {0})
check_counter name value = raise_if (not (leb value max_counter)) (invalid_field name)

pub data TelemetryState : Type 0 where
  up down unknown : TelemetryState

abbrev pub is_up : TelemetryState → Bool
is_up up = true
is_up _ = false

abbrev pub is_unknown : TelemetryState → Bool
is_unknown unknown = true
is_unknown _ = false

pub record InterfaceTelemetry : Type 0 where
  pub name : String
  pub state : TelemetryState
  pub rx_bytes : ℕ
  pub tx_bytes : ℕ
  pub rx_drops : ℕ
  pub tx_drops : ℕ

unfoldable pub validate_interface : InterfaceTelemetry → Result (Unit {0})
validate_interface i = do
  check_identifier "name" i.name
  check_counter "rx_bytes" i.rx_bytes
  check_counter "tx_bytes" i.tx_bytes
  check_counter "rx_drops" i.rx_drops
  check_counter "tx_drops" i.tx_drops

pub record OspfNeighborTelemetry : Type 0 where
  pub neighbor : String
  pub interface : String
  pub state : TelemetryState

unfoldable pub validate_neighbor : OspfNeighborTelemetry → Result (Unit {0})
validate_neighbor n = do
  check_identifier "neighbor" n.neighbor
  check_identifier "interface" n.interface

pub record BfdPeerTelemetry : Type 0 where
  pub peer : String
  pub interface : String
  pub configured : Bool
  pub state : TelemetryState

unfoldable pub validate_peer : BfdPeerTelemetry → Result (Unit {0})
validate_peer p = do
  check_identifier "peer" p.peer
  check_identifier "interface" p.interface
  raise_if (not p.configured && not (is_unknown p.state)) configured_state

pub record RouteTelemetry : Type 0 where
  pub prefix : String
  pub present : Bool
  pub metric : Option ℕ
  pub egress_interface : Option String

-- The check of an optional field, if it is there.
abbrev pub when_some {ℓ} : {A : Type ℓ} → (A → Result (Unit {0})) → Option A → Result (Unit {0})
when_some check none = ok tt
when_some check (some a) = check a

pub record RouterTelemetry : Type 0 where
  pub name : String
  pub collection_success : Bool
  pub state : TelemetryState
  pub collection_error : Option String
  pub interfaces : List InterfaceTelemetry
  pub ospf_neighbors : List OspfNeighborTelemetry
  pub bfd_peers : List BfdPeerTelemetry
  pub routes : List RouteTelemetry

-- `[^\r\n]{1,256}`, of a whole text
unfoldable pub is_one_line : String → Bool
is_one_line s =
    all_codes (λ c. not (nat_beq c 13 || nat_beq c 10)) (codes s)
    && leb 1 (length (codes s))
    && leb (length (codes s)) 256

unfoldable pub validate_collection_error : String → Result (Unit {0})
validate_collection_error e = do
  raise_if (ltb 256 (length (codes e))) (invalid_field "collection_error")
  raise_if (not (is_one_line e)) error_not_one_line

abbrev pub interface_names : RouterTelemetry → List String
interface_names r = map (λ (i : InterfaceTelemetry). i.name) r.interfaces

-- The egress interfaces of the routes that have one.
unfoldable pub egress_interfaces : List RouteTelemetry → List String
egress_interfaces [] = []
egress_interfaces (r ∷ rs) =
    let rest = egress_interfaces rs in
    elim r.egress_interface [ none ↦ rest | some name ↦ name ∷ rest ]

unfoldable pub references : RouterTelemetry → List String
references r =
    map (λ (n : OspfNeighborTelemetry). n.interface) r.ospf_neighbors
    ++ map (λ (p : BfdPeerTelemetry). p.interface) r.bfd_peers
    ++ egress_interfaces r.routes

-- `set(references) - known_interfaces`
unfoldable pub unknown_references : RouterTelemetry → List String
unknown_references r =
    keep_if (λ name. not (contains name (interface_names r))) (distinct (references r))

abbrev has_observations : RouterTelemetry → Bool
has_observations r =
    not (is_empty r.interfaces)
    || not (is_empty r.ospf_neighbors)
    || not (is_empty r.bfd_peers)
    || not (is_empty r.routes)

-- The part of `validate_observation` that depends on the success of the collection.
unfoldable pub validate_success : RouterTelemetry → Result (Unit {0})
validate_success r =
    if r.collection_success
    then (raise_if (is_some r.collection_error) success_with_error
        >> raise_if (not (is_up r.state)) success_not_up)
    else (raise_if (not (is_unknown r.state) || not (is_some r.collection_error))
          failure_not_unknown
        >> raise_if (has_observations r) partial_observations)

unfoldable pub validate_observation : RouterTelemetry → Result (Unit {0})
validate_observation r = do
  validate_success r
  raise_if (not (all_distinct (interface_names r))) duplicate_interface
  raise_if
      (not (
        distinct_pairs
          (map (λ (n : OspfNeighborTelemetry). (n.neighbor, n.interface)) r.ospf_neighbors)))
      duplicate_neighbor
  raise_if
      (not (distinct_pairs (map (λ (p : BfdPeerTelemetry). (p.peer, p.interface)) r.bfd_peers)))
      duplicate_peer
  raise_if (not (all_distinct (map (λ (r : RouteTelemetry). r.prefix) r.routes))) duplicate_route
  raise_if (not (is_empty (unknown_references r)))
      (unknown_interfaces (sort name_leb (unknown_references r)))

pub record TelemetrySnapshot : Type 0 where
  pub snapshot_id : String
  pub observed_at : Instant
  pub topology_fingerprint : String
  pub routers : List RouterTelemetry

module _ (is_canonical_prefix : String → Bool) where
  unfoldable pub validate_route : RouteTelemetry → Result (Unit {0})
  validate_route r = do
    raise_if (not (leb 3 (length (codes r.prefix)) && leb (length (codes r.prefix)) 64))
        (invalid_field "prefix")
    raise_if (not (is_canonical_prefix r.prefix)) invalid_prefix
    when_some (check_counter "metric") r.metric
    when_some (check_identifier "egress_interface") r.egress_interface
    raise_if (r.present && (not (is_some r.metric) || not (is_some r.egress_interface)))
        incomplete_route
    raise_if (not r.present && (is_some r.metric || is_some r.egress_interface))
        route_fields_of_absent

  unfoldable pub validate_router : RouterTelemetry → Result (Unit {0})
  validate_router r = do
    check_identifier "name" r.name
    when_some validate_collection_error r.collection_error
    raise_if (ltb 64 (length r.interfaces)) (invalid_field "interfaces")
    _ ← map_result validate_interface r.interfaces
    raise_if (ltb 128 (length r.ospf_neighbors)) (invalid_field "ospf_neighbors")
    _ ← map_result validate_neighbor r.ospf_neighbors
    raise_if (ltb 128 (length r.bfd_peers)) (invalid_field "bfd_peers")
    _ ← map_result validate_peer r.bfd_peers
    raise_if (ltb 256 (length r.routes)) (invalid_field "routes")
    _ ← map_result validate_route r.routes
    validate_observation r

  -- The time is an instant here; `is_aware` says whether it had a time zone.
  unfoldable pub validate_snapshot : Bool → TelemetrySnapshot → Result (Unit {0})
  validate_snapshot is_aware s = do
    let router_names = map (λ (r : RouterTelemetry). r.name) s.routers
    check_identifier "snapshot_id" s.snapshot_id
    raise_if (not is_aware) naive_observed_at
    raise_if (not (is_hex 64 s.topology_fingerprint)) (invalid_field "topology_fingerprint")
    _ ← map_result validate_router s.routers
    raise_if (not (all_distinct router_names)) duplicate_router
    raise_if (not (same_names router_names baseline_routers)) not_baseline_routers
