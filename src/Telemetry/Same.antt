-- ===== src/Telemetry/Same.antt =====
-- telemetry_models.py: the equality of snapshots, which compares their fields.
use telconet_sentinel.Common.{
  ℕ, Bool, true, false, ◌&&◌, Option, none, some, List, [], ◌∷◌, ◌≡◌, refl, arith, nat_beq, ◌==◌,
  eq_refl,
}
use telconet_sentinel.Telemetry.{
  TelemetryState, up, down, unknown, InterfaceTelemetry, OspfNeighborTelemetry, BfdPeerTelemetry,
  RouteTelemetry, RouterTelemetry, TelemetrySnapshot,
}

abbrev pub same_bool : Bool → Bool → Bool
same_bool true true = true
same_bool false false = true
same_bool _ _ = false

abbrev pub same_state : TelemetryState → TelemetryState → Bool
same_state up up = true
same_state down down = true
same_state unknown unknown = true
same_state _ _ = false

abbrev pub same_option {ℓ} : {A : Type ℓ} → (A → A → Bool) → Option A → Option A → Bool
same_option same none none = true
same_option same (some a) (some b) = same a b
same_option same _ _ = false

unfoldable pub same_lists {ℓ} : {A : Type ℓ} → (A → A → Bool) → List A → List A → Bool
same_lists same [] [] = true
same_lists same (x ∷ xs) (y ∷ ys) = same x y && same_lists same xs ys
same_lists same _ _ = false

unfoldable pub same_interface : InterfaceTelemetry → InterfaceTelemetry → Bool
same_interface a b =
    (a.name == b.name)
    && same_state a.state b.state
    && nat_beq a.rx_bytes b.rx_bytes
    && nat_beq a.tx_bytes b.tx_bytes
    && nat_beq a.rx_drops b.rx_drops
    && nat_beq a.tx_drops b.tx_drops

unfoldable pub same_neighbor : OspfNeighborTelemetry → OspfNeighborTelemetry → Bool
same_neighbor a b =
    (a.neighbor == b.neighbor) && (a.interface == b.interface) && same_state a.state b.state

unfoldable pub same_peer : BfdPeerTelemetry → BfdPeerTelemetry → Bool
same_peer a b =
    (a.peer == b.peer)
    && (a.interface == b.interface)
    && same_bool a.configured b.configured
    && same_state a.state b.state

unfoldable pub same_route : RouteTelemetry → RouteTelemetry → Bool
same_route a b =
    (a.prefix == b.prefix)
    && same_bool a.present b.present
    && same_option nat_beq a.metric b.metric
    && same_option (λ x y. x == y) a.egress_interface b.egress_interface

unfoldable pub same_router : RouterTelemetry → RouterTelemetry → Bool
same_router a b =
    (a.name == b.name)
    && same_bool a.collection_success b.collection_success
    && same_state a.state b.state
    && same_option (λ x y. x == y) a.collection_error b.collection_error
    && same_lists same_interface a.interfaces b.interfaces
    && same_lists same_neighbor a.ospf_neighbors b.ospf_neighbors
    && same_lists same_peer a.bfd_peers b.bfd_peers
    && same_lists same_route a.routes b.routes

unfoldable pub same_snapshot : TelemetrySnapshot → TelemetrySnapshot → Bool
same_snapshot a b =
    (a.snapshot_id == b.snapshot_id)
    && nat_beq a.observed_at b.observed_at
    && (a.topology_fingerprint == b.topology_fingerprint)
    && same_lists same_router a.routers b.routers

same_lists_refl {ℓ} :
    {A : Type ℓ} (same : A → A → Bool)
    → ((a : A) → same a a ≡ true)
    → (xs : List A) → same_lists same xs xs ≡ true
unfolding same_lists
same_lists_refl same h [] = refl
same_lists_refl same h (x ∷ xs) = rw (h x, same_lists_refl same h xs) refl

same_option_refl {ℓ} :
    {A : Type ℓ} (same : A → A → Bool)
    → ((a : A) → same a a ≡ true)
    → (o : Option A) → same_option same o o ≡ true
same_option_refl same h none = refl
same_option_refl same h (some a) = h a

same_state_refl : (s : TelemetryState) → same_state s s ≡ true
same_state_refl up = refl
same_state_refl down = refl
same_state_refl unknown = refl

same_bool_refl : (b : Bool) → same_bool b b ≡ true
same_bool_refl true = refl
same_bool_refl false = refl

nat_beq_refl : (n : ℕ) → nat_beq n n ≡ true
nat_beq_refl n = ground arith

same_route_refl : (a : RouteTelemetry) → same_route a a ≡ true
unfolding same_route
same_route_refl a =
    rw
      (
        eq_refl a.prefix,
        same_bool_refl a.present,
        same_option_refl nat_beq nat_beq_refl a.metric,
        same_option_refl (λ x y. x == y) eq_refl a.egress_interface,
      )
      refl

same_router_refl : (a : RouterTelemetry) → same_router a a ≡ true
unfolding same_router same_interface same_neighbor same_peer
same_router_refl a =
    rw
      (
        eq_refl a.name,
        same_bool_refl a.collection_success,
        same_state_refl a.state,
        same_option_refl (λ x y. x == y) eq_refl a.collection_error,
        same_lists_refl same_interface
            (λ i. ground (
              arith,
              eq_refl i.name,
              same_state_refl i.state,
              nat_beq_refl i.rx_bytes,
              nat_beq_refl i.tx_bytes,
              nat_beq_refl i.rx_drops,
              nat_beq_refl i.tx_drops,
            ))
            a.interfaces,
        same_lists_refl same_neighbor
            (λ n. ground (arith, eq_refl n.neighbor, eq_refl n.interface, same_state_refl n.state))
            a.ospf_neighbors,
        same_lists_refl same_peer
            (λ p. ground (
              arith,
              eq_refl p.peer,
              eq_refl p.interface,
              same_bool_refl p.configured,
              same_state_refl p.state,
            ))
            a.bfd_peers,
        same_lists_refl same_route same_route_refl a.routes,
      )
      refl

pub same_snapshot_refl : (a : TelemetrySnapshot) → same_snapshot a a ≡ true
unfolding same_snapshot
same_snapshot_refl a =
    rw
      (
        eq_refl a.snapshot_id,
        nat_beq_refl a.observed_at,
        eq_refl a.topology_fingerprint,
        same_lists_refl same_router same_router_refl a.routers,
      )
      refl
