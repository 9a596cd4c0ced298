-- ===== src/Telemetry/Collector/Collected.antt =====
-- The snapshots of the collector against the binding that it collects for.
use telconet_sentinel.Common.{
  String, Bool, Option, none, some, List, [], ◌∷◌, map, ◌≡◌, refl, sym, ap, subst, ◌∙◌, inl, inr,
}
use telconet_sentinel.Common.Dict.{Dict, lookup}
use telconet_sentinel.Common.Dict.Index.{index_by}
use telconet_sentinel.Common.Json.{Json, array, items, walk}
use telconet_sentinel.Errors.{Result, Result-cases, ok, >>=-eq-ok, ok-injective, map_result-map}
use telconet_sentinel.Telemetry.{
  InterfaceTelemetry, OspfNeighborTelemetry, BfdPeerTelemetry, RouteTelemetry, RouterTelemetry,
  validate_interface, validate_neighbor, validate_peer, validate_route, validate_router,
}
use telconet_sentinel.Telemetry.Binding.{
  BoundTelemetryPeer, bound_key, BoundTelemetryTarget, neighbor_key, peer_key,
}
use telconet_sentinel.Telemetry.Collector.{
  Outcome, printed, timed_out, command_failed, os_error, Attempt, failure, success, of_result,
  attempt, and_then, Command, interface_command, ospf_command, bfd_command, route_command, checked,
  observed_interface, add_entries, parse_interface_telemetry, parse_ospf_neighbors,
  add_all_neighbors, observed_neighbor, bound_interface, parse_bfd_peers, add_peer_states,
  observed_peer, observed_route, select_route, parse_selected_route, failed_router,
  collected_router, failed_router_telemetry, finish_router, collect_router, isolate_router,
  members_of, items_of,
}

-- What the collector makes of a target: a failed router, or one with all that is bound to it.
pub data Collects (t : BoundTelemetryTarget) (prefix : String) (r : RouterTelemetry) : Type 0 where
  failed : (message : String) → r ≡ failed_router t.node message → Collects t prefix r
  complete :
      (is : List InterfaceTelemetry) (ns : List OspfNeighborTelemetry) (ps : List BfdPeerTelemetry)
      (route : RouteTelemetry)
      → r ≡ collected_router t.node is ns ps route
      → map (λ (i : InterfaceTelemetry). i.name) is ≡ t.interfaces
      → map neighbor_key ns ≡ map bound_key t.protocol_peers
      → map peer_key ps ≡ map bound_key t.protocol_peers
      → route.prefix ≡ prefix
      → Collects t prefix r

pub checked-value {ℓ} :
    {A : Type ℓ} (check : A → Result (Unit {0})) (a b : A) → checked check a ≡ ok b → b ≡ a
checked-value check a b h = let (_, _, h₁) = >>=-eq-ok (check a) _ h in sym (ok-injective h₁)

success-injective {ℓ} : {A : Type ℓ} {a b : A} → success a ≡ success b → a ≡ b
success-injective h = cc

attempt-success {ℓ} :
    {A : Type ℓ} (o : Outcome) (parse : Json → Result A) (a : A)
    → attempt o parse ≡ success a
    → (d : Json) × (parse d ≡ ok a)
unfolding attempt
attempt-success (printed none) parse a h = cc
attempt-success timed_out parse a h = cc
attempt-success command_failed parse a h = cc
attempt-success os_error parse a h = cc
attempt-success (printed (some d)) parse a h = elim (Result-cases (parse d)) [
  | inl (b, parsed) ↦
      let same : success b ≡ success a = sym (ap of_result parsed) ∙ h in
      (d, parsed ∙ ap ok (success-injective same))
  | inr (e, raised) ↦
      let other : failure "invalid telemetry response" ≡ success a =
        sym (ap of_result raised) ∙ h in
      cc
]

-- A chain of attempts that succeeds.
and_then-success {ℓ κ} :
    {A : Type ℓ} {B : Type κ} (first : Attempt A) (rest : A → Attempt B) (b : B)
    → and_then first rest ≡ success b
    → (a : A) × (first ≡ success a) × (rest a ≡ success b)
and_then-success (failure message) rest b h = cc
and_then-success (success a) rest b h = (a, refl, h)

observed_interface-name :
    (name : String) (entry : Option (Dict Json)) → (observed_interface name entry).name ≡ name
unfolding observed_interface
observed_interface-name name none = refl
observed_interface-name name (some entry) = refl

map-id : (xs : List String) → map (λ x. x) xs ≡ xs
map-id [] = refl
map-id (x ∷ xs) = ap (λ ys. x ∷ ys) (map-id xs)

parse_interface_telemetry-names :
    (d : Json) (names : List String) (is : List InterfaceTelemetry)
    → parse_interface_telemetry d names ≡ ok is
    → map (λ (i : InterfaceTelemetry). i.name) is ≡ names
unfolding parse_interface_telemetry
parse_interface_telemetry-names (array xs) names is h =
    let entries = add_entries [] (items xs) in
    map_result-map
      (λ name. checked validate_interface (observed_interface name (lookup name entries)))
      (λ name. name) (λ (i : InterfaceTelemetry). i.name)
      (λ name i made.
        ap (λ (i : InterfaceTelemetry). i.name)
          (checked-value validate_interface (observed_interface name (lookup name entries)) i made)
        ∙ observed_interface-name name (lookup name entries))
      names is h
    ∙ map-id names
parse_interface_telemetry-names d names is h = cc

parse_ospf_neighbors-keys :
    (d : Json) (peers : List BoundTelemetryPeer) (ns : List OspfNeighborTelemetry)
    → parse_ospf_neighbors d peers ≡ ok ns
    → map neighbor_key ns ≡ map bound_key peers
unfolding parse_ospf_neighbors observed_neighbor
parse_ospf_neighbors-keys d peers ns h =
    let neighbors = members_of (lookup "neighbors" (members_of (some d))) in
    let (states, _, h₁) =
      >>=-eq-ok (add_all_neighbors (index_by bound_interface peers) [] neighbors) _ h in
    map_result-map (λ p. checked validate_neighbor (observed_neighbor states p)) bound_key
      neighbor_key
      (λ p n made.
        ap neighbor_key (checked-value validate_neighbor (observed_neighbor states p) n made))
      peers ns h₁

parse_bfd_peers-keys :
    (d : Json) (peers : List BoundTelemetryPeer) (ps : List BfdPeerTelemetry)
    → parse_bfd_peers d peers ≡ ok ps
    → map peer_key ps ≡ map bound_key peers
unfolding parse_bfd_peers observed_peer
parse_bfd_peers-keys d peers ps h =
    let (states, _, h₁) =
      >>=-eq-ok (add_peer_states (index_by bound_interface peers) [] (walk d)) _ h in
    map_result-map (λ p. checked validate_peer (observed_peer states p)) bound_key peer_key
      (λ p q made. ap peer_key (checked-value validate_peer (observed_peer states p) q made)) peers
      ps h₁

observed_route-prefix :
    (prefix : String) (o : Option (Dict Json)) → (observed_route prefix o).prefix ≡ prefix
unfolding observed_route
observed_route-prefix prefix none = refl
observed_route-prefix prefix (some selected) = refl

module _ (is_canonical_prefix : String → Bool) where
  parse_selected_route-prefix :
      (d : Json) (prefix : String) (r : RouteTelemetry)
      → parse_selected_route is_canonical_prefix d prefix ≡ ok r
      → r.prefix ≡ prefix
  unfolding parse_selected_route
  parse_selected_route-prefix d prefix r h =
      let selected = select_route (items_of (lookup prefix (members_of (some d)))) in
      ap (λ (r : RouteTelemetry). r.prefix)
        (checked-value (validate_route is_canonical_prefix) (observed_route prefix selected) r h)
      ∙ observed_route-prefix prefix selected

  failed_router_telemetry-Collects :
      (t : BoundTelemetryTarget) (prefix message : String) (r : RouterTelemetry)
      → failed_router_telemetry is_canonical_prefix t.node message ≡ ok r
      → Collects t prefix r
  unfolding failed_router_telemetry
  failed_router_telemetry-Collects t prefix message r h =
      failed message
        (checked-value (validate_router is_canonical_prefix) (failed_router t.node message) r h)

  -- The four steps of a collection.
  abbrev steps : (Command → Outcome) → BoundTelemetryTarget → String → Attempt RouterTelemetry
  steps run t prefix =
      and_then (attempt (run interface_command) (λ d. parse_interface_telemetry d t.interfaces))
        (λ is.
          and_then (attempt (run ospf_command) (λ d. parse_ospf_neighbors d t.protocol_peers))
            (λ ns.
              and_then (attempt (run bfd_command) (λ d. parse_bfd_peers d t.protocol_peers)) (λ ps.
                and_then
                  (attempt (run route_command)
                    (λ d. parse_selected_route is_canonical_prefix d prefix))
                  (λ r. success (collected_router t.node is ns ps r)))))

  steps-Collects :
      (run : Command → Outcome) (t : BoundTelemetryTarget) (prefix : String) (r : RouterTelemetry)
      → steps run t prefix ≡ success r
      → Collects t prefix r
  steps-Collects run t prefix r h =
      let (is, done₁, h₁) =
        and_then-success
          (attempt (run interface_command) (λ d. parse_interface_telemetry d t.interfaces)) _ r h in
      let (ns, done₂, h₂) =
        and_then-success (attempt (run ospf_command) (λ d. parse_ospf_neighbors d t.protocol_peers))
          _ r h₁ in
      let (ps, done₃, h₃) =
        and_then-success (attempt (run bfd_command) (λ d. parse_bfd_peers d t.protocol_peers)) _ r
          h₂ in
      let (route, done₄, h₄) =
        and_then-success
          (attempt (run route_command) (λ d. parse_selected_route is_canonical_prefix d prefix)) _ r
          h₃ in
      let (d₁, parsed₁) = attempt-success (run interface_command) _ is done₁ in
      let (d₂, parsed₂) = attempt-success (run ospf_command) _ ns done₂ in
      let (d₃, parsed₃) = attempt-success (run bfd_command) _ ps done₃ in
      let (d₄, parsed₄) = attempt-success (run route_command) _ route done₄ in
      complete is ns ps route (sym (success-injective h₄))
        (parse_interface_telemetry-names d₁ t.interfaces is parsed₁)
        (parse_ospf_neighbors-keys d₂ t.protocol_peers ns parsed₂)
        (parse_bfd_peers-keys d₃ t.protocol_peers ps parsed₃)
        (parse_selected_route-prefix d₄ prefix route parsed₄)

  finish_router-Collects :
      (t : BoundTelemetryTarget) (prefix : String) (a : Attempt RouterTelemetry)
      (r : RouterTelemetry)
      → ((q : RouterTelemetry) → a ≡ success q → Collects t prefix q)
      → finish_router is_canonical_prefix t.node a ≡ ok r
      → Collects t prefix r
  unfolding finish_router
  finish_router-Collects t prefix (failure message) r h finished =
      failed_router_telemetry-Collects t prefix message r finished
  finish_router-Collects t prefix (success q) r h finished =
      subst (Collects t prefix)
        (sym (checked-value (validate_router is_canonical_prefix) q r finished)) (h q refl)

  pub isolate_router-Collects :
      (run : Command → Outcome) (t : BoundTelemetryTarget) (prefix : String) (r : RouterTelemetry)
      → isolate_router is_canonical_prefix t.node (collect_router is_canonical_prefix run t prefix)
        ≡ ok r
      → Collects t prefix r
  unfolding isolate_router collect_router
  isolate_router-Collects run t prefix r h =
      elim (Result-cases (collect_router is_canonical_prefix run t prefix)) [
        | inl (q, collected) ↦
            let same : ok q ≡ ok r =
              sym (ap (isolate_router is_canonical_prefix t.node) collected) ∙ h in
            subst (Collects t prefix) (ok-injective same) (
              finish_router-Collects t prefix (steps run t prefix) q (steps-Collects run t prefix)
                collected)
        | inr (e, raised) ↦
            failed_router_telemetry-Collects t prefix "collector error" r
              (sym (ap (isolate_router is_canonical_prefix t.node) raised) ∙ h)
      ]
