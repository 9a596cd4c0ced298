-- ===== src/Telemetry/Collector/Accepted.antt =====
-- The check of a snapshot against its binding, on what the collector makes.
use telconet_sentinel.Common.{
  String, Bool, true, not, some, List, [], ◌∷◌, map, Memᴰ, ◌≡◌, refl, sym, ap, subst, ◌∙◌, arith,
  any, contains-mem, subset, subset-of, same_names_refl, all_distinct, eq_refl, ◌==◌,
}
use telconet_sentinel.Common.Dict.{Dict, lookup}
use telconet_sentinel.Common.Dict.Index.{index_by, lookup-index_by}
use telconet_sentinel.Errors.{
  Result, ok, ◌>>◌, raise_if, fingerprint_mismatch, >>=-eq-ok, map_result, map_result-source,
}
use telconet_sentinel.Models.{Instant}
use telconet_sentinel.Runtime.{has_pair}
use telconet_sentinel.Telemetry.{
  InterfaceTelemetry, OspfNeighborTelemetry, BfdPeerTelemetry, RouteTelemetry, RouterTelemetry,
  TelemetrySnapshot, validate_snapshot,
}
use telconet_sentinel.Telemetry.Binding.{
  bound_key, BoundTelemetryTarget, target_node, TelemetryTopologyBinding, TelemetryConfig,
  subset_pairs, same_pairs, neighbor_key, peer_key, check_router, check_routers,
  validate_telemetry_snapshot,
}
use telconet_sentinel.Telemetry.Collector.{
  Outcome, Command, failed_router, collected_router, collect_router, isolate_router,
  collect_snapshot,
}
use telconet_sentinel.Telemetry.Collector.Collected.{
  Collects, failed, complete, isolate_router-Collects, checked-value,
}

has_pair-tail :
    (k j : String × String) (ks : List (String × String))
    → has_pair k ks ≡ true
    → has_pair k (j ∷ ks) ≡ true
unfolding has_pair
has_pair-tail k j ks h = ground arith

subset_pairs-tail :
    (j : String × String) (ks others : List (String × String))
    → subset_pairs ks others ≡ true
    → subset_pairs ks (j ∷ others) ≡ true
unfolding subset_pairs
subset_pairs-tail j [] others h = refl
subset_pairs-tail j (k ∷ ks) others h =
    ground (arith, has_pair-tail k j others, subset_pairs-tail j ks others)

subset_pairs_refl : (ks : List (String × String)) → subset_pairs ks ks ≡ true
unfolding subset_pairs has_pair
subset_pairs_refl [] = refl
subset_pairs_refl (k ∷ ks) =
    rw (eq_refl k.0, eq_refl k.1) (subset_pairs-tail k ks ks (subset_pairs_refl ks))

same_pairs_refl : (ks : List (String × String)) → same_pairs ks ks ≡ true
unfolding same_pairs
same_pairs_refl ks = rw (subset_pairs_refl ks) refl

subset_refl : (xs : List String) → subset xs xs ≡ true
subset_refl xs = subset-of xs xs (λ x m. (contains-mem x xs).1 m)

module _ (config : TelemetryConfig) (targets : Dict BoundTelemetryTarget) (t : BoundTelemetryTarget)
    (known : lookup t.node targets ≡ some t) where
  failed-accepted :
      (message : String) → check_router config targets (failed_router t.node message) ≡ ok tt
  unfolding check_router failed_router subset any
  failed-accepted message = rw known refl

  complete-accepted :
      (is : List InterfaceTelemetry) (ns : List OspfNeighborTelemetry) (ps : List BfdPeerTelemetry)
      (route : RouteTelemetry)
      → map (λ (i : InterfaceTelemetry). i.name) is ≡ t.interfaces
      → map neighbor_key ns ≡ map bound_key t.protocol_peers
      → map peer_key ps ≡ map bound_key t.protocol_peers
      → route.prefix ≡ config.service_prefix
      → check_router config targets (collected_router t.node is ns ps route) ≡ ok tt
  unfolding check_router collected_router any
  complete-accepted is ns ps route names neighbors peers prefix =
      rw
        (
          known,
          names,
          neighbors,
          peers,
          prefix,
          subset_refl t.interfaces,
          same_names_refl t.interfaces,
          same_pairs_refl (map bound_key t.protocol_peers),
          eq_refl config.service_prefix,
        )
        refl

  -- A router that the collector makes for a target passes the check against it.
  Collects-accepted :
      (r : RouterTelemetry)
      → Collects t config.service_prefix r
      → check_router config targets r ≡ ok tt
  Collects-accepted r (failed message same) =
      ap (check_router config targets) same ∙ failed-accepted message
  Collects-accepted r (complete is ns ps route same names neighbors peers prefix) =
      ap (check_router config targets) same
      ∙ complete-accepted is ns ps route names neighbors peers prefix

all-accepted :
    (config : TelemetryConfig) (targets : Dict BoundTelemetryTarget) (rs : List RouterTelemetry)
    → ((r : RouterTelemetry) → Memᴰ r rs → check_router config targets r ≡ ok tt)
    → check_routers config targets rs ≡ ok tt
unfolding check_routers
all-accepted config targets [] h = refl
all-accepted config targets (r ∷ rs) h =
    rw (h r (Memᴰ.head refl)) (all-accepted config targets rs (λ q m. h q (Memᴰ.tail m)))

-- Whatever the commands of the routers print or raise, a snapshot that the collector returns for a
-- binding with different nodes passes the check against that binding.
pub collect_snapshot-accepted :
    (is_canonical_prefix : String → Bool) (run : String → Command → Outcome)
    (binding : TelemetryTopologyBinding) (snapshot_id : String) (observed_at : Instant)
    (s : TelemetrySnapshot)
    → all_distinct (map target_node binding.targets) ≡ true
    → collect_snapshot is_canonical_prefix run binding snapshot_id observed_at ≡ ok s
    → validate_telemetry_snapshot s binding ≡ ok tt
unfolding collect_snapshot validate_telemetry_snapshot
collect_snapshot-accepted is_canonical_prefix run binding snapshot_id observed_at s distinct h =
    let prefix = binding.config.service_prefix in
    let collect : BoundTelemetryTarget → Result RouterTelemetry = λ (t : BoundTelemetryTarget).
      isolate_router is_canonical_prefix t.node
        (collect_router is_canonical_prefix (run t.container) t prefix) in
    let (routers, collected, h₁) = >>=-eq-ok (map_result collect binding.targets) _ h in
    let made : TelemetrySnapshot = record {
      snapshot_id = snapshot_id;
      observed_at = observed_at;
      topology_fingerprint = binding.fingerprint;
      routers = routers;
    } in
    let same : s ≡ made = checked-value (validate_snapshot is_canonical_prefix true) made s h₁ in
    let targets = index_by target_node binding.targets in
    let each = all-accepted binding.config targets routers (λ r m.
      let (t, listed, done) = map_result-source collect binding.targets routers r collected m in
      Collects-accepted binding.config targets t
        (lookup-index_by target_node t binding.targets distinct listed) r
        (isolate_router-Collects is_canonical_prefix (run t.container) t prefix r done)) in
    subst
      (λ (q : TelemetrySnapshot).
        (raise_if (not (q.topology_fingerprint == binding.fingerprint)) fingerprint_mismatch
          >> check_routers binding.config targets q.routers)
        ≡ ok tt)
      (sym same) (rw (eq_refl binding.fingerprint) each)
