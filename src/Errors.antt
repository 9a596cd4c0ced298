-- ===== src/Errors.antt =====
-- The exceptions of the package, one constructor for each `raise`, and the results that carry them.
use mathlib.Core.List.Memᴰ
use telconet_sentinel.Common.{
  length, map, suc, Memᴰ, sym, subst, ap, ◌∙◌, ◌⊎◌, inl, inr, String, List, [], ◌∷◌, Bool, true,
  false, Option, none, some, ◌≡◌, refl,
}

pub data Error : Type 0 where
  -- topology.py
  duplicate_node duplicate_link cost_not_positive self_link : String → Error
  unknown_endpoint : String → List String → Error
  unknown_node unknown_link : String → Error
  -- a `KeyError` of a dictionary, and a loop that ran out of its fuel
  missing_key : String → Error
  out_of_fuel : Error
  -- fault.py
  invalid_scenario_id no_component not_one_link not_one_node not_composite no_transport_node : Error
  -- impact.py and audit.py
  unsupported_event : String → Error
  no_access_node no_service_node no_scenario duplicate_scenario : Error
  no_baseline_path : String → Error
  -- resilience.py: `next` of an empty iterator
  stop_iteration : Error
  unsupported_design : String → Error
  -- recovery.py and service.py
  action_not_allowed not_awaiting_approval : Error
  window_not_positive max_not_positive : Error
  incident_not_found : String → Error
  -- convergence.py, with the database's refusal of a row
  unsupported_profile event_not_in_profile duplicate_event run_not_found : String → Error
  empty_endpoint naive_started_at naive_observed_at negative_offset : Error
  no_route_metric no_icmp_sequence not_injected_first not_monotonic : Error
  capacity_not_positive integrity_error unknown_kind : Error
  -- a constraint on a field of a model, by the name of the field
  invalid_field : String → Error
  -- runtime_resilience.py: the plan, the observation and the published evidence
  duplicate_injection duplicate_access_node duplicate_scenario_id duplicate_router : Error
  unsupported_version not_ipv4_host kind_mismatch inconsistent_totals : Error
  not_eight_checks conflicting_results conflicting_passed_all : Error
  fingerprint_mismatch configuration_mismatch matrix_mismatch : Error
  -- runtime_resilience.py: the documents and the plan made of them
  not_a_mapping not_a_sequence : String → Error
  node_limit link_limit access_limit prefix_limit scenario_limit : Error
  not_an_endpoint invalid_node_name not_only_endpoints not_two_endpoints : Error
  unknown_endpoint_node unsupported_interface : String → Error
  lab_self_link parallel_link not_one_service_prefix isolated_node : Error
  missing_lab_link no_lab_interface : String → Error
  -- runtime_resilience.py: the evidence and the commands
  scenario_set_mismatch not_one_selected_route entries_not_lists : Error
  access_set_mismatch : String → Error
  duplicate_json_key json_constant : String → Error
  not_runner_paths unreachable_path not_runner_baselines : Error
  inconsistent_baseline : String → Error
  -- failure_domain.py
  duplicate_component too_few_components : Error
  invalid_component invalid_domain_id : String → Error
  not_a_candidate : String → Error
  -- telemetry_models.py and telemetry_store.py
  configured_state invalid_prefix incomplete_route route_fields_of_absent : Error
  error_not_one_line success_with_error success_not_up failure_not_unknown : Error
  partial_observations duplicate_interface duplicate_neighbor duplicate_peer : Error
  duplicate_route not_baseline_routers duplicate_snapshot : Error
  unknown_interfaces : List String → Error
  -- telemetry_config.py
  duplicate_target duplicate_bound_interface duplicate_bound_peer unknown_bound_interface : Error
  unexpected_interfaces incomplete_interfaces incomplete_peers : String → Error
  route_outside_allowlist future_skew naive_clock : Error
  not_one_route : String → Error
  missing_from_intent missing_from_lab undeclared_lab_links : List String → Error
  no_lab_name not_service_owner not_unique_lab_pair : Error
  wrong_container link_missing_from_lab : String → Error
  reused_lab_interface : String → String → Error
  -- telemetry_collector.py
  not_an_array : Error
  unexpected_interface duplicate_protocol_interface : String → Error
  -- intent.py
  candidate_without_baseline baseline_with_based_on not_one_baseline duplicate_intent : Error
  invalid_design_id : String → Error
  unknown_baseline : String → Option String → Error
  repeated_node_prefix duplicate_link_id : Error
  invalid_node_prefix invalid_endpoint_name invalid_intent_node : String → Error
  duplicate_prefix : String → String → String → Error

-- What a call comes to: a returned value, or a raised exception.
pub data Result {ℓ} (Value : Type ℓ) : Type ℓ where
  err : Error → Result Value
  ok : Value → Result Value

-- `if b: raise e`
abbrev pub raise_if : Bool → Error → Result (Unit {0})
raise_if true e = err e
raise_if false e = ok tt

abbrev pub or_raise {ℓ} : {A : Type ℓ} → Option A → Error → Result A
or_raise none e = err e
or_raise (some a) e = ok a

infixl 5 ◌>>=◌
abbrev pub ◌>>=◌ {ℓ κ} :
    {Value : Type ℓ} {Next : Type κ} → Result Value → (Value → Result Next) → Result Next
err e >>= rest = err e
ok v >>= rest = rest v

pub >>=-eq-ok {ℓ κ} :
    {Value : Type ℓ} {Next : Type κ} (call : Result Value) (rest : Value → Result Next) {out : Next}
    → (call >>= rest) ≡ ok out
    → (v : Value) × (call ≡ ok v) × (rest v ≡ ok out)
>>=-eq-ok (err e) rest h = cc
>>=-eq-ok (ok v) rest h = (v, refl, h)

infixl 5 ◌>>◌
-- A check, then the rest.
abbrev pub ◌>>◌ {ℓ} : {Next : Type ℓ} → Result (Unit {0}) → Result Next → Result Next
check >> rest = check >>= λ _. rest

pub ok-injective {ℓ} : {A : Type ℓ} {a b : A} → ok a ≡ ok b → a ≡ b
ok-injective h = cc

pub Result-cases {ℓ} :
    {A : Type ℓ} (r : Result A) → ((a : A) × (r ≡ ok a)) ⊎ ((e : Error) × (r ≡ err e))
Result-cases (ok a) = inl (a, refl)
Result-cases (err e) = inr (e, refl)

-- A comprehension whose body may raise.
unfoldable pub map_result {ℓ κ} :
    {A : Type ℓ} {B : Type κ} → (A → Result B) → List A → Result (List B)
map_result f [] = ok []
map_result f (x ∷ xs) = f x >>= λ y. map_result f xs >>= λ ys. ok (y ∷ ys)

pub or_raise-eq-ok {ℓ} :
    {A : Type ℓ} (o : Option A) (e : Error) (a : A) → or_raise o e ≡ ok a → o ≡ some a
or_raise-eq-ok none e a h = cc
or_raise-eq-ok (some b) e a h = cc

module _ {ℓ κ} {A : Type ℓ} {B : Type κ} (f : A → Result B) where
  -- Each result of a comprehension comes from an item, and each item gives a result.
  pub map_result-source :
      (xs : List A) (ys : List B) (y : B)
      → map_result f xs ≡ ok ys
      → Memᴰ y ys
      → (x : A) × Memᴰ x xs × (f x ≡ ok y)
  unfolding map_result
  map_result-source [] ys y h m =
      let none_left : [] ≡ ys = cc in absurd (Memᴰ.not-nil (subst (Memᴰ y) (sym none_left) m))
  map_result-source (x ∷ xs) ys y h m =
      let (z, made, h') = >>=-eq-ok (f x) _ h in
      let (zs, rest, h'') = >>=-eq-ok (map_result f xs) _ h' in
      let split : z ∷ zs ≡ ys = cc in
      elim (Memᴰ.cases_cons (subst (Memᴰ y) (sym split) m)) [
        | inl same ↦ (x, Memᴰ.head refl, made ∙ ap ok (sym same))
        | inr later ↦
            let (w, n, made') = map_result-source xs zs y rest later in (w, Memᴰ.tail n, made')
      ]

  pub map_result-target :
      (xs : List A) (ys : List B) (x : A)
      → map_result f xs ≡ ok ys
      → Memᴰ x xs
      → (y : B) × Memᴰ y ys × (f x ≡ ok y)
  unfolding map_result
  map_result-target [] ys x h m = absurd (Memᴰ.not-nil m)
  map_result-target (w ∷ xs) ys x h m =
      let (z, made, h') = >>=-eq-ok (f w) _ h in
      let (zs, rest, h'') = >>=-eq-ok (map_result f xs) _ h' in
      let split : z ∷ zs ≡ ys = cc in
      elim (Memᴰ.cases_cons m) [
        | inl same ↦ (z, subst (Memᴰ z) split (Memᴰ.head refl), ap f same ∙ made)
        | inr later ↦
            let (y, n, made') = map_result-target xs zs x rest later in
            (y, subst (Memᴰ y) split (Memᴰ.tail n), made')
      ]

  pub map_result-length :
      (xs : List A) (ys : List B) → map_result f xs ≡ ok ys → length ys ≡ length xs
  unfolding map_result
  map_result-length [] ys h = let none_left : [] ≡ ys = cc in rw (← none_left)
  map_result-length (x ∷ xs) ys h =
      let (z, made, h') = >>=-eq-ok (f x) _ h in
      let (zs, rest, h'') = >>=-eq-ok (map_result f xs) _ h' in
      let split : z ∷ zs ≡ ys = cc in rw (← split) (ap suc (map_result-length xs zs rest))

-- What the results of a comprehension keep of its items.
pub map_result-map {ℓ κ μ} :
    {A : Type ℓ} {B : Type κ} {C : Type μ} (f : A → Result B) (g : A → C) (h : B → C)
    → ((x : A) (y : B) → f x ≡ ok y → h y ≡ g x)
    → (xs : List A) (ys : List B) → map_result f xs ≡ ok ys
    → map h ys ≡ map g xs
unfolding map_result
map_result-map f g h keeps [] ys e =
    let none_left : [] ≡ ys = ok-injective e in ap (map h) (sym none_left)
map_result-map f g h keeps (x ∷ xs) ys e =
    let (z, made, e') = >>=-eq-ok (f x) _ e in
    let (zs, rest, e'') = >>=-eq-ok (map_result f xs) _ e' in
    let split : z ∷ zs ≡ ys = ok-injective e'' in
    ap (map h) (sym split)
    ∙ ap (λ c. c ∷ map h zs) (keeps x z made)
    ∙ ap (λ cs. g x ∷ cs) (map_result-map f g h keeps xs zs rest)
