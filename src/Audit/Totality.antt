-- ===== src/Audit/Totality.antt =====
-- When an audit returns: its searches find what they look up, so only its own checks raise.
use telconet_sentinel.Common.{
  ℕ, String, true, false, ◌||◌, Option, List, [], ◌∷◌, ◌++◌, map, Memᴰ, Memᴰ-sort, ◌≡◌, refl, subst,
  inl, inr, arith, ◌==◌, eq_iff, is_empty, contains, contains-add, add, contains-empty,
  contains-mem, all_distinct, sort, name_leb, Bool-cases, Option-cases,
}
use telconet_sentinel.Common.Dict.{Dict, lookup, keys, values, is_some}
use telconet_sentinel.Errors.{ok}
use telconet_sentinel.Topology.{Topology, node}
use telconet_sentinel.Topology.Valid.{IsValid}
use telconet_sentinel.Topology.Walk.{Walk}
use telconet_sentinel.Topology.Agreement.{nothing}
use telconet_sentinel.Topology.Distance.{check_links, check_nodes}
use telconet_sentinel.Topology.Distance.Checks.{
  AreKnown, lookup-known, check_links-ok, check_nodes-ok,
}
use telconet_sentinel.Topology.Distance.Correct.{shortest_distance_excluding-IsLeast}
use telconet_sentinel.Fault.{FaultScenario}
use telconet_sentinel.Audit.{
  FaultScenarioResult, FaultAuditResult, Tally, tally_access, tally_all, union, prefixes_of,
  classify, access_names, service_names, audit_fault, audit_fault_scenarios,
}
use telconet_sentinel.Audit.Paths.{excluded}
use telconet_sentinel.Audit.Classes.{access_names-known}
use telconet_sentinel.Audit.Baselines.{add_baselines-ok, map_result-ok, baseline_of_Walk}

module _ (t : Topology) (valid : IsValid t) (services : List String) where
  abbrev KnownName : String → Type 0
  KnownName x = contains x (keys t.nodes_by_name) ≡ true

  -- Every name that a tally reports is known.
  record IsKnownTally (tally : Tally) : Type 0 where
    unavailable : (x : String) → contains x tally.unavailable ≡ true → KnownName x
    degraded : (x : String) → contains x tally.degraded_nodes ≡ true → KnownName x

  tally_access-IsKnownTally :
      (tally : Tally) (a : String) (before : ℕ) (after : Option ℕ)
      → KnownName a
      → IsKnownTally tally
      → IsKnownTally (tally_access tally a before after)
  unfolding tally_access
  tally_access-IsKnownTally tally a before after known_a h = record {
    unavailable = λ x p. elim (Bool-cases (a == x)) [
      | inl same ↦ let same' : a ≡ x = ground (arith, eq_iff a x) in subst KnownName same' known_a
      | inr other ↦ h.unavailable x (ground (arith, contains-add x a tally.unavailable))
    ];
    degraded = λ x p. elim (Bool-cases (a == x)) [
      | inl same ↦ let same' : a ≡ x = ground (arith, eq_iff a x) in subst KnownName same' known_a
      | inr other ↦ h.degraded x (ground (arith, contains-add x a tally.degraded_nodes))
    ];
  }

  tally_all-ok :
      (costs : Dict ℕ) (fault : FaultScenario) (names : List String) (tally : Tally)
      → AreKnown t (excluded fault)
      → ((x : String) → Memᴰ x names → KnownName x)
      → ((x : String) → Memᴰ x names → is_some (lookup x costs) ≡ true)
      → IsKnownTally tally
      → (tally' : Tally) × (tally_all t services costs fault tally names ≡ ok tally')
        × IsKnownTally tally'
  unfolding tally_all
  tally_all-ok costs fault [] tally x known_names priced h = (tally, refl, h)
  tally_all-ok costs fault (a ∷ rest) tally x known_names priced h =
      let known_a = known_names a (Memᴰ.head refl) in
      let (after, found, _, _) =
        shortest_distance_excluding-IsLeast t a services (excluded fault) valid known_a x in
      elim (Option-cases (lookup a costs)) [
        | inl missing ↦ absurd (ground (arith, priced a (Memᴰ.head refl)))
        | inr (before, at_a) ↦
            let (tally', made, h') =
              tally_all-ok costs fault rest (tally_access tally a before after) x
                (λ y m. known_names y (Memᴰ.tail m)) (λ y m. priced y (Memᴰ.tail m))
                (tally_access-IsKnownTally tally a before after known_a h) in
            (tally', rw (found, at_a) made, h')
      ]

  prefixes_of-ok :
      (names : List String)
      → ((x : String) → Memᴰ x names → KnownName x)
      → (prefixes : List String) × (prefixes_of t names ≡ ok prefixes)
  unfolding prefixes_of node
  prefixes_of-ok [] h = ([], refl)
  prefixes_of-ok (a ∷ rest) h =
      let (n, found) = lookup-known a t.nodes_by_name (h a (Memᴰ.head refl)) in
      let (more, made) = prefixes_of-ok rest (λ x m. h x (Memᴰ.tail m)) in
      (n.prefixes ++ more, rw (found, made) refl)

  contains-union :
      (x : String) (xs ys : List String)
      → contains x (union xs ys) ≡ (contains x xs || contains x ys)
  unfolding contains
  contains-union x xs [] = ground arith
  contains-union x xs (y ∷ ys) = ground (arith, contains-union x (add y xs) ys, contains-add x y xs)

  no_tally-IsKnownTally :
      IsKnownTally (record { unavailable = []; degraded_nodes = []; paths = [] })
  no_tally-IsKnownTally = record {
    unavailable = λ x p. absurd (ground (arith, contains-empty x [] refl));
    degraded = λ x p. absurd (ground (arith, contains-empty x [] refl));
  }

  audit_fault-value :
      (costs : Dict ℕ) (fault : FaultScenario) (names : List String) (tally : Tally)
      (prefixes : List String)
      → check_links t fault.excluded_links ≡ ok tt
      → check_nodes t fault.excluded_nodes ≡ ok tt
      → tally_all t services costs fault
          (record { unavailable = []; degraded_nodes = []; paths = [] })
          names
        ≡ ok tally
      → prefixes_of t (sort name_leb (union tally.unavailable tally.degraded_nodes)) ≡ ok prefixes
      → audit_fault t names services costs fault
        ≡ ok (record {
          fault = fault;
          service_impact = classify tally;
          affected_nodes = sort name_leb (union tally.unavailable tally.degraded_nodes);
          affected_prefixes = sort name_leb prefixes;
          paths = tally.paths;
        })
  unfolding audit_fault
  audit_fault-value costs fault names tally prefixes p q r u = rw (p, q, r, u) refl

  audit_fault-ok :
      (costs : Dict ℕ) (fault : FaultScenario) (names : List String)
      → AreKnown t (excluded fault)
      → ((x : String) → Memᴰ x names → KnownName x)
      → ((x : String) → Memᴰ x names → is_some (lookup x costs) ≡ true)
      → (r : FaultScenarioResult) × (audit_fault t names services costs fault ≡ ok r)
  audit_fault-ok costs fault names x known_names priced =
      let (tally, tallied, h) =
        tally_all-ok costs fault names
          (record { unavailable = []; degraded_nodes = []; paths = [] }) x known_names priced
          no_tally-IsKnownTally in
      let affected = union tally.unavailable tally.degraded_nodes in
      let known_affected : (y : String) → Memᴰ y (sort name_leb affected) → KnownName y = λ y m.
        let there = (contains-mem y affected).1 ((Memᴰ-sort name_leb y affected).0 m) in
        elim (Bool-cases (contains y tally.unavailable)) [
          | inl gone ↦ h.unavailable y gone
          | inr here ↦
              h.degraded y (ground (arith, contains-union y tally.unavailable tally.degraded_nodes))
        ] in
      let (prefixes, fetched) = prefixes_of-ok (sort name_leb affected) known_affected in
      let links_known = check_links-ok t fault.excluded_links x.links in
      let nodes_known = check_nodes-ok t fault.excluded_nodes x.nodes in
      (
        _,
        audit_fault-value costs fault names tally prefixes links_known nodes_known tallied fetched,
      )

-- The audit of a valid topology returns if there are access nodes, service nodes and scenarios, no
-- two scenarios have one id, they exclude known links and nodes, and a walk leads from every access
-- node to a service node.
pub audit_fault_scenarios-ok :
    (t : Topology) (scenarios : List FaultScenario)
    → IsValid t
    → is_empty (access_names t) ≡ false
    → is_empty (service_names t) ≡ false
    → is_empty scenarios ≡ false
    → all_distinct (map (λ (s : FaultScenario). s.id) scenarios) ≡ true
    → ((fault : FaultScenario) → Memᴰ fault scenarios → AreKnown t (excluded fault))
    → ((name : String)
        → Memᴰ name (access_names t)
        → (service : String) × (d : ℕ) × (contains service (service_names t) ≡ true)
          × Walk (values t.links_by_id) nothing name service d)
    → (a : FaultAuditResult) × (audit_fault_scenarios t scenarios ≡ ok a)
unfolding audit_fault_scenarios
audit_fault_scenarios-ok t scenarios valid some_access some_service some_scenario once known
      served =
    let services = service_names t in
    let names = access_names t in
    let (costs, priced, all) =
      add_baselines-ok t services names []
        (λ x m. baseline_of_Walk t x valid (access_names-known t valid x m) (served x m)) in
    let (results, made) = map_result-ok (audit_fault t names services costs) scenarios (λ fault m.
      audit_fault-ok t valid services costs fault names (known fault m) (access_names-known t valid)
        (λ x n. all x (inl n))) in
    (
      record { scenarios = results },
      rw (some_access, some_service, some_scenario, once, priced, made) refl,
    )
