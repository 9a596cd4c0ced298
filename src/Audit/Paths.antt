-- ===== src/Audit/Paths.antt =====
-- What the loop over the access nodes records: a path for each, and the two sets of nodes.
use mathlib.Core.List.Memᴰ
use mathlib.Core.List.{append_assoc, append-nil, map-append}
use telconet_sentinel.Common.{
  ℕ, String, Bool, false, not, Option, some, List, [], ◌∷◌, ◌++◌, map, Memᴰ, ◌≡◌, refl, ap, sym,
  ◌∙◌, inl, inr, subst, arith, is_empty, any, any-append_one, contains, add,
}
use telconet_sentinel.Common.Dict.{Dict, lookup}
use telconet_sentinel.Errors.{ok, or_raise, >>=-eq-ok, or_raise-eq-ok, missing_key}
use telconet_sentinel.Topology.{Topology}
use telconet_sentinel.Topology.Walk.{Excluded}
use telconet_sentinel.Topology.Distance.{shortest_distance_excluding}
use telconet_sentinel.Fault.{FaultScenario}
use telconet_sentinel.Audit.{AccessPathResult, Tally, is_lost, is_worse, tally_access, tally_all}

abbrev pub excluded : FaultScenario → Excluded
excluded fault = record { links = fault.excluded_links; nodes = fault.excluded_nodes }

abbrev pub lost : AccessPathResult → Bool
lost p = is_lost p.post_fault_cost

abbrev pub worse : AccessPathResult → Bool
worse p = is_worse p.baseline_cost p.post_fault_cost

abbrev pub access_of : List AccessPathResult → List String
access_of = map (λ (p : AccessPathResult). p.access_node)

is_empty-add : (x : String) (xs : List String) → is_empty (add x xs) ≡ false
unfolding add contains
is_empty-add x [] = refl
is_empty-add x (y ∷ ys) = ground arith

is_empty-append_one {ℓ} : {A : Type ℓ} (xs : List A) (y : A) → is_empty (xs ++ y ∷ []) ≡ false
is_empty-append_one [] y = refl
is_empty-append_one (x ∷ xs) y = refl

module _ (t : Topology) (services : List String) (baselines : Dict ℕ) (fault : FaultScenario) where
  -- A path that was computed as the audit says.
  pub record IsPath (p : AccessPathResult) : Type 0 where
    pub distance :
        shortest_distance_excluding t p.access_node services (excluded fault) ≡ ok p.post_fault_cost
    pub baseline : lookup p.access_node baselines ≡ some p.baseline_cost

  -- The sets are empty exactly if no path is lost, or none is worse.
  pub record IsTally (names : List String) (tally : Tally) : Type 0 where
    pub accesses : access_of tally.paths ≡ names
    pub paths : (p : AccessPathResult) → Memᴰ p tally.paths → IsPath p
    pub unavailable : not (is_empty tally.unavailable) ≡ any lost tally.paths
    pub degraded_nodes : not (is_empty tally.degraded_nodes) ≡ any worse tally.paths

  tally_access-IsTally :
      (names : List String) (tally : Tally) (name : String) (baseline : ℕ) (after : Option ℕ)
      → shortest_distance_excluding t name services (excluded fault) ≡ ok after
      → lookup name baselines ≡ some baseline
      → IsTally names tally
      → IsTally (names ++ name ∷ []) (tally_access tally name baseline after)
  unfolding tally_access
  tally_access-IsTally names tally name baseline after d b h = record {
    accesses = map-append _ tally.paths (path ∷ []) ∙ ap (λ ns. ns ++ name ∷ []) h.accesses;
    paths = λ p m. elim (Memᴰ.append_cases tally.paths m) [
      | inl old ↦ h.paths p old
      | inr new ↦
          subst IsPath (sym (Memᴰ.eq_of_singleton new)) (record { distance = d; baseline = b })
    ];
    unavailable = ground (
      arith,
      any-append_one lost tally.paths path,
      is_empty-add name tally.unavailable,
      h.unavailable,
    );
    degraded_nodes = ground (
      arith,
      any-append_one worse tally.paths path,
      is_empty-add name tally.degraded_nodes,
      h.degraded_nodes,
    );
  }
    where
      path : AccessPathResult
      path = record { access_node = name; baseline_cost = baseline; post_fault_cost = after }

  pub tally_all-IsTally :
      (names rest : List String) (tally tally' : Tally)
      → IsTally names tally
      → tally_all t services baselines fault tally rest ≡ ok tally'
      → IsTally (names ++ rest) tally'
  unfolding tally_all
  tally_all-IsTally names [] tally tally' h e =
      let same : tally ≡ tally' = cc in rw (append-nil, ← same) h
  tally_all-IsTally names (name ∷ rest) tally tally' h e =
      let (after, d, e') =
        >>=-eq-ok (shortest_distance_excluding t name services (excluded fault)) _ e in
      let (baseline, b, e'') =
        >>=-eq-ok (or_raise (lookup name baselines) (missing_key name)) _ e' in
      subst (λ ns. IsTally ns tally') (append_assoc names (name ∷ []) rest)
        (tally_all-IsTally (names ++ name ∷ []) rest (tally_access tally name baseline after) tally'
          (tally_access-IsTally names tally name baseline after d
            (or_raise-eq-ok (lookup name baselines) (missing_key name) baseline b) h)
          e'')

abbrev pub no_tally : Tally
no_tally = record { unavailable = []; degraded_nodes = []; paths = [] }

pub no_tally-IsTally :
    (t : Topology) (services : List String) (baselines : Dict ℕ) (fault : FaultScenario)
    → IsTally t services baselines fault [] no_tally
unfolding any
no_tally-IsTally t services baselines fault = record {
  accesses = refl;
  paths = λ p m. absurd (Memᴰ.not-nil m);
  unavailable = refl;
  degraded_nodes = refl;
}
