-- ===== src/Audit/Baselines.antt =====
-- The baseline costs of an audit: when they are found.
use mathlib.Core.List.Memᴰ
use telconet_sentinel.Common.{
  ℕ, String, true, none, some, List, [], ◌∷◌, Memᴰ, ◌≡◌, refl, ap, subst, ◌∙◌, ◌⊎◌, inl, inr, arith,
  eq_iff, contains, contains-empty, Option-cases,
}
use telconet_sentinel.Common.Dict.{Dict, lookup, insert, keys, values, is_some, lookup-insert}
use telconet_sentinel.Errors.{Result, ok, map_result}
use telconet_sentinel.Topology.{Topology}
use telconet_sentinel.Topology.Valid.{IsValid}
use telconet_sentinel.Topology.Walk.{Walk, IsLeast}
use telconet_sentinel.Topology.Agreement.{nothing, no_names}
use telconet_sentinel.Topology.Distance.{shortest_distance}
use telconet_sentinel.Topology.Distance.Correct.{shortest_distance_excluding-IsLeast}
use telconet_sentinel.Audit.{add_baselines, service_names}

module _ (t : Topology) (services : List String) where
  abbrev HasBaseline : String → Type 0
  HasBaseline x = (d : ℕ) × (shortest_distance t x services none none ≡ ok (some d))

  pub add_baselines-ok :
      (names : List String) (costs : Dict ℕ)
      → ((x : String) → Memᴰ x names → HasBaseline x)
      → (costs' : Dict ℕ) × (add_baselines t services costs names ≡ ok costs')
        × ((x : String)
            → Memᴰ x names ⊎ (is_some (lookup x costs) ≡ true)
            → is_some (lookup x costs') ≡ true)
  unfolding add_baselines
  add_baselines-ok [] costs h =
      (costs, refl, λ x m. elim m [ inl n ↦ absurd (Memᴰ.not-nil n) | inr p ↦ p ])
  add_baselines-ok (a ∷ rest) costs h =
      let (d, found) = h a (Memᴰ.head refl) in
      let (costs', made, all) =
        add_baselines-ok rest (insert a d costs) (λ x m. h x (Memᴰ.tail m)) in
      (
        costs',
        rw found made,
        λ x m. elim m [
          | inr old ↦ all x (inr (ground (arith, lookup-insert x a d costs)))
          | inl n ↦ elim (Memᴰ.cases_cons n) [
            | inr later ↦ all x (inl later)
            | inl same ↦ all x (inr (ground (arith, lookup-insert x a d costs, eq_iff a x)))
          ]
        ],
      )

pub map_result-ok {ℓ κ} :
    {A : Type ℓ} {B : Type κ} (f : A → Result B) (xs : List A)
    → ((x : A) → Memᴰ x xs → (y : B) × (f x ≡ ok y))
    → (ys : List B) × (map_result f xs ≡ ok ys)
unfolding map_result
map_result-ok f [] h = ([], refl)
map_result-ok f (x ∷ xs) h =
    let (y, made) = h x (Memᴰ.head refl) in
    let (ys, rest) = map_result-ok f xs (λ z m. h z (Memᴰ.tail m)) in (y ∷ ys, rw (made, rest) refl)

pub baseline_of_Walk :
    (t : Topology) (name : String)
    → IsValid t
    → contains name (keys t.nodes_by_name) ≡ true
    → ((service : String) × (d : ℕ) × (contains service (service_names t) ≡ true)
        × Walk (values t.links_by_id) nothing name service d)
    → (d : ℕ) × (shortest_distance t name (service_names t) none none ≡ ok (some d))
unfolding shortest_distance
baseline_of_Walk t name valid known_access (service, d, served, walk) =
    let (r, found, _, least) =
      shortest_distance_excluding-IsLeast t name (service_names t) nothing valid known_access
        (no_names t) in
    elim (Option-cases r) [
      | inr (best, is_best) ↦ (best, found ∙ ap ok is_best)
      | inl unreached ↦ absurd (
          subst (IsLeast (values t.links_by_id) nothing name (service_names t)) unreached
            (least (contains-empty name [] refl)) service d served walk)
    ]
