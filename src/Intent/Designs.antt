-- ===== src/Intent/Designs.antt =====
-- The topologies of a catalog of designs, and the one baseline of its designs.
use mathlib.Core.List.Memᴰ
use telconet_sentinel.Common.{
  String, Bool, true, false, none, some, Option, List, [], ◌∷◌, map, Memᴰ, ◌≡◌, ◌⊎◌, refl, sym, ap,
  subst, ◌∙◌, inl, inr, arith, all_distinct, contains, Memᴰ-keep_if, is_empty, length, eq_iff, not,
  nat_beq,
}
use telconet_sentinel.Common.Dict.{Dict, keys, values}
use telconet_sentinel.Errors.{
  Result, ok, raise_if, unsupported_version, invalid_field, not_one_baseline, >>=-eq-ok,
  ok-injective, map_result, map_result-target,
}
use telconet_sentinel.Topology.{Topology}
use telconet_sentinel.Topology.Valid.{IsValid, new-IsValid}
use telconet_sentinel.Intent.{
  NetworkIntent, DesignCatalog, DesignCatalogEntry, DesignRole, baseline, candidate, is_baseline,
  baseline_ids, is_among, intended_node, intended_link, to_topology, validate_intent, load_intent,
  load_design, load_topologies, check_designs, validate_relationships, validate_entry,
  validate_relationship, validate_design_catalog,
}
use telconet_sentinel.Intent.Accepted.{intended, to_topology-intended}

module _ (is_canonical_prefix : String → Bool) (load_yaml : String → Result NetworkIntent) where
  load_intent-eq-ok :
      (path : String) (i : NetworkIntent)
      → load_intent is_canonical_prefix load_yaml path ≡ ok i
      → validate_intent is_canonical_prefix i ≡ ok tt
  unfolding load_intent
  load_intent-eq-ok path i h =
      let (document, loaded, h') = >>=-eq-ok (load_yaml path) _ h in
      let (_, passes, h'') = >>=-eq-ok (validate_intent is_canonical_prefix document) _ h' in
      let same : document ≡ i = ok-injective h'' in
      ap (validate_intent is_canonical_prefix) (sym same) ∙ passes

  load_design-intended :
      (d : String × DesignCatalogEntry) (i : NetworkIntent)
      → all_distinct (keys i.nodes) ≡ true
      → load_intent is_canonical_prefix load_yaml d.1.intent ≡ ok i
      → load_design is_canonical_prefix load_yaml d ≡ ok (d.0, intended i)
  unfolding load_design
  load_design-intended (design_id, design) i unique h =
      rw
        (h, to_topology-intended is_canonical_prefix i (load_intent-eq-ok design.intent i h) unique)
        refl

  load_design-IsValid :
      (d : String × DesignCatalogEntry) (e : String × Topology)
      → load_design is_canonical_prefix load_yaml d ≡ ok e
      → IsValid e.1
  unfolding load_design to_topology
  load_design-IsValid (design_id, design) e h =
      let (i, loaded, h') =
        >>=-eq-ok (load_intent is_canonical_prefix load_yaml design.intent) _ h in
      let (t, made, h'') = >>=-eq-ok (to_topology i) _ h' in
      let same : (design_id, t) ≡ e = ok-injective h'' in
      subst (λ (f : String × Topology). IsValid f.1) same
        (new-IsValid (map intended_node i.nodes) (map intended_link i.links) t made)

  module _ (document : String → NetworkIntent) where
    abbrev pub intended_design : String × DesignCatalogEntry → String × Topology
    intended_design d = (d.0, intended (document d.1.intent))

    load_all :
        (designs : Dict DesignCatalogEntry)
        → ((d : String × DesignCatalogEntry)
            → Memᴰ d designs
            → load_design is_canonical_prefix load_yaml d ≡ ok (intended_design d))
        → map_result (load_design is_canonical_prefix load_yaml) designs
          ≡ ok (map intended_design designs)
    unfolding map_result
    load_all [] h = refl
    load_all (d ∷ designs) h =
        rw (h d (Memᴰ.head refl), load_all designs (λ e m. h e (Memᴰ.tail m))) refl

    -- When the document of each design is read without a node given twice, and is accepted,
    -- `load_topologies` returns a topology for each design under the design's id, in the order of the
    -- catalog: the one whose nodes and links are those of the document under their names. Each of them
    -- has positive costs, no link of a node to itself, and only known endpoints.
    pub load_topologies-intended :
        (c : DesignCatalog)
        → ((d : String × DesignCatalogEntry)
            → Memᴰ d c.designs
            → (load_intent is_canonical_prefix load_yaml d.1.intent ≡ ok (document d.1.intent))
              × (all_distinct (keys (document d.1.intent).nodes) ≡ true))
        → (load_topologies is_canonical_prefix load_yaml c ≡ ok (map intended_design c.designs))
          × ((d : String × DesignCatalogEntry)
              → Memᴰ d c.designs
              → IsValid (intended (document d.1.intent)))
    unfolding load_topologies
    load_topologies-intended c h =
        let made = λ (d : String × DesignCatalogEntry) (m : Memᴰ d c.designs).
          load_design-intended d (document d.1.intent) (h d m).1 (h d m).0 in
        (load_all c.designs made, λ d m. load_design-IsValid d (intended_design d) (made d m))

-- How a design of a catalog is related to the baseline.
pub data IsRelated (b : String) (d : String × DesignCatalogEntry) : Type 0 where
  is_the_baseline : d.1.role ≡ baseline → d.1.based_on ≡ none → d.0 ≡ b → IsRelated b d
  on_the_baseline : d.1.role ≡ candidate → d.1.based_on ≡ some b → IsRelated b d

single : (names : List String) → nat_beq (length names) 1 ≡ true → (b : String) × (names ≡ b ∷ [])
single [] h = absurd (ground arith)
single (b ∷ []) h = (b, refl)
single (b ∷ c ∷ names) h = absurd (ground arith)

validate_catalog-parts :
    (c : DesignCatalog)
    → validate_design_catalog c ≡ ok tt
    → (us : List (Unit {0})) × (map_result validate_entry (values c.designs) ≡ ok us)
      × (validate_relationships c ≡ ok tt)
unfolding validate_design_catalog
validate_catalog-parts c h =
    let (_, _, e) = >>=-eq-ok (raise_if (not (nat_beq c.version 1)) unsupported_version) _ h in
    let (_, _, f) = >>=-eq-ok (raise_if (is_empty c.designs) (invalid_field "designs")) _ e in
    >>=-eq-ok (map_result validate_entry (values c.designs)) _ f

Memᴰ-values :
    (d : String × DesignCatalogEntry) (ds : Dict DesignCatalogEntry)
    → Memᴰ d ds
    → Memᴰ d.1 (values ds)
Memᴰ-values d [] m = absurd (Memᴰ.not-nil m)
Memᴰ-values d ((k, e) ∷ ds) m = elim (Memᴰ.cases_cons m) [
  | inl same ↦ Memᴰ.head (ap (λ (f : String × DesignCatalogEntry). f.1) same)
  | inr later ↦ Memᴰ.tail (Memᴰ-values d ds later)
]

Memᴰ-keys :
    (d : String × DesignCatalogEntry) (ds : Dict DesignCatalogEntry)
    → Memᴰ d ds
    → Memᴰ d.0 (keys ds)
Memᴰ-keys d [] m = absurd (Memᴰ.not-nil m)
Memᴰ-keys d ((k, e) ∷ ds) m = elim (Memᴰ.cases_cons m) [
  | inl same ↦ Memᴰ.head (ap (λ (f : String × DesignCatalogEntry). f.0) same)
  | inr later ↦ Memᴰ.tail (Memᴰ-keys d ds later)
]

is_among-single : (b : String) (o : Option String) → is_among o (b ∷ []) ≡ true → o ≡ some b
unfolding contains
is_among-single b none h = absurd (ground arith)
is_among-single b (some a) h = let same : b ≡ a = ground (arith, eq_iff b a) in ap some (sym same)

check_designs-among :
    (b : String) (ds : Dict DesignCatalogEntry) (d : String × DesignCatalogEntry)
    → check_designs (b ∷ []) ds ≡ ok tt
    → Memᴰ d ds
    → is_baseline d.1.role ≡ false
    → d.1.based_on ≡ some b
unfolding check_designs contains
check_designs-among b [] d h m other = absurd (Memᴰ.not-nil m)
check_designs-among b ((k, e) ∷ ds) d h m other = elim (Memᴰ.cases_cons m) [
  | inl same ↦
      let role_same : d.1.role ≡ e.role = ap (λ (f : String × DesignCatalogEntry). f.1.role) same in
      let other_role : is_baseline e.role ≡ false = ap is_baseline (sym role_same) ∙ other in
      ap (λ (f : String × DesignCatalogEntry). f.1.based_on) same
      ∙ is_among-single b e.based_on (ground arith)
  | inr later ↦ check_designs-among b ds d (ground arith) later other
]

relationship_cases :
    (r : DesignRole) (o : Option String)
    → validate_relationship r o ≡ ok tt
    → ((r ≡ baseline) × (o ≡ none)) ⊎ (r ≡ candidate)
unfolding validate_relationship
relationship_cases baseline none h = inl (refl, refl)
relationship_cases baseline (some a) h = cc
relationship_cases candidate o h = inr refl

validate_entry-relationship :
    (d : DesignCatalogEntry) (u : Unit {0})
    → validate_entry d ≡ ok u
    → validate_relationship d.role d.based_on ≡ ok tt
unfolding validate_entry
validate_entry-relationship d u h = ground arith

is_only_baseline :
    (b : String) (ds : Dict DesignCatalogEntry) (d : String × DesignCatalogEntry)
    → baseline_ids ds ≡ b ∷ []
    → Memᴰ d ds
    → is_baseline d.1.role ≡ true
    → d.0 ≡ b
unfolding baseline_ids
is_only_baseline b ds d only m is =
    let kept =
      (Memᴰ-keep_if (λ (e : String × DesignCatalogEntry). is_baseline e.1.role) d ds).1 (m, is) in
    elim (Memᴰ.cases_cons (subst (Memᴰ d.0) only (Memᴰ-keys d _ kept))) [
      | inl same ↦ same
      | inr none_left ↦ absurd (Memᴰ.not-nil none_left)
    ]

-- A catalog that passes the checks of its class has exactly one baseline: one id `b` is the only one of
-- a design with the role of a baseline, that design is based on nothing, and every other design is a
-- candidate based on `b`.
pub validate_design_catalog-IsRelated :
    (c : DesignCatalog)
    → validate_design_catalog c ≡ ok tt
    → (b : String) × (baseline_ids c.designs ≡ b ∷ [])
      × ((d : String × DesignCatalogEntry) → Memᴰ d c.designs → IsRelated b d)
unfolding validate_relationships
validate_design_catalog-IsRelated c h =
    let (us, entries, relations) = validate_catalog-parts c h in
    let (_, counted, h') =
      >>=-eq-ok (raise_if (not (nat_beq (length (baseline_ids c.designs)) 1)) not_one_baseline) _
        relations in
    let (b, only) = single (baseline_ids c.designs) (ground arith) in
    let (u, checked, h'') = >>=-eq-ok (check_designs (baseline_ids c.designs) c.designs) _ h' in
    let among = ap (λ names. check_designs names c.designs) (sym only) ∙ checked in
    (
      b,
      only,
      λ d m.
          let (v, _, passes) =
            map_result-target validate_entry (values c.designs) us d.1 entries
              (Memᴰ-values d c.designs m) in
          elim (relationship_cases d.1.role d.1.based_on
            (validate_entry-relationship d.1 v passes)) [
              | inl (is, on_nothing) ↦
                  is_the_baseline is on_nothing
                    (is_only_baseline b c.designs d only m (ap is_baseline is))
              | inr other ↦
                  on_the_baseline other
                    (check_designs-among b c.designs d among m (ap is_baseline other))
            ],
    )
