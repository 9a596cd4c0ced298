-- ===== src/Tests/Designs.antt =====
-- A catalog of a line of three nodes and of the triangle that closes it.
use mathlib.Core.List.Memᴰ
use telconet_sentinel.Common.{
  String, Bool, true, List, [], ◌∷◌, none, some, Memᴰ, ◌≡◌, refl, sym, subst, inl, inr, ◌==◌,
  if◌then◌else◌, all_distinct, is_identifier, matches_codes, all_codes, after_codes, keep_if,
  contains,
}
use telconet_sentinel.Common.Dict.{lookup, insert, keys}
use telconet_sentinel.Errors.{Result, ok, map_result}
use telconet_sentinel.Models.{access, aggregation, service}
use telconet_sentinel.Topology.Valid.{IsValid}
use telconet_sentinel.Intent.{
  NetworkIntent, LinkIntent, DesignCatalog, DesignCatalogEntry, baseline, candidate,
  validate_design_catalog, validate_relationships, validate_entry, validate_relationship,
  are_path_codes, ends_in, baseline_ids, check_designs, load_intent, load_topologies,
  validate_intent, validate_node_intent, check_prefixes, validate_link_intent, check_endpoints,
  validate_graph_references, check_names, check_references, unknown_names, add_all_owners,
  add_owners,
}
use telconet_sentinel.Intent.Accepted.{intended}
use telconet_sentinel.Intent.Designs.{
  IsRelated, load_topologies-intended, validate_design_catalog-IsRelated,
}

abbrev line_links : List LinkIntent
line_links =
    record { id = "acc-agg"; endpoints = ("acc-1", "agg-1"); cost = 10 }
    ∷ record { id = "agg-svc"; endpoints = ("agg-1", "svc-1"); cost = 10 }
    ∷ []

abbrev with_links : List LinkIntent → NetworkIntent
with_links links = record {
  version = 1;
  nodes =
      ("acc-1", record { role = access; prefixes = "10.10.1.0/24" ∷ [] })
      ∷ ("agg-1", record { role = aggregation; prefixes = [] })
      ∷ ("svc-1", record { role = service; prefixes = "10.20.1.0/24" ∷ [] })
      ∷ [];
  links = links;
}

abbrev line : NetworkIntent
line = with_links line_links

abbrev closed : NetworkIntent
closed =
    with_links (record { id = "acc-svc"; endpoints = ("acc-1", "svc-1"); cost = 50 } ∷ line_links)

abbrev document : String → NetworkIntent
document path = if path == "line.yml" then line else closed

abbrev on_disk : String → Result NetworkIntent
on_disk path = ok (document path)

-- The prefixes of the two documents.
abbrev is_known_prefix : String → Bool
is_known_prefix prefix = if prefix == "10.10.1.0/24" then true else prefix == "10.20.1.0/24"

abbrev line_design : String × DesignCatalogEntry
line_design = ("lab", record { intent = "line.yml"; role = baseline; based_on = none })

abbrev closed_design : String × DesignCatalogEntry
closed_design =
    ("lab-closed", record { intent = "closed.yml"; role = candidate; based_on = some "lab" })

abbrev catalog : DesignCatalog
catalog = record { version = 1; designs = line_design ∷ closed_design ∷ [] }

catalog_passes : validate_design_catalog catalog ≡ ok tt
unfolding validate_design_catalog validate_relationships validate_entry validate_relationship
    are_path_codes ends_in after_codes baseline_ids check_designs map_result keep_if contains
    all_distinct is_identifier matches_codes all_codes
catalog_passes = refl

IsRead : String × DesignCatalogEntry → Type 0
IsRead d =
    (load_intent is_known_prefix on_disk d.1.intent ≡ ok (document d.1.intent))
    × (all_distinct (keys (document d.1.intent).nodes) ≡ true)

line-IsRead : IsRead line_design
unfolding IsRead load_intent validate_intent validate_node_intent check_prefixes
    validate_link_intent check_endpoints validate_graph_references check_names check_references
    unknown_names add_all_owners add_owners map_result keep_if contains all_distinct is_identifier
    matches_codes all_codes lookup insert
line-IsRead = (refl, refl)

closed-IsRead : IsRead closed_design
unfolding IsRead load_intent validate_intent validate_node_intent check_prefixes
    validate_link_intent check_endpoints validate_graph_references check_names check_references
    unknown_names add_all_owners add_owners map_result keep_if contains all_distinct is_identifier
    matches_codes all_codes lookup insert
closed-IsRead = (refl, refl)

all-AreRead : (d : String × DesignCatalogEntry) → Memᴰ d catalog.designs → IsRead d
all-AreRead d m = elim (Memᴰ.cases_cons m) [
  | inl same ↦ subst IsRead (sym same) line-IsRead
  | inr later ↦ elim (Memᴰ.cases_cons later) [
    | inl same ↦ subst IsRead (sym same) closed-IsRead
    | inr none_left ↦ absurd (Memᴰ.not-nil none_left)
  ]
]

load_topologies-intended_example :
    (load_topologies is_known_prefix on_disk catalog
      ≡ ok (("lab", intended line) ∷ ("lab-closed", intended closed) ∷ []))
    × ((d : String × DesignCatalogEntry)
        → Memᴰ d catalog.designs
        → IsValid (intended (document d.1.intent)))
unfolding IsRead
load_topologies-intended_example =
    load_topologies-intended is_known_prefix on_disk document catalog all-AreRead

validate_design_catalog-IsRelated_example :
    (b : String) × (baseline_ids catalog.designs ≡ b ∷ [])
    × ((d : String × DesignCatalogEntry) → Memᴰ d catalog.designs → IsRelated b d)
validate_design_catalog-IsRelated_example = validate_design_catalog-IsRelated catalog catalog_passes
