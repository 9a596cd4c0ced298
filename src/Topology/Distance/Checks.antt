-- ===== src/Topology/Distance/Checks.antt =====
-- The checks of the excluded names pass when every name is known, and only then.
use telconet_sentinel.Common.{
  String, true, some, List, [], ◌∷◌, ◌≡◌, refl, inl, inr, arith, contains, contains-empty,
  contains-head, contains-tail, eq_iff, Option-cases, contains-cons,
}
use telconet_sentinel.Common.Dict.{Dict, lookup, keys, contains-keys}
use telconet_sentinel.Errors.{ok}
use telconet_sentinel.Topology.{Topology, node, link}
use telconet_sentinel.Topology.Walk.{Excluded}
use telconet_sentinel.Topology.Distance.{check_links, check_nodes}

-- Every name that an exclusion gives is a link or a node of the topology.
pub record AreKnown (t : Topology) (x : Excluded) : Type 0 where
  pub links : (k : String) → contains k x.links ≡ true → contains k (keys t.links_by_id) ≡ true
  pub nodes : (k : String) → contains k x.nodes ≡ true → contains k (keys t.nodes_by_name) ≡ true

pub lookup-known {ℓ} :
    {V : Type ℓ} (k : String) (d : Dict V)
    → contains k (keys d) ≡ true
    → (v : V) × (lookup k d ≡ some v)
lookup-known k d h = elim (Option-cases (lookup k d)) [
  | inl missing ↦ absurd (ground (arith, contains-keys k d))
  | inr found ↦ found
]

pub check_links-ok :
    (t : Topology) (ks : List String)
    → ((k : String) → contains k ks ≡ true → contains k (keys t.links_by_id) ≡ true)
    → check_links t ks ≡ ok tt
unfolding check_links link
check_links-ok t [] h = refl
check_links-ok t (k ∷ ks) h =
    let (l, found) = lookup-known k t.links_by_id (h k (contains-head k ks)) in
    rw found (check_links-ok t ks (λ j p. h j (contains-tail j k ks p)))

pub check_nodes-ok :
    (t : Topology) (ks : List String)
    → ((k : String) → contains k ks ≡ true → contains k (keys t.nodes_by_name) ≡ true)
    → check_nodes t ks ≡ ok tt
unfolding check_nodes node
check_nodes-ok t [] h = refl
check_nodes-ok t (k ∷ ks) h =
    let (n, found) = lookup-known k t.nodes_by_name (h k (contains-head k ks)) in
    rw found (check_nodes-ok t ks (λ j p. h j (contains-tail j k ks p)))

or_raise-known {ℓ} :
    {V : Type ℓ} (k : String) (d : Dict V) (v : V)
    → lookup k d ≡ some v
    → contains k (keys d) ≡ true
or_raise-known k d v h = ground (arith, contains-keys k d)

check_links-known :
    (t : Topology) (ks : List String)
    → check_links t ks ≡ ok tt
    → (k : String) → contains k ks ≡ true
    → contains k (keys t.links_by_id) ≡ true
unfolding check_links link
check_links-known t [] h k m = cc (contains-empty k [] refl)
check_links-known t (j ∷ ks) h k m = elim (Option-cases (lookup j t.links_by_id)) [
  | inl missing ↦ absurd (ground arith)
  | inr (l, found) ↦ ground (
    arith,
    contains-cons k j ks,
    eq_iff j k,
    or_raise-known j t.links_by_id l found,
    check_links-known t ks (ground arith) k,
  )
]

check_nodes-known :
    (t : Topology) (ks : List String)
    → check_nodes t ks ≡ ok tt
    → (k : String) → contains k ks ≡ true
    → contains k (keys t.nodes_by_name) ≡ true
unfolding check_nodes node
check_nodes-known t [] h k m = cc (contains-empty k [] refl)
check_nodes-known t (j ∷ ks) h k m = elim (Option-cases (lookup j t.nodes_by_name)) [
  | inl missing ↦ absurd (ground arith)
  | inr (n, found) ↦ ground (
    arith,
    contains-cons k j ks,
    eq_iff j k,
    or_raise-known j t.nodes_by_name n found,
    check_nodes-known t ks (ground arith) k,
  )
]

-- The checks pass exactly if every excluded name is known.
pub checks-AreKnown :
    (t : Topology) (x : Excluded)
    → check_links t x.links ≡ ok tt
    → check_nodes t x.nodes ≡ ok tt
    → AreKnown t x
checks-AreKnown t x h k = record {
  links = check_links-known t x.links h;
  nodes = check_nodes-known t x.nodes k;
}
