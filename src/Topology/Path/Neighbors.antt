-- ===== src/Topology/Path/Neighbors.antt =====
-- `neighbors` returns exactly the nodes to which an open link leads.
use mathlib.Core.List.Memᴰ
use mathlib.Core.Logic.{⊎_elim}
use telconet_sentinel.Common.{
  ℕ, String, true, false, Option, none, some, List, [], ◌∷◌, foldl, Memᴰ, ◌≡◌, refl, ◌≢◌, sym,
  subst, ◌∙◌, ◌⊎◌, inl, inr, ◌↔◌, arith, contains, contains-mem, contains-add, Memᴰ-sort, name_leb,
  Option-cases, eq_iff, sort,
}
use telconet_sentinel.Common.Dict.{keys, values}
use telconet_sentinel.Errors.{ok}
use telconet_sentinel.Models.{Link}
use telconet_sentinel.Topology.{
  Topology, node, link, equals_option, add_neighbor, check_excluded, neighbors,
}
use telconet_sentinel.Topology.Valid.{IsValid}
use telconet_sentinel.Topology.Distance.Checks.{lookup-known}
use telconet_sentinel.Topology.Walk.{Excluded, Edge, Joins}
use telconet_sentinel.Topology.Distance.{singleton}

-- The exclusion of at most one link.
abbrev pub without : Option String → Excluded
without excluded_link = record { links = singleton excluded_link; nodes = [] }

contains-singleton : (k : String) (o : Option String) → contains k (singleton o) ≡ equals_option k o
unfolding contains
contains-singleton k none = refl
contains-singleton k (some y) = ground (arith, eq_iff k y, eq_iff y k)

-- A link out of `u` to `v`, to be found among `ls`.
abbrev pub Leads : List Link → Option String → String → String → Type 0
Leads ls o u v = (c : ℕ) × Edge ls (without o) u v c

module _ (o : Option String) (u : String) where
  add_neighbor-contains :
      (found : List String) (l : Link) (v : String)
      → l.endpoint_a ≢ l.endpoint_b
      → (contains v (add_neighbor o u found l) ≡ true)
        ↔ ((contains v found ≡ true) ⊎ (equals_option l.id o ≡ false) × Joins l u v)
  unfolding add_neighbor
  add_neighbor-contains found l v proper = ground (
    arith,
    contains-add v l.endpoint_b found,
    contains-add v l.endpoint_a found,
    eq_iff l.endpoint_a u,
    eq_iff l.endpoint_b u,
    eq_iff l.endpoint_a v,
    eq_iff l.endpoint_b v,
  )

  scan-contains :
      (found : List String) (todo : List Link) (v : String)
      → ((l : Link) → Memᴰ l todo → l.endpoint_a ≢ l.endpoint_b)
      → (contains v (foldl (add_neighbor o u) found todo) ≡ true) ↔ (
          (contains v found ≡ true)
          ⊎ ((l : Link) × Memᴰ l todo × (equals_option l.id o ≡ false) × Joins l u v))
  scan-contains found [] v proper = (inl, ⊎_elim (λ p. p) (λ (l, m, _, _). absurd (Memᴰ.not-nil m)))
  scan-contains found (l ∷ todo) v proper =
      let ih = scan-contains (add_neighbor o u found l) todo v (λ k m. proper k (Memᴰ.tail m)) in
      let here = add_neighbor-contains found l v (proper l (Memᴰ.head refl)) in
      (
        λ p. elim (ih.0 p) [
          | inl q ↦ elim (here.0 q) [
            | inl old ↦ inl old
            | inr (allowed, joins) ↦ inr (l, Memᴰ.head refl, allowed, joins)
          ]
          | inr (k, m, allowed, joins) ↦ inr (k, Memᴰ.tail m, allowed, joins)
        ],
        λ p. elim p [
          | inl old ↦ ih.1 (inl (here.1 (inl old)))
          | inr (k, m, allowed, joins) ↦ elim (Memᴰ.cases_cons m) [
            | inl same ↦ ih.1 (
                inl (
                  here.1 (
                    inr (
                      subst (λ (i : Link). (equals_option i.id o ≡ false) × Joins i u v) same
                        (allowed, joins)))))
            | inr rest ↦ ih.1 (inr (k, rest, allowed, joins))
          ]
        ],
      )

contains-sort :
    (v : String) (xs : List String)
    → (contains v (sort name_leb xs) ≡ true) ↔ (contains v xs ≡ true)
contains-sort v xs =
    ground (arith, contains-mem v xs, contains-mem v (sort name_leb xs), Memᴰ-sort name_leb v xs)

no_name : (v : String) → contains v [] ≡ false
unfolding contains
no_name v = refl

module _ (t : Topology) (valid : IsValid t) (o : Option String)
    (known_link : (k : String) → o ≡ some k → contains k (keys t.links_by_id) ≡ true) where
  check_excluded-ok : check_excluded t o ≡ ok tt
  unfolding check_excluded link
  check_excluded-ok = elim (Option-cases o) [
    | inl absent ↦ rw absent
    | inr (k, given) ↦
        let (l, found) = lookup-known k t.links_by_id (known_link k given) in rw (given, found)
  ]

  -- In a valid topology, with no unknown link excluded, `neighbors` of a known node returns the
  -- ends of the open links out of it, and no others.
  pub neighbors-lead :
      (u : String)
      → contains u (keys t.nodes_by_name) ≡ true
      → (found : List String) × (neighbors t u o ≡ ok found)
        × ((v : String) → (contains v found ≡ true) ↔ Leads (values t.links_by_id) o u v)
  unfolding neighbors node
  neighbors-lead u known_u =
      let (n, at_u) = lookup-known u t.nodes_by_name known_u in
      let ls = values t.links_by_id in
      let scanned = foldl (add_neighbor o u) [] ls in
      (
        sort name_leb scanned,
        rw (at_u, check_excluded-ok),
        λ v.
            let scan = scan-contains o u [] ls v (λ l m. (valid.proper l m).proper) in
            (
              λ p. elim (scan.0 ((contains-sort v scanned).0 p)) [
                | inl none_yet ↦ cc (no_name v)
                | inr (l, m, allowed, joins) ↦ (
                  l.cost,
                  record {
                    via = l;
                    present = m;
                    allowed = contains-singleton l.id o ∙ allowed;
                    joins = joins;
                    open_end = no_name v;
                    priced = refl;
                  },
                )
              ],
              λ (c, e). (contains-sort v scanned).1 (
                  scan.1 (
                    inr (
                      e.via,
                      e.present,
                      sym (contains-singleton e.via.id o) ∙ e.allowed,
                      e.joins,
                    ))),
            ),
      )
