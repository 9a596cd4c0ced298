-- ===== src/Topology/Distance/Scan.antt =====
-- The loop over the links: it keeps the invariant, and no link out of the node is missed.
use mathlib.Core.List.Memᴰ
use telconet_sentinel.Common.{
  ℕ, suc, ◌+◌, ◌≤◌, String, true, false, some, List, [], ◌∷◌, Memᴰ, ◌≡◌, refl, ◌⊎◌, inl, inr, ◌≢◌,
  sym, subst, ◌∙◌, arith, eq_iff, contains, Bool-cases, ◌==◌, length,
}
use telconet_sentinel.Common.Dict.{lookup, lookup-insert}
use telconet_sentinel.Models.{Link}
use telconet_sentinel.Topology.Walk.{Excluded, Joins, IsProper}
use telconet_sentinel.Topology.Distance.{Search, relax, offer, scan}
use telconet_sentinel.Topology.Distance.Queue.{length-heappush}
use telconet_sentinel.Topology.Distance.Invariant.{
  Within, Inv, relax_cases, relax-Within, lower-Within, relax-Inv,
}

module _ (x : Excluded) (s : Search) (v : String) (k : ℕ) where
  relax_mono : (w : String) (m : ℕ) → Within s w m → Within (relax x s v k) w m
  relax_mono w m h = elim (relax_cases s v k x) [
    | inl same ↦ rw same h
    | inr (lowered, better) ↦ rw lowered (lower-Within s v k better w m h)
  ]

  length-relax : length (relax x s v k).pending ≤ suc (length s.pending)
  length-relax = elim (relax_cases s v k x) [
    | inl same ↦ rw same (omega arith)
    | inr (lowered, better) ↦ rw lowered (omega (arith, length-heappush s.pending (k, v)))
  ]

  lookup-relax :
      (u : String) (now : ℕ)
      → lookup u s.distances ≡ some now
      → now ≤ k
      → lookup u (relax x s v k).distances ≡ some now
  lookup-relax u now at_u low = elim (relax_cases s v k x) [
    | inl same ↦ rw same at_u
    | inr (lowered, better) ↦
        rw lowered (ground (arith, lookup-insert u v k s.distances, eq_iff v u, better now))
  ]

relax_out :
    (x : Excluded) (s : Search) (v : String) (k : ℕ) → contains v x.nodes ≡ true → relax x s v k ≡ s
unfolding relax
relax_out x s v k out = rw out

-- What one round of the loop does, as a relaxation or nothing.
module _ (x : Excluded) (now : ℕ) (u : String) (s : Search) (l : Link) where
  pub offer_cases :
      (offer x now u s l ≡ s)
      ⊎ ((v : String) × (contains l.id x.links ≡ false)
          × Joins l u v
          × (offer x now u s l ≡ relax x s v (now + l.cost)))
  unfolding offer
  offer_cases = elim (Bool-cases (contains l.id x.links)) [
    | inl out ↦ inl (rw out)
    | inr present ↦ elim (Bool-cases (l.endpoint_a == u)) [
      | inl at_a ↦
          inr
            (l.endpoint_b, present, inl ((eq_iff l.endpoint_a u).0 at_a, refl), rw (present, at_a))
      | inr not_a ↦ elim (Bool-cases (l.endpoint_b == u)) [
        | inl at_b ↦ inr (
          l.endpoint_a,
          present,
          inr ((eq_iff l.endpoint_b u).0 at_b, refl),
          rw (present, not_a, at_b),
        )
        | inr not_b ↦ inl (rw (present, not_a, not_b))
      ]
    ]
  ]

  offer_mono : (w : String) (m : ℕ) → Within s w m → Within (offer x now u s l) w m
  offer_mono w m h = elim offer_cases [
    | inl same ↦ rw same h
    | inr (v, present, joins, relaxed) ↦ rw relaxed (relax_mono x s v (now + l.cost) w m h)
  ]

  length-offer : length (offer x now u s l).pending ≤ suc (length s.pending)
  length-offer = elim offer_cases [
    | inl same ↦ rw same (omega arith)
    | inr (v, present, joins, relaxed) ↦ rw relaxed (length-relax x s v (now + l.cost))
  ]

  lookup-offer : lookup u s.distances ≡ some now → lookup u (offer x now u s l).distances ≡ some now
  lookup-offer at_u = elim offer_cases [
    | inl same ↦ rw same at_u
    | inr (v, present, joins, relaxed) ↦
        rw relaxed (lookup-relax x s v (now + l.cost) u now at_u (omega arith))
  ]

  -- A link out of `u` that may be taken offers its other end the distance through it.
  offer-Within :
      (v : String)
      → contains l.id x.links ≡ false
      → contains v x.nodes ≡ false
      → l.endpoint_a ≢ l.endpoint_b
      → Joins l u v
      → Within (offer x now u s l) v (now + l.cost)
  unfolding offer
  offer-Within v present open_end proper (inl (at_a, at_b)) =
      subst (λ w. Within (offer x now u s l) w (now + l.cost)) at_b
        (rw (present, (eq_iff l.endpoint_a u).1 at_a)
          (relax-Within s l.endpoint_b (now + l.cost) x (rw at_b open_end)))
  offer-Within v present open_end proper (inr (at_b, at_a)) =
      subst (λ w. Within (offer x now u s l) w (now + l.cost)) at_a
        (rw (present, not_a, (eq_iff l.endpoint_b u).1 at_b)
          (relax-Within s l.endpoint_a (now + l.cost) x (rw at_a open_end)))
    where
      not_a : (l.endpoint_a == u) ≡ false
      not_a = elim (Bool-cases (l.endpoint_a == u)) [
        | inl same ↦ absurd (proper ((eq_iff l.endpoint_a u).0 same ∙ sym at_b))
        | inr other ↦ other
      ]

pub scan_mono :
    (x : Excluded) (now : ℕ) (u : String) (s : Search) (todo : List Link) (w : String) (m : ℕ)
    → Within s w m
    → Within (scan x now u s todo) w m
unfolding scan
scan_mono x now u s [] w m h = h
scan_mono x now u s (l ∷ todo) w m h =
    scan_mono x now u (offer x now u s l) todo w m (offer_mono x now u s l w m h)

pub length-scan :
    (x : Excluded) (now : ℕ) (u : String) (s : Search) (todo : List Link)
    → length (scan x now u s todo).pending ≤ length todo + length s.pending
unfolding scan
length-scan x now u s [] = omega arith
length-scan x now u s (l ∷ todo) =
    omega (arith, length-offer x now u s l, length-scan x now u (offer x now u s l) todo)

pub lookup-scan :
    (x : Excluded) (now : ℕ) (u : String) (s : Search) (todo : List Link)
    → lookup u s.distances ≡ some now
    → lookup u (scan x now u s todo).distances ≡ some now
unfolding scan
lookup-scan x now u s [] h = h
lookup-scan x now u s (l ∷ todo) h =
    lookup-scan x now u (offer x now u s l) todo (lookup-offer x now u s l h)

-- After the loop each open link out of `u` that was looked at has been offered.
pub scan-Within :
    (x : Excluded) (now : ℕ) (u : String) (s : Search) (todo : List Link) (v : String) (l : Link)
    → Memᴰ l todo
    → contains l.id x.links ≡ false
    → contains v x.nodes ≡ false
    → l.endpoint_a ≢ l.endpoint_b
    → Joins l u v
    → Within (scan x now u s todo) v (now + l.cost)
unfolding scan
scan-Within x now u s [] v l m p q r j = absurd (Memᴰ.not-nil m)
scan-Within x now u s (k ∷ todo) v l m p q r j = elim (Memᴰ.cases_cons m) [
  | inl first ↦ scan_mono x now u (offer x now u s k) todo v (now + l.cost) (
      subst (λ (i : Link). Within (offer x now u s i) v (now + l.cost)) first
        (offer-Within x now u s l v p q r j))
  | inr rest ↦ scan-Within x now u (offer x now u s k) todo v l rest p q r j
]

module _ (ls : List Link) (x : Excluded) (goals : List String) (source : String)
    (closed settled : List String) (now : ℕ) (u : String) where
  offer-Inv :
      (s : Search) (l : Link)
      → IsProper l
      → Memᴰ l ls
      → lookup u s.distances ≡ some now
      → Inv ls x goals source closed settled now s
      → Inv ls x goals source closed settled now (offer x now u s l)
  offer-Inv s l proper m at_u h = elim (offer_cases x now u s l) [
    | inl same ↦ rw same h
    | inr (v, allowed, joins, relaxed) ↦ elim (Bool-cases (contains v x.nodes)) [
      | inl out ↦ rw (relaxed, relax_out x s v (now + l.cost) out) h
      | inr open_end ↦ rw relaxed (
          relax-Inv h u v l.cost at_u proper.positive (record {
            via = l;
            present = m;
            allowed = allowed;
            joins = joins;
            open_end = open_end;
            priced = refl;
          }))
    ]
  ]

  pub scan-Inv :
      (s : Search) (todo : List Link)
      → ((l : Link) → Memᴰ l todo → Memᴰ l ls × IsProper l)
      → lookup u s.distances ≡ some now
      → Inv ls x goals source closed settled now s
      → Inv ls x goals source closed settled now (scan x now u s todo)
  unfolding scan
  scan-Inv s [] within at_u h = h
  scan-Inv s (l ∷ todo) within at_u h =
      let (m, proper) = within l (Memᴰ.head refl) in
      scan-Inv (offer x now u s l) todo (λ k r. within k (Memᴰ.tail r))
        (lookup-offer x now u s l at_u) (offer-Inv s l proper m at_u h)
