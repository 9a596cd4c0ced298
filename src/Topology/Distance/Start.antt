-- ===== src/Topology/Distance/Start.antt =====
-- The invariant holds before the first round.
use mathlib.Core.List.Memᴰ
use telconet_sentinel.Common.{
  ℕ, String, false, some, List, [], ◌∷◌, Memᴰ, ◌≡◌, refl, sym, subst, subst₂, ap, arith, contains,
  eq_iff, eq_refl,
}
use telconet_sentinel.Common.Dict.{lookup}
use telconet_sentinel.Models.{Link}
use telconet_sentinel.Topology.Walk.{Excluded, Walk, here}
use telconet_sentinel.Topology.Distance.{Entry, initial}
use telconet_sentinel.Topology.Distance.Queue.{IsHeap-one}
use telconet_sentinel.Topology.Distance.Invariant.{Inv}

lookup-one :
    (v source : String) (k : ℕ) → lookup v ((source, 0) ∷ []) ≡ some k → (source ≡ v) × (0 ≡ k)
unfolding lookup
lookup-one v source k h = ground (arith, eq_iff source v)

lookup-source : (source : String) → lookup {V = ℕ} source ((source, 0) ∷ []) ≡ some 0
unfolding lookup
lookup-source source = rw eq_refl

no_member : (v : String) → contains v [] ≡ false
unfolding contains
no_member v = refl

pub initial-Inv :
    (ls : List Link) (x : Excluded) (goals : List String) (source : String)
    → Inv ls x goals source [] [] 0 (initial source)
unfolding initial
initial-Inv ls x goals source = record {
  sound = λ v d p.
      let (same, zero_d) = lookup-one v source d p in subst₂ (Walk ls x source) same zero_d here;
  origin = origin_lem;
  waiting = λ v d p q.
      let (same, zero_d) = lookup-one v source d p in Memᴰ.head (λ i. (sym zero_d i, sym same i));
  entries = λ d v m.
      let e = Memᴰ.eq_of_singleton m in
      (
        0,
        subst (λ w. lookup {V = ℕ} w ((source, 0) ∷ []) ≡ some 0) (sym (ap (λ (p : Entry). p.1) e))
            origin_lem,
        omega arith,
        λ p. cc (no_member v),
      );
  edges = λ u v c a p. cc (no_member u);
  within = λ u p. p;
  reached = λ u p. cc (no_member u);
  later = λ d v m. omega arith;
  heap = IsHeap-one (0, source);
  unique = (Memᴰ.not-nil, tt);
  goalless = λ u p. cc (no_member u);
}
  where
    origin_lem : lookup {V = ℕ} source ((source, 0) ∷ []) ≡ some 0
    origin_lem = rw (lookup-source source)
