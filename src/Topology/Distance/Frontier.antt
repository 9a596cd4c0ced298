-- ===== src/Topology/Distance/Frontier.antt =====
-- What the heap and the settled nodes say of every walk, and the measure of the `while` loop.
use telconet_sentinel.Common.{
  ℕ, ◌+◌, ◌*◌, ◌≤◌, ◌<◌, String, true, false, not, some, List, [], ◌∷◌, Memᴰ, ◌≡◌, refl, ◌⊎◌, inl,
  inr, arith, eq_iff, eq_refl, contains, contains-cons, contains-add, add, Bool-cases, length,
  count_if,
}
use telconet_sentinel.Common.Dict.{lookup}
use telconet_sentinel.Models.{Link}
use telconet_sentinel.Topology.Walk.{Excluded, Walk, here, step}
use telconet_sentinel.Topology.Distance.{Search}
use telconet_sentinel.Topology.Distance.Invariant.{Within, Inv}

-- The nodes that are not settled yet.
pub unsettled : List String → List String → ℕ
unsettled names settled = count_if (λ n. not (contains n settled)) names

pub unsettled-mark-le :
    (names settled : List String) (u : String)
    → unsettled names (u ∷ settled) ≤ unsettled names settled
unfolding unsettled count_if
unsettled-mark-le [] settled u = omega arith
unsettled-mark-le (n ∷ names) settled u =
    ground (arith, contains-cons n u settled, unsettled-mark-le names settled u)

pub unsettled-mark :
    (names settled : List String) (u : String)
    → contains u names ≡ true
    → contains u settled ≡ false
    → unsettled names (u ∷ settled) < unsettled names settled
unfolding unsettled count_if contains
unsettled-mark [] settled u h k = absurd (ground arith)
unsettled-mark (n ∷ names) settled u h k = ground (
  arith,
  eq_iff n u,
  eq_refl u,
  contains-cons n u settled,
  unsettled-mark-le names settled u,
  unsettled-mark names settled u,
)

-- The same of a node that is put at the end.
pub unsettled-add :
    (names settled : List String) (u : String)
    → unsettled names (add u settled) ≡ unsettled names (u ∷ settled)
unfolding unsettled count_if
unsettled-add [] settled u = refl
unsettled-add (n ∷ names) settled u =
    ground
      (arith, contains-cons n u settled, contains-add n u settled, unsettled-add names settled u)

pub unsettled-nil : (names : List String) → unsettled names [] ≡ length names
unfolding unsettled count_if contains
unsettled-nil [] = refl
unsettled-nil (n ∷ names) = omega (arith, unsettled-nil names)

-- What is left to do: each entry of the heap, and for each node that is not settled each link.
abbrev pub work : List Link → List String → List String → Search → ℕ
work ls names settled s = length s.pending + length ls * unsettled names settled

module _ (ls : List Link) (x : Excluded) (goals : List String) (source : String) where
  -- A walk leads to a node that is settled no farther, or past an entry of the heap.
  pub frontier :
      {settled : List String} {now : ℕ} {s : Search} {v : String} {d : ℕ}
      → Inv ls x goals source settled settled now s
      → Walk ls x source v d
      → ((contains v settled ≡ true) × Within s v d)
        ⊎ ((k : ℕ) × (w : String) × Memᴰ (k, w) s.pending × (k ≤ d))
  frontier {settled} {s = s} h here = elim (Bool-cases (contains source settled)) [
    | inl old ↦ inl (old, (0, h.origin, omega arith))
    | inr new ↦ inr (0, source, h.waiting source 0 h.origin new, omega arith)
  ]
  frontier {settled} {s = s} h (step {u} {v} {d} {c} walk e) = elim (frontier h walk) [
    | inl (old, (a, at_u, low)) ↦ next a at_u low (h.edges u v c a old at_u e)
    | inr (k, w, m, low) ↦ inr (k, w, m, omega arith)
  ]
    where
      next :
          (a : ℕ)
          → lookup u s.distances ≡ some a
          → a ≤ d
          → Within s v (a + c)
          → ((contains v settled ≡ true) × Within s v (d + c))
            ⊎ ((k : ℕ) × (w : String) × Memᴰ (k, w) s.pending × (k ≤ d + c))
      next a at_u low (b, at_v, near) = elim (Bool-cases (contains v settled)) [
        | inl old ↦ inl (old, (b, at_v, omega arith))
        | inr new ↦ inr (b, v, h.waiting v b at_v new, omega arith)
      ]
