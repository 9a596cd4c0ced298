-- ===== src/Topology/Walk.antt =====
-- Walks of a topology from which some links and nodes are taken out: the meaning of its searches.
use telconet_sentinel.Common.{
  ℕ, ◌+◌, ◌<◌, ◌≢◌, String, true, false, List, Memᴰ, ◌≡◌, ◌⊎◌, inl, inr, ◌≤◌, Option, none, some,
  contains,
}
use telconet_sentinel.Models.{Link}

-- What a search leaves out.
pub record Excluded : Type 0 where
  pub links : List String
  pub nodes : List String

abbrev pub Joins : Link → String → String → Type 0
Joins l u v = (l.endpoint_a ≡ u) × (l.endpoint_b ≡ v) ⊎ (l.endpoint_b ≡ u) × (l.endpoint_a ≡ v)

-- A link of `ls` that is not excluded leads from `u` to `v`, which is not excluded, at a cost.
pub record Edge (ls : List Link) (x : Excluded) (u v : String) (cost : ℕ) : Type 0 where
  pub via : Link
  pub present : Memᴰ via ls
  pub allowed : contains via.id x.links ≡ false
  pub joins : Joins via u v
  pub open_end : contains v x.nodes ≡ false
  pub priced : via.cost ≡ cost

-- The walks from `source` with their total costs.
pub data Walk (ls : List Link) (x : Excluded) (source : String) : String → ℕ → Type 0 where
  here : Walk ls x source source 0
  step :
      {u v : String} {d c : ℕ} → Walk ls x source u d → Edge ls x u v c → Walk ls x source v (d + c)

-- The links of a topology that was built: costs are positive, and ends differ.
pub record IsProper (l : Link) : Type 0 where
  pub positive : 0 < l.cost
  pub proper : l.endpoint_a ≢ l.endpoint_b

-- The least cost of a walk to one of the goals, or that there is no walk to any.
abbrev pub IsLeast : List Link → Excluded → String → List String → Option ℕ → Type 0
IsLeast ls x source goals none =
    (goal : String) (d : ℕ) → contains goal goals ≡ true → ¬ Walk ls x source goal d
IsLeast ls x source goals (some least) =
    (goal : String) × (contains goal goals ≡ true)
    × Walk ls x source goal least
    × ((other : String) (d : ℕ)
        → contains other goals ≡ true
        → Walk ls x source other d
        → least ≤ d)

-- The nodes of a walk are among those that the links join.
abbrev pub EndsIn : List String → List Link → Type 0
EndsIn names ls =
    (l : Link)
    → Memᴰ l ls
    → (contains l.endpoint_a names ≡ true) × (contains l.endpoint_b names ≡ true)

pub Walk-known :
    {ls : List Link} {x : Excluded} {source v : String} {d : ℕ} (names : List String)
    → EndsIn names ls
    → contains source names ≡ true
    → Walk ls x source v d
    → contains v names ≡ true
Walk-known names ends h here = h
Walk-known names ends h (step w e) = known_end e.via e.joins (ends e.via e.present)
  where
    known_end :
        {u v : String} (l : Link)
        → Joins l u v
        → (contains l.endpoint_a names ≡ true) × (contains l.endpoint_b names ≡ true)
        → contains v names ≡ true
    known_end l (inl (p, q)) k = rw (← q) k.1
    known_end l (inr (p, q)) k = rw (← q) k.0
