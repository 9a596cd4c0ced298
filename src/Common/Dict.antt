-- ===== src/Common/Dict.antt =====
-- A Python dictionary with text keys, in the order of insertion.
pub mod Index
use Prim.Native.Nat.{ℕ, zero, suc, ◌≤◌}
use Prim.Native.String.{String}
use mathlib.Core.Path.{◌≡◌, refl}
use mathlib.Core.Logic.{◌↔◌, ◌⊎◌, inl, inr}
use mathlib.Core.Bool.{Bool, true, false}
use mathlib.Core.Option.{Option, none, some}
use mathlib.Core.List.{List, [], ◌∷◌, ◌++◌, Memᴰ}
use native.Mathlib.Omega.{arith}
use text.Mathlib.Text.{◌==◌}
use text.Mathlib.TextEquality.{eq_iff}
use telconet_sentinel.Common.Tests.{if◌then◌else◌, Option-cases}
use telconet_sentinel.Common.Names.{contains, contains-empty, all_distinct}
use telconet_sentinel.Common.Lists.{length, drop, Memᴰ-cons}

abbrev pub Dict {ℓ} : Type ℓ → Type ℓ
Dict V = List (String × V)

abbrev pub or_default {ℓ} : {V : Type ℓ} → Option V → V → V
or_default none d = d
or_default (some v) d = v

abbrev pub is_some {ℓ} : {V : Type ℓ} → Option V → Bool
is_some none = false
is_some (some v) = true

module _ {ℓ} {V : Type ℓ} where
  unfoldable pub lookup : String → Dict V → Option V
  lookup k [] = none
  lookup k ((j, v) ∷ d) = if j == k then some v else lookup k d

  -- A new key goes to the end, and an old one keeps its place.
  unfoldable pub insert : String → V → Dict V → Dict V
  insert k v [] = (k, v) ∷ []
  insert k v ((j, w) ∷ d) = if j == k then (j, v) ∷ d else (j, w) ∷ insert k v d

  -- `del d[k]`, for a key that is there; a dictionary has a key once.
  unfoldable pub remove : String → Dict V → Dict V
  remove k [] = []
  remove k ((j, v) ∷ d) = let rest = remove k d in if j == k then rest else (j, v) ∷ rest

  abbrev pub keys : Dict V → List String
  keys [] = []
  keys ((j, v) ∷ d) = j ∷ keys d

  abbrev pub values : Dict V → List V
  values [] = []
  values ((j, v) ∷ d) = v ∷ values d

  pub lookup-insert :
      (j k : String) (v : V) (d : Dict V)
      → lookup j (insert k v d) ≡ (if k == j then some v else lookup j d)
  unfolding lookup insert
  lookup-insert j k v [] = refl
  lookup-insert j k v ((i, w) ∷ d) =
      ground (arith, eq_iff k j, eq_iff i k, eq_iff i j, lookup-insert j k v d)

  pub contains-keys : (k : String) (d : Dict V) → contains k (keys d) ≡ is_some (lookup k d)
  unfolding contains lookup
  contains-keys k [] = refl
  contains-keys k ((j, v) ∷ d) = ground (arith, contains-keys k d)

  pub contains-keys-insert :
      (j k : String) (v : V) (d : Dict V)
      → contains j (keys (insert k v d)) ≡ (if k == j then true else contains j (keys d))
  contains-keys-insert j k v d =
      ground (arith, contains-keys j (insert k v d), contains-keys j d, lookup-insert j k v d)

module _ {ℓ} {V : Type ℓ} where
  pub Memᴰ-values-insert_new :
      (a : V) (k : String) (v : V) (d : Dict V)
      → lookup k d ≡ none
      → Memᴰ a (values (insert k v d)) ↔ ((a ≡ v) ⊎ Memᴰ a (values d))
  unfolding insert lookup
  Memᴰ-values-insert_new a k v [] new = Memᴰ-cons a v []
  Memᴰ-values-insert_new a k v ((i, w) ∷ d) new = ground (
    arith,
    Memᴰ-values-insert_new a k v d,
    Memᴰ-cons a w (values d),
    Memᴰ-cons a w (values (insert k v d)),
  )

  pub length-insert_new :
      (k : String) (v : V) (d : Dict V) → lookup k d ≡ none → length (insert k v d) ≡ suc (length d)
  unfolding insert lookup
  length-insert_new k v [] new = refl
  length-insert_new k v ((i, w) ∷ d) new = ground (arith, length-insert_new k v d)

  pub length-insert_old :
      (k : String) (v w : V) (d : Dict V) → lookup k d ≡ some w → length (insert k v d) ≡ length d
  unfolding insert lookup
  length-insert_old k v w [] there = absurd (ground arith)
  length-insert_old k v w ((i, u) ∷ d) there = ground (arith, length-insert_old k v w d)

  pub lookup-remove :
      (j k : String) (d : Dict V) → lookup j (remove k d) ≡ (if k == j then none else lookup j d)
  unfolding lookup remove
  lookup-remove j k [] = ground arith
  lookup-remove j k ((i, w) ∷ d) =
      ground (arith, eq_iff k j, eq_iff i k, eq_iff i j, lookup-remove j k d)

  pub lookup-cons :
      (j k : String) (v : V) (d : Dict V)
      → lookup j ((k, v) ∷ d) ≡ (if k == j then some v else lookup j d)
  unfolding lookup
  lookup-cons j k v d = refl

  -- No key occurs twice.
  pub IsUniqueKeys : Dict V → Type 0
  IsUniqueKeys d = all_distinct (keys d) ≡ true

  pub IsUniqueKeys-insert :
      (k : String) (v : V) (d : Dict V) → IsUniqueKeys d → IsUniqueKeys (insert k v d)
  unfolding IsUniqueKeys all_distinct insert
  IsUniqueKeys-insert k v [] h =
      ground (arith, contains-keys {V = V} k [], contains-empty k [] refl)
  IsUniqueKeys-insert k v ((i, w) ∷ d) h =
      ground
        (arith, contains-keys-insert i k v d, eq_iff i k, eq_iff k i, IsUniqueKeys-insert k v d)

  pub IsUniqueKeys-tail :
      (k : String) (v : V) (d : Dict V)
      → IsUniqueKeys ((k, v) ∷ d)
      → IsUniqueKeys d × (lookup k d ≡ none)
  unfolding IsUniqueKeys all_distinct
  IsUniqueKeys-tail k v d h = (
    ground arith,
    elim (Option-cases (lookup k d)) [
      | inl missing ↦ missing
      | inr (w, found) ↦ absurd (ground (arith, contains-keys k d))
    ],
  )

  pub insert_new-append :
      (k : String) (v : V) (d : Dict V) → lookup k d ≡ none → insert k v d ≡ d ++ (k, v) ∷ []
  unfolding insert lookup
  insert_new-append k v [] new = refl
  insert_new-append k v ((i, w) ∷ d) new = ground (arith, insert_new-append k v d)

  -- What the rest of a dictionary has, the dictionary has too.
  pub lookup-tail :
      (j k : String) (v w : V) (d : Dict V)
      → IsUniqueKeys ((k, v) ∷ d)
      → lookup j d ≡ some w
      → lookup j ((k, v) ∷ d) ≡ some w
  lookup-tail j k v w d h found =
      let (_, missing) = IsUniqueKeys-tail k v d h in
      ground (arith, lookup-cons j k v d, eq_iff k j)

  -- The newest entry is in every suffix that is not empty.
  pub lookup-drop :
      (n : ℕ) (k : String) (v : V) (d : Dict V)
      → lookup k d ≡ none
      → n ≤ length d
      → lookup k (drop n (d ++ (k, v) ∷ [])) ≡ some v
  unfolding lookup drop
  lookup-drop zero k v [] new le = ground (arith, eq_iff k k)
  lookup-drop zero k v ((i, w) ∷ d) new le = ground (arith, lookup-drop zero k v d)
  lookup-drop (suc n) k v [] new le = absurd (ground arith)
  lookup-drop (suc n) k v ((i, w) ∷ d) new le = ground (arith, lookup-drop n k v d)

pub IsUniqueKeys-nil {ℓ} : (V : Type ℓ) → IsUniqueKeys {V = V} []
unfolding IsUniqueKeys all_distinct
IsUniqueKeys-nil V = refl
