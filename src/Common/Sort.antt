-- ===== src/Common/Sort.antt =====
-- `sorted`: a stable insertion sort by a Boolean order.
use Prim.Native.Nat.{suc}
use mathlib.Core.Path.{◌≡◌, refl, ap, sym, ◌∙◌}
use mathlib.Core.Logic.{◌⊎◌, inl, inr, ◌↔◌}
use mathlib.Core.Bool.{Bool, true, false}
use mathlib.Core.List.{List, [], ◌∷◌, Memᴰ}
use mathlib.Core.List.Memᴰ
use native.Mathlib.Omega.{arith}
use telconet_sentinel.Common.Tests.{if◌then◌else◌, Bool-cases}
use telconet_sentinel.Common.Lists.{length, Memᴰ-cons}

module _ {ℓ} {A : Type ℓ} (le : A → A → Bool) where
  -- `x` goes before the entries that are equal to it.
  unfoldable pub insert_sorted : A → List A → List A
  insert_sorted x [] = x ∷ []
  insert_sorted x (y ∷ ys) = if le x y then x ∷ y ∷ ys else y ∷ insert_sorted x ys

  unfoldable pub sort : List A → List A
  sort [] = []
  sort (x ∷ xs) = insert_sorted x (sort xs)

  -- Every entry is in order with all that follow it.
  abbrev pub IsOrdered : List A → Type ℓ
  IsOrdered [] = Unit
  IsOrdered (x ∷ xs) = ((y : A) → Memᴰ y xs → le x y ≡ true) × IsOrdered xs

  pub Memᴰ-insert_sorted :
      (a x : A) (xs : List A) → Memᴰ a (insert_sorted x xs) ↔ ((a ≡ x) ⊎ Memᴰ a xs)
  unfolding insert_sorted
  Memᴰ-insert_sorted a x [] = Memᴰ-cons a x []
  Memᴰ-insert_sorted a x (y ∷ ys) = ground (
    arith,
    Memᴰ-insert_sorted a x ys,
    Memᴰ-cons a x (y ∷ ys),
    Memᴰ-cons a y ys,
    Memᴰ-cons a y (insert_sorted x ys),
  )

  pub Memᴰ-sort : (a : A) (xs : List A) → Memᴰ a (sort xs) ↔ Memᴰ a xs
  unfolding sort
  Memᴰ-sort a [] = (λ m. m, λ m. m)
  Memᴰ-sort a (x ∷ xs) =
      ground (arith, Memᴰ-sort a xs, Memᴰ-insert_sorted a x (sort xs), Memᴰ-cons a x xs)

  -- No entry occurs twice.
  abbrev pub IsUnique : List A → Type ℓ
  IsUnique [] = Unit
  IsUnique (x ∷ xs) = (¬ Memᴰ x xs) × IsUnique xs

  pub insert_sorted-IsUnique :
      (x : A) (xs : List A) → (¬ Memᴰ x xs) → IsUnique xs → IsUnique (insert_sorted x xs)
  unfolding insert_sorted
  insert_sorted-IsUnique x [] new h = (new, tt)
  insert_sorted-IsUnique x (y ∷ ys) new h = elim (Bool-cases (le x y)) [
    | inl before ↦ rw before (new, h)
    | inr after ↦ rw after (
      λ m. elim ((Memᴰ-insert_sorted y x ys).0 m) [
        | inl same ↦ new (Memᴰ.head (sym same))
        | inr old ↦ h.0 old
      ],
      insert_sorted-IsUnique x ys (λ m. new (Memᴰ.tail m)) h.1,
    )
  ]

  pub length-insert_sorted : (x : A) (xs : List A) → length (insert_sorted x xs) ≡ suc (length xs)
  unfolding insert_sorted
  length-insert_sorted x [] = refl
  length-insert_sorted x (y ∷ ys) = ground (arith, length-insert_sorted x ys)

  pub length-sort : (xs : List A) → length (sort xs) ≡ length xs
  unfolding sort
  length-sort [] = refl
  length-sort (x ∷ xs) = length-insert_sorted x (sort xs) ∙ ap suc (length-sort xs)

module _ {ℓ} {A : Type ℓ} (le : A → A → Bool) (total : (a b : A) → le a b ≡ false → le b a ≡ true)
    (trans : (a b c : A) → le a b ≡ true → le b c ≡ true → le a c ≡ true) where
  pub insert_sorted-IsOrdered :
      (x : A) (xs : List A) → IsOrdered le xs → IsOrdered le (insert_sorted le x xs)
  unfolding insert_sorted
  insert_sorted-IsOrdered x [] h = (λ y m. absurd (Memᴰ.not-nil m), tt)
  insert_sorted-IsOrdered x (y ∷ ys) h = elim (Bool-cases (le x y)) [
    | inl before ↦ rw before (λ z m. ground (arith, Memᴰ-cons z y ys, h.0 z, trans x y z), h)
    | inr after ↦ rw after (
      λ z m. ground (arith, Memᴰ-insert_sorted le z x ys, h.0 z, total x y),
      insert_sorted-IsOrdered x ys h.1,
    )
  ]

  pub sort-IsOrdered : (xs : List A) → IsOrdered le (sort le xs)
  unfolding sort
  sort-IsOrdered [] = tt
  sort-IsOrdered (x ∷ xs) = insert_sorted-IsOrdered x (sort le xs) (sort-IsOrdered xs)
