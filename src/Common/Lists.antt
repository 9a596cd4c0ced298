-- ===== src/Common/Lists.antt =====
-- Lists measured by native numbers, and membership.
use Prim.Native.Nat.{◌≤◌, ◌-◌, ℕ, zero, suc, ◌+◌, min}
use mathlib.Core.Path.{◌≡◌, refl, ap, sym, ◌∙◌}
use mathlib.Core.Logic.{◌⊎◌, inl, inr, ◌↔◌, ⊎_elim}
use mathlib.Core.Bool.{Bool, true, false}
use mathlib.Core.Option.{Option, none, some}
use mathlib.Core.List.{List, [], ◌∷◌, ◌++◌, map, Memᴰ}
use mathlib.Core.List.Memᴰ
use native.Mathlib.Omega.{arith}
use telconet_sentinel.Common.Tests.{nat_beq, Bool-cases, if◌then◌else◌}

module _ {ℓ} {A : Type ℓ} where
  abbrev pub length : List A → ℕ
  length [] = 0
  length (x ∷ xs) = suc (length xs)

  abbrev pub take : ℕ → List A → List A
  take zero xs = []
  take (suc n) [] = []
  take (suc n) (x ∷ xs) = x ∷ take n xs

  abbrev pub is_empty : List A → Bool
  is_empty [] = true
  is_empty (x ∷ xs) = false

  -- A comprehension with a condition.
  unfoldable pub keep_if : (A → Bool) → List A → List A
  keep_if p [] = []
  keep_if p (x ∷ xs) = let rest = keep_if p xs in if p x then x ∷ rest else rest

  unfoldable pub count_if : (A → Bool) → List A → ℕ
  count_if p [] = 0
  count_if p (x ∷ xs) = (if p x then 1 else 0) + count_if p xs

  unfoldable pub any : (A → Bool) → List A → Bool
  any p [] = false
  any p (x ∷ xs) = if p x then true else any p xs

  pub List-cases : (xs : List A) → (xs ≡ []) ⊎ ((x : A) × (rest : List A) × (xs ≡ x ∷ rest))
  List-cases [] = inl refl
  List-cases (x ∷ xs) = inr (x, xs, refl)

  pub length-append : (xs ys : List A) → length (xs ++ ys) ≡ length xs + length ys
  length-append [] ys = omega arith
  length-append (x ∷ xs) ys = omega (arith, length-append xs ys)

  pub length-take : (n : ℕ) (xs : List A) → length (take n xs) ≡ min n (length xs)
  length-take zero xs = omega arith
  length-take (suc n) [] = omega arith
  length-take (suc n) (x ∷ xs) = omega (arith, length-take n xs)

  pub Memᴰ-cons : (a x : A) (xs : List A) → Memᴰ a (x ∷ xs) ↔ ((a ≡ x) ⊎ Memᴰ a xs)
  Memᴰ-cons a x xs = (Memᴰ.cases_cons, ⊎_elim Memᴰ.head Memᴰ.tail)

  pub Memᴰ-keep_if :
      (p : A → Bool) (a : A) (xs : List A) → Memᴰ a (keep_if p xs) ↔ (Memᴰ a xs × (p a ≡ true))
  unfolding keep_if
  Memᴰ-keep_if p a [] = (λ m. absurd (Memᴰ.not-nil m), λ m. absurd (Memᴰ.not-nil m.0))
  Memᴰ-keep_if p a (x ∷ xs) =
      ground (arith, Memᴰ-keep_if p a xs, Memᴰ-cons a x xs, Memᴰ-cons a x (keep_if p xs))

module _ {ℓ} {A : Type ℓ} (p : A → Bool) where
  pub any-append_one :
      (xs : List A) (y : A) → any p (xs ++ y ∷ []) ≡ (if p y then true else any p xs)
  unfolding any
  any-append_one [] y = refl
  any-append_one (x ∷ xs) y = ground (arith, any-append_one xs y)

  -- `any` finds a member, and misses none.
  pub any-mem : (xs : List A) → any p xs ≡ true → (x : A) × Memᴰ x xs × (p x ≡ true)
  unfolding any
  any-mem [] h = absurd (ground arith)
  any-mem (x ∷ xs) h = elim (Bool-cases (p x)) [
    | inl here ↦ (x, Memᴰ.head refl, here)
    | inr there ↦ let (y, m, q) = any-mem xs (ground arith) in (y, Memᴰ.tail m, q)
  ]

  pub any_of_mem : (xs : List A) (x : A) → Memᴰ x xs → p x ≡ true → any p xs ≡ true
  unfolding any
  any_of_mem [] x m h = absurd (Memᴰ.not-nil m)
  any_of_mem (y ∷ ys) x m h = elim (Memᴰ.cases_cons m) [
    | inl same ↦ rw (ap p (sym same) ∙ h)
    | inr rest ↦ ground (arith, any_of_mem ys x rest)
  ]

  pub count_if-eq-zero : (xs : List A) → (nat_beq (count_if p xs) 0 ≡ true) ↔ (any p xs ≡ false)
  unfolding count_if any
  count_if-eq-zero [] = (λ _. refl, λ _. refl)
  count_if-eq-zero (x ∷ xs) = ground (arith, count_if-eq-zero xs)

pub length-map {ℓ κ} :
    {A : Type ℓ} {B : Type κ} (f : A → B) (xs : List A) → length (map f xs) ≡ length xs
length-map f [] = refl
length-map f (x ∷ xs) = ap suc (length-map f xs)

unfoldable pub drop {ℓ} : {A : Type ℓ} → ℕ → List A → List A
drop zero xs = xs
drop (suc n) [] = []
drop (suc n) (x ∷ xs) = drop n xs

-- `xs[-1]`, if there is one
unfoldable pub last {ℓ} : {A : Type ℓ} → List A → Option A
last [] = none
last (x ∷ []) = some x
last (x ∷ y ∷ ys) = last (y ∷ ys)

pub drop-suc {ℓ} :
    {A : Type ℓ} (m : ℕ) (x : A) (xs : List A)
    → m ≤ length xs
    → drop (length xs - m) xs ≡ drop (suc (length xs) - m) (x ∷ xs)
unfolding drop
drop-suc m x xs le =
    let next : suc (length xs) - m ≡ suc (length xs - m) = omega arith in rw next refl

pub drop-all {ℓ} : {A : Type ℓ} (m : ℕ) (xs : List A) → length xs ≤ m → drop (length xs - m) xs ≡ xs
unfolding drop
drop-all m xs le = let none_over : length xs - m ≡ 0 = omega arith in rw none_over refl

pub length-drop {ℓ} :
    {A : Type ℓ} (n : ℕ) (xs : List A) → n ≤ length xs → length (drop n xs) + n ≡ length xs
unfolding drop
length-drop zero xs le = omega arith
length-drop (suc n) [] le = absurd (omega arith)
length-drop (suc n) (x ∷ xs) le = omega (arith, length-drop n xs)
