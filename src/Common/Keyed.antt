-- ===== src/Common/Keyed.antt =====
-- Sorts of entries that have different keys, and the first entries of a sorted list.
use Prim.Native.Nat.{ℕ, zero, suc, ◌≤◌}
use Prim.Native.String.{String}
use mathlib.Core.Path.{◌≡◌, refl, ap, sym, ◌∙◌}
use mathlib.Core.Logic.{inl, inr}
use mathlib.Core.Bool.{Bool, true, false}
use mathlib.Core.List.{List, [], ◌∷◌, ◌++◌, map, Memᴰ}
use mathlib.Core.List.Memᴰ
use native.Mathlib.Omega.{arith}
use text.Mathlib.Text.{◌==◌}
use text.Mathlib.TextEquality.{eq_iff}
use telconet_sentinel.Common.Tests.{if◌then◌else◌, Bool-cases}
use telconet_sentinel.Common.Lists.{length, take, keep_if}
use telconet_sentinel.Common.Names.{contains, all_distinct}
use telconet_sentinel.Common.Sort.{insert_sorted, sort, IsOrdered, Memᴰ-insert_sorted}

module _ {ℓ} {A : Type ℓ} where
  pub take-take : (n : ℕ) (xs : List A) → take n (take (suc n) xs) ≡ take n xs
  take-take zero xs = refl
  take-take (suc n) [] = refl
  take-take (suc n) (x ∷ xs) = ap (λ ys. x ∷ ys) (take-take n xs)

  pub take-cons : (n : ℕ) (x : A) (xs : List A) → take n (x ∷ take n xs) ≡ take n (x ∷ xs)
  take-cons zero x xs = refl
  take-cons (suc n) x xs = ap (λ ys. x ∷ ys) (take-take n xs)

  pub Memᴰ-take : (n : ℕ) (a : A) (xs : List A) → Memᴰ a (take n xs) → Memᴰ a xs
  Memᴰ-take zero a xs m = absurd (Memᴰ.not-nil m)
  Memᴰ-take (suc n) a [] m = m
  Memᴰ-take (suc n) a (x ∷ xs) m = elim (Memᴰ.cases_cons m) [
    | inl same ↦ Memᴰ.head same
    | inr later ↦ Memᴰ.tail (Memᴰ-take n a xs later)
  ]

  pub take-append_one : (xs : List A) (x : A) → take (length xs) (xs ++ x ∷ []) ≡ xs
  take-append_one [] x = refl
  take-append_one (y ∷ ys) x = ap (λ zs. y ∷ zs) (take-append_one ys x)

  pub take-all : (n : ℕ) (xs : List A) → length xs ≤ n → take n xs ≡ xs
  take-all zero [] h = refl
  take-all zero (x ∷ xs) h = absurd (omega arith)
  take-all (suc n) [] h = refl
  take-all (suc n) (x ∷ xs) h = ap (λ ys. x ∷ ys) (take-all n xs (omega arith))

pub length-keep_if {ℓ} :
    {A : Type ℓ} (p : A → Bool) (xs : List A) → length (keep_if p xs) ≤ length xs
unfolding keep_if
length-keep_if p [] = omega arith
length-keep_if p (x ∷ xs) = ground (arith, length-keep_if p xs)

module _ {ℓ} {A : Type ℓ} (le : A → A → Bool) where
  -- What is not among the first entries does not come back.
  pub take-insert_sorted :
      (n : ℕ) (x : A) (xs : List A)
      → take n (insert_sorted le x (take n xs)) ≡ take n (insert_sorted le x xs)
  unfolding insert_sorted
  take-insert_sorted zero x xs = refl
  take-insert_sorted (suc n) x [] = refl
  take-insert_sorted (suc n) x (y ∷ ys) = elim (Bool-cases (le x y)) [
    | inl before ↦ rw before (ap (λ zs. x ∷ zs) (take-cons n y ys))
    | inr after ↦ rw after (ap (λ zs. y ∷ zs) (take-insert_sorted n x ys))
  ]

  pub IsOrdered-take : (n : ℕ) (xs : List A) → IsOrdered le xs → IsOrdered le (take n xs)
  IsOrdered-take zero xs h = tt
  IsOrdered-take (suc n) [] h = tt
  IsOrdered-take (suc n) (x ∷ xs) h = (λ y m. h.0 y (Memᴰ-take n y xs m), IsOrdered-take n xs h.1)

  pub insert_sorted-first :
      (x : A) (xs : List A) → ((y : A) → Memᴰ y xs → le x y ≡ true) → insert_sorted le x xs ≡ x ∷ xs
  unfolding insert_sorted
  insert_sorted-first x [] h = refl
  insert_sorted-first x (y ∷ ys) h = rw (h y (Memᴰ.head refl)) refl

  pub sort-ordered : (xs : List A) → IsOrdered le xs → sort le xs ≡ xs
  unfolding sort
  sort-ordered [] h = refl
  sort-ordered (x ∷ xs) h =
      ap (insert_sorted le x) (sort-ordered xs h.1) ∙ insert_sorted-first x xs h.0

module _ {ℓ} {A : Type ℓ} (le : A → A → Bool) (key : A → String) where
  pub contains-insert_sorted :
      (k : String) (x : A) (xs : List A)
      → contains k (map key (insert_sorted le x xs))
        ≡ (if key x == k then true else contains k (map key xs))
  unfolding insert_sorted contains
  contains-insert_sorted k x [] = refl
  contains-insert_sorted k x (y ∷ ys) = ground (arith, contains-insert_sorted k x ys)

  pub contains-sort :
      (k : String) (xs : List A) → contains k (map key (sort le xs)) ≡ contains k (map key xs)
  unfolding sort contains
  contains-sort k [] = refl
  contains-sort k (x ∷ xs) =
      ground (arith, contains-sort k xs, contains-insert_sorted k x (sort le xs))

  all_distinct-insert_sorted :
      (x : A) (xs : List A)
      → contains (key x) (map key xs) ≡ false
      → all_distinct (map key xs) ≡ true
      → all_distinct (map key (insert_sorted le x xs)) ≡ true
  unfolding insert_sorted all_distinct contains
  all_distinct-insert_sorted x [] new h = refl
  all_distinct-insert_sorted x (y ∷ ys) new h = ground (
    arith,
    all_distinct-insert_sorted x ys,
    contains-insert_sorted (key y) x ys,
    eq_iff (key x) (key y),
    eq_iff (key y) (key x),
  )

  pub all_distinct-sort :
      (xs : List A) → all_distinct (map key xs) ≡ true → all_distinct (map key (sort le xs)) ≡ true
  unfolding sort all_distinct
  all_distinct-sort [] h = refl
  all_distinct-sort (x ∷ xs) h =
      all_distinct-insert_sorted x (sort le xs) (ground (arith, contains-sort (key x) xs))
        (all_distinct-sort xs (ground arith))

  pub contains-take :
      (n : ℕ) (k : String) (xs : List A)
      → contains k (map key xs) ≡ false
      → contains k (map key (take n xs)) ≡ false
  unfolding contains
  contains-take zero k xs h = refl
  contains-take (suc n) k [] h = refl
  contains-take (suc n) k (x ∷ xs) h = ground (arith, contains-take n k xs)

  pub all_distinct-take :
      (n : ℕ) (xs : List A)
      → all_distinct (map key xs) ≡ true
      → all_distinct (map key (take n xs)) ≡ true
  unfolding all_distinct
  all_distinct-take zero xs h = refl
  all_distinct-take (suc n) [] h = refl
  all_distinct-take (suc n) (x ∷ xs) h =
      ground (arith, all_distinct-take n xs, contains-take n (key x) xs)

module _ {ℓ} {A : Type ℓ} (le : A → A → Bool) (total : (a b : A) → le a b ≡ false → le b a ≡ true)
    (trans : (a b c : A) → le a b ≡ true → le b c ≡ true → le a c ≡ true) (key : A → String)
    (antisym : (a b : A) → le a b ≡ true → le b a ≡ true → key a ≡ key b) where
  insert_before : (x y : A) (ys : List A) → le x y ≡ true → insert_sorted le x (y ∷ ys) ≡ x ∷ y ∷ ys
  unfolding insert_sorted
  insert_before x y ys h = rw h refl

  insert_after :
      (x y : A) (ys : List A)
      → le x y ≡ false
      → insert_sorted le x (y ∷ ys) ≡ y ∷ insert_sorted le x ys
  unfolding insert_sorted
  insert_after x y ys h = rw h refl

  insert_swap :
      (x y : A) (ys : List A)
      → IsOrdered le (y ∷ ys)
      → contains (key x) (map key (y ∷ ys)) ≡ false
      → insert_sorted le y (insert_sorted le x ys) ≡ insert_sorted le x (y ∷ ys)
  unfolding insert_sorted contains
  insert_swap x y ys h new = elim (Bool-cases (le x y)) [
    | inl before ↦
        let above : (z : A) → Memᴰ z ys → le x z ≡ true = λ z m. trans x y z before (h.0 z m) in
        let not_after : le y x ≡ false =
          ground (arith, antisym x y before, eq_iff (key y) (key x)) in
        ap (insert_sorted le y) (insert_sorted-first le x ys above)
        ∙ insert_after y x ys not_after
        ∙ ap (λ zs. x ∷ zs) (insert_sorted-first le y ys h.0)
        ∙ sym (insert_before x y ys before)
    | inr after ↦
        insert_sorted-first le y (insert_sorted le x ys) (λ z m.
          elim ((Memᴰ-insert_sorted le z x ys).0 m) [
            | inl same ↦ ap (le y) same ∙ total x y after
            | inr old ↦ h.0 z old
          ])
        ∙ sym (insert_after x y ys after)
  ]

  -- An entry that comes last is inserted like one that comes first.
  pub sort-append_one :
      (xs : List A) (x : A)
      → IsOrdered le xs
      → contains (key x) (map key xs) ≡ false
      → sort le (xs ++ x ∷ []) ≡ insert_sorted le x xs
  unfolding sort insert_sorted contains
  sort-append_one [] x h new = refl
  sort-append_one (y ∷ ys) x h new =
      ap (insert_sorted le y) (sort-append_one ys x h.1 (ground arith)) ∙ insert_swap x y ys h new

  -- An entry that is after all others goes to the end.
  pub insert_sorted-last :
      (x : A) (xs : List A)
      → ((y : A) → Memᴰ y xs → le y x ≡ true)
      → contains (key x) (map key xs) ≡ false
      → insert_sorted le x xs ≡ xs ++ x ∷ []
  unfolding insert_sorted contains
  insert_sorted-last x [] h new = refl
  insert_sorted-last x (y ∷ ys) h new =
      let rest = insert_sorted-last x ys (λ z m. h z (Memᴰ.tail m)) (ground arith) in
      elim (Bool-cases (le x y)) [
        | inl before ↦
            absurd
              (ground (arith, antisym x y before (h y (Memᴰ.head refl)), eq_iff (key y) (key x)))
        | inr after ↦ rw after (ap (λ zs. y ∷ zs) rest)
      ]
