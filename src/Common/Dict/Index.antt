-- ===== src/Common/Dict/Index.antt =====
-- A dictionary of the entries of a list by a key: `{key(x): x for x in xs}`.
use Prim.Native.String.{String}
use mathlib.Core.Path.{◌≡◌, refl, sym, ap, subst, ◌∙◌}
use mathlib.Core.Logic.{inl, inr}
use mathlib.Core.Bool.{true, false}
use mathlib.Core.Option.{none, some}
use mathlib.Core.List.{List, [], ◌∷◌, ◌++◌, map, Memᴰ, append-nil, append_assoc}
use mathlib.Core.List.Memᴰ
use native.Mathlib.Omega.{arith}
use text.Mathlib.Text.{◌==◌}
use text.Mathlib.TextEquality.{eq_iff}
use telconet_sentinel.Common.Tests.{if◌then◌else◌, Bool-cases}
use telconet_sentinel.Common.Names.{contains, contains-head, contains-tail, all_distinct}
use telconet_sentinel.Common.Dict.{
  Dict, lookup, insert, keys, lookup-insert, contains-keys-insert, insert_new-append,
}

some-injective {ℓ} : {A : Type ℓ} {a b : A} → some a ≡ some b → a ≡ b
some-injective h = cc

module _ {ℓ} {A : Type ℓ} (key : A → String) where
  unfoldable pub index_from : Dict A → List A → Dict A
  index_from d [] = d
  index_from d (x ∷ xs) = index_from (insert (key x) x d) xs

  unfoldable pub index_by : List A → Dict A
  index_by xs = index_from [] xs

  lookup-index_from_other :
      (k : String) (xs : List A) (d : Dict A)
      → contains k (map key xs) ≡ false
      → lookup k (index_from d xs) ≡ lookup k d
  unfolding index_from contains
  lookup-index_from_other k [] d h = refl
  lookup-index_from_other k (x ∷ xs) d h =
      ground (arith, lookup-index_from_other k xs (insert (key x) x d), lookup-insert k (key x) x d)

  lookup-index_from :
      (x : A) (xs : List A) (d : Dict A)
      → all_distinct (map key xs) ≡ true
      → Memᴰ x xs
      → lookup (key x) (index_from d xs) ≡ some x
  unfolding index_from all_distinct
  lookup-index_from x [] d h m = absurd (Memᴰ.not-nil m)
  lookup-index_from x (y ∷ ys) d h m = elim (Memᴰ.cases_cons m) [
    | inl same ↦
        subst (λ z. lookup (key z) (index_from (insert (key y) y d) ys) ≡ some z) (sym same)
          (lookup-index_from_other (key y) ys (insert (key y) y d) (ground arith)
            ∙ ground (arith, lookup-insert (key y) (key y) y d, eq_iff (key y) (key y)))
    | inr later ↦ lookup-index_from x ys (insert (key y) y d) (ground arith) later
  ]

  source-index_from :
      (k : String) (v : A) (all xs : List A) (d : Dict A)
      → ((x : A) → Memᴰ x xs → Memᴰ x all)
      → (lookup k d ≡ some v → (Memᴰ v all × (key v ≡ k)))
      → lookup k (index_from d xs) ≡ some v
      → Memᴰ v all × (key v ≡ k)
  unfolding index_from
  source-index_from k v all [] d within old h = old h
  source-index_from k v all (x ∷ xs) d within old h =
      source-index_from k v all xs (insert (key x) x d) (λ y m. within y (Memᴰ.tail m))
        (λ found. elim (Bool-cases (key x == k)) [
          | inl here ↦
              let same : x ≡ v = some-injective (ground (arith, lookup-insert k (key x) x d)) in
              (
                subst (λ y. Memᴰ y all) same (within x (Memᴰ.head refl)),
                ap key (sym same) ∙ (eq_iff (key x) k).0 here,
              )
          | inr there ↦ old (ground (arith, lookup-insert k (key x) x d))
        ])
        h

  -- What is found under a key is an entry with that key.
  pub source-index_by :
      (k : String) (v : A) (xs : List A) → lookup k (index_by xs) ≡ some v → Memᴰ v xs × (key v ≡ k)
  unfolding index_by lookup
  source-index_by k v xs h =
      source-index_from k v xs xs [] (λ x m. m) (λ found. absurd (ground arith)) h

  contains-keys-index_from :
      (k : String) (xs : List A) (d : Dict A)
      → contains k (keys (index_from d xs))
        ≡ (if contains k (map key xs) then true else contains k (keys d))
  unfolding index_from contains
  contains-keys-index_from k [] d = refl
  contains-keys-index_from k (x ∷ xs) d = ground (
    arith,
    contains-keys-index_from k xs (insert (key x) x d),
    contains-keys-insert k (key x) x d,
  )

  pub contains-keys-index_by :
      (k : String) (xs : List A) → contains k (keys (index_by xs)) ≡ contains k (map key xs)
  unfolding index_by contains
  contains-keys-index_by k xs = ground (arith, contains-keys-index_from k xs [])

  abbrev pub with_key : A → String × A
  with_key x = (key x, x)

  index_from-append :
      (xs : List A) (d : Dict A)
      → all_distinct (map key xs) ≡ true
      → ((k : String) → contains k (map key xs) ≡ true → lookup k d ≡ none)
      → index_from d xs ≡ d ++ map with_key xs
  unfolding index_from all_distinct
  index_from-append [] d h new = sym (append-nil d)
  index_from-append (x ∷ xs) d h new =
      let fresh : lookup (key x) d ≡ none = new (key x) (contains-head (key x) (map key xs)) in
      index_from-append xs (insert (key x) x d) (ground arith) (λ k listed. ground (
        arith,
        lookup-insert k (key x) x d,
        eq_iff (key x) k,
        new k (contains-tail k (key x) (map key xs) listed),
      ))
      ∙ ap (λ e. e ++ map with_key xs) (insert_new-append (key x) x d fresh)
      ∙ append_assoc d (with_key x ∷ []) (map with_key xs)

  -- With distinct keys the dictionary has the entries in the order of the list.
  pub index_by-map :
      (xs : List A) → all_distinct (map key xs) ≡ true → index_by xs ≡ map with_key xs
  unfolding index_by lookup
  index_by-map xs h = index_from-append xs [] h (λ k listed. refl)

  -- With distinct keys every entry is found under its key.
  pub lookup-index_by :
      (x : A) (xs : List A)
      → all_distinct (map key xs) ≡ true
      → Memᴰ x xs
      → lookup (key x) (index_by xs) ≡ some x
  unfolding index_by
  lookup-index_by x xs h m = lookup-index_from x xs [] h m
