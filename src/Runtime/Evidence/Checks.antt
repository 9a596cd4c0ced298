-- ===== src/Runtime/Evidence/Checks.antt =====
-- The checks of one scenario: how many there are, and when all of them pass.
use mathlib.Core.List.Memᴰ
use telconet_sentinel.Common.{
  ℕ, ◌+◌, ◌*◌, ◌≤◌, String, Bool, true, false, not, Option, none, some, List, [], ◌∷◌, ◌++◌, map,
  Memᴰ, ◌≡◌, refl, sym, ap, subst, ◌∙◌, inl, inr, ◌↔◌, arith, length, length-append, count_if,
  if◌then◌else◌,
}
use telconet_sentinel.Common.Dict.{Dict, lookup, is_some}
use telconet_sentinel.Common.Dict.Index.{with_key}
use telconet_sentinel.Errors.{ok, >>=-eq-ok, ok-injective, or_raise, or_raise-eq-ok, missing_key}
use telconet_sentinel.Runtime.{
  RuntimePathExpectation, RuntimePathObservation, expected_node, differ,
}
use telconet_sentinel.Runtime.Evidence.{
  same_metric, RuntimeCheck, is_passed, compare, path_checks, scenario_checks,
}

-- An observed path is as the plan expects it.
pub record Met (p : RuntimePathExpectation) (q : RuntimePathObservation) : Type 0 where
  pub fault_metric : q.fault_metric ≡ p.fault_metric
  pub fault_reachable : q.fault_reachable ≡ is_some p.fault_metric
  pub restored_metric : q.restored_metric ≡ some p.baseline_metric
  pub restored_reachable : q.restored_reachable ≡ true

pub some-injective {ℓ} : {A : Type ℓ} {a b : A} → some a ≡ some b → a ≡ b
some-injective h = cc

same_metric_iff : (a b : Option ℕ) → (same_metric a b ≡ true) ↔ (b ≡ a)
same_metric_iff none none = (λ _. refl, λ _. refl)
same_metric_iff none (some b) = (λ h. absurd (ground arith), λ h. cc)
same_metric_iff (some a) none = (λ h. absurd (ground arith), λ h. cc)
same_metric_iff (some a) (some b) =
    (λ h. ap some (ground arith), λ h. ground (arith, some-injective h))

same_answer_iff : (a b : Bool) → (not (differ a b) ≡ true) ↔ (b ≡ a)
same_answer_iff true true = (λ _. refl, λ _. refl)
same_answer_iff true false = (λ h. cc, λ h. cc)
same_answer_iff false true = (λ h. cc, λ h. cc)
same_answer_iff false false = (λ _. refl, λ _. refl)

bit : Bool → ℕ
bit b = if b then 1 else 0

four_bits :
    (a b c d : Bool)
    → (bit a + (bit b + (bit c + (bit d + 0))) ≤ 4)
      × ((bit a + (bit b + (bit c + (bit d + 0))) ≡ 4)
          ↔ ((a ≡ true) × (b ≡ true) × (c ≡ true) × (d ≡ true)))
unfolding bit
four_bits a b c d = ground arith

path_checks-passed :
    (name : String) (p : RuntimePathExpectation) (q : RuntimePathObservation)
    → (count_if is_passed (path_checks name p q) ≤ 4)
      × ((count_if is_passed (path_checks name p q) ≡ 4) ↔ Met p q)
unfolding path_checks compare count_if bit
path_checks-passed name p q =
    let (most, all) =
      four_bits (same_metric p.fault_metric q.fault_metric)
        (not (differ (is_some p.fault_metric) q.fault_reachable))
        (same_metric (some p.baseline_metric) q.restored_metric)
        (not (differ true q.restored_reachable)) in
    let same_fault = same_metric_iff p.fault_metric q.fault_metric in
    let same_reach = same_answer_iff (is_some p.fault_metric) q.fault_reachable in
    let same_baseline = same_metric_iff (some p.baseline_metric) q.restored_metric in
    let same_restored = same_answer_iff true q.restored_reachable in
    (
      most,
      (
        λ h.
            let (a, b, c, d) = all.0 h in
            record {
              fault_metric = same_fault.0 a;
              fault_reachable = same_reach.0 b;
              restored_metric = same_baseline.0 c;
              restored_reachable = same_restored.0 d;
            },
        λ met. all.1 (
          same_fault.1 met.fault_metric,
          same_reach.1 met.fault_reachable,
          same_baseline.1 met.restored_metric,
          same_restored.1 met.restored_reachable,
        ),
      ),
    )

length-path_checks :
    (name : String) (p : RuntimePathExpectation) (q : RuntimePathObservation)
    → length (path_checks name p q) ≡ 4
unfolding path_checks
length-path_checks name p q = refl

count_if-append {ℓ} :
    {A : Type ℓ} (f : A → Bool) (xs ys : List A)
    → count_if f (xs ++ ys) ≡ count_if f xs + count_if f ys
unfolding count_if
count_if-append f [] ys = omega arith
count_if-append f (x ∷ xs) ys = omega (arith, count_if-append f xs ys)

-- The path that is expected of a node was observed, and met what was expected.
abbrev pub IsMet : Dict RuntimePathObservation → RuntimePathExpectation → Type 0
IsMet observed p = (q : RuntimePathObservation) × (lookup p.access_node observed ≡ some q) × Met p q

pub record Checked (observed : Dict RuntimePathObservation) (paths : List RuntimePathExpectation)
    (checks : List RuntimeCheck) : Type 0 where
  pub size : length checks ≡ 4 * length paths
  pub bounded : count_if is_passed checks ≤ length checks
  pub exact :
      (count_if is_passed checks ≡ length checks)
      ↔ ((p : RuntimePathExpectation) → Memᴰ p paths → IsMet observed p)

pub both_full : (a b m n : ℕ) → a ≤ m → b ≤ n → (a + b ≡ m + n) ↔ ((a ≡ m) × (b ≡ n))
both_full a b m n h k = ground arith

Checked-cons :
    (observed : Dict RuntimePathObservation) (p : RuntimePathExpectation)
    (ps : List RuntimePathExpectation) (q : RuntimePathObservation) (rest : List RuntimeCheck)
    → lookup p.access_node observed ≡ some q
    → Checked observed ps rest
    → Checked observed (p ∷ ps) (path_checks p.access_node p q ++ rest)
Checked-cons observed p ps q rest there later =
    let (most, all) = path_checks-passed p.access_node p q in
    let counted = count_if-append is_passed (path_checks p.access_node p q) rest in
    let sized = length-append (path_checks p.access_node p q) rest in
    let four = length-path_checks p.access_node p q in
    let full =
      both_full (count_if is_passed (path_checks p.access_node p q)) (count_if is_passed rest) 4
        (length rest) most later.bounded in
    record {
      size = omega (arith, sized, four, later.size);
      bounded = omega (arith, sized, four, counted, later.bounded, most);
      exact = (
        λ h p' m.
            let (here, there') = full.0 (omega (arith, h, counted, sized, four)) in
            elim (Memᴰ.cases_cons m) [
              | inl same ↦ subst (IsMet observed) (sym same) (q, there, all.0 here)
              | inr m' ↦ later.exact.0 there' p' m'
            ],
        λ each.
            let (q', found, met) = each p (Memᴰ.head refl) in
            let same : q' ≡ q = some-injective (sym found ∙ there) in
            let h =
              full.1
                (all.1 (subst (Met p) same met), later.exact.1 (λ p' m. each p' (Memᴰ.tail m))) in
            omega (arith, h, counted, sized, four),
      );
    }

pub scenario_checks-Checked :
    (observed : Dict RuntimePathObservation) (paths : List RuntimePathExpectation)
    (checks : List RuntimeCheck)
    → scenario_checks observed (map (with_key expected_node) paths) ≡ ok checks
    → Checked observed paths checks
unfolding scenario_checks count_if
scenario_checks-Checked observed [] checks h =
    let nothing : [] ≡ checks = ok-injective h in
    subst (Checked observed []) nothing (record {
      size = refl;
      bounded = omega arith;
      exact = (λ _ p m. absurd (Memᴰ.not-nil m), λ _. refl);
    })
scenario_checks-Checked observed (p ∷ ps) checks h =
    let (q, found, h₁) =
      >>=-eq-ok (or_raise (lookup p.access_node observed) (missing_key p.access_node)) _ h in
    let (rest, made, h₂) =
      >>=-eq-ok (scenario_checks observed (map (with_key expected_node) ps)) _ h₁ in
    let there =
      or_raise-eq-ok (lookup p.access_node observed) (missing_key p.access_node) q found in
    subst (Checked observed (p ∷ ps)) (ok-injective h₂)
      (Checked-cons observed p ps q rest there (scenario_checks-Checked observed ps rest made))
