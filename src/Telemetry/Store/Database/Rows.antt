-- ===== src/Telemetry/Store/Database/Rows.antt =====
-- The rows of snapshots: sorts, selections and deletions of rows are those of the snapshots.
use mathlib.Core.List.Memᴰ
use telconet_sentinel.Common.{
  ℕ, zero, suc, String, Bool, true, false, none, List, [], ◌∷◌, map, Memᴰ, ◌≡◌, refl, sym, ap, ◌∙◌,
  inl, inr, arith, take, keep_if, Memᴰ-keep_if, contains, contains-mem, all_distinct, Bool-cases,
  eq_iff, eq_refl, sort, insert_sorted, IsOrdered, sort-IsOrdered,
}
use telconet_sentinel.Common.Keyed.{insert_sorted-first, all_distinct-sort}
use telconet_sentinel.Telemetry.{TelemetrySnapshot}
use telconet_sentinel.Telemetry.Store.{key_leb, newest, snapshot_id_of}
use telconet_sentinel.Telemetry.Store.Valid.{ids, newest_total, newest_trans}
use telconet_sentinel.Telemetry.Store.Database.{
  SnapshotRow, row_leb, newest_row, row_id, payload_of, row_of, retained_ids, delete_others,
  select_payload,
}

module _ {ℓ} {A : Type ℓ} where
  keep_if-same :
      (p q : A → Bool) (xs : List A)
      → ((x : A) → Memᴰ x xs → p x ≡ q x)
      → keep_if p xs ≡ keep_if q xs
  unfolding keep_if
  keep_if-same p q [] h = refl
  keep_if-same p q (x ∷ xs) h =
      ground (arith, h x (Memᴰ.head refl), keep_if-same p q xs (λ y m. h y (Memᴰ.tail m)))

  module _ (le : A → A → Bool) (total : (a b : A) → le a b ≡ false → le b a ≡ true)
      (trans : (a b c : A) → le a b ≡ true → le b c ≡ true → le a c ≡ true) (p : A → Bool) where
    keep_if-insert_kept :
        (x : A) (xs : List A)
        → p x ≡ true
        → IsOrdered le xs
        → keep_if p (insert_sorted le x xs) ≡ insert_sorted le x (keep_if p xs)
    unfolding keep_if insert_sorted
    keep_if-insert_kept x [] kept h = rw kept refl
    keep_if-insert_kept x (y ∷ ys) kept h = elim (Bool-cases (le x y)) [
      | inl before ↦
          let first = insert_sorted-first le x (keep_if p (y ∷ ys)) (λ z m.
            elim (Memᴰ.cases_cons ((Memᴰ-keep_if p z (y ∷ ys)).0 m).0) [
              | inl same ↦ ap (le x) same ∙ before
              | inr later ↦ trans x y z before (h.0 z later)
            ]) in
          ground (arith, first)
      | inr after ↦ ground (arith, keep_if-insert_kept x ys kept h.1)
    ]

    keep_if-insert_dropped :
        (x : A) (xs : List A) → p x ≡ false → keep_if p (insert_sorted le x xs) ≡ keep_if p xs
    unfolding keep_if insert_sorted
    keep_if-insert_dropped x [] dropped = rw dropped refl
    keep_if-insert_dropped x (y ∷ ys) dropped = ground (arith, keep_if-insert_dropped x ys)

    -- A sort of what is kept keeps the same of the sorted list.
    pub sort-keep_if : (xs : List A) → sort le (keep_if p xs) ≡ keep_if p (sort le xs)
    unfolding keep_if sort
    sort-keep_if [] = refl
    sort-keep_if (x ∷ xs) =
        let ordered = sort-IsOrdered le total trans xs in
        elim (Bool-cases (p x)) [
          | inl kept ↦ rw kept (
              ap (insert_sorted le x) (sort-keep_if xs)
              ∙ sym (keep_if-insert_kept x (sort le xs) kept ordered))
          | inr dropped ↦
              rw dropped (sort-keep_if xs ∙ sym (keep_if-insert_dropped x (sort le xs) dropped))
        ]

    pub IsOrdered-keep_if : (xs : List A) → IsOrdered le xs → IsOrdered le (keep_if p xs)
    unfolding keep_if
    IsOrdered-keep_if [] h = tt
    IsOrdered-keep_if (x ∷ xs) h = elim (Bool-cases (p x)) [
      | inl kept ↦ rw kept (λ y m. h.0 y ((Memᴰ-keep_if p y xs).0 m).0, IsOrdered-keep_if xs h.1)
      | inr dropped ↦ rw dropped (IsOrdered-keep_if xs h.1)
    ]

keep_if-none :
    (xs : List TelemetrySnapshot)
    → keep_if (λ (s : TelemetrySnapshot). contains s.snapshot_id []) xs ≡ []
unfolding keep_if contains
keep_if-none [] = refl
keep_if-none (x ∷ xs) = keep_if-none xs

-- The ids of the first entries pick these entries.
pub keep_if-take :
    (n : ℕ) (xs : List TelemetrySnapshot)
    → all_distinct (ids xs) ≡ true
    → keep_if (λ (s : TelemetrySnapshot). contains s.snapshot_id (ids (take n xs))) xs ≡ take n xs
unfolding keep_if all_distinct contains
keep_if-take zero xs h = keep_if-none xs
keep_if-take (suc n) [] h = refl
keep_if-take (suc n) (x ∷ xs) h =
    let rest = keep_if-take n xs (ground arith) in
    let same =
      keep_if-same (λ (s : TelemetrySnapshot). contains s.snapshot_id (ids (take (suc n) (x ∷ xs))))
        (λ (s : TelemetrySnapshot). contains s.snapshot_id (ids (take n xs))) xs
        (λ s m.
          let listed = (contains-mem s.snapshot_id (ids xs)).1 (Memᴰ.map snapshot_id_of m) in
          ground (arith, listed, eq_iff x.snapshot_id s.snapshot_id)) in
    rw (eq_refl x.snapshot_id) (ap (λ ys. x ∷ ys) (same ∙ rest))

insert_sorted-row_of :
    (s : TelemetrySnapshot) (xs : List TelemetrySnapshot)
    → insert_sorted newest_row (row_of s) (map row_of xs) ≡ map row_of (insert_sorted newest s xs)
unfolding insert_sorted row_leb key_leb
insert_sorted-row_of s [] = refl
insert_sorted-row_of s (x ∷ xs) = ground (arith, insert_sorted-row_of s xs)

pub sort-row_of :
    (xs : List TelemetrySnapshot) → sort newest_row (map row_of xs) ≡ map row_of (sort newest xs)
unfolding sort
sort-row_of [] = refl
sort-row_of (x ∷ xs) =
    ap (insert_sorted newest_row (row_of x)) (sort-row_of xs)
    ∙ insert_sorted-row_of x (sort newest xs)

keep_if-row_of :
    (names : List String) (xs : List TelemetrySnapshot)
    → keep_if (λ (r : SnapshotRow). contains r.snapshot_id names) (map row_of xs)
      ≡ map row_of (keep_if (λ (s : TelemetrySnapshot). contains s.snapshot_id names) xs)
unfolding keep_if
keep_if-row_of names [] = refl
keep_if-row_of names (x ∷ xs) = ground (arith, keep_if-row_of names xs)

take-row_of :
    (n : ℕ) (xs : List TelemetrySnapshot) → take n (map row_of xs) ≡ map row_of (take n xs)
take-row_of zero xs = refl
take-row_of (suc n) [] = refl
take-row_of (suc n) (x ∷ xs) = ap (λ rs. row_of x ∷ rs) (take-row_of n xs)

row_ids : (xs : List TelemetrySnapshot) → map row_id (map row_of xs) ≡ ids xs
row_ids [] = refl
row_ids (x ∷ xs) = ap (λ ks. x.snapshot_id ∷ ks) (row_ids xs)

-- The snapshots whose rows a deletion leaves.
abbrev pub left_by : ℕ → List TelemetrySnapshot → List TelemetrySnapshot
left_by n xs =
    keep_if (λ (s : TelemetrySnapshot). contains s.snapshot_id (ids (take n (sort newest xs)))) xs

pub delete_others-row_of :
    (n : ℕ) (xs : List TelemetrySnapshot)
    → delete_others n (map row_of xs) ≡ map row_of (left_by n xs)
unfolding delete_others retained_ids
delete_others-row_of n xs =
    ap (λ names. keep_if (λ (r : SnapshotRow). contains r.snapshot_id names) (map row_of xs))
      (ap (λ rs. map row_id (take n rs)) (sort-row_of xs)
        ∙ ap (map row_id) (take-row_of n (sort newest xs))
        ∙ row_ids (take n (sort newest xs)))
    ∙ keep_if-row_of (ids (take n (sort newest xs))) xs

-- A deletion leaves the newest.
pub sort-left_by :
    (n : ℕ) (xs : List TelemetrySnapshot)
    → all_distinct (ids xs) ≡ true
    → sort newest (left_by n xs) ≡ take n (sort newest xs)
sort-left_by n xs h =
    sort-keep_if newest newest_total newest_trans
      (λ s. contains s.snapshot_id (ids (take n (sort newest xs)))) xs
    ∙ keep_if-take n (sort newest xs) (all_distinct-sort newest snapshot_id_of xs h)

contains-keep_if :
    (p : TelemetrySnapshot → Bool) (k : String) (xs : List TelemetrySnapshot)
    → contains k (ids xs) ≡ false
    → contains k (ids (keep_if p xs)) ≡ false
unfolding keep_if contains
contains-keep_if p k [] h = refl
contains-keep_if p k (x ∷ xs) h = ground (arith, contains-keep_if p k xs)

pub all_distinct-keep_if :
    (p : TelemetrySnapshot → Bool) (xs : List TelemetrySnapshot)
    → all_distinct (ids xs) ≡ true
    → all_distinct (ids (keep_if p xs)) ≡ true
unfolding keep_if all_distinct
all_distinct-keep_if p [] h = refl
all_distinct-keep_if p (x ∷ xs) h =
    ground (arith, all_distinct-keep_if p xs, contains-keep_if p x.snapshot_id xs)

pub select_payload-none :
    (k : String) (xs : List TelemetrySnapshot)
    → contains k (ids xs) ≡ false
    → select_payload k (map row_of xs) ≡ none
unfolding select_payload contains
select_payload-none k [] h = refl
select_payload-none k (x ∷ xs) h = ground (arith, select_payload-none k xs)

pub payloads : (xs : List TelemetrySnapshot) → map payload_of (map row_of xs) ≡ xs
payloads [] = refl
payloads (x ∷ xs) = ap (λ ys. x ∷ ys) (payloads xs)
