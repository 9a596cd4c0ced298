-- ===== src/Telemetry/Store/Newest.antt =====
-- What a store in memory holds after a series of saves, and what it answers.
use telconet_sentinel.Common.{
  ℕ, zero, suc, String, true, false, Option, none, some, List, [], ◌∷◌, ◌≡◌, refl, sym, ap, subst,
  ◌∙◌, inl, inr, arith, take, contains, all_distinct, Option-cases, keep_if, sort, insert_sorted,
  if◌then◌else◌,
}
use telconet_sentinel.Common.Keyed.{take-insert_sorted, sort-ordered, contains-sort, contains-take}
use telconet_sentinel.Common.Dict.{lookup, values}
use telconet_sentinel.Errors.{Result, ok, ◌>>=◌}
use telconet_sentinel.Telemetry.{TelemetrySnapshot}
use telconet_sentinel.Telemetry.Same.{same_snapshot_refl}
use telconet_sentinel.Telemetry.Store.{
  TelemetryStore, newest, snapshot_id_of, new, save, candidates, matches, greatest_from, greatest,
  latest, recent,
}
use telconet_sentinel.Telemetry.Store.Valid.{
  IsValid, Saved, ids, lookup-ids, save-Saved, newest_total, newest_trans,
}

-- The saves of some snapshots, from the last of the list to the first.
unfoldable pub saves : TelemetryStore → List TelemetrySnapshot → Result TelemetryStore
saves s [] = ok s
saves s (x ∷ xs) = saves s xs >>= λ t. save t x >>= λ r. ok r.0

keep_all : (xs : List TelemetrySnapshot) → keep_if (matches none) xs ≡ xs
unfolding keep_if
keep_all [] = refl
keep_all (x ∷ xs) = ap (λ ys. x ∷ ys) (keep_all xs)

recent-values : (s : TelemetryStore) → IsValid s → recent s none ≡ values s.snapshots
unfolding recent candidates
recent-values s valid =
    ap (sort newest) (keep_all (values s.snapshots))
    ∙ sort-ordered newest (values s.snapshots) valid.ordered

-- A store that was filled by saves of snapshots with different ids.
pub record Filled (cap : ℕ) (xs : List TelemetrySnapshot) (s : TelemetryStore) : Type 0 where
  pub valid : IsValid s
  pub capacity : s.capacity ≡ cap
  pub top : values s.snapshots ≡ take cap (sort newest xs)

fresh-lookup :
    (cap : ℕ) (xs : List TelemetrySnapshot) (s : TelemetryStore) (x : TelemetrySnapshot)
    → Filled cap xs s
    → contains x.snapshot_id (ids xs) ≡ false
    → lookup x.snapshot_id s.snapshots ≡ none
fresh-lookup cap xs s x filled new_id =
    let not_sorted = contains-sort newest snapshot_id_of x.snapshot_id xs ∙ new_id in
    let not_held =
      ap (λ ys. contains x.snapshot_id (ids ys)) filled.top
      ∙ contains-take newest snapshot_id_of cap x.snapshot_id (sort newest xs) not_sorted in
    let missing = lookup-ids s filled.valid x.snapshot_id ∙ not_held in
    elim (Option-cases (lookup x.snapshot_id s.snapshots)) [
      | inl absent ↦ absent
      | inr (y, found) ↦ absurd (ground arith)
    ]

Filled-cons :
    (cap : ℕ) (xs : List TelemetrySnapshot) (t u : TelemetryStore) (x : TelemetrySnapshot)
    → Filled cap xs t
    → Saved t x u
    → Filled cap (x ∷ xs) u
unfolding sort
Filled-cons cap xs t u x filled after = record {
  valid = after.valid;
  capacity = after.capacity ∙ filled.capacity;
  top =
      after.kept
      ∙ ap (λ n. take n (insert_sorted newest x (values t.snapshots))) filled.capacity
      ∙ ap (λ ys. take cap (insert_sorted newest x ys)) filled.top
      ∙ take-insert_sorted newest cap x (sort newest xs);
}

pub saves-Filled :
    (cap : ℕ) (s : TelemetryStore) (xs : List TelemetrySnapshot)
    → Filled cap [] s
    → all_distinct (ids xs) ≡ true
    → (t : TelemetryStore) × (saves s xs ≡ ok t) × Filled cap xs t
unfolding saves all_distinct
saves-Filled cap s [] empty distinct = (s, refl, empty)
saves-Filled cap s (x ∷ xs) empty distinct =
    let (t, done, filled) = saves-Filled cap s xs empty (ground arith) in
    let (r, saved, after) =
      save-Saved t x filled.valid (fresh-lookup cap xs t x filled (ground arith)) in
    (r.0, rw (done, saved) refl, Filled-cons cap xs t r.0 x filled after)

take-nil : (n : ℕ) → take {A = TelemetrySnapshot} n [] ≡ []
take-nil zero = refl
take-nil (suc n) = refl

pub new-Filled : (cap : ℕ) (s : TelemetryStore) → new cap ≡ ok s → Filled cap [] s
unfolding new sort all_distinct
new-Filled cap s made =
    let same : record { capacity = cap; snapshots = [] } ≡ s = ground arith in
    subst (Filled cap []) same (record {
      valid = record {
        positive = ground arith;
        size = omega arith;
        keyed = refl;
        distinct = refl;
        ordered = tt;
      };
      capacity = refl;
      top = sym (take-nil cap);
    })

-- A store of a positive capacity takes every series of snapshots with different ids, and then the
-- recent snapshots are the newest of them, as many as the capacity.
pub saves-Newest :
    (cap : ℕ) (s : TelemetryStore) (xs : List TelemetrySnapshot)
    → new cap ≡ ok s
    → all_distinct (ids xs) ≡ true
    → (t : TelemetryStore) × (saves s xs ≡ ok t) × (recent t none ≡ take cap (sort newest xs))
saves-Newest cap s xs made distinct =
    let (t, done, filled) = saves-Filled cap s xs (new-Filled cap s made) distinct in
    (t, done, recent-values t filled.valid ∙ filled.top)

-- A second save of a snapshot that a valid store holds changes nothing.
pub save-held :
    (s : TelemetryStore) (x : TelemetrySnapshot)
    → lookup x.snapshot_id s.snapshots ≡ some x
    → save s x ≡ ok (s, false)
unfolding save
save-held s x held = ground (arith, same_snapshot_refl x)

-- The first entry after an insertion.
first_of_two : TelemetrySnapshot → List TelemetrySnapshot → TelemetrySnapshot
first_of_two x [] = x
first_of_two x (y ∷ ys) = if newest x y then x else y

first_of_two-insert_sorted :
    (best x : TelemetrySnapshot) (xs : List TelemetrySnapshot)
    → first_of_two best (insert_sorted newest x xs)
      ≡ (if newest best x then first_of_two best xs else first_of_two x xs)
unfolding first_of_two insert_sorted
first_of_two-insert_sorted best x [] = refl
first_of_two-insert_sorted best x (y ∷ ys) =
    ground (arith, newest_trans best x y, newest_total x y, newest_trans best y x)

greatest_from-first_of_two :
    (best : TelemetrySnapshot) (xs : List TelemetrySnapshot)
    → greatest_from best xs ≡ first_of_two best (sort newest xs)
unfolding greatest_from first_of_two sort
greatest_from-first_of_two best [] = refl
greatest_from-first_of_two best (x ∷ xs) = ground (
  arith,
  greatest_from-first_of_two best xs,
  greatest_from-first_of_two x xs,
  first_of_two-insert_sorted best x (sort newest xs),
)

-- The first of a list.
abbrev pub first_snapshot : List TelemetrySnapshot → Option TelemetrySnapshot
first_snapshot [] = none
first_snapshot (x ∷ xs) = some x

first_snapshot-insert_sorted :
    (x : TelemetrySnapshot) (xs : List TelemetrySnapshot)
    → first_snapshot (insert_sorted newest x xs) ≡ some (first_of_two x xs)
unfolding first_of_two insert_sorted
first_snapshot-insert_sorted x [] = refl
first_snapshot-insert_sorted x (y ∷ ys) = ground arith

greatest-eq-first : (xs : List TelemetrySnapshot) → greatest xs ≡ first_snapshot (sort newest xs)
unfolding greatest sort
greatest-eq-first [] = refl
greatest-eq-first (x ∷ xs) =
    ap some (greatest_from-first_of_two x xs)
    ∙ sym (first_snapshot-insert_sorted x (sort newest xs))

-- The latest snapshot, of a topology or of all, is the first of the recent ones.
pub latest-eq-recent :
    (s : TelemetryStore) (fingerprint : Option String)
    → latest s fingerprint ≡ first_snapshot (recent s fingerprint)
unfolding latest recent
latest-eq-recent s fingerprint = greatest-eq-first (candidates s fingerprint)
