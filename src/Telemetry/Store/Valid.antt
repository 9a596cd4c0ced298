-- ===== src/Telemetry/Store/Valid.antt =====
-- The invariant of the store in memory, and what a save leaves in it.
use mathlib.Core.List.Memᴰ
use telconet_sentinel.Common.{
  suc, ◌≤◌, String, Bool, true, false, ◌&&◌, none, List, [], ◌∷◌, ◌++◌, map, Memᴰ, ◌≡◌, refl, sym,
  ap, subst, ◌∙◌, inl, inr, arith, leb, length, length-take, take, contains, all_distinct,
  Bool-cases, eq_iff, name_leb_total, name_leb_trans, name_leb_antisym, sort, insert_sorted,
  IsOrdered, insert_sorted-IsOrdered, ◌==◌, if◌then◌else◌,
}
use telconet_sentinel.Common.Keyed.{
  IsOrdered-take, all_distinct-take, all_distinct-sort, sort-append_one, insert_sorted-last,
  take-append_one,
}
use telconet_sentinel.Common.Dict.{
  Dict, lookup, insert, keys, values, is_some, contains-keys, insert_new-append,
}
use telconet_sentinel.Common.Dict.Index.{index_by, index_by-map, with_key}
use telconet_sentinel.Errors.{ok}
use telconet_sentinel.Telemetry.{TelemetrySnapshot}
use telconet_sentinel.Telemetry.Store.{
  TelemetryStore, key_leb, newest, snapshot_id_of, least_from, oldest, is_too_old, retain, save,
  new,
}

key_leb_total : (a b : TelemetrySnapshot) → key_leb a b ≡ false → key_leb b a ≡ true
unfolding key_leb
key_leb_total a b h = ground (arith, name_leb_total a.snapshot_id b.snapshot_id)

pub key_leb_trans :
    (a b c : TelemetrySnapshot) → key_leb a b ≡ true → key_leb b c ≡ true → key_leb a c ≡ true
unfolding key_leb
key_leb_trans a b c h k = ground (arith, name_leb_trans a.snapshot_id b.snapshot_id c.snapshot_id)

pub newest_total : (a b : TelemetrySnapshot) → newest a b ≡ false → newest b a ≡ true
newest_total a b h = key_leb_total b a h

pub newest_trans :
    (a b c : TelemetrySnapshot) → newest a b ≡ true → newest b c ≡ true → newest a c ≡ true
newest_trans a b c h k = key_leb_trans c b a k h

pub newest_antisym :
    (a b : TelemetrySnapshot)
    → newest a b ≡ true
    → newest b a ≡ true
    → snapshot_id_of a ≡ snapshot_id_of b
unfolding key_leb
newest_antisym a b h k = name_leb_antisym a.snapshot_id b.snapshot_id (ground arith) (ground arith)

abbrev pub ids : List TelemetrySnapshot → List String
ids = map snapshot_id_of

-- At most as many snapshots as the capacity, under their ids, the newest first.
pub record IsValid (s : TelemetryStore) : Type 0 where
  pub positive : 1 ≤ s.capacity
  pub size : length (values s.snapshots) ≤ s.capacity
  pub keyed : s.snapshots ≡ map (with_key snapshot_id_of) (values s.snapshots)
  pub distinct : all_distinct (ids (values s.snapshots)) ≡ true
  pub ordered : IsOrdered newest (values s.snapshots)

pub values-map-with_key :
    (xs : List TelemetrySnapshot) → values (map (with_key snapshot_id_of) xs) ≡ xs
values-map-with_key [] = refl
values-map-with_key (x ∷ xs) = ap (λ ys. x ∷ ys) (values-map-with_key xs)

keys-map-with_key : (xs : List TelemetrySnapshot) → keys (map (with_key snapshot_id_of) xs) ≡ ids xs
keys-map-with_key [] = refl
keys-map-with_key (x ∷ xs) = ap (λ ks. x.snapshot_id ∷ ks) (keys-map-with_key xs)

values-append_one :
    (d : Dict TelemetrySnapshot) (k : String) (x : TelemetrySnapshot)
    → values (d ++ (k, x) ∷ []) ≡ values d ++ x ∷ []
values-append_one [] k x = refl
values-append_one ((j, y) ∷ d) k x = ap (λ ys. y ∷ ys) (values-append_one d k x)

contains-ids-append_one :
    (k : String) (x : TelemetrySnapshot) (xs : List TelemetrySnapshot)
    → contains k (ids (xs ++ x ∷ [])) ≡ (if x.snapshot_id == k then true else contains k (ids xs))
unfolding contains
contains-ids-append_one k x [] = refl
contains-ids-append_one k x (y ∷ ys) = ground (arith, contains-ids-append_one k x ys)

all_distinct-append_one :
    (xs : List TelemetrySnapshot) (x : TelemetrySnapshot)
    → all_distinct (ids xs) ≡ true
    → contains x.snapshot_id (ids xs) ≡ false
    → all_distinct (ids (xs ++ x ∷ [])) ≡ true
unfolding all_distinct contains
all_distinct-append_one [] x h new = refl
all_distinct-append_one (y ∷ ys) x h new = ground (
  arith,
  all_distinct-append_one ys x,
  contains-ids-append_one y.snapshot_id x ys,
  eq_iff y.snapshot_id x.snapshot_id,
  eq_iff x.snapshot_id y.snapshot_id,
)

length-values : (d : Dict TelemetrySnapshot) → length (values d) ≡ length d
length-values [] = refl
length-values ((k, x) ∷ d) = ap suc (length-values d)

-- A store finds the ids of its snapshots.
pub lookup-ids :
    (s : TelemetryStore)
    → IsValid s
    → (k : String) → is_some (lookup k s.snapshots) ≡ contains k (ids (values s.snapshots))
lookup-ids s valid k =
    sym (contains-keys k s.snapshots)
    ∙ ap (λ d. contains k (keys d)) valid.keyed
    ∙ ap (contains k) (keys-map-with_key (values s.snapshots))

least_from-Least :
    (best : TelemetrySnapshot) (xs : List TelemetrySnapshot)
    → (key_leb (least_from best xs) best ≡ true)
      × ((y : TelemetrySnapshot) → Memᴰ y xs → key_leb (least_from best xs) y ≡ true)
unfolding least_from
least_from-Least best [] = (ground (arith, key_leb_total best best), λ y m. absurd (Memᴰ.not-nil m))
least_from-Least best (x ∷ xs) = elim (Bool-cases (key_leb best x)) [
  | inl below ↦
      let (first, rest) = least_from-Least best xs in
      rw below (
        first,
        λ y m. elim (Memᴰ.cases_cons m) [
          | inl same ↦
              ap (key_leb (least_from best xs)) same
              ∙ key_leb_trans (least_from best xs) best x first below
          | inr later ↦ rest y later
        ],
      )
  | inr above ↦
      let (first, rest) = least_from-Least x xs in
      rw above (
        key_leb_trans (least_from x xs) x best first (key_leb_total best x above),
        λ y m. elim (Memᴰ.cases_cons m) [
          | inl same ↦ ap (key_leb (least_from x xs)) same ∙ first
          | inr later ↦ rest y later
        ],
      )
]

-- What is too old for a store is older than all of its snapshots.
too_old_below :
    (x : TelemetrySnapshot) (xs : List TelemetrySnapshot)
    → is_too_old x (oldest xs) ≡ true
    → (y : TelemetrySnapshot) → Memᴰ y xs
    → newest y x ≡ true
unfolding oldest
too_old_below x [] h y m = absurd (Memᴰ.not-nil m)
too_old_below x (z ∷ zs) h y m =
    let (first, rest) = least_from-Least z zs in
    elim (Memᴰ.cases_cons m) [
      | inl same ↦ ap (λ w. key_leb x w) same ∙ key_leb_trans x (least_from z zs) z h first
      | inr later ↦ key_leb_trans x (least_from z zs) y h (rest y later)
    ]

-- What a save of a new snapshot leaves: the first of the snapshots with the new one in its place.
pub record Saved (s : TelemetryStore) (x : TelemetrySnapshot) (s' : TelemetryStore) : Type 0 where
  pub valid : IsValid s'
  pub capacity : s'.capacity ≡ s.capacity
  pub kept : values s'.snapshots ≡ take s.capacity (insert_sorted newest x (values s.snapshots))

module _ (s : TelemetryStore) (x : TelemetrySnapshot) (valid : IsValid s)
    (fresh : lookup x.snapshot_id s.snapshots ≡ none) where
  abbrev top : List TelemetrySnapshot
  top = take s.capacity (insert_sorted newest x (values s.snapshots))

  fresh_id : contains x.snapshot_id (ids (values s.snapshots)) ≡ false
  fresh_id = ground (arith, lookup-ids s valid x.snapshot_id)

  appended : values (insert x.snapshot_id x s.snapshots) ≡ values s.snapshots ++ x ∷ []
  appended =
      ap values (insert_new-append x.snapshot_id x s.snapshots fresh)
      ∙ values-append_one s.snapshots x.snapshot_id x

  all_distinct_appended : all_distinct (ids (values s.snapshots ++ x ∷ [])) ≡ true
  all_distinct_appended = all_distinct-append_one (values s.snapshots) x valid.distinct fresh_id

  retained : take s.capacity (sort newest (values (insert x.snapshot_id x s.snapshots))) ≡ top
  retained =
      ap (λ xs. take s.capacity (sort newest xs)) appended
      ∙ ap (take s.capacity) (
          sort-append_one newest newest_total newest_trans snapshot_id_of newest_antisym
            (values s.snapshots) x valid.ordered fresh_id)

  top_distinct : all_distinct (ids top) ≡ true
  top_distinct =
      subst (λ xs. all_distinct (ids xs) ≡ true) retained
        (all_distinct-take newest snapshot_id_of s.capacity
          (sort newest (values (insert x.snapshot_id x s.snapshots)))
          (all_distinct-sort newest snapshot_id_of (values (insert x.snapshot_id x s.snapshots))
            (subst (λ xs. all_distinct (ids xs) ≡ true) (sym appended) all_distinct_appended)))

  retain-Saved : Saved s x (retain s x)
  unfolding retain
  retain-Saved =
      let indexed =
        ap (index_by snapshot_id_of) retained ∙ index_by-map snapshot_id_of top top_distinct in
      let kept = ap values indexed ∙ values-map-with_key top in
      let sized = length-take s.capacity (insert_sorted newest x (values s.snapshots)) in
      record {
        valid = record {
          positive = valid.positive;
          size = subst (λ xs. length xs ≤ s.capacity) (sym kept) (omega (arith, sized));
          keyed = indexed ∙ ap (map (with_key snapshot_id_of)) (sym kept);
          distinct = subst (λ xs. all_distinct (ids xs) ≡ true) (sym kept) top_distinct;
          ordered = subst (IsOrdered newest) (sym kept) (
              IsOrdered-take newest s.capacity (insert_sorted newest x (values s.snapshots)) (
                insert_sorted-IsOrdered newest newest_total newest_trans x (values s.snapshots)
                  valid.ordered));
        };
        capacity = refl;
        kept = kept;
      }

  too_old-Saved :
      leb s.capacity (length s.snapshots) ≡ true
      → is_too_old x (oldest (values s.snapshots)) ≡ true
      → Saved s x s
  too_old-Saved full old =
      let all_there : length (values s.snapshots) ≡ s.capacity =
        ground (arith, valid.size, length-values s.snapshots) in
      let at_end =
        insert_sorted-last newest newest_total newest_trans snapshot_id_of newest_antisym x
          (values s.snapshots) (too_old_below x (values s.snapshots) old) fresh_id in
      record {
        valid = valid;
        capacity = refl;
        kept =
            sym (take-append_one (values s.snapshots) x)
            ∙ ap (λ n. take n (values s.snapshots ++ x ∷ [])) all_there
            ∙ ap (take s.capacity) (sym at_end);
      }

  abbrev ignored : Bool
  ignored = leb s.capacity (length s.snapshots) && is_too_old x (oldest (values s.snapshots))

  -- A save of a snapshot with a new id returns.
  pub save-Saved : (r : TelemetryStore × Bool) × (save s x ≡ ok r) × Saved s x r.0
  unfolding save
  save-Saved = elim (Bool-cases ignored) [
    | inl old ↦ ((s, false), ground arith, too_old-Saved (ground arith) (ground arith))
    | inr young ↦ ((retain s x, true), ground arith, retain-Saved)
  ]
