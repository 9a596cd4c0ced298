-- ===== src/Convergence/Runs.antt =====
-- The events of a run: what `validate_event` keeps, and when a run is complete.
use mathlib.Core.List.Memᴰ
use telconet_sentinel.Common.{
  Bool, true, false, not, ◌||◌, List, [], ◌∷◌, ◌++◌, Memᴰ, ◌≡◌, refl, sym, ap, subst, ◌∙◌, inl, inr,
  ◌↔◌, arith, IsOrdered, is_empty, any, last, Bool-cases, ◌==◌, eq_iff, eq_refl, any-mem,
  any_of_mem,
}
use telconet_sentinel.Common.Int.{pos, ltb_ℤ, leb_ℤ}
use telconet_sentinel.Errors.{ok, ok-injective}
use telconet_sentinel.Convergence.{
  ConvergenceEventKind, blackhole_injected, value, same_kind, ConvergenceEvent, ConvergenceRun,
  has_kind, kinds, same_set, required_events, status, is_earlier,
}

abbrev pub offset_leb : ConvergenceEvent → ConvergenceEvent → Bool
offset_leb a b = leb_ℤ a.offset_ms b.offset_ms

-- No kind is recorded twice.
abbrev pub IsOnce : List ConvergenceEventKind → Type 0
IsOnce [] = Unit
IsOnce (k ∷ ks) = (has_kind k ks ≡ false) × IsOnce ks

abbrev pub StartsWithInjection : List ConvergenceEvent → Type 0
StartsWithInjection [] = Unit
StartsWithInjection (e ∷ es) = same_kind e.kind blackhole_injected ≡ true

-- The events of a run of a profile whose events are `required`.
pub record IsTrace (required : List ConvergenceEventKind) (es : List ConvergenceEvent)
    : Type 0 where
  pub ordered : IsOrdered offset_leb es
  pub once : IsOnce (kinds es)
  pub starts : StartsWithInjection es
  pub in_profile :
      (k : ConvergenceEventKind) → has_kind k (kinds es) ≡ true → has_kind k required ≡ true

-- What an accepted event satisfies.
pub record IsAccepted (run : ConvergenceRun) (required : List ConvergenceEventKind)
    (e : ConvergenceEvent) : Type 0 where
  pub positive : ltb_ℤ e.offset_ms (pos 0) ≡ false
  pub in_profile : has_kind e.kind required ≡ true
  pub first : is_empty run.events ≡ true → same_kind e.kind blackhole_injected ≡ true
  pub new : has_kind e.kind (kinds run.events) ≡ false
  pub later : is_earlier e.offset_ms (last run.events) ≡ false

IsOrdered-append :
    (es : List ConvergenceEvent) (e : ConvergenceEvent)
    → IsOrdered offset_leb es
    → is_earlier e.offset_ms (last es) ≡ false
    → IsOrdered offset_leb (es ++ e ∷ [])
unfolding last
IsOrdered-append [] e h later = (λ y m. absurd (Memᴰ.not-nil m), tt)
IsOrdered-append (x ∷ []) e h later = (
  λ z m.
      let x_first : offset_leb x e ≡ true = ground arith in
      elim (Memᴰ.cases_cons m) [
        | inl same ↦ subst (λ z. offset_leb x z ≡ true) (sym same) x_first
        | inr none_left ↦ absurd (Memᴰ.not-nil none_left)
      ],
  (λ y m. absurd (Memᴰ.not-nil m), tt),
)
IsOrdered-append (x ∷ y ∷ ys) e h later =
    let rest = IsOrdered-append (y ∷ ys) e h.1 later in
    let x_first = h.0 y (Memᴰ.head refl) in
    (
      λ z m. elim (Memᴰ.cases_cons m) [
        | inl same ↦ subst (λ z. offset_leb x z ≡ true) (sym same) x_first
        | inr later_on ↦ ground (arith, rest.0 z later_on)
      ],
      rest,
    )

pub has_kind-append :
    (es : List ConvergenceEvent) (e : ConvergenceEvent) (k : ConvergenceEventKind)
    → has_kind k (kinds (es ++ e ∷ [])) ≡ (has_kind k (kinds es) || same_kind k e.kind)
unfolding kinds has_kind any
has_kind-append [] e k = ground arith
has_kind-append (x ∷ xs) e k = ground (arith, has_kind-append xs e k)

same_kind_sym : (a b : ConvergenceEventKind) → same_kind a b ≡ same_kind b a
unfolding same_kind
same_kind_sym a b = ground (arith, eq_iff (value a) (value b), eq_iff (value b) (value a))

pub same_kind_refl : (a : ConvergenceEventKind) → same_kind a a ≡ true
unfolding same_kind
same_kind_refl a = eq_refl (value a)

IsOnce-append :
    (es : List ConvergenceEvent) (e : ConvergenceEvent)
    → IsOnce (kinds es)
    → has_kind e.kind (kinds es) ≡ false
    → IsOnce (kinds (es ++ e ∷ []))
unfolding kinds has_kind any
IsOnce-append [] e h new = (refl, tt)
IsOnce-append (x ∷ xs) e h new = (
  ground (arith, has_kind-append xs e x.kind, same_kind_sym x.kind e.kind),
  IsOnce-append xs e h.1 (ground arith),
)

starts-append :
    (es : List ConvergenceEvent) (e : ConvergenceEvent)
    → StartsWithInjection es
    → (is_empty es ≡ true → same_kind e.kind blackhole_injected ≡ true)
    → StartsWithInjection (es ++ e ∷ [])
starts-append [] e h first = first refl
starts-append (x ∷ xs) e h first = h

has_kind-same :
    (a b : ConvergenceEventKind) (ks : List ConvergenceEventKind)
    → same_kind a b ≡ true
    → has_kind a ks ≡ has_kind b ks
unfolding has_kind same_kind
has_kind-same a b ks h =
    let same : value a ≡ value b = ground (arith, eq_iff (value a) (value b)) in
    ap (λ v. any (λ c. v == value c) ks) same

pub IsTrace-nil : (required : List ConvergenceEventKind) → IsTrace required []
unfolding kinds has_kind any
IsTrace-nil required = record {
  ordered = tt;
  once = tt;
  starts = tt;
  in_profile = λ k p. absurd (ground arith);
}

-- An accepted event keeps a run's events in the order of their offsets, each kind at most once,
-- the injection first, and all within the profile.
pub IsTrace-append :
    (run : ConvergenceRun) (required : List ConvergenceEventKind) (e : ConvergenceEvent)
    → IsTrace required run.events
    → IsAccepted run required e
    → IsTrace required (run.events ++ e ∷ [])
IsTrace-append run required e h accepted = record {
  ordered = IsOrdered-append run.events e h.ordered accepted.later;
  once = IsOnce-append run.events e h.once accepted.new;
  starts = starts-append run.events e h.starts accepted.first;
  in_profile = λ k p.
      let split = has_kind-append run.events e k in
      elim (Bool-cases (same_kind k e.kind)) [
        | inl same ↦ rw (has_kind-same k e.kind required same) accepted.in_profile
        | inr other ↦ h.in_profile k (ground arith)
      ];
}

has_kind-mem :
    (k : ConvergenceEventKind) (ks : List ConvergenceEventKind) → Memᴰ k ks → has_kind k ks ≡ true
unfolding has_kind same_kind
has_kind-mem k ks m = any_of_mem (same_kind k) ks k m (eq_refl (value k))

-- A run whose events are a trace within its profile is complete exactly if every event that the
-- profile requires is recorded.
pub status-complete_iff :
    (run : ConvergenceRun) (required : List ConvergenceEventKind)
    → required_events run.profile ≡ ok required
    → IsTrace required run.events
    → (status run ≡ ok "complete")
      ↔ ((k : ConvergenceEventKind) → Memᴰ k required → has_kind k (kinds run.events) ≡ true)
unfolding status same_set
status-complete_iff run required e h =
    let extra = any (λ k. not (has_kind k required)) (kinds run.events) in
    let no_extra : extra ≡ false = elim (Bool-cases extra) [
      | inr none_extra ↦ none_extra
      | inl some_extra ↦
          let (k, m, p) = any-mem (λ k. not (has_kind k required)) (kinds run.events) some_extra in
          absurd (ground (arith, h.in_profile k (has_kind-mem k (kinds run.events) m)))
    ] in
    let missing = any (λ k. not (has_kind k (kinds run.events))) required in
    (
      λ complete k m.
          let none_missing : missing ≡ false = elim (Bool-cases missing) [
            | inr none_missing ↦ none_missing
            | inl some_missing ↦
                let collecting : status run ≡ ok "collecting" =
                  rw (e, no_extra, some_missing) refl in
                let same : "collecting" ≡ "complete" = ok-injective (sym collecting ∙ complete) in
                absurd (ground (arith, eq_iff "collecting" "complete"))
          ] in
          elim (Bool-cases (has_kind k (kinds run.events))) [
            | inl there ↦ there
            | inr absent ↦
                absurd (
                  ground
                    (arith, any_of_mem (λ k. not (has_kind k (kinds run.events))) required k m))
          ],
      λ all. elim (Bool-cases missing) [
        | inr none_missing ↦ rw (e, no_extra, none_missing) refl
        | inl some_missing ↦
            let (k, m, p) =
              any-mem (λ k. not (has_kind k (kinds run.events))) required some_missing in
            absurd (ground (arith, all k m))
      ],
    )
