-- ===== src/Convergence/Accepted.antt =====
-- What `validate_event` accepts, and that it accepts no event twice.
use telconet_sentinel.Common.{
  true, false, not, ◌&&◌, List, [], ◌∷◌, ◌++◌, ◌≡◌, refl, arith, is_empty,
}
use telconet_sentinel.Common.Int.{pos, ltb_ℤ}
use telconet_sentinel.Errors.{
  ok, err, >>=-eq-ok, raise_if, negative_offset, naive_observed_at, no_route_metric,
  no_icmp_sequence, event_not_in_profile, not_injected_first, duplicate_event,
}
use telconet_sentinel.Convergence.{
  ConvergenceEventKind, blackhole_injected, route_failover, data_plane_recovered, value, same_kind,
  ConvergenceEvent, ConvergenceRun, has_kind, kinds, required_events, is_below, validate_event,
}
use telconet_sentinel.Convergence.Runs.{IsAccepted, has_kind-append, same_kind_refl}

pub validate_event-IsAccepted :
    (run : ConvergenceRun) (e : ConvergenceEvent)
    → validate_event run e ≡ ok tt
    → (required : List ConvergenceEventKind) × (required_events run.profile ≡ ok required)
      × IsAccepted run required e
unfolding validate_event
validate_event-IsAccepted run e h =
    let (_, a, h₁) = >>=-eq-ok (raise_if (ltb_ℤ e.offset_ms (pos 0)) negative_offset) _ h in
    let (_, b, h₂) = >>=-eq-ok (raise_if (not e.observed_at.is_aware) naive_observed_at) _ h₁ in
    let (_, c, h₃) =
      >>=-eq-ok
        (raise_if (same_kind e.kind route_failover && is_below 1 e.route_metric) no_route_metric) _
        h₂ in
    let (_, d, h₄) =
      >>=-eq-ok
        (raise_if (same_kind e.kind data_plane_recovered && is_below 0 e.icmp_sequence)
          no_icmp_sequence)
        _ h₃ in
    let (required, f, h₅) = >>=-eq-ok (required_events run.profile) _ h₄ in
    let (_, g, h₆) =
      >>=-eq-ok (raise_if (not (has_kind e.kind required)) (event_not_in_profile (value e.kind))) _
        h₅ in
    let (_, i, h₇) =
      >>=-eq-ok
        (raise_if (is_empty run.events && not (same_kind e.kind blackhole_injected))
          not_injected_first)
        _ h₆ in
    let (_, j, k) =
      >>=-eq-ok (raise_if (has_kind e.kind (kinds run.events)) (duplicate_event (value e.kind))) _
        h₇ in
    (
      required,
      f,
      record {
        positive = ground arith;
        in_profile = ground arith;
        first = λ p. ground arith;
        new = ground arith;
        later = ground arith;
      },
    )

is_empty-append :
    (es : List ConvergenceEvent) (e : ConvergenceEvent) → is_empty (es ++ e ∷ []) ≡ false
is_empty-append [] e = refl
is_empty-append (x ∷ xs) e = refl

-- An event is not accepted again once it is recorded.
pub validate_event-again :
    (run : ConvergenceRun) (e : ConvergenceEvent)
    → validate_event run e ≡ ok tt
    → validate_event (record run { events = run.events ++ e ∷ [] }) e
      ≡ err (duplicate_event (value e.kind))
unfolding validate_event
validate_event-again run e h =
    let (_, a, h₁) = >>=-eq-ok (raise_if (ltb_ℤ e.offset_ms (pos 0)) negative_offset) _ h in
    let (_, b, h₂) = >>=-eq-ok (raise_if (not e.observed_at.is_aware) naive_observed_at) _ h₁ in
    let (_, c, h₃) =
      >>=-eq-ok
        (raise_if (same_kind e.kind route_failover && is_below 1 e.route_metric) no_route_metric) _
        h₂ in
    let (_, d, h₄) =
      >>=-eq-ok
        (raise_if (same_kind e.kind data_plane_recovered && is_below 0 e.icmp_sequence)
          no_icmp_sequence)
        _ h₃ in
    let (required, f, h₅) = >>=-eq-ok (required_events run.profile) _ h₄ in
    let (_, g, _) =
      >>=-eq-ok (raise_if (not (has_kind e.kind required)) (event_not_in_profile (value e.kind))) _
        h₅ in
    let there : has_kind e.kind (kinds (run.events ++ e ∷ [])) ≡ true =
      ground (arith, has_kind-append run.events e e.kind, same_kind_refl e.kind) in
    rw (a, b, c, d, f, g, is_empty-append run.events e, there) refl
