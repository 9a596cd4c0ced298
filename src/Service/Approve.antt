-- ===== src/Service/Approve.antt =====
-- The theorems on `approve`: the invariant, and that a plan is approved once.
use telconet_sentinel.Common.{
  String, true, not, some, ◌≡◌, refl, sym, ap, subst, ◌∙◌, inl, inr, arith, eq_iff, eq_refl,
  Bool-cases, ◌==◌,
}
use telconet_sentinel.Common.Dict.{
  lookup, insert, lookup-insert, IsUniqueKeys-insert, length-insert_old,
}
use telconet_sentinel.Errors.{
  ok, err, raise_if, or_raise-eq-ok, >>=-eq-ok, ok-injective, incident_not_found,
  not_awaiting_approval,
}
use telconet_sentinel.Models.{Incident, RecoveryPlan, approved}
use telconet_sentinel.Recovery.{is_awaiting, approve_recovery}
use telconet_sentinel.Service.{IncidentService, get, approve}
use telconet_sentinel.Service.Valid.{IsValid}

approve_recovery-value :
    (plan plan' : RecoveryPlan)
    → approve_recovery plan ≡ ok plan'
    → (is_awaiting plan.status ≡ true) × (plan' ≡ record plan { status = approved })
unfolding approve_recovery
approve_recovery-value plan plan' h =
    let (_, checked, h') =
      >>=-eq-ok (raise_if (not (is_awaiting plan.status)) not_awaiting_approval) _ h in
    (ground arith, sym (ok-injective h'))

module _ (s s' : IncidentService) (k : String) (i : Incident) (e : approve s k ≡ ok (s', i)) where
  -- The incident that was there, and how the state and the incident change.
  approve-value :
      (v : Incident) × (lookup k s.incidents ≡ some v)
      × (is_awaiting v.recovery_plan.status ≡ true)
      × (i ≡ record v { recovery_plan = record v.recovery_plan { status = approved } })
      × (s' ≡ record s { incidents = insert k i s.incidents })
  unfolding approve get
  approve-value =
      let (v, got, e') = >>=-eq-ok (get s k) _ e in
      let (plan, planned, e'') = >>=-eq-ok (approve_recovery v.recovery_plan) _ e' in
      let (awaits, changed) = approve_recovery-value v.recovery_plan plan planned in
      let same = ok-injective e'' in
      let is_i : record v { recovery_plan = plan } ≡ i = ap (λ r. r.1) same in
      (
        v,
        or_raise-eq-ok (lookup k s.incidents) (incident_not_found k) v got,
        awaits,
        sym is_i ∙ ap (λ p. record v { recovery_plan = p }) changed,
        sym (ap (λ r. r.0) same) ∙ ap (λ i. record s { incidents = insert k i s.incidents }) is_i,
      )

  -- Approval of a valid service's incident leaves a valid service.
  pub approve-IsValid : IsValid s → IsValid s'
  approve-IsValid h =
      let (v, there, awaits, is_i, is_s') = approve-value in
      let same_id_i : i.id ≡ v.id = ap (λ (i : Incident). i.id) is_i in
      let same_print : i.fingerprint ≡ v.fingerprint = ap (λ (i : Incident). i.fingerprint) is_i in
      let own = h.consistent.own_id k v there in
      let stored = λ (j : String). lookup-insert j k i s.incidents in
      subst IsValid (sym is_s') (record {
        consistent = record {
          positive = h.consistent.positive;
          unique = IsUniqueKeys-insert k i s.incidents h.consistent.unique;
          own_id = λ j w p. ground (arith, stored j, eq_iff k j, own, h.consistent.own_id j w);
          indexed = λ f j p.
              let (w, at_w, print) = h.consistent.indexed f j p in
              elim (Bool-cases (k == j)) [
                | inr other ↦ (w, ground (arith, stored j), print)
                | inl same ↦
                    let same' : k ≡ j = ground (arith, eq_iff k j) in
                    let is_w : some v ≡ some w = sym there ∙ rw same' at_w in
                    let is_w' : v ≡ w = cc in
                    (
                      i,
                      ground (arith, stored j),
                      same_print ∙ ap (λ (i : Incident). i.fingerprint) is_w' ∙ print,
                    )
              ];
          seen = h.consistent.seen;
        };
        bounded = rw (length-insert_old k i v s.incidents there) (h.bounded);
      })

  -- The incident that `approve` returns is then the stored one, with the status `approved`, and a
  -- second approval is refused since the incident does not await it.
  pub approve-approve :
      (get s' k ≡ ok i)
      × (i.recovery_plan.status ≡ approved)
      × (approve s' k ≡ err not_awaiting_approval)
  unfolding approve get approve_recovery
  approve-approve =
      let (v, there, awaits, is_i, is_s') = approve-value in
      let found : lookup k s'.incidents ≡ some i =
        rw is_s' (ground (arith, eq_refl k, lookup-insert k k i s.incidents)) in
      let status : i.recovery_plan.status ≡ approved =
        ap (λ (i : Incident). i.recovery_plan.status) is_i in
      (rw found refl, status, rw (found, status) refl)
