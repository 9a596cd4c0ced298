-- ===== src/Recovery.antt =====
-- recovery.py: the recovery plan of an incident and its approval.
use telconet_sentinel.Common.{String, Bool, true, false, not, ◌==◌, ◌≡◌, ap, sym}
use telconet_sentinel.Errors.{
  Result, ok, ◌>>=◌, ◌>>◌, >>=-eq-ok, ok-injective, raise_if, action_not_allowed,
  not_awaiting_approval,
}
use telconet_sentinel.Models.{IncidentStatus, awaiting_approval, approved, RecoveryPlan}
use telconet_sentinel.Topology.{Topology, link}

abbrev pub is_awaiting : IncidentStatus → Bool
is_awaiting awaiting_approval = true
is_awaiting _ = false

unfoldable pub create_recovery_plan : Topology → String → String → String → Result RecoveryPlan
create_recovery_plan t incident_id action target = do
  raise_if (not (action == "restore_link")) action_not_allowed
  _ ← link t target
  ok (record {
    incident_id = incident_id;
    action = action;
    target = target;
    status = awaiting_approval;
  })

pub create_recovery_plan-awaits :
    (t : Topology) (incident_id action target : String) (plan : RecoveryPlan)
    → create_recovery_plan t incident_id action target ≡ ok plan
    → is_awaiting plan.status ≡ true
unfolding create_recovery_plan
create_recovery_plan-awaits t incident_id action target plan h =
    let (_, _, h') = >>=-eq-ok (raise_if (not (action == "restore_link")) action_not_allowed) _ h in
    let (_, _, h'') = >>=-eq-ok (link t target) _ h' in
    ap (λ (p : RecoveryPlan). is_awaiting p.status) (sym (ok-injective h''))

unfoldable pub approve_recovery : RecoveryPlan → Result RecoveryPlan
approve_recovery plan = do
  raise_if (not (is_awaiting plan.status)) not_awaiting_approval
  ok (record plan { status = approved })
