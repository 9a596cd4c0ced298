-- ===== src/Models.antt =====
-- models.py: the shared data of the package. An instant is a number of microseconds since the epoch.
use telconet_sentinel.Common.{ℕ, String, List}

abbrev pub Instant : Type 0
Instant = ℕ

pub data NodeRole : Type 0 where
  access aggregation core service : NodeRole

pub data ServiceImpact : Type 0 where
  degraded outage redundancy_reduced : ServiceImpact

abbrev pub impact_value : ServiceImpact → String
impact_value degraded = "degraded"
impact_value outage = "outage"
impact_value redundancy_reduced = "redundancy_reduced"

pub data IncidentStatus : Type 0 where
  analyzed awaiting_approval approved resolved : IncidentStatus

pub record Node : Type 0 where
  pub name : String
  pub role : NodeRole
  pub prefixes : List String

pub record Link : Type 0 where
  pub id : String
  pub endpoint_a : String
  pub endpoint_b : String
  pub cost : ℕ

pub record NetworkEvent : Type 0 where
  pub link_id : String
  pub event_type : String
  pub observed_at : Instant

pub record ImpactAnalysis : Type 0 where
  pub failed_component : String
  pub evidence : List String
  pub affected_nodes : List String
  pub affected_prefixes : List String
  pub service_impact : ServiceImpact

pub record RecoveryPlan : Type 0 where
  pub incident_id : String
  pub action : String
  pub target : String
  pub status : IncidentStatus

pub record Incident : Type 0 where
  pub id : String
  pub fingerprint : String
  pub event : NetworkEvent
  pub analysis : ImpactAnalysis
  pub recovery_plan : RecoveryPlan
  pub created_at : Instant
