-- ===== src/Tests/Returns.antt =====
-- The audit of the sample network returns.
use mathlib.Core.List.Memᴰ
use telconet_sentinel.Common.{
  String, ℕ, true, List, [], ◌∷◌, Memᴰ, ◌≡◌, refl, sym, subst, ap, inl, inr, arith, is_empty,
  contains, all_distinct, keep_if, sort, insert_sorted, name_leb, codes_leb,
}
use telconet_sentinel.Common.Dict.{lookup, values}
use telconet_sentinel.Errors.{ok}
use telconet_sentinel.Topology.{nodes, fetch_all}
use telconet_sentinel.Topology.Walk.{Edge, Walk, here, step}
use telconet_sentinel.Topology.Agreement.{nothing}
use telconet_sentinel.Topology.Distance.Checks.{AreKnown}
use telconet_sentinel.Fault.{FaultScenario}
use telconet_sentinel.Audit.{FaultAuditResult, access_names, service_names, audit_fault_scenarios}
use telconet_sentinel.Audit.Paths.{excluded}
use telconet_sentinel.Audit.Totality.{audit_fault_scenarios-ok}
use telconet_sentinel.Tests.Sample.{network, network-IsValid, north, east}
use telconet_sentinel.Tests.Audits.{link_down}

abbrev one_fault : List FaultScenario
one_fault = link_down "acc-agg" ∷ []

access_is : access_names network ≡ "acc-1" ∷ []
unfolding access_names nodes fetch_all sort insert_sorted name_leb codes_leb lookup keep_if
access_is = refl

service_is : service_names network ≡ "svc-1" ∷ []
unfolding service_names nodes fetch_all sort insert_sorted name_leb codes_leb lookup keep_if
service_is = refl

once : all_distinct ("link:acc-agg" ∷ []) ≡ true
unfolding all_distinct contains
once = refl

agg_known : AreKnown network (excluded (link_down "acc-agg"))
unfolding contains
agg_known = record { links = λ k p. ground arith; nodes = λ k p. cc }

known : (fault : FaultScenario) → Memᴰ fault one_fault → AreKnown network (excluded fault)
known fault m = elim (Memᴰ.cases_cons m) [
  | inl same ↦ subst (λ f. AreKnown network (excluded f)) (sym same) agg_known
  | inr none_left ↦ absurd (Memᴰ.not-nil none_left)
]

up : Edge (values network.links_by_id) nothing "acc-1" "agg-1" 10
unfolding contains
up = record {
  via = north;
  present = Memᴰ.head refl;
  allowed = refl;
  joins = inl (refl, refl);
  open_end = refl;
  priced = refl;
}

over : Edge (values network.links_by_id) nothing "agg-1" "svc-1" 10
unfolding contains
over = record {
  via = east;
  present = Memᴰ.tail (Memᴰ.tail (Memᴰ.head refl));
  allowed = refl;
  joins = inr (refl, refl);
  open_end = refl;
  priced = refl;
}

svc_listed : contains "svc-1" (service_names network) ≡ true
unfolding contains
svc_listed = rw service_is refl

served :
    (name : String)
    → Memᴰ name (access_names network)
    → (service : String) × (d : ℕ) × (contains service (service_names network) ≡ true)
      × Walk (values network.links_by_id) nothing name service d
served name m = elim (Memᴰ.cases_cons (subst (Memᴰ name) access_is m)) [
  | inr none_left ↦ absurd (Memᴰ.not-nil none_left)
  | inl same ↦ (
    "svc-1",
    20,
    svc_listed,
    subst (λ name. Walk (values network.links_by_id) nothing name "svc-1" 20) (sym same)
        (step (step here up) over),
  )
]

audit_fault_scenarios-ok_example :
    (a : FaultAuditResult) × (audit_fault_scenarios network one_fault ≡ ok a)
audit_fault_scenarios-ok_example =
    audit_fault_scenarios-ok network one_fault network-IsValid (ap is_empty access_is)
      (ap is_empty service_is) refl once known served
