-- ===== src/Runtime/Approved.antt =====
-- Incident actions under the runtime catalog (factory/runtime/incidents.py and catalog.py).
use ai_factory.Base.{
  String, true, ◌≡◌, refl, Option, none, some, arith, eq_iff, Option-cases, inl, inr, ap, subst,
  ◌∙◌, sym,
}
use ai_factory.Base.Dict.{lookup}
use ai_factory.Base.Result.{Result, ok, err}
use ai_factory.Runtime.Incidents.{
  Unsigned, IncidentStore, IncidentAction, IncidentRecord, Approvals, find_action, proposal_text,
}
use ai_factory.Runtime.Incidents.Calls.{mark_action_executed}
use ai_factory.Runtime.Incidents.Execution.{IsAuthorized, mark_action_executed-IsAuthorized}
use ai_factory.Runtime.Catalog.{
  Catalog, CatalogError, Approval, ApprovalStatus, pending, denied, value, approved,
  approval_status, approval_record,
}

abbrev answer : {S : Type 0} → Result CatalogError String × S → Option String
answer (ok text, s) = some text
answer (err e, s) = none

-- The catalog, as the incident store calls it.
abbrev pub approvals_of : Catalog → Approvals
approvals_of c =
    some (λ proposal_id mission_id. answer (approval_status proposal_id (some mission_id) c))

-- The proposal of an action is approved in the catalog, for the mission.
pub record IsApproved (c : Catalog) (mission_id : String) (a : IncidentAction) : Type 0 where
  pub approval : Approval
  pub found : lookup (proposal_text a.proposal_id) c.approvals ≡ some approval
  pub same_mission : approval.mission_id ≡ mission_id
  pub is_approved : approval.status ≡ approved

value-eq-approved : (x : ApprovalStatus) → value x ≡ "APPROVED" → x ≡ approved
value-eq-approved approved h = refl
value-eq-approved pending h = absurd (cc ((eq_iff "PENDING" "APPROVED").1 h))
value-eq-approved denied h = absurd (cc ((eq_iff "DENIED" "APPROVED").1 h))

approval_status-eq-approved :
    (c : Catalog) (id mission_id : String)
    → answer (approval_status id (some mission_id) c) ≡ some "APPROVED"
    → (a : Approval) × (lookup id c.approvals ≡ some a)
      × (a.mission_id ≡ mission_id)
      × (a.status ≡ approved)
unfolding approval_status approval_record
approval_status-eq-approved c id mission_id h = elim (Option-cases (lookup id c.approvals)) [
  | inl e ↦ absurd (ground arith)
  | inr (a, e) ↦ (
    a,
    e,
    ground (arith, eq_iff a.mission_id mission_id),
    value-eq-approved a.status (ground arith),
  )
]

catalog-IsApproved :
    (c : Catalog) (mission_id : String) (a : IncidentAction)
    → (status : String → String → Option String) × (approvals_of c ≡ some status)
      × (status (proposal_text a.proposal_id) mission_id ≡ some "APPROVED")
    → IsApproved c mission_id a
catalog-IsApproved c mission_id a h =
    let (status, same, says) = h in
    let (approval, found, mission, state) =
      approval_status-eq-approved c (proposal_text a.proposal_id) mission_id
        (ap (λ o. ask o (proposal_text a.proposal_id) mission_id) same ∙ says) in
    record { approval = approval; found = found; same_mission = mission; is_approved = state }
  where
    ask : Approvals → String → String → Option String
    ask none p m = none
    ask (some status) p m = status p m

-- A protected action that is executed under a catalog has a proposal in that catalog, which is approved,
-- and of the mission of the incident that the action belongs to; and that is the caller's mission.
pub mark_action_executed-IsApproved :
    (digest : Unsigned → String) (c : Catalog) (id mission_id action_id actor_id now : String)
    (s : IncidentStore) {t : IncidentStore} {a : IncidentAction}
    → mark_action_executed digest (approvals_of c) id mission_id action_id actor_id now s
      ≡ (ok tt, t)
    → find_action id action_id s.actions ≡ some a
    → a.protected ≡ true
    → (row : IncidentRecord) × (lookup id s.incidents ≡ some row)
      × (row.mission_id ≡ mission_id)
      × IsApproved c row.mission_id a
mark_action_executed-IsApproved digest c id mission_id action_id actor_id now s {a = a} h f p =
    let (b, g, authorized, held, _) =
      mark_action_executed-IsAuthorized digest (approvals_of c) id mission_id action_id actor_id now
        s h in
    let same : b ≡ a = cc in
    let approved_here =
      catalog-IsApproved c mission_id a
        ((subst (IsAuthorized (approvals_of c) mission_id) same authorized).approved p) in
    (held.row, held.found, held.its, subst (λ m. IsApproved c m a) (sym held.its) approved_here)
