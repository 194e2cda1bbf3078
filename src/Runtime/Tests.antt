-- ===== src/Runtime/Tests.antt =====
-- The runtime on concrete incidents.
use ai_factory.Base.{String, true, false, ◌≡◌, refl, none, some, List, [], ◌∷◌, ◌++◌}
use ai_factory.Base.Text.{is_blank}
use ai_factory.Base.Result.{ok, err}
use ai_factory.Base.Dict.{lookup, insert}
use ai_factory.Runtime.Incidents.{
  Unsigned, IncidentStore, IncidentRecord, IncidentAction, closed, Approvals, incident_of, of_value,
  may_follow, find_action, mark_executed, already_decided,
}
use ai_factory.Runtime.Incidents.Calls.{
  declare, inserted, transition, get, record_evidence, plan_action, mark_action_executed,
  verify_recovery, append_event, verify_history, new_action,
}
use ai_factory.Runtime.Incidents.Runs.{
  Command, declare_call, transition_call, evidence_call, plan_call, recovery_call, run, after,
  empty_store,
}
use ai_factory.Runtime.Incidents.History.{run-verifies_history}
use ai_factory.Runtime.Incidents.Closing.{IsProven, run-IsProven}
use ai_factory.Runtime.Incidents.Executed.{IsHeld}
use ai_factory.Runtime.Incidents.Execution.{IsAuthorized, mark_action_executed-IsAuthorized}
use ai_factory.Runtime.Catalog.{
  Catalog, Budget, Artifact, Approval, approved, propose_action, decide_action, approval_status,
  approval_record, set_budget, add_artifact, latest_artifact,
}
use ai_factory.Runtime.Catalog.Approving
use ai_factory.Runtime.Catalog.Approving.{propose_call, decide_call, budget_call, run-decided}
use ai_factory.Runtime.Catalog.Spending.{Spend, spend_all, granted, IsSpent, spend_all-IsSpent}
use ai_factory.Runtime.Catalog.Versions.{is_taken, latest_artifact-add_artifact}
use ai_factory.Runtime.Approved.{approvals_of, IsApproved, mark_action_executed-IsApproved}

-- A digest that tells the events of one incident apart.
abbrev digest : Unsigned → String
digest u = u.created_at

abbrev move : String → String → Command
move status now = transition_call "I-1" "M-1" "lead" status now

abbrev to_monitoring : List Command
to_monitoring =
    declare_call "I-1" "M-1" "SEV1" "outage" "lead" ("api" ∷ []) "t1"
    ∷ move "TRIAGED" "t2"
    ∷ move "CONTAINING" "t3"
    ∷ move "CONTAINED" "t4"
    ∷ move "RECOVERING" "t5"
    ∷ evidence_call "I-1" "M-1" "E-1" "log" "ref" "lead" "t6"
    ∷ recovery_call "I-1" "M-1" "lead" "E-1" "t7"
    ∷ move "MONITORING" "t8"
    ∷ []

abbrev to_closed : List Command
to_closed = to_monitoring ++ move "CLOSED" "t9" ∷ []

abbrev closed_at : String → IncidentRecord
closed_at now = record {
  incident_id = "I-1";
  mission_id = "M-1";
  severity = "SEV1";
  title = "outage";
  status = closed;
  declared_by = "lead";
  affected_scope = "api" ∷ [];
  recovery_verified = true;
  created_at = "t1";
  updated_at = now;
}

closes : lookup "I-1" (run digest to_closed empty_store).incidents ≡ some (closed_at "t9")
unfolding run after lookup insert declare inserted transition record_evidence verify_recovery get
    incident_of of_value may_follow append_event is_blank
closes = refl

run-IsProven_example : IsProven "I-1" (run digest to_closed empty_store).evidence (closed_at "t9")
run-IsProven_example = run-IsProven digest to_closed "I-1" closes

run-verifies_history_example :
    verify_history digest "I-1" "M-1" (run digest to_closed empty_store)
    ≡ (ok tt, run digest to_closed empty_store)
run-verifies_history_example = run-verifies_history digest to_closed "I-1" closes

-- A recovery that fails in MONITORING and starts again closes on the first verification.
abbrev recovered_twice : List Command
recovered_twice =
    to_monitoring ++ move "RECOVERING" "t9" ∷ move "MONITORING" "t10" ∷ move "CLOSED" "t11" ∷ []

closes_on_the_first_verification :
    lookup "I-1" (run digest recovered_twice empty_store).incidents ≡ some (closed_at "t11")
unfolding run after lookup insert declare inserted transition record_evidence verify_recovery get
    incident_of of_value may_follow append_event is_blank
closes_on_the_first_verification = refl

abbrev approving : Approvals
approving = some (λ proposal_id mission_id. some "APPROVED")

abbrev with_plan : IncidentStore
with_plan =
    run digest
      (to_monitoring
        ++ plan_call "I-1" "M-1" "A-1" "rollback" "api" true "lead" (some "P-1") "t9" ∷ [])
      empty_store

abbrev after_rollback : IncidentStore
after_rollback = (mark_action_executed digest approving "I-1" "M-1" "A-1" "lead" "t10" with_plan).1

executes :
    mark_action_executed digest approving "I-1" "M-1" "A-1" "lead" "t10" with_plan
    ≡ (ok tt, after_rollback)
unfolding run after lookup insert declare inserted transition record_evidence verify_recovery get
    incident_of of_value may_follow append_event is_blank plan_action mark_action_executed
    find_action mark_executed
executes = refl

mark_action_executed-IsAuthorized_example :
    (a : IncidentAction) × (find_action "I-1" "A-1" with_plan.actions ≡ some a)
    × IsAuthorized approving "M-1" a
    × IsHeld "I-1" "M-1" with_plan
    × ((cs : List Command) (approvals : Approvals) (actor_id now : String)
        → mark_action_executed digest approvals "I-1" "M-1" "A-1" actor_id now
            (run digest cs after_rollback)
          ≡ (err already_decided, run digest cs after_rollback))
mark_action_executed-IsAuthorized_example =
    mark_action_executed-IsAuthorized digest approving "I-1" "M-1" "A-1" "lead" "t10" with_plan
      executes

abbrev empty_catalog : Catalog
empty_catalog = record { agents = []; artifacts = []; budgets = []; approvals = [] }

abbrev text_digest : String → String
text_digest text = text

-- A proposal that is approved.
abbrev approved_catalog : Catalog
approved_catalog =
    Approving.run text_digest
      (propose_call "P-1" "M-1" "rollback" "api" true "t1"
        ∷ decide_call "P-1" true "owner" (some "M-1") "t2"
        ∷ [])
      empty_catalog

abbrev approval : Approval
approval = record {
  mission_id = "M-1";
  action_type = "rollback";
  target = "api";
  protected = true;
  status = approved;
  decided_by = some "owner";
  created_at = "t1";
  decided_at = some "t2";
}

is_decided : lookup "P-1" approved_catalog.approvals ≡ some approval
unfolding Approving.run Approving.after propose_action decide_action lookup insert
is_decided = refl

run-decided_example :
    lookup "P-1"
      (Approving.run text_digest
        (budget_call "M-1" 5 ∷ decide_call "P-1" false "other" none "t3" ∷ [])
        approved_catalog).approvals
    ≡ some approval
run-decided_example =
    run-decided text_digest (budget_call "M-1" 5 ∷ decide_call "P-1" false "other" none "t3" ∷ [])
      "P-1" approved_catalog is_decided refl

abbrev after_approval : IncidentStore
after_approval =
    (mark_action_executed digest (approvals_of approved_catalog) "I-1" "M-1" "A-1" "lead" "t10"
      with_plan).1

executes_under_the_catalog :
    mark_action_executed digest
      (approvals_of approved_catalog)
      "I-1"
      "M-1"
      "A-1"
      "lead"
      "t10"
      with_plan
    ≡ (ok tt, after_approval)
unfolding run after lookup insert declare inserted transition record_evidence verify_recovery get
    incident_of of_value may_follow append_event is_blank plan_action mark_action_executed
    find_action mark_executed approval_status approval_record Approving.run Approving.after
    propose_action decide_action
executes_under_the_catalog = refl

abbrev rollback : IncidentAction
rollback = new_action "I-1" "A-1" "rollback" "api" true "lead" (some "P-1") "t9"

rollback_is_planned : find_action "I-1" "A-1" with_plan.actions ≡ some rollback
unfolding run after lookup insert declare inserted transition record_evidence verify_recovery get
    incident_of of_value may_follow append_event is_blank plan_action find_action
rollback_is_planned = refl

mark_action_executed-IsApproved_example :
    (row : IncidentRecord) × (lookup "I-1" with_plan.incidents ≡ some row)
    × (row.mission_id ≡ "M-1")
    × IsApproved approved_catalog row.mission_id rollback
mark_action_executed-IsApproved_example =
    mark_action_executed-IsApproved digest approved_catalog "I-1" "M-1" "A-1" "lead" "t10" with_plan
      executes_under_the_catalog rollback_is_planned refl

abbrev with_budget : Catalog
with_budget = (set_budget "M-1" 10 empty_catalog).1

abbrev ten_units : Budget
ten_units = record { limit_units = 10; consumed_units = 0 }

has_budget : lookup "M-1" with_budget.budgets ≡ some ten_units
unfolding set_budget lookup insert
has_budget = refl

abbrev spends : List Spend
spends = record { mission_id = "M-1"; units = 7 } ∷ record { mission_id = "M-1"; units = 7 } ∷ []

spend_all-IsSpent_example :
    (d : Budget) × (lookup "M-1" (spend_all spends with_budget).budgets ≡ some d)
    × IsSpent ten_units d (granted "M-1" spends with_budget)
spend_all-IsSpent_example = spend_all-IsSpent spends "M-1" with_budget has_budget

abbrev first_draft : Artifact
first_draft = record {
  mission_id = "M-1";
  artifact_id = "plan";
  version = 1;
  media_type = "text/plain";
  content_hash = "draft";
  content = "draft";
  created_by = "lead";
  created_at = "t1";
}

abbrev with_draft : Catalog
with_draft =
    (add_artifact text_digest "M-1" "plan" "draft" "lead" "text/plain" "t1" empty_catalog).1

adds_draft :
    add_artifact text_digest "M-1" "plan" "draft" "lead" "text/plain" "t1" empty_catalog
    ≡ (ok first_draft, with_draft)
unfolding add_artifact
adds_draft = refl

latest_artifact-add_artifact_example :
    (is_taken "M-1" "plan" 1 [] ≡ false)
    × (with_draft.artifacts ≡ first_draft ∷ [])
    × (latest_artifact "M-1" "plan" with_draft ≡ (ok first_draft, with_draft))
latest_artifact-add_artifact_example =
    latest_artifact-add_artifact text_digest "M-1" "plan" "draft" "lead" "text/plain" "t1"
      empty_catalog adds_draft
