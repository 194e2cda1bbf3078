-- ===== src/Runtime/Incidents/Execution.antt =====
-- What it takes to execute an action of an incident (factory/runtime/incidents.py).
use ai_factory.Base.{
  String, true, false, ◌≡◌, refl, Option, none, some, List, arith, eq_iff, Option-cases, inl, inr,
  ap, ◌∙◌,
}
use ai_factory.Base.Dict.{lookup}
use ai_factory.Base.Result.{ok, err}
use ai_factory.Runtime.Incidents.{
  Unsigned, IncidentStore, IncidentRecord, IncidentAction, incident_of, is_planned, already_decided,
  Approvals, find_action, mark_executed, executed, may_execute, proposal_text,
}
use ai_factory.Runtime.Incidents.Runs.{Command, run}
use ai_factory.Runtime.Incidents.Executed.{IsHeld, IsOver, find_action-mark_executed, run-IsOver}
use ai_factory.Runtime.Incidents.Calls.{append_event, mark_action_executed}

-- What it takes to execute an action: it was planned, and where it is protected the catalog says
-- that its proposal is approved for the mission.
pub record IsAuthorized (approvals : Approvals) (mission_id : String) (a : IncidentAction)
    : Type 0 where
  pub undecided : is_planned a.status ≡ true
  pub approved :
      a.protected ≡ true
      → (status : String → String → Option String) × (approvals ≡ some status)
        × (status (proposal_text a.proposal_id) mission_id ≡ some "APPROVED")

IsAuthorized-may_execute :
    (approvals : Approvals) (mission_id : String) (a : IncidentAction) (s : IncidentStore)
    → may_execute approvals mission_id a s ≡ (ok tt, s)
    → is_planned a.status ≡ true
    → IsAuthorized approvals mission_id a
IsAuthorized-may_execute none mission_id a s h k = record {
  undecided = k;
  approved = λ p. absurd (ground arith);
}
IsAuthorized-may_execute (some status) mission_id a s h k = record {
  undecided = k;
  approved = λ p. (
    status,
    refl,
    elim (Option-cases (status (proposal_text a.proposal_id) mission_id)) [
      | inl e ↦ absurd (ground arith)
      | inr (x, e) ↦ ground (arith, eq_iff x "APPROVED")
    ],
  );
}

module _ (digest : Unsigned → String) (approvals : Approvals)
    (id mission_id action_id : String) where
  refused_again :
      (actor_id now : String) (t : IncidentStore) {row : IncidentRecord} {a : IncidentAction}
      → lookup id t.incidents ≡ some row
      → row.mission_id ≡ mission_id
      → find_action id action_id t.actions ≡ some a
      → is_planned a.status ≡ false
      → mark_action_executed digest approvals id mission_id action_id actor_id now t
        ≡ (err already_decided, t)
  unfolding mark_action_executed incident_of
  refused_again actor_id now t {row} f same g k = ground (arith, eq_iff row.mission_id mission_id)

module _ (digest : Unsigned → String) (approvals : Approvals)
    (id mission_id action_id : String) where
  executed_action :
      (actor_id now : String) (s : IncidentStore) {t : IncidentStore} {a : IncidentAction}
      → find_action id action_id s.actions ≡ some a
      → mark_action_executed digest approvals id mission_id action_id actor_id now s ≡ (ok tt, t)
      → IsAuthorized approvals mission_id a
        × (t.actions ≡ mark_executed now id action_id s.actions)
        × (t.incidents ≡ s.incidents)
  unfolding mark_action_executed incident_of append_event
  executed_action actor_id now s {a = a} f h = (
    IsAuthorized-may_execute approvals mission_id a s (ground arith) (ground arith),
    ground arith,
    ground arith,
  )

  found_action :
      (actor_id now : String) (s : IncidentStore) {t : IncidentStore}
      → mark_action_executed digest approvals id mission_id action_id actor_id now s ≡ (ok tt, t)
      → (a : IncidentAction) × (find_action id action_id s.actions ≡ some a)
  unfolding mark_action_executed incident_of append_event
  found_action actor_id now s h = elim (Option-cases (find_action id action_id s.actions)) [
    | inl e ↦ absurd (ground arith)
    | inr (a, e) ↦ (a, e)
  ]

  found_incident :
      (actor_id now : String) (s : IncidentStore) {t : IncidentStore}
      → mark_action_executed digest approvals id mission_id action_id actor_id now s ≡ (ok tt, t)
      → (row : IncidentRecord) × (lookup id s.incidents ≡ some row) × (row.mission_id ≡ mission_id)
  unfolding mark_action_executed incident_of
  found_incident actor_id now s h = elim (Option-cases (lookup id s.incidents)) [
    | inl e ↦ absurd (ground arith)
    | inr (row, e) ↦ (row, e, ground (arith, eq_iff row.mission_id mission_id))
  ]

  -- An action that is executed was planned, and if it is protected then the catalog had its proposal
  -- approved for the mission, which is the incident's; and from then on, whatever public methods are
  -- called, a call to execute it again is refused, under any approvals.
  pub mark_action_executed-IsAuthorized :
      (actor_id now : String) (s : IncidentStore) {t : IncidentStore}
      → mark_action_executed digest approvals id mission_id action_id actor_id now s ≡ (ok tt, t)
      → (a : IncidentAction) × (find_action id action_id s.actions ≡ some a)
        × IsAuthorized approvals mission_id a
        × IsHeld id mission_id s
        × ((cs : List Command) (approvals' : Approvals) (actor_id' now' : String)
            → mark_action_executed digest approvals' id mission_id action_id actor_id' now'
                (run digest cs t)
              ≡ (err already_decided, run digest cs t))
  mark_action_executed-IsAuthorized actor_id now s {t} h =
      let (a, f) = found_action actor_id now s h in
      let (row, g, same) = found_incident actor_id now s h in
      let (authorized, marked, kept) = executed_action actor_id now s f h in
      let held : IsHeld id mission_id s = record { row = row; found = g; its = same } in
      let over : IsOver id action_id t.actions = record {
        a = record a { status = executed; executed_at = some now };
        there =
            ap (find_action id action_id) marked
            ∙ find_action-mark_executed now id action_id s.actions f;
        over = refl;
      } in
      (
        a,
        f,
        authorized,
        held,
        λ cs approvals' actor_id' now'.
            let (still, done) =
              run-IsOver digest cs id mission_id action_id t
                (record { row = row; found = ap (lookup id) kept ∙ g; its = same }) over in
            refused_again digest approvals' id mission_id action_id actor_id' now' (run digest cs t)
              still.found still.its done.there done.over,
      )
