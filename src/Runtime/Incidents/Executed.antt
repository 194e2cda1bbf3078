-- ===== src/Runtime/Incidents/Executed.antt =====
-- What the methods leave of the planned actions: an executed action stays executed
-- (factory/runtime/incidents.py).
use ai_factory.Base.{
  String, Bool, true, false, ◌≡◌, refl, ap, sym, subst, ◌∙◌, Option, some, List, [], ◌∷◌, ◌++◌,
  arith, Bool-cases, some-injective, eq_iff, ◌==◌, ◌⊎◌, inl, inr, not, ◌||◌, is_nil, is_blank, any,
  contains,
}
use ai_factory.Base.Dict.{lookup, insert, lookup-insert}
use ai_factory.Runtime.Incidents.{
  Unsigned, IncidentStore, IncidentRecord, IncidentAction, Happening, is_planned, is_action,
  find_action, mark_executed, executed, Approvals, incident_of, severities, all_named,
  invalid_severity, identity_required, scope_required, incident_declared,
}
use ai_factory.Runtime.Incidents.Calls.{
  append_event, transition, get, record_evidence, declare, inserted, new_incident, as_duplicate,
  plan_action, new_action, mark_action_executed, verify_recovery,
}
use ai_factory.Runtime.Incidents.Links.{as_duplicate-state}
use ai_factory.Runtime.Incidents.Effects.{
  checked, get-quiet, transition-cases, recovery-cases, evidence_row, plan_row, execute_row,
  declare_row,
}
use ai_factory.Runtime.Incidents.Runs.{
  Command, declare_call, transition_call, evidence_call, plan_call, execute_call, recovery_call,
  after, run,
}

find_action-append :
    (id action_id : String) (xs : List IncidentAction) (y : IncidentAction) {a : IncidentAction}
    → find_action id action_id xs ≡ some a
    → find_action id action_id (xs ++ y ∷ []) ≡ some a
unfolding find_action
find_action-append id action_id [] y h = absurd (cc h)
find_action-append id action_id (x ∷ xs) y {a} h =
    ground (arith, find_action-append id action_id xs y {a = a})

pub find_action-mark_executed :
    (now id action_id : String) (actions : List IncidentAction) {a : IncidentAction}
    → find_action id action_id actions ≡ some a
    → find_action id action_id (mark_executed now id action_id actions)
      ≡ some (record a { status = executed; executed_at = some now })
unfolding find_action mark_executed
find_action-mark_executed now id action_id [] h = absurd (ground arith)
find_action-mark_executed now id action_id (x ∷ actions) {a} h =
    ground (arith, find_action-mark_executed now id action_id actions {a = a})

-- An action that is not planned any more.
pub record IsOver (id action_id : String) (actions : List IncidentAction) : Type 0 where
  pub a : IncidentAction
  pub there : find_action id action_id actions ≡ some a
  pub over : is_planned a.status ≡ false

mark_executed-IsOver :
    (now j b id action_id : String) (actions : List IncidentAction)
    → IsOver id action_id actions
    → IsOver id action_id (mark_executed now j b actions)
unfolding find_action mark_executed
mark_executed-IsOver now j b id action_id [] h = absurd (cc h.there)
mark_executed-IsOver now j b id action_id (x ∷ actions) h =
    elim (Bool-cases (is_action id action_id x)) [
      | inl here ↦
          let status : is_planned x.status ≡ false =
            subst (λ (y : IncidentAction). is_planned y.status ≡ false)
              (sym (some-injective (rw here at h.there))) h.over in
          elim (Bool-cases (is_action j b x)) [
            | inl e ↦ rw e (record {
              a = record x { status = executed; executed_at = some now };
              there = rw here refl;
              over = refl;
            })
            | inr e ↦ rw e (record { a = x; there = rw here refl; over = status })
          ]
      | inr other ↦
          let r =
            mark_executed-IsOver now j b id action_id actions
              (record { a = h.a; there = rw other at h.there; over = h.over }) in
          elim (Bool-cases (is_action j b x)) [
            | inl e ↦ rw e (record { a = r.a; there = rw other r.there; over = r.over })
            | inr e ↦ rw e (record { a = r.a; there = rw other r.there; over = r.over })
          ]
    ]

-- An incident with its mission.
pub record IsHeld (id mission_id : String) (s : IncidentStore) : Type 0 where
  pub row : IncidentRecord
  pub found : lookup id s.incidents ≡ some row
  pub its : row.mission_id ≡ mission_id

same-IsHeld :
    (id mission_id : String) (s t : IncidentStore)
    → t.incidents ≡ s.incidents
    → IsHeld id mission_id s
    → IsHeld id mission_id t
same-IsHeld id mission_id s t e h = record { row = h.row; found = rw e h.found; its = h.its }

insert-IsHeld :
    (j id mission_id : String) (row : IncidentRecord) (s t : IncidentStore)
    → t.incidents ≡ insert j row s.incidents
    → (lookup id s.incidents ≡ lookup j s.incidents → row.mission_id ≡ mission_id)
    → IsHeld id mission_id s
    → IsHeld id mission_id t
insert-IsHeld j id mission_id row s t e mine h = elim (Bool-cases (j == id)) [
  | inl same ↦ record {
    row = row;
    found = rw (e, lookup-insert j id row s.incidents, same) refl;
    its = mine (ap (λ k. lookup k s.incidents) (sym ((eq_iff j id).0 same)));
  }
  | inr other ↦ record {
    row = h.row;
    found = rw (e, lookup-insert j id row s.incidents, other) h.found;
    its = h.its;
  }
]

module _ (digest : Unsigned → String) where
  evidence_actions :
      (id mission_id evidence_id kind reference by now : String) (s : IncidentStore)
      → (record_evidence digest id mission_id evidence_id kind reference by now s).1.actions
        ≡ s.actions
  unfolding record_evidence incident_of append_event
  evidence_actions id mission_id evidence_id kind reference by now s = ground arith

  plan_actions :
      (id mission_id action_id action_type target : String) (protected : Bool) (by : String)
      (proposal : Option String) (now : String) (s : IncidentStore)
      → let t =
          (plan_action digest id mission_id action_id action_type target protected by proposal now
            s).1 in
        (t.actions ≡ s.actions)
        ⊎ (t.actions
            ≡ s.actions
              ++ new_action id action_id action_type target protected by proposal now ∷ [])
  unfolding plan_action incident_of append_event
  plan_actions id mission_id action_id action_type target protected by proposal now s = ground arith

  execute_actions :
      (approvals : Approvals) (id mission_id action_id actor_id now : String) (s : IncidentStore)
      → let t = (mark_action_executed digest approvals id mission_id action_id actor_id now s).1 in
        (t.actions ≡ s.actions) ⊎ (t.actions ≡ mark_executed now id action_id s.actions)
  unfolding mark_action_executed incident_of append_event
  execute_actions approvals id mission_id action_id actor_id now s = ground arith

  recovery_actions :
      (id mission_id actor_id evidence_id now : String) (s : IncidentStore)
      → (verify_recovery digest id mission_id actor_id evidence_id now s).1.actions ≡ s.actions
  unfolding verify_recovery incident_of append_event
  recovery_actions id mission_id actor_id evidence_id now s = ground arith

  transition_actions :
      (id mission_id actor_id new_status now : String) (s : IncidentStore)
      → (transition digest id mission_id actor_id new_status now s).1.actions ≡ s.actions
  unfolding transition get incident_of append_event
  transition_actions id mission_id actor_id new_status now s = ground arith

  inserted_actions :
      (id by : String) (row : IncidentRecord) (happening : Happening) (now : String)
      (s : IncidentStore)
      → (inserted digest id by row happening now s).1.actions ≡ s.actions
  unfolding inserted append_event
  inserted_actions id by row happening now s = ground arith

  declare_actions :
      (id mission_id severity title by : String) (scope : List String) (now : String)
      (s : IncidentStore)
      → (declare digest id mission_id severity title by scope now s).1.actions ≡ s.actions
  unfolding declare
  declare_actions id mission_id severity title by scope now s =
      let row = new_incident digest id mission_id severity title by scope now in
      let happening = incident_declared severity scope in
      elim (checked (not (contains severity severities)) (not (all_named id mission_id title by))
        (is_nil scope || any is_blank scope) invalid_severity identity_required scope_required
        (as_duplicate (inserted digest id by row happening now)) (get id (some mission_id))
        (get-quiet id mission_id) s) [
          | inl same ↦ ap (λ (t : IncidentStore). t.actions) same
          | inr same ↦
              ap (λ (t : IncidentStore). t.actions)
                (same ∙ as_duplicate-state (inserted digest id by row happening now) s)
              ∙ inserted_actions id by row happening now s
        ]

  after-IsOver :
      (c : Command) (id action_id : String) (s : IncidentStore)
      → IsOver id action_id s.actions
      → IsOver id action_id (after digest c s).actions
  unfolding after
  after-IsOver (declare_call j mission_id severity title by scope now) id action_id s h =
      rw (declare_actions j mission_id severity title by scope now s) h
  after-IsOver (transition_call j mission_id actor_id new_status now) id action_id s h =
      rw (transition_actions j mission_id actor_id new_status now s) h
  after-IsOver (recovery_call j mission_id actor_id evidence_id now) id action_id s h =
      rw (recovery_actions j mission_id actor_id evidence_id now s) h
  after-IsOver (evidence_call j mission_id evidence_id kind reference by now) id action_id s h =
      rw (evidence_actions j mission_id evidence_id kind reference by now s) h
  after-IsOver (plan_call j mission_id b action_type target protected by proposal now) id action_id
        s h =
      elim (plan_actions j mission_id b action_type target protected by proposal now s) [
        | inl same ↦ rw same h
        | inr added ↦ rw added (record {
          a = h.a;
          there =
              find_action-append id action_id s.actions
                (new_action j b action_type target protected by proposal now) h.there;
          over = h.over;
        })
      ]
  after-IsOver (execute_call approvals j mission_id b actor_id now) id action_id s h =
      elim (execute_actions approvals j mission_id b actor_id now s) [
        | inl same ↦ rw same h
        | inr marked ↦ rw marked (mark_executed-IsOver now j b id action_id s.actions h)
      ]

  -- The row that is written anew has the mission of the row that was read.
  mission_kept :
      (j id mission_id : String) (s : IncidentStore) {row : IncidentRecord}
      → lookup j s.incidents ≡ some row
      → IsHeld id mission_id s
      → lookup id s.incidents ≡ lookup j s.incidents
      → row.mission_id ≡ mission_id
  mission_kept j id mission_id s {row} f h e =
      let same : h.row ≡ row = some-injective (sym h.found ∙ e ∙ f) in
      subst (λ (r : IncidentRecord). r.mission_id ≡ mission_id) same h.its

  after-IsHeld :
      (c : Command) (id mission_id : String) (s : IncidentStore)
      → IsHeld id mission_id s
      → IsHeld id mission_id (after digest c s)
  unfolding after
  after-IsHeld (declare_call j m severity title by scope now) id mission_id s h =
      elim (declare_row digest j m severity title by scope now s) [
        | inl (p, q) ↦ same-IsHeld id mission_id s _ p h
        | inr (free, p, q) ↦
            insert-IsHeld j id mission_id (new_incident digest j m severity title by scope now) s _
              p (λ e. absurd (cc (sym h.found ∙ e ∙ free))) h
      ]
  after-IsHeld (transition_call j m actor_id new_status now) id mission_id s h =
      elim (transition-cases digest j m actor_id new_status now s) [
        | inl (p, q) ↦ same-IsHeld id mission_id s _ p h
        | inr (row, target, f, close, p, q) ↦
            insert-IsHeld j id mission_id (record row { status = target; updated_at = now }) s _ p
              (mission_kept j id mission_id s f h) h
      ]
  after-IsHeld (recovery_call j m actor_id evidence_id now) id mission_id s h =
      elim (recovery-cases digest j m actor_id evidence_id now s) [
        | inl (p, q) ↦ same-IsHeld id mission_id s _ p h
        | inr (row, f, e, p, q) ↦
            insert-IsHeld j id mission_id
              (record row { recovery_verified = true; updated_at = now }) s _ p
              (mission_kept j id mission_id s f h) h
      ]
  after-IsHeld (evidence_call j m evidence_id kind reference by now) id mission_id s h =
      same-IsHeld id mission_id s _ (evidence_row digest j m evidence_id kind reference by now s).0
        h
  after-IsHeld (plan_call j m b action_type target protected by proposal now) id mission_id s h =
      same-IsHeld id mission_id s _
        (plan_row digest j m b action_type target protected by proposal now s).0 h
  after-IsHeld (execute_call approvals j m b actor_id now) id mission_id s h =
      same-IsHeld id mission_id s _ (execute_row digest approvals j m b actor_id now s).0 h

  -- Whatever is called, an incident keeps its mission, and an action that was executed stays so.
  pub run-IsOver :
      (cs : List Command) (id mission_id action_id : String) (s : IncidentStore)
      → IsHeld id mission_id s
      → IsOver id action_id s.actions
      → IsHeld id mission_id (run digest cs s) × IsOver id action_id (run digest cs s).actions
  unfolding run
  run-IsOver [] id mission_id action_id s h k = (h, k)
  run-IsOver (c ∷ cs) id mission_id action_id s h k =
      run-IsOver cs id mission_id action_id (after digest c s) (after-IsHeld c id mission_id s h)
        (after-IsOver c id action_id s k)
