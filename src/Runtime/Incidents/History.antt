-- ===== src/Runtime/Incidents/History.antt =====
-- The histories of incidents verify, whatever is called (factory/runtime/incidents.py).
use ai_factory.Base.{
  String, Bool, true, ◌≡◌, refl, sym, Option, some, List, [], ◌∷◌, arith, eq_refl, any, not, is_nil,
  is_blank, is_absent, is_some, contains, ◌&&◌, ◌||◌, subst,
}
use ai_factory.Base.Dict.{lookup}
use ai_factory.Base.Result.{ok}
use ai_factory.Base.Action.{
  IsKept, IsKept-bind, IsKept-raise_if, IsKept-or_raise, IsKept-gets, IsKept-transaction,
}
use ai_factory.Runtime.Incidents.{
  Unsigned, IncidentStore, IncidentRecord, Happening, Method, incident_of, duplicate_row,
  is_evidence, of_value, invalid_status, illegal_transition, may_follow, may_close, put_incident,
  status_changed, evidence_recorded, severities, invalid_severity, all_named, identity_required,
  scope_required, incident_declared, proposal_required, is_action, action_planned, Approvals,
  find_action, unknown_action, is_planned, already_decided, may_execute, action_executed,
  is_recovering, not_recovering, unrecorded_evidence, recovery_verified_by,
}
use ai_factory.Runtime.Incidents.Runs.{
  Command, declare_call, transition_call, evidence_call, plan_call, execute_call, recovery_call,
  after, run, empty_store,
}
use ai_factory.Runtime.Incidents.Calls.{
  verify_rows, verify_history, record_evidence, transition, add_evidence, new_evidence, get,
  as_duplicate, declare, new_incident, inserted, plan_action, add_action, new_action,
  mark_action_executed, execute, verify_recovery,
}
use ai_factory.Runtime.Incidents.Links.{
  Chained, append_event-Chained, incident_of-Chained, quiet-Chained, as_duplicate-state,
  may_execute-quiet,
}

module _ (digest : Unsigned → String) where
  -- The transaction of `declare`.
  inserted-Chained :
      (id declared_by : String) (row : IncidentRecord) (happening : Happening) (now : String)
      → IsKept (Chained digest) (inserted digest id declared_by row happening now)
  unfolding inserted
  inserted-Chained id declared_by row happening now =
      IsKept-bind (Chained digest) (IsKept-gets (Chained digest) (λ s. s)) λ s.
        IsKept-bind (Chained digest)
          (IsKept-raise_if (Chained digest) (is_some (lookup id s.incidents)) duplicate_row)
          λ _.
            IsKept-bind (Chained digest) (quiet-Chained digest (put_incident id row) (λ s. refl))
              λ _. append_event-Chained digest id declared_by happening now

  get-Chained : (id mission_id : String) → IsKept (Chained digest) (get id (some mission_id))
  unfolding get
  get-Chained = incident_of-Chained digest

  as_duplicate-Chained :
      {A : Type 0} (m : Method A)
      → IsKept (Chained digest) m
      → IsKept (Chained digest) (as_duplicate m)
  as_duplicate-Chained m k = record {
    apply = λ s h. subst (λ t. (Chained digest) t) (sym (as_duplicate-state m s)) (k.apply s h);
  }

  declare-Chained :
      (id mission_id severity title declared_by : String) (affected_scope : List String)
      (now : String)
      → IsKept
          (Chained digest)
          (declare digest id mission_id severity title declared_by affected_scope now)
  unfolding declare
  declare-Chained id mission_id severity title declared_by affected_scope now =
      IsKept-bind (Chained digest)
        (IsKept-raise_if (Chained digest) (not (contains severity severities)) invalid_severity)
        λ _.
          IsKept-bind (Chained digest)
            (IsKept-raise_if (Chained digest) (not (all_named id mission_id title declared_by))
              identity_required)
            λ _.
              IsKept-bind (Chained digest)
                (IsKept-raise_if (Chained digest)
                  (is_nil affected_scope || any is_blank affected_scope) scope_required)
                λ _.
                  IsKept-bind (Chained digest)
                    (IsKept-transaction (Chained digest) (
                      as_duplicate-Chained _ (
                        inserted-Chained id declared_by
                          (new_incident digest id mission_id severity title declared_by
                            affected_scope now)
                          (incident_declared severity affected_scope) now)))
                    λ _. get-Chained id mission_id

  transition-Chained :
      (id mission_id actor_id new_status now : String)
      → IsKept (Chained digest) (transition digest id mission_id actor_id new_status now)
  unfolding transition
  transition-Chained id mission_id actor_id new_status now =
      IsKept-bind (Chained digest)
        (IsKept-or_raise (Chained digest) (of_value new_status) invalid_status)
        λ target.
          IsKept-bind (Chained digest)
            (IsKept-transaction (Chained digest) (
              IsKept-bind (Chained digest) (incident_of-Chained digest id mission_id) λ row.
                IsKept-bind (Chained digest)
                  (IsKept-raise_if (Chained digest) (not (may_follow row.status target))
                    (illegal_transition row.status target))
                  λ _.
                    IsKept-bind (Chained digest)
                      (quiet-Chained digest (may_close id row target) (λ s. ground arith))
                      λ _.
                        IsKept-bind (Chained digest)
                          (quiet-Chained digest
                            (put_incident id (record row { status = target; updated_at = now }))
                            (λ s. refl))
                          λ _.
                            append_event-Chained digest id actor_id
                              (status_changed row.status target) now))
            λ _. get-Chained id mission_id

  record_evidence-Chained :
      (id mission_id evidence_id kind reference recorded_by now : String)
      → IsKept
          (Chained digest)
          (record_evidence digest id mission_id evidence_id kind reference recorded_by now)
  unfolding record_evidence
  record_evidence-Chained id mission_id evidence_id kind reference recorded_by now =
      IsKept-transaction (Chained digest) (
        IsKept-bind (Chained digest) (incident_of-Chained digest id mission_id) λ row.
          IsKept-bind (Chained digest) (IsKept-gets (Chained digest) (λ s. s)) λ s.
            IsKept-bind (Chained digest)
              (IsKept-raise_if (Chained digest) (any (is_evidence id evidence_id) s.evidence)
                duplicate_row)
              λ _.
                IsKept-bind (Chained digest)
                  (quiet-Chained digest
                    (add_evidence (new_evidence id evidence_id kind reference recorded_by now))
                    (λ s. refl))
                  λ _.
                    append_event-Chained digest id recorded_by
                      (evidence_recorded evidence_id kind reference) now)

  plan_action-Chained :
      (id mission_id action_id action_type target : String) (protected : Bool) (actor_id : String)
      (proposal_id : Option String) (now : String)
      → IsKept (Chained digest) (
          plan_action digest id mission_id action_id action_type target protected actor_id
            proposal_id now)
  unfolding plan_action
  plan_action-Chained id mission_id action_id action_type target protected actor_id proposal_id
        now =
      IsKept-bind (Chained digest)
        (IsKept-raise_if (Chained digest) (protected && is_absent proposal_id) proposal_required)
        λ _. IsKept-transaction (Chained digest) (
          IsKept-bind (Chained digest) (incident_of-Chained digest id mission_id) λ row.
            IsKept-bind (Chained digest) (IsKept-gets (Chained digest) (λ s. s)) λ s.
              IsKept-bind (Chained digest)
                (IsKept-raise_if (Chained digest) (any (is_action id action_id) s.actions)
                  duplicate_row)
                λ _.
                  IsKept-bind (Chained digest)
                    (quiet-Chained digest
                      (add_action (
                        new_action id action_id action_type target protected actor_id proposal_id
                          now))
                      (λ s. refl))
                    λ _.
                      append_event-Chained digest id actor_id
                        (action_planned action_id action_type target protected proposal_id) now)

  mark_action_executed-Chained :
      (approvals : Approvals) (id mission_id action_id actor_id now : String)
      → IsKept
          (Chained digest)
          (mark_action_executed digest approvals id mission_id action_id actor_id now)
  unfolding mark_action_executed
  mark_action_executed-Chained approvals id mission_id action_id actor_id now =
      IsKept-transaction (Chained digest) (
        IsKept-bind (Chained digest) (incident_of-Chained digest id mission_id) λ row.
          IsKept-bind (Chained digest) (IsKept-gets (Chained digest) (λ s. s)) λ s.
            IsKept-bind (Chained digest)
              (IsKept-or_raise (Chained digest) (find_action id action_id s.actions)
                (unknown_action action_id))
              λ a.
                IsKept-bind (Chained digest)
                  (IsKept-raise_if (Chained digest) (not (is_planned a.status)) already_decided)
                  λ _.
                    IsKept-bind (Chained digest)
                      (quiet-Chained digest (may_execute approvals mission_id a)
                        (may_execute-quiet approvals mission_id a))
                      λ _.
                        IsKept-bind (Chained digest)
                          (quiet-Chained digest (execute now id action_id) (λ s. refl))
                          λ _.
                            append_event-Chained digest id actor_id (action_executed action_id) now)

  verify_recovery-Chained :
      (id mission_id actor_id evidence_id now : String)
      → IsKept (Chained digest) (verify_recovery digest id mission_id actor_id evidence_id now)
  unfolding verify_recovery
  verify_recovery-Chained id mission_id actor_id evidence_id now =
      IsKept-transaction (Chained digest) (
        IsKept-bind (Chained digest) (incident_of-Chained digest id mission_id) λ row.
          IsKept-bind (Chained digest)
            (IsKept-raise_if (Chained digest) (not (is_recovering row.status)) not_recovering)
            λ _. IsKept-bind (Chained digest) (IsKept-gets (Chained digest) (λ s. s)) λ s.
              IsKept-bind (Chained digest)
                (IsKept-raise_if (Chained digest)
                  (not (any (is_evidence id evidence_id) s.evidence)) unrecorded_evidence)
                λ _.
                  IsKept-bind (Chained digest)
                    (quiet-Chained digest
                      (put_incident id (record row { recovery_verified = true; updated_at = now }))
                      (λ s. refl))
                    λ _.
                      append_event-Chained digest id actor_id (recovery_verified_by evidence_id)
                        now)

  after-Chained :
      (c : Command) (s : IncidentStore) → (Chained digest) s → (Chained digest) (after digest c s)
  unfolding after
  after-Chained (declare_call id mission_id severity title by scope now) =
      (declare-Chained id mission_id severity title by scope now).apply
  after-Chained (transition_call id mission_id actor_id new_status now) =
      (transition-Chained id mission_id actor_id new_status now).apply
  after-Chained (evidence_call id mission_id evidence_id kind reference by now) =
      (record_evidence-Chained id mission_id evidence_id kind reference by now).apply
  after-Chained (plan_call id mission_id action_id action_type target protected by proposal now) =
      (plan_action-Chained id mission_id action_id action_type target protected by proposal
        now).apply
  after-Chained (execute_call approvals id mission_id action_id actor_id now) =
      (mark_action_executed-Chained approvals id mission_id action_id actor_id now).apply
  after-Chained (recovery_call id mission_id actor_id evidence_id now) =
      (verify_recovery-Chained id mission_id actor_id evidence_id now).apply

  run-Chained :
      (cs : List Command) (s : IncidentStore)
      → (Chained digest) s
      → (Chained digest) (run digest cs s)
  unfolding run
  run-Chained [] s h = h
  run-Chained (c ∷ cs) s h = run-Chained cs (after digest c s) (after-Chained c s h)

  empty-Chained : (Chained digest) empty_store
  unfolding verify_rows
  empty-Chained id = refl

-- In a store that only the public methods have written, by whatever calls, the history of every
-- incident verifies, for a caller who names its mission.
pub run-verifies_history :
    (digest : Unsigned → String) (cs : List Command) (id : String) {row : IncidentRecord}
    → lookup id (run digest cs empty_store).incidents ≡ some row
    → verify_history digest id row.mission_id (run digest cs empty_store)
      ≡ (ok tt, run digest cs empty_store)
unfolding verify_history get incident_of
run-verifies_history digest cs id {row} found =
    ground
      (arith, eq_refl row.mission_id, run-Chained digest cs empty_store (empty-Chained digest) id)
