-- ===== src/Runtime/Incidents/Calls.antt =====
-- The public methods of `IncidentResponseStore` (factory/runtime/incidents.py).
use ai_factory.Base.{
  ℕ, ◌+◌, String, Bool, true, false, not, ◌&&◌, ◌||◌, Option, none, some, List, [], ◌∷◌, ◌++◌, ⊤,
  if◌then◌else◌, eqb, ◌==◌, is_some, is_nil, is_blank, is_absent, any, contains,
}
use ai_factory.Base.Result.{Result, ok, err}
use ai_factory.Base.Result
use ai_factory.Base.Action.{raise_if, gets, modify, lift, or_raise, transaction, ◌>>=◌, ◌>>◌}
use ai_factory.Base.Dict.{lookup}
use ai_factory.Runtime.Incidents.{
  declared, of_value, may_follow, is_recovering, IncidentRecord, Evidence, planned, is_planned,
  IncidentAction, Happening, incident_declared, status_changed, evidence_recorded, action_planned,
  action_executed, recovery_verified_by, Unsigned, IncidentEvent, IncidentError, Method, rows_of,
  next_link, incident_of, put_incident, is_evidence, is_action, find_action, mark_executed,
  may_close, all_named, Approvals, may_execute, severities, invalid_severity, identity_required,
  scope_required, duplicate_incident, unknown_action, unknown_incident, invalid_status,
  illegal_transition, proposal_required, already_decided, not_recovering, unrecorded_evidence,
  duplicate_row, sequence_gap, chain_break, mutation_detected,
}

-- An `IntegrityError` in `declare`.
abbrev pub as_duplicate : {A : Type 0} → Method A → Method A
as_duplicate m s =
    let (r, t) = m s in
    elim r [
      | ok a ↦ (ok a, t)
      | err duplicate_row ↦ (err duplicate_incident, t)
      | err e ↦ (err e, t)
    ]

-- `get`, without and with a mission.
unfoldable pub get : String → Option String → Method IncidentRecord
get id none = do s ← gets (λ s. s); or_raise (lookup id s.incidents) (unknown_incident id)
get id (some mission_id) = incident_of id mission_id

-- The inserts and the update.
abbrev pub execute : String → String → String → Method ⊤
execute now id action_id =
    modify (λ s. record s { actions = mark_executed now id action_id s.actions })

abbrev pub add_evidence : Evidence → Method ⊤
add_evidence e = modify (λ s. record s { evidence = s.evidence ++ e ∷ [] })

abbrev pub add_action : IncidentAction → Method ⊤
add_action a = modify (λ s. record s { actions = s.actions ++ a ∷ [] })

abbrev pub new_evidence : String → String → String → String → String → String → Evidence
new_evidence id evidence_id kind reference recorded_by now = record {
  incident_id = id;
  evidence_id = evidence_id;
  kind = kind;
  reference = reference;
  recorded_by = recorded_by;
  created_at = now;
}

abbrev pub new_action :
    String → String → String → String → Bool → String → Option String → String → IncidentAction
new_action id action_id action_type target protected actor_id proposal_id now = record {
  incident_id = id;
  action_id = action_id;
  action_type = action_type;
  target = target;
  protected = protected;
  proposal_id = proposal_id;
  status = planned;
  actor_id = actor_id;
  created_at = now;
  executed_at = none;
}

module _ (digest : Unsigned → String) where
  -- The event that `_append_event` inserts.
  abbrev pub next_event : String → String → Happening → String → List IncidentEvent → IncidentEvent
  next_event id actor_id happening now events =
      let (sequence, previous_hash) = next_link (rows_of id events) in
      let unsigned : Unsigned = record {
        incident_id = id;
        sequence = sequence;
        actor_id = actor_id;
        happening = happening;
        created_at = now;
        previous_hash = previous_hash;
      } in
      let event : IncidentEvent = record { unsigned = unsigned; event_hash = digest unsigned } in
      event

  -- `_append_event`; an event of the incident with the same sequence or hash breaks a key.
  unfoldable pub append_event : String → String → Happening → String → Method ⊤
  append_event id actor_id happening now = do
    s ← gets (λ s. s)
    let e = next_event id actor_id happening now s.events
    raise_if
        (any
          (λ (r : IncidentEvent).
            eqb r.unsigned.sequence e.unsigned.sequence || r.event_hash == e.event_hash)
          (rows_of id s.events))
        duplicate_row
    modify (λ s. record s { events = s.events ++ e ∷ [] })

  abbrev pub new_incident :
      String → String → String → String → String → List String → String → IncidentRecord
  new_incident id mission_id severity title declared_by affected_scope now = record {
    incident_id = id;
    mission_id = mission_id;
    severity = severity;
    title = title;
    status = declared;
    declared_by = declared_by;
    affected_scope = affected_scope;
    recovery_verified = false;
    created_at = now;
    updated_at = now;
  }

  -- The two inserts of `declare`.
  unfoldable pub inserted : String → String → IncidentRecord → Happening → String → Method ⊤
  inserted id declared_by row happening now = do
    s ← gets (λ s. s)
    raise_if (is_some (lookup id s.incidents)) duplicate_row
    put_incident id row
    append_event id declared_by happening now

  unfoldable pub declare :
      String → String → String → String → String → List String → String → Method IncidentRecord
  declare id mission_id severity title declared_by affected_scope now = do
    raise_if (not (contains severity severities)) invalid_severity
    raise_if (not (all_named id mission_id title declared_by)) identity_required
    raise_if (is_nil affected_scope || any is_blank affected_scope) scope_required
    transaction (
        as_duplicate (
          inserted id declared_by
            (new_incident id mission_id severity title declared_by affected_scope now)
            (incident_declared severity affected_scope) now))
    get id (some mission_id)

  unfoldable pub transition : String → String → String → String → String → Method IncidentRecord
  transition id mission_id actor_id new_status now = do
    target ← or_raise (of_value new_status) invalid_status
    transaction (do
      row ← incident_of id mission_id
      raise_if (not (may_follow row.status target)) (illegal_transition row.status target)
      may_close id row target
      put_incident id (record row { status = target; updated_at = now })
      append_event id actor_id (status_changed row.status target) now)
    get id (some mission_id)

  unfoldable pub record_evidence :
      String → String → String → String → String → String → String → Method ⊤
  record_evidence id mission_id evidence_id kind reference recorded_by now = transaction (do
    row ← incident_of id mission_id
    s ← gets (λ s. s)
    raise_if (any (is_evidence id evidence_id) s.evidence) duplicate_row
    add_evidence (record {
      incident_id = id;
      evidence_id = evidence_id;
      kind = kind;
      reference = reference;
      recorded_by = recorded_by;
      created_at = now;
    })
    append_event id recorded_by (evidence_recorded evidence_id kind reference) now)

  unfoldable pub plan_action :
      String → String → String → String → String → Bool → String → Option String → String → Method ⊤
  plan_action id mission_id action_id action_type target protected actor_id proposal_id now = do
    raise_if (protected && is_absent proposal_id) proposal_required
    transaction (do
      row ← incident_of id mission_id
      s ← gets (λ s. s)
      raise_if (any (is_action id action_id) s.actions) duplicate_row
      add_action (new_action id action_id action_type target protected actor_id proposal_id now)
      append_event id actor_id (action_planned action_id action_type target protected proposal_id)
          now)

  unfoldable pub mark_action_executed :
      Approvals → String → String → String → String → String → Method ⊤
  mark_action_executed approvals id mission_id action_id actor_id now = transaction (do
    row ← incident_of id mission_id
    s ← gets (λ s. s)
    a ← or_raise (find_action id action_id s.actions) (unknown_action action_id)
    raise_if (not (is_planned a.status)) already_decided
    may_execute approvals mission_id a
    modify (λ s. record s { actions = mark_executed now id action_id s.actions })
    append_event id actor_id (action_executed action_id) now)

  unfoldable pub verify_recovery : String → String → String → String → String → Method ⊤
  verify_recovery id mission_id actor_id evidence_id now = transaction (do
    row ← incident_of id mission_id
    raise_if (not (is_recovering row.status)) not_recovering
    s ← gets (λ s. s)
    raise_if (not (any (is_evidence id evidence_id) s.evidence)) unrecorded_evidence
    put_incident id (record row { recovery_verified = true; updated_at = now })
    append_event id actor_id (recovery_verified_by evidence_id) now)

  -- The checks on one row: the digest is taken with the values that the row should have.
  unfoldable pub verify_row : String → ℕ → String → IncidentEvent → Result IncidentError ⊤
  verify_row id expected previous e =
      let u = record e.unsigned {
        incident_id = id;
        sequence = expected;
        previous_hash = previous;
      } in
      if not (eqb e.unsigned.sequence expected)
      then err sequence_gap
      else if not (e.unsigned.previous_hash == previous)
      then err chain_break
      else if not (digest u == e.event_hash)
      then err mutation_detected
      else ok tt

  unfoldable pub verify_rows : String → ℕ → String → List IncidentEvent → Result IncidentError ⊤
  verify_rows id expected previous [] = ok tt
  verify_rows id expected previous (e ∷ es) =
      Result.◌>>◌ (verify_row id expected previous e)
        (verify_rows id (expected + 1) e.event_hash es)

  unfoldable pub verify_history : String → String → Method ⊤
  verify_history id mission_id = do
    row ← get id (some mission_id)
    s ← gets (λ s. s)
    lift (verify_rows id 1 "GENESIS" (rows_of id s.events))
