-- ===== src/Runtime/Incidents/Effects.antt =====
-- What the methods leave of the incidents and of their evidence (factory/runtime/incidents.py).
use ai_factory.Base.{
  String, Bool, true, ◌≡◌, Option, none, some, List, [], ◌∷◌, ◌++◌, arith, Option-cases, ◌⊎◌, inl,
  inr, any, ⊤, not, ◌||◌, Bool, false, refl, ap, sym, ◌∙◌, subst, contains, is_nil, is_blank,
}
use ai_factory.Base.Dict.{lookup, insert}
use ai_factory.Base.Result.{Result, ok, err}
use ai_factory.Base.Action.{transaction, raise_if, ◌>>◌, >>=-elim}
use ai_factory.Runtime.Incidents.{
  severities, all_named, invalid_severity, identity_required, scope_required, incident_declared,
  Happening, Method, IncidentError, Unsigned, IncidentStore, IncidentRecord, IncidentStatus, closed,
  incident_of, is_evidence, of_value, Approvals, status_changed, recovery_verified_by,
}
use ai_factory.Runtime.Incidents.Calls.{
  append_event, transition, get, record_evidence, new_evidence, declare, inserted, new_incident,
  as_duplicate, plan_action, mark_action_executed, verify_recovery,
}
use ai_factory.Runtime.Incidents.Links.{as_duplicate-state, append_event-cases}

pub get-quiet : (id mission_id : String) (s : IncidentStore) → (get id (some mission_id) s).1 ≡ s
unfolding get incident_of
get-quiet id mission_id s = ground arith

transaction-cases :
    {A : Type 0} (m : Method A) (s : IncidentStore)
    → ((transaction m s).1 ≡ s) ⊎ ((transaction m s).1 ≡ (m s).1)
transaction-cases m s = by_answer (m s)
  where
    by_answer :
        {A : Type 0} (x : Result IncidentError A × IncidentStore)
        → ((transaction (λ _. x) s).1 ≡ s) ⊎ ((transaction (λ _. x) s).1 ≡ x.1)
    by_answer (ok a, t) = inr refl
    by_answer (err e, t) = inl refl

-- Three checks, a transaction, and a look at what it has left.
pub checked :
    (b c d : Bool) (e f g : IncidentError) (m : Method ⊤) (look : Method IncidentRecord)
    → ((s : IncidentStore) → (look s).1 ≡ s)
    → (s : IncidentStore)
    → let t = ((raise_if b e >> (raise_if c f >> (raise_if d g >> (transaction m >> look)))) s).1 in
      (t ≡ s) ⊎ (t ≡ (m s).1)
checked true c d e f g m look quiet s = inl refl
checked false true d e f g m look quiet s = inl refl
checked false false true e f g m look quiet s = inl refl
checked false false false e f g m look quiet s =
    let last : ((transaction m >> look) s).1 ≡ (transaction m s).1 =
      >>=-elim (λ x. x.1 ≡ (transaction m s).1) (transaction m) (λ _. look) s
        (λ _ t h. quiet t ∙ ap (λ z. z.1) (sym h)) (λ e t h. ap (λ z. z.1) (sym h)) in
    elim (transaction-cases m s) [ inl same ↦ inl (last ∙ same) | inr same ↦ inr (last ∙ same) ]

module _ (digest : Unsigned → String) where
  transition_row :
      (id mission_id actor_id new_status now : String) (s : IncidentStore) {row : IncidentRecord}
      {target : IncidentStatus}
      → of_value new_status ≡ some target
      → lookup id s.incidents ≡ some row
      → let t = (transition digest id mission_id actor_id new_status now s).1 in
        ((t.incidents ≡ s.incidents) × (t.evidence ≡ s.evidence))
        ⊎ ((target ≡ closed → row.recovery_verified ≡ true)
            × (t.incidents
                ≡ insert id (record row { status = target; updated_at = now }) s.incidents)
            × (t.evidence ≡ s.evidence))
  unfolding transition get incident_of
  transition_row id mission_id actor_id new_status now s {row} {target} e f = ground (
    arith,
    append_event-cases digest id actor_id (status_changed row.status target) now (record s {
      incidents = insert id (record row { status = target; updated_at = now }) s.incidents;
    }),
  )

  recovery_row :
      (id mission_id actor_id evidence_id now : String) (s : IncidentStore) {row : IncidentRecord}
      → lookup id s.incidents ≡ some row
      → let t = (verify_recovery digest id mission_id actor_id evidence_id now s).1 in
        ((t.incidents ≡ s.incidents) × (t.evidence ≡ s.evidence))
        ⊎ ((any (is_evidence id evidence_id) s.evidence ≡ true)
            × (t.incidents
                ≡ insert id (record row { recovery_verified = true; updated_at = now }) s.incidents)
            × (t.evidence ≡ s.evidence))
  unfolding verify_recovery incident_of
  recovery_row id mission_id actor_id evidence_id now s {row} f = ground (
    arith,
    append_event-cases digest id actor_id (recovery_verified_by evidence_id) now (record s {
      incidents = insert id (record row { recovery_verified = true; updated_at = now }) s.incidents;
    }),
  )

  pub evidence_row :
      (id mission_id evidence_id kind reference by now : String) (s : IncidentStore)
      → let t = (record_evidence digest id mission_id evidence_id kind reference by now s).1 in
        (t.incidents ≡ s.incidents)
        × ((t.evidence ≡ s.evidence)
            ⊎ (t.evidence ≡ s.evidence ++ new_evidence id evidence_id kind reference by now ∷ []))
  unfolding record_evidence incident_of append_event
  evidence_row id mission_id evidence_id kind reference by now s = ground arith

  pub plan_row :
      (id mission_id action_id action_type target : String) (protected : Bool) (by : String)
      (proposal : Option String) (now : String) (s : IncidentStore)
      → let t =
          (plan_action digest id mission_id action_id action_type target protected by proposal now
            s).1 in
        (t.incidents ≡ s.incidents) × (t.evidence ≡ s.evidence)
  unfolding plan_action incident_of append_event
  plan_row id mission_id action_id action_type target protected by proposal now s = ground arith

  pub execute_row :
      (approvals : Approvals) (id mission_id action_id actor_id now : String) (s : IncidentStore)
      → let t = (mark_action_executed digest approvals id mission_id action_id actor_id now s).1 in
        (t.incidents ≡ s.incidents) × (t.evidence ≡ s.evidence)
  unfolding mark_action_executed incident_of append_event
  execute_row approvals id mission_id action_id actor_id now s = ground arith

  inserted_row :
      (id by : String) (row : IncidentRecord) (happening : Happening) (now : String)
      (s : IncidentStore)
      → let t = (inserted digest id by row happening now s).1 in
        ((t.incidents ≡ s.incidents) × (t.evidence ≡ s.evidence))
        ⊎ ((lookup id s.incidents ≡ none)
            × (t.incidents ≡ insert id row s.incidents)
            × (t.evidence ≡ s.evidence))
  unfolding inserted
  inserted_row id by row happening now s = ground (
    arith,
    append_event-cases digest id by happening now
        (record s { incidents = insert id row s.incidents }),
  )

  pub declare_row :
      (id mission_id severity title by : String) (scope : List String) (now : String)
      (s : IncidentStore)
      → let t = (declare digest id mission_id severity title by scope now s).1 in
        ((t.incidents ≡ s.incidents) × (t.evidence ≡ s.evidence))
        ⊎ ((lookup id s.incidents ≡ none)
            × (t.incidents
                ≡ insert id
                    (new_incident digest id mission_id severity title by scope now)
                    s.incidents)
            × (t.evidence ≡ s.evidence))
  unfolding declare
  declare_row id mission_id severity title by scope now s =
      let row = new_incident digest id mission_id severity title by scope now in
      let happening = incident_declared severity scope in
      elim (checked (not (contains severity severities)) (not (all_named id mission_id title by))
        (is_nil scope || any is_blank scope) invalid_severity identity_required scope_required
        (as_duplicate (inserted digest id by row happening now)) (get id (some mission_id))
        (get-quiet id mission_id) s) [
          | inl same ↦ inl (
            ap (λ (t : IncidentStore). t.incidents) same,
            ap (λ (t : IncidentStore). t.evidence) same,
          )
          | inr same ↦
              subst
                (λ (t : IncidentStore).
                  ((t.incidents ≡ s.incidents) × (t.evidence ≡ s.evidence))
                  ⊎ ((lookup id s.incidents ≡ none)
                      × (t.incidents ≡ insert id row s.incidents)
                      × (t.evidence ≡ s.evidence)))
                (sym (same ∙ as_duplicate-state (inserted digest id by row happening now) s))
                (inserted_row id by row happening now s)
        ]

  -- Nothing changes, or the status of a row does, which is verified where it is closed.
  pub transition-cases :
      (id mission_id actor_id new_status now : String) (s : IncidentStore)
      → let t = (transition digest id mission_id actor_id new_status now s).1 in
        ((t.incidents ≡ s.incidents) × (t.evidence ≡ s.evidence))
        ⊎ ((row : IncidentRecord) × (target : IncidentStatus) × (lookup id s.incidents ≡ some row)
            × (target ≡ closed → row.recovery_verified ≡ true)
            × (t.incidents
                ≡ insert id (record row { status = target; updated_at = now }) s.incidents)
            × (t.evidence ≡ s.evidence))
  unfolding transition get incident_of
  transition-cases id mission_id actor_id new_status now s =
      elim (Option-cases (of_value new_status)) [
        | inl e ↦ inl (ground arith, ground arith)
        | inr (target, e) ↦ elim (Option-cases (lookup id s.incidents)) [
          | inl f ↦ inl (ground arith, ground arith)
          | inr (row, f) ↦ elim (transition_row id mission_id actor_id new_status now s e f) [
            | inl same ↦ inl same
            | inr (close, p, q) ↦ inr (row, target, f, close, p, q)
          ]
        ]
      ]

  pub recovery-cases :
      (id mission_id actor_id evidence_id now : String) (s : IncidentStore)
      → let t = (verify_recovery digest id mission_id actor_id evidence_id now s).1 in
        ((t.incidents ≡ s.incidents) × (t.evidence ≡ s.evidence))
        ⊎ ((row : IncidentRecord) × (lookup id s.incidents ≡ some row)
            × (any (is_evidence id evidence_id) s.evidence ≡ true)
            × (t.incidents
                ≡ insert id (record row { recovery_verified = true; updated_at = now }) s.incidents)
            × (t.evidence ≡ s.evidence))
  unfolding verify_recovery incident_of
  recovery-cases id mission_id actor_id evidence_id now s =
      elim (Option-cases (lookup id s.incidents)) [
        | inl f ↦ inl (ground arith, ground arith)
        | inr (row, f) ↦ elim (recovery_row id mission_id actor_id evidence_id now s f) [
          | inl same ↦ inl same
          | inr (e, p, q) ↦ inr (row, f, e, p, q)
        ]
      ]
