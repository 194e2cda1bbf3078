-- ===== src/ControlPlane/Runner/Commit.antt =====
-- When `MissionRunner.transition` commits, and what it then leaves (factory/control_plane/runner.py).
use ai_factory.Base.{
  ℕ, String, false, ◌||◌, ◌≡◌, ◌⊎◌, inl, inr, none, some, [], ◌∷◌, ◌++◌, arith, ◌==◌, length, any,
  is_empty, Option-cases, Bool-cases,
}
use ai_factory.Base.Result.{ok, err, Result-cases}
use ai_factory.Base.Dict.{lookup, insert}
use ai_factory.ControlPlane.State.{validate_transition}
use ai_factory.ControlPlane.Ledger.{
  Unsigned, AuditEvent, append, next_event, duplicate_event_id, required_missing,
}
use ai_factory.ControlPlane.Runner.{
  Payload, MissionRunner, Request, RunnerError, unknown_task, gate_error, ledger_error,
  TaskRuntimeRecord, context_of, payload_of, committed, event_id_or_next, transition_type,
  transition,
}

-- The id of the event that a request appends.
abbrev pub id_for : Request → MissionRunner → String
id_for q m = event_id_or_next q.event_id (length m.ledger)

module _ (digest : Unsigned Payload → String) (clock : ℕ → String) where
  abbrev pub event_for : Request → MissionRunner → TaskRuntimeRecord → AuditEvent Payload
  event_for q m r =
      next_event digest (id_for q m) m.mission_id q.actor_id transition_type (payload_of r q) none
        (clock (length m.ledger)) m.ledger

  abbrev pub commit : Request → MissionRunner → TaskRuntimeRecord → MissionRunner
  commit q m r = record m {
    tasks = insert q.task_id (committed r q) m.tasks;
    ledger = m.ledger ++ event_for q m r ∷ [];
  }

-- A known task, a transition that the gate accepts, and an event that the ledger accepts.
pub record IsAccepted (q : Request) (m : MissionRunner) (r : TaskRuntimeRecord) : Type 0 where
  pub found : lookup q.task_id m.tasks ≡ some r
  pub gated : validate_transition r.state q.target (context_of r q) ≡ ok tt
  pub new_id : any (λ (e : AuditEvent Payload). e.event_id == id_for q m) m.ledger ≡ false
  pub named : (is_empty m.mission_id || is_empty q.actor_id) ≡ false

module _ (digest : Unsigned Payload → String) (clock : ℕ → String) where
  pub transition_of_IsAccepted :
      (q : Request) (m : MissionRunner) (r : TaskRuntimeRecord)
      → IsAccepted q m r
      → transition digest clock q m ≡ (ok (event_for digest clock q m r), commit digest clock q m r)
  unfolding transition append
  transition_of_IsAccepted q m r h = ground arith

  pub transition-cases :
      (q : Request) (m : MissionRunner)
      → ((r : TaskRuntimeRecord) × IsAccepted q m r)
        ⊎ ((x : RunnerError) × (transition digest clock q m ≡ (err x, m)))
  unfolding transition append
  transition-cases q m = elim (Option-cases (lookup q.task_id m.tasks)) [
    | inl missing ↦ inr (unknown_task q.task_id, ground arith)
    | inr (r, found) ↦ elim (Result-cases (validate_transition r.state q.target (context_of r q))) [
      | inr (x, refused) ↦ inr (gate_error x, ground arith)
      | inl (u, gated) ↦
          elim (Bool-cases (any (λ (e : AuditEvent Payload). e.event_id == id_for q m) m.ledger)) [
            | inl old ↦ inr (ledger_error duplicate_event_id, ground arith)
            | inr new_id ↦ elim (Bool-cases (is_empty m.mission_id || is_empty q.actor_id)) [
              | inl nameless ↦ inr (ledger_error required_missing, ground arith)
              | inr named ↦
                  inl (r, record { found = found; gated = gated; new_id = new_id; named = named })
            ]
          ]
    ]
  ]
