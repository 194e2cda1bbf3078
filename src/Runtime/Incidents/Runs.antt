-- ===== src/Runtime/Incidents/Runs.antt =====
-- Runs of the incident store, one public call after another (factory/runtime/incidents.py).
use ai_factory.Base.{String, Bool, Option, List, [], ◌∷◌}
use ai_factory.Runtime.Incidents.{Unsigned, IncidentStore, Approvals}
use ai_factory.Runtime.Incidents.Calls.{
  declare, transition, record_evidence, plan_action, mark_action_executed, verify_recovery,
}

-- A public call that may write.
pub data Command : Type 0 where
  declare_call : String → String → String → String → String → List String → String → Command
  transition_call recovery_call : String → String → String → String → String → Command
  evidence_call : String → String → String → String → String → String → String → Command
  plan_call :
      String → String → String → String → String → Bool → String → Option String → String → Command
  execute_call : Approvals → String → String → String → String → String → Command

abbrev pub empty_store : IncidentStore
empty_store = record { incidents = []; evidence = []; actions = []; events = [] }

module _ (digest : Unsigned → String) where
  -- The store after a call, whether it returned or raised.
  unfoldable pub after : Command → IncidentStore → IncidentStore
  after (declare_call id mission_id severity title by scope now) s =
      (declare digest id mission_id severity title by scope now s).1
  after (transition_call id mission_id actor_id new_status now) s =
      (transition digest id mission_id actor_id new_status now s).1
  after (evidence_call id mission_id evidence_id kind reference by now) s =
      (record_evidence digest id mission_id evidence_id kind reference by now s).1
  after (plan_call id mission_id action_id action_type target protected by proposal now) s =
      (plan_action digest id mission_id action_id action_type target protected by proposal now s).1
  after (execute_call approvals id mission_id action_id actor_id now) s =
      (mark_action_executed digest approvals id mission_id action_id actor_id now s).1
  after (recovery_call id mission_id actor_id evidence_id now) s =
      (verify_recovery digest id mission_id actor_id evidence_id now s).1

  unfoldable pub run : List Command → IncidentStore → IncidentStore
  run [] s = s
  run (c ∷ cs) s = run cs (after c s)
