-- ===== src/ControlPlane/Tests.antt =====
-- The control plane on concrete missions.
use ai_factory.Base.{
  ℕ, String, Bool, true, false, contains, ◌≡◌, refl, ◌≢◌, ◌↔◌, ◌⊎◌, Option, none, some, List, [],
  ◌∷◌, ◌++◌, String-discrete,
}
use ai_factory.Base.Result.{ok, err}
use ai_factory.Base.Sorting.{sort_by}
use ai_factory.Base.Decimal.{six_digits}
use ai_factory.Base.Dict.{lookup, insert, values}
use ai_factory.ControlPlane.State.{
  TaskState, backlog, ready, in_progress, ready_for_verification, review, verified, done,
  validate_transition,
}
use ai_factory.ControlPlane.State.Gate.{
  full_context, IsVerifiable, validate_transition-verified, validate_transition-done, Reach,
  Reach-done,
}
use ai_factory.ControlPlane.Graph.Depth.{validate_graph-fuel}
use ai_factory.ControlPlane.Graph.{
  dependency_cycle, out_of_fuel, TaskNode, can_run_in_parallel, validate_graph, ready_tasks,
}
use ai_factory.ControlPlane.Ledger.{
  Unsigned, AuditEvent, append, next_event, verify_integrity, verify_from, verify_event,
}
use ai_factory.ControlPlane.Ledger.Integrity.{
  Collision, verify_integrity_pins, verify_integrity-append,
}
use ai_factory.ControlPlane.Runner.{
  Payload, MissionRunner, RunnerError, TaskRuntimeRecord, Request, new, started, transition,
  release_ready_tasks, release_each, next_workers, event_id_or_next, replay,
}
use ai_factory.ControlPlane.Runner.Run.{
  Command, move, release, run, after, run-verifies, transition_atomic,
}
use ai_factory.ControlPlane.Runner.Trust.{IsTrusted, run-IsTrusted}
use ai_factory.ControlPlane.Runner.Replay.{SameTasks, replay_rebuilds}
use ai_factory.ControlPlane.Orchestration.{
  FailureContext, reconcile, retry, retry_decision, parallel_pairs, invalidate_downstream, spread,
}
use ai_factory.ControlPlane.Orchestration.Downstream.{Downstream, invalidate_downstream_lem}
use ai_factory.ControlPlane.Policy.{
  AgentRecord, AgentRegistry, unknown_agent, duplicate_agent, authorize, register, get, candidates,
}
use ai_factory.ControlPlane.Records.{own_work, validate_review}

abbrev digest : Unsigned Payload → String
digest u = u.event_id

abbrev clock : ℕ → String
clock n = "2026-01-01T00:00:00+00:00"

abbrev ids : List String
ids = "T-1" ∷ "T-2" ∷ []

abbrev nodes : Option (List TaskNode)
nodes = some (
    record { task_id = "T-1"; dependencies = []; write_scopes = "a" ∷ [] }
    ∷ record { task_id = "T-2"; dependencies = "T-1" ∷ []; write_scopes = "b" ∷ [] }
    ∷ [])

abbrev mission : MissionRunner
mission = started "M-1" ids nodes

abbrev ask : TaskState → String → List String → List String → Request
ask target actor_id evidence_ids reviewer_ids = record {
  task_id = "T-1";
  target = target;
  actor_id = actor_id;
  evidence_ids = evidence_ids;
  reviewer_ids = reviewer_ids;
  blocking_objections = [];
  human_approval_id = none;
  event_id = none;
}

abbrev evidence : List String
evidence = "E-1" ∷ []

abbrev to_done : List Command
to_done =
    release "planner"
    ∷ move (ask in_progress "builder" [] [])
    ∷ move (ask ready_for_verification "builder" evidence [])
    ∷ move (ask review "builder" evidence [])
    ∷ move (ask verified "builder" evidence ("builder" ∷ []))
    ∷ move (ask verified "lead" evidence ("checker" ∷ []))
    ∷ move (ask done "lead" [] [])
    ∷ []

mission_starts : new "M-1" ids nodes ≡ ok mission
unfolding new validate_graph lookup
mission_starts = refl

abbrev finished : TaskRuntimeRecord
finished = record {
  task_id = "T-1";
  state = done;
  evidence_ids = evidence;
  reviewer_ids = "checker" ∷ [];
  worker_ids = "builder" ∷ [];
  blocking_objections = [];
}

mission_finishes : lookup "T-1" (run digest clock to_done mission).tasks ≡ some finished
unfolding run after transition release_ready_tasks release_each ready_tasks lookup insert values
    append validate_transition next_workers event_id_or_next six_digits
mission_finishes = refl

run-IsTrusted_example : IsTrusted "T-1" (run digest clock to_done mission).ledger finished
run-IsTrusted_example =
    run-IsTrusted digest clock "M-1" ids nodes to_done "T-1" mission_starts mission_finishes

run-verifies_example : verify_integrity digest (run digest clock to_done mission).ledger ≡ ok tt
run-verifies_example = run-verifies digest clock "M-1" ids nodes to_done mission_starts

-- The clock of another day.
abbrev later : ℕ → String
later n = "2026-02-01T00:00:00+00:00"

replay_rebuilds_example :
    (n : MissionRunner) × (replay digest later "M-1" ids
        (run digest clock to_done mission).ledger
        nodes
      ≡ ok n)
    × SameTasks (run digest clock to_done mission) n
replay_rebuilds_example = replay_rebuilds digest clock later "M-1" ids nodes to_done mission_starts

transition_atomic_example :
    let (x, m') = transition digest clock (ask ready "planner" [] []) mission in
    ((e : RunnerError) × (x ≡ err e) × (m' ≡ mission))
    ⊎ ((e : AuditEvent Payload) × (x ≡ ok e) × (m'.ledger ≡ mission.ledger ++ e ∷ []))
transition_atomic_example = transition_atomic digest clock (ask ready "planner" [] []) mission

validate_transition-verified_example :
    (validate_transition review verified full_context ≡ ok tt)
    ↔ ((review ≡ review) × IsVerifiable full_context)
validate_transition-verified_example = validate_transition-verified review full_context

passes : validate_transition verified done full_context ≡ ok tt
unfolding validate_transition
passes = refl

validate_transition-done_example : verified ≡ verified
validate_transition-done_example = validate_transition-done verified full_context passes

Reach-done_example : Reach backlog done
Reach-done_example = Reach-done backlog (λ e. absurd (cc e))

abbrev text_digest : Unsigned String → String
text_digest u = u.event_id

abbrev one_event : List (AuditEvent String)
one_event = next_event text_digest "E-1" "M-1" "actor" "NOTE" "hello" none "now" [] ∷ []

one_event_verifies : verify_integrity text_digest one_event ≡ ok tt
unfolding verify_integrity verify_from verify_event
one_event_verifies = refl

verify_integrity_pins_example : (one_event ≡ one_event) ⊎ Collision text_digest
verify_integrity_pins_example =
    verify_integrity_pins String-discrete text_digest one_event one_event one_event_verifies
      one_event_verifies refl refl

verify_integrity-append_example :
    verify_integrity text_digest
      (append text_digest "E-1" "M-1" "actor" "NOTE" "again" none "now" one_event).1
    ≡ ok tt
verify_integrity-append_example =
    verify_integrity-append text_digest "E-1" "M-1" "actor" "NOTE" "again" none "now" one_event
      one_event_verifies

abbrev cycle : List TaskNode
cycle =
    record { task_id = "T-1"; dependencies = "T-2" ∷ []; write_scopes = [] }
    ∷ record { task_id = "T-2"; dependencies = "T-1" ∷ []; write_scopes = [] }
    ∷ []

cycle_is_refused : validate_graph cycle ≡ err dependency_cycle
unfolding validate_graph lookup
cycle_is_refused = refl

validate_graph-fuel_example : validate_graph cycle ≢ err out_of_fuel
validate_graph-fuel_example = validate_graph-fuel cycle

abbrev chain : List TaskNode
chain =
    record { task_id = "A"; dependencies = []; write_scopes = "a" ∷ [] }
    ∷ record { task_id = "B"; dependencies = "A" ∷ []; write_scopes = "b" ∷ [] }
    ∷ record { task_id = "C"; dependencies = "A" ∷ "B" ∷ []; write_scopes = "c" ∷ [] }
    ∷ record { task_id = "D"; dependencies = []; write_scopes = "a" ∷ [] }
    ∷ []

invalidate_downstream_lem_example :
    (stale : List String) × (invalidate_downstream "A" chain ≡ some stale)
    × ((x : String) → (contains x stale ≡ true) ↔ Downstream chain "A" x)
invalidate_downstream_lem_example = invalidate_downstream_lem "A" chain

a_change_spreads : invalidate_downstream "A" chain ≡ some ("C" ∷ "B" ∷ [])
unfolding invalidate_downstream spread
a_change_spreads = refl

pairs_of_the_chain : parallel_pairs chain ≡ ("B", "D") ∷ ("C", "D") ∷ []
unfolding parallel_pairs can_run_in_parallel
pairs_of_the_chain = refl

abbrev failure : Bool → Bool → FailureContext
failure side_effecting outcome_known = record {
  transient = true;
  side_effecting = side_effecting;
  outcome_known = outcome_known;
  attempts = 1;
  max_retries = 2;
}

unknown_effects_reconcile : retry_decision (failure true false) ≡ reconcile
unfolding retry_decision
unknown_effects_reconcile = refl

known_failures_retry : retry_decision (failure true true) ≡ retry
unfolding retry_decision
known_failures_retry = refl

deploying_needs_a_human :
    authorize
      (record { agent_id = "A-1"; capabilities = "production.deploy" ∷ [] })
      "production.deploy"
      false
    ≡ false
unfolding authorize
deploying_needs_a_human = refl

abbrev agent : String → Bool → AgentRecord
agent agent_id enabled = record {
  agent_id = agent_id;
  role = "builder";
  capabilities = "code" ∷ [];
  write_scopes = [];
  enabled = enabled;
}

abbrev agents : AgentRegistry
agents = ("A-2", agent "A-2" true) ∷ ("A-1", agent "A-1" true) ∷ ("A-3", agent "A-3" false) ∷ []

enabled_agents_by_id : candidates "code" agents ≡ agent "A-1" true ∷ agent "A-2" true ∷ []
unfolding candidates values sort_by
enabled_agents_by_id = refl

registered_once : register (agent "A-2" false) agents ≡ (err (duplicate_agent "A-2"), agents)
unfolding register lookup
registered_once = refl

no_such_agent : get "A-9" agents ≡ (err (unknown_agent "A-9"), agents)
unfolding get lookup
no_such_agent = refl

no_review_of_own_work :
    validate_review
      (record {
        review_id = "R-1";
        mission_id = "M-1";
        task_id = "T-1";
        reviewer_id = "builder";
        evidence_ids = evidence;
        verdict = "APPROVE";
        notes = "";
      })
      ("builder" ∷ [])
    ≡ err own_work
unfolding validate_review
no_review_of_own_work = refl
