-- ===== src/ControlPlane/Runner.antt =====
-- factory/control_plane/runner.py: the mission runner over a ledger that it alone writes to.
-- `clock n` is the clock's reading when the event after the first `n` is appended.
pub mod Commit
pub mod Run
pub mod Workers
pub mod Trust
pub mod Replay
use Prim.Native.String.{◌++◌ as str_append}
use ai_factory.Base.{
  ℕ, suc, ◌+◌, String, Bool, true, false, not, ◌&&◌, ◌||◌, Option, none, some, List, [], ◌∷◌, map,
  ⊤, if◌then◌else◌, ◌==◌, length, select, is_nil, contains, is_unique, same_set, is_absent,
  is_empty,
}
use ai_factory.Base.Result.{Result, ok, err, map_err}
use ai_factory.Base.Result
use ai_factory.Base.Action.{Action, pure, raise, gets, modify, lift, or_raise, ◌>>=◌, ◌>>◌}
use ai_factory.Base.Dict.{Dict, lookup, insert, values, keys}
use ai_factory.Base.Sorting.{sorted, distinct}
use ai_factory.Base.Decimal.{six_digits}
use ai_factory.ControlPlane.State.{
  TaskState, backlog, ready, in_progress, done, value, of_value, same, TransitionContext,
  TransitionError, validate_transition,
}
use ai_factory.ControlPlane.Graph.{TaskNode, GraphError, validate_graph, ready_tasks, index_by_id}
use ai_factory.ControlPlane.Ledger.{
  Unsigned, AuditEvent, LedgerError, append, events_of, from_events, verify_integrity,
}

pub record TaskRuntimeRecord : Type 0 where
  pub task_id : String
  pub state : TaskState
  pub evidence_ids : List String
  pub reviewer_ids : List String
  pub worker_ids : List String
  pub blocking_objections : List String

-- The payload of a TASK_STATE_TRANSITION event.
pub record Transition : Type 0 where
  pub task_id : String
  pub from_value : String
  pub to_value : String
  pub evidence_ids : List String
  pub reviewer_ids : List String
  pub worker_ids : List String
  pub blocking_objections : List String
  pub human_approval_id : Option String

-- A payload without the keys of a transition is only carried along.
pub data Payload : Type 0 where
  transition_payload : Transition → Payload
  opaque_payload : String → Payload

pub record MissionRunner : Type 0 where
  pub mission_id : String
  pub tasks : Dict TaskRuntimeRecord
  pub task_nodes : Dict TaskNode
  pub ledger : List (AuditEvent Payload)

pub data RunnerError : Type 0 where
  mission_id_required duplicate_task nodes_mismatch malformed_payload invalid_state : RunnerError
  unknown_task : String → RunnerError
  unfinished_tasks : List String → RunnerError
  gate_error : TransitionError → RunnerError
  ledger_error : LedgerError → RunnerError
  graph_error : GraphError → RunnerError

-- The arguments of `transition`.
pub record Request : Type 0 where
  pub task_id : String
  pub target : TaskState
  pub actor_id : String
  pub evidence_ids : List String
  pub reviewer_ids : List String
  pub blocking_objections : List String
  pub human_approval_id : Option String
  pub event_id : Option String

abbrev pub fresh : String → TaskRuntimeRecord
fresh task_id = record {
  task_id = task_id;
  state = backlog;
  evidence_ids = [];
  reviewer_ids = [];
  worker_ids = [];
  blocking_objections = [];
}

-- `task_nodes or (TaskNode(task_id) for task_id in ids)`
abbrev pub nodes_or_default : Option (List TaskNode) → List String → List TaskNode
nodes_or_default (some (n ∷ ns)) ids = n ∷ ns
nodes_or_default _ ids =
    map (λ id. record { task_id = id; dependencies = []; write_scopes = [] }) ids

-- The runner that `__init__` sets up, with an empty ledger.
abbrev pub started : String → List String → Option (List TaskNode) → MissionRunner
started mission_id ids task_nodes = record {
  mission_id = mission_id;
  tasks = map (λ id. (id, fresh id)) ids;
  task_nodes = index_by_id (nodes_or_default task_nodes ids);
  ledger = [];
}

-- `__init__`
unfoldable pub new :
    String → List String → Option (List TaskNode) → Result RunnerError MissionRunner
new mission_id ids task_nodes =
    let nodes = nodes_or_default task_nodes ids in
    Result.◌>>◌ (Result.raise_if (is_empty mission_id) mission_id_required) (
      Result.◌>>◌ (Result.raise_if (not (is_unique ids)) duplicate_task) (
        Result.◌>>◌ (map_err graph_error (validate_graph nodes)) (
          Result.◌>>◌
            (Result.raise_if (not (same_set ids (map (λ n. n.task_id) nodes))) nodes_mismatch)
            (ok (started mission_id ids task_nodes)))))

-- The workers after the request: an actor who takes the task up joins them.
unfoldable pub next_workers : TaskRuntimeRecord → Request → List String
unfolding sorted distinct
next_workers r q =
    if same q.target in_progress && not (contains q.actor_id r.worker_ids)
    then sorted (distinct (q.actor_id ∷ r.worker_ids))
    else r.worker_ids

abbrev pub context_of : TaskRuntimeRecord → Request → TransitionContext
context_of r q = record {
  evidence_ids = q.evidence_ids;
  reviewer_ids = q.reviewer_ids;
  worker_ids = next_workers r q;
  blocking_objections = q.blocking_objections;
  human_approval_id = q.human_approval_id;
}

abbrev pub payload_of : TaskRuntimeRecord → Request → Payload
payload_of r q = transition_payload (record {
  task_id = q.task_id;
  from_value = value r.state;
  to_value = value q.target;
  evidence_ids = q.evidence_ids;
  reviewer_ids = q.reviewer_ids;
  worker_ids = next_workers r q;
  blocking_objections = q.blocking_objections;
  human_approval_id = q.human_approval_id;
})

-- `event_id or f"EVT-{len(events) + 1:06d}"`
unfoldable pub event_id_or_next : Option String → ℕ → String
event_id_or_next given count =
    if is_absent given
    then str_append "EVT-" (six_digits (count + 1))
    else elim given [ none ↦ "" | some id ↦ id ]

-- The record after the commit.
abbrev pub committed : TaskRuntimeRecord → Request → TaskRuntimeRecord
committed r q = record r {
  state = q.target;
  worker_ids = next_workers r q;
  evidence_ids = if is_nil q.evidence_ids then r.evidence_ids else q.evidence_ids;
  reviewer_ids = if is_nil q.reviewer_ids then r.reviewer_ids else q.reviewer_ids;
  blocking_objections = q.blocking_objections;
}

abbrev pub transition_type : String
transition_type = "TASK_STATE_TRANSITION"

-- A call on the ledger that the runner holds.
abbrev pub on_ledger :
    {A : Type 0}
    → Action (List (AuditEvent Payload)) LedgerError A
    → Action MissionRunner RunnerError A
on_ledger m r =
    let (x, events) = m r.ledger in (map_err ledger_error x, record r { ledger = events })

module _ (digest : Unsigned Payload → String) (clock : ℕ → String) where
  unfoldable pub transition : Request → Action MissionRunner RunnerError (AuditEvent Payload)
  transition q = do
    runner ← gets (λ r. r)
    r ← or_raise (lookup q.task_id runner.tasks) (unknown_task q.task_id)
    lift (map_err gate_error (validate_transition r.state q.target (context_of r q)))
    event ← on_ledger (
        append digest (event_id_or_next q.event_id (length runner.ledger)) runner.mission_id
          q.actor_id transition_type (payload_of r q) none (clock (length runner.ledger)))
    modify (λ s. record s { tasks = insert q.task_id (committed r q) s.tasks })
    pure event

  abbrev pub release_request : String → String → Request
  release_request actor_id task_id = record {
    task_id = task_id;
    target = ready;
    actor_id = actor_id;
    evidence_ids = [];
    reviewer_ids = [];
    blocking_objections = [];
    human_approval_id = none;
    event_id = none;
  }

  unfoldable pub release_each : String → List String → Action MissionRunner RunnerError ⊤
  release_each actor_id [] = pure tt
  release_each actor_id (t ∷ ts) =
      transition (release_request actor_id t) >> release_each actor_id ts

  unfoldable pub release_ready_tasks : String → Action MissionRunner RunnerError (List String)
  release_ready_tasks actor_id = do
    runner ← gets (λ r. r)
    let states = map (λ (k, r). (k, value r.state)) runner.tasks
    task_ids ← lift (map_err graph_error (ready_tasks (values runner.task_nodes) states))
    release_each actor_id task_ids
    pure task_ids

  unfoldable pub assert_all_done : MissionRunner → Result RunnerError ⊤
  unfolding sorted keys verify_integrity
  assert_all_done runner =
      let unfinished = sorted (keys (select (λ (k, r). not (same r.state done)) runner.tasks)) in
      Result.◌>>◌ (Result.raise_if (not (is_nil unfinished)) (unfinished_tasks unfinished))
        (map_err ledger_error (verify_integrity digest runner.ledger))

  -- The request that `replay` makes of a recorded transition.
  abbrev pub request_of : AuditEvent Payload → Transition → TaskState → Request
  request_of e p target = record {
    task_id = p.task_id;
    target = target;
    actor_id = e.actor_id;
    evidence_ids = p.evidence_ids;
    reviewer_ids = p.reviewer_ids;
    blocking_objections = p.blocking_objections;
    human_approval_id = p.human_approval_id;
    event_id = some e.event_id;
  }

  unfoldable pub replay_transition :
      AuditEvent Payload → Payload → Action MissionRunner RunnerError ⊤
  replay_transition e (opaque_payload _) = raise malformed_payload
  replay_transition e (transition_payload p) = do
    target ← or_raise (of_value p.to_value) invalid_state
    transition (request_of e p target)
    pure tt

  -- The loop's body: other events are skipped.
  unfoldable pub replay_event : AuditEvent Payload → Action MissionRunner RunnerError ⊤
  replay_event e =
      if not (e.event_type == transition_type) then pure tt else replay_transition e e.payload

  unfoldable pub replay_events : List (AuditEvent Payload) → Action MissionRunner RunnerError ⊤
  replay_events [] = pure tt
  replay_events (e ∷ es) = replay_event e >> replay_events es

  -- What the replay of events on a runner returns: the runner, or the error.
  abbrev pub finish : Result RunnerError ⊤ × MissionRunner → Result RunnerError MissionRunner
  finish (x, runner) = Result.◌>>◌ x (ok runner)

  unfoldable pub replay :
      String
      → List String
      → List (AuditEvent Payload)
      → Option (List TaskNode)
      → Result RunnerError MissionRunner
  replay mission_id ids events task_nodes =
      Result.◌>>=◌ (map_err ledger_error (from_events digest events)) λ source.
        Result.◌>>=◌ (new mission_id ids task_nodes)
          λ runner. finish (replay_events (events_of (some mission_id) source) runner)
