-- ===== src/Reliability/Store.antt =====
-- factory/reliability/store.py: the durable journal, one table to a field, rows in the order of
-- insertion. JSON round trips are identities, and the write-only `updated_at` and `created_at`
-- columns are left out.
pub mod Journal
pub mod Effects
use ai_factory.Base.{
  ℕ, ◌+◌, String, Bool, true, false, not, ◌&&◌, Option, none, some, List, [], ◌∷◌, ◌++◌, map, ⊤,
  if◌then◌else◌, ◌==◌, eqb, is_some, select, get_last?,
}
use ai_factory.Base.Dict.{Dict, lookup, insert}
use ai_factory.Base.Result.{Result, ok, err, map_err}
use ai_factory.Base.Action.{
  Action, pure, raise, raise_if, gets, modify, lift, or_raise, transaction, ◌>>=◌, ◌>>◌,
}
use ai_factory.Reliability.Contracts.{
  ContractError, OperationSpec, AttemptRecord, CircuitBreakerState, RecoveryDecision,
  RecoveryAction, complete, retry, reconcile, stop, other_action, Reconciliation,
  is_known_reconciliation, DeadlineObservation, CompensationPlan, CompensationRecord,
  ReliabilityMetric, default_circuit, validate_operation, validate_attempt, validate_circuit,
  validate_decision, validate_deadline, validate_plan, validate_compensation, validate_metric,
}

pub data Status : Type 0 where
  op_ready retry_ready reconcile_required completed stopped : Status

abbrev pub is_terminal : Status → Bool
is_terminal completed = true
is_terminal stopped = true
is_terminal _ = false

abbrev pub is_reconcile_required : Status → Bool
is_reconcile_required reconcile_required = true
is_reconcile_required _ = false

pub record OperationRow : Type 0 where
  pub spec : OperationSpec
  pub status : Status
  pub latest_attempt : ℕ

-- A row of `reliability_events`, by its type, without its key.
pub data Event : Type 0 where
  attempt_event : AttemptRecord → Event
  decision_event : RecoveryDecision → Event
  circuit_event : CircuitBreakerState → Event
  reconciliation_event : Reconciliation → Event
  deadline_event : DeadlineObservation → Event
  compensation_event : CompensationRecord → Event

pub record EventRow : Type 0 where
  pub operation_id : String
  pub event : Event

pub record CompensationRow : Type 0 where
  pub plan : CompensationPlan
  pub outcome : Option CompensationRecord

pub record Store : Type 0 where
  pub operations : Dict OperationRow
  pub circuits : Dict CircuitBreakerState
  pub events : List EventRow
  pub deadlines : List DeadlineObservation
  pub compensations : Dict CompensationRow
  pub metrics : List ReliabilityMetric

pub data StoreError : Type 0 where
  invalid : ContractError → StoreError
  duplicate_operation unknown_operation unknown_circuit : String → StoreError
  operation_mismatch terminal_operation invalid_reconciliation : StoreError
  reconciliation_not_required plan_mismatch duplicate_plan unknown_plan : StoreError
  no_attempt no_decision no_deadline unknown_action : StoreError
  sequence_mismatch : ℕ → ℕ → StoreError

abbrev pub Method : Type 0 → Type 0
Method A = Action Store StoreError A

abbrev pub validated : Result ContractError ⊤ → Method ⊤
validated r = lift (map_err invalid r)

-- The inserts and updates.
abbrev pub put_operation : String → OperationRow → Method ⊤
put_operation id row = modify (λ s. record s { operations = insert id row s.operations })

abbrev pub put_circuit : String → CircuitBreakerState → Method ⊤
put_circuit id c = modify (λ s. record s { circuits = insert id c s.circuits })

abbrev pub add_event : String → Event → Method ⊤
add_event id e =
    modify (λ s. record s { events = s.events ++ record { operation_id = id; event = e } ∷ [] })

unfoldable pub register : OperationSpec → Method ⊤
register operation = do
  validated (validate_operation operation)
  transaction (do
    s ← gets (λ s. s)
    raise_if (is_some (lookup operation.operation_id s.operations))
        (duplicate_operation operation.operation_id)
    put_operation operation.operation_id
        (record { spec = operation; status = op_ready; latest_attempt = 0 })
    raise_if (is_some (lookup operation.operation_id s.circuits))
        (duplicate_operation operation.operation_id)
    put_circuit operation.operation_id default_circuit)

unfoldable pub load_operation : String → Method OperationSpec
load_operation id = do
  s ← gets (λ s. s)
  row ← or_raise (lookup id s.operations) (unknown_operation id)
  validated (validate_operation row.spec)
  pure row.spec

-- `state`
unfoldable pub state_of : String → Method OperationRow
state_of id = do s ← gets (λ s. s); or_raise (lookup id s.operations) (unknown_operation id)

-- `_status_for`; an unknown action is a `KeyError`.
abbrev pub status_for : RecoveryAction → Option Status
status_for complete = some completed
status_for retry = some retry_ready
status_for reconcile = some reconcile_required
status_for stop = some stopped
status_for (other_action _) = none

-- The part under `if circuit is not None`.
unfoldable pub write_circuit : String → Option CircuitBreakerState → Method ⊤
write_circuit id none = pure tt
write_circuit id (some c) = do
  s ← gets (λ s. s)
  raise_if (not (is_some (lookup id s.circuits))) (unknown_circuit id)
  put_circuit id c
  add_event id (circuit_event c)

abbrev pub validated_circuit : Option CircuitBreakerState → Method ⊤
validated_circuit none = pure tt
validated_circuit (some c) = validated (validate_circuit c)

unfoldable pub append_attempt_and_decision :
    AttemptRecord → RecoveryDecision → Option CircuitBreakerState → Method ⊤
append_attempt_and_decision attempt decision circuit = do
  validated (validate_attempt attempt)
  validated (validate_decision decision)
  validated_circuit circuit
  raise_if (not (attempt.operation_id == decision.operation_id)) operation_mismatch
  status ← or_raise (status_for decision.action) unknown_action
  transaction (do
    s ← gets (λ s. s)
    row ←
        or_raise (lookup attempt.operation_id s.operations) (unknown_operation attempt.operation_id)
    raise_if (is_terminal row.status) terminal_operation
    raise_if (not (eqb attempt.attempt (row.latest_attempt + 1)))
        (sequence_mismatch (row.latest_attempt + 1) attempt.attempt)
    add_event attempt.operation_id (attempt_event attempt)
    add_event decision.operation_id (decision_event decision)
    write_circuit attempt.operation_id circuit
    put_operation attempt.operation_id
        (record row { status = status; latest_attempt = attempt.attempt }))

unfoldable pub append_reconciliation_and_decision :
    String → Reconciliation → RecoveryDecision → Method ⊤
append_reconciliation_and_decision id result decision = do
  validated (validate_decision decision)
  raise_if (not (decision.operation_id == id)) operation_mismatch
  raise_if (not (is_known_reconciliation result)) invalid_reconciliation
  status ← or_raise (status_for decision.action) unknown_action
  transaction (do
    s ← gets (λ s. s)
    row ← or_raise (lookup id s.operations) (unknown_operation id)
    raise_if (not (is_reconcile_required row.status)) reconciliation_not_required
    add_event id (reconciliation_event result)
    add_event id (decision_event decision)
    put_operation id (record row { status = status }))

unfoldable pub load_circuit : String → Method CircuitBreakerState
load_circuit id = do
  s ← gets (λ s. s)
  c ← or_raise (lookup id s.circuits) (unknown_circuit id)
  validated (validate_circuit c)
  pure c

unfoldable pub save_circuit : String → CircuitBreakerState → Method ⊤
save_circuit id c = do
  validated (validate_circuit c)
  transaction (do
    s ← gets (λ s. s)
    raise_if (not (is_some (lookup id s.circuits))) (unknown_circuit id)
    put_circuit id c
    add_event id (circuit_event c))

unfoldable pub append_deadline : DeadlineObservation → Method ⊤
append_deadline o = do
  validated (validate_deadline o)
  transaction (do
    s ← gets (λ s. s)
    raise_if (not (is_some (lookup o.operation_id s.operations))) (unknown_operation o.operation_id)
    modify (λ s. record s { deadlines = s.deadlines ++ o ∷ [] })
    add_event o.operation_id (deadline_event o))

unfoldable pub latest_deadline : String → Method DeadlineObservation
latest_deadline id = do
  s ← gets (λ s. s)
  o ← or_raise (get_last? (select (λ o. o.operation_id == id) s.deadlines)) no_deadline
  validated (validate_deadline o)
  pure o

-- `operation.compensation_ref != plan.compensation_ref`
abbrev pub is_ref : Option String → String → Bool
is_ref none ref = false
is_ref (some r) ref = r == ref

unfoldable pub register_compensation : CompensationPlan → Method ⊤
register_compensation plan = do
  validated (validate_plan plan)
  operation ← load_operation plan.operation_id
  raise_if (not (is_ref operation.compensation_ref plan.compensation_ref)) plan_mismatch
  transaction (do
    s ← gets (λ s. s)
    raise_if (is_some (lookup plan.operation_id s.compensations)) duplicate_plan
    modify (λ s. record s {
      compensations =
          insert plan.operation_id (record { plan = plan; outcome = none }) s.compensations;
    }))

unfoldable pub record_compensation : CompensationRecord → Method ⊤
record_compensation r = do
  validated (validate_compensation r)
  transaction (do
    s ← gets (λ s. s)
    row ← or_raise (lookup r.operation_id s.compensations) unknown_plan
    modify (λ s. record s {
      compensations = insert r.operation_id (record row { outcome = some r }) s.compensations;
    })
    add_event r.operation_id (compensation_event r))

abbrev validated_outcome : Option CompensationRecord → Method ⊤
validated_outcome none = pure tt
validated_outcome (some r) = validated (validate_compensation r)

unfoldable pub compensation_record : String → Method (Option CompensationRecord)
compensation_record id = do
  s ← gets (λ s. s)
  row ← or_raise (lookup id s.compensations) unknown_plan
  validated_outcome row.outcome
  pure row.outcome

unfoldable pub append_metric : ReliabilityMetric → Method ⊤
append_metric m = do
  validated (validate_metric m)
  modify (λ s. record s { metrics = s.metrics ++ m ∷ [] })

unfoldable pub events_of : String → List EventRow → List Event
events_of id events = map (λ e. e.event) (select (λ (e : EventRow). e.operation_id == id) events)

abbrev pub attempts_in : List Event → List AttemptRecord
attempts_in [] = []
attempts_in (attempt_event a ∷ es) = a ∷ attempts_in es
attempts_in (_ ∷ es) = attempts_in es

abbrev pub decisions_in : List Event → List RecoveryDecision
decisions_in [] = []
decisions_in (decision_event d ∷ es) = d ∷ decisions_in es
decisions_in (_ ∷ es) = decisions_in es

unfoldable pub latest_attempt : String → Method AttemptRecord
latest_attempt id = do
  s ← gets (λ s. s)
  a ← or_raise (get_last? (attempts_in (events_of id s.events))) no_attempt
  validated (validate_attempt a)
  pure a

unfoldable pub latest_decision : String → Method RecoveryDecision
latest_decision id = do
  s ← gets (λ s. s)
  d ← or_raise (get_last? (decisions_in (events_of id s.events))) no_decision
  validated (validate_decision d)
  pure d
