-- ===== src/Reliability/Controller.antt =====
-- factory/reliability/controller.py: the controller over a store, with no trace sink. A sink is
-- called last in a method, and what it returns is not used.
pub mod Budget
pub mod Calls
pub mod Attempts
pub mod Runs
pub mod Resume
use ai_factory.Base.{
  ℕ, ◌+◌, String, Bool, true, false, not, ◌&&◌, Option, none, some, List, [], ◌∷◌, ◌++◌, ⊤,
  if◌then◌else◌, is_some,
}
use ai_factory.Base.Result.{Result, ok, err, map_err}
use ai_factory.Base.Int.{ℤ}
use ai_factory.Base.Action.{Action, pure, raise_if, gets, lift, ◌>>=◌, ◌>>◌}
use ai_factory.Reliability.Contracts.{
  ContractError, OperationSpec, AttemptRecord, CircuitBreakerState, RecoveryDecision,
  RecoveryAction, retry, stop, unknown, is_retry, is_opened, is_success, is_unknown, Reconciliation,
  DeadlineObservation, timed_out, within_deadline, is_over, CompensationPlan, CompensationRecord,
  is_succeeded, ReliabilityMetric, validate_decision, validate_deadline,
}
use ai_factory.Reliability.Engine.{
  EngineError, contract, decide, decided, next_circuit_state, half_open_circuit,
}
use ai_factory.Reliability.Store.{
  Store, StoreError, OperationRow, Status, op_ready, is_reconcile_required,
}
use ai_factory.Reliability.Store

pub data ControllerError : Type 0 where
  engine_error : EngineError → ControllerError
  store_error : StoreError → ControllerError
  circuit_is_open not_waiting not_ambiguous no_compensation_declared : ControllerError

abbrev pub Call : Type 0 → Type 0
Call A = Action Store ControllerError A

-- A call of the store or of the engine.
abbrev pub on_store : {A : Type 0} → Action Store StoreError A → Call A
on_store m s = let (x, s') = m s in (map_err store_error x, s')

abbrev pub by_engine : {A : Type 0} → Result EngineError A → Call A
by_engine r = lift (map_err engine_error r)

abbrev pub metric : OperationSpec → String → String → ReliabilityMetric
metric operation operation_id name = record {
  mission_id = operation.mission_id;
  name = name;
  value = 1;
  operation_id = some operation_id;
  unit = "count";
}

abbrev pub count_metric : OperationSpec → String → String → Call ⊤
count_metric operation operation_id name =
    on_store (Store.append_metric (metric operation operation_id name))

unfoldable pub register : OperationSpec → Call ⊤
register operation = on_store (Store.register operation)

-- A retry becomes a stop when the attempt has opened the circuit.
unfoldable pub final_decision :
    OperationSpec → CircuitBreakerState → RecoveryDecision → Result EngineError RecoveryDecision
unfolding validate_decision
final_decision operation next_circuit decision =
    if is_opened next_circuit.state && is_retry decision.action
    then (let d = decided operation stop "circuit_opened_after_failure_threshold" in
        elim (validate_decision d) [ ok _ ↦ ok d | err e ↦ err (contract e) ])
    else ok decision

abbrev pub count_failure : Bool → OperationSpec → Call ⊤
count_failure true operation = pure tt
count_failure false operation =
    count_metric operation operation.operation_id "attempt_failure_total"

unfoldable pub record_attempt : AttemptRecord → Call RecoveryDecision
record_attempt attempt = do
  operation ← on_store (Store.load_operation attempt.operation_id)
  current_circuit ← on_store (Store.load_circuit attempt.operation_id)
  raise_if (is_opened current_circuit.state) circuit_is_open
  first ← by_engine (decide operation attempt (some current_circuit))
  next_circuit ← by_engine (next_circuit_state current_circuit attempt)
  decision ← by_engine (final_decision operation next_circuit first)
  on_store (Store.append_attempt_and_decision attempt decision (some next_circuit))
  count_metric operation operation.operation_id "attempt_total"
  count_failure (is_success attempt.outcome) operation
  pure decision

abbrev pub observe : String → ℕ → ℤ → OperationSpec → DeadlineObservation
observe operation_id attempt elapsed operation = record {
  operation_id = operation_id;
  attempt = attempt;
  elapsed = elapsed;
  timeout_seconds = operation.timeout_seconds;
  result = if is_over elapsed operation.timeout_seconds then timed_out else within_deadline;
}

abbrev pub deadline_metric : Bool → String
deadline_metric over = if over then "timeout_total" else "within_deadline_total"

unfoldable pub record_deadline : String → ℕ → ℤ → Call DeadlineObservation
record_deadline operation_id attempt elapsed = do
  operation ← on_store (Store.load_operation operation_id)
  let observation = observe operation_id attempt elapsed operation
  by_engine (map_err contract (validate_deadline observation))
  on_store (Store.append_deadline observation)
  count_metric operation operation_id (deadline_metric (is_over elapsed operation.timeout_seconds))
  pure observation

unfoldable pub open_probe : String → Call ⊤
open_probe operation_id = do
  operation ← on_store (Store.load_operation operation_id)
  current ← on_store (Store.load_circuit operation_id)
  probe ← by_engine (half_open_circuit current)
  on_store (Store.save_circuit operation_id probe)

abbrev pub reconciled : AttemptRecord → Reconciliation → AttemptRecord
reconciled previous result = record previous {
  outcome = unknown;
  reconciliation_result = some result;
}

unfoldable pub reconcile : String → Reconciliation → Call RecoveryDecision
reconcile operation_id result = do
  operation ← on_store (Store.load_operation operation_id)
  state ← on_store (Store.state_of operation_id)
  raise_if (not (is_reconcile_required state.status)) not_waiting
  previous ← on_store (Store.latest_attempt operation_id)
  raise_if (not (is_unknown previous.outcome)) not_ambiguous
  decision ← by_engine (decide operation (reconciled previous result) none)
  on_store (Store.append_reconciliation_and_decision operation_id result decision)
  count_metric operation operation_id "reconciliation_total"
  pure decision

unfoldable pub register_compensation : CompensationPlan → Call ⊤
register_compensation plan = do
  operation ← on_store (Store.load_operation plan.operation_id)
  raise_if (not (is_some operation.compensation_ref)) no_compensation_declared
  on_store (Store.register_compensation plan)

abbrev pub compensation_metric : CompensationRecord → String
compensation_metric r =
    if is_succeeded r.status then "compensation_success_total" else "compensation_event_total"

unfoldable pub record_compensation : CompensationRecord → Call ⊤
record_compensation r = do
  operation ← on_store (Store.load_operation r.operation_id)
  on_store (Store.record_compensation r)
  count_metric operation r.operation_id (compensation_metric r)

abbrev pub is_op_ready : Status → Bool
is_op_ready op_ready = true
is_op_ready _ = false

unfoldable pub resume_action : String → Call (Option RecoveryDecision)
resume_action operation_id = do
  state ← on_store (Store.state_of operation_id)
  if is_op_ready state.status
      then pure none
      else (do d ← on_store (Store.latest_decision operation_id); pure (some d))
