-- ===== src/Reliability/Engine.antt =====
-- factory/reliability/engine.py: the pure decisions.
pub mod Decisions
pub mod Circuits
use Prim.Native.String.{◌++◌ as str_append}
use ai_factory.Base.{
  ℕ, ◌+◌, String, Bool, true, false, not, Option, none, some, ⊤, ltb, leb, if◌then◌else◌, ◌==◌,
}
use ai_factory.Base.Result.{Result, ok, err, raise_if, map_err, ◌>>=◌, ◌>>◌}
use ai_factory.Reliability.Contracts.{
  OperationSpec, AttemptRecord, CircuitBreakerState, RecoveryDecision, RecoveryAction,
  ContractError, EffectClass, read_only, local_write, external_write, other_effect, Outcome,
  success, retryable_failure, terminal_failure, unknown, other_outcome, Reconciliation, applied,
  not_applied, undetermined, other_reconciliation, complete, retry, reconcile, stop, closed, opened,
  half_open, default_circuit, is_opened, validate_operation, validate_attempt, validate_circuit,
  validate_decision,
}

pub data EngineError : Type 0 where
  contract : ContractError → EngineError
  identity_mismatch attempt_exceeds_budget unsupported_outcome not_open : EngineError

abbrev valid : Result ContractError ⊤ → Result EngineError ⊤
valid = map_err contract

abbrev pub decided : OperationSpec → RecoveryAction → String → RecoveryDecision
decided operation action reason = record {
  operation_id = operation.operation_id;
  action = action;
  reason = reason;
  next_attempt = none;
}

-- `_decision`
unfoldable pub decision :
    OperationSpec → RecoveryAction → String → Result EngineError RecoveryDecision
decision operation action reason =
    valid (validate_decision (decided operation action reason))
    >> ok (decided operation action reason)

abbrev pub retrying : OperationSpec → AttemptRecord → String → RecoveryDecision
retrying operation attempt reason = record {
  operation_id = operation.operation_id;
  action = retry;
  reason = reason;
  next_attempt = some (attempt.attempt + 1);
}

-- The decision to try again.
unfoldable pub retry_decision :
    OperationSpec → AttemptRecord → String → Result EngineError RecoveryDecision
retry_decision operation attempt reason =
    valid (validate_decision (retrying operation attempt reason))
    >> ok (retrying operation attempt reason)

-- `_retry_or_stop`
unfoldable pub retry_or_stop :
    OperationSpec → AttemptRecord → String → Result EngineError RecoveryDecision
retry_or_stop operation attempt reason =
    if leb operation.max_attempts attempt.attempt
    then decision operation stop (str_append reason ":retry_budget_exhausted")
    else retry_decision operation attempt reason

-- The branches on an external write whose outcome is unknown.
unfoldable pub decide_external :
    Option Reconciliation → OperationSpec → AttemptRecord → Result EngineError RecoveryDecision
decide_external none o a = decision o reconcile "external_write_outcome_unknown"
decide_external (some applied) o a = decision o complete "reconciliation_confirmed_applied"
decide_external (some not_applied) o a = retry_or_stop o a "reconciliation_confirmed_not_applied"
decide_external (some _) o a = decision o stop "reconciliation_remains_unknown"

-- The branches on an unknown outcome, by effect.
unfoldable pub decide_unknown :
    EffectClass → OperationSpec → AttemptRecord → Result EngineError RecoveryDecision
decide_unknown external_write o a = decide_external a.reconciliation_result o a
decide_unknown read_only o a = retry_or_stop o a "read_outcome_unknown"
decide_unknown _ o a = decision o stop "local_write_outcome_unknown_requires_state_recovery"

-- The branches on the outcome.
unfoldable pub decide_outcome :
    Outcome → OperationSpec → AttemptRecord → Result EngineError RecoveryDecision
decide_outcome success o a = decision o complete "operation_succeeded"
decide_outcome terminal_failure o a = decision o stop "terminal_failure"
decide_outcome retryable_failure o a = retry_or_stop o a "retryable_failure"
decide_outcome _ o a = decide_unknown o.effect_class o a

-- `circuit or CircuitBreakerState()`
abbrev pub circuit_or_default : Option CircuitBreakerState → CircuitBreakerState
circuit_or_default none = default_circuit
circuit_or_default (some c) = c

unfoldable pub decide :
    OperationSpec → AttemptRecord → Option CircuitBreakerState → Result EngineError RecoveryDecision
decide operation attempt given = do
  valid (validate_operation operation)
  valid (validate_attempt attempt)
  let circuit = circuit_or_default given
  valid (validate_circuit circuit)
  raise_if (not (attempt.operation_id == operation.operation_id)) identity_mismatch
  raise_if (ltb operation.max_attempts attempt.attempt) attempt_exceeds_budget
  if is_opened circuit.state
      then decision operation stop "circuit_open"
      else decide_outcome attempt.outcome operation attempt

-- The circuit after one more failure.
abbrev pub failed_once_more : CircuitBreakerState → CircuitBreakerState
failed_once_more c = record c {
  state = if leb c.failure_threshold (c.consecutive_failures + 1) then opened else closed;
  consecutive_failures = c.consecutive_failures + 1;
}

-- The circuit that an outcome leads to, before its validation.
unfoldable pub circuit_after :
    Outcome → CircuitBreakerState → Result EngineError CircuitBreakerState
circuit_after success c = ok (record c { state = closed; consecutive_failures = 0 })
circuit_after (other_outcome _) c = err unsupported_outcome
circuit_after _ c = ok (failed_once_more c)

unfoldable pub next_circuit_state :
    CircuitBreakerState → AttemptRecord → Result EngineError CircuitBreakerState
next_circuit_state current attempt = do
  valid (validate_circuit current)
  valid (validate_attempt attempt)
  updated ← circuit_after attempt.outcome current
  valid (validate_circuit updated)
  ok updated

unfoldable pub half_open_circuit : CircuitBreakerState → Result EngineError CircuitBreakerState
half_open_circuit current = do
  valid (validate_circuit current)
  raise_if (not (is_opened current.state)) not_open
  let updated = record current { state = half_open }
  valid (validate_circuit updated)
  ok updated
