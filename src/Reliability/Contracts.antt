-- ===== src/Reliability/Contracts.antt =====
-- factory/reliability/contracts.py: the records and their validation. A text field that ranges over
-- a fixed set is a data type with one more constructor for any other text. Counts are numbers of
-- zero or more; the elapsed time of a deadline is in microseconds.
use ai_factory.Base.{
  ℕ, ◌*◌, String, Bool, true, false, not, ◌&&◌, ◌||◌, Option, none, some, ⊤, ltb, is_blank, is_some,
  is_absent_or_blank,
}
use ai_factory.Base.Int.{ℤ, is_negative, at_least}
use ai_factory.Base.Result.{Result, raise_if, ◌>>◌}

pub data EffectClass : Type 0 where
  read_only local_write external_write : EffectClass
  other_effect : String → EffectClass

pub data Outcome : Type 0 where
  success retryable_failure terminal_failure unknown : Outcome
  other_outcome : String → Outcome

pub data Reconciliation : Type 0 where
  applied not_applied undetermined : Reconciliation
  other_reconciliation : String → Reconciliation

pub data RecoveryAction : Type 0 where
  complete retry reconcile stop : RecoveryAction
  other_action : String → RecoveryAction

pub data Circuit : Type 0 where
  closed opened half_open : Circuit
  other_circuit : String → Circuit

pub data Compensation : Type 0 where
  pending running succeeded failed not_required : Compensation
  other_compensation : String → Compensation

pub data Deadline : Type 0 where
  within_deadline timed_out : Deadline
  other_deadline : String → Deadline

abbrev pub is_known_effect : EffectClass → Bool
is_known_effect (other_effect _) = false
is_known_effect _ = true

abbrev pub is_read_only : EffectClass → Bool
is_read_only read_only = true
is_read_only _ = false

abbrev pub is_external_write : EffectClass → Bool
is_external_write external_write = true
is_external_write _ = false

abbrev pub is_known_outcome : Outcome → Bool
is_known_outcome (other_outcome _) = false
is_known_outcome _ = true

abbrev pub is_unknown : Outcome → Bool
is_unknown unknown = true
is_unknown _ = false

abbrev pub is_success : Outcome → Bool
is_success success = true
is_success _ = false

abbrev pub is_known_reconciliation : Reconciliation → Bool
is_known_reconciliation (other_reconciliation _) = false
is_known_reconciliation _ = true

-- `self.reconciliation_result is not None and … not in RECONCILIATION_RESULTS`
abbrev pub is_bad_reconciliation : Option Reconciliation → Bool
is_bad_reconciliation none = false
is_bad_reconciliation (some r) = not (is_known_reconciliation r)

abbrev pub is_known_action : RecoveryAction → Bool
is_known_action (other_action _) = false
is_known_action _ = true

abbrev pub is_retry : RecoveryAction → Bool
is_retry retry = true
is_retry _ = false

abbrev pub is_known_circuit : Circuit → Bool
is_known_circuit (other_circuit _) = false
is_known_circuit _ = true

abbrev pub is_opened : Circuit → Bool
is_opened opened = true
is_opened _ = false

abbrev pub is_known_compensation : Compensation → Bool
is_known_compensation (other_compensation _) = false
is_known_compensation _ = true

abbrev pub is_succeeded : Compensation → Bool
is_succeeded succeeded = true
is_succeeded _ = false

-- One constructor for each `raise ValueError` of a `validate`.
pub data ContractError : Type 0 where
  operation_identity unknown_effect_class max_attempts_below_one : ContractError
  timeout_below_one read_only_compensation idempotency_key_required : ContractError
  reconciliation_required attempt_identity attempt_below_one unknown_attempt_outcome : ContractError
  unknown_reconciliation misplaced_reconciliation unknown_circuit_state : ContractError
  threshold_below_one open_below_threshold decision_identity unknown_recovery_action : ContractError
  retry_needs_next misplaced_next_attempt deadline_identity deadline_values : ContractError
  unknown_deadline deadline_mismatch plan_identity record_identity : ContractError
  unknown_compensation compensation_evidence metric_identity metric_operation : ContractError

pub record OperationSpec : Type 0 where
  pub operation_id : String
  pub mission_id : String
  pub effect_class : EffectClass
  pub max_attempts : ℕ
  pub timeout_seconds : ℕ
  pub idempotency_key : Option String
  pub reconciliation_supported : Bool
  pub compensation_ref : Option String

unfoldable pub validate_operation : OperationSpec → Result ContractError ⊤
validate_operation o = do
  raise_if (is_blank o.operation_id || is_blank o.mission_id) operation_identity
  raise_if (not (is_known_effect o.effect_class)) unknown_effect_class
  raise_if (ltb o.max_attempts 1) max_attempts_below_one
  raise_if (ltb o.timeout_seconds 1) timeout_below_one
  raise_if (is_read_only o.effect_class && is_some o.compensation_ref) read_only_compensation
  raise_if (is_external_write o.effect_class && is_absent_or_blank o.idempotency_key)
      idempotency_key_required
  raise_if (is_external_write o.effect_class && not o.reconciliation_supported)
      reconciliation_required

pub record AttemptRecord : Type 0 where
  pub operation_id : String
  pub attempt : ℕ
  pub outcome : Outcome
  pub error_code : Option String
  pub reconciliation_result : Option Reconciliation

unfoldable pub validate_attempt : AttemptRecord → Result ContractError ⊤
validate_attempt a = do
  raise_if (is_blank a.operation_id) attempt_identity
  raise_if (ltb a.attempt 1) attempt_below_one
  raise_if (not (is_known_outcome a.outcome)) unknown_attempt_outcome
  raise_if (is_bad_reconciliation a.reconciliation_result) unknown_reconciliation
  raise_if (not (is_unknown a.outcome) && is_some a.reconciliation_result) misplaced_reconciliation

pub record CircuitBreakerState : Type 0 where
  pub state : Circuit
  pub consecutive_failures : ℕ
  pub failure_threshold : ℕ

-- `CircuitBreakerState()`
abbrev pub default_circuit : CircuitBreakerState
default_circuit = record { state = closed; consecutive_failures = 0; failure_threshold = 3 }

unfoldable pub validate_circuit : CircuitBreakerState → Result ContractError ⊤
validate_circuit c = do
  raise_if (not (is_known_circuit c.state)) unknown_circuit_state
  raise_if (ltb c.failure_threshold 1) threshold_below_one
  raise_if (is_opened c.state && ltb c.consecutive_failures c.failure_threshold)
      open_below_threshold

pub record RecoveryDecision : Type 0 where
  pub operation_id : String
  pub action : RecoveryAction
  pub reason : String
  pub next_attempt : Option ℕ

-- `self.next_attempt is None or self.next_attempt < 2`
abbrev pub lacks_next : Option ℕ → Bool
lacks_next none = true
lacks_next (some n) = ltb n 2

unfoldable pub validate_decision : RecoveryDecision → Result ContractError ⊤
validate_decision d = do
  raise_if (is_blank d.operation_id || is_blank d.reason) decision_identity
  raise_if (not (is_known_action d.action)) unknown_recovery_action
  raise_if (is_retry d.action && lacks_next d.next_attempt) retry_needs_next
  raise_if (not (is_retry d.action) && is_some d.next_attempt) misplaced_next_attempt

pub record DeadlineObservation : Type 0 where
  pub operation_id : String
  pub attempt : ℕ
  pub elapsed : ℤ
  pub timeout_seconds : ℕ
  pub result : Deadline

-- `elapsed_seconds >= timeout_seconds`
abbrev pub is_over : ℤ → ℕ → Bool
is_over elapsed timeout_seconds = at_least elapsed (timeout_seconds * 1000000)

abbrev pub is_known_deadline : Deadline → Bool
is_known_deadline (other_deadline _) = false
is_known_deadline _ = true

-- `self.result == expected`
abbrev pub is_expected : Deadline → Bool → Bool
is_expected timed_out over = over
is_expected within_deadline over = not over
is_expected (other_deadline _) over = false

unfoldable pub validate_deadline : DeadlineObservation → Result ContractError ⊤
validate_deadline o = do
  raise_if (is_blank o.operation_id || ltb o.attempt 1) deadline_identity
  raise_if (is_negative o.elapsed || ltb o.timeout_seconds 1) deadline_values
  raise_if (not (is_known_deadline o.result)) unknown_deadline
  raise_if (not (is_expected o.result (is_over o.elapsed o.timeout_seconds))) deadline_mismatch

pub record CompensationPlan : Type 0 where
  pub operation_id : String
  pub compensation_ref : String
  pub reason : String
  pub requires_human_approval : Bool

unfoldable pub validate_plan : CompensationPlan → Result ContractError ⊤
validate_plan p =
    raise_if (is_blank p.operation_id || (is_blank p.compensation_ref || is_blank p.reason))
      plan_identity

pub record CompensationRecord : Type 0 where
  pub operation_id : String
  pub status : Compensation
  pub evidence_ref : Option String
  pub error_code : Option String

unfoldable pub validate_compensation : CompensationRecord → Result ContractError ⊤
validate_compensation r = do
  raise_if (is_blank r.operation_id) record_identity
  raise_if (not (is_known_compensation r.status)) unknown_compensation
  raise_if (is_succeeded r.status && is_absent_or_blank r.evidence_ref) compensation_evidence

-- The values that the controller records are whole counts.
pub record ReliabilityMetric : Type 0 where
  pub mission_id : String
  pub name : String
  pub value : ℕ
  pub operation_id : Option String
  pub unit : String

abbrev pub is_blank_name : Option String → Bool
is_blank_name none = false
is_blank_name (some s) = is_blank s

unfoldable pub validate_metric : ReliabilityMetric → Result ContractError ⊤
validate_metric m = do
  raise_if (is_blank m.mission_id || (is_blank m.name || is_blank m.unit)) metric_identity
  raise_if (is_blank_name m.operation_id) metric_operation
