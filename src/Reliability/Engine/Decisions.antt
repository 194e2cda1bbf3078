-- ===== src/Reliability/Engine/Decisions.antt =====
-- What the decision engine may decide (factory/reliability/engine.py).
use Prim.Native.String.{◌++◌ as str_append}
use ai_factory.Base.{
  ◌+◌, ◌<◌, ◌≤◌, String, ◌≡◌, refl, ◌⊎◌, inl, inr, Option, none, some, if◌then◌else◌, arith, eq_iff,
  Bool-cases, true,
}
use ai_factory.Base.Result.{Result, ok}
use ai_factory.Reliability.Contracts.{
  OperationSpec, AttemptRecord, CircuitBreakerState, RecoveryDecision, RecoveryAction, EffectClass,
  read_only, external_write, Outcome, success, retryable_failure, terminal_failure, unknown,
  other_outcome, is_known_outcome, Reconciliation, applied, not_applied, complete, retry, reconcile,
  stop, is_opened, validate_operation, validate_attempt, validate_circuit,
}
use ai_factory.Reliability.Engine.{
  EngineError, decided, retrying, decision, retry_decision, retry_or_stop, decide_external,
  decide_unknown, decide_outcome, decide, circuit_or_default,
}

decision-eq-ok :
    (o : OperationSpec) (action : RecoveryAction) (reason : String) {d : RecoveryDecision}
    → decision o action reason ≡ ok d
    → d ≡ decided o action reason
unfolding decision
decision-eq-ok o action reason h = ground arith

retry_decision-eq-ok :
    (o : OperationSpec) (a : AttemptRecord) (reason : String) {d : RecoveryDecision}
    → retry_decision o a reason ≡ ok d
    → d ≡ retrying o a reason
unfolding retry_decision
retry_decision-eq-ok o a reason h = ground arith

-- The attempt after this one is within the budget, and is the one that the decision names.
pub record IsNext (o : OperationSpec) (a : AttemptRecord) (d : RecoveryDecision) : Type 0 where
  pub in_budget : a.attempt < o.max_attempts
  pub next : d.next_attempt ≡ some (a.attempt + 1)

retry_or_stop-IsNext :
    (o : OperationSpec) (a : AttemptRecord) (reason : String) {d : RecoveryDecision}
    → retry_or_stop o a reason ≡ ok d
    → d.action ≡ retry
    → IsNext o a d
unfolding retry_or_stop
retry_or_stop-IsNext o a reason {d} h r = ground (
  arith,
  decision-eq-ok o stop (str_append reason ":retry_budget_exhausted") {d = d},
  retry_decision-eq-ok o a reason {d = d},
)

-- When a second attempt cannot repeat an effect that has already happened.
abbrev pub IsRepeatable : OperationSpec → AttemptRecord → Type 0
IsRepeatable o a =
    (a.outcome ≡ retryable_failure)
    ⊎ ((a.outcome ≡ unknown)
        × ((o.effect_class ≡ read_only)
            ⊎ ((o.effect_class ≡ external_write) × (a.reconciliation_result ≡ some not_applied))))

decide_external-retry :
    (r : Option Reconciliation) (o : OperationSpec) (a : AttemptRecord) {d : RecoveryDecision}
    → decide_external r o a ≡ ok d
    → d.action ≡ retry
    → (r ≡ some not_applied) × IsNext o a d
unfolding decide_external
decide_external-retry none o a h k =
    absurd (ground (arith, decision-eq-ok o reconcile "external_write_outcome_unknown" h))
decide_external-retry (some applied) o a h k =
    absurd (ground (arith, decision-eq-ok o complete "reconciliation_confirmed_applied" h))
decide_external-retry (some not_applied) o a h k =
    (refl, retry_or_stop-IsNext o a "reconciliation_confirmed_not_applied" h k)
decide_external-retry (some _) o a h k =
    absurd (ground (arith, decision-eq-ok o stop "reconciliation_remains_unknown" h))

decide_unknown-retry :
    (e : EffectClass) (o : OperationSpec) (a : AttemptRecord) {d : RecoveryDecision}
    → decide_unknown e o a ≡ ok d
    → d.action ≡ retry
    → ((e ≡ read_only) ⊎ ((e ≡ external_write) × (a.reconciliation_result ≡ some not_applied)))
      × IsNext o a d
unfolding decide_unknown
decide_unknown-retry external_write o a h k =
    let (e, n) = decide_external-retry a.reconciliation_result o a h k in (inr (refl, e), n)
decide_unknown-retry read_only o a h k =
    (inl refl, retry_or_stop-IsNext o a "read_outcome_unknown" h k)
decide_unknown-retry _ o a h k =
    absurd (
      ground (arith, decision-eq-ok o stop "local_write_outcome_unknown_requires_state_recovery" h))

decide_outcome-retry :
    (x : Outcome) (o : OperationSpec) (a : AttemptRecord) {d : RecoveryDecision}
    → decide_outcome x o a ≡ ok d
    → d.action ≡ retry
    → is_known_outcome x ≡ true
    → ((x ≡ retryable_failure)
        ⊎ ((x ≡ unknown)
            × ((o.effect_class ≡ read_only)
                ⊎ ((o.effect_class ≡ external_write)
                    × (a.reconciliation_result ≡ some not_applied)))))
      × IsNext o a d
unfolding decide_outcome
decide_outcome-retry success o a h k known =
    absurd (ground (arith, decision-eq-ok o complete "operation_succeeded" h))
decide_outcome-retry terminal_failure o a h k known =
    absurd (ground (arith, decision-eq-ok o stop "terminal_failure" h))
decide_outcome-retry retryable_failure o a h k known =
    (inl refl, retry_or_stop-IsNext o a "retryable_failure" h k)
decide_outcome-retry unknown o a h k known =
    let (e, n) = decide_unknown-retry o.effect_class o a h k in (inr (refl, e), n)
decide_outcome-retry (other_outcome _) o a h k known = absurd (cc known)

validate_attempt-known :
    (a : AttemptRecord) → validate_attempt a ≡ ok tt → is_known_outcome a.outcome ≡ true
unfolding validate_attempt
validate_attempt-known a h = ground arith

-- What the engine has checked when it decides.
pub record IsChecked (o : OperationSpec) (a : AttemptRecord) (c : CircuitBreakerState)
    : Type 0 where
  pub operation : validate_operation o ≡ ok tt
  pub attempt : validate_attempt a ≡ ok tt
  pub circuit : validate_circuit c ≡ ok tt
  pub same_id : a.operation_id ≡ o.operation_id
  pub in_budget : a.attempt ≤ o.max_attempts

abbrev pub last_branch :
    OperationSpec → AttemptRecord → CircuitBreakerState → Result EngineError RecoveryDecision
last_branch o a c =
    if is_opened c.state then decision o stop "circuit_open" else decide_outcome a.outcome o a

pub decide-IsChecked :
    (o : OperationSpec) (a : AttemptRecord) (c : Option CircuitBreakerState) {d : RecoveryDecision}
    → decide o a c ≡ ok d
    → IsChecked o a (circuit_or_default c) × (last_branch o a (circuit_or_default c) ≡ ok d)
unfolding decide
decide-IsChecked o a c h = ground (arith, eq_iff a.operation_id o.operation_id)

-- A decision to retry comes after a retryable failure, or after an unknown outcome of a read, or after
-- an unknown outcome of an external write that reconciliation found not applied; and the next attempt is
-- in the budget, and is the one that the decision names.
pub decide-retry :
    (o : OperationSpec) (a : AttemptRecord) (c : Option CircuitBreakerState) {d : RecoveryDecision}
    → decide o a c ≡ ok d
    → d.action ≡ retry
    → IsRepeatable o a × IsNext o a d
decide-retry o a c h k =
    let (checked, last) = decide-IsChecked o a c h in
    elim (Bool-cases (is_opened (circuit_or_default c).state)) [
      | inl e ↦ absurd (ground (arith, decision-eq-ok o stop "circuit_open" (rw e at last)))
      | inr e ↦
          decide_outcome-retry a.outcome o a (rw e at last) k
            (validate_attempt-known a checked.attempt)
    ]
