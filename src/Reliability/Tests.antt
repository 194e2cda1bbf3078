-- ===== src/Reliability/Tests.antt =====
-- The reliability layer on concrete operations.
use ai_factory.Base.{ℕ, ◌≤◌, true, ◌≡◌, refl, ◌⊎◌, none, some, List, [], ◌∷◌, map}
use ai_factory.Base.Text.{is_blank}
use ai_factory.Base.Result.{ok, err}
use ai_factory.Base.Dict.{lookup, insert}
use ai_factory.Reliability.Contracts.{
  OperationSpec, external_write, AttemptRecord, Outcome, success, unknown, retryable_failure,
  not_applied, CircuitBreakerState, closed, opened, half_open, RecoveryDecision, reconcile,
  validate_operation, validate_attempt, validate_circuit, validate_decision, validate_metric,
}
use ai_factory.Reliability.Engine.{
  decide, decision, retry_or_stop, retry_decision, decide_outcome, decide_unknown, decide_external,
  next_circuit_state, circuit_after, half_open_circuit, retrying, decided,
}
use ai_factory.Reliability.Engine.Decisions.{IsRepeatable, IsNext, decide-retry}
use ai_factory.Reliability.Engine.Circuits.{IsNextCircuit, next_circuit_state-IsNextCircuit}
use ai_factory.Reliability.Store.{
  OperationRow, Status, StoreError, completed, reconcile_required, append_attempt_and_decision,
}
use ai_factory.Reliability.Store
use ai_factory.Reliability.Store.Journal.{
  attempts_of, with_attempt, IsCommitted, append_attempt_and_decision-cases,
}
use ai_factory.Reliability.Controller.{
  register, record_attempt, reconcile as reconcile_call_of, resume_action, final_decision,
}
use ai_factory.Reliability.Controller.Runs.{
  Command, register_call, attempt_call, reconcile_call, run, after, empty_store, run_in_budget,
}
use ai_factory.Reliability.Controller.Resume.{resume_action-record_attempt}
use ai_factory.Reliability.Recovery.{
  RecoveryItem, RecoveryReport, recover, recover_each, recover_item, item_of, report_of, item,
  validate_report, validate_item,
}
use ai_factory.Reliability.Recovery.Safety.{AllLive, recover-AllLive}

abbrev payment : OperationSpec
payment = record {
  operation_id = "OP-1";
  mission_id = "M-1";
  effect_class = external_write;
  max_attempts = 2;
  timeout_seconds = 30;
  idempotency_key = some "key-1";
  reconciliation_supported = true;
  compensation_ref = none;
}

abbrev try : ℕ → Outcome → AttemptRecord
try n outcome = record {
  operation_id = "OP-1";
  attempt = n;
  outcome = outcome;
  error_code = none;
  reconciliation_result = none;
}

abbrev found_not_applied : AttemptRecord
found_not_applied = record (try 1 unknown) { reconciliation_result = some not_applied }

abbrev again : RecoveryDecision
again = retrying payment found_not_applied "reconciliation_confirmed_not_applied"

decides_again : decide payment found_not_applied none ≡ ok again
unfolding decide validate_operation validate_attempt validate_circuit decide_outcome decide_unknown
    decide_external retry_or_stop retry_decision validate_decision is_blank
decides_again = refl

decide-retry_example :
    IsRepeatable payment found_not_applied × IsNext payment found_not_applied again
decide-retry_example = decide-retry payment found_not_applied none decides_again refl

abbrev two_failures : CircuitBreakerState
two_failures = record { state = closed; consecutive_failures = 2; failure_threshold = 3 }

valid_circuit : validate_circuit two_failures ≡ ok tt
unfolding validate_circuit
valid_circuit = refl

valid_attempt : validate_attempt (try 1 retryable_failure) ≡ ok tt
unfolding validate_attempt is_blank
valid_attempt = refl

next_circuit_state-IsNextCircuit_example :
    (d : CircuitBreakerState) × (next_circuit_state two_failures (try 1 retryable_failure) ≡ ok d)
    × (validate_circuit d ≡ ok tt)
    × IsNextCircuit (try 1 retryable_failure) two_failures d
next_circuit_state-IsNextCircuit_example =
    next_circuit_state-IsNextCircuit two_failures (try 1 retryable_failure) valid_circuit
      valid_attempt

abbrev three_failures : CircuitBreakerState
three_failures = record { state = opened; consecutive_failures = 3; failure_threshold = 3 }

abbrev probing : CircuitBreakerState
probing = record { state = half_open; consecutive_failures = 3; failure_threshold = 3 }

probes : half_open_circuit three_failures ≡ ok probing
unfolding half_open_circuit validate_circuit
probes = refl

abbrev recovers : List Command
recovers =
    register_call payment
    ∷ attempt_call (try 1 unknown)
    ∷ reconcile_call "OP-1" not_applied
    ∷ attempt_call (try 2 success)
    ∷ attempt_call (try 3 success)
    ∷ []

abbrev paid : OperationRow
paid = record { spec = payment; status = completed; latest_attempt = 2 }

-- The third attempt is beyond the budget, and is refused.
recovers_once : lookup "OP-1" (run recovers empty_store).operations ≡ some paid
unfolding run after lookup record_attempt Store.load_operation reconcile_call_of register
    Store.register validate_operation is_blank insert Store.load_circuit validate_circuit decide
    validate_attempt decide_outcome decide_unknown decide_external decision validate_decision
    validate_metric final_decision circuit_after next_circuit_state retry_decision retry_or_stop
    append_attempt_and_decision Store.append_metric Store.append_reconciliation_and_decision
    Store.events_of Store.latest_attempt Store.write_circuit Store.state_of
recovers_once = refl

run_in_budget_example :
    (attempts_of "OP-1" (run recovers empty_store).events ≡ 2)
    × (attempts_of "OP-1" (run recovers empty_store).events ≤ 2)
run_in_budget_example = run_in_budget recovers "OP-1" paid recovers_once

-- A second attempt of an external write whose outcome is unknown is taken without reconciliation.
abbrev blind_retry : List Command
blind_retry =
    register_call payment ∷ attempt_call (try 1 unknown) ∷ attempt_call (try 2 success) ∷ []

blind_retry_is_taken : lookup "OP-1" (run blind_retry empty_store).operations ≡ some paid
unfolding run after lookup record_attempt Store.load_operation register Store.register
    validate_operation is_blank insert Store.load_circuit validate_circuit decide validate_attempt
    decide_outcome decide_unknown decide_external decision validate_decision validate_metric
    final_decision circuit_after next_circuit_state append_attempt_and_decision Store.append_metric
    Store.write_circuit
blind_retry_is_taken = refl

abbrev registered : Store.Store
registered = run (register_call payment ∷ []) empty_store

abbrev attempted : Store.Store
attempted = (record_attempt (try 1 unknown) registered).1

abbrev waits : RecoveryDecision
waits = decided payment reconcile "external_write_outcome_unknown"

attempt_waits : record_attempt (try 1 unknown) registered ≡ (ok waits, attempted)
unfolding run after lookup record_attempt Store.load_operation register Store.register
    validate_operation is_blank insert Store.load_circuit validate_circuit decide validate_attempt
    decide_outcome decide_unknown decide_external decision validate_decision validate_metric
    final_decision circuit_after next_circuit_state append_attempt_and_decision Store.append_metric
    Store.write_circuit
attempt_waits = refl

resume_action-record_attempt_example : resume_action "OP-1" attempted ≡ (ok (some waits), attempted)
resume_action-record_attempt_example =
    resume_action-record_attempt (try 1 unknown) registered attempt_waits

append_attempt_and_decision-cases_example :
    ((row : OperationRow) × (status : Status) × IsCommitted
        (try 1 unknown)
        waits
        registered
        row
        status
      × (append_attempt_and_decision (try 1 unknown) waits (some two_failures) registered
          ≡ (ok tt, with_attempt (try 1 unknown) waits (some two_failures) row status registered)))
    ⊎ ((e : StoreError) × (append_attempt_and_decision
            (try 1 unknown)
            waits
            (some two_failures)
            registered
          ≡ (err e, registered)))
append_attempt_and_decision-cases_example =
    append_attempt_and_decision-cases (try 1 unknown) waits (some two_failures) registered

abbrev recovery : RecoveryReport
recovery = report_of "M-1" (item "OP-1" "COMPLETE" "operation_already_completed" ∷ [])

abbrev paid_store : Store.Store
paid_store = record empty_store { operations = ("OP-1", paid) ∷ [] }

recovers_mission : recover "M-1" ("OP-1" ∷ []) paid_store ≡ (ok recovery, paid_store)
unfolding lookup Store.state_of is_blank recover recover_each recover_item item_of validate_report
    validate_item
recovers_mission = refl

recover-AllLive_example :
    (paid_store ≡ paid_store)
    × (map (λ (i : RecoveryItem). i.operation_id) recovery.items ≡ "OP-1" ∷ [])
    × (true ≡ true → AllLive "M-1" paid_store ("OP-1" ∷ []))
recover-AllLive_example = recover-AllLive "M-1" ("OP-1" ∷ []) paid_store recovers_mission
