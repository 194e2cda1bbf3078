-- ===== src/Reliability/Controller/Resume.antt =====
-- What a restart resumes with (factory/reliability/controller.py, `record_attempt` and
-- `resume_action`).
use ai_factory.Base.{
  String, Bool, true, false, ◌≡◌, refl, ap, sym, ◌∙◌, some, List, [], ◌∷◌, ◌++◌, arith, eq_refl,
  get_last?, get_last?-append, inl, inr,
}
use mathlib.Core.List.{append-nil}
use ai_factory.Base.Dict.{lookup, lookup-insert_self}
use ai_factory.Base.Result.{ok}
use ai_factory.Base.Action.{raise_if, pure, ◌>>◌, Returns, Returns-bind, Returns-pure}
use ai_factory.Reliability.Contracts.{
  OperationSpec, AttemptRecord, RecoveryDecision, CircuitBreakerState, RecoveryAction, is_opened,
  is_success, validate_decision,
}
use ai_factory.Reliability.Engine.{decide, next_circuit_state}
use ai_factory.Reliability.Store.{
  OperationRow, Event, EventRow, Status, op_ready, status_for, attempt_event, decision_event,
  circuit_event, decisions_in, events_of,
}
use ai_factory.Reliability.Store
use ai_factory.Reliability.Store.Journal.{
  row_of, events_of-append, with_attempt, IsCommitted, append_attempt_and_decision-cases,
}
use ai_factory.Reliability.Controller.{
  on_store, by_engine, count_metric, count_failure, final_decision, circuit_is_open, record_attempt,
  resume_action, is_op_ready,
}
use ai_factory.Reliability.Controller.Attempts.{on_store-eq-ok, counted, decided_attempt}

decisions_in-append :
    (xs ys : List Event) → decisions_in (xs ++ ys) ≡ decisions_in xs ++ decisions_in ys
decisions_in-append [] ys = refl
decisions_in-append (decision_event a ∷ xs) ys = ap (λ l. a ∷ l) (decisions_in-append xs ys)
decisions_in-append (_ ∷ xs) ys = decisions_in-append xs ys

-- The decisions of an operation after one more row.
decisions-append :
    (id : String) (e : Event) (events : List EventRow) {key : String}
    → key ≡ id
    → decisions_in (events_of id (events ++ row_of key e ∷ []))
      ≡ decisions_in (events_of id events) ++ decisions_in (e ∷ [])
decisions-append id e events {key} same =
    rw
      (
        same,
        events_of-append id id e events,
        eq_refl id,
        decisions_in-append (events_of id events) (e ∷ []),
      )
      refl

-- The last decision in the journal of a committed attempt.
last_decision :
    (a : AttemptRecord) (d : RecoveryDecision) (c : CircuitBreakerState) (row : OperationRow)
    (status : Status) (s : Store.Store)
    → d.operation_id ≡ a.operation_id
    → get_last?
        (decisions_in (events_of a.operation_id (with_attempt a d (some c) row status s).events))
      ≡ some d
last_decision a d c row status s same =
    let id = a.operation_id in
    let l₁ = s.events ++ row_of id (attempt_event a) ∷ [] in
    let l₂ = l₁ ++ row_of d.operation_id (decision_event d) ∷ [] in
    rw
      (
        decisions-append id (circuit_event c) l₂ refl,
        decisions-append id (decision_event d) l₁ same,
        append-nil (decisions_in (events_of id l₁) ++ d ∷ []),
      )
      (get_last?-append (decisions_in (events_of id l₁)) d)

-- A committed attempt, and no more than metrics since.
record IsRecorded (a : AttemptRecord) (d : RecoveryDecision) (t : Store.Store) : Type 0 where
  pub before : Store.Store
  pub row : OperationRow
  pub status : Status
  pub circuit : CircuitBreakerState
  pub committed : IsCommitted a d before row status
  pub operations : t.operations ≡ (with_attempt a d (some circuit) row status before).operations
  pub events : t.events ≡ (with_attempt a d (some circuit) row status before).events

count_metric-quiet :
    (o : OperationSpec) (id name : String) (s : Store.Store)
    → ((count_metric o id name s).1.operations ≡ s.operations)
      × ((count_metric o id name s).1.events ≡ s.events)
unfolding Store.append_metric
count_metric-quiet o id name s = ground arith

count_failure-quiet :
    (b : Bool) (o : OperationSpec) (s : Store.Store)
    → ((count_failure b o s).1.operations ≡ s.operations)
      × ((count_failure b o s).1.events ≡ s.events)
count_failure-quiet true o s = (refl, refl)
count_failure-quiet false o s = count_metric-quiet o o.operation_id "attempt_failure_total" s

recorded :
    (a : AttemptRecord) {d : RecoveryDecision} (c : CircuitBreakerState) (s : Store.Store)
    {s' t : Store.Store}
    → Store.append_attempt_and_decision a d (some c) s ≡ (ok tt, s')
    → t.operations ≡ s'.operations
    → t.events ≡ s'.events
    → IsRecorded a d t
recorded a {d} c s e ops events = elim (append_attempt_and_decision-cases a d (some c) s) [
  | inr (x, bad) ↦ absurd (cc (ap (λ z. z.0) (sym e ∙ bad)))
  | inl (row, status, k, good) ↦
      let same = ap (λ z. z.1) (sym e ∙ good) in
      record {
        before = s;
        row = row;
        status = status;
        circuit = c;
        committed = k;
        operations = ops ∙ ap (λ (z : Store.Store). z.operations) same;
        events = events ∙ ap (λ (z : Store.Store). z.events) same;
      }
]

counted-IsRecorded :
    (a : AttemptRecord) (o : OperationSpec) (d : RecoveryDecision) (c : CircuitBreakerState)
    (s t : Store.Store)
    → Store.append_attempt_and_decision a d (some c) s ≡ (ok tt, t)
    → Returns (IsRecorded a) (counted a o d) t
counted-IsRecorded a o d c s t e =
    Returns-bind (count_metric o o.operation_id "attempt_total")
      {f = λ _. count_failure (is_success a.outcome) o >> pure d}
      λ _ u e₁. Returns-bind (count_failure (is_success a.outcome) o) {f = λ _. pure d} λ _ v e₂.
        let (x, y) = count_metric-quiet o o.operation_id "attempt_total" t in
        let (x', y') = count_failure-quiet (is_success a.outcome) o u in
        Returns-pure d (
          recorded a c s e (rw (← ap (λ z. z.1.operations) e₂, x', ← ap (λ z. z.1.operations) e₁) x)
            (rw (← ap (λ z. z.1.events) e₂, y', ← ap (λ z. z.1.events) e₁) y))

decided_attempt-IsRecorded :
    (a : AttemptRecord) (o : OperationSpec) (c : CircuitBreakerState) (s : Store.Store)
    → Returns (IsRecorded a) (decided_attempt a o c) s
unfolding decided_attempt
decided_attempt-IsRecorded a o c s = Returns-bind (by_engine (decide o a (some c))) λ first s₁ _.
    Returns-bind (by_engine (next_circuit_state c a)) λ n s₂ _.
      Returns-bind (by_engine (final_decision o n first)) λ d s₃ _.
        Returns-bind (on_store (Store.append_attempt_and_decision a d (some n)))
          {f = λ _. counted a o d}
          λ _ s₄ e.
            counted-IsRecorded a o d n s₃ s₄
              (on_store-eq-ok (Store.append_attempt_and_decision a d (some n)) s₃ e)

record_attempt-IsRecorded :
    (a : AttemptRecord) (s : Store.Store) → Returns (IsRecorded a) (record_attempt a) s
unfolding record_attempt decided_attempt
record_attempt-IsRecorded a s =
    Returns-bind (on_store (Store.load_operation a.operation_id)) λ o s₁ _.
      Returns-bind (on_store (Store.load_circuit a.operation_id)) λ c s₂ _.
        Returns-bind (raise_if (is_opened c.state) circuit_is_open) {f = λ _. decided_attempt a o c}
          λ _ s₃ _. decided_attempt-IsRecorded a o c s₃

status_for-eq-some :
    (x : RecoveryAction) {status : Status} → status_for x ≡ some status → is_op_ready status ≡ false
status_for-eq-some x h = ground arith

resumes :
    (id : String) (t : Store.Store) (row : OperationRow) {d : RecoveryDecision}
    → lookup id t.operations ≡ some row
    → is_op_ready row.status ≡ false
    → get_last? (decisions_in (events_of id t.events)) ≡ some d
    → validate_decision d ≡ ok tt
    → resume_action id t ≡ (ok (some d), t)
unfolding resume_action Store.state_of Store.latest_decision
resumes id t row found pending last valid = ground arith

recorded-resume :
    (a : AttemptRecord) {d : RecoveryDecision} (t : Store.Store)
    → IsRecorded a d t
    → resume_action a.operation_id t ≡ (ok (some d), t)
recorded-resume a {d} t h =
    let row = record h.row { status = h.status; latest_attempt = a.attempt } in
    let found = lookup-insert_self a.operation_id row h.before.operations in
    let last = last_decision a d h.circuit h.row h.status h.before h.committed.same_operation in
    resumes a.operation_id t row (rw h.operations found)
      (status_for-eq-some d.action h.committed.follows) (rw h.events last)
      h.committed.decision_valid

-- After `record_attempt` has returned a decision, a restart resumes with that decision, and leaves
-- the store as it is.
pub resume_action-record_attempt :
    (a : AttemptRecord) (s : Store.Store) {d : RecoveryDecision} {t : Store.Store}
    → record_attempt a s ≡ (ok d, t)
    → resume_action a.operation_id t ≡ (ok (some d), t)
resume_action-record_attempt a s {t = t} h =
    recorded-resume a t ((record_attempt-IsRecorded a s).holds h)
