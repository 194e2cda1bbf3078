-- ===== src/Reliability/Store/Effects.antt =====
-- What the other operations of the journal leave (factory/reliability/store.py): a statement for
-- each on the tables of operations and of events.
use ai_factory.Base.{String, ◌≡◌, ◌⊎◌, inl, inr, none, some, [], ◌∷◌, ◌++◌, arith, Option-cases}
use ai_factory.Base.Dict.{lookup, insert}
use ai_factory.Reliability.Contracts.{
  OperationSpec, CircuitBreakerState, RecoveryDecision, Reconciliation, DeadlineObservation,
  CompensationRecord, CompensationPlan, ReliabilityMetric,
}
use ai_factory.Reliability.Store.{
  Store, Method, OperationRow, Status, circuit_event, reconciliation_event, deadline_event,
  compensation_event, op_ready, decision_event, status_for, register, load_operation, load_circuit,
  state_of, append_reconciliation_and_decision, save_circuit, append_deadline,
  register_compensation, record_compensation, append_metric, latest_attempt, latest_decision,
}
use ai_factory.Reliability.Store.Journal.{row_of}

-- A method that leaves the tables of operations and events alone.
abbrev pub IsQuiet : {A : Type 0} → Method A → Type 0
IsQuiet m = (s : Store) → ((m s).1.operations ≡ s.operations) × ((m s).1.events ≡ s.events)

pub load_operation-IsQuiet : (id : String) → IsQuiet (load_operation id)
unfolding load_operation
load_operation-IsQuiet id s = ground arith

pub load_circuit-IsQuiet : (id : String) → IsQuiet (load_circuit id)
unfolding load_circuit
load_circuit-IsQuiet id s = ground arith

pub state_of-IsQuiet : (id : String) → IsQuiet (state_of id)
unfolding state_of
state_of-IsQuiet id s = ground arith

pub latest_attempt-IsQuiet : (id : String) → IsQuiet (latest_attempt id)
unfolding latest_attempt
latest_attempt-IsQuiet id s = ground arith

pub latest_decision-IsQuiet : (id : String) → IsQuiet (latest_decision id)
unfolding latest_decision
latest_decision-IsQuiet id s = ground arith

pub append_metric-IsQuiet : (m : ReliabilityMetric) → IsQuiet (append_metric m)
unfolding append_metric
append_metric-IsQuiet m s = ground arith

pub register_compensation-IsQuiet : (p : CompensationPlan) → IsQuiet (register_compensation p)
unfolding register_compensation load_operation
register_compensation-IsQuiet p s = ground arith

abbrev pub new_row : OperationSpec → OperationRow
new_row o = record { spec = o; status = op_ready; latest_attempt = 0 }

pub register-cases :
    (o : OperationSpec) (s : Store)
    → ((register o s).1 ≡ s)
      ⊎ ((lookup o.operation_id s.operations ≡ none)
          × ((register o s).1.operations ≡ insert o.operation_id (new_row o) s.operations)
          × ((register o s).1.events ≡ s.events))
unfolding register
register-cases o s = ground arith

pub save_circuit-cases :
    (id : String) (c : CircuitBreakerState) (s : Store)
    → ((save_circuit id c s).1 ≡ s)
      ⊎ (((save_circuit id c s).1.operations ≡ s.operations)
          × ((save_circuit id c s).1.events ≡ s.events ++ row_of id (circuit_event c) ∷ []))
unfolding save_circuit
save_circuit-cases id c s = ground arith

pub append_deadline-cases :
    (o : DeadlineObservation) (s : Store)
    → ((append_deadline o s).1 ≡ s)
      ⊎ (((append_deadline o s).1.operations ≡ s.operations)
          × ((append_deadline o s).1.events
              ≡ s.events ++ row_of o.operation_id (deadline_event o) ∷ []))
unfolding append_deadline
append_deadline-cases o s = ground arith

pub record_compensation-cases :
    (r : CompensationRecord) (s : Store)
    → ((record_compensation r s).1 ≡ s)
      ⊎ (((record_compensation r s).1.operations ≡ s.operations)
          × ((record_compensation r s).1.events
              ≡ s.events ++ row_of r.operation_id (compensation_event r) ∷ []))
unfolding record_compensation
record_compensation-cases r s = ground arith

-- The journal's answer to a reconciliation, with the row and the status that it finds.
reconciled_row :
    (id : String) (result : Reconciliation) (d : RecoveryDecision) (s : Store) {row : OperationRow}
    {status : Status}
    → lookup id s.operations ≡ some row
    → status_for d.action ≡ some status
    → let t = (append_reconciliation_and_decision id result d s).1 in
      (t ≡ s)
      ⊎ ((t.operations ≡ insert id (record row { status = status }) s.operations)
          × (t.events
              ≡ (s.events ++ row_of id (reconciliation_event result) ∷ [])
                ++ row_of id (decision_event d) ∷ []))
unfolding append_reconciliation_and_decision
reconciled_row id result d s f e = ground arith

pub append_reconciliation-cases :
    (id : String) (result : Reconciliation) (d : RecoveryDecision) (s : Store)
    → let t = (append_reconciliation_and_decision id result d s).1 in
      (t ≡ s)
      ⊎ ((row : OperationRow) × (status : Status) × (lookup id s.operations ≡ some row)
          × (t.operations ≡ insert id (record row { status = status }) s.operations)
          × (t.events
              ≡ (s.events ++ row_of id (reconciliation_event result) ∷ [])
                ++ row_of id (decision_event d) ∷ []))
unfolding append_reconciliation_and_decision
append_reconciliation-cases id result d s = elim (Option-cases (status_for d.action)) [
  | inl e ↦ inl (ground arith)
  | inr (status, e) ↦ elim (Option-cases (lookup id s.operations)) [
    | inl f ↦ inl (ground arith)
    | inr (row, f) ↦ elim (reconciled_row id result d s f e) [
      | inl same ↦ inl same
      | inr (o, v) ↦ inr (row, status, f, o, v)
    ]
  ]
]
