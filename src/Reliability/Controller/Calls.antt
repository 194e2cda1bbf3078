-- ===== src/Reliability/Controller/Calls.antt =====
-- The calls of the controller other than `record_attempt` (factory/reliability/controller.py): each
-- keeps the budget of attempts.
use ai_factory.Base.{ℕ, String, Bool, true, false, not, none, some, is_some}
use ai_factory.Base.Int.{ℤ}
use ai_factory.Base.Result.{Result, map_err}
use ai_factory.Base.Action.{raise_if, IsKept, IsKept-bind, IsKept-pure, IsKept-if}
use ai_factory.Reliability.Contracts.{
  OperationSpec, Reconciliation, CompensationPlan, CompensationRecord, is_unknown, is_over,
  validate_deadline,
}
use ai_factory.Reliability.Engine.{EngineError, contract, half_open_circuit, decide}
use ai_factory.Reliability.Store.{
  StoreError, is_reconcile_required, Method, OperationRow, Event, EventRow, Status, attempt_event,
  decision_event, circuit_event,
}
use ai_factory.Reliability.Store
use ai_factory.Reliability.Store.Effects.{
  load_operation-IsQuiet, load_circuit-IsQuiet, state_of-IsQuiet, latest_decision-IsQuiet,
  latest_attempt-IsQuiet, append_metric-IsQuiet, register_compensation-IsQuiet,
}
use ai_factory.Reliability.Controller.{
  ControllerError, on_store, by_engine, count_metric, record_deadline, open_probe, reconcile,
  register_compensation, record_compensation, resume_action, is_op_ready, observe, reconciled,
  compensation_metric, deadline_metric, metric, not_waiting, not_ambiguous,
  no_compensation_declared,
}
use ai_factory.Reliability.Controller.Budget.{
  Sound, Keeps, quiet-Keeps, save_circuit-Keeps, append_deadline-Keeps, record_compensation-Keeps,
  reconciliation-Keeps,
}

pub store-IsKept : {A : Type 0} (m : Method A) → Keeps m → IsKept Sound (on_store m)
store-IsKept m keep = record { apply = keep }

pub engine-IsKept : {A : Type 0} (r : Result EngineError A) → IsKept Sound (by_engine r)
engine-IsKept r = record { apply = λ s h. h }

pub guard-IsKept : (b : Bool) (e : ControllerError) → IsKept Sound (raise_if {S = Store.Store} b e)
guard-IsKept true e = record { apply = λ s h. h }
guard-IsKept false e = record { apply = λ s h. h }

pub load-IsKept : (id : String) → IsKept Sound (on_store (Store.load_operation id))
load-IsKept id =
    store-IsKept (Store.load_operation id)
      (quiet-Keeps (Store.load_operation id) (load_operation-IsQuiet id))

pub metric-IsKept : (o : OperationSpec) (id name : String) → IsKept Sound (count_metric o id name)
metric-IsKept o id name = store-IsKept (Store.append_metric (metric o id name)) (
    quiet-Keeps (Store.append_metric (metric o id name)) (append_metric-IsQuiet (metric o id name)))

pub deadline-IsKept :
    (id : String) (attempt : ℕ) (elapsed : ℤ) → IsKept Sound (record_deadline id attempt elapsed)
unfolding record_deadline
deadline-IsKept id attempt elapsed = IsKept-bind Sound (load-IsKept id) λ o.
    let seen = observe id attempt elapsed o in
    IsKept-bind Sound (engine-IsKept (map_err contract (validate_deadline seen))) λ _.
      IsKept-bind Sound (store-IsKept (Store.append_deadline seen) (append_deadline-Keeps seen))
        λ _.
          IsKept-bind Sound
            (metric-IsKept o id (deadline_metric (is_over elapsed o.timeout_seconds)))
            λ _. IsKept-pure Sound seen

pub probe-IsKept : (id : String) → IsKept Sound (open_probe id)
unfolding open_probe
probe-IsKept id = IsKept-bind Sound (load-IsKept id) λ _.
    IsKept-bind Sound
      (store-IsKept (Store.load_circuit id)
        (quiet-Keeps (Store.load_circuit id) (load_circuit-IsQuiet id)))
      λ c.
        IsKept-bind Sound (engine-IsKept (half_open_circuit c))
          λ d. store-IsKept (Store.save_circuit id d) (save_circuit-Keeps id d)

pub reconcile-IsKept : (id : String) (r : Reconciliation) → IsKept Sound (reconcile id r)
unfolding reconcile
reconcile-IsKept id r = IsKept-bind Sound (load-IsKept id) λ o.
    IsKept-bind Sound
      (store-IsKept (Store.state_of id) (quiet-Keeps (Store.state_of id) (state_of-IsQuiet id)))
      λ row.
        IsKept-bind Sound (guard-IsKept (not (is_reconcile_required row.status)) not_waiting) λ _.
          IsKept-bind Sound
            (store-IsKept (Store.latest_attempt id)
              (quiet-Keeps (Store.latest_attempt id) (latest_attempt-IsQuiet id)))
            λ a. IsKept-bind Sound (guard-IsKept (not (is_unknown a.outcome)) not_ambiguous) λ _.
              IsKept-bind Sound (engine-IsKept (decide o (reconciled a r) none)) λ d.
                IsKept-bind Sound
                  (store-IsKept (Store.append_reconciliation_and_decision id r d)
                    (reconciliation-Keeps id r d))
                  λ _.
                    IsKept-bind Sound (metric-IsKept o id "reconciliation_total")
                      λ _. IsKept-pure Sound d

pub plan-IsKept : (p : CompensationPlan) → IsKept Sound (register_compensation p)
unfolding register_compensation
plan-IsKept p = IsKept-bind Sound (load-IsKept p.operation_id) λ o.
    IsKept-bind Sound (guard-IsKept (not (is_some o.compensation_ref)) no_compensation_declared)
      λ _.
        store-IsKept (Store.register_compensation p)
          (quiet-Keeps (Store.register_compensation p) (register_compensation-IsQuiet p))

pub compensation-IsKept : (r : CompensationRecord) → IsKept Sound (record_compensation r)
unfolding record_compensation
compensation-IsKept r = IsKept-bind Sound (load-IsKept r.operation_id) λ o.
    IsKept-bind Sound (store-IsKept (Store.record_compensation r) (record_compensation-Keeps r))
      λ _. metric-IsKept o r.operation_id (compensation_metric r)

pub resume-IsKept : (id : String) → IsKept Sound (resume_action id)
unfolding resume_action
resume-IsKept id =
    IsKept-bind Sound
      (store-IsKept (Store.state_of id) (quiet-Keeps (Store.state_of id) (state_of-IsQuiet id)))
      λ row. IsKept-if Sound (is_op_ready row.status) (IsKept-pure Sound none) (
        IsKept-bind Sound
          (store-IsKept (Store.latest_decision id)
            (quiet-Keeps (Store.latest_decision id) (latest_decision-IsQuiet id)))
          λ d. IsKept-pure Sound (some d))
