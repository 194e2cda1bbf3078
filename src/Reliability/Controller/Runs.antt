-- ===== src/Reliability/Controller/Runs.antt =====
-- Runs of the controller, one public call after another (factory/reliability/controller.py).
use ai_factory.Base.{ℕ, ◌≤◌, String, ◌≡◌, refl, some, List, [], ◌∷◌, arith}
use ai_factory.Base.Dict.{lookup}
use ai_factory.Base.Int.{ℤ}
use ai_factory.Reliability.Contracts.{
  OperationSpec, AttemptRecord, Reconciliation, CompensationPlan, CompensationRecord,
}
use ai_factory.Reliability.Store.{OperationRow}
use ai_factory.Reliability.Store
use ai_factory.Reliability.Store.Journal.{attempts_of}
use ai_factory.Reliability.Controller
use ai_factory.Reliability.Controller.Budget.{Sound, register-Keeps}
use ai_factory.Reliability.Controller.Calls.{
  store-IsKept, deadline-IsKept, probe-IsKept, reconcile-IsKept, plan-IsKept, compensation-IsKept,
  resume-IsKept,
}
use ai_factory.Reliability.Controller.Attempts.{attempt-IsKept}

-- A public call of the controller.
pub data Command : Type 0 where
  register_call : OperationSpec → Command
  attempt_call : AttemptRecord → Command
  deadline_call : String → ℕ → ℤ → Command
  probe_call resume_call : String → Command
  reconcile_call : String → Reconciliation → Command
  plan_call : CompensationPlan → Command
  compensation_call : CompensationRecord → Command

-- The store after a call, whether it returned or raised.
unfoldable pub after : Command → Store.Store → Store.Store
after (register_call o) s = (Controller.register o s).1
after (attempt_call a) s = (Controller.record_attempt a s).1
after (deadline_call id attempt elapsed) s = (Controller.record_deadline id attempt elapsed s).1
after (probe_call id) s = (Controller.open_probe id s).1
after (resume_call id) s = (Controller.resume_action id s).1
after (reconcile_call id r) s = (Controller.reconcile id r s).1
after (plan_call p) s = (Controller.register_compensation p s).1
after (compensation_call r) s = (Controller.record_compensation r s).1

unfoldable pub run : List Command → Store.Store → Store.Store
run [] s = s
run (c ∷ cs) s = run cs (after c s)

-- The store of a new database.
abbrev pub empty_store : Store.Store
empty_store = record {
  operations = [];
  circuits = [];
  events = [];
  deadlines = [];
  compensations = [];
  metrics = [];
}

after-Sound : (c : Command) (s : Store.Store) → Sound s → Sound (after c s)
unfolding after Controller.register
after-Sound (register_call o) = (store-IsKept (Store.register o) (register-Keeps o)).apply
after-Sound (attempt_call a) = (attempt-IsKept a).apply
after-Sound (deadline_call id attempt elapsed) = (deadline-IsKept id attempt elapsed).apply
after-Sound (probe_call id) = (probe-IsKept id).apply
after-Sound (resume_call id) = (resume-IsKept id).apply
after-Sound (reconcile_call id r) = (reconcile-IsKept id r).apply
after-Sound (plan_call p) = (plan-IsKept p).apply
after-Sound (compensation_call r) = (compensation-IsKept r).apply

pub run-Sound : (cs : List Command) (s : Store.Store) → Sound s → Sound (run cs s)
unfolding run
run-Sound [] s h = h
run-Sound (c ∷ cs) s h = run-Sound cs (after c s) (after-Sound c s h)

empty-Sound : Sound empty_store
unfolding Store.events_of lookup
empty-Sound = record { rows = λ id row h. absurd (ground arith); orphans = λ id h. refl }

-- In a database that only the controller has written, by whatever calls, the number of attempts in
-- the journal of a registered operation is the one in its row, and is at most its `max_attempts`.
pub run_in_budget :
    (cs : List Command) (id : String) (row : OperationRow)
    → lookup id (run cs empty_store).operations ≡ some row
    → (attempts_of id (run cs empty_store).events ≡ row.latest_attempt)
      × (attempts_of id (run cs empty_store).events ≤ row.spec.max_attempts)
run_in_budget cs id row found =
    let r = (run-Sound cs empty_store empty-Sound).rows id row found in
    (r.counted, ground (arith, r.counted, r.in_budget))
