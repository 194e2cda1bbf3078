-- ===== src/Reliability/Controller/Attempts.antt =====
-- `record_attempt` (factory/reliability/controller.py) keeps the budget of attempts.
use ai_factory.Base.{◌≤◌, String, Bool, true, false, ◌≡◌, refl, ap, inl, inr, some, ⊤, arith, subst}
use ai_factory.Base.Dict.{lookup}
use ai_factory.Base.Result.{Result, ok, err, map_err}
use ai_factory.Base.Action.{pure, raise_if, ◌>>=◌, ◌>>◌, >>=-elim, IsKept, IsKept-bind, IsKept-pure}
use ai_factory.Reliability.Contracts.{
  OperationSpec, AttemptRecord, CircuitBreakerState, RecoveryDecision, is_opened, is_success,
}
use ai_factory.Reliability.Engine.{EngineError, decide, next_circuit_state}
use ai_factory.Reliability.Engine.Decisions.{decide-IsChecked}
use ai_factory.Reliability.Store.{StoreError, Method, OperationRow, decision_event, circuit_event}
use ai_factory.Reliability.Store
use ai_factory.Reliability.Store.Journal.{load_operation-eq-ok, append_attempt_and_decision-cases}
use ai_factory.Reliability.Controller.{
  Call, ControllerError, store_error, on_store, by_engine, count_metric, circuit_is_open,
  record_attempt, final_decision, count_failure,
}
use ai_factory.Reliability.Controller.Budget.{Sound, IsSound-attempt, IsSound-append}
use ai_factory.Reliability.Controller.Calls.{metric-IsKept, load-IsKept}

pub on_store-eq-ok :
    {A : Type 0} (m : Method A) (s : Store.Store) {a : A} {s' : Store.Store}
    → on_store m s ≡ (ok a, s')
    → m s ≡ (ok a, s')
on_store-eq-ok {A = A} m s {a} {s'} h = back (m s) h
  where
    back :
        (x : Result StoreError A × Store.Store)
        → ◌≡◌ {A = Result ControllerError A × Store.Store} (map_err store_error x.0, x.1) (ok a, s')
        → x ≡ (ok a, s')
    back (ok b, t) e = cc
    back (err b, t) e = absurd (cc (ap (λ z. z.0) e))

-- A call that leaves the journal sound, from this state.
record Leaves {A : Type 0} (m : Call A) (s : Store.Store) : Type 0 where
  pub sound : Sound (m s).1

-- A call of the engine does not touch the journal.
engine_then-Leaves :
    {A B : Type 0} (r : Result EngineError A) {f : A → Call B} {s : Store.Store}
    → Sound s
    → ((a : A) → r ≡ ok a → Leaves (f a) s)
    → Leaves (by_engine r >>= f) s
engine_then-Leaves (ok a) h rest = record { sound = (rest a refl).sound }
engine_then-Leaves (err e) h rest = record { sound = h }

guard_then-Leaves :
    {A : Type 0} (b : Bool) (e : ControllerError) (f : ⊤ → Call A) {s : Store.Store}
    → Sound s
    → Leaves (f tt) s
    → Leaves (raise_if b e >>= f) s
guard_then-Leaves true e f h rest = record { sound = h }
guard_then-Leaves false e f h rest = record { sound = rest.sound }

-- A call that leaves the journal sound, and then calls that do where it has returned.
call_then-Leaves :
    {A B : Type 0} (m : Call A) {f : A → Call B} {s : Store.Store}
    → Sound (m s).1
    → ((a : A) (t : Store.Store) → m s ≡ (ok a, t) → Leaves (f a) t)
    → Leaves (m >>= f) s
call_then-Leaves m {f} {s} h rest = record {
  sound =
      >>=-elim (λ x. Sound x.1) m f s (λ a t e. (rest a t e).sound)
        (λ e t q. subst Sound (ap (λ z. z.1) q) h);
}

-- A sound journal where an operation is registered with the spec that was loaded.
record IsLoaded (id : String) (o : OperationSpec) (s : Store.Store) : Type 0 where
  pub sound : Sound s
  pub row : OperationRow
  pub found : lookup id s.operations ≡ some row
  pub spec : o ≡ row.spec

loaded :
    (id : String) (s : Store.Store) {o : OperationSpec} {s' : Store.Store}
    → Sound s
    → on_store (Store.load_operation id) s ≡ (ok o, s')
    → IsLoaded id o s'
loaded id s h e =
    let (row, found, same, keep, _) =
      load_operation-eq-ok id s (on_store-eq-ok (Store.load_operation id) s e) in
    rw keep (record { sound = h; row = row; found = found; spec = same })

-- The commit of an attempt within the budget of the loaded operation.
append-Sound :
    (a : AttemptRecord) (d : RecoveryDecision) (c : CircuitBreakerState) (o : OperationSpec)
    (s : Store.Store)
    → IsLoaded a.operation_id o s
    → a.attempt ≤ o.max_attempts
    → Sound (Store.append_attempt_and_decision a d (some c) s).1
append-Sound a d c o s h budget = elim (append_attempt_and_decision-cases a d (some c) s) [
  | inr (x, e) ↦ rw e h.sound
  | inl (row, status, k, e) ↦ rw e (
      IsSound-append a.operation_id (circuit_event c) refl (
        IsSound-append d.operation_id (decision_event d) refl
          (IsSound-attempt a row status k.found k.in_sequence (ground arith) h.sound)))
]

-- The last calls of `record_attempt`, once the attempt is committed.
abbrev pub counted : AttemptRecord → OperationSpec → RecoveryDecision → Call RecoveryDecision
counted a o d = do
  count_metric o o.operation_id "attempt_total"
  count_failure (is_success a.outcome) o
  pure d

counted-IsKept :
    (a : AttemptRecord) (o : OperationSpec) (d : RecoveryDecision) → IsKept Sound (counted a o d)
counted-IsKept a o d =
    IsKept-bind Sound (metric-IsKept o o.operation_id "attempt_total")
      λ _. IsKept-bind Sound (failure-IsKept (is_success a.outcome)) λ _. IsKept-pure Sound d
  where
    failure-IsKept : (b : Bool) → IsKept Sound (count_failure b o)
    failure-IsKept true = IsKept-pure Sound tt
    failure-IsKept false = metric-IsKept o o.operation_id "attempt_failure_total"

-- The call once the circuit lets the attempt pass.
unfoldable pub decided_attempt :
    AttemptRecord → OperationSpec → CircuitBreakerState → Call RecoveryDecision
decided_attempt a o c = do
  first ← by_engine (decide o a (some c))
  next_circuit ← by_engine (next_circuit_state c a)
  decision ← by_engine (final_decision o next_circuit first)
  on_store (Store.append_attempt_and_decision a decision (some next_circuit))
  counted a o decision

decided-Leaves :
    (a : AttemptRecord) (o : OperationSpec) (c : CircuitBreakerState) (s : Store.Store)
    → IsLoaded a.operation_id o s
    → Leaves (decided_attempt a o c) s
unfolding decided_attempt
decided-Leaves a o c s h = engine_then-Leaves (decide o a (some c)) h.sound λ first allowed.
    engine_then-Leaves (next_circuit_state c a) h.sound λ n _.
      engine_then-Leaves (final_decision o n first) h.sound λ d _.
        let keep =
          append-Sound a d n o s h (ground (arith, decide-IsChecked o a (some c) allowed)) in
        call_then-Leaves (on_store (Store.append_attempt_and_decision a d (some n)))
          {f = λ _. counted a o d} keep
          λ _ t e. record {
            sound = (counted-IsKept a o d).apply t (subst Sound (ap (λ z. z.1) e) keep);
          }

IsLoaded-circuit :
    (id : String) (o : OperationSpec) (s : Store.Store)
    → IsLoaded id o s
    → IsLoaded id o (on_store (Store.load_circuit id) s).1
unfolding Store.load_circuit
IsLoaded-circuit id o s h = ground arith

attempt-Leaves : (a : AttemptRecord) (s : Store.Store) → Sound s → Leaves (record_attempt a) s
unfolding record_attempt decided_attempt
attempt-Leaves a s h =
    call_then-Leaves (on_store (Store.load_operation a.operation_id))
      ((load-IsKept a.operation_id).apply s h)
      λ o t e.
        let known = IsLoaded-circuit a.operation_id o t (loaded a.operation_id s h e) in
        call_then-Leaves (on_store (Store.load_circuit a.operation_id)) known.sound λ c u e₂.
          let here = subst (IsLoaded a.operation_id o) (ap (λ z. z.1) e₂) known in
          guard_then-Leaves (is_opened c.state) circuit_is_open (λ _. decided_attempt a o c)
            here.sound (decided-Leaves a o c u here)

pub attempt-IsKept : (a : AttemptRecord) → IsKept Sound (record_attempt a)
attempt-IsKept a = record { apply = λ s h. (attempt-Leaves a s h).sound }
