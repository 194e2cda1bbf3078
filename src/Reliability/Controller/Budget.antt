-- ===== src/Reliability/Controller/Budget.antt =====
-- No operation is attempted more often than its budget allows (factory/reliability/controller.py).
use ai_factory.Base.{
  ◌+◌, ◌≤◌, String, ◌≡◌, refl, ap, inl, inr, none, some, List, [], ◌∷◌, ◌++◌, arith, eq_iff, subst,
}
use ai_factory.Base.Dict.{Dict, lookup, insert, lookup-insert-eq-some, lookup-insert-eq-none}
use ai_factory.Reliability.Contracts.{
  OperationSpec, AttemptRecord, CircuitBreakerState, RecoveryDecision, DeadlineObservation,
  CompensationRecord, Reconciliation,
}
use ai_factory.Reliability.Store.{
  StoreError, OperationRow, Event, EventRow, Status, Method, deadline_event, compensation_event,
  reconciliation_event, attempt_event, decision_event, circuit_event, op_ready,
}
use ai_factory.Reliability.Store
use ai_factory.Reliability.Store.Journal.{attempts_of, attempts_of-append, is_attempt, row_of}
use ai_factory.Reliability.Store.Effects.{
  IsQuiet, register-cases, new_row, save_circuit-cases, append_deadline-cases,
  record_compensation-cases, append_reconciliation-cases,
}
use ai_factory.Reliability.Controller.{Call}

-- A row's spec goes by the row's key, and its count of attempts is the journal's and in budget.
pub record IsRow (id : String) (events : List EventRow) (row : OperationRow) : Type 0 where
  pub keyed : row.spec.operation_id ≡ id
  pub counted : attempts_of id events ≡ row.latest_attempt
  pub in_budget : row.latest_attempt ≤ row.spec.max_attempts

-- Every row is right, and the journal has no attempt of an unknown operation.
pub record IsSound (operations : Dict OperationRow) (events : List EventRow) : Type 0 where
  pub rows :
      (id : String) (row : OperationRow) → lookup id operations ≡ some row → IsRow id events row
  pub orphans : (id : String) → lookup id operations ≡ none → attempts_of id events ≡ 0

pub IsSound-append :
    (key : String) (e : Event) {operations : Dict OperationRow} {events : List EventRow}
    → is_attempt e ≡ 0
    → IsSound operations events
    → IsSound operations (events ++ row_of key e ∷ [])
IsSound-append key e {operations} {events} quiet h = record {
  rows = λ id row found.
      let r = h.rows id row found in ground (arith, attempts_of-append id key e events);
  orphans = λ id missing.
      let n = h.orphans id missing in ground (arith, attempts_of-append id key e events);
}

IsRow-like :
    {id : String} {events : List EventRow} {r s : OperationRow}
    → s.spec ≡ r.spec
    → s.latest_attempt ≡ r.latest_attempt
    → IsRow id events r
    → IsRow id events s
IsRow-like e n h = ground (
  arith,
  ap (λ (o : OperationSpec). o.operation_id) e,
  ap (λ (o : OperationSpec). o.max_attempts) e,
)

-- A row is replaced by one with the same spec and count.
IsSound-update :
    (key : String) (row new_row : OperationRow) {operations : Dict OperationRow}
    {events : List EventRow}
    → lookup key operations ≡ some row
    → new_row.spec ≡ row.spec
    → new_row.latest_attempt ≡ row.latest_attempt
    → IsSound operations events
    → IsSound (insert key new_row operations) events
IsSound-update key row new_row {operations} {events} found same_spec same_count h = record {
  rows = λ id r e. elim (lookup-insert-eq-some key id new_row operations r e) [
    | inl (same, is_new) ↦
        subst (IsRow id events) is_new
          (IsRow-like same_spec same_count (h.rows id row (rw same at found)))
    | inr (other, old) ↦ h.rows id r old
  ];
  orphans = λ id e. h.orphans id (lookup-insert-eq-none key id new_row operations e).1;
}

-- One more attempt of a row, within its budget.
pub IsSound-attempt :
    (a : AttemptRecord) (row : OperationRow) (status : Status) {operations : Dict OperationRow}
    {events : List EventRow}
    → lookup a.operation_id operations ≡ some row
    → a.attempt ≡ row.latest_attempt + 1
    → a.attempt ≤ row.spec.max_attempts
    → IsSound operations events
    → IsSound
        (insert a.operation_id
          (record row { status = status; latest_attempt = a.attempt })
          operations)
        (events ++ row_of a.operation_id (attempt_event a) ∷ [])
IsSound-attempt a row status {operations} {events} found next budget h = record {
  rows = λ id r e.
      let more = attempts_of-append id a.operation_id (attempt_event a) events in
      elim (lookup-insert-eq-some a.operation_id id _ operations r e) [
        | inl (same, is_new) ↦
            let old = h.rows id row (rw same at found) in
            subst (IsRow id _) is_new (record {
              keyed = old.keyed;
              counted = ground (arith, more, eq_iff a.operation_id id);
              in_budget = budget;
            })
        | inr (other, was) ↦ let old = h.rows id r was in ground (arith, more)
      ];
  orphans = λ id e.
      let (other, missing) = lookup-insert-eq-none a.operation_id id _ operations e in
      let none_before = h.orphans id missing in
      ground (arith, attempts_of-append id a.operation_id (attempt_event a) events);
}

abbrev pub Sound : Store.Store → Type 0
Sound s = IsSound s.operations s.events

-- A method that keeps the journal sound, however it ends.
abbrev pub Keeps : {A : Type 0} → Method A → Type 0
Keeps m = (s : Store.Store) → Sound s → Sound (m s).1

abbrev pub KeepsCall : {A : Type 0} → Call A → Type 0
KeepsCall m = (s : Store.Store) → Sound s → Sound (m s).1

pub IsSound-same :
    {o o' : Dict OperationRow} {e e' : List EventRow}
    → o' ≡ o
    → e' ≡ e
    → IsSound o e
    → IsSound o' e'
IsSound-same p q h = rw (p, q) h

pub quiet-Keeps : {A : Type 0} (m : Method A) → IsQuiet m → Keeps m
quiet-Keeps m q s h = IsSound-same (q s).0 (q s).1 h

pub register-Keeps : (o : OperationSpec) → Keeps (Store.register o)
register-Keeps o s h = elim (register-cases o s) [
  | inl same ↦ rw same h
  | inr (missing, ops, events) ↦ IsSound-same ops events (record {
    rows = λ id r e. elim (lookup-insert-eq-some o.operation_id id (new_row o) s.operations r e) [
      | inl (same, is_new) ↦ subst (IsRow id s.events) is_new (record {
        keyed = same;
        counted = h.orphans id (rw same at missing);
        in_budget = omega arith;
      })
      | inr (other, old) ↦ h.rows id r old
    ];
    orphans =
        λ id e. h.orphans id (lookup-insert-eq-none o.operation_id id (new_row o) s.operations e).1;
  })
]

pub save_circuit-Keeps : (id : String) (c : CircuitBreakerState) → Keeps (Store.save_circuit id c)
save_circuit-Keeps id c s h = elim (save_circuit-cases id c s) [
  | inl same ↦ rw same h
  | inr (ops, events) ↦ IsSound-same ops events (IsSound-append id (circuit_event c) refl h)
]

pub append_deadline-Keeps : (o : DeadlineObservation) → Keeps (Store.append_deadline o)
append_deadline-Keeps o s h = elim (append_deadline-cases o s) [
  | inl same ↦ rw same h
  | inr (ops, events) ↦
      IsSound-same ops events (IsSound-append o.operation_id (deadline_event o) refl h)
]

pub record_compensation-Keeps : (r : CompensationRecord) → Keeps (Store.record_compensation r)
record_compensation-Keeps r s h = elim (record_compensation-cases r s) [
  | inl same ↦ rw same h
  | inr (ops, events) ↦
      IsSound-same ops events (IsSound-append r.operation_id (compensation_event r) refl h)
]

pub reconciliation-Keeps :
    (id : String) (result : Reconciliation) (d : RecoveryDecision)
    → Keeps (Store.append_reconciliation_and_decision id result d)
reconciliation-Keeps id result d s h = elim (append_reconciliation-cases id result d s) [
  | inl same ↦ rw same h
  | inr (row, status, found, ops, events) ↦ IsSound-same ops events (
      IsSound-append id (decision_event d) refl (
        IsSound-append id (reconciliation_event result) refl
          (IsSound-update id row (record row { status = status }) found refl refl h)))
]
