-- ===== src/Reliability/Store/Journal.antt =====
-- What the journal's operations leave (factory/reliability/store.py).
use ai_factory.Base.{
  ℕ, ◌+◌, String, Bool, true, false, ◌≡◌, refl, ap, sym, ◌⊎◌, inl, inr, Option, none, some, List,
  [], ◌∷◌, ◌++◌, map, if◌then◌else◌, ◌==◌, arith, eq_iff, Bool-cases, eqb, select, select-append,
  length, length-append, Option-cases,
}
use ai_factory.Base.Dict.{lookup, insert}
use ai_factory.Base.Result.{ok, err, Result-cases}
use ai_factory.Reliability.Contracts.{
  OperationSpec, AttemptRecord, CircuitBreakerState, RecoveryDecision, validate_operation,
  ContractError, validate_attempt, validate_circuit, validate_decision,
}
use ai_factory.Reliability.Store.{
  Store, StoreError, invalid, operation_mismatch, unknown_action, unknown_operation,
  terminal_operation, sequence_mismatch, unknown_circuit, deadline_event, compensation_event,
  OperationRow, Event, EventRow, Status, attempt_event, decision_event, circuit_event,
  reconciliation_event, is_terminal, status_for, events_of, attempts_in, load_operation,
  load_circuit, append_attempt_and_decision, write_circuit, validated_circuit,
}

-- How often an operation has been attempted, by the journal.
abbrev pub attempts_of : String → List EventRow → ℕ
attempts_of id events = length (attempts_in (events_of id events))

attempts_in-append :
    (xs ys : List Event) → attempts_in (xs ++ ys) ≡ attempts_in xs ++ attempts_in ys
attempts_in-append [] ys = refl
attempts_in-append (attempt_event a ∷ xs) ys = ap (λ l. a ∷ l) (attempts_in-append xs ys)
attempts_in-append (_ ∷ xs) ys = attempts_in-append xs ys

map-event-append :
    (xs ys : List EventRow)
    → map (λ (r : EventRow). r.event) (xs ++ ys)
      ≡ map (λ (r : EventRow). r.event) xs ++ map (λ (r : EventRow). r.event) ys
map-event-append [] ys = refl
map-event-append (x ∷ xs) ys = ap (λ l. x.event ∷ l) (map-event-append xs ys)

abbrev pub row_of : String → Event → EventRow
row_of id e = record { operation_id = id; event = e }

pub events_of-append :
    (id key : String) (e : Event) (events : List EventRow)
    → events_of id (events ++ row_of key e ∷ [])
      ≡ events_of id events ++ (if key == id then e ∷ [] else [])
unfolding events_of
events_of-append id key e events = ground (
  arith,
  map-event-append (select (λ (r : EventRow). r.operation_id == id) events)
      (if key == id then row_of key e ∷ [] else []),
  select-append (λ (r : EventRow). r.operation_id == id) events (row_of key e ∷ []),
)

abbrev pub is_attempt : Event → ℕ
is_attempt (attempt_event _) = 1
is_attempt _ = 0

one_event :
    (e : Event) (b : Bool)
    → length (attempts_in (if b then e ∷ [] else [])) ≡ (if b then is_attempt e else 0)
one_event e false = refl
one_event (attempt_event a) true = refl
one_event (decision_event a) true = refl
one_event (circuit_event a) true = refl
one_event (reconciliation_event a) true = refl
one_event (deadline_event a) true = refl
one_event (compensation_event a) true = refl

pub attempts_of-append :
    (id key : String) (e : Event) (events : List EventRow)
    → attempts_of id (events ++ row_of key e ∷ [])
      ≡ attempts_of id events + (if key == id then is_attempt e else 0)
attempts_of-append id key e events =
    rw
      (
        events_of-append id key e events,
        attempts_in-append (events_of id events) (if key == id then e ∷ [] else []),
        length-append (attempts_in (events_of id events))
            (attempts_in (if key == id then e ∷ [] else [])),
      )
      (ap (λ n. attempts_of id events + n) (one_event e (key == id)))

pub load_operation-eq-ok :
    (id : String) (s : Store) {o : OperationSpec} {s' : Store}
    → load_operation id s ≡ (ok o, s')
    → (row : OperationRow) × (lookup id s.operations ≡ some row)
      × (o ≡ row.spec)
      × (s' ≡ s)
      × (validate_operation o ≡ ok tt)
unfolding load_operation
load_operation-eq-ok id s h = elim (Option-cases (lookup id s.operations)) [
  | inl missing ↦ absurd (ground arith)
  | inr (row, found) ↦ (row, found, ground arith, ground arith, ground arith)
]

pub load_circuit-eq-ok :
    (id : String) (s : Store) {c : CircuitBreakerState} {s' : Store}
    → load_circuit id s ≡ (ok c, s')
    → (lookup id s.circuits ≡ some c) × (s' ≡ s) × (validate_circuit c ≡ ok tt)
unfolding load_circuit
load_circuit-eq-ok id s h = ground arith

-- The circuit and its event, where a circuit is given.
abbrev pub with_circuit : String → Option CircuitBreakerState → Store → Store
with_circuit id none s = s
with_circuit id (some c) s = record s {
  circuits = insert id c s.circuits;
  events = s.events ++ row_of id (circuit_event c) ∷ [];
}

abbrev pub with_events : AttemptRecord → RecoveryDecision → Store → Store
with_events a d s = record s {
  events =
      (s.events ++ row_of a.operation_id (attempt_event a) ∷ [])
      ++ row_of d.operation_id (decision_event d) ∷ [];
}

-- The store after a committed attempt.
abbrev pub with_attempt :
    AttemptRecord
    → RecoveryDecision
    → Option CircuitBreakerState
    → OperationRow
    → Status
    → Store
    → Store
with_attempt a d c row status s =
    let t = with_circuit a.operation_id c (with_events a d s) in
    record t {
      operations =
          insert a.operation_id (record row { status = status; latest_attempt = a.attempt })
            s.operations;
    }

-- What the commit of an attempt has checked.
pub record IsCommitted (a : AttemptRecord) (d : RecoveryDecision) (s : Store) (row : OperationRow)
    (status : Status) : Type 0 where
  pub found : lookup a.operation_id s.operations ≡ some row
  pub follows : status_for d.action ≡ some status
  pub live : is_terminal row.status ≡ false
  pub in_sequence : a.attempt ≡ row.latest_attempt + 1
  pub same_operation : d.operation_id ≡ a.operation_id
  pub decision_valid : validate_decision d ≡ ok tt

-- A circuit is written where the operation has one.
write_circuit-cases :
    (id : String) (c : Option CircuitBreakerState) (s : Store)
    → (write_circuit id c s ≡ (ok tt, with_circuit id c s))
      ⊎ (write_circuit id c s ≡ (err (unknown_circuit id), s))
unfolding write_circuit
write_circuit-cases id none s = inl refl
write_circuit-cases id (some c) s = elim (Option-cases (lookup id s.circuits)) [
  | inl e ↦ inr (ground arith)
  | inr (_, e) ↦ inl (ground arith)
]

validated_circuit-cases :
    (c : Option CircuitBreakerState) (s : Store)
    → (validated_circuit c s ≡ (ok tt, s))
      ⊎ ((x : ContractError) × (validated_circuit c s ≡ (err (invalid x), s)))
validated_circuit-cases none s = inl refl
validated_circuit-cases (some c) s = elim (Result-cases (validate_circuit c)) [
  | inl (_, e) ↦ inl (ground arith)
  | inr (x, e) ↦ inr (x, ground arith)
]

-- With a new state of the circuit or with none, the journal takes the attempt whole, or is left as it was.
pub append_attempt_and_decision-cases :
    (a : AttemptRecord) (d : RecoveryDecision) (c : Option CircuitBreakerState) (s : Store)
    → ((row : OperationRow) × (status : Status) × IsCommitted a d s row status
        × (append_attempt_and_decision a d c s ≡ (ok tt, with_attempt a d c row status s)))
      ⊎ ((e : StoreError) × (append_attempt_and_decision a d c s ≡ (err e, s)))
unfolding append_attempt_and_decision
append_attempt_and_decision-cases a d c s = elim (Result-cases (validate_attempt a)) [
  | inr (x, e) ↦ inr (invalid x, ground arith)
  | inl (_, va) ↦ elim (Result-cases (validate_decision d)) [
    | inr (x, e) ↦ inr (invalid x, ground arith)
    | inl (_, vd) ↦ elim (validated_circuit-cases c s) [
      | inr (x, e) ↦ inr (invalid x, ground arith)
      | inl vc ↦ elim (Bool-cases (a.operation_id == d.operation_id)) [
        | inr e ↦ inr (operation_mismatch, ground arith)
        | inl same ↦ elim (Option-cases (status_for d.action)) [
          | inl e ↦ inr (unknown_action, ground arith)
          | inr (status, follows) ↦ elim (Option-cases (lookup a.operation_id s.operations)) [
            | inl e ↦ inr (unknown_operation a.operation_id, ground arith)
            | inr (row, found) ↦ elim (Bool-cases (is_terminal row.status)) [
              | inl e ↦ inr (terminal_operation, ground arith)
              | inr live ↦ elim (Bool-cases (eqb a.attempt (row.latest_attempt + 1))) [
                | inr e ↦ inr (sequence_mismatch (row.latest_attempt + 1) a.attempt, ground arith)
                | inl next ↦ elim (write_circuit-cases a.operation_id c (with_events a d s)) [
                  | inr e ↦ inr (unknown_circuit a.operation_id, ground arith)
                  | inl e ↦ inl (
                    row,
                    status,
                    record {
                      found = found;
                      follows = follows;
                      live = live;
                      in_sequence = ground arith;
                      same_operation = sym ((eq_iff a.operation_id d.operation_id).0 same);
                      decision_valid = vd;
                    },
                    ground arith,
                  )
                ]
              ]
            ]
          ]
        ]
      ]
    ]
  ]
]
