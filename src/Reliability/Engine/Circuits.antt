-- ===== src/Reliability/Engine/Circuits.antt =====
-- The circuit breaker (factory/reliability/engine.py).
use ai_factory.Base.{◌↔◌, ◌+◌, ◌≤◌, true, ◌≡◌, refl, ◌⊎◌, arith, ◌≢◌}
use ai_factory.Base.Result.{ok}
use ai_factory.Reliability.Contracts.{
  Outcome, is_known_outcome, AttemptRecord, CircuitBreakerState, success, other_outcome, closed,
  opened, half_open, validate_attempt, validate_circuit, is_known_circuit,
}
use ai_factory.Reliability.Engine.{
  next_circuit_state, circuit_after, half_open_circuit, failed_once_more,
}

-- What `validate` accepts.
pub record IsCircuit (c : CircuitBreakerState) : Type 0 where
  pub known : is_known_circuit c.state ≡ true
  pub threshold : 1 ≤ c.failure_threshold
  pub opened_by : c.state ≡ opened → c.failure_threshold ≤ c.consecutive_failures

pub validate_circuit-IsCircuit :
    (c : CircuitBreakerState) → validate_circuit c ≡ ok tt → IsCircuit c
unfolding validate_circuit
validate_circuit-IsCircuit c h = ground arith

pub validate_circuit_of_IsCircuit :
    (c : CircuitBreakerState) → IsCircuit c → validate_circuit c ≡ ok tt
unfolding validate_circuit
validate_circuit_of_IsCircuit c h = ground arith

-- Where an attempt takes the circuit.
pub record IsNextCircuit (a : AttemptRecord) (c d : CircuitBreakerState) : Type 0 where
  pub same_threshold : d.failure_threshold ≡ c.failure_threshold
  pub reset : a.outcome ≡ success → (d.state ≡ closed) × (d.consecutive_failures ≡ 0)
  pub counted : a.outcome ≢ success → d.consecutive_failures ≡ c.consecutive_failures + 1
  pub opens :
      a.outcome ≢ success → (d.state ≡ opened) ↔ (c.failure_threshold ≤ c.consecutive_failures + 1)
  pub never_half : (d.state ≡ closed) ⊎ (d.state ≡ opened)

-- The circuit after an outcome that is in the contract.
abbrev pub updated : Outcome → CircuitBreakerState → CircuitBreakerState
updated success c = record c { state = closed; consecutive_failures = 0 }
updated _ c = failed_once_more c

circuit_after-updated :
    (x : Outcome) (c : CircuitBreakerState)
    → is_known_outcome x ≡ true
    → circuit_after x c ≡ ok (updated x c)
unfolding circuit_after
circuit_after-updated success c h = refl
circuit_after-updated (other_outcome _) c h = cc
circuit_after-updated _ c h = refl

updated-IsCircuit : (x : Outcome) (c : CircuitBreakerState) → IsCircuit c → IsCircuit (updated x c)
updated-IsCircuit success c h = ground arith
updated-IsCircuit _ c h = ground arith

updated-IsNextCircuit :
    (a : AttemptRecord) (c : CircuitBreakerState) → IsNextCircuit a c (updated a.outcome c)
updated-IsNextCircuit a c = ground arith

known_outcome : (a : AttemptRecord) → validate_attempt a ≡ ok tt → is_known_outcome a.outcome ≡ true
unfolding validate_attempt
known_outcome a h = ground arith

-- The step of the circuit is defined for every valid circuit and attempt. A success closes it and
-- clears the count; a failure adds one to the count, and opens the circuit exactly when the count
-- has reached the threshold. The new circuit is valid.
pub next_circuit_state-IsNextCircuit :
    (c : CircuitBreakerState) (a : AttemptRecord)
    → validate_circuit c ≡ ok tt
    → validate_attempt a ≡ ok tt
    → (d : CircuitBreakerState) × (next_circuit_state c a ≡ ok d)
      × (validate_circuit d ≡ ok tt)
      × IsNextCircuit a c d
unfolding next_circuit_state
next_circuit_state-IsNextCircuit c a hc ha =
    let valid =
      validate_circuit_of_IsCircuit (updated a.outcome c)
        (updated-IsCircuit a.outcome c (validate_circuit-IsCircuit c hc)) in
    (
      updated a.outcome c,
      rw (hc, ha, circuit_after-updated a.outcome c (known_outcome a ha), valid) refl,
      valid,
      updated-IsNextCircuit a c,
    )

-- Only an open circuit can be probed; the probe keeps the count and the threshold, and is valid.
half_open_circuit-eq-ok :
    (c : CircuitBreakerState) {d : CircuitBreakerState}
    → half_open_circuit c ≡ ok d
    → (c.state ≡ opened) × (d ≡ record c { state = half_open }) × (validate_circuit d ≡ ok tt)
unfolding half_open_circuit validate_circuit
half_open_circuit-eq-ok c h = ground arith
