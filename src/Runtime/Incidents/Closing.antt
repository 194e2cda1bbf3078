-- ===== src/Runtime/Incidents/Closing.antt =====
-- What a closed incident is (factory/runtime/incidents.py).
use ai_factory.Base.{
  String, Bool, true, ◌≡◌, refl, some, List, [], ◌∷◌, ◌++◌, ◌==◌, arith, inl, inr, any,
}
use ai_factory.Base.Dict.{Dict, lookup, insert, lookup-insert-eq-some}
use ai_factory.Runtime.Incidents.{
  Unsigned, IncidentStore, IncidentRecord, closed, Evidence, is_evidence,
}
use ai_factory.Runtime.Incidents.Calls.{new_evidence, new_incident}
use ai_factory.Runtime.Incidents.Runs.{
  Command, declare_call, transition_call, evidence_call, plan_call, execute_call, recovery_call,
  after, run, empty_store,
}
use ai_factory.Runtime.Incidents.Effects.{
  transition-cases, recovery-cases, evidence_row, plan_row, execute_row, declare_row,
}

abbrev pub has_evidence : String → List Evidence → Bool
has_evidence id evidence = any (λ (e : Evidence). e.incident_id == id) evidence

-- A verified recovery has evidence, and a closed incident a verified recovery.
pub record IsProven (id : String) (evidence : List Evidence) (row : IncidentRecord) : Type 0 where
  pub verified : row.recovery_verified ≡ true → has_evidence id evidence ≡ true
  pub closing : row.status ≡ closed → row.recovery_verified ≡ true

abbrev AllProven : Dict IncidentRecord → List Evidence → Type 0
AllProven incidents evidence =
    (id : String) (row : IncidentRecord) → lookup id incidents ≡ some row → IsProven id evidence row

abbrev Proven : IncidentStore → Type 0
Proven s = AllProven s.incidents s.evidence

has_evidence-append :
    (id : String) (e : Evidence) (es : List Evidence)
    → has_evidence id es ≡ true
    → has_evidence id (es ++ e ∷ []) ≡ true
has_evidence-append id e [] h = absurd (cc h)
has_evidence-append id e (x ∷ es) h = ground (arith, has_evidence-append id e es)

is_evidence-has_evidence :
    (id evidence_id : String) (es : List Evidence)
    → any (is_evidence id evidence_id) es ≡ true
    → has_evidence id es ≡ true
is_evidence-has_evidence id evidence_id [] h = absurd (cc h)
is_evidence-has_evidence id evidence_id (x ∷ es) h =
    ground (arith, is_evidence-has_evidence id evidence_id es)

Proven-same :
    {o o' : Dict IncidentRecord} {e e' : List Evidence}
    → o' ≡ o
    → e' ≡ e
    → AllProven o e
    → AllProven o' e'
Proven-same p q h = rw (p, q) h

Proven-insert :
    (id : String) (new_row : IncidentRecord) (o : Dict IncidentRecord) (e : List Evidence)
    → IsProven id e new_row
    → AllProven o e
    → AllProven (insert id new_row o) e
Proven-insert id new_row o e good h j row found =
    elim (lookup-insert-eq-some id j new_row o row found) [
      | inl (same, is_new) ↦ ground arith
      | inr (other, old) ↦ h j row old
    ]

Proven-evidence :
    (new_one : Evidence) (o : Dict IncidentRecord) (e : List Evidence)
    → AllProven o e
    → AllProven o (e ++ new_one ∷ [])
Proven-evidence new_one o e h j row found =
    let p = h j row found in
    record { verified = λ v. has_evidence-append j new_one e (p.verified v); closing = p.closing }

module _ (digest : Unsigned → String) where
  after-Proven : (c : Command) (s : IncidentStore) → Proven s → Proven (after digest c s)
  unfolding after
  after-Proven (declare_call id mission_id severity title by scope now) s h =
      elim (declare_row digest id mission_id severity title by scope now s) [
        | inl (p, q) ↦ Proven-same p q h
        | inr (_, p, q) ↦ Proven-same p q (
            Proven-insert id (new_incident digest id mission_id severity title by scope now)
              s.incidents s.evidence
              (record { verified = λ v. absurd (cc v); closing = λ v. absurd (cc v) }) h)
      ]
  after-Proven (transition_call id mission_id actor_id new_status now) s h =
      elim (transition-cases digest id mission_id actor_id new_status now s) [
        | inl (p, q) ↦ Proven-same p q h
        | inr (row, target, f, close, p, q) ↦ Proven-same p q (
            Proven-insert id (record row { status = target; updated_at = now }) s.incidents
              s.evidence (record { verified = (h id row f).verified; closing = close }) h)
      ]
  after-Proven (recovery_call id mission_id actor_id evidence_id now) s h =
      elim (recovery-cases digest id mission_id actor_id evidence_id now s) [
        | inl (p, q) ↦ Proven-same p q h
        | inr (row, f, e, p, q) ↦ Proven-same p q (
            Proven-insert id (record row { recovery_verified = true; updated_at = now }) s.incidents
              s.evidence
              (record {
                verified = λ _. is_evidence-has_evidence id evidence_id s.evidence e;
                closing = λ _. refl;
              })
              h)
      ]
  after-Proven (evidence_call id mission_id evidence_id kind reference by now) s h =
      let (p, added) = evidence_row digest id mission_id evidence_id kind reference by now s in
      elim added [
        | inl q ↦ Proven-same p q h
        | inr q ↦ Proven-same p q (
            Proven-evidence (new_evidence id evidence_id kind reference by now) s.incidents
              s.evidence h)
      ]
  after-Proven (plan_call id mission_id action_id action_type target protected by proposal now) s
        h =
      let (p, q) =
        plan_row digest id mission_id action_id action_type target protected by proposal now s in
      Proven-same p q h
  after-Proven (execute_call approvals id mission_id action_id actor_id now) s h =
      let (p, q) = execute_row digest approvals id mission_id action_id actor_id now s in
      Proven-same p q h

  run-Proven : (cs : List Command) (s : IncidentStore) → Proven s → Proven (run digest cs s)
  unfolding run
  run-Proven [] s h = h
  run-Proven (c ∷ cs) s h = run-Proven cs (after digest c s) (after-Proven c s h)

empty-Proven : Proven empty_store
unfolding lookup
empty-Proven id row h = absurd (ground arith)

-- In a store that only the public methods have written, by whatever calls, an incident whose recovery
-- is verified has evidence, and an incident that is closed has a verified recovery.
pub run-IsProven :
    (digest : Unsigned → String) (cs : List Command) (id : String) {row : IncidentRecord}
    → lookup id (run digest cs empty_store).incidents ≡ some row
    → IsProven id (run digest cs empty_store).evidence row
run-IsProven digest cs id {row} found = run-Proven digest cs empty_store empty-Proven id row found
