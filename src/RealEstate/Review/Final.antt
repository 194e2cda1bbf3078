-- ===== src/RealEstate/Review/Final.antt =====
-- A decision is final (missions/real_estate/review_queue.py).
use ai_factory.Base.{
  some-injective, String, Bool, true, false, ◌≡◌, refl, ap, sym, subst, ◌∙◌, some, List, arith,
  Bool-cases, inl, inr, eq_iff, ◌==◌,
}
use ai_factory.Base.Dict.{lookup, lookup-insert}
use ai_factory.RealEstate.Anomalies.{Detector, Evidence}
use ai_factory.RealEstate.Review.{
  ReviewStatus, resolved, dismissed, ReviewCase, Unsigned, ReviewEvent, ReviewStore, rows_of,
  next_event,
}
use ai_factory.RealEstate.Review.Calls.{new_case, queued_event, started_event, decided_event}
use ai_factory.RealEstate.Review.Runs.{Command, run}
use ai_factory.RealEstate.Review.Steps.{
  Step, Steps, done, more, quiet, queued, review_started, review_decided, written, started, decided,
}
use ai_factory.RealEstate.Review.Refines.{run-Steps}
use ai_factory.RealEstate.Review.Chain.{rows_of-other}

-- Resolved and dismissed.
abbrev pub is_decided : ReviewStatus → Bool
is_decided resolved = true
is_decided dismissed = true
is_decided _ = false

-- A case and its history.
pub record IsStill (id : String) (row : ReviewCase) (rows : List ReviewEvent) (s : ReviewStore)
    : Type 0 where
  pub kept : lookup id s.cases ≡ some row
  pub history : rows_of id s.events ≡ rows

module _ (digest : Unsigned → String) (id : String) (row : ReviewCase)
    (rows : List ReviewEvent) where
  -- What is written of another case.
  written-IsStill :
      (j : String) (other : ReviewCase) (u : Unsigned) (s : ReviewStore)
      → u.case_id ≡ j
      → (j == id) ≡ false
      → IsStill id row rows s
      → IsStill id row rows (written digest j other u s)
  written-IsStill j other u s named apart h = record {
    kept = ground (arith, h.kept, lookup-insert j id other s.cases);
    history =
        rows_of-other id (next_event digest u s.events) s.events
          (subst (λ k. (k == id) ≡ false) (sym named) apart)
        ∙ h.history;
  }

  -- A step on a case that is not decided is on another case.
  elsewhere :
      (j : String) (other : ReviewCase) (s : ReviewStore)
      → is_decided row.status ≡ true
      → lookup j s.cases ≡ some other
      → is_decided other.status ≡ false
      → IsStill id row rows s
      → (j == id) ≡ false
  elsewhere j other s final found live h = elim (Bool-cases (j == id)) [
    | inr apart ↦ apart
    | inl same ↦
        let one : some other ≡ some row =
          sym found ∙ ap (λ k. lookup k s.cases) ((eq_iff j id).0 same) ∙ h.kept in
        let equal : other ≡ row = some-injective one in
        absurd (ground (arith, ap (λ (r : ReviewCase). is_decided r.status) equal))
  ]

  Step-IsStill :
      {s t : ReviewStore}
      → Step digest s t
      → is_decided row.status ≡ true
      → IsStill id row rows s
      → IsStill id row rows t
  Step-IsStill (quiet e) final h = subst (λ t. IsStill id row rows t) (sym e) h
  Step-IsStill {s} (queued j f now free new valid e) final h =
      let apart : (j == id) ≡ false = elim (Bool-cases (j == id)) [
        | inr apart ↦ apart
        | inl same ↦
            absurd (cc (sym free ∙ ap (λ k. lookup k s.cases) ((eq_iff j id).0 same) ∙ h.kept))
      ] in
      subst (λ t. IsStill id row rows t) (sym e)
        (written-IsStill j (new_case j f now) (queued_event j f now) s refl apart h)
  Step-IsStill {s} (review_started j other reviewer_id now found status named apart e) final h =
      subst (λ t. IsStill id row rows t) (sym e)
        (written-IsStill j (started reviewer_id now other) (started_event j reviewer_id now) s refl
          (elsewhere j other s final found (ap is_decided status) h) h)
  Step-IsStill {s}
        (review_decided j other reviewer_id outcome refs note now found status assigned evident
          noted e)
        final h =
      subst (λ t. IsStill id row rows t) (sym e)
        (written-IsStill j (decided outcome now other)
          (decided_event j reviewer_id outcome refs note now) s refl
          (elsewhere j other s final found (ap is_decided status) h) h)

  Steps-IsStill :
      {s t : ReviewStore}
      → Steps digest s t
      → is_decided row.status ≡ true
      → IsStill id row rows s
      → IsStill id row rows t
  Steps-IsStill done final h = h
  Steps-IsStill (more r st) final h = Step-IsStill st final (Steps-IsStill r final h)

-- A decision is final: whatever is called afterwards, a case that is resolved or dismissed keeps its row,
-- the reviewer and the finding included, and its history.
pub run-IsStill :
    (sha256 : String → String) (evidence_digest : List Evidence → String) (d : Detector)
    (digest : Unsigned → String) (cs : List Command) (id : String) (s : ReviewStore)
    {row : ReviewCase}
    → lookup id s.cases ≡ some row
    → is_decided row.status ≡ true
    → IsStill id row (rows_of id s.events) (run sha256 evidence_digest d digest cs s)
run-IsStill sha256 evidence_digest d digest cs id s {row} found final =
    Steps-IsStill digest id row (rows_of id s.events)
      (run-Steps sha256 evidence_digest d digest cs s) final
      (record { kept = found; history = refl })
