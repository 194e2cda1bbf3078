-- ===== src/RealEstate/Review/Decisions.antt =====
-- Who has decided a case, and on what (missions/real_estate/review_queue.py).
use ai_factory.Base.{
  some-injective, String, true, false, ◌&&◌, ◌≡◌, refl, sym, subst, ◌∙◌, none, some, List, [], ◌∷◌,
  ◌++◌, inl, inr, eq_iff, ◌==◌, get_last?, get_last?-append, is_nil, is_blank,
}
use ai_factory.Base.Dict.{lookup, lookup-insert-eq-some}
use ai_factory.RealEstate.Anomalies.{Detector, Evidence}
use ai_factory.RealEstate.Review.{
  ReviewStatus, opened, in_review, resolved, dismissed, ReviewOutcome, confirmed_anomaly,
  false_positive, insufficient_evidence, ReviewCase, Unsigned, ReviewEvent, ReviewStore, is_grave,
  is_of, rows_of, decided_status, next_event,
}
use ai_factory.RealEstate.Review.Calls.{new_case, queued_event, started_event, decided_event}
use ai_factory.RealEstate.Review.Runs.{Command, empty_store, run}
use ai_factory.RealEstate.Review.Steps.{
  Step, Steps, done, more, quiet, queued, review_started, review_decided, written, started, decided,
}
use ai_factory.RealEstate.Review.Refines.{run-Steps}
use ai_factory.RealEstate.Review.Chain.{rows_of-same, rows_of-other}

-- The reviewer of a case; where its finding is grave, another than the detector.
pub record IsReviewedBy (row : ReviewCase) (reviewer_id : String) : Type 0 where
  pub assigned : row.assigned_reviewer ≡ some reviewer_id
  pub independent :
      (is_grave row.finding.severity && reviewer_id == row.finding.detector_id) ≡ false

-- The status that a decision leads to: a false positive dismisses the case, a confirmed anomaly and
-- insufficient evidence resolve it.
abbrev pub LedTo : ReviewOutcome → ReviewStatus → Type 0
LedTo confirmed_anomaly status = status ≡ resolved
LedTo false_positive status = status ≡ dismissed
LedTo insufficient_evidence status = status ≡ resolved

decided_status-LedTo : (outcome : ReviewOutcome) → LedTo outcome (decided_status outcome)
decided_status-LedTo confirmed_anomaly = refl
decided_status-LedTo false_positive = refl
decided_status-LedTo insufficient_evidence = refl

-- The last event of a decided case: its reviewer's decision, on evidence and with a note, which led to
-- the case's status.
pub record IsDecidedBy (row : ReviewCase) (reviewer_id : String) (rows : List ReviewEvent)
    : Type 0 where
  pub event : ReviewEvent
  pub outcome : ReviewOutcome
  pub last : get_last? rows ≡ some event
  pub by_reviewer : event.unsigned.actor_id ≡ reviewer_id
  pub concluded : event.unsigned.outcome ≡ some outcome
  pub reached : LedTo outcome row.status
  pub evident : is_nil event.unsigned.evidence_refs ≡ false
  pub noted : is_blank event.unsigned.note ≡ false

-- What holds of a case, by its status.
abbrev pub IsAccounted : ReviewStatus → ReviewCase → List ReviewEvent → Type 0
IsAccounted opened row rows = row.assigned_reviewer ≡ none
IsAccounted in_review row rows = (r : String) × IsReviewedBy row r
IsAccounted _ row rows = (r : String) × IsReviewedBy row r × IsDecidedBy row r rows

abbrev pub AllAccounted : ReviewStore → Type 0
AllAccounted s =
    (id : String) (row : ReviewCase)
    → lookup id s.cases ≡ some row
    → IsAccounted row.status row (rows_of id s.events)

IsAccounted-decided_status :
    (outcome : ReviewOutcome) (row : ReviewCase) (rows : List ReviewEvent) (r : String)
    → IsReviewedBy row r
    → IsDecidedBy row r rows
    → IsAccounted (decided_status outcome) row rows
IsAccounted-decided_status confirmed_anomaly row rows r by on = (r, by, on)
IsAccounted-decided_status false_positive row rows r by on = (r, by, on)
IsAccounted-decided_status insufficient_evidence row rows r by on = (r, by, on)

module _ (digest : Unsigned → String) where
  -- The row that was written is accounted for with its event; the others are as they were.
  written-AllAccounted :
      (id : String) (row : ReviewCase) (u : Unsigned) (s : ReviewStore)
      → u.case_id ≡ id
      → AllAccounted s
      → IsAccounted row.status row (rows_of id s.events ++ next_event digest u s.events ∷ [])
      → AllAccounted (written digest id row u s)
  written-AllAccounted id row u s named h new j other found =
      let e = next_event digest u s.events in
      elim (lookup-insert-eq-some id j row s.cases other found) [
        | inl (here, same) ↦
            let mine : is_of j e ≡ true = (eq_iff u.case_id j).1 (named ∙ here) in
            rw (rows_of-same j e s.events mine) (
              subst (λ (r : ReviewCase). IsAccounted r.status r (rows_of j s.events ++ e ∷ [])) same
                (subst (λ k. IsAccounted row.status row (rows_of k s.events ++ e ∷ [])) here new))
        | inr (apart, before) ↦
            let not_mine : is_of j e ≡ false = subst (λ k. (k == j) ≡ false) (sym named) apart in
            rw (rows_of-other j e s.events not_mine) (h j other before)
      ]

  IsReviewedBy-decided :
      (row : ReviewCase) (outcome : ReviewOutcome) (now r : String)
      → IsReviewedBy row r
      → IsReviewedBy (decided outcome now row) r
  IsReviewedBy-decided row outcome now r h = record {
    assigned = h.assigned;
    independent = h.independent;
  }

  Step-AllAccounted : {s t : ReviewStore} → Step digest s t → AllAccounted s → AllAccounted t
  Step-AllAccounted (quiet e) h = subst (λ t. AllAccounted t) (sym e) h
  Step-AllAccounted {s} (queued id f now free new valid e) h =
      subst (λ t. AllAccounted t) (sym e)
        (written-AllAccounted id (new_case id f now) (queued_event id f now) s refl h refl)
  Step-AllAccounted {s} (review_started id row reviewer_id now found status named apart e) h =
      subst (λ t. AllAccounted t) (sym e)
        (written-AllAccounted id (started reviewer_id now row) (started_event id reviewer_id now) s
          refl h (reviewer_id, record { assigned = refl; independent = apart }))
  Step-AllAccounted {s}
        (review_decided id row reviewer_id outcome refs note now found status assigned evident noted
          e)
        h =
      let (r, by) : IsAccounted in_review row (rows_of id s.events) =
        subst (λ st. IsAccounted st row (rows_of id s.events)) status (h id row found) in
      let same : r ≡ reviewer_id = some-injective (sym by.assigned ∙ assigned) in
      let mine : IsReviewedBy row reviewer_id = subst (λ r. IsReviewedBy row r) same by in
      let event = next_event digest (decided_event id reviewer_id outcome refs note now) s.events in
      subst (λ t. AllAccounted t) (sym e)
        (written-AllAccounted id (decided outcome now row)
          (decided_event id reviewer_id outcome refs note now) s refl h
          (IsAccounted-decided_status outcome (decided outcome now row)
            (rows_of id s.events ++ event ∷ []) reviewer_id
            (IsReviewedBy-decided row outcome now reviewer_id mine)
            (record {
              event = event;
              outcome = outcome;
              last = get_last?-append (rows_of id s.events) event;
              by_reviewer = refl;
              concluded = refl;
              reached = decided_status-LedTo outcome;
              evident = evident;
              noted = noted;
            })))

  Steps-AllAccounted : {s t : ReviewStore} → Steps digest s t → AllAccounted s → AllAccounted t
  Steps-AllAccounted done h = h
  Steps-AllAccounted (more r st) h = Step-AllAccounted st (Steps-AllAccounted r h)

empty-AllAccounted : AllAccounted empty_store
unfolding lookup
empty-AllAccounted id row found = absurd (cc found)

-- In a queue that only the public methods have written, by whatever calls: an open case has no reviewer;
-- a case in review has one, who is not the detector where the finding is HIGH or CRITICAL; and a case that
-- is resolved or dismissed has such a reviewer, whose decision is the last event of the case's history,
-- has evidence and a note, and led to the case's status: a false positive is dismissed, any other outcome
-- resolves.
pub run-AllAccounted :
    (sha256 : String → String) (evidence_digest : List Evidence → String) (d : Detector)
    (digest : Unsigned → String) (cs : List Command)
    → AllAccounted (run sha256 evidence_digest d digest cs empty_store)
run-AllAccounted sha256 evidence_digest d digest cs =
    Steps-AllAccounted digest (run-Steps sha256 evidence_digest d digest cs empty_store)
      empty-AllAccounted
