-- ===== src/RealEstate/Review/Steps.antt =====
-- What a call may do to the queue, as a step relation (missions/real_estate/review_queue.py).
use ai_factory.Base.{
  String, false, ◌&&◌, ◌≡◌, ap, none, some, List, [], ◌∷◌, ◌++◌, arith, Option-cases, ◌⊎◌, inl, inr,
  ◌==◌, is_nil, is_blank,
}
use ai_factory.Base.Dict.{lookup, insert, values}
use ai_factory.Base.Result.{ok, err, Result-cases}
use ai_factory.RealEstate.Anomalies.{AnomalyFinding, validate}
use ai_factory.RealEstate.Review.{
  opened, in_review, ReviewOutcome, ReviewCase, Unsigned, ReviewStore, ReviewError, anomaly,
  unknown_case, is_grave, case_row, get, with_finding, decided_status, next_event,
}
use ai_factory.RealEstate.Review.Calls.{new_case, queued_event, started_event, decided_event}

-- The row of a case whose review has started.
abbrev pub started : String → String → ReviewCase → ReviewCase
started reviewer_id now c = record c {
  status = in_review;
  assigned_reviewer = some reviewer_id;
  updated_at = now;
}

abbrev pub decided : ReviewOutcome → String → ReviewCase → ReviewCase
decided outcome now c = record c { status = decided_status outcome; updated_at = now }

-- The store with a row and an event more.
abbrev pub written :
    (Unsigned → String) → String → ReviewCase → Unsigned → ReviewStore → ReviewStore
written digest id row u s = record s {
  cases = insert id row s.cases;
  events = s.events ++ next_event digest u s.events ∷ [];
}

module _ (digest : Unsigned → String) where
  -- A finding is queued once, under an identifier that is free; a review of an open case starts, by a
  -- reviewer who is not the detector where the finding is grave; the assigned reviewer decides a case in
  -- review, on evidence and with a note; each with one event. Nothing else happens to the store.
  pub data Step (s t : ReviewStore) : Type 0 where
    quiet : t ≡ s → Step s t
    queued :
        (id : String) (f : AnomalyFinding) (now : String)
        → lookup id s.cases ≡ none
        → with_finding f.finding_id (values s.cases) ≡ none
        → validate f ≡ ok tt
        → t ≡ written digest id (new_case id f now) (queued_event id f now) s
        → Step s t
    review_started :
        (id : String) (row : ReviewCase) (reviewer_id now : String)
        → lookup id s.cases ≡ some row
        → row.status ≡ opened
        → is_blank reviewer_id ≡ false
        → (is_grave row.finding.severity && reviewer_id == row.finding.detector_id) ≡ false
        → t ≡ written digest id (started reviewer_id now row) (started_event id reviewer_id now) s
        → Step s t
    review_decided :
        (id : String) (row : ReviewCase) (reviewer_id : String) (outcome : ReviewOutcome)
        (refs : List String) (note now : String)
        → lookup id s.cases ≡ some row
        → row.status ≡ in_review
        → row.assigned_reviewer ≡ some reviewer_id
        → is_nil refs ≡ false
        → is_blank note ≡ false
        → t
          ≡ written digest id
              (decided outcome now row)
              (decided_event id reviewer_id outcome refs note now)
              s
        → Step s t

  pub data Steps (s : ReviewStore) : ReviewStore → Type 0 where
    done : Steps s s
    more : {t u : ReviewStore} → Steps s t → Step t u → Steps s u

  pub trans : {s t u : ReviewStore} → Steps s t → Steps t u → Steps s u
  trans r done = r
  trans r (more q st) = more (trans r q) st

-- What `get` answers.
pub get-cases :
    (id : String) (s : ReviewStore)
    → ((row : ReviewCase) × (lookup id s.cases ≡ some row) × (get id s ≡ (ok row, s)))
      ⊎ ((e : ReviewError) × (get id s ≡ (err e, s)))
unfolding get case_row
get-cases id s = elim (Option-cases (lookup id s.cases)) [
  | inl e ↦ inr (unknown_case id, ground arith)
  | inr (row, e) ↦ elim (Result-cases (validate row.finding)) [
    | inl (u, v) ↦ inl (row, e, ground arith)
    | inr (x, v) ↦ inr (anomaly x, ground arith)
  ]
]

pub get-quiet : (id : String) (s : ReviewStore) → (get id s).1 ≡ s
get-quiet id s = elim (get-cases id s) [
  | inl (row, found, e) ↦ ap (λ x. x.1) e
  | inr (x, e) ↦ ap (λ x. x.1) e
]
