-- ===== src/RealEstate/Review/Refines.antt =====
-- Every public method of the queue is a sequence of steps (missions/real_estate/review_queue.py).
use ai_factory.Base.{
  String, true, false, ◌&&◌, ◌≡◌, refl, subst, ◌∙◌, Option, none, some, List, [], ◌∷◌, arith,
  Option-cases, Bool-cases, ◌⊎◌, inl, inr, eq_iff, ◌==◌, is_nil, is_blank,
}
use ai_factory.Base.Dict.{lookup, values}
use ai_factory.Base.Result.{ok, err, Result-cases}
use ai_factory.RealEstate.Anomalies.{
  AnomalyFinding, AnomalyError, Detector, Evidence, validate, detect,
}
use ai_factory.RealEstate.Inventory.{Inventory}
use ai_factory.RealEstate.Review.{
  ReviewStatus, opened, in_review, resolved, dismissed, ReviewOutcome, ReviewCase, Unsigned,
  ReviewStore, ReviewError, not_in_review, not_assigned, evidence_required, note_required,
  is_in_review, is_grave, get, with_finding, append_event,
}
use ai_factory.RealEstate.Review.Calls.{
  new_case, queued_event, started_event, decided_event, is_assigned, may_start, may_resolve,
  case_name, queue_new, queue, start_review, resolve, detect_and_queue, is_stale, resolve_current,
}
use ai_factory.RealEstate.Review.Runs.{
  Command, queue_call, start_call, resolve_call, detect_call, resolve_current_call, after, run,
}
use ai_factory.RealEstate.Review.Steps.{
  Step, Steps, done, more, quiet, queued, review_started, review_decided, started, decided, written,
  get-cases, get-quiet,
}

module _ (digest : Unsigned → String) where
  start_review-cases :
      (id reviewer_id now : String) (s : ReviewStore) (row : ReviewCase)
      → get id s ≡ (ok row, s)
      → let t = (start_review digest id reviewer_id now s).1 in
        (t ≡ s)
        ⊎ ((row.status ≡ opened)
            × (is_blank reviewer_id ≡ false)
            × ((is_grave row.finding.severity && reviewer_id == row.finding.detector_id) ≡ false)
            × (t
                ≡ written digest id
                    (started reviewer_id now row)
                    (started_event id reviewer_id now)
                    s))
  unfolding start_review may_start append_event
  start_review-cases id reviewer_id now s row e = ground (
    arith,
    get-quiet id
        (written digest id (started reviewer_id now row) (started_event id reviewer_id now) s),
  )

  start_review_unknown :
      (id reviewer_id now : String) (s : ReviewStore) {x : ReviewError}
      → get id s ≡ (err x, s)
      → (start_review digest id reviewer_id now s).1 ≡ s
  unfolding start_review
  start_review_unknown id reviewer_id now s e = ground arith

  assigned-eq :
      (reviewer_id : String) (o : Option String)
      → is_assigned reviewer_id o ≡ true
      → o ≡ some reviewer_id
  assigned-eq reviewer_id none h = cc
  assigned-eq reviewer_id (some a) h = ground (arith, eq_iff reviewer_id a)

  in_review-eq : (status : ReviewStatus) → is_in_review status ≡ true → status ≡ in_review
  in_review-eq in_review h = refl
  in_review-eq opened h = cc
  in_review-eq resolved h = cc
  in_review-eq dismissed h = cc

  -- What `resolve` asks for.
  pub record MayResolve (row : ReviewCase) (reviewer_id : String) (refs : List String)
      (note : String) : Type 0 where
    pub under_review : row.status ≡ in_review
    pub assigned : row.assigned_reviewer ≡ some reviewer_id
    pub evident : is_nil refs ≡ false
    pub noted : is_blank note ≡ false

  may_resolve-cases :
      (row : ReviewCase) (reviewer_id : String) (refs : List String) (note : String)
      (s : ReviewStore)
      → (MayResolve row reviewer_id refs note
          × (may_resolve row reviewer_id refs note s ≡ (ok tt, s)))
        ⊎ ((e : ReviewError) × (may_resolve row reviewer_id refs note s ≡ (err e, s)))
  unfolding may_resolve
  may_resolve-cases row reviewer_id refs note s = elim (Bool-cases (is_in_review row.status)) [
    | inr a ↦ inr (not_in_review row.status, ground arith)
    | inl a ↦ elim (Bool-cases (is_assigned reviewer_id row.assigned_reviewer)) [
      | inr b ↦ inr (not_assigned, ground arith)
      | inl b ↦ elim (Bool-cases (is_nil refs)) [
        | inl c ↦ inr (evidence_required, ground arith)
        | inr c ↦ elim (Bool-cases (is_blank note)) [
          | inl n ↦ inr (note_required, ground arith)
          | inr n ↦ inl (
            record {
              under_review = in_review-eq row.status a;
              assigned = assigned-eq reviewer_id row.assigned_reviewer b;
              evident = c;
              noted = n;
            },
            ground arith,
          )
        ]
      ]
    ]
  ]

  resolve_goes :
      (id reviewer_id : String) (outcome : ReviewOutcome) (refs : List String) (note now : String)
      (s : ReviewStore) (row : ReviewCase)
      → get id s ≡ (ok row, s)
      → may_resolve row reviewer_id refs note s ≡ (ok tt, s)
      → (resolve digest id reviewer_id outcome refs note now s).1
        ≡ written digest id
            (decided outcome now row)
            (decided_event id reviewer_id outcome refs note now)
            s
  unfolding resolve append_event
  resolve_goes id reviewer_id outcome refs note now s row e f = ground (
    arith,
    get-quiet id (
        written digest id (decided outcome now row)
          (decided_event id reviewer_id outcome refs note now) s),
  )

  resolve_refused :
      (id reviewer_id : String) (outcome : ReviewOutcome) (refs : List String) (note now : String)
      (s : ReviewStore) (row : ReviewCase) {x : ReviewError}
      → get id s ≡ (ok row, s)
      → may_resolve row reviewer_id refs note s ≡ (err x, s)
      → (resolve digest id reviewer_id outcome refs note now s).1 ≡ s
  unfolding resolve
  resolve_refused id reviewer_id outcome refs note now s row e f = ground arith

  resolve_unknown :
      (id reviewer_id : String) (outcome : ReviewOutcome) (refs : List String) (note now : String)
      (s : ReviewStore) {x : ReviewError}
      → get id s ≡ (err x, s)
      → (resolve digest id reviewer_id outcome refs note now s).1 ≡ s
  unfolding resolve
  resolve_unknown id reviewer_id outcome refs note now s e = ground arith

  pub resolve-Step :
      (id reviewer_id : String) (outcome : ReviewOutcome) (refs : List String) (note now : String)
      (s : ReviewStore)
      → Step digest s (resolve digest id reviewer_id outcome refs note now s).1
  resolve-Step id reviewer_id outcome refs note now s = elim (get-cases id s) [
    | inr (x, e) ↦ quiet (resolve_unknown id reviewer_id outcome refs note now s e)
    | inl (row, found, e) ↦ elim (may_resolve-cases row reviewer_id refs note s) [
      | inr (x, f) ↦ quiet (resolve_refused id reviewer_id outcome refs note now s row e f)
      | inl (m, f) ↦
          review_decided id row reviewer_id outcome refs note now found m.under_review m.assigned
            m.evident m.noted (resolve_goes id reviewer_id outcome refs note now s row e f)
    ]
  ]

  pub start_review-Step :
      (id reviewer_id now : String) (s : ReviewStore)
      → Step digest s (start_review digest id reviewer_id now s).1
  start_review-Step id reviewer_id now s = elim (get-cases id s) [
    | inr (x, e) ↦ quiet (start_review_unknown id reviewer_id now s e)
    | inl (row, found, e) ↦ elim (start_review-cases id reviewer_id now s row e) [
      | inl same ↦ quiet same
      | inr (status, named, independent, there) ↦
          review_started id row reviewer_id now found status named independent there
    ]
  ]

  module _ (sha256 : String → String) where
    queue_new-cases :
        (f : AnomalyFinding) (now : String) (s : ReviewStore)
        → let t = (queue_new sha256 digest f now s).1 in
          (t ≡ s)
          ⊎ ((lookup (case_name sha256 f) s.cases ≡ none)
              × (t
                  ≡ written digest
                      (case_name sha256 f)
                      (new_case (case_name sha256 f) f now)
                      (queued_event (case_name sha256 f) f now)
                      s))
    unfolding queue_new append_event
    queue_new-cases f now s = ground arith

    queue_known :
        (f : AnomalyFinding) (now : String) (s : ReviewStore) {row : ReviewCase}
        → with_finding f.finding_id (values s.cases) ≡ some row
        → (queue sha256 digest f now s).1 ≡ s
    unfolding queue
    queue_known f now s {row} e = ground (arith, get-quiet row.case_id s)

    queue_invalid :
        (f : AnomalyFinding) (now : String) (s : ReviewStore) {x : AnomalyError}
        → validate f ≡ err x
        → (queue sha256 digest f now s).1 ≡ s
    unfolding queue
    queue_invalid f now s e = ground arith

    queue_fresh :
        (f : AnomalyFinding) (now : String) (s : ReviewStore)
        → with_finding f.finding_id (values s.cases) ≡ none
        → validate f ≡ ok tt
        → (queue sha256 digest f now s).1 ≡ (queue_new sha256 digest f now s).1
    unfolding queue
    queue_fresh f now s e v =
        ground (arith, get-quiet (case_name sha256 f) (queue_new sha256 digest f now s).1)

    pub queue-Step :
        (f : AnomalyFinding) (now : String) (s : ReviewStore)
        → Step digest s (queue sha256 digest f now s).1
    queue-Step f now s = elim (Result-cases (validate f)) [
      | inr (x, v) ↦ quiet (queue_invalid f now s v)
      | inl (u, v) ↦ elim (Option-cases (with_finding f.finding_id (values s.cases))) [
        | inr (row, e) ↦ quiet (queue_known f now s e)
        | inl e ↦ elim (queue_new-cases f now s) [
          | inl same ↦ quiet (queue_fresh f now s e v ∙ same)
          | inr (free, there) ↦
              queued (case_name sha256 f) f now free e v (queue_fresh f now s e v ∙ there)
        ]
      ]
    ]

module _ (sha256 : String → String) (evidence_digest : List Evidence → String) (d : Detector)
    (digest : Unsigned → String) where
  detect_and_queue-Step :
      (inventory : Inventory) (canonical_id now : String) (s : ReviewStore)
      → Step digest s
          (detect_and_queue sha256 evidence_digest d digest inventory canonical_id now s).1
  unfolding detect_and_queue
  detect_and_queue-Step inventory canonical_id now s =
      elim (Result-cases (detect sha256 evidence_digest d inventory canonical_id)) [
        | inr (x, e) ↦ quiet (ground arith)
        | inl (none, e) ↦ quiet (ground arith)
        | inl (some f, e) ↦
            subst (λ t. Step digest s t) (ground arith) (queue-Step digest sha256 f now s)
      ]

  resolve_current-Step :
      (inventory : Inventory) (id reviewer_id : String) (outcome : ReviewOutcome)
      (refs : List String) (note now : String) (s : ReviewStore)
      → Step digest s
          (resolve_current sha256 evidence_digest d digest inventory id reviewer_id outcome refs
            note now s).1
  unfolding resolve_current
  resolve_current-Step inventory id reviewer_id outcome refs note now s = elim (get-cases id s) [
    | inr (x, e) ↦ quiet (ground arith)
    | inl (row, found, e) ↦
        elim (Result-cases (detect sha256 evidence_digest d inventory row.finding.canonical_id)) [
          | inr (x, g) ↦ quiet (ground arith)
          | inl (current, g) ↦
              elim (Bool-cases (is_stale sha256 evidence_digest d digest inventory current row)) [
                | inl stale ↦ quiet (ground arith)
                | inr fresh ↦
                    subst (λ t. Step digest s t) (ground arith)
                      (resolve-Step digest id reviewer_id outcome refs note now s)
              ]
        ]
  ]

  after-Step :
      (c : Command) (s : ReviewStore) → Step digest s (after sha256 evidence_digest d digest c s)
  unfolding after
  after-Step (queue_call f now) s = queue-Step digest sha256 f now s
  after-Step (start_call id reviewer_id now) s = start_review-Step digest id reviewer_id now s
  after-Step (resolve_call id reviewer_id outcome refs note now) s =
      resolve-Step digest id reviewer_id outcome refs note now s
  after-Step (detect_call inventory canonical_id now) s =
      detect_and_queue-Step inventory canonical_id now s
  after-Step (resolve_current_call inventory id reviewer_id outcome refs note now) s =
      resolve_current-Step inventory id reviewer_id outcome refs note now s

  run_from :
      (cs : List Command) (s t : ReviewStore)
      → Steps digest s t
      → Steps digest s (run sha256 evidence_digest d digest cs t)
  unfolding run
  run_from [] s t r = r
  run_from (c ∷ cs) s t r =
      run_from cs s (after sha256 evidence_digest d digest c t) (more r (after-Step c t))

-- Whatever public methods of the store and of the coordinator are called, whether they return or raise,
-- the queue changes by the steps of its specification only.
pub run-Steps :
    (sha256 : String → String) (evidence_digest : List Evidence → String) (d : Detector)
    (digest : Unsigned → String) (cs : List Command) (s : ReviewStore)
    → Steps digest s (run sha256 evidence_digest d digest cs s)
run-Steps sha256 evidence_digest d digest cs s =
    run_from sha256 evidence_digest d digest cs s s done
