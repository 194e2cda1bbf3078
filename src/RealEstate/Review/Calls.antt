-- ===== src/RealEstate/Review/Calls.antt =====
-- missions/real_estate/review_queue.py: the public methods of the store and of the coordinator.
use ai_factory.Base.{
  String, Bool, true, false, not, ◌&&◌, ◌||◌, Option, none, some, List, [], ◌∷◌, ⊤, ◌==◌, is_some,
  is_nil, is_blank, select, text_prefix,
}
use Prim.Native.String.{◌++◌ as concat}
use ai_factory.Base.Sorting.{text_lt, sort_by}
use ai_factory.Base.Result.{map_err}
use ai_factory.Base.Action.{pure, raise_if, gets, lift, transaction, ◌>>=◌, ◌>>◌}
use ai_factory.Base.Dict.{lookup, values}
use ai_factory.RealEstate.Anomalies.{AnomalyFinding, Detector, Evidence, validate, detect}
use ai_factory.RealEstate.Inventory.{Inventory}
use ai_factory.RealEstate.Review.{
  opened, in_review, ReviewOutcome, ReviewCase, Unsigned, ReviewEvent, anomaly, reviewer_required,
  not_independent, not_assigned, not_open, not_in_review, evidence_required, note_required,
  duplicate_row, stale_finding, Method, is_open, is_in_review, is_grave, case_row, get, rows_of,
  put_case, with_finding, decided_status, append_event,
}

abbrev pub new_case : String → AnomalyFinding → String → ReviewCase
new_case id f now = record {
  case_id = id;
  finding = f;
  status = opened;
  assigned_reviewer = none;
  created_at = now;
  updated_at = now;
}

abbrev pub queued_event : String → AnomalyFinding → String → Unsigned
queued_event id f now = record {
  case_id = id;
  event_type = "QUEUED";
  actor_id = f.detector_id;
  from_status = none;
  to_status = opened;
  outcome = none;
  evidence_refs = f.evidence_refs;
  note = "Anomaly queued for operator review; no protected domain decision was made.";
  occurred_at = now;
  previous_hash = "";
}

abbrev pub started_event : String → String → String → Unsigned
started_event id reviewer_id now = record {
  case_id = id;
  event_type = "REVIEW_STARTED";
  actor_id = reviewer_id;
  from_status = some opened;
  to_status = in_review;
  outcome = none;
  evidence_refs = [];
  note = "Operator review started.";
  occurred_at = now;
  previous_hash = "";
}

abbrev pub decided_event :
    String → String → ReviewOutcome → List String → String → String → Unsigned
decided_event id reviewer_id outcome evidence_refs note now = record {
  case_id = id;
  event_type = "REVIEW_DECIDED";
  actor_id = reviewer_id;
  from_status = some in_review;
  to_status = decided_status outcome;
  outcome = some outcome;
  evidence_refs = evidence_refs;
  note = note;
  occurred_at = now;
  previous_hash = "";
}

-- `reviewer_id != case.assigned_reviewer`
abbrev pub is_assigned : String → Option String → Bool
is_assigned reviewer_id none = false
is_assigned reviewer_id (some assigned) = reviewer_id == assigned

-- The checks of `start_review` on the case.
unfoldable pub may_start : ReviewCase → String → Method ⊤
may_start c reviewer_id = do
  raise_if (not (is_open c.status)) (not_open c.status)
  raise_if (is_grave c.finding.severity && reviewer_id == c.finding.detector_id) not_independent

-- The checks of `resolve`.
unfoldable pub may_resolve : ReviewCase → String → List String → String → Method ⊤
may_resolve c reviewer_id evidence_refs note = do
  raise_if (not (is_in_review c.status)) (not_in_review c.status)
  raise_if (not (is_assigned reviewer_id c.assigned_reviewer)) not_assigned
  raise_if (is_nil evidence_refs) evidence_required
  raise_if (is_blank note) note_required

-- The identifier of a finding's case.
abbrev pub case_name : (String → String) → AnomalyFinding → String
case_name sha256 f = concat "CASE-" (text_prefix 24 (sha256 f.finding_id))

module _ (sha256 : String → String) (digest : Unsigned → String) where
  -- The transaction of `queue`.
  unfoldable pub queue_new : AnomalyFinding → String → Method ⊤
  queue_new f now = transaction (do
    s ← gets (λ s. s)
    raise_if (is_some (lookup (case_name sha256 f) s.cases)) duplicate_row
    put_case (case_name sha256 f) (new_case (case_name sha256 f) f now)
    append_event digest (queued_event (case_name sha256 f) f now))

  unfoldable pub queue : AnomalyFinding → String → Method ReviewCase
  queue f now = do
    lift (map_err anomaly (validate f))
    s ← gets (λ s. s)
    elim (with_finding f.finding_id (values s.cases)) [
      | some row ↦ get row.case_id
      | none ↦ (do queue_new f now; get (case_name sha256 f))
    ]

module _ (digest : Unsigned → String) where
  unfoldable pub start_review : String → String → String → Method ReviewCase
  start_review id reviewer_id now = do
    raise_if (is_blank reviewer_id) reviewer_required
    c ← get id
    may_start c reviewer_id
    transaction (do
      put_case id
          (record c { status = in_review; assigned_reviewer = some reviewer_id; updated_at = now })
      append_event digest (started_event id reviewer_id now))
    get id

  unfoldable pub resolve :
      String → String → ReviewOutcome → List String → String → String → Method ReviewCase
  resolve id reviewer_id outcome evidence_refs note now = do
    c ← get id
    may_resolve c reviewer_id evidence_refs note
    transaction (do
      put_case id (record c { status = decided_status outcome; updated_at = now })
      append_event digest (decided_event id reviewer_id outcome evidence_refs note now))
    get id

  -- The loop of `verify_audit_chain`.
  unfoldable pub verify_from : String → List ReviewEvent → Bool
  verify_from previous [] = true
  verify_from previous (e ∷ es) =
      e.unsigned.previous_hash == previous
      && (digest e.unsigned == e.event_hash && verify_from e.event_hash es)

  unfoldable pub events : String → Method (List ReviewEvent)
  events id = do case_row id; s ← gets (λ s. s); pure (rows_of id s.events)

  unfoldable pub verify_audit_chain : String → Method Bool
  unfolding verify_from
  verify_audit_chain id = do es ← events id; pure (verify_from "GENESIS" es)

-- `ORDER BY created_at, case_id`
abbrev pub listed_after : ReviewCase → ReviewCase → Bool
listed_after a b =
    text_lt b.created_at a.created_at
    || (a.created_at == b.created_at && text_lt b.case_id a.case_id)

unfoldable pub get_each : List ReviewCase → Method (List ReviewCase)
get_each [] = pure []
get_each (row ∷ rows) = do c ← get row.case_id; cs ← get_each rows; pure (c ∷ cs)

abbrev pub is_undecided : ReviewCase → Bool
is_undecided row = is_open row.status || is_in_review row.status

unfoldable pub open_cases : Method (List ReviewCase)
open_cases = do
  s ← gets (λ s. s)
  get_each (sort_by listed_after (select is_undecided (values s.cases)))

-- `TrustReviewCoordinator`: the detector on an inventory, and the store.
module _ (sha256 : String → String) (evidence_digest : List Evidence → String) (d : Detector)
    (digest : Unsigned → String) (inventory : Inventory) where
  unfoldable pub detect_and_queue : String → String → Method (Option ReviewCase)
  detect_and_queue canonical_id now = do
    found ← lift (map_err anomaly (detect sha256 evidence_digest d inventory canonical_id))
    elim found [ none ↦ pure none | some f ↦ (do c ← queue sha256 digest f now; pure (some c)) ]

  -- `current is None or current.evidence_fingerprint != case.finding.evidence_fingerprint`
  abbrev pub is_stale : Option AnomalyFinding → ReviewCase → Bool
  is_stale none c = true
  is_stale (some f) c = not (f.evidence_fingerprint == c.finding.evidence_fingerprint)

  unfoldable pub resolve_current :
      String → String → ReviewOutcome → List String → String → String → Method ReviewCase
  resolve_current id reviewer_id outcome evidence_refs note now = do
    c ← get id
    current ←
        lift (map_err anomaly (detect sha256 evidence_digest d inventory c.finding.canonical_id))
    raise_if (is_stale current c) stale_finding
    resolve digest id reviewer_id outcome evidence_refs note now
