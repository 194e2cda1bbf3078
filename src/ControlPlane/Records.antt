-- ===== src/ControlPlane/Records.antt =====
-- factory/control_plane/contracts.py: the records of evidence, objections, reviews and events, and their
-- validation.
use ai_factory.Base.{String, not, List, [], ◌∷◌, ⊤, is_nil, is_empty, contains, any}
use ai_factory.Base.Result.{Result, raise_if, ◌>>◌}

pub data EvidenceKind : Type 0 where
  test static_analysis diff log artifact manual_check : EvidenceKind

pub data ObjectionSeverity : Type 0 where
  info warning blocking : ObjectionSeverity

pub data RecordError : Type 0 where
  evidence_fields_missing objection_fields_missing event_fields_missing : RecordError
  invalid_verdict review_requires_evidence own_work : RecordError

pub record EvidenceRecord : Type 0 where
  pub evidence_id : String
  pub mission_id : String
  pub task_id : String
  pub producer_id : String
  pub kind : EvidenceKind
  pub summary : String
  pub artifact_refs : List String

unfoldable pub validate_evidence : EvidenceRecord → Result RecordError ⊤
validate_evidence e =
    raise_if
      (any is_empty (e.evidence_id ∷ e.mission_id ∷ e.task_id ∷ e.producer_id ∷ e.summary ∷ []))
      evidence_fields_missing

pub record ObjectionRecord : Type 0 where
  pub objection_id : String
  pub mission_id : String
  pub task_id : String
  pub raised_by : String
  pub severity : ObjectionSeverity
  pub reason : String

unfoldable pub validate_objection : ObjectionRecord → Result RecordError ⊤
validate_objection o =
    raise_if
      (any is_empty (o.objection_id ∷ o.mission_id ∷ o.task_id ∷ o.raised_by ∷ o.reason ∷ []))
      objection_fields_missing

pub record ReviewRecord : Type 0 where
  pub review_id : String
  pub mission_id : String
  pub task_id : String
  pub reviewer_id : String
  pub evidence_ids : List String
  pub verdict : String
  pub notes : String

abbrev verdicts : List String
verdicts = "APPROVE" ∷ "CHANGES_REQUESTED" ∷ "REJECT" ∷ []

unfoldable pub validate_review : ReviewRecord → List String → Result RecordError ⊤
validate_review r worker_ids = do
  raise_if (not (contains r.verdict verdicts)) invalid_verdict
  raise_if (is_nil r.evidence_ids) review_requires_evidence
  raise_if (contains r.reviewer_id worker_ids) own_work

-- The payload is whatever the producer has put there.
pub record TypedEvent (P : Type 0) : Type 0 where
  pub event_id : String
  pub mission_id : String
  pub actor_id : String
  pub event_type : String
  pub payload : P

unfoldable pub validate_event : {P : Type 0} → TypedEvent P → Result RecordError ⊤
validate_event e =
    raise_if (any is_empty (e.event_id ∷ e.mission_id ∷ e.actor_id ∷ e.event_type ∷ []))
      event_fields_missing
