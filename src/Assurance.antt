-- ===== src/Assurance.antt =====
-- factory/assurance_pod/contracts.py: the reports of the independent reviewers, and the decision on them.
-- The statuses PASS and CHANGES_REQUIRED are a data type, so their membership test is left out.
pub mod Validator
pub mod Lifecycle
pub mod Counting
pub mod Passing
pub mod Release
pub mod Tests
use ai_factory.Base.{
  ℕ, String, Bool, true, false, not, ◌&&◌, ◌||◌, List, [], ◌∷◌, ⊤, map, if◌then◌else◌, eqb, ◌==◌,
  is_nil, is_empty, is_blank, any, contains, is_unique, same_set, length,
}
use ai_factory.Base.Result.{Result, ok, err, raise_if, for_each, ◌>>=◌, ◌>>◌}

abbrev pub assurance_roles : List String
assurance_roles = "A09-SECURITY" ∷ "A10-QA" ∷ "A12-RED-TEAM" ∷ []

abbrev pub assurance_severities : List String
assurance_severities = "INFO" ∷ "LOW" ∷ "MEDIUM" ∷ "HIGH" ∷ "CRITICAL" ∷ []

pub record AcceptanceCoverage : Type 0 where
  pub criterion_id : String
  pub evidence_refs : List String

pub record AssuranceFinding : Type 0 where
  pub finding_id : String
  pub category : String
  pub severity : String
  pub subject_ref : String
  pub statement : String
  pub evidence_refs : List String
  pub remediation : String
  pub blocking : Bool

pub record AssuranceReport : Type 0 where
  pub report_id : String
  pub mission_id : String
  pub reviewer_agent : String
  pub subject_artifact_ref : String
  pub findings : List AssuranceFinding
  pub verification_refs : List String
  pub acceptance_coverage : List AcceptanceCoverage

pub data Status : Type 0 where
  passed changes_required : Status

pub record AssuranceDecision : Type 0 where
  pub mission_id : String
  pub status : Status
  pub reviewer_agents : List String
  pub blocking_finding_ids : List String
  pub report_ids : List String

-- One constructor for each `raise` of the pod.
pub data AssuranceError : Type 0 where
  criterion_required coverage_requires_evidence : AssuranceError
  finding_identity_required statement_required finding_requires_evidence : AssuranceError
  unknown_severity : String → AssuranceError
  grave_must_block report_identity_required verification_required : AssuranceError
  unknown_reviewer : String → AssuranceError
  duplicate_findings duplicate_coverage only_qa_covers : AssuranceError
  decision_requires_roles decision_requires_reports : AssuranceError
  pass_with_blocking changes_without_blocking : AssuranceError
  mission_required three_reports_required mission_mismatch : AssuranceError
  not_independent duplicate_reviewer duplicate_report unknown_criteria : String → AssuranceError
  roles_missing required_not_unique qa_report_required : AssuranceError
  manifest_mission_required package_order_empty duplicate_packages : AssuranceError
  duplicate_paths duplicate_verifications duplicate_artifacts : AssuranceError
  artifact_fields_required max_attempts_too_small : AssuranceError
  cycle_identity_required attempt_too_small : AssuranceError
  remediation_identity_required remediation_without_findings : AssuranceError
  stale_assurance remediation_not_required budget_exhausted no_subject_change : AssuranceError
  blocked_release subject_changed : AssuranceError

-- `AcceptanceCoverage.validate`
unfoldable pub validate_coverage : AcceptanceCoverage → Result AssuranceError ⊤
validate_coverage c = do
  raise_if (is_blank c.criterion_id) criterion_required
  raise_if (is_nil c.evidence_refs || any is_blank c.evidence_refs) coverage_requires_evidence

-- `AssuranceFinding.validate`
unfoldable pub validate_finding : AssuranceFinding → Result AssuranceError ⊤
validate_finding f = do
  raise_if (is_empty f.finding_id || (is_blank f.category || is_blank f.subject_ref))
      finding_identity_required
  raise_if (not (contains f.severity assurance_severities)) (unknown_severity f.severity)
  raise_if (is_blank f.statement || is_blank f.remediation) statement_required
  raise_if (is_nil f.evidence_refs) finding_requires_evidence
  raise_if ((f.severity == "HIGH" || f.severity == "CRITICAL") && not f.blocking) grave_must_block

abbrev pub coverage_ids : AssuranceReport → List String
coverage_ids r = map (λ (c : AcceptanceCoverage). c.criterion_id) r.acceptance_coverage

-- `AssuranceReport.validate`
unfoldable pub validate_report : AssuranceReport → Result AssuranceError ⊤
unfolding validate_finding validate_coverage
validate_report r = do
  raise_if (is_empty r.report_id || (is_empty r.mission_id || is_blank r.subject_artifact_ref))
      report_identity_required
  raise_if (not (contains r.reviewer_agent assurance_roles)) (unknown_reviewer r.reviewer_agent)
  raise_if (is_nil r.verification_refs) verification_required
  raise_if (not (is_unique (map (λ (f : AssuranceFinding). f.finding_id) r.findings)))
      duplicate_findings
  for_each r.findings validate_finding
  raise_if (not (is_unique (coverage_ids r))) duplicate_coverage
  for_each r.acceptance_coverage validate_coverage
  raise_if (not (r.reviewer_agent == "A10-QA") && not (is_nil r.acceptance_coverage)) only_qa_covers

abbrev pub is_passed : Status → Bool
is_passed passed = true
is_passed changes_required = false

-- `AssuranceDecision.validate`
unfoldable pub validate_decision : AssuranceDecision → Result AssuranceError ⊤
validate_decision d = do
  raise_if (not (same_set d.reviewer_agents assurance_roles)) decision_requires_roles
  raise_if (not (eqb (length d.report_ids) 3) || not (is_unique d.report_ids))
      decision_requires_reports
  raise_if (is_passed d.status && not (is_nil d.blocking_finding_ids)) pass_with_blocking
  raise_if (not (is_passed d.status) && is_nil d.blocking_finding_ids) changes_without_blocking
