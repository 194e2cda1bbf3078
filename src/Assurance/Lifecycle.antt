-- ===== src/Assurance/Lifecycle.antt =====
-- factory/assurance_pod/lifecycle.py: the cycles of review and correction, and the gate on a release. Of
-- factory/engineering_pod/integration.py, the manifest that is reviewed. `digest` stands for the SHA-256
-- of the canonical JSON of a manifest, which holds all its fields.
use ai_factory.Base.{
  ℕ, ◌+◌, String, Bool, true, false, not, ◌&&◌, ◌||◌, List, ⊤, map, ltb, leb, ◌==◌, is_nil,
  is_empty, any, is_unique,
}
use ai_factory.Base.Result.{Result, ok, raise_if, ◌>>=◌, ◌>>◌}
use ai_factory.Assurance.{
  Status, is_passed, AssuranceDecision, AssuranceError, mission_mismatch, pass_with_blocking,
  changes_without_blocking, manifest_mission_required, package_order_empty, duplicate_packages,
  duplicate_paths, duplicate_verifications, duplicate_artifacts, artifact_fields_required,
  max_attempts_too_small, cycle_identity_required, attempt_too_small, remediation_identity_required,
  remediation_without_findings, stale_assurance, remediation_not_required, budget_exhausted,
  no_subject_change, blocked_release, subject_changed, validate_decision,
}

pub record IntegratedArtifact : Type 0 where
  pub artifact_name : String
  pub owner_package_id : String

pub record IntegrationManifest : Type 0 where
  pub mission_id : String
  pub package_order : List String
  pub artifacts : List IntegratedArtifact
  pub changed_paths : List String
  pub verification_ids : List String

-- `IntegrationManifest.validate`
unfoldable pub validate_manifest : IntegrationManifest → Result AssuranceError ⊤
validate_manifest m = do
  raise_if (is_empty m.mission_id) manifest_mission_required
  raise_if (is_nil m.package_order) package_order_empty
  raise_if (not (is_unique m.package_order)) duplicate_packages
  raise_if (not (is_unique m.changed_paths)) duplicate_paths
  raise_if (not (is_unique m.verification_ids)) duplicate_verifications
  raise_if (not (is_unique (map (λ (a : IntegratedArtifact). a.artifact_name) m.artifacts)))
      duplicate_artifacts
  raise_if
      (any (λ (a : IntegratedArtifact). is_empty a.artifact_name || is_empty a.owner_package_id)
        m.artifacts)
      artifact_fields_required

pub record AssuranceCycleRecord : Type 0 where
  pub cycle_id : String
  pub mission_id : String
  pub attempt : ℕ
  pub subject_fingerprint : String
  pub decision_status : Status
  pub blocking_finding_ids : List String
  pub stale : Bool

-- `AssuranceCycleRecord.validate`
unfoldable pub validate_cycle : AssuranceCycleRecord → Result AssuranceError ⊤
validate_cycle c = do
  raise_if (is_empty c.cycle_id || (is_empty c.mission_id || is_empty c.subject_fingerprint))
      cycle_identity_required
  raise_if (ltb c.attempt 1) attempt_too_small
  raise_if (is_passed c.decision_status && not (is_nil c.blocking_finding_ids)) pass_with_blocking
  raise_if (not (is_passed c.decision_status) && is_nil c.blocking_finding_ids)
      changes_without_blocking

pub record RemediationRequest : Type 0 where
  pub mission_id : String
  pub from_cycle_id : String
  pub subject_fingerprint : String
  pub blocking_finding_ids : List String

-- `RemediationRequest.validate`
unfoldable pub validate_request : RemediationRequest → Result AssuranceError ⊤
validate_request q = do
  raise_if (is_empty q.mission_id || (is_empty q.from_cycle_id || is_empty q.subject_fingerprint))
      remediation_identity_required
  raise_if (is_nil q.blocking_finding_ids) remediation_without_findings

-- `AssuranceLifecycle.__init__`, which keeps the number.
unfoldable pub new_lifecycle : ℕ → Result AssuranceError ℕ
new_lifecycle max_attempts = do
  raise_if (ltb max_attempts 1) max_attempts_too_small
  ok max_attempts

unfoldable pub remediation_request : AssuranceCycleRecord → Result AssuranceError RemediationRequest
remediation_request c = do
  validate_cycle c
  raise_if c.stale stale_assurance
  raise_if (is_passed c.decision_status) remediation_not_required
  let request : RemediationRequest = record {
    mission_id = c.mission_id;
    from_cycle_id = c.cycle_id;
    subject_fingerprint = c.subject_fingerprint;
    blocking_finding_ids = c.blocking_finding_ids;
  }
  validate_request request
  ok request

module _ (digest : IntegrationManifest → String) where
  unfoldable pub integration_fingerprint : IntegrationManifest → Result AssuranceError String
  integration_fingerprint m = do validate_manifest m; ok (digest m)

  abbrev pub cycle_of :
      String → IntegrationManifest → AssuranceDecision → ℕ → String → AssuranceCycleRecord
  cycle_of cycle_id m d attempt fingerprint = record {
    cycle_id = cycle_id;
    mission_id = m.mission_id;
    attempt = attempt;
    subject_fingerprint = fingerprint;
    decision_status = d.status;
    blocking_finding_ids = d.blocking_finding_ids;
    stale = false;
  }

  -- `record`
  unfoldable pub record_cycle :
      String
      → IntegrationManifest
      → AssuranceDecision
      → ℕ
      → Result AssuranceError AssuranceCycleRecord
  record_cycle cycle_id m d attempt = do
    validate_decision d
    raise_if (not (d.mission_id == m.mission_id)) mission_mismatch
    fingerprint ← integration_fingerprint m
    let cycle = cycle_of cycle_id m d attempt fingerprint
    validate_cycle cycle
    ok cycle

  unfoldable pub re_review :
      ℕ
      → AssuranceCycleRecord
      → IntegrationManifest
      → AssuranceDecision
      → String
      → Result AssuranceError (AssuranceCycleRecord × AssuranceCycleRecord)
  re_review max_attempts previous corrected d cycle_id = do
    validate_cycle previous
    raise_if previous.stale stale_assurance
    raise_if (is_passed previous.decision_status) remediation_not_required
    raise_if (leb max_attempts previous.attempt) budget_exhausted
    raise_if (not (corrected.mission_id == previous.mission_id)) mission_mismatch
    fingerprint ← integration_fingerprint corrected
    raise_if (fingerprint == previous.subject_fingerprint) no_subject_change
    current ← record_cycle cycle_id corrected d (previous.attempt + 1)
    ok (record previous { stale = true }, current)

  unfoldable pub assert_release_ready :
      AssuranceCycleRecord → IntegrationManifest → Result AssuranceError ⊤
  assert_release_ready c m = do
    validate_cycle c
    raise_if c.stale stale_assurance
    raise_if (not (is_passed c.decision_status)) blocked_release
    fingerprint ← integration_fingerprint m
    raise_if (not (c.subject_fingerprint == fingerprint)) subject_changed
