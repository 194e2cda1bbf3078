-- ===== src/Assurance/Tests.antt =====
-- The gate and the lifecycle of assurance on concrete reports, where the digest of a manifest is its
-- mission and its paths.
use ai_factory.Base.{ℕ, ◌+◌, ◌≤◌, String, false, ◌≡◌, refl, ◌⊎◌, List, [], ◌∷◌, arith}
use ai_factory.Base.Text.{is_blank, joined}
use ai_factory.Base.Sorting.{sorted, distinct}
use ai_factory.Base.Result.{ok, err}
use ai_factory.Assurance.{
  AcceptanceCoverage, AssuranceReport, passed, changes_required, AssuranceDecision, not_independent,
  budget_exhausted, subject_changed, validate_report, validate_decision,
}
use ai_factory.Assurance.Validator.{decide}
use ai_factory.Assurance.Passing.{IsPassed, decide-IsPassed}
use ai_factory.Assurance.Lifecycle.{
  IntegrationManifest, AssuranceCycleRecord, validate_manifest, validate_cycle,
  integration_fingerprint, record_cycle, re_review, assert_release_ready,
}
use ai_factory.Assurance.Release.{Collision, re_reviews, re_reviews_bounded, release-IsPassed}

abbrev report : String → String → List AcceptanceCoverage → AssuranceReport
report id reviewer coverage = record {
  report_id = id;
  mission_id = "M1";
  reviewer_agent = reviewer;
  subject_artifact_ref = "BUILD-1";
  findings = [];
  verification_refs = "CHECK-1" ∷ [];
  acceptance_coverage = coverage;
}

abbrev reports : List AssuranceReport
reports =
    report "R1" "A09-SECURITY" []
    ∷ report "R2" "A10-QA" (record { criterion_id = "C1"; evidence_refs = "E1" ∷ [] } ∷ [])
    ∷ report "R3" "A12-RED-TEAM" []
    ∷ []

abbrev decision : AssuranceDecision
decision = record {
  mission_id = "M1";
  status = passed;
  reviewer_agents = "A09-SECURITY" ∷ "A10-QA" ∷ "A12-RED-TEAM" ∷ [];
  blocking_finding_ids = [];
  report_ids = "R1" ∷ "R2" ∷ "R3" ∷ [];
}

decided : decide "M1" reports ("A06-BACKEND" ∷ []) ("C1" ∷ []) ≡ ok decision
unfolding decide validate_report is_blank sorted distinct
decided = refl

decide-IsPassed_example : IsPassed "M1" ("A06-BACKEND" ∷ []) ("C1" ∷ []) reports
decide-IsPassed_example = decide-IsPassed "M1" reports ("A06-BACKEND" ∷ []) ("C1" ∷ []) decided refl

-- A criterion that the report of quality does not cover blocks.
abbrev blocked : AssuranceDecision
blocked = record decision {
  status = changes_required;
  blocking_finding_ids = "QA-COVERAGE-C2" ∷ [];
}

gap_blocks : decide "M1" reports ("A06-BACKEND" ∷ []) ("C1" ∷ "C2" ∷ []) ≡ ok blocked
unfolding decide validate_report is_blank sorted distinct
gap_blocks = refl

reviewer_has_implemented :
    decide "M1" reports ("A10-QA" ∷ []) ("C1" ∷ []) ≡ err (not_independent "A10-QA")
unfolding decide validate_report is_blank sorted distinct
reviewer_has_implemented = refl

abbrev digest_of : IntegrationManifest → String
digest_of m = joined "," (m.mission_id ∷ m.changed_paths)

abbrev manifest : List String → IntegrationManifest
manifest paths = record {
  mission_id = "M1";
  package_order = "P1" ∷ [];
  artifacts = [];
  changed_paths = paths;
  verification_ids = [];
}

abbrev cycle : ℕ → AssuranceDecision → String → AssuranceCycleRecord
cycle attempt d print = record {
  cycle_id = "CYCLE";
  mission_id = "M1";
  attempt = attempt;
  subject_fingerprint = print;
  decision_status = d.status;
  blocking_finding_ids = d.blocking_finding_ids;
  stale = false;
}

recorded :
    record_cycle digest_of "CYCLE" (manifest ("a" ∷ [])) decision 1 ≡ ok (cycle 1 decision "M1,a")
unfolding record_cycle validate_decision integration_fingerprint validate_manifest validate_cycle
    joined
recorded = refl

ready : assert_release_ready digest_of (cycle 1 decision "M1,a") (manifest ("a" ∷ [])) ≡ ok tt
unfolding assert_release_ready validate_cycle integration_fingerprint validate_manifest joined
ready = refl

release-IsPassed_example :
    IsPassed "M1" ("A06-BACKEND" ∷ []) ("C1" ∷ []) reports
    × ((manifest ("a" ∷ []) ≡ manifest ("a" ∷ [])) ⊎ Collision digest_of)
release-IsPassed_example =
    release-IsPassed digest_of "M1" "CYCLE" reports ("A06-BACKEND" ∷ []) ("C1" ∷ [])
      (manifest ("a" ∷ [])) (manifest ("a" ∷ [])) 1 decided recorded ready

changed_since :
    assert_release_ready digest_of (cycle 1 decision "M1,a") (manifest ("b" ∷ []))
    ≡ err subject_changed
unfolding assert_release_ready validate_cycle integration_fingerprint validate_manifest joined
changed_since = refl

abbrev rounds : List (IntegrationManifest × AssuranceDecision × String)
rounds = (manifest ("b" ∷ []), blocked, "CYCLE") ∷ (manifest ("c" ∷ []), decision, "CYCLE") ∷ []

reviewed_twice :
    re_reviews digest_of 3 (cycle 1 blocked "M1,a") rounds ≡ ok (cycle 3 decision "M1,c")
unfolding re_reviews re_review validate_cycle integration_fingerprint validate_manifest joined
    record_cycle validate_decision
reviewed_twice = refl

re_reviews_bounded_example : ◌≡◌ {A = ℕ} 3 (1 + 2) × (1 + 2 ≤ 3)
re_reviews_bounded_example =
    re_reviews_bounded digest_of 3 (cycle 1 blocked "M1,a") rounds (omega arith) reviewed_twice

no_third_correction : re_reviews digest_of 2 (cycle 1 blocked "M1,a") rounds ≡ err budget_exhausted
unfolding re_reviews re_review validate_cycle integration_fingerprint validate_manifest joined
    record_cycle validate_decision
no_third_correction = refl
