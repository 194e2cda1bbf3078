-- ===== src/Engineering/Evidence.antt =====
-- factory/engineering_pod/validator.py, `EngineeringPlanValidator.validate_evidence`: what keeps the
-- evidence of a package from being accepted. The messages are left out.
use ai_factory.Base.{
  String, not, Option, none, some, List, [], ◌∷◌, ◌++◌, map, if◌then◌else◌, ◌==◌, select, contains,
}
use ai_factory.Base.Result.{Result, ok, err, ◌>>◌}
use ai_factory.Base.Sorting.{sorted, distinct}
use ai_factory.Engineering.{
  EngineeringError, ImplementationWorkPackage, VerificationResult, is_pass, EvidenceManifest,
  validate_package, validate_manifest_of,
}
use ai_factory.Engineering.Scopes.{in_any_scope}

pub record EngineeringFinding : Type 0 where
  pub code : String
  pub severity : String
  pub subject_id : Option String

abbrev pub blocking : String → Option String → EngineeringFinding
blocking code subject_id = record { code = code; severity = "BLOCKING"; subject_id = subject_id }

-- The loop's body for a changed path.
abbrev pub path_findings : List String → String → List EngineeringFinding
path_findings scopes path = elim (in_any_scope path scopes) [
  | err _ ↦ blocking "INVALID_CHANGED_PATH" (some path) ∷ []
  | ok allowed ↦ if allowed then [] else blocking "CHANGE_OUTSIDE_WRITE_SCOPE" (some path) ∷ []
]

abbrev pub all_path_findings : List String → List String → List EngineeringFinding
all_path_findings scopes [] = []
all_path_findings scopes (p ∷ ps) = path_findings scopes p ++ all_path_findings scopes ps

abbrev pub missing_artifacts : ImplementationWorkPackage → EvidenceManifest → List String
missing_artifacts p e =
    sorted (distinct (select (λ a. not (contains a e.produced_artifacts)) p.expected_artifacts))

abbrev pub failed : EvidenceManifest → List VerificationResult
failed e = select (λ r. not (is_pass r)) e.verification_results

abbrev pub executed_methods : EvidenceManifest → List String
executed_methods e =
    map (λ (r : VerificationResult). r.method) (select is_pass e.verification_results)

-- What is found in evidence that is well formed.
abbrev pub evidence_findings :
    ImplementationWorkPackage → EvidenceManifest → List EngineeringFinding
evidence_findings p e =
    (if e.package_id == p.package_id then [] else blocking "EVIDENCE_PACKAGE_MISMATCH" none ∷ [])
    ++ all_path_findings p.write_scopes e.changed_paths
    ++ map (λ a. blocking "EXPECTED_ARTIFACT_MISSING" (some a)) (missing_artifacts p e)
    ++ map (λ (r : VerificationResult). blocking "VERIFICATION_FAILED" (some r.verification_id))
        (failed e)
    ++ map (λ m. blocking "REQUIRED_VERIFICATION_MISSING" (some p.package_id))
        (select (λ m. not (contains m (executed_methods e))) p.verification_methods)

unfoldable pub validate_evidence :
    ImplementationWorkPackage → EvidenceManifest → Result EngineeringError (List EngineeringFinding)
unfolding validate_package validate_manifest_of
validate_evidence p e = validate_package p >> elim (validate_manifest_of e) [
  | err _ ↦ ok (blocking "INVALID_EVIDENCE_CONTRACT" (some e.package_id) ∷ [])
  | ok _ ↦ ok (evidence_findings p e)
]
