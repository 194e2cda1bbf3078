-- ===== src/Engineering.antt =====
-- factory/engineering_pod/contracts.py: the work packages, the evidence of their implementation, and their
-- validation. A discipline and a status are texts, which `validate` checks.
pub mod Scopes
pub mod Evidence
pub mod Integration
use ai_factory.Base.{
  String, Bool, true, false, not, ◌||◌, Option, none, some, List, [], ◌∷◌, ⊤, ◌==◌, is_nil,
  is_empty, is_blank, contains, is_unique,
}
use ai_factory.Base.Result.{Result, ok, err, raise_if, or_raise, for_each, ◌>>=◌, ◌>>◌}
use ai_factory.Base.Dict.{Dict, lookup}
use ai_factory.Assurance.{AssuranceError}

-- One constructor for each `raise` of the contracts, of the validator and of the integration.
pub data EngineeringError : Type 0 where
  package_fields_required owner_mismatch requirements_missing write_scopes_missing :
      EngineeringError
  expected_artifacts_missing methods_missing depends_on_itself : EngineeringError
  duplicate_dependencies duplicate_write_scopes result_fields_required : EngineeringError
  unknown_status evidence_package_required paths_empty artifacts_empty results_empty :
      EngineeringError
  mission_id_required duplicate_package_ids other_mission order_incomplete : EngineeringError
  unknown_discipline invalid_scope duplicate_evidence duplicate_verification :
      String → EngineeringError
  unknown_dependency : String → EngineeringError
  dependency_too_late : String → String → EngineeringError
  evidence_mismatch : List String → List String → EngineeringError
  evidence_blocked : String → List String → EngineeringError
  ambiguous_artifact path_of_many : String → String → String → EngineeringError
  manifest_error : AssuranceError → EngineeringError

abbrev pub discipline_owner : Dict String
discipline_owner =
    ("FRONTEND", "A05-FRONTEND")
    ∷ ("BACKEND", "A06-BACKEND")
    ∷ ("DATABASE", "A07-DATABASE")
    ∷ ("AI_AUTOMATION", "A08-AI-AUTOMATION")
    ∷ []

pub record ImplementationWorkPackage : Type 0 where
  pub package_id : String
  pub mission_id : String
  pub owner_agent : String
  pub discipline : String
  pub objective : String
  pub requirement_ids : List String
  pub depends_on : List String
  pub write_scopes : List String
  pub expected_artifacts : List String
  pub verification_methods : List String

unfoldable pub validate_package : ImplementationWorkPackage → Result EngineeringError ⊤
validate_package p = do
  raise_if (is_empty p.package_id || (is_empty p.mission_id || is_blank p.objective))
      package_fields_required
  owner ← or_raise (lookup p.discipline discipline_owner) (unknown_discipline p.discipline)
  raise_if (not (p.owner_agent == owner)) owner_mismatch
  raise_if (is_nil p.requirement_ids) requirements_missing
  raise_if (is_nil p.write_scopes) write_scopes_missing
  raise_if (is_nil p.expected_artifacts) expected_artifacts_missing
  raise_if (is_nil p.verification_methods) methods_missing
  raise_if (contains p.package_id p.depends_on) depends_on_itself
  raise_if (not (is_unique p.depends_on)) duplicate_dependencies
  raise_if (not (is_unique p.write_scopes)) duplicate_write_scopes

pub record VerificationResult : Type 0 where
  pub verification_id : String
  pub method : String
  pub status : String
  pub evidence_ref : String

abbrev pub is_pass : VerificationResult → Bool
is_pass r = r.status == "PASS"

unfoldable pub validate_result : VerificationResult → Result EngineeringError ⊤
validate_result r = do
  raise_if (is_empty r.verification_id || (is_blank r.method || is_blank r.evidence_ref))
      result_fields_required
  raise_if (not (is_pass r || r.status == "FAIL")) unknown_status

pub record EvidenceManifest : Type 0 where
  pub package_id : String
  pub changed_paths : List String
  pub produced_artifacts : List String
  pub verification_results : List VerificationResult

-- `EvidenceManifest.validate`
unfoldable pub validate_manifest_of : EvidenceManifest → Result EngineeringError ⊤
unfolding validate_result
validate_manifest_of e = do
  raise_if (is_empty e.package_id) evidence_package_required
  raise_if (is_nil e.changed_paths) paths_empty
  raise_if (is_nil e.produced_artifacts) artifacts_empty
  raise_if (is_nil e.verification_results) results_empty
  for_each e.verification_results validate_result
