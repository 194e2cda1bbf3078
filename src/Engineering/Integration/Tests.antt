-- ===== src/Engineering/Integration/Tests.antt =====
-- The integration of packages on concrete evidence.
use ai_factory.Base.{String, ◌≡◌, refl, inl, inr, List, [], ◌∷◌}
use ai_factory.Base.Text.{is_blank}
use ai_factory.Base.Result.{ok, err}
use ai_factory.Base.Dict.{lookup, insert}
use ai_factory.Base.Sorting.{sort_by, sorted, distinct}
use ai_factory.Assurance.Lifecycle.{IntegrationManifest, validate_manifest}
use ai_factory.Engineering.{
  ImplementationWorkPackage, EvidenceManifest, invalid_scope, dependency_too_late, evidence_blocked,
}
use ai_factory.Engineering.Scopes.{normalize_scope, path_in_scope, in_any_scope}
use ai_factory.Engineering.Integration.{integrate}
use ai_factory.Engineering.Integration.Integrated.{IsIntegrated, integrate-IsIntegrated}

abbrev work_package : String → List String → List String → ImplementationWorkPackage
work_package package_id depends_on write_scopes = record {
  package_id = package_id;
  mission_id = "M-1";
  owner_agent = "A06-BACKEND";
  discipline = "BACKEND";
  objective = "Serve.";
  requirement_ids = "R-1" ∷ [];
  depends_on = depends_on;
  write_scopes = write_scopes;
  expected_artifacts = package_id ∷ [];
  verification_methods = "unit" ∷ [];
}

abbrev evidence_for : String → String → EvidenceManifest
evidence_for package_id path = record {
  package_id = package_id;
  changed_paths = path ∷ [];
  produced_artifacts = package_id ∷ [];
  verification_results =
      record {
        verification_id = package_id;
        method = "unit";
        status = "PASS";
        evidence_ref = "log";
      }
      ∷ [];
}

abbrev packages : List ImplementationWorkPackage
packages = work_package "P-2" ("P-1" ∷ []) ("b" ∷ []) ∷ work_package "P-1" [] ("/a/" ∷ []) ∷ []

abbrev evidence : List EvidenceManifest
evidence = evidence_for "P-1" "a/x" ∷ evidence_for "P-2" "b" ∷ []

abbrev integrated : IntegrationManifest
integrated = record {
  mission_id = "M-1";
  package_order = "P-1" ∷ "P-2" ∷ [];
  artifacts =
      record { artifact_name = "P-1"; owner_package_id = "P-1" }
      ∷ record { artifact_name = "P-2"; owner_package_id = "P-2" }
      ∷ [];
  changed_paths = "a/x" ∷ "b" ∷ [];
  verification_ids = "P-1" ∷ "P-2" ∷ [];
}

both_in_order : integrate "M-1" packages evidence ("P-1" ∷ "P-2" ∷ []) ≡ ok integrated
unfolding integrate validate_manifest lookup insert sort_by is_blank in_any_scope path_in_scope
    sorted distinct
both_in_order = refl

integrate-IsIntegrated_example : IsIntegrated packages evidence integrated (evidence_for "P-2" "b")
integrate-IsIntegrated_example =
    integrate-IsIntegrated "M-1" packages evidence ("P-1" ∷ "P-2" ∷ []) (evidence_for "P-2" "b")
      both_in_order (inr (inl refl))

dependencies_come_first :
    integrate "M-1" packages evidence ("P-2" ∷ "P-1" ∷ []) ≡ err (dependency_too_late "P-1" "P-2")
unfolding integrate lookup
dependencies_come_first = refl

outside_the_scope :
    integrate "M-1" packages
      (evidence_for "P-1" "c" ∷ evidence_for "P-2" "b" ∷ [])
      ("P-1" ∷ "P-2" ∷ [])
    ≡ err (evidence_blocked "P-1" ("CHANGE_OUTSIDE_WRITE_SCOPE" ∷ []))
unfolding integrate lookup is_blank in_any_scope path_in_scope sorted distinct
outside_the_scope = refl

scopes_are_normalized : normalize_scope " \\a\\b/ " ≡ ok "a/b"
unfolding normalize_scope
scopes_are_normalized = refl

no_way_up : normalize_scope "a/../b" ≡ err (invalid_scope "a/../b")
unfolding normalize_scope
no_way_up = refl
