-- ===== src/Engineering/Integration.antt =====
-- factory/engineering_pod/integration.py, `EngineeringIntegrationValidator`: the packages, in an order
-- that respects their dependencies, become one manifest.
mod Owned
mod Taken
pub mod Integrated
mod Tests
use ai_factory.Base.{
  ℕ, suc, zero, String, Bool, true, false, not, ◌||◌, Option, none, some, List, [], ◌∷◌, ◌++◌, ⊤,
  map, any, if◌then◌else◌, leb, ◌==◌, is_nil, is_empty, select, contains, is_unique, same_set,
}
use ai_factory.Base.Result.{Result, ok, err, raise_if, or_raise, for_each, map_err, ◌>>=◌, ◌>>◌}
use ai_factory.Base.Dict.{Dict, lookup, insert}
use ai_factory.Base.Sorting.{sorted, distinct, sort_by, text_lt}
use ai_factory.Assurance.Lifecycle.{IntegratedArtifact, IntegrationManifest, validate_manifest}
use ai_factory.Engineering.{
  EngineeringError, ImplementationWorkPackage, VerificationResult, EvidenceManifest,
  mission_id_required, duplicate_package_ids, other_mission, order_incomplete, duplicate_evidence,
  evidence_mismatch, unknown_dependency, dependency_too_late, evidence_blocked, ambiguous_artifact,
  path_of_many, duplicate_verification, manifest_error,
}
use ai_factory.Engineering.Evidence.{EngineeringFinding, validate_evidence}

-- `{item.package_id: item for item in packages}`, where the ids are unique.
abbrev pub package_map : List ImplementationWorkPackage → Dict ImplementationWorkPackage
package_map = map (λ (p : ImplementationWorkPackage). (p.package_id, p))

abbrev pub package_ids : List ImplementationWorkPackage → List String
package_ids = map (λ (p : ImplementationWorkPackage). p.package_id)

abbrev pub evidence_ids : List EvidenceManifest → List String
evidence_ids = map (λ (e : EvidenceManifest). e.package_id)

-- The loop that fills `evidence_map`.
unfoldable pub index_evidence :
    List EvidenceManifest → Dict EvidenceManifest → Result EngineeringError (Dict EvidenceManifest)
index_evidence [] known = ok known
index_evidence (e ∷ es) known = elim (lookup e.package_id known) [
  | some _ ↦ err (duplicate_evidence e.package_id)
  | none ↦ index_evidence es (known ++ (e.package_id, e) ∷ [])
]

-- `sorted(set(xs) - set(ys))`
abbrev pub left_over : List String → List String → List String
left_over xs ys = sorted (distinct (select (λ x. not (contains x ys)) xs))

-- `position`: where an id stands in the order.
unfoldable pub position : String → List String → Option ℕ
position x [] = none
position x (y ∷ ys) =
    if x == y then some 0 else elim (position x ys) [ none ↦ none | some n ↦ some (suc n) ]

-- The checks on a dependency; `package_id` is in the order.
unfoldable pub check_dependency : List String → String → String → Result EngineeringError ⊤
unfolding position
check_dependency order package_id dependency = elim (position dependency order) [
  | none ↦ err (unknown_dependency dependency)
  | some i ↦ elim (position package_id order) [
    | none ↦ ok tt
    | some j ↦ raise_if (leb j i) (dependency_too_late dependency package_id)
  ]
]

unfoldable pub check_dependencies :
    List String → List ImplementationWorkPackage → Result EngineeringError ⊤
unfolding check_dependency
check_dependencies order packages =
    for_each packages λ p. for_each p.depends_on (check_dependency order p.package_id)

-- What the loop over the order collects.
pub record Collected : Type 0 where
  pub artifact_owner : Dict String
  pub path_owner : Dict String
  pub changed_paths : List String
  pub verification_ids : List String

abbrev pub nothing_collected : Collected
nothing_collected = record {
  artifact_owner = [];
  path_owner = [];
  changed_paths = [];
  verification_ids = [];
}

-- `owner[name] = package_id`, unless another package has it.
unfoldable pub own :
    (String → EngineeringError)
    → String
    → String
    → Dict String
    → Result EngineeringError (Dict String)
own taken package_id name owner = elim (lookup name owner) [
  | none ↦ ok (insert name package_id owner)
  | some previous ↦
      if previous == package_id then ok (insert name package_id owner) else err (taken previous)
]

unfoldable pub own_artifacts :
    String → List String → Dict String → Result EngineeringError (Dict String)
unfolding own
own_artifacts package_id [] owner = ok owner
own_artifacts package_id (a ∷ more) owner =
    own (λ previous. ambiguous_artifact a previous package_id) package_id a owner
    >>= own_artifacts package_id more

unfoldable pub own_paths :
    String → List String → Dict String → Result EngineeringError (Dict String)
unfolding own
own_paths package_id [] owner = ok owner
own_paths package_id (p ∷ ps) owner =
    own (λ previous. path_of_many p previous package_id) package_id p owner
    >>= own_paths package_id ps

unfoldable pub add_verifications :
    List VerificationResult → List String → Result EngineeringError (List String)
add_verifications [] known = ok known
add_verifications (r ∷ rs) known =
    raise_if (contains r.verification_id known) (duplicate_verification r.verification_id)
    >> add_verifications rs (known ++ r.verification_id ∷ [])

abbrev pub blockers : List EngineeringFinding → List EngineeringFinding
blockers = select (λ (f : EngineeringFinding). f.severity == "BLOCKING")

-- The loop's body for a package.
unfoldable pub collect :
    String
    → ImplementationWorkPackage
    → EvidenceManifest
    → Collected
    → Result EngineeringError Collected
unfolding own_artifacts own_paths add_verifications validate_evidence
collect package_id p e s = do
  findings ← validate_evidence p e
  raise_if (not (is_nil (blockers findings)))
      (evidence_blocked package_id (map (λ (f : EngineeringFinding). f.code) (blockers findings)))
  artifacts ← own_artifacts package_id e.produced_artifacts s.artifact_owner
  paths ← own_paths package_id e.changed_paths s.path_owner
  ids ← add_verifications e.verification_results s.verification_ids
  ok (record {
    artifact_owner = artifacts;
    path_owner = paths;
    changed_paths = s.changed_paths ++ e.changed_paths;
    verification_ids = ids;
  })

-- The loop over the order; every id of it has a package and evidence.
unfoldable pub collect_all :
    Dict ImplementationWorkPackage
    → Dict EvidenceManifest
    → List String
    → Collected
    → Result EngineeringError Collected
unfolding collect
collect_all packages evidence [] s = ok s
collect_all packages evidence (id ∷ ids) s = do
  p ← or_raise (lookup id packages) order_incomplete
  e ← or_raise (lookup id evidence) order_incomplete
  s' ← collect id p e s
  collect_all packages evidence ids s'

abbrev pub artifact_after : IntegratedArtifact → IntegratedArtifact → Bool
artifact_after a b = text_lt b.artifact_name a.artifact_name

abbrev pub artifact_of : String × String → IntegratedArtifact
artifact_of (name, owner) = record { artifact_name = name; owner_package_id = owner }

abbrev pub manifest_of : String → List String → Collected → IntegrationManifest
manifest_of mission_id order s = record {
  mission_id = mission_id;
  package_order = order;
  artifacts = sort_by artifact_after (map artifact_of s.artifact_owner);
  changed_paths = s.changed_paths;
  verification_ids = s.verification_ids;
}

unfoldable pub integrate :
    String
    → List ImplementationWorkPackage
    → List EvidenceManifest
    → List String
    → Result EngineeringError IntegrationManifest
unfolding index_evidence check_dependencies collect_all
integrate mission_id packages evidence order = do
  raise_if (is_empty mission_id) mission_id_required
  raise_if (not (is_unique (package_ids packages))) duplicate_package_ids
  raise_if (any (λ (p : ImplementationWorkPackage). not (p.mission_id == mission_id)) packages)
      other_mission
  raise_if (not (is_unique order) || not (same_set order (package_ids packages))) order_incomplete
  evidence_map ← index_evidence evidence []
  raise_if (not (same_set (evidence_ids evidence) (package_ids packages))) (
      evidence_mismatch (left_over (package_ids packages) (evidence_ids evidence))
        (left_over (evidence_ids evidence) (package_ids packages)))
  check_dependencies order packages
  s ← collect_all (package_map packages) evidence_map order nothing_collected
  let m = manifest_of mission_id order s
  map_err manifest_error (validate_manifest m)
  ok m
