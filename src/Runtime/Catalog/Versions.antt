-- ===== src/Runtime/Catalog/Versions.antt =====
-- Artifacts are versioned, and never replaced (factory/runtime/catalog.py).
use ai_factory.Base.{
  ℕ, ◌<◌, String, Bool, true, false, ◌≡◌, refl, some, List, [], ◌∷◌, ◌++◌, eqb, ◌&&◌, arith,
  eq_refl, any, select-append, subst,
}
use ai_factory.Base.Result.{ok}
use ai_factory.Runtime.Catalog.{
  Artifact, Catalog, add_artifact, new_artifact, latest_artifact, latest_of, max_version,
  versions_of, is_artifact,
}

-- A version of an artifact is taken.
abbrev pub is_taken : String → String → ℕ → List Artifact → Bool
is_taken mission_id artifact_id version artifacts =
    any (λ (a : Artifact). is_artifact mission_id artifact_id a && eqb a.version version) artifacts

is_taken-above :
    (mission_id artifact_id : String) (version : ℕ) (artifacts : List Artifact)
    → max_version (versions_of mission_id artifact_id artifacts) < version
    → is_taken mission_id artifact_id version artifacts ≡ false
is_taken-above mission_id artifact_id version [] h = refl
is_taken-above mission_id artifact_id version (a ∷ rest) h =
    ground (arith, is_taken-above mission_id artifact_id version rest)

latest_of-append :
    (xs : List Artifact) (a : Artifact)
    → max_version xs < a.version
    → latest_of (xs ++ a ∷ []) ≡ some a
latest_of-append [] a h = refl
latest_of-append (x ∷ xs) a h = ground (arith, latest_of-append xs a)

-- A new artifact takes a version that no other of its key has, it changes no artifact that is there,
-- and it is the one that `latest_artifact` returns next.
pub latest_artifact-add_artifact :
    (digest : String → String) (mission_id artifact_id content created_by media_type now : String)
    (s : Catalog) {a : Artifact} {t : Catalog}
    → add_artifact digest mission_id artifact_id content created_by media_type now s ≡ (ok a, t)
    → (is_taken mission_id artifact_id a.version s.artifacts ≡ false)
      × (t.artifacts ≡ s.artifacts ++ a ∷ [])
      × (latest_artifact mission_id artifact_id t ≡ (ok a, t))
unfolding add_artifact latest_artifact
latest_artifact-add_artifact digest mission_id artifact_id content created_by media_type now s {a}
      {t} h =
    let vs = versions_of mission_id artifact_id s.artifacts in
    let b =
      new_artifact digest mission_id artifact_id content created_by media_type now s.artifacts in
    let mine : is_artifact mission_id artifact_id b ≡ true =
      ground (arith, eq_refl mission_id, eq_refl artifact_id) in
    let added : t.artifacts ≡ s.artifacts ++ b ∷ [] = ground arith in
    let same : b ≡ a = ground arith in
    let stored : versions_of mission_id artifact_id t.artifacts ≡ vs ++ b ∷ [] =
      rw added
        (ground (arith, select-append (is_artifact mission_id artifact_id) s.artifacts (b ∷ []))) in
    let newest : latest_of (versions_of mission_id artifact_id t.artifacts) ≡ some b =
      rw stored (latest_of-append vs b (omega arith)) in
    subst
      (λ (x : Artifact).
        (is_taken mission_id artifact_id x.version s.artifacts ≡ false)
        × (t.artifacts ≡ s.artifacts ++ x ∷ [])
        × (latest_artifact mission_id artifact_id t ≡ (ok x, t)))
      same
      (
        is_taken-above mission_id artifact_id b.version s.artifacts (omega arith),
        added,
        rw newest refl,
      )
