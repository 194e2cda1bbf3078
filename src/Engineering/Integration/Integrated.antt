-- ===== src/Engineering/Integration/Integrated.antt =====
-- What an integrated manifest says of its packages (factory/engineering_pod/integration.py).
use ai_factory.Base.{
  String, true, not, ◌||◌, ◌≡◌, refl, ap, sym, subst, ◌∙◌, ◌⊎◌, inl, inr, Option, none, some, List,
  [], ◌∷◌, ◌++◌, arith, ◌==◌, eq_iff, is_nil, is_empty, contains, same_set, is_subset, is_unique,
  any, Among, Bool-cases, some-injective,
}
use ai_factory.Base.Result.{ok, raise_if, map_err, >>=-eq-ok, raise_if-eq-ok}
use ai_factory.Base.Dict.{Dict, lookup}
use ai_factory.Assurance.Lifecycle.{IntegrationManifest, validate_manifest}
use ai_factory.Engineering.{
  ImplementationWorkPackage, EvidenceManifest, mission_id_required, duplicate_package_ids,
  other_mission, order_incomplete, manifest_error,
}
use ai_factory.Engineering.Evidence.{EngineeringFinding, validate_evidence}
use ai_factory.Engineering.Integration.{
  package_map, package_ids, evidence_ids, index_evidence, check_dependencies, Collected,
  nothing_collected, blockers, collect_all, manifest_of, integrate,
}
use ai_factory.Engineering.Integration.Owned.{ok-injective}
use ai_factory.Engineering.Integration.Taken.{IsTaken, collect_all-IsTaken}

lookup-append_some :
    {V : Type 0} (k j : String) (v : V) (d : Dict V) {w : V}
    → lookup k d ≡ some w
    → lookup k (d ++ (j, v) ∷ []) ≡ some w
unfolding lookup
lookup-append_some k j v [] h = absurd (cc h)
lookup-append_some k j v ((i, u) ∷ d) {w} h = elim (Bool-cases (i == k)) [
  | inl e ↦ ground arith
  | inr e ↦ ground (arith, lookup-append_some k j v d {w = w} (ground arith))
]

lookup-append_none :
    {V : Type 0} (k : String) (v : V) (d : Dict V)
    → lookup k d ≡ none
    → lookup k (d ++ (k, v) ∷ []) ≡ some v
unfolding lookup
lookup-append_none k v [] h = ground (arith, eq_iff k k)
lookup-append_none k v ((i, u) ∷ d) h = elim (Bool-cases (i == k)) [
  | inl e ↦ absurd (ground arith)
  | inr e ↦ ground (arith, lookup-append_none k v d (ground arith))
]

Option-cases : {A : Type 0} (o : Option A) → (o ≡ none) ⊎ ((a : A) × (o ≡ some a))
Option-cases none = inl refl
Option-cases (some a) = inr (a, refl)

-- Every piece of evidence is found under the package that it names.
index_evidence_lem :
    (es : List EvidenceManifest) (known : Dict EvidenceManifest) {d : Dict EvidenceManifest}
    → index_evidence es known ≡ ok d
    → ((k : String) (e : EvidenceManifest) → lookup k known ≡ some e → lookup k d ≡ some e)
      × ((e : EvidenceManifest) → Among e es → lookup e.package_id d ≡ some e)
unfolding index_evidence
index_evidence_lem [] known h =
    (λ k e has. subst (λ o. lookup k o ≡ some e) (ok-injective h) has, λ e m. absurd m)
index_evidence_lem (x ∷ es) known {d} h = elim (Option-cases (lookup x.package_id known)) [
  | inr (y, old) ↦ absurd (ground arith)
  | inl new ↦
      let (keeps, found) = index_evidence_lem es (known ++ (x.package_id, x) ∷ []) (ground arith) in
      (
        λ k e has. keeps k e (lookup-append_some k x.package_id x known has),
        λ e m. elim m [
          | inr later ↦ found e later
          | inl same ↦
              subst (λ (z : EvidenceManifest). lookup z.package_id d ≡ some z) (sym same)
                (keeps x.package_id x (lookup-append_none x.package_id x known new))
        ],
      )
]

contains-evidence_ids :
    (e : EvidenceManifest) (es : List EvidenceManifest)
    → Among e es
    → contains e.package_id (evidence_ids es) ≡ true
contains-evidence_ids e [] m = absurd m
contains-evidence_ids e (x ∷ es) m = elim m [
  | inl same ↦
      subst (λ (z : EvidenceManifest). contains z.package_id (evidence_ids (x ∷ es)) ≡ true)
        (sym same) (ground (arith, eq_iff x.package_id x.package_id))
  | inr later ↦ ground (arith, contains-evidence_ids e es later)
]

contains-is_subset :
    (x : String) (xs ys : List String)
    → is_subset xs ys ≡ true
    → contains x xs ≡ true
    → contains x ys ≡ true
contains-is_subset x [] ys h k = absurd (cc k)
contains-is_subset x (y ∷ xs) ys h k = elim (Bool-cases (x == y)) [
  | inl same ↦
      let here : contains y ys ≡ true = ground arith in
      subst (λ z. contains z ys ≡ true) (sym ((eq_iff x y).0 same)) here
  | inr other ↦ contains-is_subset x xs ys (ground arith) (ground arith)
]

-- What an integration that returned has gone through.
record IsComplete (packages : List ImplementationWorkPackage) (evidence : List EvidenceManifest)
    (order : List String) (m : IntegrationManifest) : Type 0 where
  evidence_map : Dict EvidenceManifest
  indexed : index_evidence evidence [] ≡ ok evidence_map
  collected : Collected
  ran : collect_all (package_map packages) evidence_map order nothing_collected ≡ ok collected
  ordered : is_subset (package_ids packages) order ≡ true
  all : is_subset (evidence_ids evidence) (package_ids packages) ≡ true
  paths : m.changed_paths ≡ collected.changed_paths

integrate-IsComplete :
    (mission_id : String) (packages : List ImplementationWorkPackage)
    (evidence : List EvidenceManifest) (order : List String) {m : IntegrationManifest}
    → integrate mission_id packages evidence order ≡ ok m
    → IsComplete packages evidence order m
unfolding integrate
integrate-IsComplete mission_id packages evidence order {m} h =
    let (_, a, h₁) = >>=-eq-ok (raise_if (is_empty mission_id) mission_id_required) _ h in
    let (_, b, h₂) =
      >>=-eq-ok (raise_if (not (is_unique (package_ids packages))) duplicate_package_ids) _ h₁ in
    let (_, c, h₃) =
      >>=-eq-ok
        (raise_if
          (any (λ (p : ImplementationWorkPackage). not (p.mission_id == mission_id)) packages)
          other_mission)
        _ h₂ in
    let (_, ordered, h₄) =
      >>=-eq-ok
        (raise_if (not (is_unique order) || not (same_set order (package_ids packages)))
          order_incomplete)
        _ h₃ in
    let (evidence_map, indexed, h₅) = >>=-eq-ok (index_evidence evidence []) _ h₄ in
    let (_, complete, h₆) =
      >>=-eq-ok (raise_if (not (same_set (evidence_ids evidence) (package_ids packages))) _) _ h₅ in
    let (_, d, h₇) = >>=-eq-ok (check_dependencies order packages) _ h₆ in
    let (s, collected, h₈) =
      >>=-eq-ok (collect_all (package_map packages) evidence_map order nothing_collected) _ h₇ in
    let (_, f, h₉) =
      >>=-eq-ok (map_err manifest_error (validate_manifest (manifest_of mission_id order s))) _
        h₈ in
    let in_order =
      raise_if-eq-ok (not (is_unique order) || not (same_set order (package_ids packages)))
        order_incomplete ordered in
    let all =
      raise_if-eq-ok (not (same_set (evidence_ids evidence) (package_ids packages))) _ complete in
    record {
      evidence_map = evidence_map;
      indexed = indexed;
      collected = s;
      ran = collected;
      ordered = ground arith;
      all = ground arith;
      paths = sym (ap (λ (n : IntegrationManifest). n.changed_paths) (ok-injective h₉));
    }

-- Every piece of evidence has been taken in.
module _ (packages : List ImplementationWorkPackage) (evidence : List EvidenceManifest)
    (order : List String) (m : IntegrationManifest) (c : IsComplete packages evidence order m) where
  Evidence-IsTaken :
      (e : EvidenceManifest)
      → Among e evidence
      → IsTaken (package_map packages) c.evidence_map e.package_id c.collected
  Evidence-IsTaken e k =
      let named : contains e.package_id (package_ids packages) ≡ true =
        contains-is_subset e.package_id (evidence_ids evidence) (package_ids packages) c.all
          (contains-evidence_ids e evidence k) in
      collect_all-IsTaken (package_map packages) c.evidence_map order nothing_collected e.package_id
        c.ran (contains-is_subset e.package_id (package_ids packages) order c.ordered named)

  its_evidence : (e : EvidenceManifest) (k : Among e evidence) → (Evidence-IsTaken e k).e ≡ e
  its_evidence e k =
      some-injective
        (sym (Evidence-IsTaken e k).proven ∙ (index_evidence_lem evidence [] c.indexed).1 e k)

  owned_paths :
      (e : EvidenceManifest)
      → Among e evidence
      → (path : String) → contains path e.changed_paths ≡ true
      → (lookup path c.collected.path_owner ≡ some e.package_id)
        × (contains path c.collected.changed_paths ≡ true)
  owned_paths e k path h = (Evidence-IsTaken e k).owned path (
      subst (λ (x : EvidenceManifest). contains path x.changed_paths ≡ true)
        (sym (its_evidence e k)) h)

-- A piece of evidence in a manifest: it is accepted for its package, its paths are listed, and no other
-- package has changed them.
pub record IsIntegrated (packages : List ImplementationWorkPackage)
    (evidence : List EvidenceManifest) (m : IntegrationManifest) (e : EvidenceManifest)
    : Type 0 where
  pub p : ImplementationWorkPackage
  pub found : lookup e.package_id (package_map packages) ≡ some p
  pub findings : List EngineeringFinding
  pub checked : validate_evidence p e ≡ ok findings
  pub clean : is_nil (blockers findings) ≡ true
  pub listed :
      (path : String) → contains path e.changed_paths ≡ true → contains path m.changed_paths ≡ true
  pub sole :
      (path : String) (f : EvidenceManifest)
      → Among f evidence
      → contains path e.changed_paths ≡ true
      → contains path f.changed_paths ≡ true
      → f.package_id ≡ e.package_id

-- Where packages are integrated, every piece of evidence is of a package and has no blocking finding
-- against it; the manifest lists every path that it has changed; and no other package has changed one of
-- these paths.
pub integrate-IsIntegrated :
    (mission_id : String) (packages : List ImplementationWorkPackage)
    (evidence : List EvidenceManifest) (order : List String) {m : IntegrationManifest}
    (e : EvidenceManifest)
    → integrate mission_id packages evidence order ≡ ok m
    → Among e evidence
    → IsIntegrated packages evidence m e
integrate-IsIntegrated mission_id packages evidence order {m} e h member =
    let c = integrate-IsComplete mission_id packages evidence order h in
    let t = Evidence-IsTaken packages evidence order m c e member in
    let same = its_evidence packages evidence order m c e member in
    let owned = owned_paths packages evidence order m c in
    record {
      p = t.p;
      found = t.found;
      findings = t.findings;
      checked = subst (λ x. validate_evidence t.p x ≡ ok t.findings) same t.checked;
      clean = t.clean;
      listed = λ path k. rw c.paths (owned e member path k).1;
      sole = λ path f n k l. some-injective (sym (owned f n path l).0 ∙ (owned e member path k).0);
    }
