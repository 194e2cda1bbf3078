-- ===== src/Engineering/Integration/Taken.antt =====
-- What the loop over the order of the packages takes in (factory/engineering_pod/integration.py).
use ai_factory.Base.{
  String, true, not, ◌≡◌, ap, sym, subst, ◌∙◌, inl, inr, Option, none, some, List, [], ◌∷◌, ◌++◌,
  arith, ◌==◌, eq_iff, is_nil, contains, Bool-cases,
}
use ai_factory.Base.Result.{ok, raise_if, or_raise, >>=-eq-ok, raise_if-eq-ok}
use ai_factory.Base.Dict.{Dict, lookup}
use ai_factory.Engineering.{
  EngineeringError, ImplementationWorkPackage, EvidenceManifest, order_incomplete,
}
use ai_factory.Engineering.Evidence.{EngineeringFinding, validate_evidence}
use ai_factory.Engineering.Integration.{
  Collected, own_artifacts, own_paths, add_verifications, blockers, collect, collect_all,
}
use ai_factory.Engineering.Integration.Owned.{
  ok-injective, not-eq-false, own_paths-keeps, own_paths-owned,
}

-- A package that the loop has taken in.
record IsCollected (id : String) (p : ImplementationWorkPackage) (e : EvidenceManifest)
    (s t : Collected) : Type 0 where
  findings : List EngineeringFinding
  checked : validate_evidence p e ≡ ok findings
  clean : is_nil (blockers findings) ≡ true
  paths : own_paths id e.changed_paths s.path_owner ≡ ok t.path_owner
  listed : t.changed_paths ≡ s.changed_paths ++ e.changed_paths

collect-IsCollected :
    (id : String) (p : ImplementationWorkPackage) (e : EvidenceManifest) (s : Collected)
    {t : Collected}
    → collect id p e s ≡ ok t
    → IsCollected id p e s t
unfolding collect
collect-IsCollected id p e s h =
    let (findings, checked, h₁) = >>=-eq-ok (validate_evidence p e) _ h in
    let (_, clean, h₂) = >>=-eq-ok (raise_if (not (is_nil (blockers findings))) _) _ h₁ in
    let (artifacts, _, h₃) =
      >>=-eq-ok (own_artifacts id e.produced_artifacts s.artifact_owner) _ h₂ in
    let (paths, owned, h₄) = >>=-eq-ok (own_paths id e.changed_paths s.path_owner) _ h₃ in
    let (ids, _, h₅) =
      >>=-eq-ok (add_verifications e.verification_results s.verification_ids) _ h₄ in
    let same = ok-injective h₅ in
    record {
      findings = findings;
      checked = checked;
      clean = not-eq-false (is_nil (blockers findings)) (raise_if-eq-ok _ _ clean);
      paths = owned ∙ ap (λ (u : Collected). ok u.path_owner) same;
      listed = sym (ap (λ (u : Collected). u.changed_paths) same);
    }

contains-append_left :
    (x : String) (xs ys : List String) → contains x xs ≡ true → contains x (xs ++ ys) ≡ true
contains-append_left x [] ys h = cc
contains-append_left x (y ∷ xs) ys h = elim (Bool-cases (x == y)) [
  | inl e ↦ ground arith
  | inr e ↦ ground (arith, contains-append_left x xs ys (ground arith))
]

contains-append_right :
    (x : String) (xs ys : List String) → contains x ys ≡ true → contains x (xs ++ ys) ≡ true
contains-append_right x [] ys h = h
contains-append_right x (y ∷ xs) ys h = ground (arith, contains-append_right x xs ys h)

module _ (packages : Dict ImplementationWorkPackage) (evidence : Dict EvidenceManifest) where
  -- A step of the loop over the order.
  record IsStepped (id : String) (ids : List String) (s t : Collected) : Type 0 where
    p : ImplementationWorkPackage
    e : EvidenceManifest
    next : Collected
    found : lookup id packages ≡ some p
    proven : lookup id evidence ≡ some e
    taken : IsCollected id p e s next
    rest : collect_all packages evidence ids next ≡ ok t

  or_raise-eq-ok :
      {A : Type 0} (o : Option A) (x : EngineeringError) {a : A} → or_raise o x ≡ ok a → o ≡ some a
  or_raise-eq-ok none x h = cc
  or_raise-eq-ok (some a) x h = ap (λ z. some z) (ok-injective h)

  collect_all-IsStepped :
      (id : String) (ids : List String) (s : Collected) {t : Collected}
      → collect_all packages evidence (id ∷ ids) s ≡ ok t
      → IsStepped id ids s t
  unfolding collect_all
  collect_all-IsStepped id ids s h =
      let (p, found, h₁) = >>=-eq-ok (or_raise (lookup id packages) order_incomplete) _ h in
      let (e, proven, h₂) = >>=-eq-ok (or_raise (lookup id evidence) order_incomplete) _ h₁ in
      let (next, taken, h₃) = >>=-eq-ok (collect id p e s) _ h₂ in
      record {
        p = p;
        e = e;
        next = next;
        found = or_raise-eq-ok (lookup id packages) _ found;
        proven = or_raise-eq-ok (lookup id evidence) _ proven;
        taken = collect-IsCollected id p e s taken;
        rest = h₃;
      }

  -- The loop forgets no owner and no path.
  collect_all-keeps :
      (ids : List String) (s : Collected) {t : Collected} (path : String)
      → collect_all packages evidence ids s ≡ ok t
      → ((v : String) → lookup path s.path_owner ≡ some v → lookup path t.path_owner ≡ some v)
        × (contains path s.changed_paths ≡ true → contains path t.changed_paths ≡ true)
  unfolding collect_all
  collect_all-keeps [] s path h = (
    λ v k. subst (λ (u : Collected). lookup path u.path_owner ≡ some v) (ok-injective h) k,
    λ k. subst (λ (u : Collected). contains path u.changed_paths ≡ true) (ok-injective h) k,
  )
  collect_all-keeps (id ∷ ids) s path h =
      let x = collect_all-IsStepped id ids s h in
      let (owners, paths) = collect_all-keeps ids x.next path x.rest in
      (
        λ v k. owners v (own_paths-keeps id x.e.changed_paths s.path_owner path v x.taken.paths k),
        λ k.
            paths
              (rw x.taken.listed (contains-append_left path s.changed_paths x.e.changed_paths k)),
      )

  -- A package in the order is accepted with its evidence, owns the paths of it, and has them listed.
  pub record IsTaken (id : String) (t : Collected) : Type 0 where
    pub p : ImplementationWorkPackage
    pub e : EvidenceManifest
    pub found : lookup id packages ≡ some p
    pub proven : lookup id evidence ≡ some e
    pub findings : List EngineeringFinding
    pub checked : validate_evidence p e ≡ ok findings
    pub clean : is_nil (blockers findings) ≡ true
    pub owned :
        (path : String)
        → contains path e.changed_paths ≡ true
        → (lookup path t.path_owner ≡ some id) × (contains path t.changed_paths ≡ true)

  pub collect_all-IsTaken :
      (ids : List String) (s : Collected) {t : Collected} (id : String)
      → collect_all packages evidence ids s ≡ ok t
      → contains id ids ≡ true
      → IsTaken id t
  collect_all-IsTaken [] s id h k = absurd (cc k)
  collect_all-IsTaken (j ∷ ids) s {t} id h k =
      let x = collect_all-IsStepped j ids s h in
      elim (Bool-cases (id == j)) [
        | inr other ↦ collect_all-IsTaken ids x.next id x.rest (ground arith)
        | inl same ↦
            subst (λ i. IsTaken i t) (sym ((eq_iff id j).0 same))
              (record {
                p = x.p;
                e = x.e;
                found = x.found;
                proven = x.proven;
                findings = x.taken.findings;
                checked = x.taken.checked;
                clean = x.taken.clean;
                owned = λ path m.
                    let (owners, paths) = collect_all-keeps ids x.next path x.rest in
                    (
                      owners j
                          (own_paths-owned j x.e.changed_paths s.path_owner path x.taken.paths m),
                      paths (
                          rw x.taken.listed
                            (contains-append_right path s.changed_paths x.e.changed_paths m)),
                    );
              })
      ]
