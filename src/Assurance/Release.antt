-- ===== src/Assurance/Release.antt =====
-- What the lifecycle of assurance lets through (factory/assurance_pod/lifecycle.py).
use ai_factory.Base.{
  ℕ, ◌+◌, ◌≤◌, ◌<◌, String, true, false, not, ◌≡◌, ◌≢◌, refl, ap, sym, subst, ◌∙◌, List, [], ◌∷◌,
  arith, ◌==◌, ◌⊎◌, inl, inr, eq_iff, leb, length, String-discrete,
}
use ai_factory.Base.Result.{Result, ok, raise_if, >>=-eq-ok, raise_if-eq-ok, Result-cases, ◌>>=◌}
use ai_factory.Assurance.{
  AssuranceReport, Status, passed, changes_required, is_passed, AssuranceDecision, AssuranceError,
  mission_mismatch, stale_assurance, remediation_not_required, budget_exhausted, no_subject_change,
  blocked_release, subject_changed, validate_decision,
}
use ai_factory.Assurance.Validator.{decide}
use ai_factory.Assurance.Counting.{not-false, ok-injective}
use ai_factory.Assurance.Passing.{IsPassed, decide-IsPassed}
use ai_factory.Assurance.Lifecycle.{
  IntegrationManifest, validate_manifest, AssuranceCycleRecord, validate_cycle,
  integration_fingerprint, cycle_of, record_cycle, re_review, assert_release_ready,
}

-- Two manifests with one digest.
pub record Collision (digest : IntegrationManifest → String) : Type 0 where
  pub this : IntegrationManifest
  pub that : IntegrationManifest
  pub differ : this ≢ that
  pub collide : digest this ≡ digest that

Manifest-discrete : Discrete IntegrationManifest
Manifest-discrete = hlevel (String-discrete)

is_passed-eq : (s : Status) → is_passed s ≡ true → s ≡ passed
is_passed-eq passed h = refl
is_passed-eq changes_required h = cc

module _ (digest : IntegrationManifest → String) where
  fingerprint-digest :
      (m : IntegrationManifest) {f : String}
      → integration_fingerprint digest m ≡ ok f
      → f ≡ digest m
  unfolding integration_fingerprint
  fingerprint-digest m {f} h = elim (Result-cases (validate_manifest m)) [
    | inl (u, e) ↦ sym (ground arith)
    | inr (x, e) ↦ absurd (ground arith)
  ]

  -- The record that a cycle leaves.
  record_cycle-made :
      (cycle_id : String) (m : IntegrationManifest) (d : AssuranceDecision) (attempt : ℕ)
      {c : AssuranceCycleRecord}
      → record_cycle digest cycle_id m d attempt ≡ ok c
      → c ≡ cycle_of digest cycle_id m d attempt (digest m)
  unfolding record_cycle
  record_cycle-made cycle_id m d attempt {c} h =
      let (u, valid, h1) = >>=-eq-ok (validate_decision d) _ h in
      let (v, same, h2) =
        >>=-eq-ok (raise_if (not (d.mission_id == m.mission_id)) mission_mismatch) _ h1 in
      let (f, print, h3) = >>=-eq-ok (integration_fingerprint digest m) _ h2 in
      let (w, checked, h4) =
        >>=-eq-ok (validate_cycle (cycle_of digest cycle_id m d attempt f)) _ h3 in
      sym (ok-injective h4)
      ∙ ap (λ f. cycle_of digest cycle_id m d attempt f) (fingerprint-digest m print)

  -- What a release that goes through has looked at.
  release_checked :
      (c : AssuranceCycleRecord) (m : IntegrationManifest)
      → assert_release_ready digest c m ≡ ok tt
      → (c.stale ≡ false) × (c.decision_status ≡ passed) × (c.subject_fingerprint ≡ digest m)
  unfolding assert_release_ready
  release_checked c m h =
      let (u, valid, h1) = >>=-eq-ok (validate_cycle c) _ h in
      let (v, fresh, h2) = >>=-eq-ok (raise_if c.stale stale_assurance) _ h1 in
      let (w, pass, h3) =
        >>=-eq-ok (raise_if (not (is_passed c.decision_status)) blocked_release) _ h2 in
      let (f, print, h4) = >>=-eq-ok (integration_fingerprint digest m) _ h3 in
      (
        raise_if-eq-ok c.stale stale_assurance fresh,
        is_passed-eq c.decision_status (
            not-false (is_passed c.decision_status)
              (raise_if-eq-ok (not (is_passed c.decision_status)) blocked_release pass)),
        (eq_iff c.subject_fingerprint f).0 (
              not-false (c.subject_fingerprint == f)
                (raise_if-eq-ok (not (c.subject_fingerprint == f)) subject_changed h4))
            ∙ fingerprint-digest m print,
      )

  -- What a further review that goes through has looked at, and what it leaves.
  pub record IsReviewedAgain (max_attempts : ℕ) (previous stale current : AssuranceCycleRecord)
      : Type 0 where
    pub in_budget : previous.attempt < max_attempts
    pub next_attempt : current.attempt ≡ previous.attempt + 1
    pub blocked_before : previous.decision_status ≡ changes_required
    pub corrected : (current.subject_fingerprint == previous.subject_fingerprint) ≡ false
    pub fresh : current.stale ≡ false
    pub superseded : stale.stale ≡ true

  not_passed : (s : Status) → is_passed s ≡ false → s ≡ changes_required
  not_passed changes_required h = refl
  not_passed passed h = cc

  pub re_review-IsReviewedAgain :
      (max_attempts : ℕ) (previous : AssuranceCycleRecord) (m : IntegrationManifest)
      (d : AssuranceDecision) (cycle_id : String) {stale current : AssuranceCycleRecord}
      → re_review digest max_attempts previous m d cycle_id ≡ ok (stale, current)
      → IsReviewedAgain max_attempts previous stale current
  unfolding re_review
  re_review-IsReviewedAgain max_attempts previous m d cycle_id {stale} {current} h =
      let (u1, valid, h1) = >>=-eq-ok (validate_cycle previous) _ h in
      let (u2, fresh, h2) = >>=-eq-ok (raise_if previous.stale stale_assurance) _ h1 in
      let (u3, blocked, h3) =
        >>=-eq-ok (raise_if (is_passed previous.decision_status) remediation_not_required) _ h2 in
      let (u4, budget, h4) =
        >>=-eq-ok (raise_if (leb max_attempts previous.attempt) budget_exhausted) _ h3 in
      let (u5, mission, h5) =
        >>=-eq-ok (raise_if (not (m.mission_id == previous.mission_id)) mission_mismatch) _ h4 in
      let (f, print, h6) = >>=-eq-ok (integration_fingerprint digest m) _ h5 in
      let (u6, changed, h7) =
        >>=-eq-ok (raise_if (f == previous.subject_fingerprint) no_subject_change) _ h6 in
      let (c, cycle, h8) =
        >>=-eq-ok (record_cycle digest cycle_id m d (previous.attempt + 1)) _ h7 in
      let pair : ◌≡◌ {A = AssuranceCycleRecord × AssuranceCycleRecord}
          (record previous { stale = true }, c) (stale, current) =
        ok-injective h8 in
      let made : current ≡ cycle_of digest cycle_id m d (previous.attempt + 1) (digest m) =
        sym (ap (λ (p : AssuranceCycleRecord × AssuranceCycleRecord). p.1) pair)
        ∙ record_cycle-made cycle_id m d (previous.attempt + 1) cycle in
      let unchanged =
        raise_if-eq-ok (f == previous.subject_fingerprint) no_subject_change changed in
      record {
        in_budget =
            ground
              (arith, raise_if-eq-ok (leb max_attempts previous.attempt) budget_exhausted budget);
        next_attempt = ap (λ (c : AssuranceCycleRecord). c.attempt) made;
        blocked_before =
            not_passed previous.decision_status (
              raise_if-eq-ok (is_passed previous.decision_status) remediation_not_required blocked);
        corrected =
            subst (λ x. (x == previous.subject_fingerprint) ≡ false)
              (fingerprint-digest m print
                ∙ sym (ap (λ (c : AssuranceCycleRecord). c.subject_fingerprint) made))
              unchanged;
        fresh = ap (λ (c : AssuranceCycleRecord). c.stale) made;
        superseded = sym (ap (λ (p : AssuranceCycleRecord × AssuranceCycleRecord). p.0.stale) pair);
      }

  -- One correction after another: each is reviewed again on the record that the one before left.
  unfoldable pub re_reviews :
      ℕ
      → AssuranceCycleRecord
      → List (IntegrationManifest × AssuranceDecision × String)
      → Result AssuranceError AssuranceCycleRecord
  re_reviews max_attempts c [] = ok c
  re_reviews max_attempts c ((m, d, cycle_id) ∷ rest) =
      re_review digest max_attempts c m d cycle_id >>= λ records.
      re_reviews max_attempts records.1 rest

  re_reviews-attempts :
      (max_attempts : ℕ) (c : AssuranceCycleRecord)
      (rounds : List (IntegrationManifest × AssuranceDecision × String))
      {last : AssuranceCycleRecord}
      → c.attempt ≤ max_attempts
      → re_reviews max_attempts c rounds ≡ ok last
      → (last.attempt ≡ c.attempt + length rounds) × (last.attempt ≤ max_attempts)
  unfolding re_reviews
  re_reviews-attempts max_attempts c [] {last} le h =
      let same : c ≡ last = ok-injective h in
      (
        ground (arith, ap (λ (c : AssuranceCycleRecord). c.attempt) same),
        ground (arith, ap (λ (c : AssuranceCycleRecord). c.attempt) same),
      )
  re_reviews-attempts max_attempts c ((m, d, cycle_id) ∷ rest) {last} le h =
      let (records, first, later) =
        >>=-eq-ok (re_review digest max_attempts c m d cycle_id)
          (λ records. re_reviews max_attempts records.1 rest) h in
      let r =
        re_review-IsReviewedAgain max_attempts c m d cycle_id {stale = records.0}
          {current = records.1} first in
      let tail =
        re_reviews-attempts max_attempts records.1 rest (omega (arith, r.in_budget, r.next_attempt))
          later in
      (omega (arith, tail.0, r.next_attempt), tail.1)

-- However often a correction is reviewed again, each time on the record that the review before left, the
-- attempts are counted one by one, and never exceed the budget, if the first is in it: from a first
-- attempt, fewer further reviews go through than the budget has attempts.
pub re_reviews_bounded :
    (digest : IntegrationManifest → String) (max_attempts : ℕ) (c : AssuranceCycleRecord)
    (rounds : List (IntegrationManifest × AssuranceDecision × String)) {last : AssuranceCycleRecord}
    → c.attempt ≤ max_attempts
    → re_reviews digest max_attempts c rounds ≡ ok last
    → (last.attempt ≡ c.attempt + length rounds) × (c.attempt + length rounds ≤ max_attempts)
re_reviews_bounded digest max_attempts c rounds {last} le h =
    let (counted, bounded) = re_reviews-attempts digest max_attempts c rounds le h in
    (counted, omega (arith, counted, bounded))

-- Where a release goes through on the record of a cycle, the cycle's decision passed, by the gate's rules;
-- and what is released is the manifest that was reviewed, or two manifests have one digest.
pub release-IsPassed :
    (digest : IntegrationManifest → String) (mission_id cycle_id : String)
    (reports : List AssuranceReport) (implementers required : List String)
    (reviewed released : IntegrationManifest) (attempt : ℕ) {d : AssuranceDecision}
    {c : AssuranceCycleRecord}
    → decide mission_id reports implementers required ≡ ok d
    → record_cycle digest cycle_id reviewed d attempt ≡ ok c
    → assert_release_ready digest c released ≡ ok tt
    → IsPassed mission_id implementers required reports × ((released ≡ reviewed) ⊎ Collision digest)
release-IsPassed digest mission_id cycle_id reports implementers required reviewed released attempt
      {d} {c} decided cycle ready =
    let made = record_cycle-made digest cycle_id reviewed d attempt cycle in
    let (fresh, status, print) = release_checked digest c released ready in
    let pass : d.status ≡ passed =
      sym (ap (λ (c : AssuranceCycleRecord). c.decision_status) made) ∙ status in
    let prints : digest released ≡ digest reviewed =
      sym print ∙ ap (λ (c : AssuranceCycleRecord). c.subject_fingerprint) made in
    (
      decide-IsPassed mission_id reports implementers required decided pass,
      elim (Manifest-discrete released reviewed) [
        | yes same ↦ inl same
        | no differ ↦
            inr (record { this = released; that = reviewed; differ = differ; collide = prints })
      ],
    )
