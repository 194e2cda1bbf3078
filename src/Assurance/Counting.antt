-- ===== src/Assurance/Counting.antt =====
-- What the loop over the reports has counted, where it returns (factory/assurance_pod/validator.py).
use ai_factory.Base.{
  String, Bool, true, false, not, ◌≡◌, refl, ap, sym, ◌∙◌, Option, some, List, [], ◌∷◌, ◌++◌, ⊤,
  map, if◌then◌else◌, ◌==◌, ◌⊎◌, inl, inr, Among, Bool-cases, eq_iff, contains, some-injective,
}
use mathlib.Core.List.{append_assoc, append-nil}
use ai_factory.Base.Result.{Result, ok, err, raise_if, >>=-eq-ok, ◌>>◌}
use ai_factory.Assurance.{
  AssuranceReport, AssuranceError, mission_mismatch, not_independent, duplicate_reviewer,
  duplicate_report, validate_report,
}
use ai_factory.Assurance.Validator.{Tally, blocking_of, counted, count_report, count_reports}

-- A report that the gate takes, of this mission and not by an implementer.
pub record IsTaken (mission_id : String) (implementers : List String) (r : AssuranceReport)
    : Type 0 where
  pub valid : validate_report r ≡ ok tt
  pub of_mission : r.mission_id ≡ mission_id
  pub independent : contains r.reviewer_agent implementers ≡ false

abbrev pub AllTaken : String → List String → List AssuranceReport → Type 0
AllTaken mission_id implementers [] = ⊤
AllTaken mission_id implementers (r ∷ rs) =
    IsTaken mission_id implementers r × AllTaken mission_id implementers rs

-- No report has a blocking finding.
abbrev pub NoneBlocking : List AssuranceReport → Type 0
NoneBlocking [] = ⊤
NoneBlocking (r ∷ rs) = (blocking_of r ≡ []) × NoneBlocking rs

abbrev pub reviewers_of : List AssuranceReport → List String
reviewers_of rs = map (λ (r : AssuranceReport). r.reviewer_agent) rs

abbrev pub all_blocking : List AssuranceReport → List String
all_blocking [] = []
all_blocking (r ∷ rs) = blocking_of r ++ all_blocking rs

pub append-nil_parts : {A : Type 0} (xs ys : List A) → xs ++ ys ≡ [] → (xs ≡ []) × (ys ≡ [])
append-nil_parts [] ys h = (refl, h)
append-nil_parts (x ∷ xs) ys h = absurd (cc h)

pub all_blocking-nil : (rs : List AssuranceReport) → all_blocking rs ≡ [] → NoneBlocking rs
all_blocking-nil [] h = tt
all_blocking-nil (r ∷ rs) h =
    let (here, rest) = append-nil_parts (blocking_of r) (all_blocking rs) h in
    (here, all_blocking-nil rs rest)

-- A check and four tests that have let a value through.
pub let_through :
    {A : Type 0} (first : Result AssuranceError ⊤) (b c d e : Bool) (w x y z : AssuranceError)
    (v : A) {u : A}
    → (first >> (raise_if b w >> (raise_if c x >> (raise_if d y >> (raise_if e z >> ok v))))) ≡ ok u
    → (first ≡ ok tt) × (b ≡ false) × (c ≡ false) × (v ≡ u)
let_through (err g) b c d e w x y z v h = absurd (cc h)
let_through (ok q) true c d e w x y z v h = absurd (cc h)
let_through (ok q) false true d e w x y z v h = absurd (cc h)
let_through (ok q) false false true e w x y z v h = absurd (cc h)
let_through (ok q) false false false true w x y z v h = absurd (cc h)
let_through (ok q) false false false false w x y z v h = (refl, refl, refl, cc)

pub not-false : (b : Bool) → not b ≡ false → b ≡ true
not-false true h = refl
not-false false h = cc

pub ok-injective : {A : Type 0} {a b : A} → ◌≡◌ {A = Result AssuranceError A} (ok a) (ok b) → a ≡ b
ok-injective h = cc

-- One round of the loop that returned.
module _ (mission_id : String) (implementers : List String) where
  record IsCounted (r : AssuranceReport) (t u : Tally) : Type 0 where
    taken : IsTaken mission_id implementers r
    reviewers : u.reviewers ≡ t.reviewers ++ r.reviewer_agent ∷ []
    blocking : u.blocking ≡ t.blocking ++ blocking_of r
    qa : u.qa_report ≡ (if r.reviewer_agent == "A10-QA" then some r else t.qa_report)

  count_report-IsCounted :
      (r : AssuranceReport) (t : Tally) {u : Tally}
      → count_report mission_id implementers r t ≡ ok u
      → IsCounted r t u
  unfolding count_report
  count_report-IsCounted r t {u} h =
      let (valid, same, independent, made) =
        let_through (validate_report r) (not (r.mission_id == mission_id))
          (contains r.reviewer_agent implementers) (contains r.reviewer_agent t.reviewers)
          (contains r.report_id t.report_ids) mission_mismatch (not_independent r.reviewer_agent)
          (duplicate_reviewer r.reviewer_agent) (duplicate_report r.report_id) (counted r t) h in
      record {
        taken = record {
          valid = valid;
          of_mission =
              (eq_iff r.mission_id mission_id).0 (not-false (r.mission_id == mission_id) same);
          independent = independent;
        };
        reviewers = ap (λ (t : Tally). t.reviewers) (sym made);
        blocking = ap (λ (t : Tally). t.blocking) (sym made);
        qa = ap (λ (t : Tally). t.qa_report) (sym made);
      }

  -- What the loop leaves.
  pub record AllCounted (rs : List AssuranceReport) (t u : Tally) : Type 0 where
    pub taken : AllTaken mission_id implementers rs
    pub reviewers : u.reviewers ≡ t.reviewers ++ reviewers_of rs
    pub blocking : u.blocking ≡ t.blocking ++ all_blocking rs
    pub qa :
        (r : AssuranceReport)
        → u.qa_report ≡ some r
        → (Among r rs × (r.reviewer_agent ≡ "A10-QA")) ⊎ (t.qa_report ≡ some r)

  qa_of_round :
      (r q : AssuranceReport) (old : Option AssuranceReport)
      → (if r.reviewer_agent == "A10-QA" then some r else old) ≡ some q
      → ((q ≡ r) × (q.reviewer_agent ≡ "A10-QA")) ⊎ (old ≡ some q)
  qa_of_round r q old h = elim (Bool-cases (r.reviewer_agent == "A10-QA")) [
    | inl mine ↦
        let same : q ≡ r = some-injective (sym h ∙ ap (λ b. if b then some r else old) mine) in
        inl (
          same,
          ap (λ (r : AssuranceReport). r.reviewer_agent) same
              ∙ (eq_iff r.reviewer_agent "A10-QA").0 mine,
        )
    | inr other ↦ inr (ap (λ b. if b then some r else old) (sym other) ∙ h)
  ]

  pub count_reports-AllCounted :
      (rs : List AssuranceReport) (t : Tally) {u : Tally}
      → count_reports mission_id implementers rs t ≡ ok u
      → AllCounted rs t u
  unfolding count_reports
  count_reports-AllCounted [] t {u} h =
      let same : t ≡ u = ok-injective h in
      record {
        taken = tt;
        reviewers = ap (λ (t : Tally). t.reviewers) (sym same) ∙ sym (append-nil t.reviewers);
        blocking = ap (λ (t : Tally). t.blocking) (sym same) ∙ sym (append-nil t.blocking);
        qa = λ r e. inr (ap (λ (t : Tally). t.qa_report) same ∙ e);
      }
  count_reports-AllCounted (r ∷ rs) t {u} h =
      let (mid, first, rest) =
        >>=-eq-ok (count_report mission_id implementers r t)
          (count_reports mission_id implementers rs) h in
      let one = count_report-IsCounted r t first in
      let others = count_reports-AllCounted rs mid rest in
      record {
        taken = (one.taken, others.taken);
        reviewers =
            others.reviewers
            ∙ ap (λ l. l ++ reviewers_of rs) one.reviewers
            ∙ append_assoc t.reviewers (r.reviewer_agent ∷ []) (reviewers_of rs);
        blocking =
            others.blocking
            ∙ ap (λ l. l ++ all_blocking rs) one.blocking
            ∙ append_assoc t.blocking (blocking_of r) (all_blocking rs);
        qa = λ q e. elim (others.qa q e) [
          | inl (among, role) ↦ inl (inr among, role)
          | inr earlier ↦ elim (qa_of_round r q t.qa_report (sym one.qa ∙ earlier)) [
            | inl (same, role) ↦ inl (inl same, role)
            | inr before ↦ inr before
          ]
        ];
      }
