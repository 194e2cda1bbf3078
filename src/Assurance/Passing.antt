-- ===== src/Assurance/Passing.antt =====
-- What a decision that passes says of the reports (factory/assurance_pod/validator.py).
use ai_factory.Base.{
  String, Bool, true, false, not, ◌≡◌, refl, ap, sym, subst, ◌∙◌, Option, none, some, List, [], ◌∷◌,
  ◌++◌, ⊤, arith, map, if◌then◌else◌, ◌==◌, inl, inr, Among, Bool-cases, eq_iff, eqb, length,
  is_nil, is_empty, contains, is_unique, same_set,
}
use Prim.Native.String.{◌++◌ as concat}
use ai_factory.Base.Sorting.{sorted, sorted-nil}
use ai_factory.Base.Result.{Result, ok, err, raise_if, ◌>>=◌, ◌>>◌}
use ai_factory.Assurance.{
  assurance_roles, AssuranceReport, passed, changes_required, AssuranceDecision, AssuranceError,
  mission_required, three_reports_required, roles_missing, required_not_unique, coverage_ids,
  validate_decision,
}
use ai_factory.Assurance.Validator.{
  Tally, count_reports, empty_tally, minus, coverage_gaps, decision_of, decide,
}
use ai_factory.Assurance.Counting.{
  AllTaken, NoneBlocking, reviewers_of, append-nil_parts, all_blocking-nil, not-false, ok-injective,
  AllCounted, count_reports-AllCounted,
}

-- The end of `decide`, once the reports are counted.
ends :
    (b c : Bool) (x y : AssuranceError) (gaps : Result AssuranceError (List String))
    (made : List String → AssuranceDecision) (valid : AssuranceDecision → Result AssuranceError ⊤)
    {d : AssuranceDecision}
    → (raise_if b x >> (raise_if c y >> (gaps >>= λ g. (valid (made g) >> ok (made g))))) ≡ ok d
    → (b ≡ false) × (g : List String) × (gaps ≡ ok g) × (made g ≡ d)
ends true c x y gaps made valid h = absurd (cc h)
ends false true x y gaps made valid h = absurd (cc h)
ends false false x y (err e) made valid h = absurd (cc h)
ends false false x y (ok g) made valid h = (refl, g, refl, last (valid (made g)) h)
  where
    last : {d e : AssuranceDecision} (r : Result AssuranceError ⊤) → (r >> ok d) ≡ ok e → d ≡ e
    last (err e) h = absurd (cc h)
    last (ok u) h = ok-injective h

begins :
    {B : Type 0} (b c : Bool) (x y : AssuranceError) (counted : Result AssuranceError Tally)
    (rest : Tally → Result AssuranceError B) {d : B}
    → (raise_if b x >> (raise_if c y >> (counted >>= rest))) ≡ ok d
    → (t : Tally) × (counted ≡ ok t) × (rest t ≡ ok d)
begins true c x y counted rest h = absurd (cc h)
begins false true x y counted rest h = absurd (cc h)
begins false false x y (err e) rest h = absurd (cc h)
begins false false x y (ok t) rest h = (t, refl, h)

-- What a decision on the reports has looked at.
record IsMade (mission_id : String) (implementers required : List String)
    (reports : List AssuranceReport) (d : AssuranceDecision) : Type 0 where
  t : Tally
  counted : AllCounted mission_id implementers reports empty_tally t
  roles : same_set t.reviewers assurance_roles ≡ true
  gaps : List String
  covered : coverage_gaps required t.qa_report ≡ ok gaps
  made : decision_of mission_id t (t.blocking ++ gaps) ≡ d

decide-IsMade :
    (mission_id : String) (reports : List AssuranceReport) (implementers required : List String)
    {d : AssuranceDecision}
    → decide mission_id reports implementers required ≡ ok d
    → IsMade mission_id implementers required reports d
unfolding decide
decide-IsMade mission_id reports implementers required {d} h =
    let (t, count, rest) =
      begins (is_empty mission_id) (not (eqb (length reports) 3)) mission_required
        three_reports_required (count_reports mission_id implementers reports empty_tally) _ h in
    let (roles, g, gaps, made) =
      ends (not (same_set t.reviewers assurance_roles)) (not (is_unique required)) roles_missing
        required_not_unique (coverage_gaps required t.qa_report)
        (λ gaps. decision_of mission_id t (t.blocking ++ gaps)) validate_decision rest in
    record {
      t = t;
      counted = count_reports-AllCounted mission_id implementers reports empty_tally count;
      roles = not-false (same_set t.reviewers assurance_roles) roles;
      gaps = g;
      covered = gaps;
      made = made;
    }

-- A status of PASS leaves nothing that blocks.
nothing_blocks :
    (xs : List String) → (if is_nil xs then passed else changes_required) ≡ passed → xs ≡ []
nothing_blocks [] h = refl
nothing_blocks (x ∷ xs) h = absurd (cc h)

map-nil : (f : String → String) (xs : List String) → map f xs ≡ [] → xs ≡ []
map-nil f [] h = refl
map-nil f (x ∷ xs) h = absurd (cc h)

minus-nil :
    (c : String) (xs ys : List String)
    → minus xs ys ≡ []
    → contains c xs ≡ true
    → contains c ys ≡ true
minus-nil c [] ys h k = absurd (cc k)
minus-nil c (x ∷ xs) ys h k = elim (Bool-cases (contains x ys)) [
  | inl e ↦ elim (Bool-cases (c == x)) [
    | inl same ↦ subst (λ z. contains z ys ≡ true) (sym ((eq_iff c x).0 same)) e
    | inr other ↦ minus-nil c xs ys (ground arith) (ground arith)
  ]
  | inr e ↦ absurd (ground arith)
]

coverage_gaps-nil :
    (required : List String) (qa : Option AssuranceReport) (c : String)
    → coverage_gaps required qa ≡ ok []
    → contains c required ≡ true
    → (r : AssuranceReport) × (qa ≡ some r) × (contains c (coverage_ids r) ≡ true)
unfolding coverage_gaps
coverage_gaps-nil [] qa c h k = absurd (cc k)
coverage_gaps-nil (x ∷ xs) none c h k = absurd (cc h)
coverage_gaps-nil (x ∷ xs) (some r) c h k =
    elim (Bool-cases (is_nil (sorted (minus (coverage_ids r) (x ∷ xs))))) [
      | inr known ↦ absurd (ground arith)
      | inl known ↦
          let gaps = sorted (minus (x ∷ xs) (coverage_ids r)) in
          let none_left : map (λ x. concat "QA-COVERAGE-" x) gaps ≡ [] = ground arith in
          (
            r,
            refl,
            minus-nil c (x ∷ xs) (coverage_ids r)
                (sorted-nil (minus (x ∷ xs) (coverage_ids r))
                  (map-nil (λ x. concat "QA-COVERAGE-" x) gaps none_left))
                k,
          )
    ]

-- What a decision to pass rests on.
pub record IsPassed (mission_id : String) (implementers required : List String)
    (reports : List AssuranceReport) : Type 0 where
  pub all_taken : AllTaken mission_id implementers reports
  pub every_role : same_set (reviewers_of reports) assurance_roles ≡ true
  pub none_blocking : NoneBlocking reports
  pub all_covered :
      (c : String)
      → contains c required ≡ true
      → (r : AssuranceReport) × Among r reports
        × (r.reviewer_agent ≡ "A10-QA")
        × (contains c (coverage_ids r) ≡ true)

-- The gate decides PASS only where every report is valid, is of the mission, and is by a reviewer who is
-- not an implementer; the reviewers are those of security, quality and the red team; no report has a
-- blocking finding; and every required criterion is covered by the report of quality.
pub decide-IsPassed :
    (mission_id : String) (reports : List AssuranceReport) (implementers required : List String)
    {d : AssuranceDecision}
    → decide mission_id reports implementers required ≡ ok d
    → d.status ≡ passed
    → IsPassed mission_id implementers required reports
decide-IsPassed mission_id reports implementers required {d} h pass =
    let m = decide-IsMade mission_id reports implementers required h in
    let clear : m.t.blocking ++ m.gaps ≡ [] =
      nothing_blocks (m.t.blocking ++ m.gaps)
        (ap (λ (d : AssuranceDecision). d.status) m.made ∙ pass) in
    let (none_blocks, no_gaps) = append-nil_parts m.t.blocking m.gaps clear in
    record {
      all_taken = m.counted.taken;
      every_role = subst (λ l. same_set l assurance_roles ≡ true) m.counted.reviewers m.roles;
      none_blocking = all_blocking-nil reports (sym m.counted.blocking ∙ none_blocks);
      all_covered = λ c wanted.
          let (r, of_qa, covers) =
            coverage_gaps-nil required m.t.qa_report c (m.covered ∙ ap (λ g. ok g) no_gaps)
              wanted in
          elim (m.counted.qa r of_qa) [
            | inl (among, role) ↦ (r, among, role, covers)
            | inr before ↦ absurd (cc before)
          ];
    }
