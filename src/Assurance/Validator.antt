-- ===== src/Assurance/Validator.antt =====
-- factory/assurance_pod/validator.py: the gate on the three reports.
use ai_factory.Base.{
  String, not, Option, none, some, List, [], ◌∷◌, ◌++◌, map, if◌then◌else◌, eqb, ◌==◌, is_nil,
  is_empty, select, contains, is_unique, same_set, length,
}
use ai_factory.Base.Text.{joined}
use Prim.Native.String.{◌++◌ as concat}
use ai_factory.Base.Sorting.{sorted, distinct}
use ai_factory.Base.Result.{Result, ok, err, raise_if, ◌>>=◌, ◌>>◌}
use ai_factory.Assurance.{
  assurance_roles, AssuranceFinding, AssuranceReport, passed, changes_required, AssuranceDecision,
  AssuranceError, mission_required, three_reports_required, mission_mismatch, not_independent,
  duplicate_reviewer, duplicate_report, unknown_criteria, roles_missing, required_not_unique,
  qa_report_required, coverage_ids, validate_report, validate_decision,
}

-- The loop's variables.
pub record Tally : Type 0 where
  pub reviewers : List String
  pub report_ids : List String
  pub blocking : List String
  pub qa_report : Option AssuranceReport

-- The identifiers of a report's blocking findings.
abbrev pub blocking_of : AssuranceReport → List String
blocking_of r =
    map (λ (f : AssuranceFinding). f.finding_id)
      (select (λ (f : AssuranceFinding). f.blocking) r.findings)

-- What a round adds.
abbrev pub counted : AssuranceReport → Tally → Tally
counted r t = record {
  reviewers = t.reviewers ++ r.reviewer_agent ∷ [];
  report_ids = t.report_ids ++ r.report_id ∷ [];
  blocking = t.blocking ++ blocking_of r;
  qa_report = if r.reviewer_agent == "A10-QA" then some r else t.qa_report;
}

-- One round of the loop over the reports.
unfoldable pub count_report :
    String → List String → AssuranceReport → Tally → Result AssuranceError Tally
count_report mission_id implementers r t = do
  validate_report r
  raise_if (not (r.mission_id == mission_id)) mission_mismatch
  raise_if (contains r.reviewer_agent implementers) (not_independent r.reviewer_agent)
  raise_if (contains r.reviewer_agent t.reviewers) (duplicate_reviewer r.reviewer_agent)
  raise_if (contains r.report_id t.report_ids) (duplicate_report r.report_id)
  ok (counted r t)

unfoldable pub count_reports :
    String → List String → List AssuranceReport → Tally → Result AssuranceError Tally
unfolding count_report
count_reports mission_id implementers [] t = ok t
count_reports mission_id implementers (r ∷ rs) t =
    count_report mission_id implementers r t >>= count_reports mission_id implementers rs

abbrev pub empty_tally : Tally
empty_tally = record { reviewers = []; report_ids = []; blocking = []; qa_report = none }

-- The members of the first list that are not in the second.
abbrev pub minus : List String → List String → List String
minus xs ys = select (λ x. not (contains x ys)) xs

-- The gaps in the coverage of the required criteria, as finding identifiers.
unfoldable pub coverage_gaps :
    List String → Option AssuranceReport → Result AssuranceError (List String)
coverage_gaps [] qa = ok []
coverage_gaps (c ∷ cs) none = err qa_report_required
coverage_gaps (c ∷ cs) (some r) =
    let unknown = sorted (minus (coverage_ids r) (c ∷ cs)) in
    if is_nil unknown
    then ok (map (λ x. concat "QA-COVERAGE-" x) (sorted (minus (c ∷ cs) (coverage_ids r))))
    else err (unknown_criteria (joined "," unknown))

-- The decision on what was counted.
abbrev pub decision_of : String → Tally → List String → AssuranceDecision
decision_of mission_id t blocking = record {
  mission_id = mission_id;
  status = if is_nil blocking then passed else changes_required;
  reviewer_agents = sorted t.reviewers;
  blocking_finding_ids = sorted (distinct blocking);
  report_ids = sorted t.report_ids;
}

-- `decide`
unfoldable pub decide :
    String
    → List AssuranceReport
    → List String
    → List String
    → Result AssuranceError AssuranceDecision
unfolding count_reports coverage_gaps validate_decision
decide mission_id reports implementers required = do
  raise_if (is_empty mission_id) mission_required
  raise_if (not (eqb (length reports) 3)) three_reports_required
  t ← count_reports mission_id implementers reports empty_tally
  raise_if (not (same_set t.reviewers assurance_roles)) roles_missing
  raise_if (not (is_unique required)) required_not_unique
  gaps ← coverage_gaps required t.qa_report
  let decision = decision_of mission_id t (t.blocking ++ gaps)
  validate_decision decision
  ok decision
