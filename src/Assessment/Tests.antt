-- ===== src/Assessment/Tests.antt =====
-- Results of one rule on one bucket, from both perspectives, before and after a deployment.
use kosa_aws.Assessment.Comparison.{
  ComparisonAssessment, PlannedEvaluation, comparison_reasons, resolution_of, resolved,
  rubric_version_mismatch,
}
use kosa_aws.Assessment.Comparison.Eligible.{Comparable, comparison_reasons-Comparable}
use kosa_aws.Assessment.Comparison.Resolved.{Claims, resolution_of_iff}
use kosa_aws.Assessment.Drift.{Key, decision, derive_drift_results, has_key}
use kosa_aws.Assessment.Drift.Decided.{Decides, SameOrigin, decision-fail_iff, decision-symmetric}
use kosa_aws.Assessment.Drift.Keys.{Compares, Distinct, derive_drift_results-Compares, keys_of}
use kosa_aws.Assessment.ManualReview.{
  governance_assessment_resource_type, manual_result, manual_review_evaluator,
}
use kosa_aws.Assessment.ManualReview.Recorded.{evaluate_resource-manual}
use kosa_aws.Assessment.Readiness.{
  ReadinessScore, calculate_readiness_score, has_no_duplicates, severity_weight,
}
use kosa_aws.Assessment.Readiness.Bounds.{Scores, calculate_readiness_score-Scores}
use kosa_aws.Assessment.Readiness.Rounding.{nearest, nearest-Rounds}
use kosa_aws.Assessment.Results.{EvaluationResult, by_code}
use kosa_aws.Assessment.Runner.{
  Evaluator, ModelProfile, evaluate_resource, execution_error_result, failed_perspective,
}
use kosa_aws.Assessment.Runner.Answered.{Answers, evaluate_resource-Answers}
use kosa_aws.Base.{
  List, Option, [], false, is_blank, is_empty, none, refl, some, true, ◌*◌, ◌||◌, ◌↔◌, ◌∷◌, ◌≡◌,
  ◌⊎◌,
}
use kosa_aws.Errors.{ok}
use kosa_aws.Evidence.Binding.{aws_actual, drift_view, iac}
use kosa_aws.Evidence.Verdict.{execution_error, fail, manual_review_needed, pass}
use kosa_aws.Policy.Context.{PolicyContext}
use kosa_aws.Policy.Rules.{AssessmentPhase, PolicyRule, manual_type, medium}

abbrev iac_result : EvaluationResult
iac_result = record {
  resource_id = "bucket";
  rule_id = "S3-1";
  rule_version = "1";
  perspective = iac;
  status = pass;
  severity = "HIGH";
  score = 100;
  evidence_references = "s3.tf" ∷ [];
  rubric_version = "r1";
  model_profile_id = "m1";
  decided_by = by_code;
}

abbrev actual_result : EvaluationResult
actual_result = record iac_result {
  perspective = aws_actual;
  status = fail;
  score = 0;
  evidence_references = "aws://bucket" ∷ "s3.tf" ∷ [];
}

abbrev drifted : EvaluationResult
drifted = record iac_result {
  perspective = drift_view;
  status = fail;
  score = 0;
  evidence_references = "s3.tf" ∷ "aws://bucket" ∷ [];
}

test_drift : derive_drift_results (iac_result ∷ []) (actual_result ∷ []) ≡ ok (drifted ∷ [])
unfolding derive_drift_results
test_drift = refl

derive_drift_results-Compares_example :
    (ks : List Key) × Compares (iac_result ∷ []) (actual_result ∷ []) ks (drifted ∷ [])
    × Distinct ks
    × ((k : Key)
        → has_key ks k
          ≡ (has_key (keys_of (iac_result ∷ [])) k || has_key (keys_of (actual_result ∷ [])) k))
derive_drift_results-Compares_example =
    derive_drift_results-Compares (iac_result ∷ []) (actual_result ∷ []) test_drift

decision-fail_iff_example : ((decision (some iac_result) (some actual_result)).0 ≡ fail) ↔ (
    SameOrigin (some iac_result) (some actual_result)
    × ((Decides (some iac_result) true × Decides (some actual_result) false)
        ⊎ (Decides (some iac_result) false × Decides (some actual_result) true)))
decision-fail_iff_example = decision-fail_iff (some iac_result) (some actual_result)

decision-symmetric_example :
    decision (some iac_result) (some actual_result)
    ≡ decision (some actual_result) (some iac_result)
decision-symmetric_example = decision-symmetric (some iac_result) (some actual_result)

resolution_of_iff_example :
    (resolution_of (some actual_result) (some iac_result) ≡ some resolved)
    ↔ Claims (some resolved) (some actual_result) (some iac_result)
resolution_of_iff_example = resolution_of_iff (some resolved) (some actual_result) (some iac_result)

test_resolved : resolution_of (some actual_result) (some iac_result) ≡ some resolved
unfolding resolution_of
test_resolved = refl

-- A finding of an open review that passes afterwards is not claimed resolved.
test_reviewed :
    resolution_of (some (record actual_result { status = manual_review_needed })) (some iac_result)
    ≡ none
unfolding resolution_of
test_reviewed = refl

abbrev coordinate : PlannedEvaluation
coordinate = record { resource_id = "bucket"; rule_id = "S3-1"; perspective = iac }

abbrev assessed : ComparisonAssessment
assessed = record {
  model_profile_id = "m1";
  rubric_version = "r1";
  planned_evaluations = coordinate ∷ [];
  has_readiness_score = true;
}

abbrev reassessed : ComparisonAssessment
reassessed = record assessed { rubric_version = "r2" }

test_reasons : comparison_reasons assessed reassessed ≡ rubric_version_mismatch ∷ []
unfolding comparison_reasons
test_reasons = refl

comparison_reasons-Comparable_example :
    (is_empty (comparison_reasons assessed reassessed) ≡ true) ↔ Comparable assessed reassessed
comparison_reasons-Comparable_example = comparison_reasons-Comparable assessed reassessed

abbrev planned_coordinates : List PlannedEvaluation
planned_coordinates = coordinate ∷ (record coordinate { perspective = aws_actual } ∷ [])

abbrev half_score : ReadinessScore
half_score = record {
  score = 5000;
  evaluated_evaluations = 2;
  undetermined_evaluations = 0;
  errored_evaluations = 0;
}

test_score :
    calculate_readiness_score nearest (iac_result ∷ (actual_result ∷ [])) planned_coordinates
    ≡ ok (some half_score)
unfolding calculate_readiness_score
test_score = refl

-- A coordinate without a result holds the score back.
test_unfinished : calculate_readiness_score nearest (iac_result ∷ []) planned_coordinates ≡ ok none
unfolding calculate_readiness_score
test_unfinished = refl

-- A failed evaluation completes its coordinate and stays out of the average.
test_errored :
    calculate_readiness_score nearest
      (iac_result ∷ (record actual_result { status = execution_error } ∷ []))
      planned_coordinates
    ≡ ok (
        some (record {
          score = 10000;
          evaluated_evaluations = 1;
          undetermined_evaluations = 0;
          errored_evaluations = 1;
        }))
unfolding calculate_readiness_score
test_errored = refl

test_weight : severity_weight "HIGH" ≡ ok 4
unfolding severity_weight
test_weight = refl

test_distinct : has_no_duplicates planned_coordinates ≡ true
unfolding has_no_duplicates
test_distinct = refl

-- One low failure among very many passes is rounded away.
test_rounded_up : nearest (100 * 30000) 30001 ≡ 10000
test_rounded_up = refl

calculate_readiness_score-Scores_example :
    (s : Option ReadinessScore) × (calculate_readiness_score nearest
        (iac_result ∷ (actual_result ∷ []))
        planned_coordinates
      ≡ ok s)
    × Scores nearest (iac_result ∷ (actual_result ∷ [])) planned_coordinates s
calculate_readiness_score-Scores_example =
    calculate_readiness_score-Scores nearest nearest-Rounds (iac_result ∷ (actual_result ∷ []))
      planned_coordinates refl test_distinct ((4, test_weight), ((4, test_weight), tt))

abbrev review_rule : PolicyRule
review_rule = record {
  rule_id = "GOV-1";
  version = "1";
  title = "Review access";
  severity = medium;
  applicable_phases = AssessmentPhase.initial ∷ [];
  resource_types = governance_assessment_resource_type ∷ [];
  source_references =
      record { source_id = "isms"; source_version = "3"; locator = "2.5.1"; content_sha256 = "d2" }
      ∷ [];
  control_key = some "ACCESS_REVIEW";
  control_catalog_version = some "1";
  evaluation_type = some manual_type;
  applicability_semantics = none;
  required_evidence = [];
  optional_evidence = [];
  evaluation_rubric = none;
  severity_guidance = none;
  exception_semantics = none;
  compensating_control_semantics = none;
}

abbrev governance_context : PolicyContext
governance_context = record {
  policy_profile_id = "baseline";
  policy_profile_version = "7";
  phase = AssessmentPhase.initial;
  resource_type = governance_assessment_resource_type;
  rules = review_rule ∷ [];
}

abbrev model_profile : ModelProfile
model_profile = record { model_profile_id = "m1"; rubric_version = "r1" }

-- An evaluator that answers for another resource, which the runner does not accept.
abbrev stray_evaluator : Evaluator
stray_evaluator = record { perspective = some iac; evaluate = λ _ _ _ _. ok iac_result }

test_stray :
    evaluate_resource none stray_evaluator "repo" governance_context model_profile
    ≡ ok (execution_error_result "repo" review_rule iac model_profile ∷ [])
unfolding evaluate_resource
test_stray = refl

test_perspective : failed_perspective none stray_evaluator ≡ some iac
unfolding failed_perspective
test_perspective = refl

test_repo : is_blank "repo" ≡ false
unfolding is_blank
test_repo = refl

evaluate_resource-Answers_example :
    (results : List EvaluationResult) × (evaluate_resource none stray_evaluator "repo"
        governance_context model_profile
      ≡ ok results)
    × Answers none stray_evaluator "repo" governance_context model_profile
        (review_rule ∷ [])
        results
evaluate_resource-Answers_example =
    evaluate_resource-Answers none stray_evaluator "repo" governance_context model_profile iac
      test_perspective test_repo (λ rule listed e wrong. absurd (cc wrong))

evaluate_resource-manual_example :
    evaluate_resource none manual_review_evaluator "repo" governance_context model_profile
    ≡ ok (manual_result "repo" review_rule model_profile ∷ [])
evaluate_resource-manual_example =
    evaluate_resource-manual "repo" governance_context model_profile refl test_repo (refl, tt)
