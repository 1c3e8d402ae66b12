-- ===== src/Assessment/Readiness.antt =====
-- apps/backend/assessment/readiness.py, with `ReadinessScore` of packages/contracts/assessments.py. A score is
-- kept in hundredths; `round_two a b` stands for the hundredths of Python's `round(a / b, 2)`.
pub mod Rounding
pub mod Sums
pub mod Bounds
use kosa_aws.Assessment.Comparison.{PlannedEvaluation, plans_coordinate, same_plan}
use kosa_aws.Assessment.Results.{EvaluationResult}
use kosa_aws.Assessment.Runner.{score_for_status}
use kosa_aws.Base.{
  Bool, List, Option, String, [], false, filter, if◌then◌else◌, is_empty, leb, length, ltb, map,
  nat_eq, none, not, some, true, ℕ, ◌&&◌, ◌*◌, ◌+◌, ◌==◌, ◌∷◌,
}
use kosa_aws.Errors.{Result, err, ok, require, value_error, ◌>>=◌, ◌>>◌}
use kosa_aws.Evidence.Binding.{EvaluationPerspective, drift_view, manual}
use kosa_aws.Evidence.Verdict.{
  EvaluationStatus, execution_error, fail, insufficient_evidence, manual_review_needed,
  out_of_scope, pass,
}

pub record ReadinessScore : Type 0 where
  pub score : ℕ
  pub evaluated_evaluations : ℕ
  pub undetermined_evaluations : ℕ
  pub errored_evaluations : ℕ

-- `ReadinessScore.__post_init__`: a score between 0 and 100 that rests on an evaluation.
unfoldable pub score_post_init : ReadinessScore → Result ReadinessScore
score_post_init score = do
  require (leb score.score 10000) value_error
  require (ltb 0 score.evaluated_evaluations) value_error
  ok score

-- `_SEVERITY_WEIGHTS[severity]`
unfoldable pub severity_weight : String → Result ℕ
severity_weight severity =
    if severity == "LOW"
    then ok 1
    else if severity == "MEDIUM"
    then ok 2
    else if severity == "HIGH"
    then ok 4
    else if severity == "CRITICAL"
    then ok 8
    else err value_error

-- `result.status not in _NON_SCORING_STATUSES`
unfoldable pub is_scoring_status : EvaluationStatus → Bool
is_scoring_status out_of_scope = false
is_scoring_status execution_error = false
is_scoring_status _ = true

-- `result.perspective not in _NON_SCORING_PERSPECTIVES`
unfoldable pub is_scoring_perspective : EvaluationPerspective → Bool
is_scoring_perspective drift_view = false
is_scoring_perspective manual = false
is_scoring_perspective _ = true

-- `status in STATUS_SCORES`
unfoldable pub is_judged : EvaluationStatus → Bool
is_judged pass = true
is_judged fail = true
is_judged _ = false

-- `status in _UNDETERMINED_STATUSES`
unfoldable pub is_undetermined : EvaluationStatus → Bool
is_undetermined insufficient_evidence = true
is_undetermined manual_review_needed = true
is_undetermined _ = false

abbrev pub is_errored : EvaluationResult → Bool
is_errored r = elim r.status [ execution_error ↦ true | _ ↦ false ]

unfoldable pub candidates : List EvaluationResult → List EvaluationResult
unfolding is_scoring_status is_scoring_perspective
candidates results =
    filter (λ r. is_scoring_status r.status && is_scoring_perspective r.perspective) results

unfoldable pub judged_results : List EvaluationResult → List EvaluationResult
unfolding candidates is_judged
judged_results results = filter (λ r. is_judged r.status) (candidates results)

unfoldable pub undetermined_results : List EvaluationResult → List EvaluationResult
unfolding candidates is_undetermined
undetermined_results results = filter (λ r. is_undetermined r.status) (candidates results)

-- `sum(_SEVERITY_WEIGHTS[result.severity] for result in judged)`
unfoldable pub total_weight_of : List EvaluationResult → Result ℕ
unfolding severity_weight
total_weight_of [] = ok 0
total_weight_of (r ∷ rs) = do
  weight ← severity_weight r.severity
  rest ← total_weight_of rs
  ok (weight + rest)

-- `sum(STATUS_SCORES[result.status] * _SEVERITY_WEIGHTS[result.severity] for result in judged)`
unfoldable pub weighted_score_of : List EvaluationResult → Result ℕ
unfolding severity_weight score_for_status
weighted_score_of [] = ok 0
weighted_score_of (r ∷ rs) = do
  weight ← severity_weight r.severity
  rest ← weighted_score_of rs
  ok (score_for_status r.status * weight + rest)

unfoldable pub coordinate_of : EvaluationResult → PlannedEvaluation
coordinate_of r = record {
  resource_id = r.resource_id;
  rule_id = r.rule_id;
  perspective = r.perspective;
}

-- `len(planned) == len(planned_evaluations)`
unfoldable pub has_no_duplicates : List PlannedEvaluation → Bool
unfolding plans_coordinate
has_no_duplicates [] = true
has_no_duplicates (p ∷ ps) = not (plans_coordinate ps p) && has_no_duplicates ps

module _ (round_two : ℕ → ℕ → ℕ) where
  -- The end of the calculation, on the results that were judged.
  unfoldable pub score_of : List EvaluationResult → ℕ → ℕ → Result (Option ReadinessScore)
  unfolding total_weight_of weighted_score_of score_post_init
  score_of [] undetermined errored = ok none
  score_of (r ∷ rs) undetermined errored = do
    total_weight ← total_weight_of (r ∷ rs)
    weighted_score ← weighted_score_of (r ∷ rs)
    score ← score_post_init (record {
      score = round_two weighted_score total_weight;
      evaluated_evaluations = length (r ∷ rs);
      undetermined_evaluations = undetermined;
      errored_evaluations = errored;
    })
    ok (some score)

  -- The calculation where the plan is complete.
  unfoldable pub score_completed : List EvaluationResult → Result (Option ReadinessScore)
  unfolding judged_results undetermined_results score_of
  score_completed results = do
    require
        (nat_eq (length (judged_results results) + length (undetermined_results results))
          (length (candidates results)))
        value_error
    score_of (judged_results results) (length (undetermined_results results))
        (length (filter is_errored results))

  unfoldable pub calculate_readiness_score :
      List EvaluationResult → List PlannedEvaluation → Result (Option ReadinessScore)
  unfolding coordinate_of has_no_duplicates same_plan score_completed
  calculate_readiness_score results planned = do
    require (not (is_empty planned)) value_error
    require (has_no_duplicates planned) value_error
    let scored = score_completed results in
        if same_plan (map coordinate_of results) planned then scored else ok none
