-- ===== src/Assessment/Coverage.antt =====
-- apps/backend/assessment/coverage.py, with `AssessmentCoverage` of packages/contracts/assessments.py.
use kosa_aws.Assessment.Comparison.{PlannedEvaluation, plans_coordinate}
use kosa_aws.Assessment.Readiness.{coordinate_of}
use kosa_aws.Assessment.Results.{EvaluationResult}
use kosa_aws.Base.{List, [], if◌then◌else◌, leb, length, nat_eq, not, ℕ, ◌∷◌}
use kosa_aws.Errors.{Result, ok, require, value_error, ◌>>◌}

pub record AssessmentCoverage : Type 0 where
  pub planned_evaluations : ℕ
  pub completed_evaluations : ℕ

unfoldable pub coverage_post_init : AssessmentCoverage → Result AssessmentCoverage
coverage_post_init coverage = do
  require (not (nat_eq coverage.planned_evaluations 0)) value_error
  require (leb coverage.completed_evaluations coverage.planned_evaluations) value_error
  ok coverage

-- `completed_keys.add(...)` for each result, from the keys collected on
unfoldable pub completed_keys :
    List PlannedEvaluation → List EvaluationResult → List PlannedEvaluation
unfolding plans_coordinate coordinate_of
completed_keys keys [] = keys
completed_keys keys (r ∷ rs) =
    completed_keys
      (if plans_coordinate keys (coordinate_of r) then keys else coordinate_of r ∷ keys) rs

unfoldable pub calculate_coverage : List EvaluationResult → ℕ → Result AssessmentCoverage
unfolding completed_keys coverage_post_init
calculate_coverage results planned_evaluations = coverage_post_init (record {
  planned_evaluations = planned_evaluations;
  completed_evaluations = length (completed_keys [] results);
})
