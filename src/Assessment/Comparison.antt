-- ===== src/Assessment/Comparison.antt =====
-- apps/backend/assessment/comparison.py: the comparison of an assessment before a deployment with one
-- after it. A readiness score is left as any value that is there or not.
pub mod Resolved
pub mod Eligible
use kosa_aws.Assessment.Results.{EvaluationResult, same_perspective}
use kosa_aws.Base.{
  Bool, List, Option, String, [], all, any, false, if◌then◌else◌, none, not, some, true, ◌&&◌, ◌++◌,
  ◌==◌, ◌∷◌,
}
use kosa_aws.Evidence.Binding.{EvaluationPerspective}
use kosa_aws.Evidence.Verdict.{
  EvaluationStatus, execution_error, fail, insufficient_evidence, manual_review_needed,
  out_of_scope, pass,
}

pub data FindingResolution : Type 0 where
  resolved unresolved regressed indeterminate_resolution no_longer_applicable : FindingResolution

pub data ComparisonIneligibilityReason : Type 0 where
  source_readiness_unavailable verification_readiness_unavailable : ComparisonIneligibilityReason
  planned_evaluations_mismatch model_profile_mismatch rubric_version_mismatch :
      ComparisonIneligibilityReason

pub record PlannedEvaluation : Type 0 where
  pub resource_id : String
  pub rule_id : String
  pub perspective : EvaluationPerspective

-- What the comparison reads of a `ComparisonAssessment`.
pub record ComparisonAssessment : Type 0 where
  pub model_profile_id : String
  pub rubric_version : String
  pub planned_evaluations : List PlannedEvaluation
  pub has_readiness_score : Bool

unfoldable pub same_coordinate : PlannedEvaluation → PlannedEvaluation → Bool
unfolding same_perspective
same_coordinate a b =
    a.resource_id == b.resource_id
    && a.rule_id == b.rule_id
    && same_perspective a.perspective b.perspective

unfoldable pub plans_coordinate : List PlannedEvaluation → PlannedEvaluation → Bool
unfolding same_coordinate
plans_coordinate plan p = any (λ q. same_coordinate q p) plan

-- `set(a) == set(b)`
unfoldable pub same_plan : List PlannedEvaluation → List PlannedEvaluation → Bool
unfolding plans_coordinate
same_plan a b = all (plans_coordinate b) a && all (plans_coordinate a) b

abbrev pub reason : Bool → ComparisonIneligibilityReason → List ComparisonIneligibilityReason
reason true r = r ∷ []
reason false r = []

-- `_comparison_reasons`
unfoldable pub comparison_reasons :
    ComparisonAssessment → ComparisonAssessment → List ComparisonIneligibilityReason
unfolding same_plan
comparison_reasons source verification =
    reason (not source.has_readiness_score) source_readiness_unavailable
    ++ (reason (not verification.has_readiness_score) verification_readiness_unavailable
        ++ (reason (not (same_plan source.planned_evaluations verification.planned_evaluations))
              planned_evaluations_mismatch
            ++ (reason (not (source.model_profile_id == verification.model_profile_id))
                  model_profile_mismatch
                ++ reason (not (source.rubric_version == verification.rubric_version))
                    rubric_version_mismatch)))

-- The rest of `_resolution`, for results of one rule version.
unfoldable pub status_resolution : EvaluationStatus → EvaluationStatus → Option FindingResolution
status_resolution before out_of_scope = some no_longer_applicable
status_resolution before manual_review_needed = some indeterminate_resolution
status_resolution before insufficient_evidence = some indeterminate_resolution
status_resolution before execution_error = some indeterminate_resolution
status_resolution fail pass = some resolved
status_resolution fail fail = some unresolved
status_resolution pass fail = some regressed
status_resolution _ _ = none

-- `_resolution`
unfoldable pub resolution_of :
    Option EvaluationResult → Option EvaluationResult → Option FindingResolution
unfolding status_resolution
resolution_of (some before) (some later) =
    if before.rule_version == later.rule_version
    then status_resolution before.status later.status
    else some indeterminate_resolution
resolution_of _ _ = some indeterminate_resolution
