-- ===== src/Assessment/Results.antt =====
-- packages/contracts/assessments.py: evaluation results. Scores are the two values that a status has,
-- 100 and 0; rationales and times are left out.
use kosa_aws.Base.{Bool, List, String, false, true, ℕ}
use kosa_aws.Evidence.Binding.{EvaluationPerspective, aws_actual, drift_view, iac, manual}
use kosa_aws.Evidence.Verdict.{EvaluationStatus}

pub data DecisionSource : Type 0 where
  by_code by_model : DecisionSource

pub record EvaluationResult : Type 0 where
  pub resource_id : String
  pub rule_id : String
  pub rule_version : String
  pub perspective : EvaluationPerspective
  pub status : EvaluationStatus
  pub severity : String
  pub score : ℕ
  pub evidence_references : List String
  pub rubric_version : String
  pub model_profile_id : String
  pub decided_by : DecisionSource

unfoldable pub same_source : DecisionSource → DecisionSource → Bool
same_source by_code by_code = true
same_source by_model by_model = true
same_source _ _ = false

unfoldable pub same_perspective : EvaluationPerspective → EvaluationPerspective → Bool
same_perspective iac iac = true
same_perspective aws_actual aws_actual = true
same_perspective drift_view drift_view = true
same_perspective manual manual = true
same_perspective _ _ = false
