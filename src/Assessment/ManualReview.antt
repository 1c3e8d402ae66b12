-- ===== src/Assessment/ManualReview.antt =====
-- apps/backend/assessment/manual_review.py, with two constants of apps/backend/policy/control_catalog.py.
pub mod Recorded
use Prim.Native.String.{◌++◌ as append}
use kosa_aws.Assessment.Results.{EvaluationResult, by_code}
use kosa_aws.Assessment.Runner.{Evaluator, ModelProfile, severity_value}
use kosa_aws.Base.{Bool, Option, String, false, map, some, true, ◌==◌}
use kosa_aws.Errors.{Result, ok, require, value_error, ◌>>=◌, ◌>>◌}
use kosa_aws.Evidence.Binding.{manual}
use kosa_aws.Evidence.Verdict.{manual_review_needed}
use kosa_aws.Jobs.Model.{require_non_empty_string}
use kosa_aws.Policy.Context.{PolicyContext}
use kosa_aws.Policy.Rules.{PolicyRule, RuleEvaluationType, evidence_reference, manual_type}

abbrev pub governance_assessment_resource_type : String
governance_assessment_resource_type = "AWS::Governance::Assessment"

-- `governance_resource_id`
unfoldable pub governance_resource_id : String → Result String
unfolding require_non_empty_string
governance_resource_id repository_id =
    require_non_empty_string repository_id >> ok (append "governance:" repository_id)

-- `rule.evaluation_type is RuleEvaluationType.MANUAL`
abbrev pub is_manual_type : Option RuleEvaluationType → Bool
is_manual_type (some manual_type) = true
is_manual_type _ = false

-- The result of `ManualReviewEvaluator.evaluate`.
abbrev pub manual_result : String → PolicyRule → ModelProfile → EvaluationResult
manual_result resource_id rule profile = record {
  resource_id = resource_id;
  rule_id = rule.rule_id;
  rule_version = rule.version;
  perspective = manual;
  status = manual_review_needed;
  severity = severity_value rule.severity;
  score = 0;
  evidence_references = map evidence_reference rule.source_references;
  rubric_version = profile.rubric_version;
  model_profile_id = profile.model_profile_id;
  decided_by = by_code;
}

-- `ManualReviewEvaluator.evaluate`
unfoldable pub manual_evaluate :
    String → PolicyRule → PolicyContext → ModelProfile → Result EvaluationResult
manual_evaluate resource_id rule context profile = do
  require (is_manual_type rule.evaluation_type) value_error
  require (context.resource_type == governance_assessment_resource_type) value_error
  ok (manual_result resource_id rule profile)

-- `ManualReviewEvaluator`
abbrev pub manual_review_evaluator : Evaluator
manual_review_evaluator = record { perspective = some manual; evaluate = manual_evaluate }
