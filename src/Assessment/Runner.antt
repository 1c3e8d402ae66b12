-- ===== src/Assessment/Runner.antt =====
-- apps/backend/assessment/runner.py: one result for each rule of a context, whatever the evaluator does. An
-- evaluator is any value of the interface: it returns a result or raises. Rationales are left out.
pub mod Answered
use kosa_aws.Assessment.Results.{EvaluationResult, by_code}
use kosa_aws.Base.{List, Option, String, [], all, if◌then◌else◌, none, some, ℕ, ◌&&◌, ◌==◌, ◌∷◌}
use kosa_aws.Errors.{
  Result, err, evaluation_contract_error, is_value_error, ok, require, ◌>>=◌, ◌>>◌,
}
use kosa_aws.Evidence.Binding.{EvaluationPerspective}
use kosa_aws.Evidence.Verdict.{EvaluationStatus, execution_error, pass}
use kosa_aws.Jobs.Model.{require_non_empty_string}
use kosa_aws.Policy.Context.{PolicyContext, allows_evidence}
use kosa_aws.Policy.Rules.{PolicyRule, RuleSeverity, critical, high, low, medium}

-- What the runner reads of a `ModelProfile`.
pub record ModelProfile : Type 0 where
  pub model_profile_id : String
  pub rubric_version : String

-- `perspective` is the attribute of that name, if the evaluator has one.
pub record Evaluator : Type 0 where
  pub perspective : Option EvaluationPerspective
  pub evaluate : String → PolicyRule → PolicyContext → ModelProfile → Result EvaluationResult

-- `severity.value`
unfoldable pub severity_value : RuleSeverity → String
severity_value low = "LOW"
severity_value medium = "MEDIUM"
severity_value high = "HIGH"
severity_value critical = "CRITICAL"

-- `score_for_status`
unfoldable pub score_for_status : EvaluationStatus → ℕ
score_for_status pass = 100
score_for_status _ = 0

-- `AssessmentRunner._failed_perspective`
unfoldable pub failed_perspective :
    Option EvaluationPerspective → Evaluator → Option EvaluationPerspective
failed_perspective none evaluator = evaluator.perspective
failed_perspective (some perspective) evaluator = some perspective

-- `AssessmentRunner._validated_result`
unfoldable pub validated_result :
    EvaluationResult → String → PolicyRule → PolicyContext → Result EvaluationResult
unfolding allows_evidence
validated_result result resource_id rule context = do
  require (result.resource_id == resource_id) evaluation_contract_error
  require (result.rule_id == rule.rule_id && result.rule_version == rule.version)
      evaluation_contract_error
  require (all (allows_evidence context) result.evidence_references) evaluation_contract_error
  ok result

-- `_execution_error`
unfoldable pub execution_error_result :
    String → PolicyRule → EvaluationPerspective → ModelProfile → EvaluationResult
unfolding severity_value score_for_status
execution_error_result resource_id rule perspective profile = record {
  resource_id = resource_id;
  rule_id = rule.rule_id;
  rule_version = rule.version;
  perspective = perspective;
  status = execution_error;
  severity = severity_value rule.severity;
  score = score_for_status execution_error;
  evidence_references = [];
  rubric_version = profile.rubric_version;
  model_profile_id = profile.model_profile_id;
  decided_by = by_code;
}

-- The handler of the loop: only a ValueError is recorded, and only where a perspective is known.
unfoldable pub recorded_result :
    Option EvaluationPerspective
    → String
    → PolicyRule
    → ModelProfile
    → Result EvaluationResult
    → Result EvaluationResult
unfolding execution_error_result is_value_error
recorded_result perspective resource_id rule profile (ok result) = ok result
recorded_result none resource_id rule profile (err e) = err e
recorded_result (some perspective) resource_id rule profile (err e) =
    if is_value_error e
    then ok (execution_error_result resource_id rule perspective profile)
    else err e

module _ (perspective : Option EvaluationPerspective) (evaluator : Evaluator) where
  -- The evaluator's answer on one rule, validated.
  unfoldable pub validated_answer :
      String → PolicyContext → ModelProfile → PolicyRule → Result EvaluationResult
  unfolding validated_result
  validated_answer resource_id context profile rule = do
    result ← evaluator.evaluate resource_id rule context profile
    validated_result result resource_id rule context

  unfoldable pub evaluate_rules :
      String → PolicyContext → ModelProfile → List PolicyRule → Result (List EvaluationResult)
  unfolding validated_answer recorded_result failed_perspective
  evaluate_rules resource_id context profile [] = ok []
  evaluate_rules resource_id context profile (rule ∷ rules) = do
    first ←
        recorded_result (failed_perspective perspective evaluator) resource_id rule profile
          (validated_answer resource_id context profile rule)
    rest ← evaluate_rules resource_id context profile rules
    ok (first ∷ rest)

  -- `AssessmentRunner.evaluate_resource`
  unfoldable pub evaluate_resource :
      String → PolicyContext → ModelProfile → Result (List EvaluationResult)
  unfolding evaluate_rules require_non_empty_string
  evaluate_resource resource_id context profile = do
    require_non_empty_string resource_id
    evaluate_rules resource_id context profile context.rules
