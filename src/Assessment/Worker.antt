-- ===== src/Assessment/Worker.antt =====
-- apps/backend/assessment/worker.py: the plan that a task derives and the evaluation that it runs. A mapping
-- of runners is a function that has a runner at some perspectives.
pub mod Covered
pub mod Planned
pub mod Perspective
pub mod Drifted
pub mod Once
pub mod Complete
pub mod Ports
pub mod Handle
mod Tests
use kosa_aws.Assessment.Comparison.{PlannedEvaluation}
use kosa_aws.Assessment.Drift.{derive_drift_results}
use kosa_aws.Assessment.Planner.{
  EvaluationExecutionPlanner, drift_rules, perspectives_for, planner_init, rules_for,
}
use kosa_aws.Assessment.Readiness.{has_no_duplicates}
use kosa_aws.Assessment.Results.{EvaluationResult, same_perspective}
use kosa_aws.Assessment.Runner.{Evaluator, ModelProfile, evaluate_resource}
use kosa_aws.Base.{
  Bool, List, Option, String, [], all, any, filter, if◌then◌else◌, is_empty, is_some, map, none,
  not, some, true, ℕ, ◌&&◌, ◌++◌, ◌==◌, ◌||◌, ◌∷◌,
}
use kosa_aws.Errors.{Result, err, ok, require, type_error, value_error, ◌>>=◌, ◌>>◌}
use kosa_aws.Evidence.Binding.{EvaluationPerspective, aws_actual, drift_view, iac, manual}
use kosa_aws.Jobs.Model.{require_non_empty_string, require_optional_non_empty_string}
use kosa_aws.Policy.Context.{PolicyContext, allows_evidence}
use kosa_aws.Policy.Rules.{AssessmentPhase, PolicyRule}

pub record AssessmentResourceWork : Type 0 where
  pub customer_id : String
  pub assessment_id : String
  pub job_id : String
  pub revision : ℕ
  pub policy_profile_id : String
  pub phase : AssessmentPhase
  pub resource_id : String
  pub resource_type : String
  pub perspective : EvaluationPerspective
  pub model_profile_id : String
  pub planned_coordinates : Option (List PlannedEvaluation)
  pub assessed_commit_sha : Option String
  pub expected_profile_version : Option String

abbrev require_plan : Option (List PlannedEvaluation) → Result (Unit {0})
require_plan none = ok tt
require_plan (some plan) = do
  require (not (is_empty plan)) value_error
  require (has_no_duplicates plan) value_error

-- `AssessmentResourceWork.__post_init__`
unfoldable pub resource_work_post_init : AssessmentResourceWork → Result AssessmentResourceWork
unfolding require_non_empty_string require_optional_non_empty_string has_no_duplicates
resource_work_post_init work = do
  require_non_empty_string work.customer_id
  require_non_empty_string work.assessment_id
  require_non_empty_string work.job_id
  require_non_empty_string work.policy_profile_id
  require_non_empty_string work.resource_id
  require_non_empty_string work.resource_type
  require_non_empty_string work.model_profile_id
  require_plan work.planned_coordinates
  require_optional_non_empty_string work.assessed_commit_sha
  require_optional_non_empty_string work.expected_profile_version
  ok work

-- `AssessmentRunner`, by its two attributes.
pub record AssessmentRunner : Type 0 where
  pub evaluator : Evaluator
  pub perspective : Option EvaluationPerspective

abbrev pub Runners : Type 0
Runners = EvaluationPerspective → Option AssessmentRunner

-- `runner`, or `perspective_runners` with the planner built from them.
pub data WorkerRunners : Type 0 where
  single_runner : AssessmentRunner → WorkerRunners
  runner_each : Runners → EvaluationExecutionPlanner → WorkerRunners

-- `perspective for perspective in _PERSPECTIVE_ORDER if perspective in perspective_runners`
unfoldable pub runner_perspectives : Runners → List EvaluationPerspective
runner_perspectives runners = filter (λ p. is_some (runners p)) (iac ∷ aws_actual ∷ manual ∷ [])

-- `AssessmentWorker.__init__`: the runners
unfoldable pub worker_init : Option AssessmentRunner → Option Runners → Bool → Result WorkerRunners
unfolding planner_init runner_perspectives
worker_init (some runner) none derives_drift = do
  require (not derives_drift) value_error
  ok (single_runner runner)
worker_init none (some runners) derives_drift = do
  require (not (is_empty (runner_perspectives runners)) || is_some (runners drift_view)) type_error
  require (not (is_some (runners drift_view))) value_error
  planner ← planner_init (runner_perspectives runners) derives_drift
  ok (runner_each runners planner)
worker_init _ _ derives_drift = err type_error

-- `len(set(rule_ids)) == len(rule_ids)`
unfoldable pub has_distinct_ids : List PolicyRule → Bool
has_distinct_ids [] = true
has_distinct_ids (rule ∷ rules) =
    not (any (λ r. r.rule_id == rule.rule_id) rules) && has_distinct_ids rules

-- `AssessmentWorker._planned_perspectives`
unfoldable pub worker_perspectives :
    WorkerRunners → AssessmentResourceWork → PolicyRule → List EvaluationPerspective
unfolding perspectives_for
worker_perspectives (single_runner runner) work rule = work.perspective ∷ []
worker_perspectives (runner_each runners planner) work rule = perspectives_for planner rule

abbrev pub planned_at : String → PolicyRule → EvaluationPerspective → PlannedEvaluation
planned_at resource_id rule p = record {
  resource_id = resource_id;
  rule_id = rule.rule_id;
  perspective = p;
}

-- The coordinates of the plan, rule by rule.
unfoldable pub coordinates_of :
    WorkerRunners → AssessmentResourceWork → List PolicyRule → List PlannedEvaluation
unfolding worker_perspectives
coordinates_of worker work [] = []
coordinates_of worker work (rule ∷ rules) =
    map (planned_at work.resource_id rule) (worker_perspectives worker work rule)
    ++ coordinates_of worker work rules

-- `AssessmentWorker._derived_coordinates`
unfoldable pub derived_coordinates :
    WorkerRunners → AssessmentResourceWork → PolicyContext → Result (List PlannedEvaluation)
unfolding has_distinct_ids coordinates_of
derived_coordinates worker work context = do
  require (has_distinct_ids context.rules) value_error
  ok (coordinates_of worker work context.rules)

-- `context.allows_evidence(reference)` for each reference, where there is a context
unfoldable pub cites_allowed : Option PolicyContext → List String → Bool
unfolding allows_evidence
cites_allowed none references = true
cites_allowed (some context) references = all (allows_evidence context) references

-- `AssessmentWorker._checked`; only derived results are checked against a context.
unfoldable pub checked :
    EvaluationPerspective
    → ModelProfile
    → Option PolicyContext
    → List EvaluationResult
    → Result (List EvaluationResult)
unfolding same_perspective cites_allowed
checked p profile context [] = ok []
checked p profile context (r ∷ rs) = do
  require (same_perspective r.perspective p) value_error
  require (r.model_profile_id == profile.model_profile_id) value_error
  require (cites_allowed context r.evidence_references) value_error
  rest ← checked p profile context rs
  ok (r ∷ rest)

module _ (work : AssessmentResourceWork) (context : PolicyContext) (profile : ModelProfile) where
  -- One runner's results, checked.
  unfoldable pub run_checked :
      AssessmentRunner → EvaluationPerspective → PolicyContext → Result (List EvaluationResult)
  unfolding evaluate_resource checked
  run_checked runner p scope = do
    results ← evaluate_resource runner.perspective runner.evaluator work.resource_id scope profile
    checked p profile none results

  -- One turn of the loop over the runners: nothing is evaluated where no rule is planned.
  unfoldable pub evaluate_perspective :
      Runners → EvaluationExecutionPlanner → EvaluationPerspective → Result (List EvaluationResult)
  unfolding rules_for run_checked
  evaluate_perspective runners planner p = elim (runners p) [
    | none ↦ ok []
    | some runner ↦
        let subset = rules_for planner p context.rules in
        if is_empty subset then ok [] else run_checked runner p (record context { rules = subset })
  ]

  -- `result.rule_id in drift_rule_ids`
  unfoldable pub of_drift_rules :
      EvaluationExecutionPlanner → List EvaluationResult → List EvaluationResult
  unfolding drift_rules
  of_drift_rules planner results =
      filter (λ r. any (λ rule. rule.rule_id == r.rule_id) (drift_rules planner context.rules))
        results

  unfoldable pub derived_drift :
      EvaluationExecutionPlanner
      → List EvaluationResult
      → List EvaluationResult
      → Result (List EvaluationResult)
  unfolding of_drift_rules derive_drift_results checked
  derived_drift planner iac_results actual_results = do
    drift ←
        derive_drift_results (of_drift_rules planner iac_results)
          (of_drift_rules planner actual_results)
    checked drift_view profile (some context) drift

  -- `AssessmentWorker._evaluate`; the loop over the runners is written out in their order.
  unfoldable pub evaluate : WorkerRunners → Result (List EvaluationResult)
  unfolding run_checked evaluate_perspective derived_drift
  evaluate (single_runner runner) = run_checked runner work.perspective context
  evaluate (runner_each runners planner) = do
    iac_results ← evaluate_perspective runners planner iac
    actual_results ← evaluate_perspective runners planner aws_actual
    manual_results ← evaluate_perspective runners planner manual
    drift ←
        if planner.derives_drift then derived_drift planner iac_results actual_results else ok []
    ok (iac_results ++ (actual_results ++ (manual_results ++ drift)))
