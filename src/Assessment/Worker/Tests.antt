-- ===== src/Assessment/Worker/Tests.antt =====
-- A worker with a runner for each of two perspectives and a rule of each kind.
use kosa_aws.Assessment.Comparison.{PlannedEvaluation, same_plan}
use kosa_aws.Assessment.Coverage.{calculate_coverage}
use kosa_aws.Assessment.Planner.{EvaluationExecutionPlanner, planned_perspectives}
use kosa_aws.Assessment.Readiness.{coordinate_of, has_no_duplicates}
use kosa_aws.Assessment.Results.{EvaluationResult, by_code}
use kosa_aws.Assessment.Runner.{ModelProfile}
use kosa_aws.Assessment.Verification.{
  VerificationAssessmentScope, VerificationRejectionCode, VerificationSource,
  plan_verification_assessment, profile_version_replaced,
}
use kosa_aws.Assessment.Worker.{
  AssessmentResourceWork, AssessmentRunner, Runners, derived_coordinates, evaluate, planned_at,
  resource_work_post_init, runner_each, worker_init,
}
use kosa_aws.Assessment.Worker.Complete.{evaluate_complete}
use kosa_aws.Assessment.Worker.Handle.{assess, put_plan, put_results}
use kosa_aws.Assessment.Worker.Ports.{WorkerPorts}
use kosa_aws.Base.{
  List, Option, String, [], inl, inr, map, none, refl, some, true, ◌++◌, ◌∷◌, ◌≡◌, ◌⊎◌,
}
use kosa_aws.Errors.{Result, err, lookup_error, ok, value_error}
use kosa_aws.Evidence.Binding.{EvaluationPerspective, aws_actual, drift_view, iac}
use kosa_aws.Evidence.Verdict.{pass}
use kosa_aws.Jobs.Model.{WorkflowTask, assess_resource}
use kosa_aws.Policy.Context.{PolicyContext}
use kosa_aws.Policy.Rules.{AssessmentPhase, PolicyRule, iac_type, manual_type, medium}

abbrev open_rule : PolicyRule
open_rule = record {
  rule_id = "S3-1";
  version = "1";
  title = "Buckets are private";
  severity = medium;
  applicable_phases = AssessmentPhase.initial ∷ [];
  resource_types = "bucket" ∷ [];
  source_references =
      record { source_id = "isms"; source_version = "3"; locator = "2.6.1"; content_sha256 = "d1" }
      ∷ [];
  control_key = none;
  control_catalog_version = none;
  evaluation_type = none;
  applicability_semantics = none;
  required_evidence = [];
  optional_evidence = [];
  evaluation_rubric = none;
  severity_guidance = none;
  exception_semantics = none;
  compensating_control_semantics = none;
}

-- Rules of this shape stand for what the worker reads: the identifier, the version and the type.
abbrev source_rule : PolicyRule
source_rule = record open_rule { rule_id = "TF-1"; evaluation_type = some iac_type }

abbrev review_only : PolicyRule
review_only = record open_rule { rule_id = "ORG-1"; evaluation_type = some manual_type }

abbrev bucket_context : PolicyContext
bucket_context = record {
  policy_profile_id = "baseline";
  policy_profile_version = "7";
  phase = AssessmentPhase.initial;
  resource_type = "bucket";
  rules = open_rule ∷ source_rule ∷ review_only ∷ [];
}

abbrev bucket_work : AssessmentResourceWork
bucket_work = record {
  customer_id = "c1";
  assessment_id = "a1";
  job_id = "j1";
  revision = 3;
  policy_profile_id = "baseline";
  phase = AssessmentPhase.initial;
  resource_id = "logs";
  resource_type = "bucket";
  perspective = iac;
  model_profile_id = "m1";
  planned_coordinates = none;
  assessed_commit_sha = none;
  expected_profile_version = none;
}

abbrev bucket_profile : ModelProfile
bucket_profile = record { model_profile_id = "m1"; rubric_version = "r1" }

abbrev answer : EvaluationPerspective → String → PolicyRule → EvaluationResult
answer p resource_id rule = record {
  resource_id = resource_id;
  rule_id = rule.rule_id;
  rule_version = rule.version;
  perspective = p;
  status = pass;
  severity = "MEDIUM";
  score = 100;
  evidence_references = [];
  rubric_version = "r1";
  model_profile_id = "m1";
  decided_by = by_code;
}

abbrev runner_at : EvaluationPerspective → AssessmentRunner
runner_at p = record {
  evaluator = record {
    perspective = some p;
    evaluate = λ resource_id rule _ _. ok (answer p resource_id rule);
  };
  perspective = none;
}

abbrev two_runners : Runners
two_runners iac = some (runner_at iac)
two_runners aws_actual = some (runner_at aws_actual)
two_runners _ = none

abbrev two_planner : EvaluationExecutionPlanner
two_planner = record { available = iac ∷ aws_actual ∷ []; derives_drift = true }

abbrev bucket_plan : List PlannedEvaluation
bucket_plan =
    planned_at "logs" open_rule iac
    ∷ planned_at "logs" open_rule aws_actual
    ∷ planned_at "logs" open_rule drift_view
    ∷ planned_at "logs" source_rule iac
    ∷ []

abbrev bucket_results : List EvaluationResult
bucket_results =
    answer iac "logs" open_rule
    ∷ answer iac "logs" source_rule
    ∷ answer aws_actual "logs" open_rule
    ∷ answer drift_view "logs" open_rule
    ∷ []

test_init : worker_init none (some two_runners) true ≡ ok (runner_each two_runners two_planner)
unfolding worker_init
test_init = refl

-- Drift needs a runner for both perspectives.
test_lone_drift :
    worker_init none (some (λ p. elim p [ iac ↦ some (runner_at iac) | _ ↦ none ])) true
    ≡ err value_error
unfolding worker_init
test_lone_drift = refl

test_derived :
    derived_coordinates (runner_each two_runners two_planner) bucket_work bucket_context
    ≡ ok bucket_plan
unfolding derived_coordinates
test_derived = refl

test_evaluate :
    evaluate bucket_work bucket_context bucket_profile (runner_each two_runners two_planner)
    ≡ ok bucket_results
unfolding evaluate
test_evaluate = refl

test_work : resource_work_post_init bucket_work ≡ ok bucket_work
unfolding resource_work_post_init kosa_aws.Base.is_blank
test_work = refl

test_planned :
    planned_perspectives two_planner bucket_context.rules ≡ iac ∷ aws_actual ∷ drift_view ∷ []
unfolding planned_perspectives
test_planned = refl

evaluate_complete_example :
    (same_plan (map coordinate_of bucket_results) bucket_plan ≡ true)
    × (has_no_duplicates bucket_plan ≡ true)
evaluate_complete_example =
    evaluate_complete bucket_work bucket_context bucket_profile none (some two_runners) true
      test_init test_derived test_evaluate

-- The task of the work: the plan is stored first and the results after the evaluation.
abbrev bucket_task : WorkflowTask
bucket_task = record { job_id = "j1"; expected_revision = 3; command = assess_resource }

abbrev bucket_ports : WorkerPorts
bucket_ports = record {
  get_resource_work = λ _ _. ok (some bucket_work);
  catalog = record {
    get_profile = λ _ _. ok (
        some (record {
          policy_profile_id = "baseline";
          version = "7";
          rule_references = record { rule_id = "S3-1"; version = "1" } ∷ [];
        }));
    get_rule = λ _ _. ok (some open_rule);
  };
  get_assessment_profile = λ _. ok bucket_profile;
  put_plan_if_absent = some (λ _. ok tt);
  put_results_if_absent = λ _ _ _. ok tt;
}

abbrev open_results : List EvaluationResult
open_results =
    answer iac "logs" open_rule
    ∷ answer aws_actual "logs" open_rule
    ∷ answer drift_view "logs" open_rule
    ∷ []

test_assess : assess bucket_ports (runner_each two_runners two_planner) bucket_task [] ≡ (
  ok open_results,
  put_results "c1" "a1" open_results
      ∷ put_plan (record {
        customer_id = "c1";
        assessment_id = "a1";
        planned_coordinates =
            planned_at "logs" open_rule iac
            ∷ planned_at "logs" open_rule aws_actual
            ∷ planned_at "logs" open_rule drift_view
            ∷ [];
      })
      ∷ [],
)
unfolding assess kosa_aws.Deployment.Trace.◌>>=◌ kosa_aws.Deployment.Trace.lift
    kosa_aws.Deployment.Trace.perform kosa_aws.Deployment.Trace.pure
test_assess = refl

-- A task of another revision than that of the work is refused before any call.
test_stale :
    assess bucket_ports
      (runner_each two_runners two_planner)
      (record bucket_task { expected_revision = 4 })
      []
    ≡ (err lookup_error, [])
unfolding assess kosa_aws.Deployment.Trace.◌>>=◌ kosa_aws.Deployment.Trace.lift
test_stale = refl

test_coverage :
    calculate_coverage (open_results ++ open_results) 4
    ≡ ok (record { planned_evaluations = 4; completed_evaluations = 3 })
unfolding calculate_coverage
test_coverage = refl

test_over_covered : calculate_coverage open_results 2 ≡ err value_error
unfolding calculate_coverage
test_over_covered = refl

-- A verification that reuses the plan; of another version of the profile it is rejected.
abbrev bucket_source : VerificationSource
bucket_source = record {
  assessment_id = "a1";
  customer_id = "c1";
  repository_id = "r1";
  policy_profile_id = "baseline";
  policy_profile_version = "7";
  model_profile_id = "m1";
  rubric_version = "r1";
  phase = AssessmentPhase.initial;
  planned_coordinates = bucket_plan;
}

abbrev deployed_context : PolicyContext
deployed_context = record bucket_context { phase = AssessmentPhase.post_deploy_verification }

abbrev verification_plan :
    Result (VerificationRejectionCode ⊎ VerificationAssessmentScope)
    → Option (List PlannedEvaluation)
verification_plan (ok (inr scope)) = some scope.planned_coordinates
verification_plan _ = none

test_verification :
    verification_plan (plan_verification_assessment bucket_source deployed_context "d1" "a2" "j1")
    ≡ some bucket_plan
unfolding plan_verification_assessment kosa_aws.Base.is_blank
test_verification = refl

test_same_assessment :
    plan_verification_assessment bucket_source deployed_context "d1" "a1" "j1" ≡ err value_error
unfolding plan_verification_assessment kosa_aws.Base.is_blank
test_same_assessment = refl

test_replaced :
    plan_verification_assessment bucket_source
      (record deployed_context { policy_profile_version = "8" })
      "d1"
      "a2"
      "j1"
    ≡ ok (inl profile_version_replaced)
unfolding plan_verification_assessment kosa_aws.Base.is_blank
test_replaced = refl
