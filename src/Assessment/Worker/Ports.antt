-- ===== src/Assessment/Worker/Ports.antt =====
-- apps/backend/assessment/worker.py: the task's work and the plan, with `AssessmentEvaluationPlan` of
-- apps/backend/assessment/reporting.py.
use kosa_aws.Assessment.Comparison.{PlannedEvaluation}
use kosa_aws.Assessment.Readiness.{has_no_duplicates}
use kosa_aws.Assessment.Results.{EvaluationResult}
use kosa_aws.Assessment.Runner.{ModelProfile}
use kosa_aws.Assessment.Worker.{AssessmentResourceWork, WorkerRunners, derived_coordinates}
use kosa_aws.Base.{
  Bool, List, Option, String, false, is_empty, nat_eq, none, not, some, true, ℕ, ◌&&◌, ◌==◌, ◌∷◌,
}
use kosa_aws.Errors.{Result, err, lookup_error, ok, require, value_error, ◌>>=◌, ◌>>◌}
use kosa_aws.Jobs.Model.{WorkflowCommand, WorkflowTask, assess_resource, require_non_empty_string}
use kosa_aws.Policy.Context.{PolicyCatalog, PolicyContext, resolve}

pub record AssessmentEvaluationPlan : Type 0 where
  pub customer_id : String
  pub assessment_id : String
  pub planned_coordinates : List PlannedEvaluation

unfoldable pub evaluation_plan_post_init :
    AssessmentEvaluationPlan → Result AssessmentEvaluationPlan
unfolding require_non_empty_string has_no_duplicates
evaluation_plan_post_init plan = do
  require_non_empty_string plan.customer_id
  require_non_empty_string plan.assessment_id
  require (not (is_empty plan.planned_coordinates)) value_error
  require (has_no_duplicates plan.planned_coordinates) value_error
  ok plan

-- What the worker is built with besides its runners; `put_plan_if_absent` is there if a plan store is.
pub record WorkerPorts : Type 0 where
  pub get_resource_work : String → ℕ → Result (Option AssessmentResourceWork)
  pub catalog : PolicyCatalog
  pub get_assessment_profile : String → Result ModelProfile
  pub put_plan_if_absent : Option (AssessmentEvaluationPlan → Result (Unit {0}))
  pub put_results_if_absent : String → String → List EvaluationResult → Result (Unit {0})

abbrev is_assessment : WorkflowCommand → Bool
is_assessment assess_resource = true
is_assessment _ = false

-- The work that is stored for the task and its resolved context.
unfoldable pub resource_work :
    WorkerPorts → WorkflowTask → Result (AssessmentResourceWork × PolicyContext)
unfolding resolve
resource_work ports task = do
  require (is_assessment task.command) value_error
  read ← ports.get_resource_work task.job_id task.expected_revision
  work ← elim read [ none ↦ err lookup_error | some w ↦ ok w ]
  require (work.job_id == task.job_id && nat_eq work.revision task.expected_revision) lookup_error
  context ←
      resolve ports.catalog work.policy_profile_id work.phase work.resource_type
        work.expected_profile_version
  ok (work, context)

-- `work.planned_coordinates or self._derived_coordinates(work, context)`
unfoldable pub plan_coordinates :
    WorkerRunners → AssessmentResourceWork → PolicyContext → Result (List PlannedEvaluation)
unfolding derived_coordinates
plan_coordinates worker work context = elim work.planned_coordinates [
  | some (c ∷ cs) ↦ ok (c ∷ cs)
  | _ ↦ derived_coordinates worker work context
]
