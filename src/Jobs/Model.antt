-- ===== src/Jobs/Model.antt =====
-- packages/contracts/jobs.py, apps/backend/jobs/models.py and packages/contracts/_validation.py: the
-- values that a workflow job is made of, and the checks that their constructors run.
use kosa_aws.Base.{Bool, Option, String, is_blank, is_some, none, not, some, ℕ}
use kosa_aws.Errors.{Result, ok, require, value_error, ◌>>◌}

pub data JobStatus : Type 0 where
  queued running waiting_review waiting_approval completed failed cancelled : JobStatus

pub data JobCurrentStep : Type 0 where
  load_iac load_policy_profile build_effective_rules load_policy_evidence : JobCurrentStep
  assess policy_review generate_findings generate_report generate_remediation : JobCurrentStep
  sync_actual_state create_pr ci_validation aws_discovery : JobCurrentStep
  pre_deploy_validation terraform_plan apply post_deploy_verification : JobCurrentStep

pub data WorkflowCommand : Type 0 where
  assess_resource generate_remediation sync_actual_state : WorkflowCommand
  run_deployment plan_completed apply_completed : WorkflowCommand

pub record ApiError : Type 0 where
  pub code : String
  pub message : String

pub record WorkflowTask : Type 0 where
  pub job_id : String
  pub expected_revision : ℕ
  pub command : WorkflowCommand

pub record Job : Type 0 where
  pub job_id : String
  pub customer_id : String
  pub job_type : String
  pub status : JobStatus
  pub current_step : JobCurrentStep
  pub requested_by : String
  pub revision : ℕ
  pub assessment_id : Option String
  pub remediation_id : Option String
  pub deployment_id : Option String
  pub error : Option ApiError

unfoldable pub require_non_empty_string : String → Result (Unit {0})
require_non_empty_string value = require (not (is_blank value)) value_error

unfoldable pub require_optional_non_empty_string : Option String → Result (Unit {0})
unfolding require_non_empty_string
require_optional_non_empty_string none = ok tt
require_optional_non_empty_string (some value) = require_non_empty_string value

-- The check at the end of `Job.__post_init__`: an error exactly on a FAILED job.
unfoldable pub error_fits : JobStatus → Option ApiError → Bool
error_fits failed error = is_some error
error_fits _ error = not (is_some error)

-- `Job.__post_init__`, on the fields of the record.
unfoldable pub job_post_init : Job → Result Job
unfolding require_non_empty_string require_optional_non_empty_string
job_post_init job = do
  require_non_empty_string job.job_id
  require_non_empty_string job.customer_id
  require_non_empty_string job.job_type
  require_non_empty_string job.requested_by
  require_optional_non_empty_string job.assessment_id
  require_optional_non_empty_string job.remediation_id
  require_optional_non_empty_string job.deployment_id
  require (error_fits job.status job.error) value_error
  ok job

unfoldable pub workflow_task : String → ℕ → WorkflowCommand → Result WorkflowTask
unfolding require_non_empty_string
workflow_task job_id expected_revision command = do
  require_non_empty_string job_id
  ok (record { job_id = job_id; expected_revision = expected_revision; command = command })
