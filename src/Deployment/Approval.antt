-- ===== src/Deployment/Approval.antt =====
-- apps/backend/deployment/approval.py: the approval of a deployment by an administrator.
pub mod Approve
pub mod Grants
pub mod Effects
pub mod Applies
use kosa_aws.Auth.{Principal, approve_deployment, authorize}
use kosa_aws.Base.{Option, String, none, some, ℕ, ◌&&◌, ◌==◌}
use kosa_aws.Deployment.Contracts.{
  DeploymentApproval, DeploymentReadiness, TerraformPlan, approval_post_init, is_ready,
}
use kosa_aws.Deployment.Record.{DeploymentRecord}
use kosa_aws.Errors.{Result, deployment_approval_error, err, ok, require, ◌>>=◌, ◌>>◌}
use kosa_aws.Jobs.Lifecycle.{plain, transition_job}
use kosa_aws.Jobs.Model.{Job, apply, plan_completed, running, workflow_task}
use kosa_aws.Jobs.Outbox.{WorkflowOutboxEntry, outbox_entry}

-- The stores that the service calls, by what they return or raise.
pub record ApprovalPorts : Type 0 where
  pub get_deployment : (customer deployment : String) → Result (Option DeploymentRecord)
  pub get_job : (customer job : String) → Result (Option Job)
  pub record_approval :
      (customer : String)
      → DeploymentApproval
      → DeploymentReadiness
      → Job
      → ℕ
      → WorkflowOutboxEntry
      → Result (Unit {0})

-- What is written in one transaction.
pub record Prepared : Type 0 where
  pub approval : DeploymentApproval
  pub resumed_job : Job
  pub expected_revision : ℕ
  pub outbox : WorkflowOutboxEntry

-- The checks of `approve` on its arguments.
unfoldable pub require_approvable :
    Principal → TerraformPlan → DeploymentReadiness → Result (Unit {0})
unfolding authorize is_ready
require_approvable principal plan readiness = do
  authorize principal approve_deployment
  require (plan.plan_hash == plan.artifact.content_sha256) deployment_approval_error
  require (plan.artifact.customer_id == principal.customer_id) deployment_approval_error
  require (is_ready readiness.status) deployment_approval_error
  require
      (readiness.deployment_id == plan.deployment_id
        && readiness.commit_sha == plan.commit_sha
        && readiness.plan_hash == plan.plan_hash)
      deployment_approval_error

-- `DeploymentApproval(...)`
abbrev pub approval_of : Principal → TerraformPlan → DeploymentApproval
approval_of principal plan = record {
  deployment_id = plan.deployment_id;
  approved_by = principal.subject;
  commit_sha = plan.commit_sha;
  plan_hash = plan.plan_hash;
}

-- `if value is None: raise DeploymentApprovalError`
abbrev pub available : {A : Type 0} → Option A → Result A
available none = err deployment_approval_error
available (some a) = ok a

-- Everything that `approve` does before it writes.
unfoldable pub prepare_approval :
    ApprovalPorts → Principal → TerraformPlan → DeploymentReadiness → Result Prepared
unfolding require_approvable approval_post_init transition_job workflow_task outbox_entry
prepare_approval ports principal plan readiness = do
  require_approvable principal plan readiness
  approval ← approval_post_init (approval_of principal plan)
  stored ← ports.get_deployment principal.customer_id plan.deployment_id
  deployment ← available stored
  stored_job ← ports.get_job principal.customer_id deployment.job_id
  job ← available stored_job
  resumed ← transition_job job (plain job.revision running (some apply))
  task ← workflow_task job.job_id resumed.revision plan_completed
  outbox ← outbox_entry principal.customer_id job.job_id task
  ok (record {
    approval = approval;
    resumed_job = resumed;
    expected_revision = job.revision;
    outbox = outbox;
  })
