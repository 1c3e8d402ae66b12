-- ===== src/Deployment/Worker.antt =====
-- apps/backend/deployment/worker.py: the worker that drives one port for each deployment command.
pub mod Safety
use kosa_aws.Base.{Option, String, ℕ}
use kosa_aws.Deployment.Contracts.{
  ApplyDispatchReceipt, DeploymentApproval, PlanExecutionResult, RemediationSyncTarget,
  TerraformPlan, TerraformStateVersion, WorkflowRunFacts, WorkflowRunReference,
}
use kosa_aws.Deployment.Trace.{Exec, lift, perform, pure, raise, ◌>>=◌, ◌>>◌}
use kosa_aws.Deployment.Work.{
  DeploymentWork, present, reload_work, require_approved_plan, require_plan_in_scope,
  require_receipt_in_scope, require_run_matches_approval,
}
use kosa_aws.Errors.{Result, deployment_worker_error}
use kosa_aws.Jobs.Model.{
  WorkflowCommand, WorkflowTask, apply_completed, plan_completed, run_deployment,
}

-- The injected ports and stores, by what they return or raise. The worker calls each at most once.
pub record Ports : Type 0 where
  pub get_work : String → ℕ → Result (Option DeploymentWork)
  pub request_plan : (customer deployment repository commit : String) → Result PlanExecutionResult
  pub dispatch_apply :
      DeploymentApproval
      → TerraformPlan
      → TerraformStateVersion
      → WorkflowRunReference
      → Result ApplyDispatchReceipt
  pub read_run : WorkflowRunReference → Result WorkflowRunFacts
  pub reread_actual : (customer deployment : String) → RemediationSyncTarget → Result (Unit {0})
  pub put_plan_if_absent : DeploymentWork → PlanExecutionResult → Result (Unit {0})
  pub put_receipt_if_absent : DeploymentWork → ApplyDispatchReceipt → Result (Unit {0})
  pub put_verification_if_absent : DeploymentWork → WorkflowRunFacts → Result (Unit {0})
  pub start_verification : DeploymentWork → Result String

-- The calls that leave the worker.
pub data Call : Type 0 where
  request_plan : (customer deployment repository commit : String) → Call
  store_plan : DeploymentWork → PlanExecutionResult → Call
  dispatch_apply :
      DeploymentApproval → TerraformPlan → TerraformStateVersion → WorkflowRunReference → Call
  store_receipt : DeploymentWork → ApplyDispatchReceipt → Call
  read_run : WorkflowRunReference → Call
  reread_actual : RemediationSyncTarget → Call
  store_verification : DeploymentWork → WorkflowRunFacts → Call
  start_verification : DeploymentWork → Call

pub data Outcome : Type 0 where
  planned : PlanExecutionResult → Outcome
  dispatched : ApplyDispatchReceipt → Outcome
  run_verified : WorkflowRunFacts → Outcome

module _ (ports : Ports) where
  unfoldable pub run_plan : DeploymentWork → Exec Call Outcome
  run_plan work = do
    result ←
        perform
          (request_plan work.customer_id work.deployment_id work.repository_id work.commit_sha)
          (ports.request_plan work.customer_id work.deployment_id work.repository_id
            work.commit_sha)
    lift (require_plan_in_scope work result)
    perform (store_plan work result) (ports.put_plan_if_absent work result)
    pure (planned result)

  unfoldable pub dispatch : DeploymentWork → Exec Call Outcome
  dispatch work = do
    bound ← lift (require_approved_plan work)
    plan_run ← lift (present work.plan_run)
    receipt ←
        perform (dispatch_apply bound.approval bound.plan bound.state_version plan_run)
          (ports.dispatch_apply bound.approval bound.plan bound.state_version plan_run)
    lift (require_receipt_in_scope work receipt)
    perform (store_receipt work receipt) (ports.put_receipt_if_absent work receipt)
    pure (dispatched receipt)

  unfoldable pub verify_apply : DeploymentWork → Exec Call Outcome
  verify_apply work = do
    bound ← lift (require_approved_plan work)
    run_reference ← lift (present work.run_reference)
    sync_target ← lift (present work.sync_target)
    facts ← perform (read_run run_reference) (ports.read_run run_reference)
    lift (require_run_matches_approval work bound.approval facts)
    perform (reread_actual sync_target)
        (ports.reread_actual work.customer_id work.deployment_id sync_target)
    perform (store_verification work facts) (ports.put_verification_if_absent work facts)
    started ← perform (start_verification work) (ports.start_verification work)
    pure (run_verified facts)

  unfoldable pub drive : WorkflowCommand → DeploymentWork → Exec Call Outcome
  drive run_deployment work = run_plan work
  drive plan_completed work = dispatch work
  drive apply_completed work = verify_apply work
  drive _ work = raise deployment_worker_error

  unfoldable pub handle : WorkflowTask → Exec Call Outcome
  handle task = do
    work ← lift (reload_work task (ports.get_work task.job_id task.expected_revision))
    drive task.command work
