-- ===== src/Deployment/Approval/Approve.antt =====
-- apps/backend/deployment/approval.py: `approve`, whose calls are recorded.
use kosa_aws.Auth.{Principal}
use kosa_aws.Base.{String, ℕ}
use kosa_aws.Deployment.Approval.{ApprovalPorts, prepare_approval}
use kosa_aws.Deployment.Contracts.{DeploymentApproval, DeploymentReadiness, TerraformPlan}
use kosa_aws.Deployment.Trace.{Exec, lift, perform, pure, ◌>>=◌, ◌>>◌}
use kosa_aws.Errors.{ok}
use kosa_aws.Jobs.Model.{Job}
use kosa_aws.Jobs.Outbox.{WorkflowOutboxEntry}

-- The calls that change stored state or leave the service.
pub data ApprovalCall : Type 0 where
  record_approval :
      (customer : String)
      → DeploymentApproval
      → DeploymentReadiness
      → (resumed_job : Job) → (expected_revision : ℕ) → WorkflowOutboxEntry
      → ApprovalCall
  dispatch_approved : WorkflowOutboxEntry → ApprovalCall

-- `dispatch_entry` swallows what delivery raises, and its result is not used.
unfoldable pub approve :
    ApprovalPorts
    → Principal
    → TerraformPlan
    → DeploymentReadiness
    → Exec ApprovalCall DeploymentApproval
unfolding prepare_approval
approve ports principal plan readiness = do
  ready ← lift (prepare_approval ports principal plan readiness)
  perform
      (record_approval principal.customer_id ready.approval readiness ready.resumed_job
        ready.expected_revision ready.outbox)
      (ports.record_approval principal.customer_id ready.approval readiness ready.resumed_job
        ready.expected_revision ready.outbox)
  perform (dispatch_approved ready.outbox) (ok tt)
  pure ready.approval
