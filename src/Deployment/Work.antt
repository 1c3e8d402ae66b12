-- ===== src/Deployment/Work.antt =====
-- apps/backend/deployment/worker.py: the stored work of a deployment, and the worker's checks of what
-- it holds and of what the ports return.
use kosa_aws.Base.{
  Bool, Option, String, [], contains, false, nat_eq, none, some, true, ℕ, ◌&&◌, ◌==◌, ◌∷◌,
}
use kosa_aws.Deployment.Contracts.{
  ApplyDispatchReceipt, DeploymentApproval, PlanExecutionResult, RemediationSyncTarget,
  TerraformPlan, TerraformStateVersion, WorkflowConclusion, WorkflowRunFacts, WorkflowRunReference,
  approval_matches, none_or, success,
}
use kosa_aws.Errors.{
  Result, deployment_apply_blocked, deployment_work_not_found, deployment_worker_error, err, ok,
  require, value_error, ◌>>=◌, ◌>>◌,
}
use kosa_aws.Jobs.Model.{WorkflowTask, require_non_empty_string}

-- `APPLY_WORKFLOW_PATHS`
unfoldable pub is_apply_path : String → Bool
is_apply_path path =
    contains
      (".github/workflows/terraform-apply.yml" ∷ ".github/workflows/terraform-apply.yaml" ∷ []) path

pub record DeploymentWork : Type 0 where
  pub customer_id : String
  pub deployment_id : String
  pub repository_id : String
  pub aws_account_id : String
  pub job_id : String
  pub revision : ℕ
  pub commit_sha : String
  pub plan : Option TerraformPlan
  pub state_version : Option TerraformStateVersion
  pub plan_run : Option WorkflowRunReference
  pub approval : Option DeploymentApproval
  pub run_reference : Option WorkflowRunReference
  pub sync_target : Option RemediationSyncTarget

-- The checks of `DeploymentWork.__post_init__` on the parts that may be absent.
abbrev pub plan_in_scope : DeploymentWork → Option TerraformPlan → Bool
plan_in_scope work none = true
plan_in_scope work (some plan) =
    plan.deployment_id == work.deployment_id
    && plan.commit_sha == work.commit_sha
    && plan.artifact.customer_id == work.customer_id

abbrev pub run_in_scope : DeploymentWork → Option WorkflowRunReference → Bool
run_in_scope work none = true
run_in_scope work (some run) =
    run.deployment_id == work.deployment_id && run.repository_id == work.repository_id

abbrev pub approval_in_scope : DeploymentWork → Option DeploymentApproval → Bool
approval_in_scope work none = true
approval_in_scope work (some approval) = approval.deployment_id == work.deployment_id

abbrev pub target_in_scope : DeploymentWork → Option RemediationSyncTarget → Bool
target_in_scope work none = true
target_in_scope work (some target) = target.customer_id == work.customer_id

-- `DeploymentWork.__post_init__`
unfoldable pub work_post_init : DeploymentWork → Result DeploymentWork
unfolding require_non_empty_string
work_post_init work = do
  require_non_empty_string work.customer_id
  require_non_empty_string work.deployment_id
  require_non_empty_string work.repository_id
  require_non_empty_string work.aws_account_id
  require_non_empty_string work.job_id
  require_non_empty_string work.commit_sha
  require (plan_in_scope work work.plan) value_error
  require (run_in_scope work work.plan_run) value_error
  require (approval_in_scope work work.approval) value_error
  require (run_in_scope work work.run_reference) value_error
  require (target_in_scope work work.sync_target) value_error
  ok work

-- `if work.x is None: raise DeploymentWorkerError`
abbrev pub present {ℓ} : {A : Type ℓ} → Option A → Result A
present none = err deployment_worker_error
present (some a) = ok a

-- What `_require_approved_plan` returns.
pub record Bound : Type 0 where
  pub approval : DeploymentApproval
  pub plan : TerraformPlan
  pub state_version : TerraformStateVersion

-- `_require_approved_plan`
unfoldable pub require_approved_plan : DeploymentWork → Result Bound
require_approved_plan work = do
  plan ← present work.plan
  approval ← present work.approval
  state_version ← present work.state_version
  require (plan.plan_hash == plan.artifact.content_sha256) deployment_worker_error
  require (approval_matches approval plan) deployment_worker_error
  ok (record { approval = approval; plan = plan; state_version = state_version })

unfoldable pub is_success : WorkflowConclusion → Bool
is_success success = true
is_success _ = false

-- `_require_run_matches_approval`
unfoldable pub require_run_matches_approval :
    DeploymentWork → DeploymentApproval → WorkflowRunFacts → Result (Unit {0})
require_run_matches_approval work approval facts = do
  require (facts.repository_id == work.repository_id) deployment_apply_blocked
  require (is_apply_path facts.workflow_path) deployment_apply_blocked
  require (facts.ref == approval.commit_sha && facts.commit_sha == approval.commit_sha)
      deployment_apply_blocked
  require (facts.plan_hash == approval.plan_hash) deployment_apply_blocked
  require (is_success facts.conclusion) deployment_apply_blocked

-- The checks of `_run_plan` on the result of the plan port.
unfoldable pub require_plan_in_scope : DeploymentWork → PlanExecutionResult → Result (Unit {0})
require_plan_in_scope work result = do
  let plan = result.plan
  let binary = result.binary_artifact
  let run = result.plan_run
  require (plan.deployment_id == work.deployment_id && plan.commit_sha == work.commit_sha)
      deployment_worker_error
  require (plan.artifact.customer_id == work.customer_id) deployment_worker_error
  require (none_or plan.artifact.repository_id work.repository_id) deployment_worker_error
  require (binary.customer_id == work.customer_id) deployment_worker_error
  require (none_or binary.repository_id work.repository_id) deployment_worker_error
  require (run.deployment_id == work.deployment_id && run.repository_id == work.repository_id)
      deployment_worker_error

-- The checks of `_dispatch_apply` on the receipt of the apply port.
unfoldable pub require_receipt_in_scope : DeploymentWork → ApplyDispatchReceipt → Result (Unit {0})
require_receipt_in_scope work receipt = do
  require
      (receipt.deployment_id == work.deployment_id && receipt.repository_id == work.repository_id)
      deployment_worker_error
  require (is_apply_path receipt.workflow_path) deployment_worker_error

-- `_reload_work`, on what the repository returns.
unfoldable pub reload_work : WorkflowTask → Result (Option DeploymentWork) → Result DeploymentWork
reload_work task read = do
  stored ← read
  work ← elim stored [ none ↦ err deployment_work_not_found | some work ↦ ok work ]
  require (work.job_id == task.job_id && nat_eq work.revision task.expected_revision)
      deployment_worker_error
  ok work
