-- ===== src/Deployment/Contracts.antt =====
-- packages/contracts/deployments.py and packages/contracts/remediation.py: the values that plan,
-- approval, apply and verification exchange, with the checks that their constructors run.
use kosa_aws.Base.{
  Bool, List, Option, String, all, false, is_blank, is_empty, nat_eq, none, not, opt_eq, some, true,
  ℕ, ◌&&◌, ◌==◌,
}
use kosa_aws.Errors.{Result, ok, require, value_error, ◌>>◌}
use kosa_aws.Jobs.Model.{require_non_empty_string}

-- `plan_projection` and `plan_binary` are `TERRAFORM_PLAN` and `TERRAFORM_PLAN_BINARY`.
pub data ArtifactType : Type 0 where
  policy_original terraform_snapshot aws_snapshot remediation_patch : ArtifactType
  plan_projection plan_binary golden_dataset : ArtifactType

pub record ArtifactReference : Type 0 where
  pub artifact_id : String
  pub artifact_type : ArtifactType
  pub content_sha256 : String
  pub customer_id : String
  pub repository_id : Option String

pub record TerraformStateVersion : Type 0 where
  pub lineage : String
  pub serial : ℕ

-- `TerraformStateVersion.matches`
unfoldable pub state_matches : TerraformStateVersion → TerraformStateVersion → Bool
state_matches a b = a.lineage == b.lineage && nat_eq a.serial b.serial

pub record TerraformPlan : Type 0 where
  pub deployment_id : String
  pub commit_sha : String
  pub plan_hash : String
  pub artifact : ArtifactReference

unfoldable pub is_plan_projection : ArtifactType → Bool
is_plan_projection plan_projection = true
is_plan_projection _ = false

unfoldable pub is_plan_binary : ArtifactType → Bool
is_plan_binary plan_binary = true
is_plan_binary _ = false

-- `TerraformPlan.__post_init__`
unfoldable pub plan_post_init : TerraformPlan → Result TerraformPlan
unfolding require_non_empty_string
plan_post_init plan = do
  require_non_empty_string plan.deployment_id
  require_non_empty_string plan.commit_sha
  require_non_empty_string plan.plan_hash
  require (is_plan_projection plan.artifact.artifact_type) value_error
  require (plan.plan_hash == plan.artifact.content_sha256) value_error
  ok plan

pub record WorkflowRunReference : Type 0 where
  pub deployment_id : String
  pub repository_id : String
  pub run_id : String

pub record PlanSummary : Type 0 where
  pub refreshed : Bool
  pub has_destructive_changes : Bool
  pub mapped_resource_ids : List String

pub record PlanExecutionResult : Type 0 where
  pub plan : TerraformPlan
  pub binary_artifact : ArtifactReference
  pub state_version : TerraformStateVersion
  pub plan_run : WorkflowRunReference
  pub summary : PlanSummary

-- `repository is None or repository == id`
abbrev pub none_or : Option String → String → Bool
none_or none id = true
none_or (some repository) id = repository == id

-- `PlanExecutionResult.__post_init__`
unfoldable pub execution_post_init : PlanExecutionResult → Result PlanExecutionResult
unfolding is_plan_binary
execution_post_init result = do
  let binary = result.binary_artifact
  let projection = result.plan.artifact
  require (is_plan_binary binary.artifact_type) value_error
  require (binary.customer_id == projection.customer_id) value_error
  require (opt_eq binary.repository_id projection.repository_id) value_error
  require (result.plan_run.deployment_id == result.plan.deployment_id) value_error
  require (none_or binary.repository_id result.plan_run.repository_id) value_error
  ok result

pub record DeploymentApproval : Type 0 where
  pub deployment_id : String
  pub approved_by : String
  pub commit_sha : String
  pub plan_hash : String

-- `DeploymentApproval.__post_init__`
unfoldable pub approval_post_init : DeploymentApproval → Result DeploymentApproval
unfolding require_non_empty_string
approval_post_init approval = do
  require_non_empty_string approval.deployment_id
  require_non_empty_string approval.approved_by
  require_non_empty_string approval.commit_sha
  require_non_empty_string approval.plan_hash
  ok approval

-- `DeploymentApproval.matches`
unfoldable pub approval_matches : DeploymentApproval → TerraformPlan → Bool
approval_matches approval plan =
    approval.deployment_id == plan.deployment_id
    && approval.commit_sha == plan.commit_sha
    && approval.plan_hash == plan.plan_hash

pub data WorkflowConclusion : Type 0 where
  success failure run_cancelled timed_out : WorkflowConclusion

pub record WorkflowRunFacts : Type 0 where
  pub run_id : String
  pub repository_id : String
  pub workflow_path : String
  pub ref : String
  pub commit_sha : String
  pub conclusion : WorkflowConclusion
  pub plan_hash : String

pub record ApplyDispatchReceipt : Type 0 where
  pub deployment_id : String
  pub repository_id : String
  pub workflow_path : String

pub record RemediationSyncTarget : Type 0 where
  pub finding_id : String
  pub customer_id : String
  pub repository_id : String
  pub commit_sha : String

pub data ReadinessStatus : Type 0 where
  ready_for_approval blocked manual_review : ReadinessStatus

pub record DeploymentReadiness : Type 0 where
  pub deployment_id : String
  pub finding_id : String
  pub commit_sha : String
  pub plan_hash : String
  pub status : ReadinessStatus
  pub reason_codes : List String

-- `DeploymentReadiness.__post_init__`
unfoldable pub readiness_post_init : DeploymentReadiness → Result DeploymentReadiness
unfolding require_non_empty_string
readiness_post_init readiness = do
  require_non_empty_string readiness.deployment_id
  require_non_empty_string readiness.finding_id
  require_non_empty_string readiness.commit_sha
  require_non_empty_string readiness.plan_hash
  require (not (is_empty readiness.reason_codes)) value_error
  require (all (λ reason. not (is_blank reason)) readiness.reason_codes) value_error
  ok readiness

unfoldable pub is_ready : ReadinessStatus → Bool
is_ready ready_for_approval = true
is_ready _ = false
