-- ===== src/Deployment/Record.antt =====
-- apps/backend/deployment/record.py: the stored facts of a deployment.
use kosa_aws.Base.{Bool, Option, String, is_some, none, not, opt_eq, some, true, ◌&&◌, ◌==◌, ◌||◌}
use kosa_aws.Deployment.Contracts.{
  ArtifactReference, PlanSummary, TerraformStateVersion, is_plan_binary, is_plan_projection,
}
use kosa_aws.Errors.{Result, ok, require, value_error, ◌>>◌}
use kosa_aws.Jobs.Model.{require_non_empty_string, require_optional_non_empty_string}

pub record DeploymentRecord : Type 0 where
  pub deployment_id : String
  pub customer_id : String
  pub repository_id : String
  pub job_id : String
  pub remediation_id : String
  pub commit_sha : String
  pub source_assessment_id : String
  pub plan_hash : Option String
  pub plan_artifact : Option ArtifactReference
  pub binary_artifact : Option ArtifactReference
  pub state_version : Option TerraformStateVersion
  pub plan_summary : Option PlanSummary
  pub verification_assessment_id : Option String

-- `any(...) and not all(...)` of the plan facts
unfoldable pub has_half_a_plan : DeploymentRecord → Bool
has_half_a_plan r =
    let a = is_some r.plan_hash in
    let b = is_some r.plan_artifact in
    let c = is_some r.binary_artifact in
    let d = is_some r.state_version in
    let e = is_some r.plan_summary in (a || b || c || d || e) && not (a && b && c && d && e)

-- `_require_artifact_scope`
unfoldable pub artifact_in_scope : DeploymentRecord → ArtifactReference → Bool
artifact_in_scope r artifact =
    artifact.customer_id == r.customer_id && opt_eq artifact.repository_id (some r.repository_id)

unfoldable pub plan_artifact_fits : DeploymentRecord → Option ArtifactReference → Bool
unfolding is_plan_projection artifact_in_scope
plan_artifact_fits r none = true
plan_artifact_fits r (some artifact) =
    is_plan_projection artifact.artifact_type
    && opt_eq r.plan_hash (some artifact.content_sha256)
    && artifact_in_scope r artifact

unfoldable pub binary_artifact_fits : DeploymentRecord → Option ArtifactReference → Bool
unfolding is_plan_binary artifact_in_scope
binary_artifact_fits r none = true
binary_artifact_fits r (some artifact) =
    is_plan_binary artifact.artifact_type && artifact_in_scope r artifact

-- `DeploymentRecord.__post_init__`
unfoldable pub record_post_init : DeploymentRecord → Result DeploymentRecord
unfolding require_non_empty_string require_optional_non_empty_string has_half_a_plan
    plan_artifact_fits binary_artifact_fits
record_post_init r = do
  require_non_empty_string r.deployment_id
  require_non_empty_string r.customer_id
  require_non_empty_string r.repository_id
  require_non_empty_string r.job_id
  require_non_empty_string r.remediation_id
  require_non_empty_string r.commit_sha
  require_non_empty_string r.source_assessment_id
  require_optional_non_empty_string r.plan_hash
  require_optional_non_empty_string r.verification_assessment_id
  require (not (has_half_a_plan r)) value_error
  require (plan_artifact_fits r r.plan_artifact) value_error
  require (binary_artifact_fits r r.binary_artifact) value_error
  ok r
