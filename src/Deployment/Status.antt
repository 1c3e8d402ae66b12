-- ===== src/Deployment/Status.antt =====
-- packages/contracts/deployments.py: the facts of a deployment and the status that is derived from
-- them at read time.
pub mod Precedence
use kosa_aws.Base.{Bool, Option, false, if◌then◌else◌, none, not, some, true, ◌&&◌}
use kosa_aws.Deployment.Contracts.{ReadinessStatus, blocked, manual_review, ready_for_approval}
use kosa_aws.Errors.{Result, ok, require, value_error, ◌>>=◌, ◌>>◌}
use kosa_aws.Jobs.Model.{
  JobCurrentStep, JobStatus, cancelled, failed, pre_deploy_validation, terraform_plan,
}

pub data DeploymentStatus : Type 0 where
  plan_requested plan_ready readiness_evaluated waiting_human approved : DeploymentStatus
  applying applied verifying verified : DeploymentStatus
  is_blocked needs_review rejected verification_indeterminate : DeploymentStatus

pub data ApplyOutcome : Type 0 where
  not_started in_progress succeeded apply_failed : ApplyOutcome

pub data VerificationOutcome : Type 0 where
  unverified verification_running comparable indeterminate : VerificationOutcome

pub record DeploymentFacts : Type 0 where
  pub job_status : JobStatus
  pub current_step : JobCurrentStep
  pub readiness : Option ReadinessStatus
  pub is_approved : Bool
  pub is_rejected : Bool
  pub apply_outcome : ApplyOutcome
  pub verification_outcome : VerificationOutcome

-- `DeploymentFacts.__post_init__`
unfoldable pub facts_post_init : DeploymentFacts → Result DeploymentFacts
facts_post_init facts = do
  require (not (facts.is_approved && facts.is_rejected)) value_error
  ok facts

unfoldable pub has_succeeded : ApplyOutcome → Bool
has_succeeded succeeded = true
has_succeeded _ = false

unfoldable pub is_dead : JobStatus → Bool
is_dead failed = true
is_dead cancelled = true
is_dead _ = false

unfoldable pub verification_status : VerificationOutcome → DeploymentStatus
verification_status indeterminate = verification_indeterminate
verification_status comparable = verified
verification_status verification_running = verifying
verification_status unverified = applied

-- The last branches, on the step of the job.
unfoldable pub step_status : JobCurrentStep → DeploymentStatus
step_status terraform_plan = plan_requested
step_status pre_deploy_validation = readiness_evaluated
step_status _ = plan_ready

unfoldable pub readiness_status : Option ReadinessStatus → JobCurrentStep → DeploymentStatus
unfolding step_status
readiness_status (some blocked) step = is_blocked
readiness_status (some manual_review) step = needs_review
readiness_status (some ready_for_approval) step = waiting_human
readiness_status none step = step_status step

-- The branches behind that of a successful apply.
unfoldable pub unapplied_status : DeploymentFacts → ApplyOutcome → DeploymentStatus
unfolding readiness_status
unapplied_status facts apply_failed = needs_review
unapplied_status facts in_progress = applying
unapplied_status facts _ =
    if facts.is_approved then approved else readiness_status facts.readiness facts.current_step

unfoldable pub derive_deployment_status : DeploymentFacts → DeploymentStatus
unfolding has_succeeded verification_status unapplied_status
derive_deployment_status facts =
    if facts.is_rejected
    then rejected
    else if not (has_succeeded facts.apply_outcome) && is_dead facts.job_status
    then needs_review
    else if has_succeeded facts.apply_outcome
    then verification_status facts.verification_outcome
    else unapplied_status facts facts.apply_outcome
