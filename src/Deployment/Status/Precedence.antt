-- ===== src/Deployment/Status/Precedence.antt =====
-- What each derived status says of the facts.
use kosa_aws.Base.{Option, arith, false, none, some, true, ◌↔◌, ◌≡◌, ◌≢◌, ◌⊎◌}
use kosa_aws.Deployment.Contracts.{ReadinessStatus, blocked, manual_review, ready_for_approval}
use kosa_aws.Deployment.Status.{
  DeploymentFacts, DeploymentStatus, applied, apply_failed, applying, approved, comparable,
  derive_deployment_status, in_progress, indeterminate, is_blocked, is_dead, needs_review,
  not_started, plan_ready, plan_requested, readiness_evaluated, rejected, succeeded, unverified,
  verification_indeterminate, verification_running, verified, verifying, waiting_human,
}
use kosa_aws.Jobs.Model.{pre_deploy_validation, terraform_plan}

-- Neither rejected, dead, applied to nor approved, with this readiness.
abbrev pub Waits : DeploymentFacts → Option ReadinessStatus → Type 0
Waits f readiness =
    (f.is_rejected ≡ false)
    × (is_dead f.job_status ≡ false)
    × (f.apply_outcome ≡ not_started)
    × (f.is_approved ≡ false)
    × (f.readiness ≡ readiness)

-- The facts in which each status is shown, written independently of the order of the tests.
abbrev pub Shows : DeploymentFacts → DeploymentStatus → Type 0
Shows f rejected = f.is_rejected ≡ true
Shows f verified =
    (f.is_rejected ≡ false) × (f.apply_outcome ≡ succeeded) × (f.verification_outcome ≡ comparable)
Shows f verification_indeterminate =
    (f.is_rejected ≡ false)
    × (f.apply_outcome ≡ succeeded)
    × (f.verification_outcome ≡ indeterminate)
Shows f verifying =
    (f.is_rejected ≡ false)
    × (f.apply_outcome ≡ succeeded)
    × (f.verification_outcome ≡ verification_running)
Shows f applied =
    (f.is_rejected ≡ false) × (f.apply_outcome ≡ succeeded) × (f.verification_outcome ≡ unverified)
Shows f applying =
    (f.is_rejected ≡ false) × (is_dead f.job_status ≡ false) × (f.apply_outcome ≡ in_progress)
Shows f approved =
    (f.is_rejected ≡ false)
    × (is_dead f.job_status ≡ false)
    × (f.apply_outcome ≡ not_started)
    × (f.is_approved ≡ true)
Shows f waiting_human = Waits f (some ready_for_approval)
Shows f is_blocked = Waits f (some blocked)
Shows f needs_review =
    (f.is_rejected ≡ false)
    × ((is_dead f.job_status ≡ true) × (f.apply_outcome ≢ succeeded)
        ⊎ ((f.apply_outcome ≡ apply_failed) ⊎ Waits f (some manual_review)))
Shows f plan_requested = Waits f none × (f.current_step ≡ terraform_plan)
Shows f readiness_evaluated = Waits f none × (f.current_step ≡ pre_deploy_validation)
Shows f plan_ready =
    Waits f none × (f.current_step ≢ terraform_plan) × (f.current_step ≢ pre_deploy_validation)

shows : (f : DeploymentFacts) (s : DeploymentStatus) → derive_deployment_status f ≡ s → Shows f s
unfolding derive_deployment_status
shows f rejected e = ground arith
shows f _ e = ground arith

derives : (f : DeploymentFacts) (s : DeploymentStatus) → Shows f s → derive_deployment_status f ≡ s
unfolding derive_deployment_status
derives f rejected h = ground arith
derives f _ h = ground arith

-- The derived status is exactly the one that the facts show, for each of the thirteen statuses.
pub derive_deployment_status_iff :
    (f : DeploymentFacts) (s : DeploymentStatus) → (derive_deployment_status f ≡ s) ↔ Shows f s
derive_deployment_status_iff f s = (shows f s, derives f s)
