-- ===== src/Deployment/Approval/Grants.antt =====
-- What an approval rests on, and what it does.
use mathlib.Core.Path.{subst}
use kosa_aws.Auth.{Principal, approve_deployment, authorize}
use kosa_aws.Base.{Option, ap, arith, eq_iff, none, refl, some, true, ◌&&◌, ◌==◌, ◌∙◌, ◌≡◌}
use kosa_aws.Deployment.Approval.{
  ApprovalPorts, Prepared, approval_of, available, prepare_approval, require_approvable,
}
use kosa_aws.Deployment.Contracts.{
  DeploymentApproval, DeploymentReadiness, ReadinessStatus, TerraformPlan, approval_post_init,
  is_ready, ready_for_approval,
}
use kosa_aws.Deployment.Record.{DeploymentRecord}
use kosa_aws.Deployment.Resume.{Resumes, resumed-Resumes}
use kosa_aws.Errors.{
  Result, bind_ok, deployment_approval_error, ok, ok_inj, require_iff, require_ok,
}
use kosa_aws.Jobs.Lifecycle.{plain, transition_job}
use kosa_aws.Jobs.Model.{Job, apply, plan_completed, running, workflow_task}
use kosa_aws.Jobs.Outbox.{outbox_entry}

-- What the arguments have passed.
pub record Approvable (p : Principal) (plan : TerraformPlan) (readiness : DeploymentReadiness)
    : Type 0 where
  pub authorized : authorize p approve_deployment ≡ ok tt
  pub digest : plan.plan_hash ≡ plan.artifact.content_sha256
  pub customer : plan.artifact.customer_id ≡ p.customer_id
  pub ready : readiness.status ≡ ready_for_approval
  pub deployment : readiness.deployment_id ≡ plan.deployment_id
  pub commit : readiness.commit_sha ≡ plan.commit_sha
  pub hash : readiness.plan_hash ≡ plan.plan_hash

is_ready-ready : (s : ReadinessStatus) → is_ready s ≡ true → s ≡ ready_for_approval
unfolding is_ready
is_ready-ready s h = ground arith

unit_ok : {r : Result (Unit {0})} (u : Unit {0}) → r ≡ ok u → r ≡ ok tt
unit_ok u h = h

pub require_approvable-Approvable :
    (p : Principal) (plan : TerraformPlan) (r : DeploymentReadiness) {u : Unit {0}}
    → require_approvable p plan r ≡ ok u
    → Approvable p plan r
unfolding require_approvable
require_approvable-Approvable p plan r h =
    let (u, authorized, h1) = bind_ok (authorize p approve_deployment) _ h in
    let (digest, h2) = require_ok (plan.plan_hash == plan.artifact.content_sha256) _ _ h1 in
    let (customer, h3) = require_ok (plan.artifact.customer_id == p.customer_id) _ _ h2 in
    let (ready, h4) = require_ok (is_ready r.status) _ _ h3 in
    let bound =
      (require_iff
          (r.deployment_id == plan.deployment_id
            && r.commit_sha == plan.commit_sha
            && r.plan_hash == plan.plan_hash)
          deployment_approval_error).0
        h4 in
    record {
      authorized = unit_ok u authorized;
      digest = (eq_iff plan.plan_hash plan.artifact.content_sha256).0 digest;
      customer = (eq_iff plan.artifact.customer_id p.customer_id).0 customer;
      ready = is_ready-ready r.status ready;
      deployment = ground (arith, eq_iff r.deployment_id plan.deployment_id, bound);
      commit = ground (arith, eq_iff r.commit_sha plan.commit_sha, bound);
      hash = ground (arith, eq_iff r.plan_hash plan.plan_hash, bound);
    }

-- What is written for an approval.
pub record Grants (ports : ApprovalPorts) (p : Principal) (plan : TerraformPlan)
    (readiness : DeploymentReadiness) (ready : Prepared) : Type 0 where
  pub approvable : Approvable p plan readiness
  pub approval : ready.approval ≡ approval_of p plan
  pub deployment : DeploymentRecord
  pub stored_deployment :
      ports.get_deployment p.customer_id plan.deployment_id ≡ ok (some deployment)
  pub job : Job
  pub stored_job : ports.get_job p.customer_id deployment.job_id ≡ ok (some job)
  pub expected_revision : ready.expected_revision ≡ job.revision
  pub resumes : Resumes p.customer_id apply plan_completed job ready.resumed_job ready.outbox

available-some : {A : Type 0} (o : Option A) {a : A} → available o ≡ ok a → o ≡ some a
available-some none h = cc
available-some (some a) h = cc

approval_post_init-same :
    (a : DeploymentApproval) {b : DeploymentApproval} → approval_post_init a ≡ ok b → b ≡ a
unfolding approval_post_init
approval_post_init-same a h = ground arith

-- An approval is written only for a principal who may approve, of the plan's customer, for a plan whose
-- digest is exact and that a READY_FOR_APPROVAL readiness names by deployment, commit and hash. The
-- approval is of that plan and by that principal; the stored job of the stored deployment is resumed
-- at APPLY by one allowed transition of the revision that is expected; and the message is a pending
-- PLAN_COMPLETED task of the resumed revision.
pub prepare_approval-Grants :
    (ports : ApprovalPorts) (p : Principal) (plan : TerraformPlan) (readiness : DeploymentReadiness)
    {ready : Prepared}
    → prepare_approval ports p plan readiness ≡ ok ready
    → Grants ports p plan readiness ready
unfolding prepare_approval
prepare_approval-Grants ports p plan readiness {ready} h =
    let (u, checked, h1) = bind_ok (require_approvable p plan readiness) _ h in
    let (approval, made, h2) = bind_ok (approval_post_init (approval_of p plan)) _ h1 in
    let (stored, found_deployment, h3) =
      bind_ok (ports.get_deployment p.customer_id plan.deployment_id) _ h2 in
    let (deployment, has_deployment, h4) = bind_ok (available stored) _ h3 in
    let (stored_job, found_job, h5) =
      bind_ok (ports.get_job p.customer_id deployment.job_id) _ h4 in
    let (job, has_job, h6) = bind_ok (available stored_job) _ h5 in
    let (resumed, moved, h7) =
      bind_ok (transition_job job (plain job.revision running (some apply))) _ h6 in
    let (task, tasked, h8) =
      bind_ok (workflow_task job.job_id resumed.revision plan_completed) _ h7 in
    let (outbox, queued_entry, h9) = bind_ok (outbox_entry p.customer_id job.job_id task) _ h8 in
    subst (Grants ports p plan readiness) (ok_inj h9) (record {
      approvable = require_approvable-Approvable p plan readiness checked;
      approval = approval_post_init-same (approval_of p plan) made;
      deployment = deployment;
      stored_deployment = found_deployment ∙ ap ok (available-some stored has_deployment);
      job = job;
      stored_job = found_job ∙ ap ok (available-some stored_job has_job);
      expected_revision = refl;
      resumes = resumed-Resumes p.customer_id apply plan_completed job moved tasked queued_entry;
    })
