-- ===== src/Deployment/Approval/Applies.antt =====
-- An approval carries the readiness of its plan through to the worker's dispatch.
use kosa_aws.Auth.{Principal, admin_action, approve_deployment, authorize, user_action}
use kosa_aws.Auth.Access.{authorize_iff, is_admin}
use kosa_aws.Base.{
  Bool, Bool-cases, List, Option, String, any, ap, arith, eq_iff, false, inl, inr, refl, some, sym,
  true, ◌&&◌, ◌==◌, ◌↔◌, ◌∙◌, ◌≡◌,
}
use kosa_aws.Deployment.Approval.{ApprovalPorts, Prepared, approval_of, prepare_approval}
use kosa_aws.Deployment.Approval.Grants.{prepare_approval-Grants}
use kosa_aws.Deployment.Contracts.{
  DeploymentApproval, DeploymentReadiness, TerraformPlan, TerraformStateVersion, approval_matches,
}
use kosa_aws.Deployment.Work.{Bound, DeploymentWork, require_approved_plan}
use kosa_aws.Errors.{deployment_worker_error, err, ok, require, ◌>>◌}
use kosa_aws.Evidence.Plan.{GovernanceControl}
use kosa_aws.Remediation.Readiness.{
  PlanReadinessInput, RemediationContext, evaluate_deployment_readiness, finding_resolved,
}
use kosa_aws.Remediation.Readiness.Ready.{Clear, evaluate_deployment_readiness-Judged}

-- A work item that holds the plan and the approval that was recorded for it.
abbrev pub CarriesApproval :
    DeploymentWork → TerraformPlan → DeploymentApproval → TerraformStateVersion → Type 0
CarriesApproval w plan approval state =
    (w.plan ≡ some plan) × (w.approval ≡ some approval) × (w.state_version ≡ some state)

-- The stored plan is the one that was approved: of the same deployment, commit and hash, and its artifact
-- has the digest of the approved one.
pub record IsApproved (plan stored : TerraformPlan) : Type 0 where
  pub deployment : plan.deployment_id ≡ stored.deployment_id
  pub commit : plan.commit_sha ≡ stored.commit_sha
  pub hash : plan.plan_hash ≡ stored.plan_hash
  pub digest : plan.artifact.content_sha256 ≡ stored.artifact.content_sha256

approval_matches_iff :
    (p : Principal) (plan stored : TerraformPlan)
    → plan.plan_hash ≡ plan.artifact.content_sha256
    → ((stored.plan_hash == stored.artifact.content_sha256
          && approval_matches (approval_of p plan) stored)
        ≡ true)
      ↔ IsApproved plan stored
unfolding approval_matches
approval_matches_iff p plan stored exact =
    let digests = eq_iff stored.plan_hash stored.artifact.content_sha256 in
    let deployments = eq_iff plan.deployment_id stored.deployment_id in
    let commits = eq_iff plan.commit_sha stored.commit_sha in
    let hashes = eq_iff plan.plan_hash stored.plan_hash in
    (
      λ h.
          let hash : plan.plan_hash ≡ stored.plan_hash = ground (arith, hashes, h) in
          let own : stored.plan_hash ≡ stored.artifact.content_sha256 =
            ground (arith, digests, h) in
          record {
            deployment = ground (arith, deployments, h);
            commit = ground (arith, commits, h);
            hash = hash;
            digest = sym exact ∙ hash ∙ own;
          },
      λ k.
          let own = digests.1 (sym k.hash ∙ exact ∙ k.digest) in
          ground (arith, own, deployments.1 k.deployment, commits.1 k.commit, hashes.1 k.hash),
    )

require_both :
    (a b : Bool) (bound : Bound)
    → (((require a deployment_worker_error >> (require b deployment_worker_error >> ok bound))
          ≡ ok bound)
        ↔ ((a && b) ≡ true))
      × ((a && b) ≡ false
          → (require a deployment_worker_error >> (require b deployment_worker_error >> ok bound))
            ≡ err deployment_worker_error)
require_both true true bound = ((λ _. refl, λ _. refl), λ h. absurd (cc h))
require_both true false bound = ((λ h. cc h, λ h. cc h), λ _. refl)
require_both false b bound = ((λ h. cc h, λ h. cc h), λ _. refl)

-- An approval is accepted for the plan that was approved and for no other. For an approval that was prepared
-- for a plan, and a work item that stores the approval, a plan and a state version, the worker's check of the
-- approval returns exactly these if the stored plan is the approved one, and raises otherwise.
pub prepare_approval-require_approved_plan :
    (ports : ApprovalPorts) (p : Principal) (plan : TerraformPlan) (readiness : DeploymentReadiness)
    {ready : Prepared} (w : DeploymentWork) (stored : TerraformPlan) (state : TerraformStateVersion)
    → prepare_approval ports p plan readiness ≡ ok ready
    → CarriesApproval w stored ready.approval state
    → ((require_approved_plan w
          ≡ ok (record { approval = ready.approval; plan = stored; state_version = state }))
        ↔ IsApproved plan stored)
      × (¬ IsApproved plan stored → require_approved_plan w ≡ err deployment_worker_error)
unfolding require_approved_plan
prepare_approval-require_approved_plan ports p plan readiness {ready} w stored state h
      (hp, ha, hs) =
    let grants = prepare_approval-Grants ports p plan readiness h in
    let same = approval_matches_iff p plan stored grants.approvable.digest in
    let own = ap (λ a. approval_matches a stored) grants.approval in
    let exact = stored.plan_hash == stored.artifact.content_sha256 in
    let bound : Bound = record {
      approval = ready.approval;
      plan = stored;
      state_version = state;
    } in
    let checks = require_both exact (approval_matches ready.approval stored) bound in
    let carried : (exact && approval_matches ready.approval stored)
        ≡ (exact && approval_matches (approval_of p plan) stored) =
      ap (λ b. exact && b) own in
    rw (hp, ha, hs)
      (
        (λ e. same.0 (sym carried ∙ (checks.0).0 e), λ k. (checks.0).1 (carried ∙ same.1 k)),
        λ differs. checks.1 (elim (Bool-cases (exact && approval_matches ready.approval stored)) [
          | inl holds ↦ absurd (differs (same.0 (sym carried ∙ holds)))
          | inr fails ↦ fails
        ]),
      )

approver_admin :
    (p : Principal) → authorize p approve_deployment ≡ ok tt → any is_admin p.roles ≡ true
unfolding user_action admin_action
approver_admin p h = (authorize_iff p approve_deployment).0 h

-- If a principal's approval of a plan is prepared on the readiness that was evaluated for that plan, the
-- principal may approve, and the plan was refreshed, destroys nothing, maps the finding's resource and
-- does not fail the finding's predicates.
pub prepare_approval-Clear :
    (casefold : String → String) (context : RemediationContext) (plan_input : PlanReadinessInput)
    (rule_control : Option (GovernanceControl × List String)) (resource_type : Option String)
    (ports : ApprovalPorts) (p : Principal) {readiness : DeploymentReadiness} {ready : Prepared}
    → evaluate_deployment_readiness casefold context plan_input rule_control resource_type
      ≡ ok readiness
    → prepare_approval ports p plan_input.plan readiness ≡ ok ready
    → (resolved : Option Bool) × (finding_resolved casefold context plan_input rule_control
          resource_type
        ≡ ok resolved)
      × Clear context plan_input resolved
      × (any is_admin p.roles ≡ true)
prepare_approval-Clear casefold context plan_input rule_control resource_type ports p {readiness} e
      h =
    let grants = prepare_approval-Grants ports p plan_input.plan readiness h in
    let (resolved, hr, judged) =
      evaluate_deployment_readiness-Judged casefold context plan_input rule_control resource_type
        e in
    (
      resolved,
      hr,
      judged.ready.0 grants.approvable.ready,
      approver_admin p grants.approvable.authorized,
    )
