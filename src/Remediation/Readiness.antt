-- ===== src/Remediation/Readiness.antt =====
-- apps/backend/remediation/readiness.py, with `RemediationContext` and `PlanReadinessInput` of
-- packages/contracts/remediation.py. Of a snapshot only the fields that are read are kept.
pub mod Ready
use kosa_aws.Assessment.Comparison.{reason}
use kosa_aws.Assessment.Findings.{Finding}
use kosa_aws.Base.{
  Bool, List, Option, String, [], any, contains, ends_with, false, if◌then◌else◌, is_empty, none,
  not, opt_eq, some, true, ◌++◌, ◌==◌, ◌∷◌,
}
use kosa_aws.Deployment.Contracts.{
  DeploymentReadiness, ReadinessStatus, TerraformPlan, blocked, manual_review, readiness_post_init,
  ready_for_approval,
}
use kosa_aws.Errors.{Result, ok, ◌>>=◌, ◌>>◌}
use kosa_aws.Evidence.Plan.{Facts, GovernanceControl, decide_from_plan_evidence}
use kosa_aws.Evidence.Verdict.{DeterministicVerdict, EvaluationStatus, pass}

pub record IacSnapshot : Type 0 where
  pub customer_id : String
  pub repository_id : String

pub record RemediationContext : Type 0 where
  pub finding : Finding
  pub snapshot : IacSnapshot

pub record PlanReadinessInput : Type 0 where
  pub plan : TerraformPlan
  pub refreshed : Bool
  pub has_destructive_changes : Bool
  pub mapped_resource_ids : List String
  pub plan_evidence : List (String × Facts)

-- `if condition: reasons.append(reason)`
abbrev pub note : Bool → String → List String
note true reason = reason ∷ []
note false reason = []

-- `verdict.status is EvaluationStatus.PASS`, if there is a verdict
abbrev pub passes : EvaluationStatus → Bool
passes pass = true
passes _ = false

abbrev pub resolution : Option DeterministicVerdict → Option Bool
resolution none = none
resolution (some verdict) = some (passes verdict.status)

-- `resolved`: the predicates of the finding's Rule on the plan, where all that they need is given.
unfoldable pub finding_resolved :
    (String → String)
    → RemediationContext
    → PlanReadinessInput
    → Option (GovernanceControl × List String)
    → Option String
    → Result (Option Bool)
finding_resolved casefold context plan_input (some (control, required)) (some resource_type) = do
  verdict ←
      decide_from_plan_evidence casefold control required resource_type context.finding.resource_id
        plan_input.plan_evidence
  ok (resolution verdict)
finding_resolved casefold context plan_input _ _ = ok none

abbrev pub is_unresolved : Option Bool → Bool
is_unresolved (some false) = true
is_unresolved _ = false

abbrev pub is_resolved : Option Bool → Bool
is_resolved (some true) = true
is_resolved _ = false

unfoldable pub readiness_reasons :
    RemediationContext → PlanReadinessInput → Option Bool → List String
readiness_reasons context plan_input resolved =
    let artifact = plan_input.plan.artifact in
    note (not (artifact.customer_id == context.snapshot.customer_id)) "PLAN_CUSTOMER_SCOPE_MISMATCH"
    ++ (note (not (opt_eq artifact.repository_id (some context.snapshot.repository_id)))
          "PLAN_REPOSITORY_SCOPE_MISMATCH"
        ++ (note (not plan_input.refreshed) "PLAN_NOT_REFRESHED"
            ++ (note (not (contains plan_input.mapped_resource_ids context.finding.resource_id))
                  "FINDING_RESOURCE_NOT_MAPPED"
                ++ (note plan_input.has_destructive_changes
                      "DESTRUCTIVE_CHANGE_REQUIRES_MANUAL_REVIEW"
                    ++ note (is_unresolved resolved) "FINDING_UNRESOLVED_IN_PLAN"))))

-- `reason.endswith("MANUAL_REVIEW")`
unfoldable pub wants_review : String → Bool
unfolding ends_with
wants_review reason = ends_with reason "MANUAL_REVIEW"

unfoldable pub status_of_reasons : List String → ReadinessStatus
unfolding wants_review
status_of_reasons reasons =
    if any wants_review reasons
    then manual_review
    else (if is_empty reasons then ready_for_approval else blocked)

-- The reasons of a ready plan say what made it ready.
unfoldable pub final_reasons : List String → Option Bool → List String
final_reasons reasons resolved = elim (status_of_reasons reasons) [
  | ready_for_approval ↦
      "REFRESHED_PLAN_BOUND_TO_REMEDIATION_CONTEXT"
      ∷ note (is_resolved resolved) "FINDING_RESOLVED_IN_PLAN"
  | _ ↦ reasons
]

unfoldable pub evaluate_deployment_readiness :
    (String → String)
    → RemediationContext
    → PlanReadinessInput
    → Option (GovernanceControl × List String)
    → Option String
    → Result DeploymentReadiness
unfolding readiness_post_init
evaluate_deployment_readiness casefold context plan_input rule_control resource_type = do
  resolved ← finding_resolved casefold context plan_input rule_control resource_type
  let reasons = readiness_reasons context plan_input resolved
  readiness_post_init (record {
    deployment_id = plan_input.plan.deployment_id;
    finding_id = context.finding.finding_id;
    commit_sha = plan_input.plan.commit_sha;
    plan_hash = plan_input.plan.plan_hash;
    status = status_of_reasons reasons;
    reason_codes = final_reasons reasons resolved;
  })
