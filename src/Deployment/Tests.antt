-- ===== src/Deployment/Tests.antt =====
-- Concrete deployments: one approval, its dispatch and its verification.
use kosa_aws.Auth.{Principal, admin}
use kosa_aws.Auth.Access.{is_admin}
use kosa_aws.Base.{All, Bool, Option, String, [], any, false, none, refl, some, true, ◌↔◌, ◌∷◌, ◌≡◌}
use kosa_aws.Deployment.Approval.{ApprovalPorts, Prepared, approval_of, prepare_approval}
use kosa_aws.Deployment.Approval.Applies.{
  IsApproved, prepare_approval-Clear, prepare_approval-require_approved_plan,
}
use kosa_aws.Deployment.Approval.Approve.{approve}
use kosa_aws.Deployment.Approval.Effects.{Effects, approve-Effects}
use kosa_aws.Deployment.Approval.Grants.{Grants, prepare_approval-Grants}
use kosa_aws.Deployment.Completion.{CompletionPorts, Reservation, prepare_completion}
use kosa_aws.Deployment.Completion.Event.{record_completion}
use kosa_aws.Deployment.Completion.Resumes.{
  CompletionEffects, ResumesStored, prepare_completion-ResumesStored, record_completion-Effects,
}
use kosa_aws.Deployment.Contracts.{
  ArtifactReference, DeploymentReadiness, RemediationSyncTarget, TerraformPlan,
  TerraformStateVersion, WorkflowRunFacts, WorkflowRunReference, plan_projection,
  ready_for_approval, success,
}
use kosa_aws.Deployment.Record.{DeploymentRecord}
use kosa_aws.Deployment.Status.{
  DeploymentFacts, comparable, derive_deployment_status, succeeded, verified,
}
use kosa_aws.Deployment.Status.Precedence.{Shows, derive_deployment_status_iff}
use kosa_aws.Deployment.Work.{DeploymentWork, require_approved_plan}
use kosa_aws.Deployment.Worker.{
  Ports, dispatch_apply, handle, read_run, request_plan, reread_actual, start_verification,
  store_verification,
}
use kosa_aws.Deployment.Worker.Safety.{Justified, handle-Justified}
use kosa_aws.Errors.{deployment_worker_error, duplicate_job, err, ok, runtime_error}
use kosa_aws.Evidence.Binding.{iac}
use kosa_aws.Evidence.Verdict.{fail}
use kosa_aws.Jobs.Model.{
  Job, JobCurrentStep, WorkflowCommand, WorkflowTask, apply, apply_completed, completed,
  plan_completed, post_deploy_verification, running, terraform_plan, waiting_approval,
}
use kosa_aws.Jobs.Outbox.{WorkflowOutboxEntry, pending}
use kosa_aws.Remediation.Readiness.{
  PlanReadinessInput, RemediationContext, evaluate_deployment_readiness, final_reasons,
  finding_resolved, readiness_reasons, status_of_reasons,
}
use kosa_aws.Remediation.Readiness.Ready.{Clear, Judged, evaluate_deployment_readiness-Judged}

abbrev artifact : ArtifactReference
artifact = record {
  artifact_id = "artifact-1";
  artifact_type = plan_projection;
  content_sha256 = "hash-1";
  customer_id = "acme";
  repository_id = some "repo-1";
}

abbrev plan : TerraformPlan
plan = record {
  deployment_id = "dep-1";
  commit_sha = "c0ffee";
  plan_hash = "hash-1";
  artifact = artifact;
}

abbrev state : TerraformStateVersion
state = record { lineage = "line"; serial = 7 }

abbrev plan_run : WorkflowRunReference
plan_run = record { deployment_id = "dep-1"; repository_id = "repo-1"; run_id = "100" }

abbrev apply_run : WorkflowRunReference
apply_run = record { deployment_id = "dep-1"; repository_id = "repo-1"; run_id = "101" }

abbrev administrator : Principal
administrator = record {
  subject = "alice";
  client_id = "web";
  customer_id = "acme";
  roles = admin ∷ [];
}

abbrev target : RemediationSyncTarget
target = record {
  finding_id = "f-1";
  customer_id = "acme";
  repository_id = "repo-1";
  commit_sha = "c0ffee";
}

abbrev work : DeploymentWork
work = record {
  customer_id = "acme";
  deployment_id = "dep-1";
  repository_id = "repo-1";
  aws_account_id = "123";
  job_id = "job-1";
  revision = 5;
  commit_sha = "c0ffee";
  plan = some plan;
  state_version = some state;
  plan_run = some plan_run;
  approval = some (approval_of administrator plan);
  run_reference = some apply_run;
  sync_target = some target;
}

abbrev run_facts : WorkflowRunFacts
run_facts = record {
  run_id = "101";
  repository_id = "repo-1";
  workflow_path = ".github/workflows/terraform-apply.yml";
  ref = "c0ffee";
  commit_sha = "c0ffee";
  conclusion = success;
  plan_hash = "hash-1";
}

abbrev worker_ports : Ports
worker_ports = record {
  get_work = λ _ _. ok (some work);
  request_plan = λ _ _ _ _. err runtime_error;
  dispatch_apply = λ _ _ _ _. err runtime_error;
  read_run = λ _. ok run_facts;
  reread_actual = λ _ _ _. ok tt;
  put_plan_if_absent = λ _ _. ok tt;
  put_receipt_if_absent = λ _ _. ok tt;
  put_verification_if_absent = λ _ _. ok tt;
  start_verification = λ _. ok "assessment-2";
}

abbrev task : WorkflowTask
task = record { job_id = "job-1"; expected_revision = 5; command = apply_completed }

-- A run that the approval covers is read, the Actual is read again, the facts are stored and the
-- verification is started, in this order.
test_verified :
    (handle worker_ports task []).1
    ≡ start_verification work
      ∷ store_verification work run_facts
      ∷ reread_actual target
      ∷ read_run apply_run
      ∷ []
unfolding handle kosa_aws.Deployment.Trace.◌>>=◌ kosa_aws.Deployment.Trace.lift
    kosa_aws.Deployment.Work.reload_work kosa_aws.Deployment.Worker.drive
    kosa_aws.Deployment.Worker.verify_apply require_approved_plan
    kosa_aws.Deployment.Contracts.approval_matches kosa_aws.Deployment.Trace.perform
    kosa_aws.Deployment.Work.require_run_matches_approval kosa_aws.Deployment.Work.is_apply_path
    kosa_aws.Deployment.Work.is_success kosa_aws.Deployment.Trace.pure
test_verified = refl

handle-Justified_example : All (Justified worker_ports task) (handle worker_ports task []).1
handle-Justified_example = handle-Justified worker_ports task

abbrev waiting_job : Job
waiting_job = record {
  job_id = "job-1";
  customer_id = "acme";
  job_type = "DEPLOYMENT";
  status = waiting_approval;
  current_step = terraform_plan;
  requested_by = "bob";
  revision = 4;
  assessment_id = some "assessment-1";
  remediation_id = some "rem-1";
  deployment_id = some "dep-1";
  error = none;
}

abbrev resumed_at : JobCurrentStep → Job
resumed_at step = record waiting_job { status = running; current_step = step; revision = 5 }

abbrev message : WorkflowCommand → WorkflowOutboxEntry
message command = record {
  customer_id = "acme";
  job_id = "job-1";
  task = record { job_id = "job-1"; expected_revision = 5; command = command };
  status = pending;
  dispatch_attempts = 0;
}

abbrev deployment : DeploymentRecord
deployment = record {
  deployment_id = "dep-1";
  customer_id = "acme";
  repository_id = "repo-1";
  job_id = "job-1";
  remediation_id = "rem-1";
  commit_sha = "c0ffee";
  source_assessment_id = "assessment-1";
  plan_hash = none;
  plan_artifact = none;
  binary_artifact = none;
  state_version = none;
  plan_summary = none;
  verification_assessment_id = none;
}

abbrev approval_ports : ApprovalPorts
approval_ports = record {
  get_deployment = λ _ _. ok (some deployment);
  get_job = λ _ _. ok (some waiting_job);
  record_approval = λ _ _ _ _ _ _. ok tt;
}

abbrev context : RemediationContext
context = record {
  finding = record {
    finding_id = "f-1";
    resource_id = "aws_s3_bucket.logs";
    rule_id = "S3-1";
    rule_version = "1";
    perspective = iac;
    status = fail;
    severity = "HIGH";
    score = 0;
    evidence_references = [];
    assessed_commit_sha = none;
    evaluated_at = none;
  };
  snapshot = record { customer_id = "acme"; repository_id = "repo-1" };
}

abbrev plan_input : PlanReadinessInput
plan_input = record {
  plan = plan;
  refreshed = true;
  has_destructive_changes = false;
  mapped_resource_ids = "aws_s3_bucket.logs" ∷ [];
  plan_evidence = [];
}

abbrev readiness : DeploymentReadiness
readiness = record {
  deployment_id = "dep-1";
  finding_id = "f-1";
  commit_sha = "c0ffee";
  plan_hash = "hash-1";
  status = ready_for_approval;
  reason_codes = "REFRESHED_PLAN_BOUND_TO_REMEDIATION_CONTEXT" ∷ [];
}

abbrev prepared_approval : Prepared
prepared_approval = record {
  approval = approval_of administrator plan;
  resumed_job = resumed_at apply;
  expected_revision = 4;
  outbox = message plan_completed;
}

abbrev no_fold : String → String
no_fold s = s

test_evaluates : evaluate_deployment_readiness no_fold context plan_input none none ≡ ok readiness
unfolding evaluate_deployment_readiness finding_resolved readiness_reasons status_of_reasons
    final_reasons kosa_aws.Base.is_blank
test_evaluates = refl

test_prepares : prepare_approval approval_ports administrator plan readiness ≡ ok prepared_approval
unfolding prepare_approval kosa_aws.Auth.role_action kosa_aws.Auth.user_action
    kosa_aws.Auth.admin_action kosa_aws.Base.is_blank kosa_aws.Jobs.Lifecycle.allowed
    kosa_aws.Jobs.Lifecycle.is_failed kosa_aws.Jobs.Lifecycle.link_once
    kosa_aws.Jobs.Model.job_post_init kosa_aws.Jobs.Model.error_fits
test_prepares = refl

evaluate_deployment_readiness-Judged_example :
    (resolved : Option Bool) × (finding_resolved no_fold context plan_input none none ≡ ok resolved)
    × Judged context plan_input resolved readiness
evaluate_deployment_readiness-Judged_example =
    evaluate_deployment_readiness-Judged no_fold context plan_input none none test_evaluates

prepare_approval-Grants_example :
    Grants approval_ports administrator plan readiness prepared_approval
prepare_approval-Grants_example =
    prepare_approval-Grants approval_ports administrator plan readiness test_prepares

approve-Effects_example :
    Effects approval_ports administrator plan readiness
      (approve approval_ports administrator plan readiness []).0
      (approve approval_ports administrator plan readiness []).1
approve-Effects_example = approve-Effects approval_ports administrator plan readiness

prepare_approval-Clear_example :
    (resolved : Option Bool) × (finding_resolved no_fold context plan_input none none ≡ ok resolved)
    × Clear context plan_input resolved
    × (any is_admin administrator.roles ≡ true)
prepare_approval-Clear_example =
    prepare_approval-Clear no_fold context plan_input none none approval_ports administrator
      test_evaluates test_prepares

prepare_approval-require_approved_plan_example :
    ((require_approved_plan work
        ≡ ok (record {
          approval = approval_of administrator plan;
          plan = plan;
          state_version = state;
        }))
      ↔ IsApproved plan plan)
    × (¬ IsApproved plan plan → require_approved_plan work ≡ err deployment_worker_error)
prepare_approval-require_approved_plan_example =
    prepare_approval-require_approved_plan approval_ports administrator plan readiness work plan
      state test_prepares (refl, refl, refl)

-- The approval is not accepted for a later plan of the deployment, whose digest is exact.
abbrev replanned : TerraformPlan
replanned = record plan {
  plan_hash = "hash-2";
  artifact = record artifact { content_sha256 = "hash-2" };
}

test_replanned :
    require_approved_plan (record work { plan = some replanned }) ≡ err deployment_worker_error
unfolding require_approved_plan kosa_aws.Deployment.Contracts.approval_matches
test_replanned = refl

abbrev completion_ports : CompletionPorts
completion_ports = record {
  resolve_customer_id = λ _. ok (some "acme");
  get_deployment = λ _ _. ok (some deployment);
  get_job = λ _ _. ok (some waiting_job);
  reserve_completion_event = λ _ _ _ _ _. err duplicate_job;
}

abbrev reservation : Reservation
reservation = record {
  resumed_job = resumed_at post_deploy_verification;
  expected_revision = 4;
  outbox = message apply_completed;
}

test_reserves : prepare_completion completion_ports "dep-1" "101" ≡ ok reservation
unfolding prepare_completion kosa_aws.Base.is_blank kosa_aws.Jobs.Lifecycle.allowed
    kosa_aws.Jobs.Lifecycle.is_failed kosa_aws.Jobs.Lifecycle.link_once
    kosa_aws.Jobs.Model.job_post_init kosa_aws.Jobs.Model.error_fits
test_reserves = refl

prepare_completion-ResumesStored_example : ResumesStored completion_ports "dep-1" reservation
prepare_completion-ResumesStored_example =
    prepare_completion-ResumesStored completion_ports "dep-1" "101" test_reserves

-- A redelivered event, which the store refuses as a duplicate.
record_completion-Effects_example :
    CompletionEffects completion_ports "dep-1" "101"
      (record_completion completion_ports "dep-1" "101" []).0
      (record_completion completion_ports "dep-1" "101" []).1
record_completion-Effects_example = record_completion-Effects completion_ports "dep-1" "101"

abbrev facts : DeploymentFacts
facts = record {
  job_status = completed;
  current_step = post_deploy_verification;
  readiness = some ready_for_approval;
  is_approved = true;
  is_rejected = false;
  apply_outcome = succeeded;
  verification_outcome = comparable;
}

derive_deployment_status_iff_example :
    (derive_deployment_status facts ≡ verified) ↔ Shows facts verified
derive_deployment_status_iff_example = derive_deployment_status_iff facts verified
