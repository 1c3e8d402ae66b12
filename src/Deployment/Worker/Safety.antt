-- ===== src/Deployment/Worker/Safety.antt =====
-- Which calls the `Exec` computations of the worker may make, whatever the ports return.
use mathlib.Core.Path.{subst}
use kosa_aws.Base.{
  All, List, Option, [], arith, eq_iff, none, refl, some, true, ◌&&◌, ◌==◌, ◌∷◌, ◌≡◌,
}
use kosa_aws.Deployment.Contracts.{
  DeploymentApproval, PlanExecutionResult, TerraformPlan, WorkflowConclusion, WorkflowRunFacts,
  WorkflowRunReference, approval_matches, none_or, success,
}
use kosa_aws.Deployment.Trace.{Safe, Safe-lift, Safe-perform, Safe-pure, Safe-raise, continue, lift}
use kosa_aws.Deployment.Work.{
  Bound, DeploymentWork, is_apply_path, is_success, present, reload_work, require_approved_plan,
  require_plan_in_scope, require_receipt_in_scope, require_run_matches_approval,
}
use kosa_aws.Deployment.Worker.{
  Call, Ports, dispatch, dispatch_apply, dispatched, drive, handle, planned, read_run, request_plan,
  reread_actual, run_plan, run_verified, start_verification, store_plan, store_receipt,
  store_verification, verify_apply,
}
use kosa_aws.Errors.{
  Result, bind_ok, deployment_apply_blocked, deployment_worker_error, err, ok, ok_inj, require_iff,
  require_ok,
}
use kosa_aws.Jobs.Model.{
  WorkflowCommand, WorkflowTask, apply_completed, plan_completed, run_deployment,
}
use kosa_aws.Jobs.Outbox.{call}
use kosa_aws.Base.{some, true, ◌&&◌, ◌==◌, ◌≡◌}
use kosa_aws.Deployment.Contracts.{
  DeploymentApproval, PlanExecutionResult, TerraformPlan, WorkflowRunFacts, approval_matches,
  none_or, success,
}
use kosa_aws.Deployment.Work.{
  Bound, DeploymentWork, is_apply_path, is_success, present, require_approved_plan,
  require_plan_in_scope, require_run_matches_approval,
}
use kosa_aws.Errors.{bind_ok, ok, require_ok}

-- The stored approval is of exactly the stored plan, and the plan's digest is exact.
pub record Approves (w : DeploymentWork) (approval : DeploymentApproval) (plan : TerraformPlan)
    : Type 0 where
  pub stored_approval : w.approval ≡ some approval
  pub stored_plan : w.plan ≡ some plan
  pub deployment : approval.deployment_id ≡ plan.deployment_id
  pub commit : approval.commit_sha ≡ plan.commit_sha
  pub hash : approval.plan_hash ≡ plan.plan_hash
  pub digest : plan.plan_hash ≡ plan.artifact.content_sha256

-- The run that was read is a successful run of an apply workflow on the approved commit and plan.
pub record Confirms (w : DeploymentWork) (approval : DeploymentApproval) (facts : WorkflowRunFacts)
    : Type 0 where
  pub repository : facts.repository_id ≡ w.repository_id
  pub path : is_apply_path facts.workflow_path ≡ true
  pub ref : facts.ref ≡ approval.commit_sha
  pub commit : facts.commit_sha ≡ approval.commit_sha
  pub hash : facts.plan_hash ≡ approval.plan_hash
  pub conclusion : facts.conclusion ≡ success

pub record InScope (w : DeploymentWork) (result : PlanExecutionResult) : Type 0 where
  pub deployment : result.plan.deployment_id ≡ w.deployment_id
  pub commit : result.plan.commit_sha ≡ w.commit_sha
  pub customer : result.plan.artifact.customer_id ≡ w.customer_id
  pub binary_customer : result.binary_artifact.customer_id ≡ w.customer_id
  pub run_deployment_id : result.plan_run.deployment_id ≡ w.deployment_id
  pub run_repository_id : result.plan_run.repository_id ≡ w.repository_id

is_success-success : (c : WorkflowConclusion) → is_success c ≡ true → c ≡ success
unfolding is_success
is_success-success c h = ground arith

present-some {ℓ} : {A : Type ℓ} (o : Option A) {a : A} → present o ≡ ok a → o ≡ some a
present-some none h = cc
present-some (some a) h = cc

approves :
    (w : DeploymentWork) (a : DeploymentApproval) (p : TerraformPlan)
    → present w.approval ≡ ok a
    → present w.plan ≡ ok p
    → (p.plan_hash == p.artifact.content_sha256) ≡ true
    → approval_matches a p ≡ true
    → Approves w a p
unfolding approval_matches
approves w a p ha hp digest matches = record {
  stored_approval = present-some w.approval ha;
  stored_plan = present-some w.plan hp;
  deployment = ground (arith, eq_iff a.deployment_id p.deployment_id, matches);
  commit = ground (arith, eq_iff a.commit_sha p.commit_sha, matches);
  hash = ground (arith, eq_iff a.plan_hash p.plan_hash, matches);
  digest = (eq_iff p.plan_hash p.artifact.content_sha256).0 digest;
}

abbrev Approved : DeploymentWork → Bound → Type 0
Approved w b = Approves w b.approval b.plan × (w.state_version ≡ some b.state_version)

pub require_approved_plan-Approves :
    (w : DeploymentWork) {b : Bound} → require_approved_plan w ≡ ok b → Approved w b
unfolding require_approved_plan
require_approved_plan-Approves w {b} h =
    let (plan, hp, h1) = bind_ok (present w.plan) _ h in
    let (approval, ha, h2) = bind_ok (present w.approval) _ h1 in
    let (state, hs, h3) = bind_ok (present w.state_version) _ h2 in
    let (digest, h4) = require_ok (plan.plan_hash == plan.artifact.content_sha256) _ _ h3 in
    let (matches, h5) = require_ok (approval_matches approval plan) _ _ h4 in
    let made : Approved w (record { approval = approval; plan = plan; state_version = state }) =
      (approves w approval plan ha hp digest matches, present-some w.state_version hs) in
    subst (Approved w) (ok_inj h5) made

pub require_run_matches_approval-Confirms :
    (w : DeploymentWork) (a : DeploymentApproval) (f : WorkflowRunFacts) {u : Unit {0}}
    → require_run_matches_approval w a f ≡ ok u
    → Confirms w a f
unfolding require_run_matches_approval is_success
require_run_matches_approval-Confirms w a f h =
    let (repository, h1) = require_ok (f.repository_id == w.repository_id) _ _ h in
    let (path, h2) = require_ok (is_apply_path f.workflow_path) _ _ h1 in
    let (commits, h3) = require_ok (f.ref == a.commit_sha && f.commit_sha == a.commit_sha) _ _ h2 in
    let (hash, h4) = require_ok (f.plan_hash == a.plan_hash) _ _ h3 in
    record {
      repository = (eq_iff f.repository_id w.repository_id).0 repository;
      path = path;
      ref = ground (arith, eq_iff f.ref a.commit_sha, commits);
      commit = ground (arith, eq_iff f.commit_sha a.commit_sha, commits);
      hash = (eq_iff f.plan_hash a.plan_hash).0 hash;
      conclusion =
          is_success-success f.conclusion
            ((require_iff (is_success f.conclusion) deployment_apply_blocked).0 h4);
    }

pub require_plan_in_scope-InScope :
    (w : DeploymentWork) (r : PlanExecutionResult) {u : Unit {0}}
    → require_plan_in_scope w r ≡ ok u
    → InScope w r
unfolding require_plan_in_scope
require_plan_in_scope-InScope w r h =
    let (plan, h1) =
      require_ok (r.plan.deployment_id == w.deployment_id && r.plan.commit_sha == w.commit_sha) _ _
        h in
    let (customer, h2) = require_ok (r.plan.artifact.customer_id == w.customer_id) _ _ h1 in
    let (repository, h3) =
      require_ok (none_or r.plan.artifact.repository_id w.repository_id) _ _ h2 in
    let (binary, h4) = require_ok (r.binary_artifact.customer_id == w.customer_id) _ _ h3 in
    let (binary_repository, h5) =
      require_ok (none_or r.binary_artifact.repository_id w.repository_id) _ _ h4 in
    let run =
      (require_iff
          (r.plan_run.deployment_id == w.deployment_id
            && r.plan_run.repository_id == w.repository_id)
          deployment_worker_error).0
        h5 in
    record {
      deployment = ground (arith, eq_iff r.plan.deployment_id w.deployment_id, plan);
      commit = ground (arith, eq_iff r.plan.commit_sha w.commit_sha, plan);
      customer = (eq_iff r.plan.artifact.customer_id w.customer_id).0 customer;
      binary_customer = (eq_iff r.binary_artifact.customer_id w.customer_id).0 binary;
      run_deployment_id = ground (arith, eq_iff r.plan_run.deployment_id w.deployment_id, run);
      run_repository_id = ground (arith, eq_iff r.plan_run.repository_id w.repository_id, run);
    }

-- What a call rests on. A call after the run was read needs the run to confirm the approval.
pub record Verified (ports : Ports) (w : DeploymentWork) (facts : WorkflowRunFacts) : Type 0 where
  pub approval : DeploymentApproval
  pub plan : TerraformPlan
  pub run_reference : WorkflowRunReference
  pub approves : Approves w approval plan
  pub stored_run : w.run_reference ≡ some run_reference
  pub read : ports.read_run run_reference ≡ ok facts
  pub confirms : Confirms w approval facts

abbrev pub Permits : Ports → WorkflowCommand → DeploymentWork → Call → Type 0
Permits ports c w (request_plan customer deployment repository commit) =
    (c ≡ run_deployment)
    × (customer ≡ w.customer_id)
    × (deployment ≡ w.deployment_id)
    × (repository ≡ w.repository_id)
    × (commit ≡ w.commit_sha)
Permits ports c w (store_plan v result) =
    (c ≡ run_deployment)
    × (v ≡ w)
    × (ports.request_plan w.customer_id w.deployment_id w.repository_id w.commit_sha ≡ ok result)
    × InScope w result
Permits ports c w (dispatch_apply approval plan state_version plan_run) =
    (c ≡ plan_completed)
    × Approves w approval plan
    × (w.state_version ≡ some state_version)
    × (w.plan_run ≡ some plan_run)
Permits ports c w (store_receipt v receipt) =
    (c ≡ plan_completed) × (v ≡ w) × (require_receipt_in_scope w receipt ≡ ok tt)
Permits ports c w (read_run run) =
    (c ≡ apply_completed)
    × (w.run_reference ≡ some run)
    × ((a : DeploymentApproval) × (p : TerraformPlan) × Approves w a p)
Permits ports c w (reread_actual target) =
    (c ≡ apply_completed)
    × (w.sync_target ≡ some target)
    × ((facts : WorkflowRunFacts) × Verified ports w facts)
Permits ports c w (store_verification v facts) =
    (c ≡ apply_completed) × (v ≡ w) × Verified ports w facts
Permits ports c w (start_verification v) =
    (c ≡ apply_completed) × (v ≡ w) × ((facts : WorkflowRunFacts) × Verified ports w facts)

module _ (ports : Ports) (w : DeploymentWork) where
  run_plan-Safe : Safe (Permits ports run_deployment w) (run_plan ports w)
  unfolding run_plan
  run_plan-Safe =
      Safe-perform _ _ _ (refl, refl, refl, refl, refl)
        λ result h. Safe-lift _ _ λ _ scope.
          Safe-perform _ _ _ (refl, refl, h, require_plan_in_scope-InScope w result scope)
            λ _ _. Safe-pure (planned result)

  dispatch-Safe : Safe (Permits ports plan_completed w) (dispatch ports w)
  unfolding dispatch
  dispatch-Safe = Safe-lift _ _ λ bound h. Safe-lift _ _ λ run hr.
      let (bindings, state) = require_approved_plan-Approves w h in
      Safe-perform _ _ _ (refl, bindings, state, present-some w.plan_run hr)
        λ receipt _.
          Safe-lift _ _
            λ u scope. Safe-perform _ _ _ (refl, refl, scope) λ _ _. Safe-pure (dispatched receipt)

  verify_apply-Safe : Safe (Permits ports apply_completed w) (verify_apply ports w)
  unfolding verify_apply
  verify_apply-Safe = Safe-lift _ _ λ bound h. Safe-lift _ _ λ run hr. Safe-lift _ _ λ target ht.
      let (bindings, state) = require_approved_plan-Approves w h in
      let stored = present-some w.run_reference hr in
      Safe-perform _ _ _ (refl, stored, (bound.approval, bound.plan, bindings))
        λ facts hf. Safe-lift _ _ λ u matches.
          let verified : Verified ports w facts = record {
            approval = bound.approval;
            plan = bound.plan;
            run_reference = run;
            approves = bindings;
            stored_run = stored;
            read = hf;
            confirms = require_run_matches_approval-Confirms w bound.approval facts matches;
          } in
          Safe-perform _ _ _ (refl, present-some w.sync_target ht, (facts, verified))
            λ _ _.
              Safe-perform _ _ _ (refl, refl, verified)
                λ _ _.
                  Safe-perform _ _ _ (refl, refl, (facts, verified))
                    λ _ _. Safe-pure (run_verified facts)

  drive-Safe : (c : WorkflowCommand) → Safe (Permits ports c w) (drive ports c w)
  unfolding drive
  drive-Safe run_deployment = run_plan-Safe
  drive-Safe plan_completed = dispatch-Safe
  drive-Safe apply_completed = verify_apply-Safe
  drive-Safe _ = Safe-raise _

-- The work that a task's call rests on is the one that was reloaded for the task.
abbrev pub Justified : Ports → WorkflowTask → Call → Type 0
Justified ports task call =
    (w : DeploymentWork) × (reload_work task (ports.get_work task.job_id task.expected_revision)
      ≡ ok w)
    × Permits ports task.command w call

map-All {ℓ κ κ'} :
    {A : Type ℓ} {P : A → Type κ} {Q : A → Type κ'} (xs : List A)
    → ((x : A) → P x → Q x)
    → All P xs
    → All Q xs
map-All [] f h = tt
map-All (x ∷ xs) f (h, hs) = (f x h, map-All xs f hs)

handled :
    (ports : Ports) (task : WorkflowTask) (r : Result DeploymentWork)
    → reload_work task (ports.get_work task.job_id task.expected_revision) ≡ r
    → All (Justified ports task) (continue r (drive ports task.command) []).1
handled ports task (err e) h = tt
handled ports task (ok w) h =
    map-All (drive ports task.command w []).1 (λ call p. (w, h, p))
      ((drive-Safe ports w task.command).at [] tt)

-- Whatever the ports return, every call that the worker makes for a task rests on the work reloaded
-- for that task. The plan port is called and a plan is stored under `RUN_DEPLOYMENT` only, the stored
-- plan being one that the port returned and within the work's scope. An apply is dispatched under
-- `PLAN_COMPLETED` only, with the stored approval of exactly the stored plan, whose digest is exact.
-- The Actual is read again, the facts are stored and the verification is started under
-- `APPLY_COMPLETED` only, with a run that was read and that confirms the stored approval.
pub handle-Justified :
    (ports : Ports) (task : WorkflowTask) → All (Justified ports task) (handle ports task []).1
unfolding handle lift kosa_aws.Deployment.Trace.◌>>=◌
handle-Justified ports task = handled ports task _ refl
