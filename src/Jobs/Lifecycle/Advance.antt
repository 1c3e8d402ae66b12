-- ===== src/Jobs/Lifecycle/Advance.antt =====
-- What a successful transition does to a job, and what a run of them keeps.
use kosa_aws.Base.{Option, String, arith, nat_eq, none, refl, some, true, ◌+◌, ◌≡◌}
use kosa_aws.Errors.{bind_ok, ok, require_ok}
use kosa_aws.Jobs.Lifecycle.{Transition, allowed, link_once, step_or, transition_job}
use kosa_aws.Jobs.Model.{Job, error_fits, job_post_init}

-- A link that is set stays as it is.
abbrev pub KeepsLink : Option String → Option String → Type 0
KeepsLink old new = (id : String) → old ≡ some id → new ≡ some id

-- One allowed step of the lifecycle.
pub record Advances (j k : Job) : Type 0 where
  pub revision : k.revision ≡ j.revision + 1
  pub status : allowed j.status k.status ≡ true
  pub job_id : k.job_id ≡ j.job_id
  pub customer_id : k.customer_id ≡ j.customer_id
  pub job_type : k.job_type ≡ j.job_type
  pub requested_by : k.requested_by ≡ j.requested_by
  pub assessment_id : KeepsLink j.assessment_id k.assessment_id
  pub remediation_id : KeepsLink j.remediation_id k.remediation_id
  pub deployment_id : KeepsLink j.deployment_id k.deployment_id
  pub error : error_fits k.status k.error ≡ true

link_once-KeepsLink :
    (old candidate : Option String) {new : Option String}
    → link_once old candidate ≡ ok new
    → KeepsLink old new
unfolding link_once
link_once-KeepsLink old none h id e = ground arith
link_once-KeepsLink none (some c) h id e = cc
link_once-KeepsLink (some o) (some c) h id e = ground arith

pub job_post_init-eq : (j : Job) {k : Job} → job_post_init j ≡ ok k → k ≡ j
unfolding job_post_init
job_post_init-eq j h = ground arith

pub job_post_init-error :
    (j : Job) {k : Job} → job_post_init j ≡ ok k → error_fits j.status j.error ≡ true
unfolding job_post_init
job_post_init-error j h = ground arith

-- The job that the arguments and the three links lead to.
abbrev pub next_job : Job → Transition → (a r d : Option String) → Job
next_job job t a r d = record job {
  status = t.status;
  current_step = step_or job.current_step t.current_step;
  revision = job.revision + 1;
  assessment_id = a;
  remediation_id = r;
  deployment_id = d;
  error = t.error;
}

-- What a successful transition has passed.
pub record Taken (j : Job) (t : Transition) (k : Job) : Type 0 where
  pub assessment_id : Option String
  pub remediation_id : Option String
  pub deployment_id : Option String
  pub revision : nat_eq j.revision t.expected_revision ≡ true
  pub status : allowed j.status t.status ≡ true
  pub links_assessment : link_once j.assessment_id t.assessment_id ≡ ok assessment_id
  pub links_remediation : link_once j.remediation_id t.remediation_id ≡ ok remediation_id
  pub links_deployment : link_once j.deployment_id t.deployment_id ≡ ok deployment_id
  pub built : job_post_init (next_job j t assessment_id remediation_id deployment_id) ≡ ok k

pub transition_job-Taken :
    (j : Job) (t : Transition) {k : Job} → transition_job j t ≡ ok k → Taken j t k
unfolding transition_job
transition_job-Taken j t h =
    let (fresh, h1) = require_ok _ _ _ h in
    let (allows, h2) = require_ok _ _ _ h1 in
    let (blames, h3) = require_ok _ _ _ h2 in
    let (a, ea, h4) = bind_ok _ _ h3 in
    let (r, er, h5) = bind_ok _ _ h4 in
    let (d, ed, built) = bind_ok _ _ h5 in
    record {
      assessment_id = a;
      remediation_id = r;
      deployment_id = d;
      revision = fresh;
      status = allows;
      links_assessment = ea;
      links_remediation = er;
      links_deployment = ed;
      built = built;
    }

-- A transition that succeeds is an allowed step: the revision grows by one, the status change is in
-- the table, identity fields are unchanged, links that were set stay, and the new job has an error
-- exactly if it is FAILED.
pub transition_job-Advances :
    (j : Job) (t : Transition) {k : Job} → transition_job j t ≡ ok k → Advances j k
transition_job-Advances j t {k} h =
    let taken = transition_job-Taken j t h in
    let a = taken.assessment_id in
    let r = taken.remediation_id in
    let d = taken.deployment_id in
    let same = job_post_init-eq (next_job j t a r d) taken.built in
    rw same (record {
      revision = refl;
      status = taken.status;
      job_id = refl;
      customer_id = refl;
      job_type = refl;
      requested_by = refl;
      assessment_id = link_once-KeepsLink j.assessment_id t.assessment_id taken.links_assessment;
      remediation_id =
          link_once-KeepsLink j.remediation_id t.remediation_id taken.links_remediation;
      deployment_id = link_once-KeepsLink j.deployment_id t.deployment_id taken.links_deployment;
      error = job_post_init-error (next_job j t a r d) taken.built;
    })
