-- ===== src/Jobs/Lifecycle.antt =====
-- apps/backend/jobs/lifecycle.py: the transitions of a job.
pub mod Advance
pub mod Total
pub mod Run
use kosa_aws.Base.{
  Bool, Option, String, false, if◌then◌else◌, is_some, nat_eq, none, not, some, true, ℕ, ◌+◌, ◌==◌,
  ◌||◌,
}
use kosa_aws.Errors.{
  Result, err, invalid_job_transition, ok, require, stale_job_revision, ◌>>=◌, ◌>>◌,
}
use kosa_aws.Jobs.Model.{
  ApiError, Job, JobCurrentStep, JobStatus, cancelled, completed, failed, job_post_init, queued,
  running, waiting_approval, waiting_review,
}

-- `_ALLOWED_TRANSITIONS`: whether the second status is in the set of the first.
unfoldable pub allowed : JobStatus → JobStatus → Bool
allowed queued running = true
allowed queued failed = true
allowed queued cancelled = true
allowed queued _ = false
allowed running queued = false
allowed running _ = true
allowed waiting_review running = true
allowed waiting_review failed = true
allowed waiting_review cancelled = true
allowed waiting_review _ = false
allowed waiting_approval running = true
allowed waiting_approval failed = true
allowed waiting_approval cancelled = true
allowed waiting_approval _ = false
allowed completed _ = false
allowed failed _ = false
allowed cancelled _ = false

-- `status is JobStatus.FAILED`
unfoldable pub is_failed : JobStatus → Bool
is_failed failed = true
is_failed _ = false

-- The keyword arguments of `transition_job`.
pub record Transition : Type 0 where
  pub expected_revision : ℕ
  pub status : JobStatus
  pub current_step : Option JobCurrentStep
  pub assessment_id : Option String
  pub remediation_id : Option String
  pub deployment_id : Option String
  pub error : Option ApiError

-- A transition to `status` at `step` that leaves the other arguments at their defaults.
abbrev pub plain : ℕ → JobStatus → Option JobCurrentStep → Transition
plain revision status step = record {
  expected_revision = revision;
  status = status;
  current_step = step;
  assessment_id = none;
  remediation_id = none;
  deployment_id = none;
  error = none;
}

unfoldable pub create_job :
    (job_id customer_id job_type : String) → JobCurrentStep → String → Option String → Result Job
create_job job_id customer_id job_type initial_step requested_by assessment_id =
    job_post_init (record {
      job_id = job_id;
      customer_id = customer_id;
      job_type = job_type;
      status = queued;
      current_step = initial_step;
      requested_by = requested_by;
      revision = 0;
      assessment_id = assessment_id;
      remediation_id = none;
      deployment_id = none;
      error = none;
    })

-- `_link_once`
unfoldable pub link_once : Option String → Option String → Result (Option String)
link_once existing none = ok existing
link_once none (some candidate) = ok (some candidate)
link_once (some existing) (some candidate) =
    if candidate == existing then ok (some existing) else err invalid_job_transition

abbrev pub step_or : JobCurrentStep → Option JobCurrentStep → JobCurrentStep
step_or old none = old
step_or old (some new) = new

unfoldable pub transition_job : Job → Transition → Result Job
transition_job job t = do
  require (nat_eq job.revision t.expected_revision) stale_job_revision
  require (allowed job.status t.status) invalid_job_transition
  require (is_failed t.status || not (is_some t.error)) invalid_job_transition
  assessment_id ← link_once job.assessment_id t.assessment_id
  remediation_id ← link_once job.remediation_id t.remediation_id
  deployment_id ← link_once job.deployment_id t.deployment_id
  job_post_init (record job {
    status = t.status;
    current_step = step_or job.current_step t.current_step;
    revision = job.revision + 1;
    assessment_id = assessment_id;
    remediation_id = remediation_id;
    deployment_id = deployment_id;
    error = t.error;
  })
