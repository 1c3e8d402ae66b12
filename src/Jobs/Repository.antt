-- ===== src/Jobs/Repository.antt =====
-- apps/backend/repositories/dynamodb.py: `DynamoDbJobRepository`, over the table's interface.
pub mod Updates
pub mod Writers
pub mod View
pub mod Atomic
use mathlib.Core.Bool.{decide}
use kosa_aws.Base.{
  Bool, Option, String, false, if◌then◌else◌, nat_eq, none, not, opt_eq, some, true, ℕ, ◌&&◌, ◌+◌,
  ◌==◌, ◌||◌,
}
use kosa_aws.Errors.{
  Error, Result, duplicate_job, err, invalid_job_mutation, ok, repository_error, require,
  revision_conflict, stored_data_error, ◌>>=◌, ◌>>◌,
}
use kosa_aws.Jobs.Item.{Item, customer_pk, found, item_from_job, job_from_item, job_sk}
use kosa_aws.Jobs.Lifecycle.{Transition, transition_job}
use kosa_aws.Jobs.Model.{ApiError, Job, JobCurrentStep, JobStatus, queued, require_non_empty_string}
use kosa_aws.Jobs.Table.{
  Condition, DynamoTable, PutOutcome, absent, condition_failed, provider_failed, revision_is,
  written,
}

pub JobStatus-discrete : Discrete JobStatus
JobStatus-discrete = hlevel

pub JobCurrentStep-discrete : Discrete JobCurrentStep
JobCurrentStep-discrete = hlevel

-- `candidate != job` compares the fields.
unfoldable pub error_eq : Option ApiError → Option ApiError → Bool
error_eq none none = true
error_eq (some a) (some b) = a.code == b.code && a.message == b.message
error_eq _ _ = false

unfoldable pub status_eq : JobStatus → JobStatus → Bool
unfolding JobStatus-discrete
status_eq a b = decide (JobStatus-discrete a b)

unfoldable pub step_eq : JobCurrentStep → JobCurrentStep → Bool
unfolding JobCurrentStep-discrete
step_eq a b = decide (JobCurrentStep-discrete a b)

unfoldable pub job_eq : Job → Job → Bool
job_eq a b =
    a.job_id == b.job_id
    && a.customer_id == b.customer_id
    && a.job_type == b.job_type
    && status_eq a.status b.status
    && step_eq a.current_step b.current_step
    && a.requested_by == b.requested_by
    && nat_eq a.revision b.revision
    && opt_eq a.assessment_id b.assessment_id
    && opt_eq a.remediation_id b.remediation_id
    && opt_eq a.deployment_id b.deployment_id
    && error_eq a.error b.error

unfoldable pub is_queued : JobStatus → Bool
is_queued queued = true
is_queued _ = false

-- The arguments with which `update_job` replays a candidate on the stored job.
abbrev pub replay : Job → ℕ → Transition
replay job expected_revision = record {
  expected_revision = expected_revision;
  status = job.status;
  current_step = some job.current_step;
  assessment_id = job.assessment_id;
  remediation_id = job.remediation_id;
  deployment_id = job.deployment_id;
  error = job.error;
}

-- `except (InvalidJobTransition, StaleJobRevision, TypeError, ValueError)`: all that `transition_job`
-- raises.
abbrev pub lifecycle_error : Result Job → Result Job
lifecycle_error (ok job) = ok job
lifecycle_error (err _) = err invalid_job_mutation

-- The checks of `update_job` on the job that it reads, before it writes.
unfoldable pub check_update : Job → ℕ → Result (Option Job) → Result (Unit {0})
check_update job expected_revision read = do
  require (nat_eq job.revision (expected_revision + 1)) invalid_job_mutation
  found ← read
  current ← elim found [ none ↦ err revision_conflict | some current ↦ ok current ]
  require (nat_eq current.revision expected_revision) revision_conflict
  candidate ← lifecycle_error (transition_job current (replay job expected_revision))
  require (job_eq candidate job) invalid_job_mutation

module _ (db : DynamoTable) where
  open db use {Table, get_item, put_item}

  -- What a put raises; `refused` is the exception for a failed condition.
  abbrev pub put_result : Error → PutOutcome → Result (Unit {0})
  put_result refused written = ok tt
  put_result refused condition_failed = err refused
  put_result refused provider_failed = err repository_error

  abbrev pub scoped : String → Job → Result (Option Job)
  scoped customer_id job =
      if job.customer_id == customer_id then ok (some job) else err stored_data_error

  abbrev pub read_result : String → Option (Option Item) → Result (Option Job)
  read_result customer_id none = err repository_error
  read_result customer_id (some none) = ok none
  read_result customer_id (some (some item)) = job_from_item item >>= scoped customer_id

  unfoldable pub get_job : Table → String → String → Result (Option Job)
  get_job t customer_id job_id =
      require_non_empty_string customer_id
      >> (require_non_empty_string job_id
          >> read_result customer_id (get_item t (customer_pk customer_id) (job_sk job_id)))

  pub put_job : Error → Job → Condition → Table → Result (Unit {0}) × Table
  put_job refused job c t =
      let (outcome, t') =
        put_item t (customer_pk job.customer_id) (job_sk job.job_id) (item_from_job job) c in
      (put_result refused outcome, t')

  unfoldable pub create_job : Job → Table → Result (Unit {0}) × Table
  unfolding put_job
  create_job job t =
      if not (nat_eq job.revision 0) || not (is_queued job.status)
      then (err invalid_job_mutation, t)
      else put_job duplicate_job job absent t

  -- Other writers may act between the read, of `before`, and the conditional put, into `t`.
  unfoldable pub update_job : Job → ℕ → Table → Table → Result (Unit {0}) × Table
  unfolding put_job
  update_job job expected_revision before t =
      elim (check_update job expected_revision (get_job before job.customer_id job.job_id)) [
        | ok _ ↦ put_job revision_conflict job (revision_is expected_revision) t
        | err e ↦ (err e, t)
      ]
