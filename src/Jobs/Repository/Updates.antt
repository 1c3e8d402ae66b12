-- ===== src/Jobs/Repository/Updates.antt =====
-- What an update of a stored job that succeeds has done, and why two writers cannot both win.
use mathlib.Core.Bool.{decide}
use kosa_aws.Base.{
  Bool, Option, String, ap, arith, eq_iff, false, inl, inr, nat_eq, nat_eq_iff, none, opt_eq_iff,
  refl, some, true, ℕ, ◌&&◌, ◌+◌, ◌==◌, ◌∙◌, ◌≡◌,
}
use kosa_aws.Errors.{
  Error, Result, Result-cases, bind_ok, err, invalid_job_mutation, ok, require, require_ok,
  revision_conflict,
}
use kosa_aws.Jobs.Item.{Item, customer_pk, item_from_job, job_sk}
use kosa_aws.Jobs.Lifecycle.{transition_job}
use kosa_aws.Jobs.Lifecycle.Advance.{Advances, transition_job-Advances}
use kosa_aws.Jobs.Lifecycle.Run.{transition_job-IsValid}
use kosa_aws.Jobs.Lifecycle.Total.{IsValid}
use kosa_aws.Jobs.Model.{ApiError, Job, JobCurrentStep, JobStatus}
use kosa_aws.Jobs.Repository.{
  JobCurrentStep-discrete, JobStatus-discrete, check_update, error_eq, get_job, job_eq,
  lifecycle_error, put_job, put_result, replay, status_eq, step_eq, update_job,
}
use kosa_aws.Jobs.Table.{
  DynamoTable, Holds, PutOutcome, condition_failed, provider_failed, revision_is, written,
}

decided {ℓ} : {A : Type ℓ} (d : Dec A) → decide d ≡ true → A
unfolding decide
decided (yes a) h = a
decided (no n) h = absurd (cc)

status_eq→eq : (a b : JobStatus) → status_eq a b ≡ true → a ≡ b
unfolding status_eq
status_eq→eq a b h = decided (JobStatus-discrete a b) h

step_eq→eq : (a b : JobCurrentStep) → step_eq a b ≡ true → a ≡ b
unfolding step_eq
step_eq→eq a b h = decided (JobCurrentStep-discrete a b) h

error_eq→eq : (a b : Option ApiError) → error_eq a b ≡ true → a ≡ b
unfolding error_eq
error_eq→eq none none h = refl
error_eq→eq (some a) (some b) h = ground (arith, eq_iff a.code b.code, eq_iff a.message b.message)
error_eq→eq none (some b) h = cc
error_eq→eq (some a) none h = cc

job_eq→eq : (a b : Job) → job_eq a b ≡ true → a ≡ b
unfolding job_eq
job_eq→eq a b h = ground (
  arith,
  eq_iff a.job_id b.job_id,
  eq_iff a.customer_id b.customer_id,
  eq_iff a.job_type b.job_type,
  eq_iff a.requested_by b.requested_by,
  status_eq→eq a.status b.status,
  step_eq→eq a.current_step b.current_step,
  opt_eq_iff a.assessment_id b.assessment_id,
  opt_eq_iff a.remediation_id b.remediation_id,
  opt_eq_iff a.deployment_id b.deployment_id,
  error_eq→eq a.error b.error,
)

-- What `check_update` has found when it lets an update through.
pub record Checked (job : Job) (expected : ℕ) (read : Result (Option Job)) : Type 0 where
  pub current : Job
  pub reads : read ≡ ok (some current)
  pub revision : current.revision ≡ expected
  pub transition : transition_job current (replay job expected) ≡ ok job

required : (c : Bool) (e : Error) {u : Unit {0}} → require c e ≡ ok u → c ≡ true
required true e h = refl
required false e h = absurd (cc)

lifecycle_ok : (r : Result Job) {c : Job} → lifecycle_error r ≡ ok c → r ≡ ok c
lifecycle_ok (ok job) h = h
lifecycle_ok (err e) h = absurd (cc)

check_update-Checked :
    (job : Job) (expected : ℕ) (read : Result (Option Job))
    → check_update job expected read ≡ ok tt
    → Checked job expected read
unfolding check_update
check_update-Checked job expected (err e) h =
    absurd (let (_, wrong) = require_ok (nat_eq job.revision (expected + 1)) _ _ h in cc wrong)
check_update-Checked job expected (ok none) h =
    absurd (let (_, wrong) = require_ok (nat_eq job.revision (expected + 1)) _ _ h in cc wrong)
check_update-Checked job expected (ok (some current)) h =
    let (_, h1) = require_ok (nat_eq job.revision (expected + 1)) _ _ h in
    let (fresh, h2) = require_ok (nat_eq current.revision expected) _ _ h1 in
    let step : Result Job = transition_job current (replay job expected) in
    let (candidate, e, h3) = bind_ok (lifecycle_error step) _ h2 in
    let same = required (job_eq candidate job) invalid_job_mutation h3 in
    record {
      current = current;
      reads = refl;
      revision = (nat_eq_iff _ _).0 fresh;
      transition = lifecycle_ok step e ∙ ap ok (job_eq→eq candidate job same);
    }

module _ (db : DynamoTable) where
  open db use {Table, stored, written_holds, written_stored}

  -- What the table holds for a job's key.
  abbrev pub at_key : Table → Job → Option Item
  at_key t job = stored t (customer_pk job.customer_id) (job_sk job.job_id)

  -- What an update that returns has done.
  pub record Commits (job : Job) (expected : ℕ) (before t after : Table) : Type 0 where
    pub current : Job
    pub reads : get_job db before job.customer_id job.job_id ≡ ok (some current)
    pub was_expected : current.revision ≡ expected
    pub transition : transition_job current (replay job expected) ≡ ok job
    pub advances : Advances current job
    pub revision : job.revision ≡ expected + 1
    -- the condition held when the write was carried out
    pub held : Holds (revision_is expected) (at_key t job)
    pub stores : at_key after job ≡ some (item_from_job job)
    pub valid : IsValid job
    pub others :
        (pk sk : String)
        → (customer_pk job.customer_id == pk && job_sk job.job_id == sk) ≡ false
        → stored after pk sk ≡ stored t pk sk

  pub put_written :
      (refused : Error) (o : PutOutcome) {u : Unit {0}}
      → put_result db refused o ≡ ok u
      → o ≡ written
  put_written refused written h = refl
  put_written refused condition_failed h = absurd (cc)
  put_written refused provider_failed h = absurd (cc)

  put_job-Commits :
      (job : Job) (expected : ℕ) (before t : Table)
      → Checked job expected (get_job db before job.customer_id job.job_id)
      → (put_job db revision_conflict job (revision_is expected) t).0 ≡ ok tt
      → Commits job expected before t (put_job db revision_conflict job (revision_is expected) t).1
  unfolding put_job
  put_job-Commits job expected before t checked h =
      let pk = customer_pk job.customer_id in
      let sk = job_sk job.job_id in
      let done = put_written revision_conflict _ h in
      let stores = written_stored t pk sk (item_from_job job) (revision_is expected) done in
      let step = transition_job-Advances checked.current (replay job expected) checked.transition in
      record {
        current = checked.current;
        reads = checked.reads;
        was_expected = checked.revision;
        transition = checked.transition;
        advances = step;
        revision = omega (arith, step.revision, checked.revision);
        held = written_holds t pk sk (item_from_job job) (revision_is expected) done;
        stores = stores pk sk ∙ rw ((eq_iff pk pk).1 refl, (eq_iff sk sk).1 refl);
        valid = transition_job-IsValid checked.current (replay job expected) checked.transition;
        others = λ pk' sk' differ. stores pk' sk' ∙ (rw differ);
      }

  -- An update of a job that returns read a stored job from which the new one is an allowed step, found
  -- the expected revision at the key when it wrote, stored exactly the new job under the key, and
  -- changed no other key, whatever other writers did between its read and its write.
  pub update_job-Commits :
      (job : Job) (expected : ℕ) (before t : Table)
      → (update_job db job expected before t).0 ≡ ok tt
      → Commits job expected before t (update_job db job expected before t).1
  unfolding update_job
  update_job-Commits job expected before t h =
      elim (Result-cases
        (check_update job expected (get_job db before job.customer_id job.job_id))) [
          | inl (u, e) ↦
              rw (e, update_job)
                (put_job-Commits job expected before t (check_update-Checked job expected _ e)
                  (rw (e, update_job) at h))
          | inr (x, e) ↦ absurd (let wrong : (err x ≡ ok tt) = rw (e, update_job) at h in cc wrong)
        ]
