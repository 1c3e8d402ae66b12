-- ===== src/Jobs/Lifecycle/Run.antt =====
-- Runs of the lifecycle: jobs that a sequence of transitions leads to.
use kosa_aws.Base.{Bool, ap, arith, false, refl, suc, true, ℕ, ◌+◌, ◌∙◌, ◌≡◌, ◌≢◌}
use kosa_aws.Errors.{ok}
use kosa_aws.Jobs.Lifecycle.{Transition, allowed, transition_job}
use kosa_aws.Jobs.Lifecycle.Advance.{
  KeepsLink, job_post_init-eq, transition_job-Advances, transition_job-Taken,
}
use kosa_aws.Jobs.Lifecycle.Total.{IsValid}
use kosa_aws.Jobs.Model.{Job, JobStatus, cancelled, completed, failed}

-- `Run j n k`: n successful transitions lead from `j` to `k`.
pub data Run (j : Job) : ℕ → Job → Type 0 where
  here : Run j 0 j
  next :
      {n : ℕ} {k l : Job}
      → Run j n k
      → (t : Transition) → transition_job k t ≡ ok l
      → Run j (suc n) l

-- COMPLETED, FAILED and CANCELLED
unfoldable pub is_terminal : JobStatus → Bool
is_terminal completed = true
is_terminal failed = true
is_terminal cancelled = true
is_terminal _ = false

-- What every run keeps, whatever its transitions.
pub record Continues (j : Job) (n : ℕ) (k : Job) : Type 0 where
  pub revision : k.revision ≡ j.revision + n
  pub job_id : k.job_id ≡ j.job_id
  pub customer_id : k.customer_id ≡ j.customer_id
  pub job_type : k.job_type ≡ j.job_type
  pub requested_by : k.requested_by ≡ j.requested_by
  pub assessment_id : KeepsLink j.assessment_id k.assessment_id
  pub remediation_id : KeepsLink j.remediation_id k.remediation_id
  pub deployment_id : KeepsLink j.deployment_id k.deployment_id
  pub valid : IsValid j → IsValid k

pub transition_job-IsValid :
    (j : Job) (t : Transition) {k : Job} → transition_job j t ≡ ok k → IsValid k
transition_job-IsValid j t h =
    let taken = transition_job-Taken j t h in
    rw (job_post_init-eq _ taken.built) (taken.built ∙ ap ok (job_post_init-eq _ taken.built))

-- After n transitions the revision is n higher, the identity fields are the same, a link once set is
-- still set to the same value, and a valid job is still valid.
pub Run-Continues : {j k : Job} {n : ℕ} → Run j n k → Continues j n k
Run-Continues here = record {
  revision = omega arith;
  job_id = refl;
  customer_id = refl;
  job_type = refl;
  requested_by = refl;
  assessment_id = λ _ e. e;
  remediation_id = λ _ e. e;
  deployment_id = λ _ e. e;
  valid = λ v. v;
}
Run-Continues (next {k = k} r t h) =
    let before = Run-Continues r in
    let step = transition_job-Advances k t h in
    record {
      revision = omega (arith, step.revision, before.revision);
      job_id = step.job_id ∙ before.job_id;
      customer_id = step.customer_id ∙ before.customer_id;
      job_type = step.job_type ∙ before.job_type;
      requested_by = step.requested_by ∙ before.requested_by;
      assessment_id = λ id e. step.assessment_id id (before.assessment_id id e);
      remediation_id = λ id e. step.remediation_id id (before.remediation_id id e);
      deployment_id = λ id e. step.deployment_id id (before.deployment_id id e);
      valid = λ _. transition_job-IsValid k t h;
    }

allowed-terminal : (s t : JobStatus) → is_terminal s ≡ true → allowed s t ≡ false
unfolding allowed is_terminal
allowed-terminal s t h = ground arith

-- A job that is COMPLETED, FAILED or CANCELLED takes no transition: whatever the arguments,
-- `transition_job` raises.
pub transition_job-terminal :
    (j : Job) (t : Transition) {k : Job} → is_terminal j.status ≡ true → transition_job j t ≢ ok k
transition_job-terminal j t h e =
    cc (allowed-terminal j.status t.status h, (transition_job-Taken j t e).status)

-- A run that starts at a finished job is empty.
pub Run-terminal : {j k : Job} {n : ℕ} → is_terminal j.status ≡ true → Run j n k → (n ≡ 0) × (k ≡ j)
Run-terminal h here = (refl, refl)
Run-terminal {j} h (next {n = n} {k = k} r t e) =
    let same = (Run-terminal h r).1 in
    absurd (transition_job-terminal k t (ap (λ (x : Job). is_terminal x.status) same ∙ h) e)
