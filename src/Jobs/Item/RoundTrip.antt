-- ===== src/Jobs/Item/RoundTrip.antt =====
-- A job that is written to the table is read back as it was.
use kosa_aws.Base.{Option, String, arith, false, is_blank, none, refl, some, ◌++◌, ◌≡◌}
use kosa_aws.Errors.{ok}
use kosa_aws.Jobs.Item.{
  Item, api_error, error_attribute, item_from_job, job_from_item, link_attribute, lookup, member_of,
  optional_text, status_value, statuses, step_value, steps, stored_error,
}
use kosa_aws.Jobs.Lifecycle.Total.{IsValid}
use kosa_aws.Jobs.Model.{ApiError, Job, JobCurrentStep, JobStatus, load_iac, queued}

status-value : (s : JobStatus) → member_of status_value statuses (status_value s) ≡ some s
unfolding member_of status_value
status-value queued = refl
status-value _ = refl

step-value : (s : JobCurrentStep) → member_of step_value steps (step_value s) ≡ some s
unfolding member_of step_value
step-value load_iac = refl
step-value _ = refl

-- The attributes that an item has only where the job has the value.
abbrev optional : (a r d : Option String) → Option ApiError → Item
optional a r d e =
    link_attribute "assessment_id" a
    ++ (link_attribute "remediation_id" r
        ++ (link_attribute "deployment_id" d ++ error_attribute e))

module _ (a r d : Option String) (e : Option ApiError) where
  assessment_read : optional_text (lookup "assessment_id" (optional a r d e)) ≡ ok a
  unfolding lookup
  assessment_read = ground arith

  remediation_read : optional_text (lookup "remediation_id" (optional a r d e)) ≡ ok r
  unfolding lookup
  remediation_read = ground arith

  deployment_read : optional_text (lookup "deployment_id" (optional a r d e)) ≡ ok d
  unfolding lookup
  deployment_read = ground arith

  error_read : lookup "error" (optional a r d e) ≡ lookup "error" (error_attribute e)
  unfolding lookup
  error_read = ground arith

-- An error whose fields its constructor accepts.
abbrev pub IsNamed : Option ApiError → Type 0
IsNamed none = Unit
IsNamed (some e) = (is_blank e.code ≡ false) × (is_blank e.message ≡ false)

error_back :
    (a r d : Option String) (e : Option ApiError)
    → IsNamed e
    → stored_error (lookup "error" (optional a r d e)) ≡ ok e
unfolding lookup api_error
error_back a r d none h = rw (error_read a r d none)
error_back a r d (some e) h = rw (error_read a r d (some e)) (ground arith)

-- A job that its constructor accepts, with an error (if any) that its constructor accepts, is read
-- back from the item that it is written as.
pub job_from_item-item_from_job :
    (j : Job) → IsValid j → IsNamed j.error → job_from_item (item_from_job j) ≡ ok j
unfolding job_from_item item_from_job
job_from_item-item_from_job j v named =
    let a = j.assessment_id in
    let r = j.remediation_id in
    let d = j.deployment_id in
    let e = j.error in
    rw (
      error_back a r d e named,
      status-value j.status,
      step-value j.current_step,
      assessment_read a r d e,
      remediation_read a r d e,
      deployment_read a r d e,
      v,
    )
