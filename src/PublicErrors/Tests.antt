-- ===== src/PublicErrors/Tests.antt =====
-- A transition with a stale revision.
use kosa_aws.Base.{none, refl, ◌≡◌}
use kosa_aws.Errors.{err, ok, stale_job_revision}
use kosa_aws.Jobs.Lifecycle.{is_failed, plain, transition_job}
use kosa_aws.Jobs.Model.{
  Job, assess, completed, job_post_init, require_optional_non_empty_string, running,
}
use kosa_aws.PublicErrors.{sanitize_public_failure}
use kosa_aws.PublicErrors.Disclosed.{Formed, transition_job-conflict}

abbrev current_job : Job
current_job = record {
  job_id = "job-1";
  customer_id = "acme";
  job_type = "ASSESSMENT";
  status = running;
  current_step = assess;
  requested_by = "bob";
  revision = 3;
  assessment_id = none;
  remediation_id = none;
  deployment_id = none;
  error = none;
}

test_current : job_post_init current_job ≡ ok current_job
unfolding job_post_init kosa_aws.Base.is_blank kosa_aws.Jobs.Model.error_fits
test_current = refl

plain-Formed : Formed (plain 2 completed none)
unfolding is_failed require_optional_non_empty_string
plain-Formed = record {
  error = refl;
  assessment_named = refl;
  remediation_named = refl;
  deployment_named = refl;
}

test_stale : transition_job current_job (plain 2 completed none) ≡ err stale_job_revision
unfolding transition_job
test_stale = refl

transition_job-conflict_example : (sanitize_public_failure stale_job_revision).status_code ≡ 409
transition_job-conflict_example =
    transition_job-conflict current_job (plain 2 completed none) test_current plain-Formed
      test_stale
