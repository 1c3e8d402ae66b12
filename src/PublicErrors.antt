-- ===== src/PublicErrors.antt =====
-- apps/backend/jobs/errors.py: the HTTP status and the public error of an exception.
pub mod Disclosed
mod Tests
use kosa_aws.Base.{String, ℕ}
use kosa_aws.Errors.{
  Error, approval_conflict, assessment_scope_denied, authoring_run_not_found, authorization_denied,
  deployment_approval_error, deployment_conflict, duplicate_job, invalid_identity_claims,
  invalid_job_mutation, invalid_job_transition, job_not_found, orchestration_unavailable,
  policy_profile_in_use, policy_profile_not_found, policy_source_delete_forbidden,
  policy_source_not_found, remediation_not_automatable, repository_error, request_validation_error,
  revision_conflict, stale_job_revision, stored_data_error, workflow_dispatch_error,
}
use kosa_aws.Jobs.Model.{ApiError}

pub record PublicFailure : Type 0 where
  pub status_code : ℕ
  pub error : ApiError

unfoldable pub public_failure : ℕ → String → String → PublicFailure
public_failure status_code code message = record {
  status_code = status_code;
  error = record { code = code; message = message };
}

abbrev pub conflict : PublicFailure
conflict = public_failure 409 "CONFLICT" "The request conflicts with current state"

abbrev pub missing : PublicFailure
missing = public_failure 404 "NOT_FOUND" "The requested resource was not found"

abbrev pub denied : PublicFailure
denied = public_failure 403 "SCOPE_DENIED" "The requested resource is outside the approved scope"

abbrev pub unavailable : PublicFailure
unavailable = public_failure 503 "EXECUTION_ERROR" "The service is temporarily unavailable"

-- `sanitize_public_failure`, by the exception's class
unfoldable pub sanitize_public_failure : Error → PublicFailure
unfolding public_failure
sanitize_public_failure invalid_identity_claims =
    public_failure 401 "UNAUTHORIZED" "Authentication is required"
sanitize_public_failure authorization_denied = denied
sanitize_public_failure assessment_scope_denied = denied
sanitize_public_failure authoring_run_not_found = missing
sanitize_public_failure job_not_found = missing
sanitize_public_failure policy_profile_not_found = missing
sanitize_public_failure policy_source_not_found = missing
sanitize_public_failure request_validation_error =
    public_failure 400 "VALIDATION_ERROR" "The request is invalid"
sanitize_public_failure approval_conflict = conflict
sanitize_public_failure deployment_approval_error = conflict
sanitize_public_failure deployment_conflict = conflict
sanitize_public_failure policy_profile_in_use = conflict
sanitize_public_failure policy_source_delete_forbidden = conflict
sanitize_public_failure remediation_not_automatable = conflict
sanitize_public_failure duplicate_job = conflict
sanitize_public_failure invalid_job_mutation = conflict
sanitize_public_failure invalid_job_transition = conflict
sanitize_public_failure revision_conflict = conflict
sanitize_public_failure stale_job_revision = conflict
sanitize_public_failure repository_error = unavailable
sanitize_public_failure stored_data_error = unavailable
sanitize_public_failure workflow_dispatch_error = unavailable
sanitize_public_failure orchestration_unavailable =
    public_failure 502 "ORCHESTRATION_UNAVAILABLE" "The assistant could not process this request"
sanitize_public_failure _ = public_failure 500 "EXECUTION_ERROR" "An internal error occurred"
