-- ===== src/Deployment/Completion.antt =====
-- apps/backend/deployment/completion.py: the completion event of an apply run.
pub mod Event
pub mod Resumes
use kosa_aws.Base.{Option, String, if◌then◌else◌, is_blank, none, not, some, ℕ}
use kosa_aws.Deployment.Record.{DeploymentRecord}
use kosa_aws.Errors.{Result, apply_completion_error, err, ok, require, ◌>>=◌, ◌>>◌}
use kosa_aws.Jobs.Lifecycle.{plain, transition_job}
use kosa_aws.Jobs.Lifecycle.Run.{is_terminal}
use kosa_aws.Jobs.Model.{Job, apply_completed, post_deploy_verification, running, workflow_task}
use kosa_aws.Jobs.Outbox.{WorkflowOutboxEntry, outbox_entry}

pub record CompletionPorts : Type 0 where
  pub resolve_customer_id : String → Result (Option String)
  pub get_deployment : (customer deployment : String) → Result (Option DeploymentRecord)
  pub get_job : (customer job : String) → Result (Option Job)
  pub reserve_completion_event :
      (deployment run : String) → Job → ℕ → WorkflowOutboxEntry → Result (Unit {0})

pub record Reservation : Type 0 where
  pub resumed_job : Job
  pub expected_revision : ℕ
  pub outbox : WorkflowOutboxEntry

-- `if not isinstance(value, str) or not value.strip(): raise ApplyCompletionError`
abbrev pub named : Option String → Result String
named none = err apply_completion_error
named (some value) = if is_blank value then err apply_completion_error else ok value

abbrev pub stored_or_missing : {A : Type 0} → Option A → Result A
stored_or_missing none = err apply_completion_error
stored_or_missing (some a) = ok a

-- What `record_completion` does before it reserves the event.
unfoldable pub prepare_completion :
    CompletionPorts → (deployment_id run_id : String) → Result Reservation
unfolding is_terminal transition_job workflow_task outbox_entry
prepare_completion ports deployment_id run_id = do
  _ ← named (some deployment_id)
  _ ← named (some run_id)
  owner ← ports.resolve_customer_id deployment_id
  customer_id ← named owner
  stored ← ports.get_deployment customer_id deployment_id
  deployment ← stored_or_missing stored
  stored_job ← ports.get_job customer_id deployment.job_id
  job ← stored_or_missing stored_job
  require (not (is_terminal job.status)) apply_completion_error
  resumed ← transition_job job (plain job.revision running (some post_deploy_verification))
  task ← workflow_task job.job_id resumed.revision apply_completed
  outbox ← outbox_entry customer_id job.job_id task
  ok (record { resumed_job = resumed; expected_revision = job.revision; outbox = outbox })
