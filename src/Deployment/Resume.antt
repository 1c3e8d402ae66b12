-- ===== src/Deployment/Resume.antt =====
-- What approval and completion have in common: a waiting job is resumed, and the message that continues
-- it names the new revision.
use mathlib.Core.Path.{subst}
use kosa_aws.Base.{String, ap, refl, some, ℕ, ◌==◌, ◌∙◌, ◌≡◌}
use kosa_aws.Errors.{bind_ok, ok, ok_inj, require_ok}
use kosa_aws.Jobs.Lifecycle.{Transition, plain, step_or, transition_job}
use kosa_aws.Jobs.Lifecycle.Advance.{
  Advances, job_post_init-eq, next_job, transition_job-Advances, transition_job-Taken,
}
use kosa_aws.Jobs.Model.{
  Job, JobCurrentStep, WorkflowCommand, WorkflowTask, require_non_empty_string, running,
  workflow_task,
}
use kosa_aws.Jobs.Outbox.{WorkflowOutboxEntry, outbox_entry, pending}

-- The resumed job and its message, from the stored job.
pub record Resumes (customer : String) (step : JobCurrentStep) (command : WorkflowCommand)
    (job resumed : Job) (outbox : WorkflowOutboxEntry) : Type 0 where
  pub advances : Advances job resumed
  pub status : resumed.status ≡ running
  pub current_step : resumed.current_step ≡ step
  pub message_customer : outbox.customer_id ≡ customer
  pub message_job : outbox.task.job_id ≡ job.job_id
  pub message_revision : outbox.task.expected_revision ≡ resumed.revision
  pub message_command : outbox.task.command ≡ command
  pub waits : outbox.status ≡ pending

transition_job-target :
    (j : Job) (t : Transition) {k : Job}
    → transition_job j t ≡ ok k
    → (k.status ≡ t.status) × (k.current_step ≡ step_or j.current_step t.current_step)
transition_job-target j t h =
    let taken = transition_job-Taken j t h in
    let same =
      job_post_init-eq (next_job j t taken.assessment_id taken.remediation_id taken.deployment_id)
        taken.built in
    (ap (λ (x : Job). x.status) same, ap (λ (x : Job). x.current_step) same)

workflow_task-made :
    (job_id : String) (revision : ℕ) (command : WorkflowCommand) {t : WorkflowTask}
    → workflow_task job_id revision command ≡ ok t
    → (t.job_id ≡ job_id) × (t.expected_revision ≡ revision) × (t.command ≡ command)
unfolding workflow_task
workflow_task-made job_id revision command {t} h =
    let (_, _, h1) = bind_ok (require_non_empty_string job_id) _ h in
    subst
      (λ (t : WorkflowTask).
        (t.job_id ≡ job_id) × (t.expected_revision ≡ revision) × (t.command ≡ command))
      (ok_inj h1) (refl, refl, refl)

outbox_entry-made :
    (customer job_id : String) (task : WorkflowTask) {o : WorkflowOutboxEntry}
    → outbox_entry customer job_id task ≡ ok o
    → (o.customer_id ≡ customer) × (o.task ≡ task) × (o.status ≡ pending)
unfolding outbox_entry
outbox_entry-made customer job_id task h =
    let (_, _, h1) = bind_ok (require_non_empty_string customer) _ h in
    let (_, _, h2) = bind_ok (require_non_empty_string job_id) _ h1 in
    let (_, h3) = require_ok (task.job_id == job_id) _ _ h2 in
    subst
      (λ (o : WorkflowOutboxEntry).
        (o.customer_id ≡ customer) × (o.task ≡ task) × (o.status ≡ pending))
      (ok_inj h3) (refl, refl, refl)

pub resumed-Resumes :
    (customer : String) (step : JobCurrentStep) (command : WorkflowCommand) (job : Job)
    {resumed : Job} {task : WorkflowTask} {outbox : WorkflowOutboxEntry}
    → transition_job job (plain job.revision running (some step)) ≡ ok resumed
    → workflow_task job.job_id resumed.revision command ≡ ok task
    → outbox_entry customer job.job_id task ≡ ok outbox
    → Resumes customer step command job resumed outbox
resumed-Resumes customer step command job {resumed} {task} {outbox} ht hw ho =
    let (status, current) = transition_job-target job _ ht in
    let (named_job, revision, named_command) =
      workflow_task-made job.job_id resumed.revision command hw in
    let (owner, carries, waits) = outbox_entry-made customer job.job_id task ho in
    record {
      advances = transition_job-Advances job _ ht;
      status = status;
      current_step = current;
      message_customer = owner;
      message_job = ap (λ (t : WorkflowTask). t.job_id) carries ∙ named_job;
      message_revision = ap (λ (t : WorkflowTask). t.expected_revision) carries ∙ revision;
      message_command = ap (λ (t : WorkflowTask). t.command) carries ∙ named_command;
      waits = waits;
    }
