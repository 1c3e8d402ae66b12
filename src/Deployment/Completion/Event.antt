-- ===== src/Deployment/Completion/Event.antt =====
-- apps/backend/deployment/completion.py: `record_completion`, whose calls are recorded.
use kosa_aws.Base.{String, ℕ}
use kosa_aws.Deployment.Completion.{CompletionPorts, prepare_completion}
use kosa_aws.Deployment.Trace.{Exec, lift, perform, pure, raise, ◌>>=◌}
use kosa_aws.Errors.{Error, Result, duplicate_job, err, ok}
use kosa_aws.Jobs.Model.{Job}
use kosa_aws.Jobs.Outbox.{WorkflowOutboxEntry}

pub data CompletionCall : Type 0 where
  reserve_completion :
      (deployment run : String)
      → (resumed_job : Job) → (expected_revision : ℕ) → WorkflowOutboxEntry
      → CompletionCall
  dispatch_completed : WorkflowOutboxEntry → CompletionCall

-- The reservation succeeds, the event is a redelivery, or the store raises.
pub data Reserved : Type 0 where
  reserved redelivered : Reserved
  refused : Error → Reserved

-- `except DuplicateJobError: return`
unfoldable pub reservation_outcome : Result (Unit {0}) → Reserved
reservation_outcome (ok _) = reserved
reservation_outcome (err duplicate_job) = redelivered
reservation_outcome (err e) = refused e

abbrev pub after_reservation : WorkflowOutboxEntry → Reserved → Exec CompletionCall (Unit {0})
after_reservation outbox reserved = perform (dispatch_completed outbox) (ok tt)
after_reservation outbox redelivered = pure tt
after_reservation outbox (refused e) = raise e

unfoldable pub record_completion :
    CompletionPorts → (deployment_id run_id : String) → Exec CompletionCall (Unit {0})
unfolding prepare_completion reservation_outcome
record_completion ports deployment_id run_id = do
  ready ← lift (prepare_completion ports deployment_id run_id)
  outcome ←
      perform
        (reserve_completion deployment_id run_id ready.resumed_job ready.expected_revision
          ready.outbox)
        (ok (
          reservation_outcome (
            ports.reserve_completion_event deployment_id run_id ready.resumed_job
              ready.expected_revision ready.outbox)))
  after_reservation ready.outbox outcome
