-- ===== src/Jobs/Outbox.antt =====
-- apps/backend/jobs/outbox.py: entries of the transactional outbox and their delivery. The queue and
-- the repository of the outbox are called through protocols: whether a call returns or raises is up to
-- a world, which sees the calls made so far.
pub mod Delivery
use kosa_aws.Base.{Bool, List, String, [], false, if◌then◌else◌, nat_eq, true, ℕ, ◌+◌, ◌==◌, ◌∷◌}
use kosa_aws.Errors.{Result, err, ok, require, value_error, ◌>>=◌, ◌>>◌}
use kosa_aws.Jobs.Model.{WorkflowTask, require_non_empty_string}

pub data OutboxStatus : Type 0 where
  pending dispatched : OutboxStatus

pub record WorkflowOutboxEntry : Type 0 where
  pub customer_id : String
  pub job_id : String
  pub task : WorkflowTask
  pub status : OutboxStatus
  pub dispatch_attempts : ℕ

-- The constructor, with the defaults for the status and the attempts.
unfoldable pub outbox_entry : String → String → WorkflowTask → Result WorkflowOutboxEntry
unfolding require_non_empty_string
outbox_entry customer_id job_id task = do
  require_non_empty_string customer_id
  require_non_empty_string job_id
  require (task.job_id == job_id) value_error
  ok (record {
    customer_id = customer_id;
    job_id = job_id;
    task = task;
    status = pending;
    dispatch_attempts = 0;
  })

-- The calls of the dispatcher and of the repository.
pub data Effect : Type 0 where
  publish : WorkflowTask → Effect
  mark_dispatched : WorkflowOutboxEntry → Effect
  record_failure : WorkflowOutboxEntry → Effect

pub record Event : Type 0 where
  pub effect : Effect
  pub returned : Bool

-- The calls so far, the last one first.
abbrev pub Log : Type 0
Log = List Event

-- Whether the next call returns.
abbrev pub World : Type 0
World = Effect → Log → Bool

module _ (world : World) where
  abbrev pub call : Effect → Log → Bool × Log
  call effect log =
      let returned = world effect log in
      (returned, record { effect = effect; returned = returned } ∷ log)

  -- `except Exception:` records the failure, and swallows one more.
  abbrev pub failed_delivery : WorkflowOutboxEntry → Log → Bool × Log
  failed_delivery entry log = (false, (call (record_failure entry) log).1)

  unfoldable pub dispatch_entry : WorkflowOutboxEntry → Log → Bool × Log
  dispatch_entry entry log =
      let (sent, log1) = call (publish entry.task) log in
      let (marked, log2) = call (mark_dispatched entry) log1 in
      if sent
      then (if marked then (true, log2) else failed_delivery entry log2)
      else failed_delivery entry log1

  -- The loop of `dispatch_pending`.
  unfoldable pub dispatch_all : List WorkflowOutboxEntry → ℕ → Log → ℕ × Log
  dispatch_all [] count log = (count, log)
  dispatch_all (entry ∷ entries) count log =
      let (done, log') = dispatch_entry entry log in
      dispatch_all entries (if done then count + 1 else count) log'

  unfoldable pub dispatch_pending : ℕ → Result (List WorkflowOutboxEntry) → Log → Result ℕ × Log
  dispatch_pending limit listed log =
      if nat_eq limit 0 then (err value_error, log) else elim listed [
        | err e ↦ (err e, log)
        | ok entries ↦ let (count, log') = dispatch_all entries 0 log in (ok count, log')
      ]
