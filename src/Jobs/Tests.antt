-- ===== src/Jobs/Tests.antt =====
-- Concrete jobs, and a table of jobs that is a function.
use kosa_aws.Base.{
  Bool, Option, String, [], ap, false, if◌then◌else◌, is_blank, nat_eq, nat_eq_iff, none, refl,
  some, true, ℕ, ◌&&◌, ◌+◌, ◌==◌, ◌↔◌, ◌∷◌, ◌≡◌, ◌≢◌,
}
use kosa_aws.Errors.{ok}
use kosa_aws.Jobs.Item.{Item, customer_pk, item_from_job, job_from_item, job_sk, stored_number}
use kosa_aws.Jobs.Item.RoundTrip.{IsNamed, job_from_item-item_from_job}
use kosa_aws.Jobs.Lifecycle.{Transition, plain, transition_job}
use kosa_aws.Jobs.Lifecycle.Advance.{Advances, transition_job-Advances}
use kosa_aws.Jobs.Lifecycle.Run.{
  Continues, Run-Continues, here, is_terminal, next, transition_job-terminal,
}
use kosa_aws.Jobs.Lifecycle.Total.{Accepts, transition_job-ok_iff}
use kosa_aws.Jobs.Model.{
  Job, assess, assess_resource, cancelled, failed, job_post_init, load_iac, queued, running,
}
use kosa_aws.Jobs.Outbox.{WorkflowOutboxEntry, World, dispatch_pending, pending}
use kosa_aws.Jobs.Outbox.Delivery.{IsOrdered, dispatch_pending-delivers, marks, published}
use kosa_aws.Jobs.Repository.{update_job}
use kosa_aws.Jobs.Repository.Atomic.{Reaches-Steps, Steps, starts, updated}
use kosa_aws.Jobs.Repository.Updates.{Commits, update_job-Commits}
use kosa_aws.Jobs.Repository.View.{view}
use kosa_aws.Jobs.Repository.Writers.{now, update_job-excludes}
use kosa_aws.Jobs.Table.{
  Condition, DynamoTable, Holds, PutOutcome, absent, condition_failed, revision_is, written,
}

abbrev number_is : Option ℕ → ℕ → Bool
number_is none n = false
number_is (some m) n = nat_eq m n

number_is-some : (o : Option ℕ) (n : ℕ) → number_is o n ≡ true → o ≡ some n
number_is-some none n h = cc
number_is-some (some m) n h = ap some ((nat_eq_iff m n).0 h)

-- Whether a condition holds for what is stored under a key.

abbrev condition_met : Condition → Option Item → Bool
condition_met absent none = true
condition_met absent (some item) = false
condition_met (revision_is n) none = false
condition_met (revision_is n) (some item) = number_is (stored_number "revision" item) n

condition_met-Holds : (c : Condition) (o : Option Item) → condition_met c o ≡ true → Holds c o
condition_met-Holds absent none h = refl
condition_met-Holds absent (some item) h = cc
condition_met-Holds (revision_is n) none h = cc
condition_met-Holds (revision_is n) (some item) h =
    number_is-some (stored_number "revision" item) n h

abbrev Cells : Type 0
Cells = String → String → Option Item

abbrev put_cell : Bool → Cells → String → String → Item → PutOutcome × Cells
put_cell true t pk sk item =
    (written, λ pk' sk'. if pk == pk' && sk == sk' then some item else t pk' sk')
put_cell false t pk sk item = (condition_failed, t)

put_cell-written :
    (b : Bool) (t : Cells) (pk sk : String) (item : Item)
    → (put_cell b t pk sk item).0 ≡ written
    → b ≡ true
put_cell-written true t pk sk item h = refl
put_cell-written false t pk sk item h = cc

put_cell-stored :
    (b : Bool) (t : Cells) (pk sk : String) (item : Item)
    → (put_cell b t pk sk item).0 ≡ written
    → (pk' sk' : String)
    → (put_cell b t pk sk item).1 pk' sk'
      ≡ (if pk == pk' && sk == sk' then some item else t pk' sk')
put_cell-stored true t pk sk item h pk' sk' = refl
put_cell-stored false t pk sk item h pk' sk' = cc

put_cell-keeps :
    (b : Bool) (t : Cells) (pk sk : String) (item : Item)
    → (put_cell b t pk sk item).0 ≡ condition_failed
    → (put_cell b t pk sk item).1 ≡ t
put_cell-keeps true t pk sk item h = cc
put_cell-keeps false t pk sk item h = refl

some_eq : (t : Cells) (pk sk : String) (o : Option Item) → some (t pk sk) ≡ some o → o ≡ t pk sk
some_eq t pk sk o h = cc

abbrev cells : DynamoTable
cells = record {
  Table = Cells;
  stored = λ t pk sk. t pk sk;
  get_item = λ t pk sk. some (t pk sk);
  put_item = λ t pk sk item c. put_cell (condition_met c (t pk sk)) t pk sk item;
  get_item-stored = some_eq;
  written_holds = λ t pk sk item c h.
      condition_met-Holds c (t pk sk) (put_cell-written (condition_met c (t pk sk)) t pk sk item h);
  written_stored = λ t pk sk item c. put_cell-stored (condition_met c (t pk sk)) t pk sk item;
  refused_keeps = λ t pk sk item c. put_cell-keeps (condition_met c (t pk sk)) t pk sk item;
}

abbrev new_job : Job
new_job = record {
  job_id = "job-1";
  customer_id = "acme";
  job_type = "ASSESSMENT";
  status = queued;
  current_step = load_iac;
  requested_by = "bob";
  revision = 0;
  assessment_id = none;
  remediation_id = none;
  deployment_id = none;
  error = none;
}

abbrev started_job : Job
started_job = record new_job {
  status = running;
  current_step = assess;
  revision = 1;
  assessment_id = some "assessment-1";
}

abbrev start : Transition
start = record (plain 0 running (some assess)) { assessment_id = some "assessment-1" }

abbrev cancelled_job : Job
cancelled_job = record new_job { status = cancelled; revision = 1 }

abbrev initial : Cells
initial =
    (put_cell true (λ _ _. none) (customer_pk "acme") (job_sk "job-1") (item_from_job new_job)).1

test_valid : job_post_init new_job ≡ ok new_job
unfolding job_post_init kosa_aws.Base.is_blank kosa_aws.Jobs.Model.error_fits
test_valid = refl

test_starts : transition_job new_job start ≡ ok started_job
unfolding transition_job kosa_aws.Jobs.Lifecycle.allowed kosa_aws.Jobs.Lifecycle.is_failed
    kosa_aws.Jobs.Lifecycle.link_once job_post_init kosa_aws.Base.is_blank
    kosa_aws.Jobs.Model.error_fits
test_starts = refl

test_updates : (update_job cells started_job 0 initial initial).0 ≡ ok tt
unfolding update_job kosa_aws.Jobs.Repository.check_update kosa_aws.Jobs.Repository.get_job
    kosa_aws.Jobs.Model.require_non_empty_string is_blank customer_pk job_sk job_from_item
    item_from_job kosa_aws.Jobs.Item.member_of job_post_init kosa_aws.Jobs.Model.error_fits
    transition_job kosa_aws.Jobs.Lifecycle.allowed kosa_aws.Jobs.Lifecycle.is_failed
    kosa_aws.Jobs.Lifecycle.link_once kosa_aws.Jobs.Repository.job_eq
    kosa_aws.Jobs.Repository.status_eq kosa_aws.Base.is_space kosa_aws.Jobs.Item.status_value
    kosa_aws.Jobs.Item.step_value kosa_aws.Jobs.Model.require_optional_non_empty_string
    kosa_aws.Jobs.Repository.error_eq kosa_aws.Jobs.Repository.step_eq mathlib.Core.Bool.decide
    stored_number
test_updates = refl

transition_job-ok_iff_example :
    Accepts new_job start ↔ ((k : Job) × (transition_job new_job start ≡ ok k))
transition_job-ok_iff_example = transition_job-ok_iff new_job start test_valid

transition_job-Advances_example : Advances new_job started_job
transition_job-Advances_example = transition_job-Advances new_job start test_starts

Run-Continues_example : Continues new_job 1 started_job
Run-Continues_example = Run-Continues (next here start test_starts)

test_terminal : is_terminal cancelled_job.status ≡ true
unfolding is_terminal
test_terminal = refl

transition_job-terminal_example :
    transition_job cancelled_job (plain 1 running none) ≢ ok started_job
transition_job-terminal_example =
    transition_job-terminal cancelled_job (plain 1 running none) test_terminal

update_job-Commits_example :
    Commits cells started_job 0 initial initial (update_job cells started_job 0 initial initial).1
update_job-Commits_example = update_job-Commits cells started_job 0 initial initial test_updates

-- Both writers have read the first revision; the second one to write is refused.
update_job-excludes_example :
    (update_job cells cancelled_job 0 initial (update_job cells started_job 0 initial initial).1).0
    ≢ ok tt
update_job-excludes_example =
    update_job-excludes cells started_job cancelled_job 0 initial initial initial
      (update_job cells started_job 0 initial initial).1 refl refl test_updates now

abbrev failed_job : Job
failed_job = record started_job {
  status = failed;
  revision = 2;
  error = some (record { code = "EXECUTION_ERROR"; message = "stopped" });
}

test_valid_failed : job_post_init failed_job ≡ ok failed_job
unfolding job_post_init kosa_aws.Base.is_blank kosa_aws.Jobs.Model.error_fits
test_valid_failed = refl

failed_job-IsNamed : IsNamed failed_job.error
unfolding is_blank
failed_job-IsNamed = (refl, refl)

job_from_item-item_from_job_example : job_from_item (item_from_job failed_job) ≡ ok failed_job
job_from_item-item_from_job_example =
    job_from_item-item_from_job failed_job test_valid_failed failed_job-IsNamed

abbrev entry : WorkflowOutboxEntry
entry = record {
  customer_id = "acme";
  job_id = "job-1";
  task = record { job_id = "job-1"; expected_revision = 1; command = assess_resource };
  status = pending;
  dispatch_attempts = 0;
}

-- The queue and the outbox answer every call.
abbrev steady : World
steady effect log = true

test_sweep : (dispatch_pending steady 100 (ok (entry ∷ [])) []).0 ≡ ok 1
unfolding dispatch_pending kosa_aws.Jobs.Outbox.dispatch_all kosa_aws.Jobs.Outbox.dispatch_entry
test_sweep = refl

dispatch_pending-delivers_example :
    let after = (dispatch_pending steady 100 (ok (entry ∷ [])) []).1 in
    (published after ≡ entry.task ∷ []) × IsOrdered after × (marks after ≡ 1 + 0)
dispatch_pending-delivers_example =
    dispatch_pending-delivers steady 100 (entry ∷ []) [] tt test_sweep

test_valid_started : job_post_init started_job ≡ ok started_job
unfolding job_post_init is_blank kosa_aws.Jobs.Model.error_fits
test_valid_started = refl

Reaches-Steps_example :
    Steps (view cells initial) (view cells (update_job cells started_job 0 initial initial).1)
Reaches-Steps_example =
    Reaches-Steps cells
      (updated starts started_job 0 initial (test_valid_started, tt) starts test_updates refl)
