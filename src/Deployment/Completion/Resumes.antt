-- ===== src/Deployment/Completion/Resumes.antt =====
-- The `Exec` calls of a completion event, on every branch, and what they rest on.
use mathlib.Core.Path.{subst}
use kosa_aws.Base.{
  Bool, Bool-cases, List, Option, String, [], ap, arith, false, inl, inr, is_blank, none, not, refl,
  some, true, ◌∙◌, ◌∷◌, ◌≡◌, ◌≢◌, ◌⊎◌,
}
use kosa_aws.Deployment.Completion.{
  CompletionPorts, Reservation, named, prepare_completion, stored_or_missing,
}
use kosa_aws.Deployment.Completion.Event.{
  CompletionCall, after_reservation, dispatch_completed, record_completion, reservation_outcome,
  reserve_completion,
}
use kosa_aws.Deployment.Record.{DeploymentRecord}
use kosa_aws.Deployment.Resume.{Resumes, resumed-Resumes}
use kosa_aws.Deployment.Trace.{Exec, continue, lift, perform, pure, raise, ◌>>=◌}
use kosa_aws.Errors.{
  Error, Result, apply_completion_error, bind_ok, duplicate_job, err, ok, ok_inj, require_ok,
}
use kosa_aws.Evidence.Lookup.Present.{given}
use kosa_aws.Jobs.Lifecycle.{plain, transition_job}
use kosa_aws.Jobs.Lifecycle.Run.{is_terminal}
use kosa_aws.Jobs.Model.{Job, apply_completed, post_deploy_verification, running, workflow_task}
use kosa_aws.Jobs.Outbox.{outbox_entry}

-- What is reserved for an event: the owner is the stored one, and the job is not finished.
pub record ResumesStored (ports : CompletionPorts) (deployment_id : String) (r : Reservation)
    : Type 0 where
  pub owner : String
  pub stored_owner : ports.resolve_customer_id deployment_id ≡ ok (some owner)
  pub deployment : DeploymentRecord
  pub stored_deployment : ports.get_deployment owner deployment_id ≡ ok (some deployment)
  pub job : Job
  pub stored_job : ports.get_job owner deployment.job_id ≡ ok (some job)
  pub unfinished : is_terminal job.status ≡ false
  pub expected_revision : r.expected_revision ≡ job.revision
  pub resumes : Resumes owner post_deploy_verification apply_completed job r.resumed_job r.outbox

named-some : (o : Option String) {s : String} → named o ≡ ok s → o ≡ some s
named-some none h = cc
named-some (some t) {s} h = elim (Bool-cases (is_blank t)) [
  | inl blank ↦ absurd (let wrong : (err apply_completion_error ≡ ok s) = rw blank at h in cc wrong)
  | inr given ↦ let same : (ok t ≡ ok s) = rw given at h in ap some (ok_inj same)
]

stored-some : {A : Type 0} (o : Option A) {a : A} → stored_or_missing o ≡ ok a → o ≡ some a
stored-some none h = cc
stored-some (some a) h = cc

negated : (b : Bool) → not b ≡ true → b ≡ false
negated b h = ground arith

-- A completion event is reserved only for a deployment whose owner, record and job are found in the
-- store, and only while the job is not finished: the job is resumed at POST_DEPLOY_VERIFICATION by one
-- allowed transition of the expected revision, and the message is a pending APPLY_COMPLETED task of
-- the resumed revision, for the stored owner.
pub prepare_completion-ResumesStored :
    (ports : CompletionPorts) (deployment_id run_id : String) {r : Reservation}
    → prepare_completion ports deployment_id run_id ≡ ok r
    → ResumesStored ports deployment_id r
unfolding prepare_completion
prepare_completion-ResumesStored ports deployment_id run_id h =
    let (_, _, h0) = bind_ok (named (some deployment_id)) _ h in
    let (_, _, h1) = bind_ok (named (some run_id)) _ h0 in
    let (found_owner, ho, h2) = bind_ok (ports.resolve_customer_id deployment_id) _ h1 in
    let (owner, has_owner, h3) = bind_ok (named found_owner) _ h2 in
    let (stored, hd, h4) = bind_ok (ports.get_deployment owner deployment_id) _ h3 in
    let (deployment, has_deployment, h5) = bind_ok (stored_or_missing stored) _ h4 in
    let (stored_job, hj, h6) = bind_ok (ports.get_job owner deployment.job_id) _ h5 in
    let (job, has_job, h7) = bind_ok (stored_or_missing stored_job) _ h6 in
    let (open_job, h8) = require_ok (not (is_terminal job.status)) _ _ h7 in
    let (resumed, moved, h9) =
      bind_ok (transition_job job (plain job.revision running (some post_deploy_verification))) _
        h8 in
    let (task, tasked, h10) =
      bind_ok (workflow_task job.job_id resumed.revision apply_completed) _ h9 in
    let (outbox, made, h11) = bind_ok (outbox_entry owner job.job_id task) _ h10 in
    subst (ResumesStored ports deployment_id) (ok_inj h11) (record {
      owner = owner;
      stored_owner = ho ∙ ap ok (named-some found_owner has_owner);
      deployment = deployment;
      stored_deployment = hd ∙ ap ok (stored-some stored has_deployment);
      job = job;
      stored_job = hj ∙ ap ok (stored-some stored_job has_job);
      unfinished = negated (is_terminal job.status) open_job;
      expected_revision = refl;
      resumes =
          resumed-Resumes owner post_deploy_verification apply_completed job moved tasked made;
    })

module _ (ports : CompletionPorts) (deployment_id run_id : String) where
  abbrev pub reserving : Reservation → CompletionCall
  reserving r = reserve_completion deployment_id run_id r.resumed_job r.expected_revision r.outbox

  abbrev pub reply : Reservation → Result (Unit {0})
  reply r =
      ports.reserve_completion_event deployment_id run_id r.resumed_job r.expected_revision r.outbox

  -- The calls for each answer of the store: a first delivery is dispatched after it was reserved, a
  -- redelivery returns without dispatching, and any other refusal is raised.
  abbrev pub Answers :
      Reservation → Result (Unit {0}) → Result (Unit {0}) → List CompletionCall → Type 0
  Answers r (ok _) result trace =
      (result ≡ ok tt) × (trace ≡ dispatch_completed r.outbox ∷ reserving r ∷ [])
  Answers r (err e) result trace =
      (trace ≡ reserving r ∷ [])
      × (((e ≡ duplicate_job) × (result ≡ ok tt)) ⊎ ((e ≢ duplicate_job) × (result ≡ err e)))

  abbrev pub CompletionEffects : Result (Unit {0}) → List CompletionCall → Type 0
  CompletionEffects result trace =
      ((e : Error) × (prepare_completion ports deployment_id run_id ≡ err e)
        × (result ≡ err e)
        × (trace ≡ []))
      ⊎ ((r : Reservation) × (prepare_completion ports deployment_id run_id ≡ ok r)
          × Answers r (reply r) result trace)

  answered :
      (r : Reservation) (a : Result (Unit {0}))
      → let out = after_reservation r.outbox (reservation_outcome a) (reserving r ∷ []) in
        Answers r a out.0 out.1
  unfolding reservation_outcome perform pure raise
  answered r (ok tt) = (refl, refl)
  answered r (err duplicate_job) = (refl, inl (refl, refl))
  answered r (err e) = (refl, inr ((λ k. cc), refl))

  abbrev finish : Reservation → Exec CompletionCall (Unit {0})
  finish r =
      perform (reserving r) (ok (reservation_outcome (reply r))) >>= after_reservation r.outbox

  prepared :
      (r : Result Reservation)
      → prepare_completion ports deployment_id run_id ≡ r
      → let out = continue r finish [] in CompletionEffects out.0 out.1
  unfolding perform kosa_aws.Deployment.Trace.◌>>=◌
  prepared (ok r) h = inr (r, h, answered r (reply r))
  prepared (err e) h = inl (e, h, refl, refl)

  -- For every answer of the stores, `record_completion` makes the calls of its outcome: none on a failed
  -- check, which it raises; the reservation and then the dispatch on a first delivery; the reservation
  -- alone on a redelivery, on which it returns, and on any other refusal, which it raises.
  pub record_completion-Effects :
      CompletionEffects
        (record_completion ports deployment_id run_id []).0
        (record_completion ports deployment_id run_id []).1
  unfolding record_completion lift kosa_aws.Deployment.Trace.◌>>=◌
  record_completion-Effects = prepared (prepare_completion ports deployment_id run_id) refl
