-- ===== src/Deployment/Approval/Effects.antt =====
-- The `Exec` calls of an approval, on every branch.
use kosa_aws.Auth.{Principal}
use kosa_aws.Base.{List, [], inl, inr, refl, ◌∷◌, ◌≡◌, ◌⊎◌}
use kosa_aws.Deployment.Approval.{ApprovalPorts, Prepared, prepare_approval}
use kosa_aws.Deployment.Approval.Approve.{ApprovalCall, approve, dispatch_approved, record_approval}
use kosa_aws.Deployment.Contracts.{DeploymentApproval, DeploymentReadiness, TerraformPlan}
use kosa_aws.Deployment.Trace.{Exec, continue, lift, perform, pure, ◌>>◌}
use kosa_aws.Errors.{Result, err, ok}

-- The calls for a prepared approval, the last one first.
abbrev pub written : Principal → DeploymentReadiness → Prepared → ApprovalCall
written p readiness ready =
    record_approval p.customer_id ready.approval readiness ready.resumed_job ready.expected_revision
      ready.outbox

-- What the store answers to the transaction.
abbrev pub answer : ApprovalPorts → Principal → DeploymentReadiness → Prepared → Result (Unit {0})
answer ports p readiness ready =
    ports.record_approval p.customer_id ready.approval readiness ready.resumed_job
      ready.expected_revision ready.outbox

-- An approval that returns has written one transaction and then dispatched its message; one that raises
-- has called nothing, or has called the store, which raised, and has dispatched nothing.
abbrev pub Effects :
    ApprovalPorts
    → Principal
    → TerraformPlan
    → DeploymentReadiness
    → Result DeploymentApproval
    → List ApprovalCall
    → Type 0
Effects ports p plan readiness (ok approval) trace =
    (ready : Prepared) × (prepare_approval ports p plan readiness ≡ ok ready)
    × (answer ports p readiness ready ≡ ok tt)
    × (approval ≡ ready.approval)
    × (trace ≡ dispatch_approved ready.outbox ∷ written p readiness ready ∷ [])
Effects ports p plan readiness (err e) trace =
    ((prepare_approval ports p plan readiness ≡ err e) × (trace ≡ []))
    ⊎ ((ready : Prepared) × (prepare_approval ports p plan readiness ≡ ok ready)
        × (answer ports p readiness ready ≡ err e)
        × (trace ≡ written p readiness ready ∷ []))

module _ (ports : ApprovalPorts) (p : Principal) (plan : TerraformPlan)
    (readiness : DeploymentReadiness) where
  abbrev finish : Prepared → Exec ApprovalCall DeploymentApproval
  finish ready =
      perform (written p readiness ready) (answer ports p readiness ready)
      >> (perform (dispatch_approved ready.outbox) (ok tt) >> pure ready.approval)

  recorded :
      (ready : Prepared) (r : Result (Unit {0}))
      → prepare_approval ports p plan readiness ≡ ok ready
      → answer ports p readiness ready ≡ r
      → let out =
          continue r
            (λ _. perform (dispatch_approved ready.outbox) (ok tt) >> pure ready.approval)
            (written p readiness ready ∷ []) in
        Effects ports p plan readiness out.0 out.1
  unfolding kosa_aws.Deployment.Trace.◌>>=◌ perform pure
  recorded ready (ok tt) h k = (ready, h, k, refl, refl)
  recorded ready (err e) h k = inr (ready, h, k, refl)

  prepared :
      (r : Result Prepared)
      → prepare_approval ports p plan readiness ≡ r
      → let out = continue r finish [] in Effects ports p plan readiness out.0 out.1
  unfolding kosa_aws.Deployment.Trace.◌>>=◌ perform
  prepared (ok ready) h = recorded ready (answer ports p readiness ready) h refl
  prepared (err e) h = inl (h, refl)

  -- For every way in which the stores answer, the calls of `approve` are those of its outcome: on
  -- success the transaction and then the dispatch of its message, on a failed check no call at all, and
  -- where the store refuses the transaction that call alone, with nothing dispatched.
  pub approve-Effects :
      Effects ports p plan readiness
        (approve ports p plan readiness []).0
        (approve ports p plan readiness []).1
  unfolding approve lift kosa_aws.Deployment.Trace.◌>>=◌
  approve-Effects = prepared (prepare_approval ports p plan readiness) refl
