-- ===== src/Assessment/Drift/Decided.antt =====
-- What a DRIFT status says of the two perspectives.
use kosa_aws.Assessment.Drift.{both_decision, compared, decision, decisive}
use kosa_aws.Assessment.Results.{DecisionSource, EvaluationResult, same_source}
use kosa_aws.Base.{Bool, Option, ap, arith, false, none, refl, some, true, ◌↔◌, ◌∙◌, ◌≡◌, ◌⊎◌}
use kosa_aws.Evidence.Verdict.{EvaluationStatus, fail, pass}

-- Both perspectives have a decision, and it is this one.
abbrev pub Decides : Option EvaluationResult → Bool → Type 0
Decides none b = ⊥
Decides (some r) b = decisive r.status ≡ some b

-- The two decisions rest on the same kind of source.
abbrev pub SameOrigin : Option EvaluationResult → Option EvaluationResult → Type 0
SameOrigin (some i) (some a) = same_source i.decided_by a.decided_by ≡ true
SameOrigin _ _ = ⊥

both-fail :
    (o : Bool) (s t : EvaluationStatus)
    → ((both_decision o s t).0 ≡ fail) ↔ (
        (o ≡ true)
        × (((decisive s ≡ some true) × (decisive t ≡ some false))
            ⊎ ((decisive s ≡ some false) × (decisive t ≡ some true))))
unfolding both_decision compared decisive
both-fail o s t = ground arith

both-pass :
    (o : Bool) (s t : EvaluationStatus)
    → ((both_decision o s t).0 ≡ pass) ↔ (
        ((decisive s ≡ some true) × (decisive t ≡ some true))
        ⊎ ((decisive s ≡ some false) × (decisive t ≡ some false)))
unfolding both_decision compared decisive
both-pass o s t = ground arith

-- Drift is reported, as FAIL, exactly where both perspectives have a decision, the decisions differ, and
-- both were made by code or both by a model.
pub decision-fail_iff :
    (i a : Option EvaluationResult)
    → ((decision i a).0 ≡ fail)
      ↔ (SameOrigin i a × ((Decides i true × Decides a false) ⊎ (Decides i false × Decides a true)))
unfolding decision
decision-fail_iff (some i) (some a) =
    both-fail (same_source i.decided_by a.decided_by) i.status a.status
decision-fail_iff none a = ground arith
decision-fail_iff (some i) none = ground arith

both-symmetric : (o : Bool) (s t : EvaluationStatus) → both_decision o s t ≡ both_decision o t s
unfolding both_decision compared decisive
both-symmetric o s t = ground arith

same_source-symmetric : (a b : DecisionSource) → same_source a b ≡ same_source b a
unfolding same_source
same_source-symmetric a b = ground arith

-- Drift is a comparison without a preferred side: exchanging the perspectives changes neither the status
-- nor the score.
pub decision-symmetric : (i a : Option EvaluationResult) → decision i a ≡ decision a i
unfolding decision
decision-symmetric (some i) (some a) =
    both-symmetric (same_source i.decided_by a.decided_by) i.status a.status
    ∙ ap (λ o. both_decision o a.status i.status) (same_source-symmetric i.decided_by a.decided_by)
decision-symmetric none none = refl
decision-symmetric none (some a) = refl
decision-symmetric (some i) none = refl
