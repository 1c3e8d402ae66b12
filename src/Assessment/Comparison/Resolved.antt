-- ===== src/Assessment/Comparison/Resolved.antt =====
-- What a comparison claims of a finding, and when the scores may be compared.
use kosa_aws.Assessment.Comparison.{
  FindingResolution, indeterminate_resolution, no_longer_applicable, regressed, resolution_of,
  resolved, status_resolution, unresolved,
}
use kosa_aws.Assessment.Results.{EvaluationResult}
use kosa_aws.Base.{Option, arith, eq_iff, inl, none, refl, some, ◌↔◌, ◌≡◌, ◌≢◌, ◌⊎◌}
use kosa_aws.Evidence.Verdict.{
  EvaluationStatus, execution_error, fail, insufficient_evidence, manual_review_needed,
  out_of_scope, pass,
}

-- Both assessments evaluated the coordinate under one version of its rule.
abbrev pub SameRule : Option EvaluationResult → Option EvaluationResult → Type 0
SameRule (some b) (some a) = b.rule_version ≡ a.rule_version
SameRule _ _ = ⊥

abbrev pub HasStatus : Option EvaluationResult → EvaluationStatus → Type 0
HasStatus none s = ⊥
HasStatus (some r) s = r.status ≡ s

-- The results in which each resolution is claimed.
abbrev pub ClaimsOf : FindingResolution → Option EvaluationResult → Option EvaluationResult → Type 0
ClaimsOf resolved b a = SameRule b a × HasStatus b fail × HasStatus a pass
ClaimsOf unresolved b a = SameRule b a × HasStatus b fail × HasStatus a fail
ClaimsOf regressed b a = SameRule b a × HasStatus b pass × HasStatus a fail
ClaimsOf no_longer_applicable b a = SameRule b a × HasStatus a out_of_scope
ClaimsOf indeterminate_resolution b a =
    ¬ SameRule b a
    ⊎ (HasStatus a manual_review_needed
        ⊎ (HasStatus a insufficient_evidence ⊎ HasStatus a execution_error))

by_status :
    (f : FindingResolution) (s t : EvaluationStatus)
    → (status_resolution s t ≡ some f) ↔ (elim f [
      | resolved ↦ (s ≡ fail) × (t ≡ pass)
      | unresolved ↦ (s ≡ fail) × (t ≡ fail)
      | regressed ↦ (s ≡ pass) × (t ≡ fail)
      | no_longer_applicable ↦ t ≡ out_of_scope
      | indeterminate_resolution ↦
          (t ≡ manual_review_needed) ⊎ ((t ≡ insufficient_evidence) ⊎ (t ≡ execution_error))
    ])
unfolding status_resolution
by_status resolved s t = ground arith
by_status unresolved s t = ground arith
by_status regressed s t = ground arith
by_status no_longer_applicable s t = ground arith
by_status indeterminate_resolution s t = ground arith

resolution-both :
    (f : FindingResolution) (b a : EvaluationResult)
    → (resolution_of (some b) (some a) ≡ some f) ↔ ClaimsOf f (some b) (some a)
unfolding resolution_of
resolution-both resolved b a =
    ground (arith, eq_iff b.rule_version a.rule_version, by_status resolved b.status a.status)
resolution-both unresolved b a =
    ground (arith, eq_iff b.rule_version a.rule_version, by_status unresolved b.status a.status)
resolution-both regressed b a =
    ground (arith, eq_iff b.rule_version a.rule_version, by_status regressed b.status a.status)
resolution-both no_longer_applicable b a =
    ground (
      arith,
      eq_iff b.rule_version a.rule_version,
      by_status no_longer_applicable b.status a.status,
    )
resolution-both indeterminate_resolution b a = ground (
  arith,
  eq_iff b.rule_version a.rule_version,
  by_status indeterminate_resolution b.status a.status,
)

-- What is claimed of a coordinate: a resolution, or nothing where the later status decides but the earlier
-- one leaves no claim to make.
abbrev pub Claims :
    Option FindingResolution → Option EvaluationResult → Option EvaluationResult → Type 0
Claims (some f) b a = ClaimsOf f b a
Claims none b a =
    SameRule b a
    × ((HasStatus a pass × ¬ HasStatus b fail)
        ⊎ (HasStatus a fail × (¬ HasStatus b fail) × (¬ HasStatus b pass)))

nothing_claimed :
    (s t : EvaluationStatus)
    → (status_resolution s t ≡ none)
      ↔ (((t ≡ pass) × (s ≢ fail)) ⊎ ((t ≡ fail) × (s ≢ fail) × (s ≢ pass)))
unfolding status_resolution
nothing_claimed s t = ground arith

some_claim :
    (f : FindingResolution) (b a : Option EvaluationResult)
    → (resolution_of b a ≡ some f) ↔ ClaimsOf f b a
unfolding resolution_of
some_claim f (some b) (some a) = resolution-both f b a
some_claim resolved none a = ground arith
some_claim unresolved none a = ground arith
some_claim regressed none a = ground arith
some_claim no_longer_applicable none a = ground arith
some_claim indeterminate_resolution none a = (λ _. inl (λ x. x), λ _. refl)
some_claim resolved (some b) none = ground arith
some_claim unresolved (some b) none = ground arith
some_claim regressed (some b) none = ground arith
some_claim no_longer_applicable (some b) none = ground arith
some_claim indeterminate_resolution (some b) none = (λ _. inl (λ x. x), λ _. refl)

no_claim : (b a : Option EvaluationResult) → (resolution_of b a ≡ none) ↔ Claims none b a
unfolding resolution_of
no_claim (some b) (some a) =
    ground (arith, eq_iff b.rule_version a.rule_version, nothing_claimed b.status a.status)
no_claim none a = ground arith
no_claim (some b) none = ground arith

-- A finding is claimed resolved, unresolved or regressed only where both assessments decided its
-- coordinate under one version of its rule, and then by the two statuses; it is no longer applicable
-- where its rule is out of scope afterwards; and it is indeterminate exactly where a side is missing,
-- the versions differ, or the later status is no decision. Nothing is claimed exactly where the later
-- result passes and the earlier one did not fail, or fails and the earlier one neither failed nor passed.
pub resolution_of_iff :
    (f : Option FindingResolution) (b a : Option EvaluationResult)
    → (resolution_of b a ≡ f) ↔ Claims f b a
resolution_of_iff (some f) b a = some_claim f b a
resolution_of_iff none b a = no_claim b a
