-- ===== src/Assessment/Planner/Ordered.antt =====
-- Which perspectives a planner gives to a rule.
use kosa_aws.Assessment.Comparison.Eligible.{perspective_iff}
use kosa_aws.Assessment.Planner.{
  EvaluationExecutionPlanner, evaluated_perspectives, has_perspective, is_drift_eligible,
  is_dual_type, perspectives_for, typed_perspectives, with_drift,
}
use kosa_aws.Assessment.Results.{same_perspective}
use kosa_aws.Base.{
  Bool-cases, In, List, Option, [], arith, false, filter, inl, inr, sym, true, ◌↔◌, ◌∷◌, ◌≡◌, ◌⊎◌,
}
use kosa_aws.Evidence.Binding.{EvaluationPerspective, aws_actual, drift_view, iac}
use kosa_aws.Policy.Rules.{PolicyRule, RuleEvaluationType}

pub has_iff :
    (p : EvaluationPerspective) (ps : List EvaluationPerspective)
    → (has_perspective ps p ≡ true) ↔ In p ps
unfolding has_perspective same_perspective
has_iff p [] = (λ h. cc h, λ i. absurd i)
has_iff p (q ∷ ps) =
    let rest = has_iff p ps in
    let here_iff = perspective_iff q p in
    (
      λ h. elim (Bool-cases (same_perspective q p)) [
        | inl same ↦ inl (sym (here_iff.0 same))
        | inr differ ↦ inr (rest.0 (ground (arith, h, differ)))
      ],
      λ i. elim i [
        | inl e ↦ ground (arith, here_iff.1 (sym e))
        | inr there ↦ ground (arith, rest.1 there)
      ],
    )

module _ (planner : EvaluationExecutionPlanner) where
  abbrev for_type : Option RuleEvaluationType → List EvaluationPerspective
  for_type t =
      with_drift planner (is_dual_type t)
        (filter (has_perspective planner.available) (typed_perspectives t))

  -- A perspective of a rule that is not DRIFT is one of the planner's.
  for_type-available :
      (t : Option RuleEvaluationType) (p : EvaluationPerspective)
      → has_perspective (for_type t) p ≡ true
      → (p ≡ drift_view) ⊎ (has_perspective planner.available p ≡ true)
  unfolding with_drift is_dual_type has_perspective typed_perspectives same_perspective
  for_type-available t p h = ground (arith, h)

  -- A rule with DRIFT has both perspectives that it compares.
  for_type-drift :
      (t : Option RuleEvaluationType)
      → has_perspective planner.available drift_view ≡ false
      → has_perspective (for_type t) drift_view ≡ true
      → (planner.derives_drift ≡ true)
        × (has_perspective (for_type t) iac ≡ true)
        × (has_perspective (for_type t) aws_actual ≡ true)
  unfolding with_drift is_dual_type has_perspective typed_perspectives same_perspective
  for_type-drift t only h = ground (arith, only, h)

  pub perspectives_for-available :
      (rule : PolicyRule) (p : EvaluationPerspective)
      → has_perspective (perspectives_for planner rule) p ≡ true
      → (p ≡ drift_view) ⊎ (has_perspective planner.available p ≡ true)
  unfolding perspectives_for evaluated_perspectives is_drift_eligible
  perspectives_for-available rule p h = for_type-available rule.evaluation_type p h

  pub perspectives_for-drift :
      (rule : PolicyRule)
      → has_perspective planner.available drift_view ≡ false
      → has_perspective (perspectives_for planner rule) drift_view ≡ true
      → (planner.derives_drift ≡ true)
        × (has_perspective (perspectives_for planner rule) iac ≡ true)
        × (has_perspective (perspectives_for planner rule) aws_actual ≡ true)
  unfolding perspectives_for evaluated_perspectives is_drift_eligible
  perspectives_for-drift rule only h = for_type-drift rule.evaluation_type only h
