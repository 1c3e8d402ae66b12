-- ===== src/Assessment/Planner.antt =====
-- apps/backend/assessment/execution_plan.py: the perspectives that a rule is evaluated in.
pub mod Ordered
use kosa_aws.Assessment.Results.{same_perspective}
use kosa_aws.Base.{
  Bool, List, Option, [], any, false, filter, if◌then◌else◌, length, nat_eq, none, not, some, true,
  ◌&&◌, ◌++◌, ◌||◌, ◌∷◌,
}
use kosa_aws.Errors.{Result, ok, require, value_error, ◌>>◌}
use kosa_aws.Evidence.Binding.{EvaluationPerspective, aws_actual, drift_view, iac, manual}
use kosa_aws.Policy.Rules.{
  PolicyRule, RuleEvaluationType, aws_type, hybrid_type, iac_type, manual_type,
}

unfoldable pub perspective_order : List EvaluationPerspective
perspective_order = iac ∷ aws_actual ∷ manual ∷ drift_view ∷ []

-- `perspective in perspectives`
unfoldable pub has_perspective : List EvaluationPerspective → EvaluationPerspective → Bool
unfolding same_perspective
has_perspective perspectives p = any (λ q. same_perspective q p) perspectives

-- `_EVALUATED_PERSPECTIVES[evaluation_type]`
unfoldable pub typed_perspectives : Option RuleEvaluationType → List EvaluationPerspective
typed_perspectives none = iac ∷ aws_actual ∷ []
typed_perspectives (some iac_type) = iac ∷ []
typed_perspectives (some aws_type) = aws_actual ∷ []
typed_perspectives (some hybrid_type) = iac ∷ aws_actual ∷ []
typed_perspectives (some manual_type) = manual ∷ []

unfoldable pub evaluated_perspectives : PolicyRule → List EvaluationPerspective
unfolding typed_perspectives
evaluated_perspectives rule = typed_perspectives rule.evaluation_type

-- `evaluation_type in _DUAL_PERSPECTIVE_TYPES`
unfoldable pub is_dual_type : Option RuleEvaluationType → Bool
is_dual_type none = true
is_dual_type (some hybrid_type) = true
is_dual_type _ = false

unfoldable pub is_drift_eligible : PolicyRule → Bool
unfolding is_dual_type
is_drift_eligible rule = is_dual_type rule.evaluation_type

pub record EvaluationExecutionPlanner : Type 0 where
  pub available : List EvaluationPerspective
  pub derives_drift : Bool

-- `EvaluationExecutionPlanner.__init__`
unfoldable pub planner_init : List EvaluationPerspective → Bool → Result EvaluationExecutionPlanner
unfolding has_perspective perspective_order
planner_init available_perspectives derives_drift = do
  let available = filter (has_perspective available_perspectives) perspective_order
  require (not (has_perspective available drift_view)) value_error
  require
      (not derives_drift || (has_perspective available iac && has_perspective available aws_actual))
      value_error
  ok (record { available = available; derives_drift = derives_drift })

module _ (planner : EvaluationExecutionPlanner) where
  -- The end of `perspectives_for`, on the perspectives that are evaluated.
  unfoldable pub with_drift : Bool → List EvaluationPerspective → List EvaluationPerspective
  with_drift eligible evaluated =
      if planner.derives_drift && eligible && nat_eq (length evaluated) 2
      then evaluated ++ (drift_view ∷ [])
      else evaluated

  unfoldable pub perspectives_for : PolicyRule → List EvaluationPerspective
  unfolding evaluated_perspectives is_drift_eligible has_perspective with_drift
  perspectives_for rule =
      with_drift (is_drift_eligible rule)
        (filter (has_perspective planner.available) (evaluated_perspectives rule))

  unfoldable pub rules_for : EvaluationPerspective → List PolicyRule → List PolicyRule
  unfolding perspectives_for has_perspective
  rules_for p rules = filter (λ rule. has_perspective (perspectives_for rule) p) rules

  unfoldable pub drift_rules : List PolicyRule → List PolicyRule
  unfolding rules_for
  drift_rules rules = if planner.derives_drift then rules_for drift_view rules else []

  unfoldable pub planned_perspectives : List PolicyRule → List EvaluationPerspective
  unfolding perspectives_for has_perspective perspective_order
  planned_perspectives rules =
      filter (λ p. any (λ rule. has_perspective (perspectives_for rule) p) rules) perspective_order
