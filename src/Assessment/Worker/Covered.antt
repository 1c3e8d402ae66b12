-- ===== src/Assessment/Worker/Covered.antt =====
-- The coordinates of the results that a runner leaves.
use mathlib.Core.Path.{subst}
use kosa_aws.Assessment.Comparison.Eligible.{perspective_iff}
use kosa_aws.Assessment.Readiness.{coordinate_of}
use kosa_aws.Assessment.Results.{EvaluationResult, same_perspective}
use kosa_aws.Assessment.Runner.{
  Evaluator, ModelProfile, evaluate_resource, evaluate_rules, execution_error_result,
  failed_perspective, recorded_result, validated_answer, validated_result,
}
use kosa_aws.Assessment.Worker.{
  AssessmentResourceWork, AssessmentRunner, checked, cites_allowed, planned_at, run_checked,
}
use kosa_aws.Base.{
  All, Bool-cases, List, Option, String, [], all, ap, arith, eq_iff, inl, inr, map, none, refl,
  some, sym, ◌&&◌, ◌==◌, ◌∙◌, ◌∷◌, ◌≡◌,
}
use kosa_aws.Errors.{Result, bind_ok, err, is_value_error, ok, ok_inj, require_ok}
use kosa_aws.Evidence.Binding.{EvaluationPerspective}
use kosa_aws.Jobs.Model.{require_non_empty_string}
use kosa_aws.Policy.Context.{PolicyContext, allows_evidence}
use kosa_aws.Policy.Rules.{PolicyRule}

-- The results stand beside the rules, each for the resource and the rule.
abbrev Beside : String → List PolicyRule → List EvaluationResult → Type 0
Beside resource_id [] [] = Unit {0}
Beside resource_id (rule ∷ rules) (r ∷ rs) =
    (r.resource_id ≡ resource_id) × (r.rule_id ≡ rule.rule_id) × Beside resource_id rules rs
Beside resource_id _ _ = ⊥

validated_result-names :
    (result : EvaluationResult) (resource_id : String) (rule : PolicyRule) (context : PolicyContext)
    {valid : EvaluationResult}
    → validated_result result resource_id rule context ≡ ok valid
    → (valid.resource_id ≡ resource_id) × (valid.rule_id ≡ rule.rule_id)
unfolding validated_result
validated_result-names result resource_id rule context h =
    let (same_resource, h1) = require_ok (result.resource_id == resource_id) _ _ h in
    let (same_rule, h2) =
      require_ok (result.rule_id == rule.rule_id && result.rule_version == rule.version) _ _ h1 in
    let (_, h3) = require_ok (all (allows_evidence context) result.evidence_references) _ _ h2 in
    subst (λ v. (v.resource_id ≡ resource_id) × (v.rule_id ≡ rule.rule_id)) (ok_inj h3)
      (
        (eq_iff result.resource_id resource_id).0 same_resource,
        ground (arith, eq_iff result.rule_id rule.rule_id),
      )

module _ (perspective : Option EvaluationPerspective) (evaluator : Evaluator) (resource_id : String)
    (context : PolicyContext) (profile : ModelProfile) where
  recorded_result-names :
      (p : Option EvaluationPerspective) (rule : PolicyRule) (answer : Result EvaluationResult)
      {r : EvaluationResult}
      → ((valid : EvaluationResult)
          → answer ≡ ok valid
          → (valid.resource_id ≡ resource_id) × (valid.rule_id ≡ rule.rule_id))
      → recorded_result p resource_id rule profile answer ≡ ok r
      → (r.resource_id ≡ resource_id) × (r.rule_id ≡ rule.rule_id)
  unfolding recorded_result execution_error_result
  recorded_result-names p rule (ok valid) names h = names _ h
  recorded_result-names none rule (err e) names h = absurd (cc h)
  recorded_result-names (some p) rule (err e) names h = elim (Bool-cases (is_value_error e)) [
    | inl caught ↦
        let recorded_ok : ok (execution_error_result resource_id rule p profile) ≡ ok _ =
          rw caught at h in
        subst (λ r. (r.resource_id ≡ resource_id) × (r.rule_id ≡ rule.rule_id)) (ok_inj recorded_ok)
          (refl, refl)
    | inr raised ↦ absurd (let wrong = rw raised at h in cc wrong)
  ]

  evaluate_rules-Beside :
      (rules : List PolicyRule) {rs : List EvaluationResult}
      → evaluate_rules perspective evaluator resource_id context profile rules ≡ ok rs
      → Beside resource_id rules rs
  unfolding evaluate_rules validated_answer
  evaluate_rules-Beside [] h = subst (Beside resource_id []) (ok_inj h) tt
  evaluate_rules-Beside (rule ∷ rules) h =
      let (first, hf, h1) =
        bind_ok
          (recorded_result (failed_perspective perspective evaluator) resource_id rule profile
            (validated_answer perspective evaluator resource_id context profile rule))
          _ h in
      let (rest, hr, h2) =
        bind_ok (evaluate_rules perspective evaluator resource_id context profile rules) _ h1 in
      let (resource, rule_name) =
        recorded_result-names (failed_perspective perspective evaluator) rule _
          (λ valid e.
            let (result, _, checks) =
              bind_ok (evaluator.evaluate resource_id rule context profile) _ e in
            validated_result-names result resource_id rule context checks)
          hf in
      subst (Beside resource_id (rule ∷ rules)) (ok_inj h2)
        (resource, rule_name, evaluate_rules-Beside rules hr)

-- What was checked is unchanged and all of one perspective.
pub checked-same :
    (p : EvaluationPerspective) (profile : ModelProfile) (context : Option PolicyContext)
    (rs : List EvaluationResult) {out : List EvaluationResult}
    → checked p profile context rs ≡ ok out
    → (out ≡ rs) × All (λ r. r.perspective ≡ p) rs
unfolding checked
checked-same p profile context [] h = (sym (ok_inj h), tt)
checked-same p profile context (r ∷ rs) h =
    let (same, h1) = require_ok (same_perspective r.perspective p) _ _ h in
    let (_, h2) = require_ok (r.model_profile_id == profile.model_profile_id) _ _ h1 in
    let (_, h3) = require_ok (cites_allowed context r.evidence_references) _ _ h2 in
    let (rest, hr, h4) = bind_ok (checked p profile context rs) _ h3 in
    let (unchanged, of_one) = checked-same p profile context rs hr in
    (
      sym (ok_inj h4) ∙ ap (λ x. r ∷ x) unchanged,
      ((perspective_iff r.perspective p).0 same, of_one),
    )

coordinate-planned_at :
    (resource_id : String) (rule : PolicyRule) (p : EvaluationPerspective) (r : EvaluationResult)
    → r.resource_id ≡ resource_id
    → r.rule_id ≡ rule.rule_id
    → r.perspective ≡ p
    → coordinate_of r ≡ planned_at resource_id rule p
unfolding coordinate_of
coordinate-planned_at resource_id rule p r e f g = cc (e, f, g)

Beside-coordinates :
    (resource_id : String) (p : EvaluationPerspective) (rules : List PolicyRule)
    (rs : List EvaluationResult)
    → Beside resource_id rules rs
    → All (λ r. r.perspective ≡ p) rs
    → map coordinate_of rs ≡ map (λ rule. planned_at resource_id rule p) rules
Beside-coordinates resource_id p [] [] beside of_one = refl
Beside-coordinates resource_id p [] (r ∷ rs) beside of_one = absurd beside
Beside-coordinates resource_id p (rule ∷ rules) [] beside of_one = absurd beside
Beside-coordinates resource_id p (rule ∷ rules) (r ∷ rs) (e, f, beside) (g, of_one) =
    let first_same = coordinate-planned_at resource_id rule p r e f g in
    let rest_same = Beside-coordinates resource_id p rules rs beside of_one in
    rw (first_same, rest_same) refl

module _ (work : AssessmentResourceWork) (context : PolicyContext) (profile : ModelProfile) where
  -- A checked run leaves exactly the coordinates of the rules, in order.
  pub run_checked-coordinates :
      (runner : AssessmentRunner) (p : EvaluationPerspective) (scope : PolicyContext)
      {rs : List EvaluationResult}
      → run_checked work context profile runner p scope ≡ ok rs
      → map coordinate_of rs ≡ map (λ rule. planned_at work.resource_id rule p) scope.rules
  unfolding run_checked evaluate_resource
  run_checked-coordinates runner p scope h =
      let (results, hr, h1) =
        bind_ok
          (evaluate_resource runner.perspective runner.evaluator work.resource_id scope profile) _
          h in
      let (_, _, evaluated) = bind_ok (require_non_empty_string work.resource_id) _ hr in
      let beside =
        evaluate_rules-Beside runner.perspective runner.evaluator work.resource_id scope profile
          scope.rules evaluated in
      let (unchanged, of_one) = checked-same p profile none results h1 in
      ap (map coordinate_of) unchanged
      ∙ Beside-coordinates work.resource_id p scope.rules results beside of_one
