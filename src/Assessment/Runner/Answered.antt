-- ===== src/Assessment/Runner/Answered.antt =====
-- The runner ends with one answer for each rule, in the order of the rules.
use mathlib.Core.Path.{subst}
use kosa_aws.Assessment.Results.{EvaluationResult}
use kosa_aws.Assessment.Runner.{
  Evaluator, ModelProfile, validated_answer, evaluate_resource, evaluate_rules,
  execution_error_result, failed_perspective, recorded_result, validated_result,
}
use kosa_aws.Base.{
  Bool, In, List, Option, String, [], all, arith, eq_iff, false, inl, inr, is_blank, refl, some,
  true, ◌&&◌, ◌==◌, ◌∷◌, ◌≡◌, ◌⊎◌,
}
use kosa_aws.Errors.{
  Error, Result-cases, err, evaluation_contract_error, is_value_error, ok, ok_inj, require,
  require_ok, ◌>>◌,
}
use kosa_aws.Evidence.Binding.{EvaluationPerspective}
use kosa_aws.Evidence.Verdict.{execution_error}
use kosa_aws.Jobs.Item.{invalid}
use kosa_aws.Jobs.Lifecycle.{allowed}
use kosa_aws.Policy.Context.{PolicyContext, allows_evidence}
use kosa_aws.Policy.Rules.{PolicyRule}

module _ (perspective : Option EvaluationPerspective) (evaluator : Evaluator) (resource_id : String)
    (context : PolicyContext) (profile : ModelProfile) where
  -- The result is for the rule's version and the resource and cites only evidence that the context allows.
  -- It is the evaluator's own where that is valid, and otherwise an EXECUTION_ERROR.
  pub record AnswersTo (rule : PolicyRule) (result : EvaluationResult) : Type 0 where
    pub resource : result.resource_id ≡ resource_id
    pub names : (result.rule_id ≡ rule.rule_id) × (result.rule_version ≡ rule.version)
    pub cites : all (allows_evidence context) result.evidence_references ≡ true
    pub own :
        (evaluator.evaluate resource_id rule context profile ≡ ok result)
        ⊎ ((result.status ≡ execution_error)
            × ((e : Error) × (validated_answer perspective evaluator resource_id context profile
                    rule
                  ≡ err e)))

  abbrev pub Answers : List PolicyRule → List EvaluationResult → Type 0
  Answers [] [] = Unit {0}
  Answers (rule ∷ rules) (result ∷ results) = AnswersTo rule result × Answers rules results
  Answers _ _ = ⊥

  validated_result-AnswersTo :
      (rule : PolicyRule) (result : EvaluationResult) {valid : EvaluationResult}
      → evaluator.evaluate resource_id rule context profile ≡ ok result
      → validated_result result resource_id rule context ≡ ok valid
      → AnswersTo rule valid
  unfolding validated_result
  validated_result-AnswersTo rule result evaluated h =
      let (same_resource, h1) = require_ok (result.resource_id == resource_id) _ _ h in
      let (same_rule, h2) =
        require_ok (result.rule_id == rule.rule_id && result.rule_version == rule.version) _ _ h1 in
      let (allowed, h3) =
        require_ok (all (allows_evidence context) result.evidence_references) _ _ h2 in
      subst (AnswersTo rule) (ok_inj h3) (record {
        resource = (eq_iff result.resource_id resource_id).0 same_resource;
        names =
            ground
              (arith, eq_iff result.rule_id rule.rule_id, eq_iff result.rule_version rule.version);
        cites = allowed;
        own = inl evaluated;
      })

  refused_checks :
      (a b c : Bool) (result : EvaluationResult) {e : Error}
      → (require a evaluation_contract_error
          >> (require b evaluation_contract_error
              >> (require c evaluation_contract_error >> ok result)))
        ≡ err e
      → is_value_error e ≡ true
  unfolding is_value_error
  refused_checks true true true result h = absurd (cc)
  refused_checks true true false result h = ground arith
  refused_checks true false c result h = ground arith
  refused_checks false b c result h = ground arith

  validated_result-raises :
      (rule : PolicyRule) (result : EvaluationResult) {e : Error}
      → validated_result result resource_id rule context ≡ err e
      → is_value_error e ≡ true
  unfolding validated_result
  validated_result-raises rule result h =
      refused_checks (result.resource_id == resource_id)
        (result.rule_id == rule.rule_id && result.rule_version == rule.version)
        (all (allows_evidence context) result.evidence_references) result h

  -- The evaluator raises nothing but ValueErrors on the context's rules.
  abbrev pub RaisesValueErrors : List PolicyRule → Type 0
  RaisesValueErrors rules =
      (rule : PolicyRule)
      → In rule rules
      → (e : Error) → evaluator.evaluate resource_id rule context profile ≡ err e
      → is_value_error e ≡ true

  recorded-AnswersTo :
      (p : EvaluationPerspective) (rule : PolicyRule)
      → failed_perspective perspective evaluator ≡ some p
      → ((e : Error)
          → evaluator.evaluate resource_id rule context profile ≡ err e
          → is_value_error e ≡ true)
      → (result : EvaluationResult) × (recorded_result
            (failed_perspective perspective evaluator)
            resource_id
            rule
            profile
            (validated_answer perspective evaluator resource_id context profile rule)
          ≡ ok result)
        × AnswersTo rule result
  unfolding validated_answer recorded_result
  recorded-AnswersTo p rule known raises =
      elim (Result-cases (evaluator.evaluate resource_id rule context profile)) [
        | inl (result, evaluated) ↦
            elim (Result-cases (validated_result result resource_id rule context)) [
              | inl (valid, checked) ↦ (
                valid,
                rw (evaluated, checked) refl,
                validated_result-AnswersTo rule result evaluated checked,
              )
              | inr (e, invalid) ↦
                  failed e (rw (evaluated, invalid) refl)
                    (validated_result-raises rule result invalid)
            ]
        | inr (e, raised) ↦ failed e (rw raised refl) (raises e raised)
      ]
    where
      failed :
          (e : Error)
          → validated_answer perspective evaluator resource_id context profile rule ≡ err e
          → is_value_error e ≡ true
          → (result : EvaluationResult) × (recorded_result
                (failed_perspective perspective evaluator)
                resource_id
                rule
                profile
                (validated_answer perspective evaluator resource_id context profile rule)
              ≡ ok result)
            × AnswersTo rule result
      failed e wrong caught = (
        execution_error_result resource_id rule p profile,
        rw (known, wrong, caught) refl,
        record {
          resource = refl;
          names = (refl, refl);
          cites = refl;
          own = inr (refl, (e, wrong));
        },
      )

  evaluate_rules-Answers :
      (p : EvaluationPerspective)
      → failed_perspective perspective evaluator ≡ some p
      → (rules : List PolicyRule) → RaisesValueErrors rules
      → (results : List EvaluationResult) × (evaluate_rules perspective evaluator resource_id
            context profile rules
          ≡ ok results)
        × Answers rules results
  unfolding evaluate_rules
  evaluate_rules-Answers p known [] raises = ([], refl, tt)
  evaluate_rules-Answers p known (rule ∷ rules) raises =
      let (result, records, answers) = recorded-AnswersTo p rule known (raises rule (inl refl)) in
      let (results, evaluates, rest) =
        evaluate_rules-Answers p known rules (λ r there. raises r (inr there)) in
      (result ∷ results, rw (records, evaluates) refl, (answers, rest))

  -- Where a perspective is known, the resource's name is not blank and the evaluator raises nothing but
  -- ValueErrors, `evaluate_resource` returns exactly one result for each rule of the context, in their order: the evaluator's own where it is
  -- valid and an EXECUTION_ERROR otherwise. Each is for the resource and the rule's version and cites only
  -- evidence that the context allows.
  pub evaluate_resource-Answers :
      (p : EvaluationPerspective)
      → failed_perspective perspective evaluator ≡ some p
      → is_blank resource_id ≡ false
      → RaisesValueErrors context.rules
      → (results : List EvaluationResult) × (evaluate_resource perspective evaluator resource_id
            context profile
          ≡ ok results)
        × Answers context.rules results
  unfolding evaluate_resource
  evaluate_resource-Answers p known is_named raises =
      let (results, evaluates, answers) = evaluate_rules-Answers p known context.rules raises in
      (results, rw (is_named, evaluates) refl, answers)
