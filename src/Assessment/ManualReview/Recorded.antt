-- ===== src/Assessment/ManualReview/Recorded.antt =====
-- What the runner records for rules that a person settles.
use Prim.Native.String.{◌++◌ as append}
use text.Mathlib.TextLemmas.{nil-append, cons-append}
use kosa_aws.Assessment.ManualReview.{
  governance_assessment_resource_type, is_manual_type, manual_evaluate, manual_result,
  manual_review_evaluator,
}
use kosa_aws.Assessment.Runner.{
  ModelProfile, validated_answer, evaluate_resource, evaluate_rules, recorded_result,
  validated_result,
}
use kosa_aws.Base.{
  All, In, List, String, [], all, arith, eq_iff, false, inl, inr, is_blank, map, none, refl, true,
  ◌∷◌, ◌≡◌,
}
use kosa_aws.Errors.{ok}
use kosa_aws.Policy.Context.{PolicyContext, allows_evidence}
use kosa_aws.Policy.Context.Allowed.{Cites, allows_evidence_iff}
use kosa_aws.Policy.Rules.{PolicyRule, SourceReference, evidence_reference}

-- A text is not blank where a part of it is not.
blank-append_left : (s rest : String) → is_blank s ≡ false → is_blank (append s rest) ≡ false
unfolding is_blank
blank-append_left String.[] rest h = absurd (cc)
blank-append_left (String.◌∷◌ c s) rest h =
    rw (cons-append c s rest) (ground (arith, blank-append_left s rest))

blank-append_right : (s rest : String) → is_blank rest ≡ false → is_blank (append s rest) ≡ false
unfolding is_blank
blank-append_right String.[] rest h = rw (nil-append rest) h
blank-append_right (String.◌∷◌ c s) rest h =
    rw (cons-append c s rest) (ground (arith, blank-append_right s rest h))

at_sign : is_blank "@" ≡ false
unfolding is_blank
at_sign = refl

cited_all :
    (context : PolicyContext) (rule : PolicyRule) (references : List SourceReference)
    → In rule context.rules
    → ((r : SourceReference) → In r references → In r rule.source_references)
    → all (allows_evidence context) (map evidence_reference references) ≡ true
unfolding evidence_reference
cited_all context rule [] listed within = refl
cited_all context rule (r ∷ references) listed within =
    let cites : Cites context.rules r = (rule, listed, within r (inl refl)) in
    let allowed =
      (allows_evidence_iff context (evidence_reference r)).1
        (named_evidence r, inl (r, cites, refl)) in
    rw (allowed, cited_all context rule references listed (λ q i. within q (inr i))) refl
  where
    named_evidence : (r : SourceReference) → is_blank (evidence_reference r) ≡ false
    named_evidence r = blank-append_right r.source_id _ (blank-append_left "@" _ at_sign)

module _ (resource_id : String) (context : PolicyContext) (profile : ModelProfile) where
  manual_answer :
      (rule : PolicyRule)
      → context.resource_type ≡ governance_assessment_resource_type
      → In rule context.rules
      → is_manual_type rule.evaluation_type ≡ true
      → validated_answer none manual_review_evaluator resource_id context profile rule
        ≡ ok (manual_result resource_id rule profile)
  unfolding validated_answer manual_evaluate validated_result
  manual_answer rule governance listed is_manual =
      rw
        (
          is_manual,
          (eq_iff context.resource_type _).1 governance,
          (eq_iff resource_id _).1 refl,
          (eq_iff rule.rule_id _).1 refl,
          (eq_iff rule.version _).1 refl,
          cited_all context rule rule.source_references listed (λ r i. i),
        )
        refl

  manual_rules :
      (rules : List PolicyRule)
      → context.resource_type ≡ governance_assessment_resource_type
      → ((rule : PolicyRule) → In rule rules → In rule context.rules)
      → All (λ rule. is_manual_type rule.evaluation_type ≡ true) rules
      → evaluate_rules none manual_review_evaluator resource_id context profile rules
        ≡ ok (map (λ rule. manual_result resource_id rule profile) rules)
  unfolding evaluate_rules recorded_result
  manual_rules [] governance within are_manual = refl
  manual_rules (rule ∷ rules) governance within (is_manual, are_manual) =
      rw
        (
          manual_answer rule governance (within rule (inl refl)) is_manual,
          manual_rules rules governance (λ r i. within r (inr i)) are_manual,
        )
        refl

  -- On a governance context of MANUAL rules and a resource whose name is not blank, the runner with the manual evaluator returns exactly the
  -- MANUAL_REVIEW result of each rule, in order: the evidence that the evaluator cites is always allowed, so
  -- no coordinate is lost to an EXECUTION_ERROR.
  pub evaluate_resource-manual :
      context.resource_type ≡ governance_assessment_resource_type
      → is_blank resource_id ≡ false
      → All (λ rule. is_manual_type rule.evaluation_type ≡ true) context.rules
      → evaluate_resource none manual_review_evaluator resource_id context profile
        ≡ ok (map (λ rule. manual_result resource_id rule profile) context.rules)
  unfolding evaluate_resource
  evaluate_resource-manual governance is_named are_manual =
      rw (is_named) (manual_rules context.rules governance (λ r i. i) are_manual)
