-- ===== src/Assessment/Worker/Perspective.antt =====
-- The results of one perspective stand at the coordinates that are planned there.
use mathlib.Core.Path.{subst}
use kosa_aws.Assessment.Comparison.{PlannedEvaluation}
use kosa_aws.Assessment.Planner.{
  EvaluationExecutionPlanner, has_perspective, perspectives_for, rules_for,
}
use kosa_aws.Assessment.Planner.Ordered.{has_iff, perspectives_for-available}
use kosa_aws.Assessment.Readiness.{coordinate_of}
use kosa_aws.Assessment.Results.{EvaluationResult}
use kosa_aws.Assessment.Runner.{ModelProfile}
use kosa_aws.Assessment.Worker.{
  AssessmentResourceWork, Runners, evaluate_perspective, planned_at, run_checked,
}
use kosa_aws.Assessment.Worker.Covered.{run_checked-coordinates}
use kosa_aws.Assessment.Worker.Planned.{Fits}
use kosa_aws.Base.{
  Bool, Bool-cases, In, In-filter, In-map, List, Option-cases, [], ap, false, filter, inl, inr,
  is_empty, map, none, refl, sym, true, ◌↔◌, ◌∙◌, ◌∷◌, ◌≡◌, ◌≢◌,
}
use kosa_aws.Deployment.Approval.{available}
use kosa_aws.Errors.{ok, ok_inj}
use kosa_aws.Evidence.Binding.{EvaluationPerspective, drift_view}
use kosa_aws.Evidence.Lookup.Present.{given}
use kosa_aws.Policy.Context.{PolicyContext}
use kosa_aws.Policy.Rules.{PolicyRule}

module _ {A : Type 0} where
  filter_none : (p : A → Bool) (xs : List A) → ((x : A) → p x ≡ false) → filter p xs ≡ []
  filter_none p [] fails = refl
  filter_none p (x ∷ xs) fails = rw (fails x, filter_none p xs fails) refl

  empty_list : (xs : List A) → is_empty xs ≡ true → xs ≡ []
  empty_list [] h = refl
  empty_list (x ∷ xs) h = cc h

-- The results stand at the coordinates of the rules that are given the perspective.
abbrev pub ResultsAt :
    AssessmentResourceWork
    → PolicyContext
    → EvaluationExecutionPlanner
    → EvaluationPerspective
    → List EvaluationResult
    → Type 0
ResultsAt work context planner p rs =
    (c : PlannedEvaluation)
    → In c (map coordinate_of rs) ↔ (
        (rule : PolicyRule) × In rule context.rules
        × In p (perspectives_for planner rule)
        × (c ≡ planned_at work.resource_id rule p))

module _ (work : AssessmentResourceWork) (context : PolicyContext) (profile : ModelProfile)
    (runners : Runners) (planner : EvaluationExecutionPlanner) (fits : Fits runners planner) where
  pub rules_for_iff :
      (p : EvaluationPerspective) (rule : PolicyRule)
      → In rule (rules_for planner p context.rules)
        ↔ (In rule context.rules × In p (perspectives_for planner rule))
  unfolding rules_for
  rules_for_iff p rule =
      let kept =
        In-filter (λ r. has_perspective (perspectives_for planner r) p) context.rules rule in
      let views = has_iff p (perspectives_for planner rule) in
      (λ i. let (listed, has) = kept.0 i in (listed, views.0 has), λ h. kept.1 (h.0, views.1 h.1))

  coordinates-ResultsAt :
      (p : EvaluationPerspective) (rs : List EvaluationResult)
      → map coordinate_of rs
        ≡ map (λ rule. planned_at work.resource_id rule p) (rules_for planner p context.rules)
      → ResultsAt work context planner p rs
  coordinates-ResultsAt p rs e c =
      let mapped =
        In-map (λ rule. planned_at work.resource_id rule p) (rules_for planner p context.rules) c in
      (
        λ i.
            let (rule, listed, at_rule) = mapped.0 (subst (In c) e i) in
            let (there, given) = (rules_for_iff p rule).0 listed in (rule, there, given, at_rule),
        λ h. subst (In c) (sym e) (mapped.1 (h.0, (rules_for_iff p h.0).1 (h.1, h.2), h.3)),
      )

  rules_for-unrun :
      (p : EvaluationPerspective)
      → p ≢ drift_view
      → runners p ≡ none
      → rules_for planner p context.rules ≡ []
  unfolding rules_for
  rules_for-unrun p evaluated unrun = filter_none _ context.rules (λ rule.
      elim (Bool-cases (has_perspective (perspectives_for planner rule) p)) [
        | inl has ↦ elim (perspectives_for-available planner rule p has) [
          | inl e ↦ absurd (evaluated e)
          | inr available ↦ absurd (let wrong = fits.runs p available in cc (wrong, unrun))
        ]
        | inr lacks ↦ lacks
      ])

  pub evaluate_perspective-ResultsAt :
      (p : EvaluationPerspective) {rs : List EvaluationResult}
      → p ≢ drift_view
      → evaluate_perspective work context profile runners planner p ≡ ok rs
      → ResultsAt work context planner p rs
  unfolding evaluate_perspective
  evaluate_perspective-ResultsAt p {rs} evaluated h = elim (Option-cases (runners p)) [
    | inl unrun ↦
        let nothing : ok [] ≡ ok rs = rw (evaluate_perspective, unrun) at h in
        unplanned nothing (rules_for-unrun p evaluated unrun)
    | inr (runner, found) ↦ elim (Bool-cases (is_empty (rules_for planner p context.rules))) [
      | inl empty ↦
          let nothing : ok [] ≡ ok rs = rw (evaluate_perspective, found, empty) at h in
          unplanned nothing (empty_list _ empty)
      | inr full ↦
          let runs : run_checked work context profile runner p
                (record context { rules = rules_for planner p context.rules })
              ≡ ok rs =
            rw (evaluate_perspective, found, full) at h in
          coordinates-ResultsAt p rs (run_checked-coordinates work context profile runner p _ runs)
    ]
  ]
    where
      unplanned :
          {rs : List EvaluationResult}
          → ok [] ≡ ok rs
          → rules_for planner p context.rules ≡ []
          → ResultsAt work context planner p rs
      unplanned {rs} nothing none_given = coordinates-ResultsAt p rs (
          ap (map coordinate_of) (sym (ok_inj nothing))
          ∙ ap (map (λ rule. planned_at work.resource_id rule p)) (sym none_given))
