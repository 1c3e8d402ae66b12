-- ===== src/Assessment/Worker/Planned.antt =====
-- The results of a worker stand at the coordinates of its plan.
use mathlib.Core.Path.{subst}
use kosa_aws.Assessment.Comparison.{PlannedEvaluation, plans_coordinate, same_coordinate, same_plan}
use kosa_aws.Assessment.Comparison.Eligible.{coordinate_iff, same_plan_iff}
use kosa_aws.Assessment.Planner.{
  EvaluationExecutionPlanner, has_perspective, perspective_order, planner_init,
}
use kosa_aws.Assessment.Planner.Ordered.{has_iff}
use kosa_aws.Assessment.Readiness.{coordinate_of}
use kosa_aws.Assessment.Results.{EvaluationResult}
use kosa_aws.Assessment.Worker.{
  AssessmentResourceWork, AssessmentRunner, Runners, WorkerRunners, coordinates_of, planned_at,
  runner_each, runner_perspectives, single_runner, worker_init, worker_perspectives,
}
use kosa_aws.Base.{
  Bool, In, In-append, In-filter, In-map, List, Option, String, [], any-In, ap, arith, false,
  filter, inl, inr, is_empty, is_some, map, none, not, refl, some, true, ◌&&◌, ◌++◌, ◌||◌, ◌↔◌, ◌∙◌,
  ◌∷◌, ◌≡◌, ◌⊎◌,
}
use kosa_aws.Errors.{bind_ok, ok, ok_inj, require_ok}
use kosa_aws.Evidence.Binding.{EvaluationPerspective, aws_actual, drift_view, iac, manual}
use kosa_aws.Evidence.Lookup.Present.{given}
use kosa_aws.Policy.Rules.{PolicyRule}

-- The coordinate is that of a rule in a perspective that the worker gives to the rule.
abbrev pub PlansAt :
    (PolicyRule → List EvaluationPerspective)
    → String
    → List PolicyRule
    → PlannedEvaluation
    → Type 0
PlansAt views resource_id rules c =
    (rule : PolicyRule) × (p : EvaluationPerspective) × In rule rules
    × In p (views rule)
    × (c ≡ planned_at resource_id rule p)

pub coordinates_of-PlansAt :
    (worker : WorkerRunners) (work : AssessmentResourceWork) (rules : List PolicyRule)
    (c : PlannedEvaluation)
    → In c (coordinates_of worker work rules)
      ↔ PlansAt (worker_perspectives worker work) work.resource_id rules c
unfolding coordinates_of
coordinates_of-PlansAt worker work [] c = (λ never. absurd never, λ h. absurd h.2)
coordinates_of-PlansAt worker work (rule ∷ rules) c =
    let views = worker_perspectives worker work rule in
    let at_rule = In-map (planned_at work.resource_id rule) views c in
    let others = coordinates_of-PlansAt worker work rules c in
    let split =
      In-append (map (planned_at work.resource_id rule) views) (coordinates_of worker work rules)
        c in
    (
      λ i. elim (split.0 i) [
        | inl first ↦ let (p, listed, e) = at_rule.0 first in (rule, p, inl refl, listed, e)
        | inr rest ↦ let (r, p, there, listed, e) = others.0 rest in (r, p, inr there, listed, e)
      ],
      λ h. elim h.2 [
        | inl e ↦ split.1 (
            inl (
              at_rule.1 (
                h.1,
                subst (λ r. In h.1 (worker_perspectives worker work r)) e h.3,
                h.4 ∙ ap (λ r. planned_at work.resource_id r h.1) e,
              )))
        | inr there ↦ split.1 (inr (others.1 (h.0, h.1, there, h.3, h.4)))
      ],
    )

pub plans_iff :
    (plan : List PlannedEvaluation) (c : PlannedEvaluation)
    → (plans_coordinate plan c ≡ true) ↔ In c plan
unfolding plans_coordinate
plans_iff plan c =
    let found = any-In (λ q. same_coordinate q c) plan in
    (
      λ h.
          let (q, listed, same) = found.0 h in
          subst (λ x. In x plan) ((coordinate_iff q c).0 same) listed,
      λ i. found.1 (c, i, (coordinate_iff c c).1 refl),
    )

-- Two lists with the same coordinates are the same plan.
pub In-same_plan :
    (a b : List PlannedEvaluation)
    → ((c : PlannedEvaluation) → In c a ↔ In c b)
    → same_plan a b ≡ true
In-same_plan a b same = (same_plan_iff a b).1 (
  λ c h. (plans_iff b c).1 ((same c).0 ((plans_iff a c).0 h)),
  λ c h. (plans_iff a c).1 ((same c).1 ((plans_iff b c).0 h)),
)

-- The planner gives no rule DRIFT as an evaluated perspective and none without a runner.
pub record Fits (runners : Runners) (planner : EvaluationExecutionPlanner) : Type 0 where
  pub no_drift : has_perspective planner.available drift_view ≡ false
  pub runs :
      (p : EvaluationPerspective)
      → has_perspective planner.available p ≡ true
      → is_some (runners p) ≡ true

planner_init-Fits :
    (runners : Runners) (derives_drift : Bool) {planner : EvaluationExecutionPlanner}
    → planner_init (runner_perspectives runners) derives_drift ≡ ok planner
    → Fits runners planner
unfolding planner_init runner_perspectives
planner_init-Fits runners derives_drift h =
    let views = runner_perspectives runners in
    let available = filter (has_perspective views) perspective_order in
    let (only, h1) = require_ok (not (has_perspective available drift_view)) _ _ h in
    let (_, h2) =
      require_ok
        (not derives_drift
          || (has_perspective available iac && has_perspective available aws_actual))
        _ _ h1 in
    subst (Fits runners) (ok_inj h2) (record {
      no_drift = ground (arith, only);
      runs = λ p has.
          let listed = (has_iff p available).0 has in
          let (_, given) = (In-filter (has_perspective views) perspective_order p).0 listed in
          let (_, there) =
            (In-filter (λ q. is_some (runners q)) (iac ∷ aws_actual ∷ manual ∷ []) p).0
              ((has_iff p views).0 given) in
          there;
    })

abbrev pub FitsWorker : WorkerRunners → Type 0
FitsWorker (single_runner runner) = Unit {0}
FitsWorker (runner_each runners planner) = Fits runners planner

pub worker_init-Fits :
    (runner : Option AssessmentRunner) (runners : Option Runners) (derives_drift : Bool)
    {worker : WorkerRunners}
    → worker_init runner runners derives_drift ≡ ok worker
    → FitsWorker worker
unfolding worker_init
worker_init-Fits (some runner) none derives_drift h =
    let (_, h1) = require_ok (not derives_drift) _ _ h in subst FitsWorker (ok_inj h1) tt
worker_init-Fits none (some runners) derives_drift h =
    let (_, h1) =
      require_ok (not (is_empty (runner_perspectives runners)) || is_some (runners drift_view)) _ _
        h in
    let (_, h2) = require_ok (not (is_some (runners drift_view))) _ _ h1 in
    let (planner, built, h3) =
      bind_ok (planner_init (runner_perspectives runners) derives_drift) _ h2 in
    subst FitsWorker (ok_inj h3) (planner_init-Fits runners derives_drift built)
worker_init-Fits none none derives_drift h = absurd (cc h)
worker_init-Fits (some runner) (some runners) derives_drift h = absurd (cc h)

pub In-map-append :
    (xs ys : List EvaluationResult) (c : PlannedEvaluation)
    → In c (map coordinate_of (xs ++ ys))
      ↔ (In c (map coordinate_of xs) ⊎ In c (map coordinate_of ys))
In-map-append [] ys c = (λ i. inr i, λ h. elim h [ inl never ↦ absurd never | inr i ↦ i ])
In-map-append (x ∷ xs) ys c =
    let rest = In-map-append xs ys c in
    (
      λ i. elim i [
        | inl e ↦ inl (inl e)
        | inr there ↦ elim (rest.0 there) [ inl left ↦ inl (inr left) | inr right ↦ inr right ]
      ],
      λ h. elim h [
        | inl (inl e) ↦ inl e
        | inl (inr left) ↦ inr (rest.1 (inl left))
        | inr right ↦ inr (rest.1 (inr right))
      ],
    )
