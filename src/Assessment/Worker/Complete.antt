-- ===== src/Assessment/Worker/Complete.antt =====
-- An evaluation covers its plan: no planned coordinate is without a result, and no result is unplanned.
use mathlib.Core.Path.{subst}
use kosa_aws.Assessment.Comparison.{PlannedEvaluation, same_plan}
use kosa_aws.Assessment.Planner.{EvaluationExecutionPlanner, perspectives_for}
use kosa_aws.Assessment.Readiness.{coordinate_of, has_no_duplicates}
use kosa_aws.Assessment.Results.{EvaluationResult}
use kosa_aws.Assessment.Runner.{ModelProfile}
use kosa_aws.Assessment.Worker.{
  AssessmentResourceWork, AssessmentRunner, Runners, WorkerRunners, coordinates_of,
  derived_coordinates, derived_drift, evaluate, evaluate_perspective, has_distinct_ids, planned_at,
  runner_each, single_runner, worker_init, worker_perspectives,
}
use kosa_aws.Assessment.Worker.Covered.{run_checked-coordinates}
use kosa_aws.Assessment.Worker.Drifted.{drift-ResultsAt}
use kosa_aws.Assessment.Worker.Once.{coordinates-no_duplicates}
use kosa_aws.Assessment.Worker.Perspective.{ResultsAt, evaluate_perspective-ResultsAt}
use kosa_aws.Assessment.Worker.Planned.{
  Fits, FitsWorker, In-map-append, In-same_plan, PlansAt, coordinates_of-PlansAt, worker_init-Fits,
}
use kosa_aws.Base.{
  Bool, In, List, Option, [], ap, if◌then◌else◌, inl, inr, map, refl, sym, true, ◌++◌, ◌↔◌, ◌∙◌,
  ◌∷◌, ◌≡◌,
}
use kosa_aws.Errors.{bind_ok, ok, ok_inj, require_ok}
use kosa_aws.Evidence.Binding.{EvaluationPerspective, aws_actual, drift_view, iac, manual}
use kosa_aws.Evidence.Lookup.Present.{given}
use kosa_aws.Policy.Context.{PolicyContext}
use kosa_aws.Policy.Rules.{PolicyRule}

module _ (work : AssessmentResourceWork) (context : PolicyContext) (profile : ModelProfile) where
  -- The results of all perspectives, split by the perspective of a coordinate.
  all_ResultsAt :
      (planner : EvaluationExecutionPlanner) (is actuals manuals drift : List EvaluationResult)
      → ResultsAt work context planner iac is
      → ResultsAt work context planner aws_actual actuals
      → ResultsAt work context planner manual manuals
      → ResultsAt work context planner drift_view drift
      → (c : PlannedEvaluation)
      → In c (map coordinate_of (is ++ (actuals ++ (manuals ++ drift))))
        ↔ PlansAt (perspectives_for planner) work.resource_id context.rules c
  all_ResultsAt planner is actuals manuals drift at_iac at_actual at_manual at_drift c =
      let first = In-map-append is (actuals ++ (manuals ++ drift)) c in
      let second = In-map-append actuals (manuals ++ drift) c in
      let third = In-map-append manuals drift c in
      (
        λ i. elim (first.0 i) [
          | inl a ↦ at_view iac ((at_iac c).0 a)
          | inr j ↦ elim (second.0 j) [
            | inl b ↦ at_view aws_actual ((at_actual c).0 b)
            | inr k ↦ elim (third.0 k) [
              | inl d ↦ at_view manual ((at_manual c).0 d)
              | inr e ↦ at_view drift_view ((at_drift c).0 e)
            ]
          ]
        ],
        λ h. by_view h.0 h.1 h.2 h.3 h.4,
      )
    where
      at_view :
          (p : EvaluationPerspective)
          → ((rule : PolicyRule) × In rule context.rules
              × In p (perspectives_for planner rule)
              × (c ≡ planned_at work.resource_id rule p))
          → PlansAt (perspectives_for planner) work.resource_id context.rules c
      at_view p (rule, there, given, e) = (rule, p, there, given, e)

      by_view :
          (rule : PolicyRule) (p : EvaluationPerspective)
          → In rule context.rules
          → In p (perspectives_for planner rule)
          → c ≡ planned_at work.resource_id rule p
          → In c (map coordinate_of (is ++ (actuals ++ (manuals ++ drift))))
      by_view rule iac there given e =
          (In-map-append is (actuals ++ (manuals ++ drift)) c).1
            (inl ((at_iac c).1 (rule, there, given, e)))
      by_view rule aws_actual there given e =
          (In-map-append is (actuals ++ (manuals ++ drift)) c).1 (
            inr (
              (In-map-append actuals (manuals ++ drift) c).1
                (inl ((at_actual c).1 (rule, there, given, e)))))
      by_view rule manual there given e = (In-map-append is (actuals ++ (manuals ++ drift)) c).1 (
          inr (
            (In-map-append actuals (manuals ++ drift) c).1 (
              inr (
                (In-map-append manuals drift c).1
                  (inl ((at_manual c).1 (rule, there, given, e)))))))
      by_view rule drift_view there given e =
          (In-map-append is (actuals ++ (manuals ++ drift)) c).1 (
            inr (
              (In-map-append actuals (manuals ++ drift) c).1 (
                inr (
                  (In-map-append manuals drift c).1
                    (inr ((at_drift c).1 (rule, there, given, e)))))))

  evaluate_each_complete :
      (runners : Runners) (planner : EvaluationExecutionPlanner) {results : List EvaluationResult}
      → Fits runners planner
      → evaluate work context profile (runner_each runners planner) ≡ ok results
      → same_plan
          (map coordinate_of results)
          (coordinates_of (runner_each runners planner) work context.rules)
        ≡ true
  unfolding evaluate worker_perspectives
  evaluate_each_complete runners planner fits h =
      let (is, hi, h1) =
        bind_ok (evaluate_perspective work context profile runners planner iac) _ h in
      let (actuals, ha, h2) =
        bind_ok (evaluate_perspective work context profile runners planner aws_actual) _ h1 in
      let (manuals, hm, h3) =
        bind_ok (evaluate_perspective work context profile runners planner manual) _ h2 in
      let (drift, hd, h4) =
        bind_ok
          (if planner.derives_drift
            then derived_drift work context profile planner is actuals
            else ok [])
          _ h3 in
      let at_iac =
        evaluate_perspective-ResultsAt work context profile runners planner fits iac (λ e. cc e)
          hi in
      let at_actual =
        evaluate_perspective-ResultsAt work context profile runners planner fits aws_actual
          (λ e. cc e) ha in
      let at_manual =
        evaluate_perspective-ResultsAt work context profile runners planner fits manual (λ e. cc e)
          hm in
      let at_drift =
        drift-ResultsAt work context profile runners planner fits planner.derives_drift is actuals
          refl at_iac at_actual hd in
      let standing =
        all_ResultsAt planner is actuals manuals drift at_iac at_actual at_manual at_drift in
      In-same_plan _ _ (λ c.
        let plans = coordinates_of-PlansAt (runner_each runners planner) work context.rules c in
        let covered =
          subst
            (λ rs.
              In c (map coordinate_of rs)
              ↔ PlansAt (perspectives_for planner) work.resource_id context.rules c)
            (ok_inj h4) (standing c) in
        (λ i. plans.1 (covered.0 i), λ i. covered.1 (plans.0 i)))

  coordinates_of-single :
      (runner : AssessmentRunner) (rules : List PolicyRule)
      → coordinates_of (single_runner runner) work rules
        ≡ map (λ rule. planned_at work.resource_id rule work.perspective) rules
  unfolding coordinates_of worker_perspectives
  coordinates_of-single runner [] = refl
  coordinates_of-single runner (rule ∷ rules) =
      ap (λ rest. planned_at work.resource_id rule work.perspective ∷ rest)
        (coordinates_of-single runner rules)

  evaluate_single_complete :
      (runner : AssessmentRunner) {results : List EvaluationResult}
      → evaluate work context profile (single_runner runner) ≡ ok results
      → same_plan
          (map coordinate_of results)
          (coordinates_of (single_runner runner) work context.rules)
        ≡ true
  unfolding evaluate
  evaluate_single_complete runner h =
      let coordinates =
        run_checked-coordinates work context profile runner work.perspective context h in
      let same_list = coordinates ∙ sym (coordinates_of-single runner context.rules) in
      In-same_plan _ _ (λ c. (λ i. subst (In c) same_list i, λ i. subst (In c) (sym same_list) i))

  -- Where a worker was built, a plan derived for a task, and the task's evaluation returned, the coordinates
  -- of the results are exactly those of the plan, which names none twice: every planned coordinate has a
  -- result, and each result stands at a planned coordinate, the DRIFT results that are derived from two
  -- perspectives included. This holds for a worker of a single runner and for one with a runner for each of
  -- some perspectives.
  pub evaluate_complete :
      (runner : Option AssessmentRunner) (runners : Option Runners) (derives_drift : Bool)
      {worker : WorkerRunners} {plan : List PlannedEvaluation} {results : List EvaluationResult}
      → worker_init runner runners derives_drift ≡ ok worker
      → derived_coordinates worker work context ≡ ok plan
      → evaluate work context profile worker ≡ ok results
      → (same_plan (map coordinate_of results) plan ≡ true) × (has_no_duplicates plan ≡ true)
  unfolding derived_coordinates
  evaluate_complete runner runners derives_drift {worker} {plan} {results} built plans evaluates =
      let (distinct, h) = require_ok (has_distinct_ids context.rules) _ _ plans in
      let fits = worker_init-Fits runner runners derives_drift built in
      subst (λ q. (same_plan (map coordinate_of results) q ≡ true) × (has_no_duplicates q ≡ true))
        (ok_inj h)
        (
          by_runners worker results fits evaluates,
          coordinates-no_duplicates worker work context.rules distinct,
        )
    where
      by_runners :
          (worker : WorkerRunners) (results : List EvaluationResult)
          → FitsWorker worker
          → evaluate work context profile worker ≡ ok results
          → same_plan (map coordinate_of results) (coordinates_of worker work context.rules) ≡ true
      by_runners (single_runner r) results fits h = evaluate_single_complete r h
      by_runners (runner_each rs planner) results fits h = evaluate_each_complete rs planner fits h
