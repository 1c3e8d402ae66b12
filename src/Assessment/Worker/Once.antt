-- ===== src/Assessment/Worker/Once.antt =====
-- A derived plan names no coordinate twice.
use mathlib.Core.Path.{subst}
use kosa_aws.Assessment.Comparison.{PlannedEvaluation, plans_coordinate}
use kosa_aws.Assessment.Planner.{
  EvaluationExecutionPlanner, evaluated_perspectives, has_perspective, is_drift_eligible,
  is_dual_type, perspectives_for, typed_perspectives, with_drift,
}
use kosa_aws.Assessment.Planner.Ordered.{has_iff}
use kosa_aws.Assessment.Readiness.{has_no_duplicates}
use kosa_aws.Assessment.Results.{same_perspective}
use kosa_aws.Assessment.Worker.{
  AssessmentResourceWork, WorkerRunners, coordinates_of, has_distinct_ids, planned_at, runner_each,
  single_runner, worker_perspectives,
}
use kosa_aws.Assessment.Worker.Planned.{coordinates_of-PlansAt, plans_iff}
use kosa_aws.Base.{
  Bool, Bool-cases, In, In-append, In-map, List, Option, String, [], any, any-In, ap, arith, eq_iff,
  filter, inl, inr, map, not, refl, sym, true, ◌&&◌, ◌++◌, ◌==◌, ◌∙◌, ◌∷◌, ◌≡◌,
}
use kosa_aws.Evidence.Binding.{EvaluationPerspective}
use kosa_aws.Policy.Rules.{PolicyRule, RuleEvaluationType}

module _ {A : Type 0} where
  abbrev pub Once : List A → Type 0
  Once [] = Unit {0}
  Once (x ∷ xs) = (¬ In x xs) × Once xs

  Once-append :
      (xs ys : List A) → Once xs → Once ys → ((x : A) → In x xs → In x ys → ⊥) → Once (xs ++ ys)
  Once-append [] ys once_xs once_ys apart = once_ys
  Once-append (x ∷ xs) ys (new, once_xs) once_ys apart = (
    λ i. elim ((In-append xs ys x).0 i) [
      | inl left ↦ new left
      | inr right ↦ apart x (inl refl) right
    ],
    Once-append xs ys once_xs once_ys (λ y i j. apart y (inr i) j),
  )

-- The Boolean test on perspectives, which computes.
abbrev once_each : List EvaluationPerspective → Bool
once_each [] = true
once_each (p ∷ ps) = not (has_perspective ps p) && once_each ps

Once-planned_at :
    (resource_id : String) (rule : PolicyRule) (ps : List EvaluationPerspective)
    → once_each ps ≡ true
    → Once (map (planned_at resource_id rule) ps)
Once-planned_at resource_id rule [] h = tt
Once-planned_at resource_id rule (p ∷ ps) h = (
  λ i.
      let (q, listed, e) = (In-map (planned_at resource_id rule) ps _).0 i in
      let same_view = ap (λ (c : PlannedEvaluation). c.perspective) e in
      let again = (has_iff p ps).1 (subst (λ x. In x ps) (sym same_view) listed) in
      ground (arith, h, again),
  Once-planned_at resource_id rule ps (ground (arith, h)),
)

for_type-once :
    (planner : EvaluationExecutionPlanner) (t : Option RuleEvaluationType)
    → once_each (
        with_drift planner
          (is_dual_type t)
          (filter (has_perspective planner.available) (typed_perspectives t)))
      ≡ true
unfolding with_drift is_dual_type has_perspective typed_perspectives same_perspective
for_type-once planner t = ground arith

worker_perspectives-once :
    (worker : WorkerRunners) (work : AssessmentResourceWork) (rule : PolicyRule)
    → once_each (worker_perspectives worker work rule) ≡ true
unfolding worker_perspectives perspectives_for evaluated_perspectives is_drift_eligible
    has_perspective
worker_perspectives-once (single_runner runner) work rule = refl
worker_perspectives-once (runner_each runners planner) work rule =
    for_type-once planner rule.evaluation_type

-- The rules have distinct identifiers, so a coordinate of one is none of another.
coordinates_of-Once :
    (worker : WorkerRunners) (work : AssessmentResourceWork) (rules : List PolicyRule)
    → has_distinct_ids rules ≡ true
    → Once (coordinates_of worker work rules)
unfolding coordinates_of has_distinct_ids
coordinates_of-Once worker work [] h = tt
coordinates_of-Once worker work (rule ∷ rules) h =
    let first = map (planned_at work.resource_id rule) (worker_perspectives worker work rule) in
    let named_again = any (λ r. r.rule_id == rule.rule_id) rules in
    let others = coordinates_of-Once worker work rules (ground (arith, h)) in
    Once-append first (coordinates_of worker work rules)
      (Once-planned_at work.resource_id rule (worker_perspectives worker work rule)
        (worker_perspectives-once worker work rule))
      others
      (λ c i j.
        let (p, _, e) = (In-map (planned_at work.resource_id rule) _ c).0 i in
        let (r, q, there, _, f) = (coordinates_of-PlansAt worker work rules c).0 j in
        let same_id = ap (λ (x : PlannedEvaluation). x.rule_id) (sym f ∙ e) in
        let again =
          (any-In (λ r. r.rule_id == rule.rule_id) rules).1
            (r, there, (eq_iff r.rule_id rule.rule_id).1 same_id) in
        ground (arith, h, again))

pub Once-no_duplicates : (plan : List PlannedEvaluation) → Once plan → has_no_duplicates plan ≡ true
unfolding has_no_duplicates
Once-no_duplicates [] once = refl
Once-no_duplicates (p ∷ ps) (new, once) = elim (Bool-cases (plans_coordinate ps p)) [
  | inl again ↦ absurd (new ((plans_iff ps p).0 again))
  | inr new_one ↦ let rest = Once-no_duplicates ps once in ground (arith, new_one, rest)
]

pub coordinates-no_duplicates :
    (worker : WorkerRunners) (work : AssessmentResourceWork) (rules : List PolicyRule)
    → has_distinct_ids rules ≡ true
    → has_no_duplicates (coordinates_of worker work rules) ≡ true
coordinates-no_duplicates worker work rules h =
    Once-no_duplicates _ (coordinates_of-Once worker work rules h)
