-- ===== src/Assessment/Worker/Drifted.antt =====
-- The comparison of two perspectives stands at the coordinates that are planned as DRIFT.
use mathlib.Core.Path.{subst}
use kosa_aws.Assessment.Comparison.{PlannedEvaluation}
use kosa_aws.Assessment.Drift.{Key, derive_drift_results, has_key, key_eq, key_of}
use kosa_aws.Assessment.Drift.Keys.{Compares, derive_drift_results-Compares, key_eq_iff, keys_of}
use kosa_aws.Assessment.Planner.{
  EvaluationExecutionPlanner, drift_rules, perspectives_for, rules_for,
}
use kosa_aws.Assessment.Planner.Ordered.{has_iff, perspectives_for-drift}
use kosa_aws.Assessment.Readiness.{coordinate_of}
use kosa_aws.Assessment.Results.{EvaluationResult}
use kosa_aws.Assessment.Runner.{ModelProfile}
use kosa_aws.Assessment.Worker.{
  AssessmentResourceWork, Runners, derived_drift, of_drift_rules, planned_at,
}
use kosa_aws.Assessment.Worker.Covered.{checked-same}
use kosa_aws.Assessment.Worker.Perspective.{ResultsAt, rules_for_iff}
use kosa_aws.Assessment.Worker.Planned.{Fits}
use kosa_aws.Base.{
  Bool, Bool-cases, In, In-filter, In-map, List, [], any-In, ap, arith, eq_iff, false,
  if◌then◌else◌, inl, inr, map, refl, some, sym, true, ◌==◌, ◌||◌, ◌↔◌, ◌∙◌, ◌∷◌, ◌≡◌,
}
use kosa_aws.Errors.{bind_ok, ok, ok_inj}
use kosa_aws.Evidence.Binding.{EvaluationPerspective, aws_actual, drift_view, iac}
use kosa_aws.Evidence.Lookup.Present.{given}
use kosa_aws.Jobs.Repository.Updates.{at_key}
use kosa_aws.Jobs.Repository.View.{view}
use kosa_aws.Policy.Context.{PolicyContext}
use kosa_aws.Policy.Rules.{PolicyRule}

has_key_iff : (ks : List Key) (k : Key) → (has_key ks k ≡ true) ↔ In k ks
unfolding has_key
has_key_iff ks k =
    let somewhere = any-In (λ l. key_eq l k) ks in
    (
      λ h.
          let (l, listed, same) = somewhere.0 h in
          subst (λ x. In x ks) ((key_eq_iff l k).0 same) listed,
      λ i. somewhere.1 (k, i, (key_eq_iff k k).1 refl),
    )

keys_of_iff :
    (rs : List EvaluationResult) (k : Key)
    → (has_key (keys_of rs) k ≡ true) ↔ ((r : EvaluationResult) × In r rs × (k ≡ key_of r))
keys_of_iff rs k =
    let listed = has_key_iff (keys_of rs) k in
    let mapped = In-map key_of rs k in (λ h. mapped.0 (listed.0 h), λ h. listed.1 (mapped.1 h))

abbrev drift_at : Key → PlannedEvaluation
drift_at k = record { resource_id = k.resource_id; rule_id = k.rule_id; perspective = drift_view }

key-drift_at :
    (r : EvaluationResult) (k : Key)
    → key_of r ≡ k
    → r.perspective ≡ drift_view
    → coordinate_of r ≡ drift_at k
unfolding coordinate_of key_of
key-drift_at r k e f = cc (ap (λ (x : Key). x.resource_id) e, ap (λ (x : Key). x.rule_id) e, f)

Compares-coordinates :
    (is actuals : List EvaluationResult) (ks : List Key) (rs : List EvaluationResult)
    → Compares is actuals ks rs
    → map coordinate_of rs ≡ map drift_at ks
Compares-coordinates is actuals [] [] compares = refl
Compares-coordinates is actuals [] (r ∷ rs) compares = absurd compares
Compares-coordinates is actuals (k ∷ ks) [] compares = absurd compares
Compares-coordinates is actuals (k ∷ ks) (r ∷ rs) (key, view, status, compares) =
    let first_same = key-drift_at r k key view in
    let rest_same = Compares-coordinates is actuals ks rs compares in
    rw (first_same, rest_same) refl

module _ (work : AssessmentResourceWork) (context : PolicyContext) (profile : ModelProfile)
    (runners : Runners) (planner : EvaluationExecutionPlanner) (fits : Fits runners planner) where
  drift_rules-rules_for :
      planner.derives_drift ≡ true
      → drift_rules planner context.rules ≡ rules_for planner drift_view context.rules
  unfolding drift_rules
  drift_rules-rules_for derives = rw derives refl

  drift_rules_iff :
      (rule : PolicyRule)
      → planner.derives_drift ≡ true
      → In rule (drift_rules planner context.rules)
        ↔ (In rule context.rules × In drift_view (perspectives_for planner rule))
  drift_rules_iff rule derives =
      subst
        (λ rules.
          In rule rules ↔ (In rule context.rules × In drift_view (perspectives_for planner rule)))
        (sym (drift_rules-rules_for derives))
        (rules_for_iff work context profile runners planner fits drift_view rule)

  -- A rule with DRIFT plans the coordinate of the key.
  abbrev DriftPlanned : Key → Type 0
  DriftPlanned k =
      (rule : PolicyRule) × In rule context.rules
      × In drift_view (perspectives_for planner rule)
      × (drift_at k ≡ planned_at work.resource_id rule drift_view)

  -- A result of a rule that is compared gives the comparison a key, and each key is such a result's.
  of_drift_rules-key :
      (p : EvaluationPerspective) (rs : List EvaluationResult) (k : Key)
      → planner.derives_drift ≡ true
      → ResultsAt work context planner p rs
      → has_key (keys_of (of_drift_rules work context profile planner rs)) k ≡ true
      → DriftPlanned k
  unfolding of_drift_rules coordinate_of key_of
  of_drift_rules-key p rs k derives stand h =
      let (r, kept, is_key) = (keys_of_iff _ k).0 h in
      let (listed, compared_rule) = (In-filter _ rs r).0 kept in
      let (rule, ruled, same_id) = (any-In _ (drift_rules planner context.rules)).0 compared_rule in
      let (there, given) = (drift_rules_iff rule derives).0 ruled in
      let (own, _, _, e) =
        (stand (coordinate_of r)).0
          ((In-map coordinate_of rs (coordinate_of r)).1 (r, listed, refl)) in
      let resource_same = ap (λ (c : PlannedEvaluation). c.resource_id) e in
      let rule_same = (eq_iff rule.rule_id r.rule_id).0 same_id in
      (
        rule,
        there,
        given,
        cc (
          ap (λ (x : Key). x.resource_id) is_key,
          ap (λ (x : Key). x.rule_id) is_key,
          resource_same,
          rule_same,
        ),
      )

  key-of_drift_rules :
      (p : EvaluationPerspective) (rs : List EvaluationResult) (rule : PolicyRule)
      → planner.derives_drift ≡ true
      → ResultsAt work context planner p rs
      → In rule context.rules
      → In p (perspectives_for planner rule)
      → In drift_view (perspectives_for planner rule)
      → (k : Key) × (has_key (keys_of (of_drift_rules work context profile planner rs)) k ≡ true)
        × (planned_at work.resource_id rule drift_view ≡ drift_at k)
  unfolding of_drift_rules coordinate_of key_of
  key-of_drift_rules p rs rule derives stand there given compares =
      let (r, listed, e) =
        (In-map coordinate_of rs (planned_at work.resource_id rule p)).0
          ((stand (planned_at work.resource_id rule p)).1 (rule, there, given, refl)) in
      let resource_same = ap (λ (c : PlannedEvaluation). c.resource_id) e in
      let rule_same = ap (λ (c : PlannedEvaluation). c.rule_id) e in
      let compared_rule =
        (any-In (λ x. x.rule_id == r.rule_id) (drift_rules planner context.rules)).1 (
          rule,
          (drift_rules_iff rule derives).1 (there, compares),
          (eq_iff rule.rule_id r.rule_id).1 rule_same,
        ) in
      (
        key_of r,
        (keys_of_iff _ (key_of r)).1 (r, (In-filter _ rs r).1 (listed, compared_rule), refl),
        cc (resource_same, rule_same),
      )

  derived_drift-ResultsAt :
      (iac_results actual_results : List EvaluationResult) {rs : List EvaluationResult}
      → planner.derives_drift ≡ true
      → ResultsAt work context planner iac iac_results
      → ResultsAt work context planner aws_actual actual_results
      → derived_drift work context profile planner iac_results actual_results ≡ ok rs
      → ResultsAt work context planner drift_view rs
  unfolding derived_drift
  derived_drift-ResultsAt is actuals {rs} derives stand_iac stand_actual h c =
      let compared_is = of_drift_rules work context profile planner is in
      let compared_actuals = of_drift_rules work context profile planner actuals in
      let (drift, hd, checks) = bind_ok (derive_drift_results compared_is compared_actuals) _ h in
      let (unchanged, _) = checked-same drift_view profile (some context) drift checks in
      let (ks, compares, _, keys) = derive_drift_results-Compares compared_is compared_actuals hd in
      let coordinates : map coordinate_of rs ≡ map drift_at ks =
        ap (map coordinate_of) unchanged
        ∙ Compares-coordinates compared_is compared_actuals ks drift compares in
      let mapped = In-map drift_at ks c in
      (
        λ i.
            let (k, listed, at_key) = mapped.0 (subst (In c) coordinates i) in
            let on_a_side : (has_key (keys_of compared_is) k
                  || has_key (keys_of compared_actuals) k)
                ≡ true =
              sym (keys k) ∙ (has_key_iff ks k).1 listed in
            let planned_there : DriftPlanned k =
              elim (Bool-cases (has_key (keys_of compared_is) k)) [
                | inl of_iac ↦ of_drift_rules-key iac is k derives stand_iac of_iac
                | inr not_iac ↦
                    of_drift_rules-key aws_actual actuals k derives stand_actual
                      (ground (arith, on_a_side, not_iac))
              ] in
            let (rule, there, given, e) = planned_there in (rule, there, given, at_key ∙ e),
        λ h.
            let views = has_iff drift_view (perspectives_for planner h.0) in
            let (_, with_iac, _) = perspectives_for-drift planner h.0 fits.no_drift (views.1 h.2) in
            let (k, of_iac, e) =
              key-of_drift_rules iac is h.0 derives stand_iac h.1
                ((has_iff iac (perspectives_for planner h.0)).0 with_iac) h.2 in
            let listed = (has_key_iff ks k).0 (ground (arith, keys k, of_iac)) in
            subst (In c) (sym coordinates) (mapped.1 (k, listed, h.3 ∙ e)),
      )

  no_drift-ResultsAt : planner.derives_drift ≡ false → ResultsAt work context planner drift_view []
  no_drift-ResultsAt never c = (
    λ i. absurd i,
    λ h.
        let (derives, _, _) =
          perspectives_for-drift planner h.0 fits.no_drift
            ((has_iff drift_view (perspectives_for planner h.0)).1 h.2) in
        absurd (cc (derives, never)),
  )

  pub drift-ResultsAt :
      (derives : Bool) (iac_results actual_results : List EvaluationResult)
      {rs : List EvaluationResult}
      → planner.derives_drift ≡ derives
      → ResultsAt work context planner iac iac_results
      → ResultsAt work context planner aws_actual actual_results
      → (if derives
          then derived_drift work context profile planner iac_results actual_results
          else ok [])
        ≡ ok rs
      → ResultsAt work context planner drift_view rs
  drift-ResultsAt true is actuals e stand_iac stand_actual h =
      derived_drift-ResultsAt is actuals e stand_iac stand_actual h
  drift-ResultsAt false is actuals e stand_iac stand_actual h =
      subst (ResultsAt work context planner drift_view) (ok_inj h) (no_drift-ResultsAt e)
