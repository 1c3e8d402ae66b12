-- ===== src/Assessment/Comparison/Eligible.antt =====
-- When the scores of two assessments may be compared.
use mathlib.Core.Path.{subst}
use kosa_aws.Assessment.Comparison.{
  ComparisonAssessment, PlannedEvaluation, comparison_reasons, model_profile_mismatch,
  planned_evaluations_mismatch, plans_coordinate, reason, rubric_version_mismatch, same_coordinate,
  same_plan, source_readiness_unavailable, verification_readiness_unavailable,
}
use kosa_aws.Assessment.Results.{same_perspective}
use kosa_aws.Base.{
  Bool, Bool-cases, List, [], all, arith, eq_iff, false, inl, inr, is_empty, not, refl, true, ◌&&◌,
  ◌++◌, ◌==◌, ◌||◌, ◌↔◌, ◌∷◌, ◌≡◌,
}
use kosa_aws.Evidence.Binding.{EvaluationPerspective}

pub perspective_iff : (p q : EvaluationPerspective) → (same_perspective p q ≡ true) ↔ (p ≡ q)
unfolding same_perspective
perspective_iff p q = ground arith

pub coordinate_iff : (a b : PlannedEvaluation) → (same_coordinate a b ≡ true) ↔ (a ≡ b)
unfolding same_coordinate
coordinate_iff a b =
    let resources = eq_iff a.resource_id b.resource_id in
    let rules = eq_iff a.rule_id b.rule_id in
    let perspectives = perspective_iff a.perspective b.perspective in
    (
      λ h. ground (arith, resources, rules, perspectives, h),
      λ h. ground (arith, resources, rules, perspectives, h),
    )

plans_cons :
    (q : PlannedEvaluation) (qs : List PlannedEvaluation) (p : PlannedEvaluation)
    → plans_coordinate (q ∷ qs) p ≡ (same_coordinate q p || plans_coordinate qs p)
unfolding plans_coordinate
plans_cons q qs p = refl

plans_none : (p : PlannedEvaluation) → plans_coordinate [] p ≡ false
unfolding plans_coordinate
plans_none p = refl

-- Every coordinate of the first plan is in the second.
abbrev pub Within : List PlannedEvaluation → List PlannedEvaluation → Type 0
Within a b = (p : PlannedEvaluation) → plans_coordinate a p ≡ true → plans_coordinate b p ≡ true

all-Within : (a b : List PlannedEvaluation) → all (plans_coordinate b) a ≡ true → Within a b
all-Within [] b h p m = cc (plans_none p, m)
all-Within (q ∷ a) b h p m = elim (Bool-cases (same_coordinate q p)) [
  | inl same ↦
      subst (λ x. plans_coordinate b x ≡ true) ((coordinate_iff q p).0 same) (ground (arith, h))
  | inr differ ↦ all-Within a b (ground (arith, h)) p (ground (arith, plans_cons q a p, m, differ))
]

Within-all : (a b : List PlannedEvaluation) → Within a b → all (plans_coordinate b) a ≡ true
Within-all [] b h = refl
Within-all (q ∷ a) b h =
    let first_in = h q (ground (arith, plans_cons q a q, (coordinate_iff q q).1 refl)) in
    let others_in = Within-all a b (λ p m. h p (ground (arith, plans_cons q a p, m))) in
    ground (arith, first_in, others_in)

-- Two plans are the same set.
pub same_plan_iff :
    (a b : List PlannedEvaluation) → (same_plan a b ≡ true) ↔ (Within a b × Within b a)
unfolding same_plan
same_plan_iff a b = (
  λ h. (all-Within a b (ground (arith, h)), all-Within b a (ground (arith, h))),
  λ h. ground (arith, Within-all a b h.0, Within-all b a h.1),
)

-- What makes the scores comparable.
pub record Comparable (source verification : ComparisonAssessment) : Type 0 where
  pub source_scored : source.has_readiness_score ≡ true
  pub verification_scored : verification.has_readiness_score ≡ true
  pub planned_before : Within source.planned_evaluations verification.planned_evaluations
  pub planned_after : Within verification.planned_evaluations source.planned_evaluations
  pub profile : source.model_profile_id ≡ verification.model_profile_id
  pub rubric : source.rubric_version ≡ verification.rubric_version

reasons_iff :
    (a b c d e f : Bool)
    → (is_empty (
          reason (not a) source_readiness_unavailable
          ++ (reason (not b) verification_readiness_unavailable
              ++ (reason (not (c && d)) planned_evaluations_mismatch
                  ++ (reason (not e) model_profile_mismatch
                      ++ reason (not f) rubric_version_mismatch))))
        ≡ true)
      ↔ ((a ≡ true) × (b ≡ true) × (c ≡ true) × (d ≡ true) × (e ≡ true) × (f ≡ true))
reasons_iff a b c d e f = ground arith

-- There is no reason against a comparison exactly where both assessments have a score, both plans have
-- the same coordinates, in whatever order and number, and the profile and the rubric are the same.
pub comparison_reasons-Comparable :
    (source verification : ComparisonAssessment)
    → (is_empty (comparison_reasons source verification) ≡ true) ↔ Comparable source verification
unfolding comparison_reasons same_plan
comparison_reasons-Comparable s v =
    let all_reasons =
      reasons_iff s.has_readiness_score v.has_readiness_score
        (all (plans_coordinate v.planned_evaluations) s.planned_evaluations)
        (all (plans_coordinate s.planned_evaluations) v.planned_evaluations)
        (s.model_profile_id == v.model_profile_id) (s.rubric_version == v.rubric_version) in
    let profiles = eq_iff s.model_profile_id v.model_profile_id in
    let rubrics = eq_iff s.rubric_version v.rubric_version in
    (
      λ h.
          let (a, b, c, d, e, f) = all_reasons.0 h in
          record {
            source_scored = a;
            verification_scored = b;
            planned_before = all-Within s.planned_evaluations v.planned_evaluations c;
            planned_after = all-Within v.planned_evaluations s.planned_evaluations d;
            profile = profiles.0 e;
            rubric = rubrics.0 f;
          },
      λ k. all_reasons.1 (
        k.source_scored,
        k.verification_scored,
        Within-all s.planned_evaluations v.planned_evaluations k.planned_before,
        Within-all v.planned_evaluations s.planned_evaluations k.planned_after,
        profiles.1 k.profile,
        rubrics.1 k.rubric,
      ),
    )
