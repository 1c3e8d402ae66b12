-- ===== src/Assessment/Readiness/Sums.antt =====
-- The two sums over the judged results: each that passed adds 100 times its weight to the first.
use kosa_aws.Assessment.Readiness.{is_judged, severity_weight, total_weight_of, weighted_score_of}
use kosa_aws.Assessment.Results.{EvaluationResult}
use kosa_aws.Assessment.Runner.{score_for_status}
use kosa_aws.Base.{
  All, List, String, [], ap, arith, length, refl, suc, true, ℕ, ◌*◌, ◌+◌, ◌↔◌, ◌∷◌, ◌≡◌, ◌≤◌,
}
use kosa_aws.Errors.{ok}
use kosa_aws.Evidence.Verdict.{
  EvaluationStatus, execution_error, fail, insufficient_evidence, manual_review_needed,
  out_of_scope, pass,
}

abbrev pub IsWeighted : EvaluationResult → Type 0
IsWeighted r = (weight : ℕ) × (severity_weight r.severity ≡ ok weight)

abbrev pub IsJudged : EvaluationResult → Type 0
IsJudged r = is_judged r.status ≡ true

weight_pos : (severity : String) (weight : ℕ) → severity_weight severity ≡ ok weight → 1 ≤ weight
unfolding severity_weight
weight_pos severity weight h = ground arith

-- What the weights of all judged results and of those that passed hold, by the number of the results and by
-- whether all passed or all failed.
abbrev pub Bounded : ℕ → ℕ → ℕ → Type 0 → Type 0 → Type 0
Bounded count total passed AllPass AllFail =
    (count ≤ total) × (passed ≤ total) × ((passed ≡ total) ↔ AllPass) × ((passed ≡ 0) ↔ AllFail)

abbrev passed_weight : EvaluationStatus → ℕ → ℕ
passed_weight pass weight = weight
passed_weight _ weight = 0

Bounded-cons :
    (status : EvaluationStatus) (count total passed weight : ℕ) (AllPass AllFail : Type 0)
    → is_judged status ≡ true
    → 1 ≤ weight
    → Bounded count total passed AllPass AllFail
    → Bounded
        (suc count)
        (weight + total)
        (passed_weight status weight + passed)
        ((status ≡ pass) × AllPass)
        ((status ≡ fail) × AllFail)
unfolding is_judged
Bounded-cons pass count total passed weight AllPass AllFail judged pos (long, bound, top, bottom) =
    (
      omega (arith, pos, long),
      omega (arith, bound),
      ((λ e. (refl, top.0 (omega (arith, e)))), λ h. omega (arith, top.1 h.1)),
      ((λ e. absurd (omega (arith, e, pos))), λ h. absurd (let wrong = h.0 in cc wrong)),
    )
Bounded-cons fail count total passed weight AllPass AllFail judged pos (long, bound, top, bottom) =
    (
      omega (arith, pos, long),
      omega (arith, bound),
      ((λ e. absurd (omega (arith, e, pos, bound))), λ h. absurd (let wrong = h.0 in cc wrong)),
      ((λ e. (refl, bottom.0 (omega (arith, e)))), λ h. omega (arith, bottom.1 h.1)),
    )
Bounded-cons manual_review_needed count total passed weight AllPass AllFail judged pos h =
    absurd (cc)
Bounded-cons insufficient_evidence count total passed weight AllPass AllFail judged pos h =
    absurd (cc)
Bounded-cons out_of_scope count total passed weight AllPass AllFail judged pos h = absurd (cc)
Bounded-cons execution_error count total passed weight AllPass AllFail judged pos h = absurd (cc)

-- A judged result adds 100 times its weight if it passed.
weighted_step :
    (status : EvaluationStatus) (weight passed : ℕ)
    → is_judged status ≡ true
    → score_for_status status * weight + 100 * passed ≡ 100 * (passed_weight status weight + passed)
unfolding is_judged score_for_status
weighted_step status weight passed judged = ground arith

abbrev pub AllOf : EvaluationStatus → List EvaluationResult → Type 0
AllOf status results = All (λ r. r.status ≡ status) results

pub sums_within :
    (judged : List EvaluationResult)
    → All IsJudged judged
    → All IsWeighted judged
    → (total : ℕ) × (passed : ℕ) × (total_weight_of judged ≡ ok total)
      × (weighted_score_of judged ≡ ok (100 * passed))
      × Bounded (length judged) total passed (AllOf pass judged) (AllOf fail judged)
unfolding total_weight_of weighted_score_of
sums_within [] all_judged weights =
    (0, 0, refl, refl, (omega arith, omega arith, ((λ _. tt), λ _. refl), ((λ _. tt), λ _. refl)))
sums_within (r ∷ rs) (is_judged_r, all_judged) ((weight, weighs), weights) =
    let (total, passed, totals, sums, within) = sums_within rs all_judged weights in
    let sum = weighted_step r.status weight passed is_judged_r in
    (
      weight + total,
      passed_weight r.status weight + passed,
      rw (weighs, totals) refl,
      rw (weighs, sums) (ap ok sum),
      Bounded-cons r.status (length rs) total passed weight (AllOf pass rs) (AllOf fail rs)
          is_judged_r (weight_pos r.severity weight weighs) within,
    )
