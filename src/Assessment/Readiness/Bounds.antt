-- ===== src/Assessment/Readiness/Bounds.antt =====
-- When a readiness score exists, and where it lies.
-- Judged and undetermined results make up the candidates.
use kosa_aws.Assessment.Comparison.{PlannedEvaluation, same_plan}
use kosa_aws.Assessment.Comparison.Eligible.{Within, same_plan_iff}
use kosa_aws.Assessment.Readiness.{
  ReadinessScore, calculate_readiness_score, candidates, coordinate_of, has_no_duplicates,
  is_errored, is_judged, is_scoring_status, is_undetermined, judged_results, score_completed,
  score_of, score_post_init, total_weight_of, undetermined_results, weighted_score_of,
}
use kosa_aws.Assessment.Readiness.Rounding.{
  Rounds, rounded-top, rounded-zero, rounded_bound, rounded_top, rounded_zero,
}
use kosa_aws.Assessment.Readiness.Sums.{AllOf, IsJudged, IsWeighted, sums_within}
use kosa_aws.Assessment.Results.{EvaluationResult}
use kosa_aws.Base.{
  All, All-In, All-filter, Bool-cases, In-filter, List, Option, [], ap, arith, false, filter,
  if◌then◌else◌, inl, inr, is_empty, leb, length, ltb, map, nat_eq, nat_eq_iff, none, refl, some,
  suc, true, ℕ, ◌*◌, ◌+◌, ◌∙◌, ◌∷◌, ◌≡◌, ◌≤◌, ◌⊎◌,
}
use kosa_aws.Errors.{ok}
use kosa_aws.Evidence.Verdict.{EvaluationStatus, fail, pass}
use kosa_aws.Jobs.Outbox.Delivery.{published}

split_count :
    (rs : List EvaluationResult)
    → All (λ r. is_scoring_status r.status ≡ true) rs
    → length (filter (λ r. is_judged r.status) rs)
        + length (filter (λ r. is_undetermined r.status) rs)
      ≡ length rs
unfolding is_scoring_status is_judged is_undetermined
split_count [] all_scoring = refl
split_count (r ∷ rs) (scores, all_scoring) = one r.status _ _ scores (split_count rs all_scoring)
  where
    one :
        (s : EvaluationStatus) (a b : List EvaluationResult) {n : ℕ}
        → is_scoring_status s ≡ true
        → length a + length b ≡ n
        → length (if is_judged s then r ∷ a else a)
            + length (if is_undetermined s then r ∷ b else b)
          ≡ suc n
    one s a b scores e = ground (arith, e)

-- The planned coordinates are exactly those of the results.
abbrev pub Complete : List EvaluationResult → List PlannedEvaluation → Type 0
Complete results plan =
    Within (map coordinate_of results) plan × Within plan (map coordinate_of results)

judged_count :
    (results : List EvaluationResult)
    → nat_eq
        (length (judged_results results) + length (undetermined_results results))
        (length (candidates results))
      ≡ true
unfolding judged_results undetermined_results candidates
judged_count results = (nat_eq_iff _ _).1 (
    split_count (candidates results)
      (All-filter (λ r. is_scoring_status r.status ≡ true) _ results (λ r i h. ground (arith, h))))

judged_results-IsJudged :
    (results : List EvaluationResult)
    → All IsWeighted results
    → All IsJudged (judged_results results) × All IsWeighted (judged_results results)
unfolding judged_results candidates
judged_results-IsJudged results weights = (
  All-filter IsJudged _ (candidates results) (λ r i h. h),
  All-filter IsWeighted _ (candidates results)
      (λ r i h. All-In IsWeighted results weights ((In-filter _ results r).0 i).0),
)

module _ (round_two : ℕ → ℕ → ℕ) where
  -- The score is the rounded quotient of the two sums over the judged results. It is 100 if all pass and 0
  -- if all fail, and only then where the weights add up to no more than 10000.
  pub record Published (judged : List EvaluationResult) (score : ReadinessScore) : Type 0 where
    pub total : ℕ
    pub weighted : ℕ
    pub totals : total_weight_of judged ≡ ok total
    pub sums : weighted_score_of judged ≡ ok weighted
    pub rounded : score.score ≡ round_two weighted total
    pub within : score.score ≤ 10000
    pub some_judged : 1 ≤ score.evaluated_evaluations
    pub count : score.evaluated_evaluations ≡ length judged
    pub all_pass : AllOf pass judged → score.score ≡ 10000
    pub all_fail : AllOf fail judged → score.score ≡ 0
    pub only_pass : total ≤ 10000 → score.score ≡ 10000 → AllOf pass judged
    pub only_fail : total ≤ 10000 → score.score ≡ 0 → AllOf fail judged

  -- What the calculation says where it returns.
  abbrev pub Scores :
      List EvaluationResult → List PlannedEvaluation → Option ReadinessScore → Type 0
  Scores results plan none = (¬ Complete results plan) ⊎ (judged_results results ≡ [])
  Scores results plan (some score) =
      Complete results plan
      × (score.undetermined_evaluations ≡ length (undetermined_results results))
      × (score.errored_evaluations ≡ length (filter is_errored results))
      × Published (judged_results results) score

  score_of-returns :
      Rounds round_two
      → (judged : List EvaluationResult) (undetermined errored : ℕ) → All IsJudged judged
      → All IsWeighted judged
      → ((judged ≡ []) × (score_of round_two judged undetermined errored ≡ ok none))
        ⊎ ((score : ReadinessScore) × (score_of round_two judged undetermined errored
              ≡ ok (some score))
            × (score.undetermined_evaluations ≡ undetermined)
            × (score.errored_evaluations ≡ errored)
            × Published judged score)
  unfolding score_of score_post_init
  score_of-returns laws [] undetermined errored all_judged weights = inl (refl, refl)
  score_of-returns laws (r ∷ rs) undetermined errored all_judged weights =
      let (total, passed, totals, sums, within) = sums_within (r ∷ rs) all_judged weights in
      let (long, bound, top, bottom) = within in
      let pos : (1 ≤ total) = omega (arith, long) in
      let bounded = rounded_bound round_two laws (100 * passed) total pos (omega (arith, bound)) in
      let fits : (leb (round_two (100 * passed) total) 10000 ≡ true) = ground (arith, bounded) in
      let positive : (ltb 0 (suc (length rs)) ≡ true) = ground arith in
      inr (
        record {
          score = round_two (100 * passed) total;
          evaluated_evaluations = length (r ∷ rs);
          undetermined_evaluations = undetermined;
          errored_evaluations = errored;
        },
        rw (totals, sums, fits, positive) refl,
        refl,
        refl,
        record {
          total = total;
          weighted = 100 * passed;
          totals = totals;
          sums = sums;
          rounded = refl;
          within = bounded;
          some_judged = omega arith;
          count = refl;
          all_pass = λ h.
              ap (λ n. round_two (100 * n) total) (top.1 h) ∙ rounded_top round_two laws total pos;
          all_fail = λ h.
              ap (λ n. round_two (100 * n) total) (bottom.1 h)
              ∙ rounded_zero round_two laws total pos;
          only_pass = λ small e. top.0 (rounded-top round_two laws passed total pos small bound e);
          only_fail =
              λ small e. bottom.0 (rounded-zero round_two laws passed total pos small bound e);
        },
      )

  score_completed-Scores :
      Rounds round_two
      → (results : List EvaluationResult) (plan : List PlannedEvaluation) → Complete results plan
      → All IsWeighted results
      → (s : Option ReadinessScore) × (score_completed round_two results ≡ ok s)
        × Scores results plan s
  unfolding score_completed
  score_completed-Scores laws results plan complete weights =
      let (all_judged, all_weighted) = judged_results-IsJudged results weights in
      let undetermined = length (undetermined_results results) in
      let errored = length (filter is_errored results) in
      elim (score_of-returns laws (judged_results results) undetermined errored all_judged
        all_weighted) [
          | inl none_judged ↦ (none, rw (judged_count results) none_judged.1, inr none_judged.0)
          | inr scored ↦
              let (score, returns, undetermined_count, errored_count, published) = scored in
              (
                some score,
                rw (judged_count results) returns,
                (complete, undetermined_count, errored_count, published),
              )
        ]

  -- For a rounding that keeps to the laws, a plan that is neither empty nor repeats a coordinate, and results
  -- whose severities are known, the calculation returns. There is a score exactly if the results cover the
  -- planned coordinates and no others and some result was judged. The score is the rounded quotient of the
  -- weighted sum and the total weight of the judged results and lies between 0 and 100; it is 100 if all of
  -- them pass and 0 if all fail, and only then where the total weight is at most 10000. It carries the numbers
  -- of the judged, undetermined and failed evaluations.
  pub calculate_readiness_score-Scores :
      Rounds round_two
      → (results : List EvaluationResult) (plan : List PlannedEvaluation) → is_empty plan ≡ false
      → has_no_duplicates plan ≡ true
      → All IsWeighted results
      → (s : Option ReadinessScore) × (calculate_readiness_score round_two results plan ≡ ok s)
        × Scores results plan s
  unfolding calculate_readiness_score
  calculate_readiness_score-Scores laws results plan full distinct weights =
      elim (Bool-cases (same_plan (map coordinate_of results) plan)) [
        | inl same ↦
            let (s, returns, scores) =
              score_completed-Scores laws results plan ((same_plan_iff _ plan).0 same) weights in
            (s, rw (full, distinct, same) returns, scores)
        | inr differ ↦ (
          none,
          rw (full, distinct, differ) refl,
          inl (λ complete.
              let same = (same_plan_iff (map coordinate_of results) plan).1 complete in
              cc (same, differ)),
        )
      ]
