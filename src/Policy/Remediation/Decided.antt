-- ===== src/Policy/Remediation/Decided.antt =====
-- What a decision on a finding says, and when there is one.
use mathlib.Core.Path.{subst}
use mathlib.Core.Option.{some-injective}
use kosa_aws.Assessment.Findings.{Finding}
use kosa_aws.Base.{
  All, All-In, Bool, List, Option, String, arith, eq_iff, false, leb, none, refl, some, true, ℕ,
  ◌↔◌, ◌≡◌, ◌≢◌, ◌⊎◌,
}
use kosa_aws.Errors.{bind_ok, ok, require_ok}
use kosa_aws.Evidence.Binding.{EvaluationPerspective, iac, manual}
use kosa_aws.Evidence.Verdict.{EvaluationStatus, fail, pass}
use kosa_aws.Jobs.Model.{require_non_empty_string}
use kosa_aws.Policy.Remediation.{
  RemediationDecision, RemediationEligibility, RemediationException, RemediationRuleScope,
  RemediationTarget, actual_sync, automatic, suppressed, terraform_patch,
}
use kosa_aws.Policy.Remediation.Decide.{
  Judgement, action_of, check_arguments, decide, decision_for, decision_of, eligibility_of,
  exempting_of, is_stale_verdict, judge, judge_exempt, needs_review, patches, suppressed_by, syncs,
}
use kosa_aws.Policy.Remediation.Exempt.{select_in_force_exception}
use kosa_aws.Policy.Remediation.Exempt.Narrowest.{Selects, select_in_force_exception-Selects}
use kosa_aws.Policy.Remediation.Exempt.Total.{
  Made, Named, Times, Made-Times, select_in_force_exception-returns,
}
-- Neither for a person to judge, nor without a violation, nor out of Terraform's reach, and not on a
-- verdict about another commit.
use kosa_aws.Assessment.Findings.{Finding}
use kosa_aws.Base.{
  All, Bool, List, Option, String, arith, eq_iff, false, leb, none, refl, some, true, ℕ, ◌↔◌, ◌≡◌,
  ◌≢◌, ◌⊎◌,
}
use kosa_aws.Errors.{bind_ok, ok, require_ok}
use kosa_aws.Evidence.Binding.{EvaluationPerspective, iac, manual}
use kosa_aws.Evidence.Verdict.{EvaluationStatus, fail, pass}
use kosa_aws.Jobs.Model.{require_non_empty_string}
use kosa_aws.Policy.Remediation.{
  RemediationDecision, RemediationEligibility, RemediationException, RemediationRuleScope,
  RemediationTarget, actual_sync, automatic, suppressed, terraform_patch,
}
use kosa_aws.Policy.Remediation.Decide.{
  Judgement, action_of, check_arguments, decision_for, decision_of, eligibility_of,
  is_stale_verdict, judge, judge_exempt, needs_review, patches, suppressed_by, syncs,
}
use kosa_aws.Policy.Remediation.Exempt.Narrowest.{Selects, select_in_force_exception-Selects}
use kosa_aws.Policy.Remediation.Exempt.Total.{Made, Named, select_in_force_exception-returns}
use kosa_aws.Remediation.Readiness.{passes}

abbrev pub Remediable : Finding → RemediationTarget → String → Type 0
Remediable f t commit_sha =
    (f.perspective ≢ manual)
    × (f.status ≡ fail)
    × (t.terraform_managed ≡ true)
    × ((f.perspective ≡ iac) ⊎ ((t.iac_commit_sha ≡ none) ⊎ (t.iac_commit_sha ≡ some commit_sha)))

stale_iff :
    (p : EvaluationPerspective) (o : Option String) (commit_sha : String)
    → (is_stale_verdict p o commit_sha ≡ false) ↔ ((p ≡ iac) ⊎ ((o ≡ none) ⊎ (o ≡ some commit_sha)))
unfolding is_stale_verdict
stale_iff p none commit_sha = ground arith
stale_iff p (some c) commit_sha = ground (arith, eq_iff c commit_sha)

-- A patch, in the terms of the finding, its target and the eligibility of its rule.
abbrev pub Patches : Finding → RemediationTarget → String → Option RemediationEligibility → Type 0
Patches f t commit_sha eligibility =
    Remediable f t commit_sha
    × (eligibility ≡ some automatic)
    × ((f.perspective ≡ iac) ⊎ (t.iac_status ≡ some fail))

-- A synchronisation without a patch, whatever the eligibility that is registered.
abbrev pub Syncs : Finding → RemediationTarget → String → Option RemediationEligibility → Type 0
Syncs f t commit_sha eligibility =
    Remediable f t commit_sha
    × (eligibility ≢ none)
    × (f.perspective ≢ iac)
    × (t.iac_status ≡ some pass)

module _ (f : Finding) (t : RemediationTarget) (commit_sha : String) where
  abbrev judged : Option RemediationEligibility → Judgement
  judged eligibility = judge f.perspective f.status eligibility t commit_sha

  judge-syncs_iff :
      (eligibility : Option RemediationEligibility)
      → (judged eligibility ≡ syncs) ↔ Syncs f t commit_sha eligibility
  unfolding judge
  judge-syncs_iff none = ground arith
  judge-syncs_iff (some e) = ground (arith, stale_iff f.perspective t.iac_commit_sha commit_sha)

  judge-patches_iff :
      (eligibility : Option RemediationEligibility)
      → (judged eligibility ≡ patches) ↔ Patches f t commit_sha eligibility
  unfolding judge
  judge-patches_iff none = ground arith
  judge-patches_iff (some e) = ground (arith, stale_iff f.perspective t.iac_commit_sha commit_sha)

-- What a decision says, by the exception that was selected.
abbrev pub Says :
    Finding
    → RemediationTarget
    → String
    → Option RemediationEligibility
    → Option RemediationException
    → RemediationDecision
    → Type 0
Says f t commit_sha eligibility (some e) d =
    (d.action ≡ suppressed) × (d.exception_id ≡ some e.exception_id)
Says f t commit_sha eligibility none d =
    (d.action ≢ suppressed)
    × (d.exception_id ≡ none)
    × ((d.action ≡ terraform_patch) ↔ Patches f t commit_sha eligibility)
    × ((d.action ≡ actual_sync) ↔ Syncs f t commit_sha eligibility)

-- The identifier that a judgement carries is not blank.
abbrev Labelled : Judgement → Type 0
Labelled (suppressed_by exception_id) = require_non_empty_string exception_id ≡ ok tt
Labelled _ = Unit {0}

decision_for-ok :
    (f : Finding) (j : Judgement) → Named f → Labelled j → decision_for f j ≡ ok (decision_of f j)
unfolding decision_for require_non_empty_string
decision_for-ok f (suppressed_by e) is_named labelled =
    rw
      (is_named.finding_id, is_named.resource_id, is_named.rule_id, is_named.rule_version, labelled)
      refl
decision_for-ok f (needs_review code) is_named labelled =
    rw (is_named.finding_id, is_named.resource_id, is_named.rule_id, is_named.rule_version) refl
decision_for-ok f patches is_named labelled =
    rw (is_named.finding_id, is_named.resource_id, is_named.rule_id, is_named.rule_version) refl
decision_for-ok f syncs is_named labelled =
    rw (is_named.finding_id, is_named.resource_id, is_named.rule_id, is_named.rule_version) refl

action_of-patch_iff : (j : Judgement) → (action_of j ≡ terraform_patch) ↔ (j ≡ patches)
action_of-patch_iff j = ground arith

action_of-sync_iff : (j : Judgement) → (action_of j ≡ actual_sync) ↔ (j ≡ syncs)
action_of-sync_iff j = ground arith

abbrev plain : Judgement → Bool
plain (suppressed_by exception_id) = false
plain _ = true

plain-Labelled :
    (j : Judgement)
    → plain j ≡ true
    → Labelled j × (action_of j ≢ suppressed) × (exempting_of j ≡ none)
plain-Labelled (suppressed_by e) h = absurd (cc)
plain-Labelled (needs_review code) h = (tt, (λ e. cc), refl)
plain-Labelled patches h = (tt, (λ e. cc), refl)
plain-Labelled syncs h = (tt, (λ e. cc), refl)

judge-plain :
    (p : EvaluationPerspective) (status : EvaluationStatus)
    (eligibility : Option RemediationEligibility) (t : RemediationTarget) (commit_sha : String)
    → plain (judge p status eligibility t commit_sha) ≡ true
unfolding judge
judge-plain p status none t commit_sha = ground arith
judge-plain p status (some e) t commit_sha = ground arith

-- The decision of a judgement, by the exception that was selected.
exempt-Says :
    (f : Finding) (t : RemediationTarget) (commit_sha : String)
    (eligibility : Option RemediationEligibility) (selected : Option RemediationException)
    → Named f
    → ((e : RemediationException)
        → selected ≡ some e
        → require_non_empty_string e.exception_id ≡ ok tt)
    → (d : RemediationDecision) × (decision_for f
          (judge_exempt selected (judge f.perspective f.status eligibility t commit_sha))
        ≡ ok d)
      × Says f t commit_sha eligibility selected d
unfolding judge_exempt
exempt-Says f t commit_sha eligibility (some e) is_named labelled = (
  decision_of f (suppressed_by e.exception_id),
  decision_for-ok f (suppressed_by e.exception_id) is_named (labelled e refl),
  (refl, refl),
)
exempt-Says f t commit_sha eligibility none is_named labelled =
    let j = judge f.perspective f.status eligibility t commit_sha in
    let (quiet, open_j, unlabelled) =
      plain-Labelled j (judge-plain f.perspective f.status eligibility t commit_sha) in
    let patch = judge-patches_iff f t commit_sha eligibility in
    let sync = judge-syncs_iff f t commit_sha eligibility in
    let patch_action = action_of-patch_iff j in
    let sync_action = action_of-sync_iff j in
    (
      decision_of f j,
      decision_for-ok f j is_named quiet,
      (
        open_j,
        unlabelled,
        (λ h. patch.0 (patch_action.0 h), λ h. patch_action.1 (patch.1 h)),
        (λ h. sync.0 (sync_action.0 h), λ h. sync_action.1 (sync.1 h)),
      ),
    )

-- An exception that was selected among constructed ones is one of them.
pub selected-Times :
    (instant : String → Option ℕ) (f : Finding) (customer_id : String) (evaluated_at moment : ℕ)
    (exceptions : List RemediationException) (selected : Option RemediationException)
    → Selects instant f customer_id evaluated_at moment selected exceptions
    → All (Made instant) exceptions
    → (e : RemediationException) → selected ≡ some e
    → Times instant e
selected-Times instant f customer_id evaluated_at moment exceptions none selects made e h =
    absurd (let wrong : (none ≡ some e) = h in cc wrong)
selected-Times instant f customer_id evaluated_at moment exceptions (some x) selects made e h =
    subst (Times instant) (some-injective x e h)
      (Made-Times instant x (All-In (Made instant) exceptions made selects.0))

module _ (instant : String → Option ℕ) (scopes : List RemediationRuleScope) where
  -- The decision beside the selection that it rests on.
  pub decide_selected :
      (f : Finding) (customer_id : String) (t : RemediationTarget) (commit_sha : String)
      (evaluated_at moment : ℕ) (exceptions : List RemediationException)
      → Named f
      → All (Made instant) exceptions
      → check_arguments f customer_id t commit_sha evaluated_at moment ≡ ok tt
      → (d : RemediationDecision) × (selected : Option RemediationException) × (decide instant
            scopes f customer_id t commit_sha evaluated_at moment exceptions
          ≡ ok d)
        × (select_in_force_exception instant f customer_id evaluated_at moment exceptions
            ≡ ok selected)
        × Says f t commit_sha (eligibility_of scopes f.rule_id f.rule_version) selected d
  unfolding decide check_arguments
  decide_selected f customer_id t commit_sha evaluated_at moment exceptions is_named made passes =
      let (_, has_customer, h1) = bind_ok (require_non_empty_string customer_id) _ passes in
      let (_, _, h2) = bind_ok (require_non_empty_string commit_sha) _ h1 in
      let (later, _) = require_ok (leb evaluated_at moment) _ _ h2 in
      let (selected, returns) =
        select_in_force_exception-returns instant f is_named customer_id has_customer evaluated_at
          moment exceptions later made in
      let selects =
        select_in_force_exception-Selects instant f customer_id evaluated_at moment exceptions
          selected returns in
      let (d, decided, says) =
        exempt-Says f t commit_sha (eligibility_of scopes f.rule_id f.rule_version) selected
          is_named
          (λ e h.
            (selected-Times instant f customer_id evaluated_at moment exceptions selected selects
              made e h).is_named) in
      (d, selected, rw (passes, returns) decided, returns, says)

  -- On a named finding, constructed exceptions and arguments that pass the checks, `decide` returns a
  -- decision. If an exception exempts the finding, the decision is SUPPRESSED by the narrowest one. If none
  -- does, it is not SUPPRESSED; it is TERRAFORM_PATCH exactly for a remediable finding of a rule that is
  -- registered as AUTOMATIC whose perspective is IAC or whose IaC verdict is FAIL, and ACTUAL_SYNC exactly
  -- for a remediable finding of a registered rule outside the perspective IAC whose IaC verdict is PASS.
  pub decide-Says :
      (f : Finding) (customer_id : String) (t : RemediationTarget) (commit_sha : String)
      (evaluated_at moment : ℕ) (exceptions : List RemediationException)
      → Named f
      → All (Made instant) exceptions
      → check_arguments f customer_id t commit_sha evaluated_at moment ≡ ok tt
      → (d : RemediationDecision) × (selected : Option RemediationException) × (decide instant
            scopes f customer_id t commit_sha evaluated_at moment exceptions
          ≡ ok d)
        × Selects instant f customer_id evaluated_at moment selected exceptions
        × Says f t commit_sha (eligibility_of scopes f.rule_id f.rule_version) selected d
  decide-Says f customer_id t commit_sha evaluated_at moment exceptions is_named made passes =
      let (d, selected, decided, returns, says) =
        decide_selected f customer_id t commit_sha evaluated_at moment exceptions is_named made
          passes in
      (
        d,
        selected,
        decided,
        select_in_force_exception-Selects instant f customer_id evaluated_at moment exceptions
            selected returns,
        says,
      )
