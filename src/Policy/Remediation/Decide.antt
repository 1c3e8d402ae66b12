-- ===== src/Policy/Remediation/Decide.antt =====
-- apps/backend/policy/remediation.py: `RemediationPolicy`. A policy is the list of its scopes, whose keys are
-- distinct.
use kosa_aws.Assessment.Findings.{Finding}
use kosa_aws.Base.{
  Bool, List, Option, String, [], any, false, if◌then◌else◌, leb, none, not, some, true, ℕ, ◌&&◌,
  ◌++◌, ◌==◌, ◌∷◌,
}
use kosa_aws.Errors.{Result, ok, remediation_policy_error, require, value_error, ◌>>=◌, ◌>>◌}
use kosa_aws.Evidence.Binding.{EvaluationPerspective, iac, manual}
use kosa_aws.Evidence.Verdict.{EvaluationStatus, fail, insufficient_evidence, pass}
use kosa_aws.Jobs.Model.{require_non_empty_string}
use kosa_aws.Policy.Remediation.{
  ManualReviewCode, RemediationAction, RemediationDecision, RemediationEligibility,
  RemediationException, RemediationRuleScope, RemediationTarget, actual_sync, automatic,
  decision_post_init, evaluation_requires_review, evidence_is_insufficient, iac_outcome_unknown,
  iac_verdict_commit_mismatch, manual_only, manual_review, resource_not_iac_managed,
  rule_manual_only, rule_not_in_scope, suppressed, terraform_patch,
}
use kosa_aws.Policy.Remediation.Exempt.{select_in_force_exception}

abbrev same_scope : String → String → RemediationRuleScope → Bool
same_scope rule_id version scope = rule_id == scope.rule_id && version == scope.version

-- `RemediationPolicy.__init__`
unfoldable pub remediation_policy :
    List RemediationRuleScope → List RemediationRuleScope → Result (List RemediationRuleScope)
remediation_policy scopes [] = ok scopes
remediation_policy scopes (scope ∷ rest) = do
  require (not (any (same_scope scope.rule_id scope.version) scopes)) remediation_policy_error
  remediation_policy (scopes ++ (scope ∷ [])) rest

-- `RemediationPolicy.eligibility`
unfoldable pub eligibility_of :
    List RemediationRuleScope → String → String → Option RemediationEligibility
eligibility_of [] rule_id version = none
eligibility_of (scope ∷ scopes) rule_id version =
    if same_scope rule_id version scope
    then some scope.eligibility
    else eligibility_of scopes rule_id version

-- What the last argument of `_decision` and of `_manual` say: an action with what must come with it.
pub data Judgement : Type 0 where
  suppressed_by : String → Judgement
  needs_review : ManualReviewCode → Judgement
  patches syncs : Judgement

abbrev pub action_of : Judgement → RemediationAction
action_of (suppressed_by exception_id) = suppressed
action_of (needs_review code) = manual_review
action_of patches = terraform_patch
action_of syncs = actual_sync

abbrev pub code_of : Judgement → Option ManualReviewCode
code_of (needs_review code) = some code
code_of _ = none

abbrev pub exempting_of : Judgement → Option String
exempting_of (suppressed_by exception_id) = some exception_id
exempting_of _ = none

abbrev pub decision_of : Finding → Judgement → RemediationDecision
decision_of finding judgement = record {
  finding_id = finding.finding_id;
  resource_id = finding.resource_id;
  rule_id = finding.rule_id;
  rule_version = finding.rule_version;
  perspective = finding.perspective;
  action = action_of judgement;
  manual_review_code = code_of judgement;
  exception_id = exempting_of judgement;
}

-- `RemediationPolicy._decision` and `RemediationPolicy._manual`
unfoldable pub decision_for : Finding → Judgement → Result RemediationDecision
unfolding decision_post_init
decision_for finding judgement = decision_post_init (decision_of finding judgement)

-- `_STATUS_MANUAL_REVIEW_CODES.get(status, EVALUATION_REQUIRES_REVIEW)`
unfoldable pub status_code : EvaluationStatus → ManualReviewCode
status_code insufficient_evidence = evidence_is_insufficient
status_code _ = evaluation_requires_review

abbrev pub is_fail : EvaluationStatus → Bool
is_fail fail = true
is_fail _ = false

-- `RemediationPolicy._is_stale_verdict`
unfoldable pub is_stale_verdict : EvaluationPerspective → Option String → String → Bool
is_stale_verdict iac commit commit_sha = false
is_stale_verdict _ none commit_sha = false
is_stale_verdict _ (some commit) commit_sha = not (commit == commit_sha)

-- `RemediationPolicy._proposed_action`: none is an unknown verdict on the infrastructure code.
unfoldable pub proposed_action :
    EvaluationPerspective → Option EvaluationStatus → Option RemediationAction
proposed_action iac iac_status = some terraform_patch
proposed_action _ (some pass) = some actual_sync
proposed_action _ (some fail) = some terraform_patch
proposed_action _ _ = none

-- The end of `decide`: only the synthesis of a patch is blocked by MANUAL_ONLY.
unfoldable pub permitted : RemediationEligibility → Option RemediationAction → Judgement
permitted eligibility none = needs_review iac_outcome_unknown
permitted manual_only (some terraform_patch) = needs_review rule_manual_only
permitted automatic (some terraform_patch) = patches
permitted eligibility (some _) = syncs

-- `decide` from the check of the perspective on, where no exception is in force.
unfoldable pub judge :
    EvaluationPerspective
    → EvaluationStatus
    → Option RemediationEligibility
    → RemediationTarget
    → String
    → Judgement
unfolding status_code is_stale_verdict proposed_action permitted
judge manual status eligibility target commit_sha = needs_review evaluation_requires_review
judge perspective status none target commit_sha =
    if is_fail status then needs_review rule_not_in_scope else needs_review (status_code status)
judge perspective status (some eligibility) target commit_sha =
    if not (is_fail status)
    then needs_review (status_code status)
    else if not target.terraform_managed
    then needs_review resource_not_iac_managed
    else if is_stale_verdict perspective target.iac_commit_sha commit_sha
    then needs_review iac_verdict_commit_mismatch
    else permitted eligibility (proposed_action perspective target.iac_status)

-- `if exception is not None`
unfoldable pub judge_exempt : Option RemediationException → Judgement → Judgement
judge_exempt none judgement = judgement
judge_exempt (some e) judgement = suppressed_by e.exception_id

-- The checks of `decide` on its arguments.
unfoldable pub check_arguments :
    Finding → String → RemediationTarget → String → ℕ → ℕ → Result (Unit {0})
unfolding require_non_empty_string
check_arguments finding customer_id target commit_sha evaluated_at moment = do
  require_non_empty_string customer_id
  require_non_empty_string commit_sha
  require (leb evaluated_at moment) value_error
  require (finding.resource_id == target.resource_id) value_error
  require (target.rule_id == finding.rule_id && target.rule_version == finding.rule_version)
      value_error

module _ (instant : String → Option ℕ) (scopes : List RemediationRuleScope) where
  -- `RemediationPolicy.decide`
  unfoldable pub decide :
      Finding
      → String
      → RemediationTarget
      → String
      → ℕ
      → ℕ
      → List RemediationException
      → Result RemediationDecision
  unfolding check_arguments select_in_force_exception judge_exempt judge eligibility_of decision_for
  decide finding customer_id target commit_sha evaluated_at moment exceptions = do
    check_arguments finding customer_id target commit_sha evaluated_at moment
    exempt ← select_in_force_exception instant finding customer_id evaluated_at moment exceptions
    decision_for finding (
        judge_exempt exempt (
          judge finding.perspective finding.status
            (eligibility_of scopes finding.rule_id finding.rule_version) target commit_sha))
