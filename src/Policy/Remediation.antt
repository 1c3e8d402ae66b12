-- ===== src/Policy/Remediation.antt =====
-- packages/contracts/remediation_policy.py, with `require_offset_aware_timestamp` of
-- packages/contracts/_validation.py. `instant` stands for `datetime.fromisoformat`: the instant that a text
-- with an offset names, counted from a fixed early one, and none for any other text.
pub mod Exempt
pub mod Decide
pub mod Decided
pub mod Noted
use kosa_aws.Base.{
  Bool, Option, String, false, if◌then◌else◌, is_some, leb, ltb, none, not, some, true, ℕ, ◌&&◌,
  ◌==◌,
}
use kosa_aws.Errors.{Result, err, ok, require, value_error, ◌>>=◌, ◌>>◌}
use kosa_aws.Evidence.Binding.{EvaluationPerspective, iac}
use kosa_aws.Evidence.Verdict.{EvaluationStatus}
use kosa_aws.Jobs.Model.{require_non_empty_string, require_optional_non_empty_string}

pub data RemediationAction : Type 0 where
  terraform_patch actual_sync manual_review suppressed : RemediationAction

pub data RemediationEligibility : Type 0 where
  automatic manual_only : RemediationEligibility

pub data ManualReviewCode : Type 0 where
  rule_not_in_scope rule_manual_only resource_not_iac_managed iac_outcome_unknown : ManualReviewCode
  iac_verdict_commit_mismatch evidence_is_insufficient evaluation_requires_review : ManualReviewCode

pub data RemediationExceptionReason : Type 0 where
  accepted_risk compensating_control not_applicable planned_change : RemediationExceptionReason

pub record RemediationRuleScope : Type 0 where
  pub rule_id : String
  pub version : String
  pub eligibility : RemediationEligibility

pub record RemediationException : Type 0 where
  pub exception_id : String
  pub customer_id : String
  pub rule_id : String
  pub rule_version : String
  pub reason : RemediationExceptionReason
  pub approved_by : String
  pub approved_at : String
  pub expires_at : String
  pub resource_id : Option String
  pub ticket_reference : Option String

pub record RemediationTarget : Type 0 where
  pub resource_id : String
  pub resource_type : String
  pub rule_id : String
  pub rule_version : String
  pub terraform_managed : Bool
  pub iac_status : Option EvaluationStatus
  pub iac_perspective : Option EvaluationPerspective
  pub iac_commit_sha : Option String

pub record RemediationDecision : Type 0 where
  pub finding_id : String
  pub resource_id : String
  pub rule_id : String
  pub rule_version : String
  pub perspective : EvaluationPerspective
  pub action : RemediationAction
  pub manual_review_code : Option ManualReviewCode
  pub exception_id : Option String

abbrev pub is_manual_review : RemediationAction → Bool
is_manual_review manual_review = true
is_manual_review _ = false

abbrev pub is_suppressed : RemediationAction → Bool
is_suppressed suppressed = true
is_suppressed _ = false

-- `RemediationDecision.is_actionable`
unfoldable pub is_actionable : RemediationDecision → Bool
is_actionable d = elim d.action [ terraform_patch ↦ true | actual_sync ↦ true | _ ↦ false ]

abbrev pub bool_eq : Bool → Bool → Bool
bool_eq true b = b
bool_eq false b = not b

abbrev is_iac : EvaluationPerspective → Bool
is_iac iac = true
is_iac _ = false

-- `RemediationTarget.__post_init__`
unfoldable pub target_post_init : RemediationTarget → Result RemediationTarget
unfolding require_non_empty_string require_optional_non_empty_string
target_post_init target = do
  require_non_empty_string target.resource_id
  require_non_empty_string target.resource_type
  require_non_empty_string target.rule_id
  require_non_empty_string target.rule_version
  require_optional_non_empty_string target.iac_commit_sha
  require
      (bool_eq (is_some target.iac_status) (is_some target.iac_perspective)
        && bool_eq (is_some target.iac_perspective) (is_some target.iac_commit_sha))
      value_error
  require (elim target.iac_perspective [ none ↦ true | some p ↦ is_iac p ]) value_error
  ok target

-- `RemediationDecision.__post_init__`
unfoldable pub decision_post_init : RemediationDecision → Result RemediationDecision
unfolding require_non_empty_string require_optional_non_empty_string
decision_post_init d = do
  require_non_empty_string d.finding_id
  require_non_empty_string d.resource_id
  require_non_empty_string d.rule_id
  require_non_empty_string d.rule_version
  require_optional_non_empty_string d.exception_id
  require (bool_eq (is_manual_review d.action) (is_some d.manual_review_code)) value_error
  require (bool_eq (is_suppressed d.action) (is_some d.exception_id)) value_error
  ok d

-- `RemediationException.covers`
unfoldable pub covers : RemediationException → String → String → String → String → Result Bool
unfolding require_non_empty_string
covers e customer_id rule_id rule_version resource_id = do
  require_non_empty_string customer_id
  require_non_empty_string rule_id
  require_non_empty_string rule_version
  require_non_empty_string resource_id
  ok (
      customer_id == e.customer_id
      && rule_id == e.rule_id
      && rule_version == e.rule_version
      && elim e.resource_id [ none ↦ true | some r ↦ r == resource_id ])

module _ (instant : String → Option ℕ) where
  unfoldable pub require_offset_aware_timestamp : String → Result ℕ
  unfolding require_non_empty_string
  require_offset_aware_timestamp value = do
    require_non_empty_string value
    elim (instant value) [ none ↦ err value_error | some moment ↦ ok moment ]

  -- `RemediationException.__post_init__`
  unfoldable pub exception_post_init : RemediationException → Result RemediationException
  unfolding require_non_empty_string require_optional_non_empty_string
      require_offset_aware_timestamp
  exception_post_init e = do
    require_non_empty_string e.exception_id
    require_non_empty_string e.customer_id
    require_non_empty_string e.rule_id
    require_non_empty_string e.rule_version
    require_non_empty_string e.approved_by
    require_optional_non_empty_string e.resource_id
    require_optional_non_empty_string e.ticket_reference
    approved ← require_offset_aware_timestamp e.approved_at
    expires ← require_offset_aware_timestamp e.expires_at
    require (ltb approved expires) value_error
    ok e

  -- `RemediationException.is_in_force_for`
  unfoldable pub is_in_force_for : RemediationException → ℕ → ℕ → Result Bool
  unfolding require_offset_aware_timestamp
  is_in_force_for e evaluated_at moment = do
    approved ← require_offset_aware_timestamp e.approved_at
    let last : Result Bool =
          require_offset_aware_timestamp e.expires_at >>= λ expires. ok (ltb moment expires) in
        if leb approved evaluated_at then last else ok false
