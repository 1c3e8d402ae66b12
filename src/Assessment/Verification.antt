-- ===== src/Assessment/Verification.antt =====
-- apps/backend/assessment/verification.py, with `Assessment` of apps/backend/assessment/models.py: the scope
-- of an assessment that verifies a deployment.
use kosa_aws.Assessment.Comparison.{PlannedEvaluation}
use kosa_aws.Assessment.Readiness.{has_no_duplicates}
use kosa_aws.Base.{
  Bool, List, Option, String, all, any, false, if◌then◌else◌, inl, inr, is_empty, is_some, none,
  not, some, true, ◌&&◌, ◌==◌, ◌||◌, ◌⊎◌,
}
use kosa_aws.Errors.{Result, ok, require, value_error, ◌>>=◌, ◌>>◌}
use kosa_aws.Jobs.Model.{require_non_empty_string, require_optional_non_empty_string}
use kosa_aws.Policy.Context.{PolicyContext}
use kosa_aws.Policy.Rules.{AssessmentPhase, PolicyRule, same_phase}

pub record Assessment : Type 0 where
  pub assessment_id : String
  pub customer_id : String
  pub job_id : String
  pub repository_id : String
  pub policy_profile_id : String
  pub policy_profile_version : String
  pub phase : AssessmentPhase
  pub source_assessment_id : Option String
  pub deployment_id : Option String
  pub model_profile_id : Option String
  pub rubric_version : Option String

abbrev pub is_verification_phase : AssessmentPhase → Bool
is_verification_phase phase = same_phase phase AssessmentPhase.post_deploy_verification

-- The end of `Assessment.__post_init__`, by the phase.
unfoldable pub require_provenance : Bool → Assessment → Result (Unit {0})
require_provenance true assessment = do
  require (is_some assessment.source_assessment_id && is_some assessment.deployment_id) value_error
  require
      (elim assessment.source_assessment_id [
        | none ↦ true
        | some source ↦ not (source == assessment.assessment_id)
      ])
      value_error
  require (is_some assessment.model_profile_id && is_some assessment.rubric_version) value_error
require_provenance false assessment = do
  require (not (is_some assessment.source_assessment_id || is_some assessment.deployment_id))
      value_error
  require (not (is_some assessment.model_profile_id || is_some assessment.rubric_version))
      value_error

-- `Assessment.__post_init__`
unfoldable pub assessment_post_init : Assessment → Result Assessment
unfolding require_non_empty_string require_optional_non_empty_string require_provenance same_phase
assessment_post_init assessment = do
  require_non_empty_string assessment.assessment_id
  require_non_empty_string assessment.customer_id
  require_non_empty_string assessment.job_id
  require_non_empty_string assessment.repository_id
  require_non_empty_string assessment.policy_profile_id
  require_non_empty_string assessment.policy_profile_version
  require_optional_non_empty_string assessment.source_assessment_id
  require_optional_non_empty_string assessment.deployment_id
  require_optional_non_empty_string assessment.model_profile_id
  require_optional_non_empty_string assessment.rubric_version
  require_provenance (is_verification_phase assessment.phase) assessment
  ok assessment

pub data VerificationRejectionCode : Type 0 where
  profile_mismatch profile_version_replaced context_phase_mismatch planned_rule_not_applicable :
      VerificationRejectionCode

pub record VerificationSource : Type 0 where
  pub assessment_id : String
  pub customer_id : String
  pub repository_id : String
  pub policy_profile_id : String
  pub policy_profile_version : String
  pub model_profile_id : String
  pub rubric_version : String
  pub phase : AssessmentPhase
  pub planned_coordinates : List PlannedEvaluation

-- `_require_planned_coordinates`
unfoldable pub require_planned_coordinates : List PlannedEvaluation → Result (Unit {0})
unfolding has_no_duplicates
require_planned_coordinates plan = do
  require (not (is_empty plan)) value_error
  require (has_no_duplicates plan) value_error

-- `VerificationSource.__post_init__`
unfoldable pub verification_source_post_init : VerificationSource → Result VerificationSource
unfolding require_non_empty_string require_planned_coordinates
verification_source_post_init source = do
  require_non_empty_string source.assessment_id
  require_non_empty_string source.customer_id
  require_non_empty_string source.repository_id
  require_non_empty_string source.policy_profile_id
  require_non_empty_string source.policy_profile_version
  require_non_empty_string source.model_profile_id
  require_non_empty_string source.rubric_version
  require_planned_coordinates source.planned_coordinates
  ok source

pub record VerificationAssessmentScope : Type 0 where
  pub assessment : Assessment
  pub planned_coordinates : List PlannedEvaluation

unfoldable pub scope_post_init : VerificationAssessmentScope → Result VerificationAssessmentScope
unfolding same_phase require_planned_coordinates
scope_post_init scope = do
  require (is_verification_phase scope.assessment.phase) value_error
  require_planned_coordinates scope.planned_coordinates
  ok scope

-- `planned_rule_ids <= applicable_rule_ids`
unfoldable pub applies_planned_rules : List PolicyRule → List PlannedEvaluation → Bool
applies_planned_rules rules plan = all (λ c. any (λ rule. rule.rule_id == c.rule_id) rules) plan

-- The code of the rejection, if there is one.
unfoldable pub rejection_of : VerificationSource → PolicyContext → Option VerificationRejectionCode
unfolding same_phase applies_planned_rules
rejection_of source context =
    if not (context.policy_profile_id == source.policy_profile_id)
    then some profile_mismatch
    else if not (context.policy_profile_version == source.policy_profile_version)
    then some profile_version_replaced
    else if not (is_verification_phase context.phase)
    then some context_phase_mismatch
    else if not (applies_planned_rules context.rules source.planned_coordinates)
    then some planned_rule_not_applicable
    else none

unfoldable pub verification_scope :
    VerificationSource
    → (deployment_id assessment_id job_id : String) → Result VerificationAssessmentScope
unfolding assessment_post_init scope_post_init
verification_scope source deployment_id assessment_id job_id = do
  assessment ← assessment_post_init (record {
    assessment_id = assessment_id;
    customer_id = source.customer_id;
    job_id = job_id;
    repository_id = source.repository_id;
    policy_profile_id = source.policy_profile_id;
    policy_profile_version = source.policy_profile_version;
    phase = AssessmentPhase.post_deploy_verification;
    source_assessment_id = some source.assessment_id;
    deployment_id = some deployment_id;
    model_profile_id = some source.model_profile_id;
    rubric_version = some source.rubric_version;
  })
  scope_post_init
      (record { assessment = assessment; planned_coordinates = source.planned_coordinates })

-- A rejection raises `VerificationScopeError` with the code: the left value.
unfoldable pub plan_verification_assessment :
    VerificationSource
    → PolicyContext
    → (deployment_id assessment_id job_id : String)
    → Result (VerificationRejectionCode ⊎ VerificationAssessmentScope)
unfolding require_non_empty_string rejection_of verification_scope
plan_verification_assessment source context deployment_id assessment_id job_id = do
  require_non_empty_string deployment_id
  require_non_empty_string assessment_id
  require_non_empty_string job_id
  elim (rejection_of source context) [
    | some code ↦ ok (inl code)
    | none ↦ do scope ← verification_scope source deployment_id assessment_id job_id; ok (inr scope)
  ]
