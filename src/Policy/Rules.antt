-- ===== src/Policy/Rules.antt =====
-- packages/contracts/policy.py: policy rules and profiles, with `AssessmentPhase` of
-- packages/contracts/assessments.py.
use Prim.Native.String.{◌++◌ as append}
use kosa_aws.Base.{
  Bool, List, Option, String, [], any, codes, contains, false, is_empty, is_some, leb, length, none,
  not, some, true, ℕ, ◌&&◌, ◌||◌, ◌∷◌,
}
use kosa_aws.Errors.{Result, ok, require, value_error, ◌>>◌}
use kosa_aws.Jobs.Model.{require_non_empty_string, require_optional_non_empty_string}

pub data AssessmentPhase : Type 0 where
  initial deployment_readiness post_deploy_verification : AssessmentPhase

pub data RuleSeverity : Type 0 where
  low medium high critical : RuleSeverity

pub data RuleEvaluationType : Type 0 where
  iac_type aws_type hybrid_type manual_type : RuleEvaluationType

pub record SourceReference : Type 0 where
  pub source_id : String
  pub source_version : String
  pub locator : String
  pub content_sha256 : String

-- `SourceReference.evidence_reference`
unfoldable pub evidence_reference : SourceReference → String
evidence_reference r =
    append r.source_id (append "@" (append r.source_version (append "#" r.locator)))

pub record PolicyRule : Type 0 where
  pub rule_id : String
  pub version : String
  pub title : String
  pub severity : RuleSeverity
  pub applicable_phases : List AssessmentPhase
  pub resource_types : List String
  pub source_references : List SourceReference
  pub control_key : Option String
  pub control_catalog_version : Option String
  pub evaluation_type : Option RuleEvaluationType
  pub applicability_semantics : Option String
  pub required_evidence : List String
  pub optional_evidence : List String
  pub evaluation_rubric : Option String
  pub severity_guidance : Option String
  pub exception_semantics : Option String
  pub compensating_control_semantics : Option String

-- `_require_unique_non_empty_strings`, from the entries seen on.
unfoldable pub unique_entries : List String → List String → Result (Unit {0})
unfolding require_non_empty_string
unique_entries seen [] = ok tt
unique_entries seen (entry ∷ rest) = do
  require_non_empty_string entry
  require (not (contains seen entry)) value_error
  unique_entries (entry ∷ seen) rest

unfoldable pub require_unique_non_empty_strings : List String → Result (Unit {0})
unfolding unique_entries
require_unique_non_empty_strings value = do
  require (leb (length value) 20) value_error
  unique_entries [] value

-- One entry of `_TEXT_FIELD_LIMITS`.
unfoldable pub require_bounded_text : Option String → ℕ → Result (Unit {0})
unfolding require_optional_non_empty_string
require_bounded_text value limit = do
  require_optional_non_empty_string value
  require (elim value [ none ↦ true | some s ↦ leb (length (codes s)) limit ]) value_error

-- What a rule without an evaluation type must not carry: `_EXECUTION_SEMANTICS_FIELDS`.
unfoldable pub carries_semantics : PolicyRule → Bool
carries_semantics rule =
    is_some rule.control_key
    || is_some rule.control_catalog_version
    || is_some rule.applicability_semantics
    || not (is_empty rule.required_evidence)
    || not (is_empty rule.optional_evidence)
    || is_some rule.evaluation_rubric
    || is_some rule.severity_guidance
    || is_some rule.exception_semantics
    || is_some rule.compensating_control_semantics

unfoldable pub require_executable : PolicyRule → Result (Unit {0})
require_executable rule = do
  require (is_some rule.control_key) value_error
  require (is_some rule.control_catalog_version) value_error

unfoldable pub require_automated : PolicyRule → Result (Unit {0})
require_automated rule = do
  require (is_some rule.evaluation_rubric) value_error
  require (not (is_empty rule.required_evidence)) value_error
  require (not (any (contains rule.optional_evidence) rule.required_evidence)) value_error

-- The end of `_require_valid_execution_semantics`, by the evaluation type.
unfoldable pub require_typed_semantics : Option RuleEvaluationType → PolicyRule → Result (Unit {0})
unfolding require_executable require_automated carries_semantics
require_typed_semantics none rule = require (not (carries_semantics rule)) value_error
require_typed_semantics (some manual_type) rule = do
  require_executable rule
  require (is_empty rule.required_evidence && is_empty rule.optional_evidence) value_error
require_typed_semantics (some _) rule = do require_executable rule; require_automated rule

unfoldable pub require_valid_execution_semantics : PolicyRule → Result (Unit {0})
unfolding require_optional_non_empty_string require_bounded_text require_unique_non_empty_strings
    require_typed_semantics
require_valid_execution_semantics rule = do
  require_optional_non_empty_string rule.control_key
  require_optional_non_empty_string rule.control_catalog_version
  require_bounded_text rule.applicability_semantics 2000
  require_bounded_text rule.evaluation_rubric 4000
  require_bounded_text rule.severity_guidance 1000
  require_bounded_text rule.exception_semantics 2000
  require_bounded_text rule.compensating_control_semantics 2000
  require_unique_non_empty_strings rule.required_evidence
  require_unique_non_empty_strings rule.optional_evidence
  require_typed_semantics rule.evaluation_type rule

abbrev require_each : List String → Result (Unit {0})
require_each [] = ok tt
require_each (value ∷ rest) = require_non_empty_string value >> require_each rest

-- `PolicyRule.__post_init__`
unfoldable pub rule_post_init : PolicyRule → Result PolicyRule
unfolding require_non_empty_string require_valid_execution_semantics
rule_post_init rule = do
  require_non_empty_string rule.rule_id
  require_non_empty_string rule.version
  require_non_empty_string rule.title
  require (not (is_empty rule.applicable_phases)) value_error
  require (not (is_empty rule.resource_types)) value_error
  require (not (is_empty rule.source_references)) value_error
  require_each rule.resource_types
  require_valid_execution_semantics rule
  ok rule

pub record PolicyRuleReference : Type 0 where
  pub rule_id : String
  pub version : String

-- What the context resolver reads of a `PolicyProfile`.
pub record PolicyProfile : Type 0 where
  pub policy_profile_id : String
  pub version : String
  pub rule_references : List PolicyRuleReference

unfoldable pub same_phase : AssessmentPhase → AssessmentPhase → Bool
same_phase initial initial = true
same_phase deployment_readiness deployment_readiness = true
same_phase post_deploy_verification post_deploy_verification = true
same_phase _ _ = false
