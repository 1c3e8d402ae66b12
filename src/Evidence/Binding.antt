-- ===== src/Evidence/Binding.antt =====
-- packages/contracts/policy_authoring.py: what a capability declares as evidence, and the checks of
-- `EvidenceCapabilityBinding.__post_init__`.
use kosa_aws.Base.{
  Bool, List, Option, String, [], all, any, contains, false, if◌then◌else◌, is_blank, is_empty,
  is_some, leb, length, none, not, some, true, ◌&&◌, ◌==◌, ◌||◌, ◌∷◌,
}
use kosa_aws.Errors.{Result, err, ok, require, value_error, ◌>>◌}
use kosa_aws.Jobs.Model.{require_non_empty_string}

pub data EvaluationPerspective : Type 0 where
  iac aws_actual drift_view manual : EvaluationPerspective

pub data EvidenceExpectation : Type 0 where
  all_true all_false non_empty all_equal none_equal all_in no_public_ingress : EvidenceExpectation

pub record PlanEvidencePath : Type 0 where
  pub terraform_resource_type : String
  pub path : String

pub record EvidenceCapabilityBinding : Type 0 where
  pub capability_key : String
  pub perspective : EvaluationPerspective
  pub resource_type : String
  pub document_paths : List String
  pub terraform_resource_types : List String
  pub terraform_attribute_names : List String
  pub expectation : Option EvidenceExpectation
  pub expected_value : Option String
  pub expected_values : List String
  pub plan_paths : List PlanEvidencePath
  pub expectation_paths : List String

unfoldable pub is_decidable : EvidenceCapabilityBinding → Bool
is_decidable binding = is_some binding.expectation

-- `self.expectation_paths or self.document_paths`
unfoldable pub judged_paths : EvidenceCapabilityBinding → List String
judged_paths binding =
    if is_empty binding.expectation_paths then binding.document_paths else binding.expectation_paths

unfoldable pub is_authoritative : EvidenceCapabilityBinding → Bool
is_authoritative binding = elim binding.perspective [ aws_actual ↦ true | _ ↦ false ]

-- `expectation in _VALUE_BEARING_EXPECTATIONS`
abbrev pub bears_value : EvidenceExpectation → Bool
bears_value all_equal = true
bears_value none_equal = true
bears_value _ = false

-- `expectation in _VALUES_BEARING_EXPECTATIONS`
abbrev pub bears_values : EvidenceExpectation → Bool
bears_values all_in = true
bears_values _ = false

-- `isinstance(self.expected_value, str) and self.expected_value.strip()`
abbrev pub has_text : Option String → Bool
has_text none = false
has_text (some value) = not (is_blank value)

same_location : PlanEvidencePath → PlanEvidencePath → Bool
same_location a b = a.terraform_resource_type == b.terraform_resource_type && a.path == b.path

-- `len(locations) == len(self.plan_paths)`
unfoldable pub distinct_locations : List PlanEvidencePath → Bool
unfolding same_location
distinct_locations [] = true
distinct_locations (entry ∷ entries) =
    not (any (same_location entry) entries) && distinct_locations entries

-- `_require_unique_strings`, with `MAX_EVIDENCE_CAPABILITIES` as its limit
unfoldable pub all_unique : List String → Bool
all_unique [] = true
all_unique (value ∷ values) =
    not (is_blank value) && not (contains values value) && all_unique values

unfoldable pub unique_strings : List String → Bool
unfolding all_unique
unique_strings values = leb (length values) 20 && all_unique values

-- The part of `_require_expectation` on a declared expectation.
unfoldable pub require_declared :
    EvidenceCapabilityBinding → EvidenceExpectation → Result (Unit {0})
require_declared binding expectation = do
  require (all (contains binding.document_paths) binding.expectation_paths) value_error
  require (not (bears_value expectation) || has_text binding.expected_value) value_error
  require (bears_value expectation || not (is_some binding.expected_value)) value_error
  require (not (bears_values expectation) || not (is_empty binding.expected_values)) value_error
  require (bears_values expectation || is_empty binding.expected_values) value_error

unfoldable pub require_expectation : EvidenceCapabilityBinding → Result (Unit {0})
unfolding unique_strings distinct_locations require_declared
require_expectation binding = do
  require (unique_strings binding.expected_values) value_error
  require (distinct_locations binding.plan_paths) value_error
  elim binding.expectation [
    | some expectation ↦ require_declared binding expectation
    | none ↦ do
      require (not (is_some binding.expected_value)) value_error
      require (is_empty binding.expected_values) value_error
      require (is_empty binding.expectation_paths) value_error
      require (is_empty binding.plan_paths) value_error
  ]

-- `EvidenceCapabilityBinding.__post_init__` on the two perspectives, and the refusal of the others.
unfoldable pub require_perspective :
    EvidenceCapabilityBinding → EvaluationPerspective → Result (Unit {0})
unfolding require_expectation
require_perspective binding aws_actual = do
  require (not (is_empty binding.document_paths)) value_error
  require (is_empty binding.terraform_resource_types && is_empty binding.terraform_attribute_names)
      value_error
  require_expectation binding
require_perspective binding iac = do
  require (is_empty binding.document_paths) value_error
  require (not (is_some binding.expectation)) value_error
  require (is_empty binding.plan_paths) value_error
require_perspective binding _ = err value_error

unfoldable pub binding_post_init : EvidenceCapabilityBinding → Result EvidenceCapabilityBinding
unfolding require_perspective unique_strings
binding_post_init binding = do
  require_non_empty_string binding.capability_key
  require_non_empty_string binding.resource_type
  require (unique_strings binding.document_paths) value_error
  require (unique_strings binding.terraform_resource_types) value_error
  require (unique_strings binding.terraform_attribute_names) value_error
  require_perspective binding binding.perspective
  ok binding
