-- ===== src/Policy/Context.antt =====
-- apps/backend/policy/context.py: the rules of a profile that apply to a phase and a resource type. The
-- catalog belongs to the caller: any value of the interface, whose reads return or raise.
pub mod Allowed
pub mod Resolved
use text.Mathlib.Text.{starts_with}
use kosa_aws.Base.{
  Bool, List, Option, String, [], any, contains, false, filter, if◌then◌else◌, is_blank, is_empty,
  map, none, not, some, true, ◌&&◌, ◌++◌, ◌==◌, ◌||◌, ◌∷◌,
}
use kosa_aws.Errors.{
  Result, err, no_applicable_policy_rules, ok, policy_not_found, require, ◌>>=◌, ◌>>◌,
}
use kosa_aws.Jobs.Model.{require_non_empty_string, require_optional_non_empty_string}
use kosa_aws.Policy.Rules.{
  AssessmentPhase, PolicyProfile, PolicyRule, PolicyRuleReference, SourceReference,
  evidence_reference, same_phase,
}

pub record PolicyContext : Type 0 where
  pub policy_profile_id : String
  pub policy_profile_version : String
  pub phase : AssessmentPhase
  pub resource_type : String
  pub rules : List PolicyRule

abbrev pub same_reference : SourceReference → SourceReference → Bool
same_reference a b =
    a.source_id == b.source_id
    && a.source_version == b.source_version
    && a.locator == b.locator
    && a.content_sha256 == b.content_sha256

-- `if reference not in references: references.append(reference)`
unfoldable pub add_sources : List SourceReference → List SourceReference → List SourceReference
add_sources references [] = references
add_sources references (r ∷ rs) =
    add_sources (if any (same_reference r) references then references else references ++ (r ∷ []))
      rs

-- `PolicyContext.source_references`, from the references collected on.
unfoldable pub source_references_of : List SourceReference → List PolicyRule → List SourceReference
unfolding add_sources
source_references_of references [] = references
source_references_of references (rule ∷ rules) =
    source_references_of (add_sources references rule.source_references) rules

unfoldable pub policy_evidence_references : PolicyContext → List String
unfolding source_references_of evidence_reference
policy_evidence_references context = map evidence_reference (source_references_of [] context.rules)

-- `reference.startswith(RESOURCE_EVIDENCE_PREFIXES)`
unfoldable pub is_resource_evidence : String → Bool
is_resource_evidence reference =
    starts_with reference "aws:"
    || starts_with reference "terraform:"
    || starts_with reference "s3://"

-- `PolicyContext.allows_evidence`
unfoldable pub allows_evidence : PolicyContext → String → Bool
unfolding policy_evidence_references is_resource_evidence is_blank
allows_evidence context reference =
    if is_blank reference
    then false
    else contains (policy_evidence_references context) reference || is_resource_evidence reference

pub record PolicyCatalog : Type 0 where
  pub get_profile : String → Option String → Result (Option PolicyProfile)
  pub get_rule : String → String → Result (Option PolicyRule)

-- `phase in rule.applicable_phases and resource_type in rule.resource_types`
unfoldable pub is_applicable : AssessmentPhase → String → PolicyRule → Bool
unfolding same_phase
is_applicable phase resource_type rule =
    any (same_phase phase) rule.applicable_phases && contains rule.resource_types resource_type

-- `profile.version != expected_profile_version`, where a version is expected
abbrev pub fits_pin : Option String → String → Bool
fits_pin none version = true
fits_pin (some expected) version = version == expected

module _ (catalog : PolicyCatalog) where
  -- `PolicyContextResolver._missing_profile`, which is raised: it reads the catalog only to choose a message.
  unfoldable pub missing_profile : String → Option String → Result PolicyProfile
  missing_profile policy_profile_id none = err policy_not_found
  missing_profile policy_profile_id (some expected) = do
    _ ← catalog.get_profile policy_profile_id none
    err policy_not_found

  -- `PolicyContextResolver._resolve_rule`
  unfoldable pub resolve_rule : PolicyRuleReference → Result PolicyRule
  resolve_rule reference = do
    read ← catalog.get_rule reference.rule_id reference.version
    rule ← elim read [ none ↦ err policy_not_found | some rule ↦ ok rule ]
    require (rule.rule_id == reference.rule_id && rule.version == reference.version)
        policy_not_found
    ok rule

  unfoldable pub resolve_rules : List PolicyRuleReference → Result (List PolicyRule)
  unfolding resolve_rule
  resolve_rules [] = ok []
  resolve_rules (reference ∷ references) = do
    first ← resolve_rule reference
    rest ← resolve_rules references
    ok (first ∷ rest)

  -- The end of `resolve`, on the profile that was read.
  unfoldable pub resolve_profile :
      PolicyProfile → AssessmentPhase → String → Option String → Result PolicyContext
  unfolding resolve_rules is_applicable
  resolve_profile profile phase resource_type expected = do
    require (fits_pin expected profile.version) policy_not_found
    rules ← resolve_rules profile.rule_references
    let applicable = filter (is_applicable phase resource_type) rules
    require (not (is_empty applicable)) no_applicable_policy_rules
    ok (record {
      policy_profile_id = profile.policy_profile_id;
      policy_profile_version = profile.version;
      phase = phase;
      resource_type = resource_type;
      rules = applicable;
    })

  -- `PolicyContextResolver.resolve`
  unfoldable pub resolve : String → AssessmentPhase → String → Option String → Result PolicyContext
  unfolding require_non_empty_string require_optional_non_empty_string missing_profile
      resolve_profile
  resolve policy_profile_id phase resource_type expected = do
    require_non_empty_string policy_profile_id
    require_optional_non_empty_string expected
    require_non_empty_string resource_type
    read ← catalog.get_profile policy_profile_id expected
    profile ← elim read [
      | none ↦ missing_profile policy_profile_id expected
      | some profile ↦ ok profile
    ]
    resolve_profile profile phase resource_type expected
