-- ===== src/Evidence/Verdict.antt =====
-- apps/backend/assessment/deterministic.py: the declared predicates, and the verdict over what they
-- observed. A rationale is kept by which of the two sentences it is and what that names; the words are left
-- out. `casefold` is Python's `str.casefold`.
pub mod Reported
pub mod Outcome
pub mod Returns
use mathlib.Core.List.{reverse}
use kosa_aws.Base.{
  Bool, List, Option, String, [], codes, contains, false, filter, if◌then◌else◌, is_empty, is_space,
  length, map, nat_eq, none, not, some, sorted_set, true, ℕ, ◌&&◌, ◌++◌, ◌==◌, ◌||◌, ◌∷◌,
}
use kosa_aws.Errors.{Result, deterministic_evaluation_error, err, ok, require, ◌>>=◌, ◌>>◌}
use kosa_aws.Evidence.Binding.{
  EvidenceCapabilityBinding, EvidenceExpectation, all_equal, all_false, all_in, all_true,
  judged_paths, no_public_ingress, non_empty, none_equal,
}
use kosa_aws.Evidence.Json.{
  Elements, Json, Members, boolean, element, last_element, last_member, member_at, null, object_of,
  sequence, string,
}
use kosa_aws.Evidence.Lookup.{document_path_values, values}
use kosa_aws.Jobs.Lifecycle.{allowed}

pub data EvaluationStatus : Type 0 where
  pass fail manual_review_needed insufficient_evidence out_of_scope execution_error :
      EvaluationStatus

pub record Observation : Type 0 where
  pub path : String
  pub satisfied : Bool

pub data Rationale : Type 0 where
  every_satisfies : (paths : List String) → Rationale
  some_fail : (satisfied total : ℕ) → (paths : List String) → Rationale

pub record DeterministicVerdict : Type 0 where
  pub status : EvaluationStatus
  pub rationale : Rationale
  pub observed_satisfied : ℕ
  pub observed_total : ℕ

-- `text.strip()` as character codes
abbrev strip_left : List ℕ → List ℕ
unfolding is_space
strip_left [] = []
strip_left (c ∷ cs) = let rest = strip_left cs in if is_space c then rest else c ∷ cs

abbrev strip : String → List ℕ
strip text = reverse (strip_left (reverse (strip_left (codes text))))

abbrev same_codes : List ℕ → List ℕ → Bool
same_codes [] [] = true
same_codes (c ∷ cs) (d ∷ ds) = nat_eq c d && same_codes cs ds
same_codes _ _ = false

-- `cidr.strip() in _UNRESTRICTED_CIDRS`
unfoldable pub is_unrestricted : String → Bool
unfolding strip_left
is_unrestricted cidr =
    same_codes (strip cidr) (codes "0.0.0.0/0") || same_codes (strip cidr) (codes "::/0")

-- `mapping.get(key, [])`, which must be a list
unfoldable pub list_at : String → Members → Result Elements
unfolding member_at
list_at key members = elim (member_at key members) [
  | none ↦ ok last_element
  | some (sequence elements) ↦ ok elements
  | some _ ↦ err deterministic_evaluation_error
]

-- `entry.get(cidr_key)`, if it is text that names the whole internet
unfoldable pub opens_internet : String → Json → Bool
unfolding member_at is_unrestricted
opens_internet cidr_key (object_of members) = elim (member_at cidr_key members) [
  | some (string cidr) ↦ is_unrestricted cidr
  | _ ↦ false
]
opens_internet cidr_key _ = false

unfoldable pub any_opens : String → Elements → Bool
unfolding opens_internet
any_opens cidr_key last_element = false
any_opens cidr_key (element entry rest) = opens_internet cidr_key entry || any_opens cidr_key rest

-- The body of the loop over the permissions: whether one of them opens the internet. A range list that
-- follows one that opens it is not looked at.
unfoldable pub permission_opens : Json → Result Bool
unfolding list_at any_opens
permission_opens (object_of permission) = do
  v4 ← list_at "IpRanges" permission
  let next_ranges = list_at "Ipv6Ranges" permission >>= λ v6. ok (any_opens "CidrIpv6" v6)
  (if any_opens "CidrIp" v4 then ok true else next_ranges)
permission_opens _ = err deterministic_evaluation_error

unfoldable pub permissions_open : Elements → Result Bool
unfolding permission_opens
permissions_open last_element = ok false
permissions_open (element permission rest) =
    let others = permissions_open rest in
    permission_opens permission >>= λ opens. if opens then ok true else others

-- `_no_public_ingress`
unfoldable pub has_no_public_ingress : Json → Result Bool
unfolding list_at permissions_open
has_no_public_ingress (object_of group) = do
  permissions ← list_at "IpPermissions" group
  opens ← permissions_open permissions
  ok (not opens)
has_no_public_ingress _ = err deterministic_evaluation_error

abbrev pub is_boolean : Bool → Json → Bool
is_boolean b (boolean true) = b
is_boolean b (boolean false) = not b
is_boolean b _ = false

-- Texts, lists and mappings by their length, everything else by not being `None`.
abbrev pub has_content : Json → Bool
has_content (string String.[]) = false
has_content (sequence last_element) = false
has_content (object_of last_member) = false
has_content null = false
has_content _ = true

-- `_bool_text(value) if isinstance(value, bool) else value`, if that is text
abbrev pub text_of : Json → Option String
text_of (boolean true) = some "true"
text_of (boolean false) = some "false"
text_of (string text) = some text
text_of _ = none

-- `binding.expected_value or ""`
abbrev pub or_empty : Option String → String
or_empty none = ""
or_empty (some value) = value

module _ (casefold : String → String) where
  unfoldable pub matches : Option String → Json → Bool
  matches expected value = elim (text_of value) [
    | none ↦ false
    | some text ↦ casefold text == casefold (or_empty expected)
  ]

  unfoldable pub is_allowed : List String → Json → Bool
  is_allowed allowed (string text) = contains (map casefold allowed) (casefold text)
  is_allowed allowed _ = false

  -- `_satisfies`, by the expectation
  unfoldable pub meets : EvidenceCapabilityBinding → EvidenceExpectation → Json → Result Bool
  unfolding matches is_allowed has_no_public_ingress
  meets binding all_true value = ok (is_boolean true value)
  meets binding all_false value = ok (is_boolean false value)
  meets binding non_empty value = ok (has_content value)
  meets binding all_equal value = ok (matches binding.expected_value value)
  meets binding none_equal value = ok (not (matches binding.expected_value value))
  meets binding all_in value = ok (is_allowed binding.expected_values value)
  meets binding no_public_ingress value = has_no_public_ingress value

  -- `_satisfies`
  unfoldable pub satisfies : EvidenceCapabilityBinding → Json → Result Bool
  satisfies binding value = elim binding.expectation [
    | none ↦ err deterministic_evaluation_error
    | some expectation ↦ meets binding expectation value
  ]

  unfoldable pub observe : EvidenceCapabilityBinding → String → Json → Result Observation
  observe binding path value = do
    satisfied ← satisfies binding value
    ok (record { path = path; satisfied = satisfied })

  unfoldable pub observe_all :
      EvidenceCapabilityBinding → String → List Json → Result (List Observation)
  observe_all binding path [] = ok []
  observe_all binding path (value ∷ values) = do
    first ← observe binding path value
    rest ← observe_all binding path values
    ok (first ∷ rest)

  -- The loop of `decide` over the paths of a binding.
  unfoldable pub observe_paths :
      EvidenceCapabilityBinding → Json → List String → Result (List Observation)
  observe_paths binding document [] = ok []
  observe_paths binding document (path ∷ paths) = do
    values ← document_path_values document path
    require (not (is_empty values)) deterministic_evaluation_error
    first ← observe_all binding path values
    rest ← observe_paths binding document paths
    ok (first ++ rest)

  unfoldable pub observe_bindings :
      List EvidenceCapabilityBinding → Json → Result (List Observation)
  observe_bindings [] document = ok []
  observe_bindings (binding ∷ bindings) document = do
    first ← observe_paths binding document (judged_paths binding)
    rest ← observe_bindings bindings document
    ok (first ++ rest)

-- `sorted({observation.path for observation in observations})`
unfoldable pub paths_of : List Observation → List String
unfolding sorted_set
paths_of observations = sorted_set (map (λ o. o.path) observations)

-- The two returns of `verdict_from_observations`.
unfoldable pub pass_verdict : List Observation → List Observation → DeterministicVerdict
unfolding paths_of
pass_verdict observations held = record {
  status = pass;
  rationale = every_satisfies (paths_of observations);
  observed_satisfied = length held;
  observed_total = length observations;
}

unfoldable pub fail_verdict :
    List Observation → List Observation → List Observation → DeterministicVerdict
unfolding paths_of
fail_verdict observations held broken = record {
  status = fail;
  rationale = some_fail (length held) (length observations) (paths_of broken);
  observed_satisfied = length held;
  observed_total = length observations;
}

unfoldable pub verdict_from_observations : List Observation → Result DeterministicVerdict
unfolding pass_verdict fail_verdict
verdict_from_observations observations = do
  require (not (is_empty observations)) deterministic_evaluation_error
  let held = filter (λ o. o.satisfied) observations
  let broken = filter (λ o. not o.satisfied) observations
  ok (
      if is_empty broken
      then pass_verdict observations held
      else fail_verdict observations held broken)

unfoldable pub decide_document :
    (String → String) → List EvidenceCapabilityBinding → Json → Result DeterministicVerdict
decide_document casefold bindings document = do
  require (not (is_empty bindings)) deterministic_evaluation_error
  observations ← observe_bindings casefold bindings document
  verdict_from_observations observations
