-- ===== src/Evidence/Tests.antt =====
-- A bucket's document with one of its flags turned off, and a binding that wants both on.
use kosa_aws.Base.{
  All, List, String, [], arith, false, is_blank, none, refl, some, true, ◌↔◌, ◌∷◌, ◌≡◌, ◌≤◌,
}
use kosa_aws.Errors.{ok}
use kosa_aws.Evidence.Binding.{
  EvidenceCapabilityBinding, all_true, aws_actual, binding_post_init, judged_paths,
}
use kosa_aws.Evidence.Json.{
  Elements, Json, boolean, element, last_element, last_member, member, object_of, sequence, string,
}
use kosa_aws.Evidence.Lookup.{document_path_present, present_at, values}
use kosa_aws.Evidence.Lookup.Present.{Given, present_at-values}
use kosa_aws.Evidence.Path.{Segment, parse_document_path, read_segments, text_size}
use kosa_aws.Evidence.Path.Fuel.{parse_document_path-fuel}
use kosa_aws.Evidence.TerraformPlan.{has_destructive_changes}
use kosa_aws.Evidence.TerraformPlan.Destructive.{
  HasEntries, any_destroys, has_destructive_changes-destroys,
}
use kosa_aws.Evidence.Verdict.{
  DeterministicVerdict, Observation, decide_document, fail, pass, some_fail,
  verdict_from_observations,
}
use kosa_aws.Evidence.Verdict.Outcome.{BindingHolds, decide_document-pass_iff}
use kosa_aws.Evidence.Verdict.Returns.{Prepared, decide_document-returns}

abbrev flags_document : Json
flags_document = object_of (
    member "attributes"
      (object_of (member "acl" (boolean true) (member "policy" (boolean false) last_member)))
      last_member)

abbrev flags : EvidenceCapabilityBinding
flags = record {
  capability_key = "public_access_block";
  perspective = aws_actual;
  resource_type = "AWS::S3::Bucket";
  document_paths = "attributes.acl" ∷ "attributes.policy" ∷ [];
  terraform_resource_types = [];
  terraform_attribute_names = [];
  expectation = some all_true;
  expected_value = none;
  expected_values = [];
  plan_paths = [];
  expectation_paths = [];
}

abbrev same_case : String → String
same_case s = s

abbrev half : DeterministicVerdict
half = record {
  status = fail;
  rationale = some_fail 1 2 ("attributes.policy" ∷ []);
  observed_satisfied = 1;
  observed_total = 2;
}

test_flags : decide_document same_case (flags ∷ []) flags_document ≡ ok half
unfolding decide_document kosa_aws.Evidence.Verdict.observe_bindings
    kosa_aws.Evidence.Verdict.observe_paths judged_paths
    kosa_aws.Evidence.Lookup.document_path_values kosa_aws.Evidence.Path.parse_document_path values
    kosa_aws.Evidence.Lookup.child_at kosa_aws.Evidence.Verdict.observe_all
    kosa_aws.Evidence.Verdict.observe kosa_aws.Evidence.Verdict.satisfies
    kosa_aws.Evidence.Verdict.meets verdict_from_observations
test_flags = refl

abbrev observed : List Observation
observed =
    record { path = "attributes.acl"; satisfied = true }
    ∷ record { path = "attributes.policy"; satisfied = false }
    ∷ []

-- The rationale sorts the paths and names each once.
test_explained :
    verdict_from_observations (
      record { path = "b"; satisfied = false }
      ∷ record { path = "a"; satisfied = false }
      ∷ record { path = "c"; satisfied = true }
      ∷ record { path = "b"; satisfied = false }
      ∷ [])
    ≡ ok (record {
      status = fail;
      rationale = some_fail 1 4 ("a" ∷ "b" ∷ []);
      observed_satisfied = 1;
      observed_total = 4;
    })
unfolding verdict_from_observations
test_explained = refl

test_declared : binding_post_init flags ≡ ok flags
unfolding binding_post_init kosa_aws.Jobs.Model.require_non_empty_string kosa_aws.Base.is_blank
test_declared = refl

decide_document-pass_iff_example :
    (half.status ≡ pass) ↔ All (BindingHolds same_case flags_document) (flags ∷ [])
decide_document-pass_iff_example =
    decide_document-pass_iff same_case (flags ∷ []) flags_document test_flags

test_prepared : Prepared flags_document flags
unfolding document_path_present judged_paths kosa_aws.Evidence.Path.parse_document_path present_at
    kosa_aws.Evidence.Lookup.child_at
test_prepared = record {
  reads = (all_true, refl, λ p. cc);
  judges = refl;
  present = (refl, (refl, tt));
}

decide_document-returns_example :
    (verdict : DeterministicVerdict) × (decide_document same_case (flags ∷ []) flags_document
      ≡ ok verdict)
decide_document-returns_example =
    decide_document-returns same_case (flags ∷ []) flags_document refl (test_prepared, tt)

abbrev volumes_document : Json
volumes_document = object_of (
    member "volumes"
      (sequence (
        element (object_of (member "encrypted" (boolean true) last_member))
          (element (object_of (member "encrypted" (boolean false) last_member)) last_element)))
      last_member)

abbrev volumes_path : List Segment
volumes_path =
    record { key = "volumes"; expands_list = true }
    ∷ record { key = "encrypted"; expands_list = false }
    ∷ []

test_present : present_at volumes_path volumes_document ≡ true
unfolding present_at kosa_aws.Evidence.Lookup.child_at kosa_aws.Evidence.Lookup.elements_of
test_present = refl

present_at-values_example : Given (values volumes_path volumes_document)
present_at-values_example = present_at-values volumes_path volumes_document test_present

test_not_blank : is_blank "a.b[].c" ≡ false
unfolding is_blank
test_not_blank = refl

test_size : text_size "a.b[].c" ≤ 100
unfolding text_size
test_size = omega arith

parse_document_path-fuel_example :
    read_segments 100 "a.b[].c" ≡ some (parse_document_path "a.b[].c")
parse_document_path-fuel_example = parse_document_path-fuel 100 "a.b[].c" test_not_blank test_size

abbrev deleting_plan : Json
deleting_plan = object_of (
    member "resource_changes"
      (sequence (
        element
          (object_of (
            member "address" (string "aws_s3_bucket.logs") (
              member "type" (string "aws_s3_bucket") (
                member "change"
                  (object_of (
                    member "actions" (sequence (element (string "delete") last_element))
                      last_member))
                  last_member))))
          last_element))
      last_member)

test_deleting : has_destructive_changes deleting_plan ≡ ok true
unfolding has_destructive_changes
test_deleting = refl

has_destructive_changes-destroys_example :
    (es : Elements) × HasEntries deleting_plan es × (true ≡ any_destroys es)
has_destructive_changes-destroys_example =
    has_destructive_changes-destroys deleting_plan test_deleting
