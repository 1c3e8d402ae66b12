-- ===== src/Policy/Tests.antt =====
-- A customer's exceptions for one rule on one bucket, and the decisions on its findings.
use kosa_aws.Assessment.Findings.{Finding}
use kosa_aws.Base.{
  All, In, List, Option, String, [], false, if◌then◌else◌, inl, inr, none, refl, some, true, ℕ,
  ◌++◌, ◌==◌, ◌↔◌, ◌∷◌, ◌≡◌, ◌≢◌,
}
use kosa_aws.Errors.{err, ok, policy_not_found, remediation_policy_error, value_error}
use kosa_aws.Evidence.Binding.{aws_actual, iac}
use kosa_aws.Evidence.Verdict.{fail, pass}
use kosa_aws.Policy.Context.{PolicyCatalog, PolicyContext, allows_evidence, resolve}
use kosa_aws.Policy.Context.Resolved.{Resolves, resolve-Resolves}
use kosa_aws.Policy.Remediation.{
  RemediationDecision, RemediationException, RemediationRuleScope, RemediationTarget, accepted_risk,
  iac_verdict_commit_mismatch, manual_only, require_offset_aware_timestamp, suppressed,
  target_post_init,
}
use kosa_aws.Policy.Remediation.Decide.{
  check_arguments, decide, decision_of, eligibility_of, needs_review, remediation_policy,
  suppressed_by, syncs,
}
use kosa_aws.Policy.Remediation.Decided.{Says, decide-Says}
use kosa_aws.Policy.Remediation.Exempt.{
  FindingSuppression, annotate_suppressed_findings, select_in_force_exception,
}
use kosa_aws.Policy.Remediation.Exempt.Narrowest.{
  Selects, id_of, select_in_force_exception-order, width_of,
}
use kosa_aws.Policy.Remediation.Exempt.Total.{Made, Named}
use kosa_aws.Policy.Remediation.Noted.{annotate-decide, note_id, notes_of}
use kosa_aws.Policy.Rules.{
  AssessmentPhase, PolicyProfile, PolicyRule, high, post_deploy_verification, rule_post_init,
}

abbrev instant : String → Option ℕ
instant s =
    if s == "2026-01-01T00:00:00Z"
    then some 10
    else if s == "2026-02-01T00:00:00Z"
    then some 20
    else if s == "2026-12-01T00:00:00Z"
    then some 90
    else none

abbrev drifted_bucket : Finding
drifted_bucket = record {
  finding_id = "finding-1";
  resource_id = "bucket";
  rule_id = "S3-1";
  rule_version = "1";
  perspective = aws_actual;
  status = fail;
  severity = "HIGH";
  score = 0;
  evidence_references = [];
  assessed_commit_sha = some "c1";
  evaluated_at = some "2026-02-01T00:00:00Z";
}

abbrev bucket_target : RemediationTarget
bucket_target = record {
  resource_id = "bucket";
  resource_type = "aws_s3_bucket";
  rule_id = "S3-1";
  rule_version = "1";
  terraform_managed = true;
  iac_status = some pass;
  iac_perspective = some iac;
  iac_commit_sha = some "c1";
}

abbrev wide : RemediationException
wide = record {
  exception_id = "e-1";
  customer_id = "acme";
  rule_id = "S3-1";
  rule_version = "1";
  reason = accepted_risk;
  approved_by = "ann";
  approved_at = "2026-01-01T00:00:00Z";
  expires_at = "2026-12-01T00:00:00Z";
  resource_id = none;
  ticket_reference = none;
}

abbrev narrow : RemediationException
narrow = record wide { exception_id = "e-2"; resource_id = some "bucket" }

abbrev committed : List RemediationRuleScope
committed = record { rule_id = "S3-1"; version = "1"; eligibility = manual_only } ∷ []

test_target : target_post_init bucket_target ≡ ok bucket_target
unfolding target_post_init kosa_aws.Base.is_blank
test_target = refl

-- The stored IaC verdict is PASS, so the commit is deployed although no patch may be made.
test_sync :
    decide instant committed drifted_bucket "acme" bucket_target "c1" 20 30 []
    ≡ ok (decision_of drifted_bucket syncs)
unfolding decide kosa_aws.Base.is_blank
test_sync = refl

test_suppressed :
    decide instant committed drifted_bucket "acme" bucket_target "c1" 20 30 (wide ∷ (narrow ∷ []))
    ≡ ok (decision_of drifted_bucket (suppressed_by "e-2"))
unfolding decide kosa_aws.Base.is_blank kosa_aws.Policy.Remediation.Exempt.narrowest
test_suppressed = refl

-- An exception approved after the evaluation does not count.
test_late :
    decide instant committed drifted_bucket "acme" bucket_target "c1" 5 30 (wide ∷ [])
    ≡ ok (decision_of drifted_bucket syncs)
unfolding decide kosa_aws.Base.is_blank
test_late = refl

test_moved_on :
    decide instant committed drifted_bucket "acme" bucket_target "c2" 20 30 []
    ≡ ok (decision_of drifted_bucket (needs_review iac_verdict_commit_mismatch))
unfolding decide kosa_aws.Base.is_blank
test_moved_on = refl

test_duplicate : remediation_policy [] (committed ++ committed) ≡ err remediation_policy_error
unfolding remediation_policy
test_duplicate = refl

drifted_bucket-Named : Named drifted_bucket
unfolding kosa_aws.Base.is_blank
drifted_bucket-Named = record {
  finding_id = refl;
  resource_id = refl;
  rule_id = refl;
  rule_version = refl;
}

both-Made : All (Made instant) (wide ∷ (narrow ∷ []))
unfolding kosa_aws.Policy.Remediation.exception_post_init kosa_aws.Base.is_blank
both-Made = (refl, (refl, tt))

test_arguments : check_arguments drifted_bucket "acme" bucket_target "c1" 20 30 ≡ ok tt
unfolding check_arguments kosa_aws.Base.is_blank
test_arguments = refl

decide-Says_example :
    (d : RemediationDecision) × (selected : Option RemediationException) × (decide instant committed
        drifted_bucket "acme" bucket_target "c1" 20 30
        (wide ∷ (narrow ∷ []))
      ≡ ok d)
    × Selects instant drifted_bucket "acme" 20 30 selected (wide ∷ (narrow ∷ []))
    × Says drifted_bucket bucket_target "c1" (eligibility_of committed "S3-1" "1") selected d
decide-Says_example =
    decide-Says instant committed drifted_bucket "acme" bucket_target "c1" 20 30
      (wide ∷ (narrow ∷ [])) drifted_bucket-Named both-Made test_arguments

test_read : require_offset_aware_timestamp instant "2026-02-01T00:00:00Z" ≡ ok 20
unfolding require_offset_aware_timestamp kosa_aws.Base.is_blank
test_read = refl

annotate-decide_example :
    (d : RemediationDecision) × (note : Option FindingSuppression) × (decide instant committed
        drifted_bucket "acme" bucket_target "c1" 20 30
        (wide ∷ (narrow ∷ []))
      ≡ ok d)
    × (annotate_suppressed_findings instant (drifted_bucket ∷ []) "acme" (wide ∷ (narrow ∷ [])) 30
        ≡ ok (notes_of note))
    × ((d.action ≡ suppressed) ↔ (note ≢ none))
    × (note_id note ≡ d.exception_id)
annotate-decide_example =
    annotate-decide instant committed drifted_bucket "acme" bucket_target "c1"
      "2026-02-01T00:00:00Z" 20 30 (wide ∷ (narrow ∷ [])) drifted_bucket-Named both-Made
      test_arguments refl test_read

either_order :
    (x : RemediationException) → In x (wide ∷ (narrow ∷ [])) ↔ In x (narrow ∷ (wide ∷ []))
either_order x = (swap, swap)
  where
    swap : {a b : RemediationException} → In x (a ∷ (b ∷ [])) → In x (b ∷ (a ∷ []))
    swap (inl e) = inr (inl e)
    swap (inr (inl e)) = inl e
    swap (inr (inr never)) = absurd never

test_first :
    select_in_force_exception instant drifted_bucket "acme" 20 30 (wide ∷ (narrow ∷ []))
    ≡ ok (some narrow)
unfolding select_in_force_exception kosa_aws.Base.is_blank
    kosa_aws.Policy.Remediation.Exempt.narrowest
test_first = refl

test_second :
    select_in_force_exception instant drifted_bucket "acme" 20 30 (narrow ∷ (wide ∷ []))
    ≡ ok (some narrow)
unfolding select_in_force_exception kosa_aws.Base.is_blank
    kosa_aws.Policy.Remediation.Exempt.narrowest
test_second = refl

select_in_force_exception-order_example :
    (id_of (some narrow) ≡ id_of (some narrow)) × (width_of (some narrow) ≡ width_of (some narrow))
select_in_force_exception-order_example =
    select_in_force_exception-order instant drifted_bucket "acme" 20 30 (wide ∷ (narrow ∷ []))
      (narrow ∷ (wide ∷ [])) (some narrow) (some narrow) either_order test_first test_second

abbrev bucket_rule : PolicyRule
bucket_rule = record {
  rule_id = "S3-1";
  version = "1";
  title = "Encrypt buckets";
  severity = high;
  applicable_phases = AssessmentPhase.initial ∷ (post_deploy_verification ∷ []);
  resource_types = "aws_s3_bucket" ∷ [];
  source_references =
      record { source_id = "isms"; source_version = "3"; locator = "2.7.1"; content_sha256 = "d1" }
      ∷ [];
  control_key = none;
  control_catalog_version = none;
  evaluation_type = none;
  applicability_semantics = none;
  required_evidence = [];
  optional_evidence = [];
  evaluation_rubric = none;
  severity_guidance = none;
  exception_semantics = none;
  compensating_control_semantics = none;
}

-- A rule for another resource type, which does not apply to buckets.
abbrev volume_rule : PolicyRule
volume_rule = record bucket_rule { rule_id = "EBS-1"; resource_types = "aws_ebs_volume" ∷ [] }

test_legacy : rule_post_init bucket_rule ≡ ok bucket_rule
unfolding rule_post_init kosa_aws.Base.is_blank
test_legacy = refl

test_half_filled : rule_post_init (record bucket_rule { control_key = some "k" }) ≡ err value_error
unfolding rule_post_init kosa_aws.Base.is_blank
test_half_filled = refl

abbrev profile : PolicyProfile
profile = record {
  policy_profile_id = "baseline";
  version = "7";
  rule_references =
      record { rule_id = "EBS-1"; version = "1" }
      ∷ (record { rule_id = "S3-1"; version = "1" } ∷ []);
}

abbrev rule_named : String → Option PolicyRule
rule_named rule_id =
    if rule_id == "S3-1"
    then some bucket_rule
    else if rule_id == "EBS-1"
    then some volume_rule
    else none

abbrev catalog : PolicyCatalog
catalog = record {
  get_profile = λ policy_profile_id version. ok (some profile);
  get_rule = λ rule_id version. ok (rule_named rule_id);
}

abbrev bucket_context : PolicyContext
bucket_context = record {
  policy_profile_id = "baseline";
  policy_profile_version = "7";
  phase = AssessmentPhase.initial;
  resource_type = "aws_s3_bucket";
  rules = bucket_rule ∷ [];
}

test_resolve :
    resolve catalog "baseline" AssessmentPhase.initial "aws_s3_bucket" (some "7")
    ≡ ok bucket_context
unfolding resolve kosa_aws.Base.is_blank
test_resolve = refl

test_replaced :
    resolve catalog "baseline" AssessmentPhase.initial "aws_s3_bucket" (some "6")
    ≡ err policy_not_found
unfolding resolve kosa_aws.Base.is_blank
test_replaced = refl

test_cited : allows_evidence bucket_context "isms@3#2.7.1" ≡ true
unfolding allows_evidence
test_cited = refl

test_uncited : allows_evidence bucket_context "isms@2#2.7.1" ≡ false
unfolding allows_evidence
test_uncited = refl

resolve-Resolves_example :
    Resolves catalog "baseline" AssessmentPhase.initial "aws_s3_bucket" (some "7") bucket_context
resolve-Resolves_example =
    resolve-Resolves catalog "baseline" AssessmentPhase.initial "aws_s3_bucket" (some "7")
      test_resolve
