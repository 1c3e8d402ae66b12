-- ===== src/Jobs/Item.antt =====
-- apps/backend/repositories/dynamodb.py: jobs as items of the table, `_item_from_job` and
-- `_job_from_item`, with the enumerations' values of packages/contracts/jobs.py.
pub mod RoundTrip
pub mod Revision
use Prim.Native.String.{◌++◌ as append}
use kosa_aws.Base.{
  List, Option, String, [], if◌then◌else◌, is_blank, none, some, ℕ, ◌++◌, ◌==◌, ◌||◌, ◌∷◌,
}
use kosa_aws.Errors.{Result, err, ok, stored_data_error, value_error, ◌>>=◌, ◌>>◌}
use kosa_aws.Jobs.Model.{
  ApiError, Job, JobCurrentStep, JobStatus, apply, assess, aws_discovery, build_effective_rules,
  cancelled, ci_validation, completed, create_pr, failed, generate_findings, generate_report,
  job_post_init, load_iac, load_policy_evidence, load_policy_profile, policy_review,
  post_deploy_verification, pre_deploy_validation, queued, running, terraform_plan,
  waiting_approval, waiting_review,
}

-- The values that the attributes of a job item have.
pub data Attribute : Type 0 where
  text : String → Attribute
  number : ℕ → Attribute
  mapping : List (String × String) → Attribute

abbrev pub Item : Type 0
Item = List (String × Attribute)

-- `item.get(name)`
unfoldable pub lookup {ℓ} : {V : Type ℓ} → String → List (String × V) → Option V
lookup name [] = none
lookup name ((key, value) ∷ rest) = if key == name then some value else lookup name rest

-- `status.value`
unfoldable pub status_value : JobStatus → String
status_value queued = "QUEUED"
status_value running = "RUNNING"
status_value waiting_review = "WAITING_REVIEW"
status_value waiting_approval = "WAITING_APPROVAL"
status_value completed = "COMPLETED"
status_value failed = "FAILED"
status_value cancelled = "CANCELLED"

abbrev pub statuses : List JobStatus
statuses =
    queued ∷ running ∷ waiting_review ∷ waiting_approval ∷ completed ∷ failed ∷ cancelled ∷ []

unfoldable pub step_value : JobCurrentStep → String
step_value load_iac = "LOAD_IAC"
step_value load_policy_profile = "LOAD_POLICY_PROFILE"
step_value build_effective_rules = "BUILD_EFFECTIVE_RULES"
step_value load_policy_evidence = "LOAD_POLICY_EVIDENCE"
step_value assess = "ASSESS"
step_value policy_review = "POLICY_REVIEW"
step_value generate_findings = "GENERATE_FINDINGS"
step_value generate_report = "GENERATE_REPORT"
step_value JobCurrentStep.generate_remediation = "GENERATE_REMEDIATION"
step_value JobCurrentStep.sync_actual_state = "SYNC_ACTUAL_STATE"
step_value create_pr = "CREATE_PR"
step_value ci_validation = "CI_VALIDATION"
step_value aws_discovery = "AWS_DISCOVERY"
step_value pre_deploy_validation = "PRE_DEPLOY_VALIDATION"
step_value terraform_plan = "TERRAFORM_PLAN"
step_value apply = "APPLY"
step_value post_deploy_verification = "POST_DEPLOY_VERIFICATION"

abbrev pub steps : List JobCurrentStep
steps =
    load_iac ∷ load_policy_profile ∷ build_effective_rules ∷ load_policy_evidence ∷ assess
    ∷ policy_review ∷ generate_findings ∷ generate_report ∷ JobCurrentStep.generate_remediation
    ∷ JobCurrentStep.sync_actual_state ∷ create_pr ∷ ci_validation ∷ aws_discovery
    ∷ pre_deploy_validation ∷ terraform_plan ∷ apply ∷ post_deploy_verification ∷ []

-- `Enum(value)`: the first member with the value.
unfoldable pub member_of : {E : Type 0} → (E → String) → List E → String → Option E
member_of value_of [] value = none
member_of value_of (e ∷ es) value =
    if value_of e == value then some e else member_of value_of es value

unfoldable pub customer_pk : String → String
customer_pk customer_id = append "CUSTOMER#" customer_id

unfoldable pub job_sk : String → String
job_sk job_id = append "JOB#" job_id

-- `if (value := getattr(job, name)) is not None: item[name] = value`
abbrev pub link_attribute : String → Option String → Item
link_attribute name none = []
link_attribute name (some value) = (name, text value) ∷ []

abbrev pub error_attribute : Option ApiError → Item
error_attribute none = []
error_attribute (some e) = ("error", mapping (("code", e.code) ∷ ("message", e.message) ∷ [])) ∷ []

unfoldable pub item_from_job : Job → Item
unfolding status_value step_value
item_from_job job =
    ("PK", text (customer_pk job.customer_id))
    ∷ ("SK", text (job_sk job.job_id))
    ∷ ("entity_type", text "JOB")
    ∷ ("customer_id", text job.customer_id)
    ∷ ("job_id", text job.job_id)
    ∷ ("job_type", text job.job_type)
    ∷ ("status", text (status_value job.status))
    ∷ ("current_step", text (step_value job.current_step))
    ∷ ("requested_by", text job.requested_by)
    ∷ ("revision", number job.revision)
    ∷ ("GSI1PK", text (job_sk job.job_id))
    ∷ ("GSI1SK", text (customer_pk job.customer_id))
    ∷ (link_attribute "assessment_id" job.assessment_id
        ++ (link_attribute "remediation_id" job.remediation_id
            ++ (link_attribute "deployment_id" job.deployment_id ++ error_attribute job.error)))

abbrev pub invalid {ℓ} : {A : Type ℓ} → Result A
invalid = err stored_data_error

abbrev pub found {ℓ} : {A : Type ℓ} → Option A → Result A
found none = invalid
found (some a) = ok a

-- A required text attribute: the KeyError of a missing one and the TypeError of a value that is no
-- text both end in `StoredDataError`.
abbrev pub as_text : Attribute → Result String
as_text (text value) = ok value
as_text _ = invalid

abbrev pub optional_text : Option Attribute → Result (Option String)
optional_text none = ok none
optional_text (some a) = do value ← as_text a; ok (some value)

-- `_stored_revision`
abbrev pub stored_revision : Attribute → Result ℕ
stored_revision (number n) = ok n
stored_revision _ = invalid

-- `ApiError(code=..., message=...)`, whose constructor refuses blank fields.
unfoldable pub api_error : String → String → Result ApiError
api_error code message =
    if is_blank code || is_blank message
    then err value_error
    else ok (record { code = code; message = message })

abbrev pub stored_error : Option Attribute → Result (Option ApiError)
stored_error none = ok none
stored_error (some (mapping fields)) = do
  code ← found (lookup "code" fields)
  message ← found (lookup "message" fields)
  e ← api_error code message
  ok (some e)
stored_error (some _) = invalid

-- `except (KeyError, TypeError, ValueError): raise StoredDataError`
abbrev pub or_invalid {ℓ} : {A : Type ℓ} → Result A → Result A
or_invalid (ok a) = ok a
or_invalid (err e) = invalid

unfoldable pub job_of_item : Item → Result Job
unfolding api_error
job_of_item item = do
  error ← stored_error (lookup "error" item)
  job_id ← as_text (← found (lookup "job_id" item))
  customer_id ← as_text (← found (lookup "customer_id" item))
  job_type ← as_text (← found (lookup "job_type" item))
  status ← found (member_of status_value statuses (← as_text (← found (lookup "status" item))))
  step ← found (member_of step_value steps (← as_text (← found (lookup "current_step" item))))
  requested_by ← as_text (← found (lookup "requested_by" item))
  revision ← stored_revision (← found (lookup "revision" item))
  assessment_id ← optional_text (lookup "assessment_id" item)
  remediation_id ← optional_text (lookup "remediation_id" item)
  deployment_id ← optional_text (lookup "deployment_id" item)
  job_post_init (record {
    job_id = job_id;
    customer_id = customer_id;
    job_type = job_type;
    status = status;
    current_step = step;
    requested_by = requested_by;
    revision = revision;
    assessment_id = assessment_id;
    remediation_id = remediation_id;
    deployment_id = deployment_id;
    error = error;
  })

unfoldable pub job_from_item : Item → Result Job
unfolding job_of_item lookup
job_from_item item = or_invalid (job_of_item item)

-- `_item_from_job` sets PK and SK, the key under which the table stores the item.
unfoldable pub stored_number : String → Item → Option ℕ
unfolding lookup
stored_number name item = elim (lookup name item) [ some (number n) ↦ some n | _ ↦ none ]
