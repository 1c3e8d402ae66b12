-- ===== src/Errors.antt =====
-- The exceptions of the backend as values: one constructor for each class that a modelled operation
-- raises, and a result that is either a value or an exception. Messages are left out, but for the
-- fixed texts of `apps/backend/jobs/errors.py`.
use kosa_aws.Base.{Bool, arith, false, inl, inr, refl, true, ◌↔◌, ◌≡◌, ◌⊎◌}

pub data Error : Type 0 where
  type_error value_error lookup_error runtime_error : Error
  invalid_identity_claims authorization_denied assessment_scope_denied : Error
  authoring_run_not_found job_not_found policy_profile_not_found policy_source_not_found : Error
  request_validation_error : Error
  approval_conflict deployment_approval_error deployment_conflict policy_profile_in_use : Error
  policy_source_delete_forbidden remediation_not_automatable : Error
  duplicate_job invalid_job_mutation invalid_job_transition revision_conflict : Error
  stale_job_revision : Error
  repository_error stored_data_error workflow_dispatch_error orchestration_unavailable : Error
  apply_completion_error : Error
  deployment_worker_error deployment_work_not_found deployment_apply_blocked : Error
  plan_projection_error evidence_path_error deterministic_evaluation_error : Error
  policy_not_found no_applicable_policy_rules remediation_policy_error : Error
  drift_derivation_error evaluation_contract_error verification_scope_error : Error

-- `isinstance(error, ValueError)`
unfoldable pub is_value_error : Error → Bool
is_value_error value_error = true
is_value_error invalid_identity_claims = true
is_value_error request_validation_error = true
is_value_error approval_conflict = true
is_value_error deployment_approval_error = true
is_value_error deployment_conflict = true
is_value_error policy_profile_in_use = true
is_value_error policy_source_delete_forbidden = true
is_value_error remediation_not_automatable = true
is_value_error invalid_job_transition = true
is_value_error deployment_worker_error = true
is_value_error deployment_work_not_found = true
is_value_error deployment_apply_blocked = true
is_value_error plan_projection_error = true
is_value_error evidence_path_error = true
is_value_error deterministic_evaluation_error = true
is_value_error remediation_policy_error = true
is_value_error drift_derivation_error = true
is_value_error evaluation_contract_error = true
is_value_error verification_scope_error = true
is_value_error _ = false

pub data Result {ℓ} (A : Type ℓ) : Type ℓ where
  err : Error → Result A
  ok : A → Result A

-- `if not condition: raise exception`
abbrev pub require : Bool → Error → Result (Unit {0})
require condition exception = elim condition [ true ↦ ok tt | false ↦ err exception ]

-- An exception ends the computation; a value goes on to the rest of it.
module _ {ℓ κ} {A : Type ℓ} {B : Type κ} where
  infixl 5 ◌>>=◌
  abbrev pub ◌>>=◌ : Result A → (A → Result B) → Result B
  err exception >>= rest = err exception
  ok value >>= rest = rest value

  -- What the computation has passed where it returns.
  pub bind_ok :
      (first : Result A) (rest : A → Result B) {last : B}
      → (first >>= rest) ≡ ok last
      → (value : A) × (first ≡ ok value) × (rest value ≡ ok last)
  bind_ok (err exception) rest returns = cc
  bind_ok (ok value) rest returns = (value, refl, returns)

module _ {ℓ} {B : Type ℓ} where
  infixl 5 ◌>>◌
  abbrev pub ◌>>◌ : Result (Unit {0}) → Result B → Result B
  checked >> rest = checked >>= λ _. rest

  pub require_ok :
      (condition : Bool) (exception : Error) (rest : Result B) {last : B}
      → (require condition exception >> rest) ≡ ok last
      → (condition ≡ true) × (rest ≡ ok last)
  require_ok false exception rest returns = cc
  require_ok true exception rest returns = (refl, returns)

  pub ok_inj : {a b : B} → ok a ≡ ok b → a ≡ b
  ok_inj same = cc

  pub Result-cases :
      (result : Result B) → ((value : B) × (result ≡ ok value)) ⊎ ((e : Error) × (result ≡ err e))
  Result-cases (err e) = inr (e, refl)
  Result-cases (ok value) = inl (value, refl)

pub require_iff :
    (condition : Bool) (e : Error) → (require condition e ≡ ok tt) ↔ (condition ≡ true)
require_iff condition e = ground arith
