-- ===== src/Assessment/Drift.antt =====
-- apps/backend/assessment/drift.py: the DRIFT results of two perspectives.
pub mod Decided
pub mod Keys
use kosa_aws.Assessment.Results.{EvaluationResult, by_code, same_perspective, same_source}
use kosa_aws.Base.{
  Bool, List, Option, String, [], any, contains, false, if◌then◌else◌, none, not, some, true, ℕ,
  ◌&&◌, ◌++◌, ◌==◌, ◌∷◌,
}
use kosa_aws.Errors.{Result, drift_derivation_error, err, ok, require, ◌>>=◌, ◌>>◌}
use kosa_aws.Evidence.Binding.{EvaluationPerspective, aws_actual, drift_view, iac}
use kosa_aws.Evidence.Verdict.{
  EvaluationStatus, execution_error, fail, manual_review_needed, out_of_scope, pass,
}

-- `_key`
pub record Key : Type 0 where
  pub resource_id : String
  pub rule_id : String
  pub rule_version : String

unfoldable pub key_of : EvaluationResult → Key
key_of r = record {
  resource_id = r.resource_id;
  rule_id = r.rule_id;
  rule_version = r.rule_version;
}

unfoldable pub key_eq : Key → Key → Bool
key_eq a b =
    a.resource_id == b.resource_id && a.rule_id == b.rule_id && a.rule_version == b.rule_version

unfoldable pub has_key : List Key → Key → Bool
unfolding key_eq
has_key keys k = any (λ l. key_eq l k) keys

-- `_by_rule`: the checks; the index is the list itself, whose keys are distinct.
unfoldable pub by_rule :
    List EvaluationResult → EvaluationPerspective → List Key → Result (List EvaluationResult)
unfolding has_key key_of same_perspective
by_rule [] perspective seen = ok []
by_rule (r ∷ rs) perspective seen = do
  require (same_perspective r.perspective perspective) drift_derivation_error
  require (not (has_key seen (key_of r))) drift_derivation_error
  rest ← by_rule rs perspective (key_of r ∷ seen)
  ok (r ∷ rest)

-- `indexed.get(key)`
unfoldable pub result_at : List EvaluationResult → Key → Option EvaluationResult
unfolding key_eq key_of
result_at [] k = none
result_at (r ∷ rs) k = if key_eq (key_of r) k then some r else result_at rs k

-- `if key not in keys: keys.append(key)`
unfoldable pub add_keys : List Key → List EvaluationResult → List Key
unfolding has_key key_of
add_keys keys [] = keys
add_keys keys (r ∷ rs) =
    add_keys (if has_key keys (key_of r) then keys else keys ++ (key_of r ∷ [])) rs

unfoldable pub ordered_keys : List EvaluationResult → List EvaluationResult → List Key
unfolding add_keys
ordered_keys iac_results actual = add_keys (add_keys [] iac_results) actual

-- `_decisive`
unfoldable pub decisive : EvaluationStatus → Option Bool
decisive pass = some true
decisive fail = some false
decisive _ = none

-- The rest of `_decision` where neither status is an execution error, by the two decisive values.
unfoldable pub compared : Bool → Option Bool → Option Bool → EvaluationStatus × ℕ
compared same_origin (some true) (some true) = (pass, 100)
compared same_origin (some false) (some false) = (pass, 100)
compared same_origin (some _) (some _) =
    if same_origin then (fail, 0) else (manual_review_needed, 0)
compared same_origin _ _ = (manual_review_needed, 0)

-- The rest of `_decision` where both perspectives have a result.
unfoldable pub both_decision : Bool → EvaluationStatus → EvaluationStatus → EvaluationStatus × ℕ
unfolding decisive compared
both_decision same_origin execution_error b = (execution_error, 0)
both_decision same_origin out_of_scope out_of_scope = (out_of_scope, 100)
both_decision same_origin a execution_error = (execution_error, 0)
both_decision same_origin a b = compared same_origin (decisive a) (decisive b)

-- `_decision`: status and score
unfoldable pub decision : Option EvaluationResult → Option EvaluationResult → EvaluationStatus × ℕ
unfolding both_decision same_source
decision (some i) (some a) = both_decision (same_source i.decided_by a.decided_by) i.status a.status
decision _ _ = (manual_review_needed, 0)

-- `_evidence`
unfoldable pub add_references : List String → List String → List String
add_references references [] = references
add_references references (r ∷ rs) =
    add_references (if contains references r then references else references ++ (r ∷ [])) rs

abbrev pub references_of : Option EvaluationResult → List String
references_of none = []
references_of (some r) = r.evidence_references

unfoldable pub evidence : Option EvaluationResult → Option EvaluationResult → List String
unfolding add_references
evidence i a = add_references (add_references [] (references_of i)) (references_of a)

-- `_drift_result`: the checks on two results
unfoldable pub require_comparable :
    Option EvaluationResult → Option EvaluationResult → Result (Unit {0})
require_comparable (some i) (some a) = do
  require (i.severity == a.severity) drift_derivation_error
  require (i.model_profile_id == a.model_profile_id) drift_derivation_error
  require (i.rubric_version == a.rubric_version) drift_derivation_error
require_comparable _ _ = ok tt

-- `iac if actual is None else actual`, which must be there
abbrev pub present_one : Option EvaluationResult → Option EvaluationResult → Result EvaluationResult
present_one i (some a) = ok a
present_one (some i) none = ok i
present_one none none = err drift_derivation_error

unfoldable pub drift_result :
    Option EvaluationResult → Option EvaluationResult → Result EvaluationResult
unfolding require_comparable decision evidence
drift_result i a = do
  present ← present_one i a
  require_comparable i a
  let (status, score) = decision i a
  ok (record present {
    perspective = drift_view;
    status = status;
    score = score;
    evidence_references = evidence i a;
    decided_by = by_code;
  })

unfoldable pub drift_each :
    List EvaluationResult → List EvaluationResult → List Key → Result (List EvaluationResult)
unfolding drift_result result_at
drift_each iac_results actual_results [] = ok []
drift_each iac_results actual_results (k ∷ ks) = do
  first ← drift_result (result_at iac_results k) (result_at actual_results k)
  rest ← drift_each iac_results actual_results ks
  ok (first ∷ rest)

unfoldable pub derive_drift_results :
    List EvaluationResult → List EvaluationResult → Result (List EvaluationResult)
unfolding by_rule ordered_keys drift_each
derive_drift_results iac_results actual_results = do
  indexed_iac ← by_rule iac_results iac []
  indexed_actual ← by_rule actual_results aws_actual []
  drift_each indexed_iac indexed_actual (ordered_keys iac_results indexed_actual)
