-- ===== src/Policy/Remediation/Exempt.antt =====
-- apps/backend/policy/remediation.py: which exception exempts a finding, and the notes on exempt findings.
-- `key` of the minimum: a resource comes before the whole rule, then the identifiers are compared.
pub mod Narrowest
pub mod Total
use kosa_aws.Assessment.Findings.{Finding}
use kosa_aws.Base.{
  Bool, List, Option, String, [], false, if◌then◌else◌, is_some, leb, none, not, some, text_lt, ℕ,
  ◌&&◌, ◌||◌, ◌∷◌,
}
use kosa_aws.Errors.{Result, ok, require, value_error, ◌>>=◌, ◌>>◌}
use kosa_aws.Jobs.Model.{require_non_empty_string, require_optional_non_empty_string}
use kosa_aws.Policy.Remediation.{
  RemediationException, RemediationExceptionReason, bool_eq, covers, is_in_force_for,
  require_offset_aware_timestamp,
}

unfoldable pub key_lt : RemediationException → RemediationException → Bool
unfolding text_lt
key_lt a b =
    (is_some a.resource_id && not (is_some b.resource_id))
    || (bool_eq (is_some a.resource_id) (is_some b.resource_id)
        && text_lt a.exception_id b.exception_id)

-- `min`, which keeps the first of equal ones
unfoldable pub narrowest : RemediationException → List RemediationException → RemediationException
unfolding key_lt
narrowest best [] = best
narrowest best (e ∷ es) = narrowest (if key_lt e best then e else best) es

abbrev pub narrowest_of : List RemediationException → Option RemediationException
narrowest_of [] = none
narrowest_of (e ∷ es) = some (narrowest e es)

-- `FindingSuppression`
pub record FindingSuppression : Type 0 where
  pub finding_id : String
  pub exception_id : String
  pub reason : RemediationExceptionReason
  pub expires_at : String
  pub ticket_reference : Option String

-- The note on a finding where an exception was selected.
abbrev pub suppression : Finding → RemediationException → FindingSuppression
suppression finding e = record {
  finding_id = finding.finding_id;
  exception_id = e.exception_id;
  reason = e.reason;
  expires_at = e.expires_at;
  ticket_reference = e.ticket_reference;
}

module _ (instant : String → Option ℕ) where
  -- The loop of `select_in_force_exception`.
  unfoldable pub in_force :
      Finding → String → ℕ → ℕ → List RemediationException → Result (List RemediationException)
  unfolding covers is_in_force_for
  in_force finding customer_id evaluated_at moment [] = ok []
  in_force finding customer_id evaluated_at moment (e ∷ es) = do
    covered ← covers e customer_id finding.rule_id finding.rule_version finding.resource_id
    matches ← if covered then is_in_force_for instant e evaluated_at moment else ok false
    rest ← in_force finding customer_id evaluated_at moment es
    ok (if matches then e ∷ rest else rest)

  unfoldable pub select_in_force_exception :
      Finding → String → ℕ → ℕ → List RemediationException → Result (Option RemediationException)
  unfolding in_force
  select_in_force_exception finding customer_id evaluated_at moment exceptions = do
    require (leb evaluated_at moment) value_error
    matches ← in_force finding customer_id evaluated_at moment exceptions
    ok (narrowest_of matches)

  -- `FindingSuppression.__post_init__`
  unfoldable pub suppression_post_init : FindingSuppression → Result FindingSuppression
  unfolding require_non_empty_string require_optional_non_empty_string
      require_offset_aware_timestamp
  suppression_post_init n = do
    require_non_empty_string n.finding_id
    require_non_empty_string n.exception_id
    _ ← require_offset_aware_timestamp instant n.expires_at
    require_optional_non_empty_string n.ticket_reference
    ok n

  -- One round of the loop of `annotate_suppressed_findings`, by the time that the finding records: the note
  -- of the finding, if it has one.
  unfoldable pub suppression_at :
      String
      → ℕ
      → List RemediationException
      → Finding
      → Option String
      → Result (Option FindingSuppression)
  unfolding select_in_force_exception suppression_post_init
  suppression_at customer_id moment exceptions finding none = ok none
  suppression_at customer_id moment exceptions finding (some recorded) = do
    evaluated_at ← require_offset_aware_timestamp instant recorded
    selected ← select_in_force_exception finding customer_id evaluated_at moment exceptions
    elim selected [
      | none ↦ ok none
      | some e ↦ suppression_post_init (suppression finding e) >>= λ n. ok (some n)
    ]

  unfoldable pub annotate_each :
      String → ℕ → List RemediationException → List Finding → Result (List FindingSuppression)
  unfolding suppression_at
  annotate_each customer_id moment exceptions [] = ok []
  annotate_each customer_id moment exceptions (f ∷ fs) = do
    first ← suppression_at customer_id moment exceptions f f.evaluated_at
    rest ← annotate_each customer_id moment exceptions fs
    ok (elim first [ none ↦ rest | some n ↦ n ∷ rest ])

  unfoldable pub annotate_suppressed_findings :
      List Finding → String → List RemediationException → ℕ → Result (List FindingSuppression)
  unfolding annotate_each require_non_empty_string
  annotate_suppressed_findings findings customer_id exceptions moment = do
    require_non_empty_string customer_id
    annotate_each customer_id moment exceptions findings
