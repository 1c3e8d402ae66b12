-- ===== src/Policy/Remediation/Noted.antt =====
-- The notes that are shown on findings agree with the decisions that are made on them.
use kosa_aws.Assessment.Findings.{Finding}
use kosa_aws.Base.{
  All, List, Option, String, [], ap, none, refl, some, sym, ℕ, ◌↔◌, ◌∙◌, ◌∷◌, ◌≡◌, ◌≢◌,
}
use kosa_aws.Errors.{bind_ok, ok, ◌>>=◌}
use kosa_aws.Jobs.Model.{require_non_empty_string}
use kosa_aws.Policy.Remediation.{
  RemediationDecision, RemediationEligibility, RemediationException, RemediationRuleScope,
  RemediationTarget, require_offset_aware_timestamp, suppressed,
}
use kosa_aws.Policy.Remediation.Decide.{check_arguments, decide}
use kosa_aws.Policy.Remediation.Decided.{Says, decide_selected, selected-Times}
use kosa_aws.Policy.Remediation.Exempt.{
  FindingSuppression, annotate_each, annotate_suppressed_findings, select_in_force_exception,
  suppression, suppression_at, suppression_post_init,
}
use kosa_aws.Policy.Remediation.Exempt.Narrowest.{id_of, select_in_force_exception-Selects}
use kosa_aws.Policy.Remediation.Exempt.Total.{Made, Named, Times, named_ok}

abbrev pub note_id : Option FindingSuppression → Option String
note_id none = none
note_id (some n) = some n.exception_id

abbrev pub notes_of : Option FindingSuppression → List FindingSuppression
notes_of none = []
notes_of (some n) = n ∷ []

-- The identifier of the exception in a decision of which it is said what was selected.
Says-exception :
    (f : Finding) (t : RemediationTarget) (commit_sha : String)
    (eligibility : Option RemediationEligibility) (selected : Option RemediationException)
    (d : RemediationDecision)
    → Says f t commit_sha eligibility selected d
    → ((d.action ≡ suppressed) ↔ (selected ≢ none)) × (d.exception_id ≡ id_of selected)
Says-exception f t commit_sha eligibility none d says =
    ((λ e. absurd (says.0 e), λ h. absurd (h refl)), says.1)
Says-exception f t commit_sha eligibility (some e) d says = (((λ _ h. cc), λ _. says.0), says.1)

module _ (instant : String → Option ℕ) where
  suppression-ok :
      (f : Finding) (e : RemediationException)
      → Named f
      → Times instant e
      → suppression_post_init instant (suppression f e) ≡ ok (suppression f e)
  unfolding suppression_post_init
  suppression-ok f e is_named times =
      rw (named_ok f.finding_id is_named.finding_id, times.is_named, times.ends, times.has_ticket)
        refl

  -- The note that the loop makes of a selection.
  abbrev noted : Finding → Option RemediationException → Option FindingSuppression
  noted f none = none
  noted f (some e) = some (suppression f e)

  round-noted :
      (f : Finding) (selected : Option RemediationException)
      → Named f
      → ((e : RemediationException) → selected ≡ some e → Times instant e)
      → (elim selected [
        | none ↦ ok none
        | some e ↦ suppression_post_init instant (suppression f e) >>= λ n. ok (some n)
      ])
        ≡ ok (noted f selected)
  round-noted f none is_named times = refl
  round-noted f (some e) is_named times = rw (suppression-ok f e is_named (times e refl)) refl

  suppression_at-noted :
      (f : Finding) (customer_id evaluated : String) (evaluated_at moment : ℕ)
      (exceptions : List RemediationException) (selected : Option RemediationException)
      → Named f
      → All (Made instant) exceptions
      → require_offset_aware_timestamp instant evaluated ≡ ok evaluated_at
      → select_in_force_exception instant f customer_id evaluated_at moment exceptions ≡ ok selected
      → suppression_at instant customer_id moment exceptions f (some evaluated)
        ≡ ok (noted f selected)
  unfolding suppression_at
  suppression_at-noted f customer_id evaluated evaluated_at moment exceptions selected is_named made
        reads selects =
      let says =
        select_in_force_exception-Selects instant f customer_id evaluated_at moment exceptions
          selected selects in
      rw (reads, selects)
        (round-noted f selected is_named
          (selected-Times instant f customer_id evaluated_at moment exceptions selected says made))

  -- A list of one finding.
  one_round :
      (customer_id : String) (f : Finding) (moment : ℕ) (exceptions : List RemediationException)
      (note : Option FindingSuppression)
      → require_non_empty_string customer_id ≡ ok tt
      → suppression_at instant customer_id moment exceptions f f.evaluated_at ≡ ok note
      → annotate_suppressed_findings instant (f ∷ []) customer_id exceptions moment
        ≡ ok (notes_of note)
  unfolding annotate_suppressed_findings annotate_each
  one_round customer_id f moment exceptions none has_customer h = rw (has_customer, h) refl
  one_round customer_id f moment exceptions (some n) has_customer h = rw (has_customer, h) refl

  noted_iff :
      (f : Finding) (selected : Option RemediationException)
      → ((noted f selected ≢ none) ↔ (selected ≢ none))
        × (note_id (noted f selected) ≡ id_of selected)
  noted_iff f none = (((λ h _. h refl), λ h _. h refl), refl)
  noted_iff f (some e) = (((λ _ h. cc), λ _ h. cc), refl)

  module _ (scopes : List RemediationRuleScope) where
    -- For a named finding that records when it was evaluated, constructed exceptions and arguments that pass
    -- the checks, both the decision and the notes on the list of that one finding are made, the decision is SUPPRESSED exactly if there is a
    -- note, and both name the same exception.
    pub annotate-decide :
        (f : Finding) (customer_id : String) (t : RemediationTarget) (commit_sha evaluated : String)
        (evaluated_at moment : ℕ) (exceptions : List RemediationException)
        → Named f
        → All (Made instant) exceptions
        → check_arguments f customer_id t commit_sha evaluated_at moment ≡ ok tt
        → f.evaluated_at ≡ some evaluated
        → require_offset_aware_timestamp instant evaluated ≡ ok evaluated_at
        → (d : RemediationDecision) × (note : Option FindingSuppression) × (decide instant scopes f
              customer_id t commit_sha evaluated_at moment exceptions
            ≡ ok d)
          × (annotate_suppressed_findings instant (f ∷ []) customer_id exceptions moment
              ≡ ok (notes_of note))
          × ((d.action ≡ suppressed) ↔ (note ≢ none))
          × (note_id note ≡ d.exception_id)
    unfolding check_arguments
    annotate-decide f customer_id t commit_sha evaluated evaluated_at moment exceptions is_named
          made passes recorded reads =
        let (d, selected, decided, selects, says) =
          decide_selected instant scopes f customer_id t commit_sha evaluated_at moment exceptions
            is_named made passes in
        let (acts, ids) = Says-exception f t commit_sha _ selected d says in
        let (there, note_ids) = noted_iff f selected in
        let (_, has_customer, _) = bind_ok (require_non_empty_string customer_id) _ passes in
        (
          d,
          noted f selected,
          decided,
          one_round customer_id f moment exceptions (noted f selected) has_customer (
              ap (suppression_at instant customer_id moment exceptions f) recorded
              ∙ suppression_at-noted f customer_id evaluated evaluated_at moment exceptions selected
                  is_named made reads selects),
          ((λ h. there.1 (acts.0 h)), λ h. acts.1 (there.0 h)),
          note_ids ∙ sym ids,
        )
