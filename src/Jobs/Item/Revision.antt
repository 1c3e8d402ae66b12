-- ===== src/Jobs/Item/Revision.antt =====
-- The revision of a job that is read back is the stored number.
use mathlib.Core.Path.{subst}
use kosa_aws.Base.{Option, ap, none, refl, some, sym, ℕ, ◌∙◌, ◌≡◌}
use kosa_aws.Deployment.Trace.{continue}
use kosa_aws.Errors.{Result, err, ok, ok_inj, ◌>>=◌}
use kosa_aws.Jobs.Item.{
  Attribute, Item, as_text, found, job_from_item, job_of_item, lookup, mapping, member_of, number,
  optional_text, or_invalid, status_value, statuses, step_value, steps, stored_error, stored_number,
  stored_revision, text,
}
use kosa_aws.Jobs.Lifecycle.Advance.{job_post_init-eq}
use kosa_aws.Jobs.Model.{Job}

revision_number :
    (o : Option Attribute) (a : Attribute) (n : ℕ)
    → found o ≡ ok a
    → stored_revision a ≡ ok n
    → (elim o [ some (number m) ↦ some m | _ ↦ none ]) ≡ some n
revision_number none a n p q = absurd (cc)
revision_number (some (number m)) (number k) n p q = cc
revision_number (some (number m)) (text s) n p q = absurd (cc)
revision_number (some (number m)) (mapping fields) n p q = absurd (cc)
revision_number (some (text s)) a n p q = absurd (
    let wrong : (stored_revision (text s) ≡ ok n) =
      subst (λ x. stored_revision x ≡ ok n) (ok_inj (sym p)) q in
    cc wrong)
revision_number (some (mapping fields)) a n p q = absurd (
    let wrong : (stored_revision (mapping fields) ≡ ok n) =
      subst (λ x. stored_revision x ≡ ok n) (ok_inj (sym p)) q in
    cc wrong)

-- What follows a step that returned, with the value of the step.
after :
    {A : Type 0} {P : Type 0} (step : Result A) {rest : A → Result Job} {last : Job}
    → (step >>= rest) ≡ ok last
    → ((value : A) → step ≡ ok value → rest value ≡ ok last → P)
    → P
after (err e) returns continue = absurd (cc)
after (ok value) returns continue = continue value refl returns

valid_ok : (r : Result Job) {j : Job} → or_invalid r ≡ ok j → r ≡ ok j
valid_ok (ok j) h = h
valid_ok (err e) h = absurd (cc)

pub job_from_item-revision :
    (item : Item) {j : Job}
    → job_from_item item ≡ ok j
    → stored_number "revision" item ≡ some j.revision
unfolding job_from_item job_of_item stored_number
job_from_item-revision item h =
    after (stored_error (lookup "error" item)) (valid_ok (job_of_item item) h) λ v0 _ h0.
      after (found (lookup "job_id" item)) h0 λ a1 _ h1. after (as_text a1) h1 λ v2 _ h2.
        after (found (lookup "customer_id" item)) h2 λ a3 _ h3. after (as_text a3) h3 λ v4 _ h4.
          after (found (lookup "job_type" item)) h4 λ a5 _ h5. after (as_text a5) h5 λ v6 _ h6.
            after (found (lookup "status" item)) h6 λ a7 _ h7. after (as_text a7) h7 λ s8 _ h8.
              after (found (member_of status_value statuses s8)) h8 λ v9 _ h9.
                after (found (lookup "current_step" item)) h9 λ a10 _ h10.
                  after (as_text a10) h10 λ s11 _ h11.
                    after (found (member_of step_value steps s11)) h11 λ v12 _ h12.
                      after (found (lookup "requested_by" item)) h12 λ a13 _ h13.
                        after (as_text a13) h13 λ v14 _ h14.
                          after (found (lookup "revision" item)) h14 λ attribute there r0.
                            after (stored_revision attribute) r0 λ n reads r1.
                              after (optional_text (lookup "assessment_id" item)) r1 λ l1 _ r2.
                                after (optional_text (lookup "remediation_id" item)) r2 λ l2 _ r3.
                                  after (optional_text (lookup "deployment_id" item)) r3 λ l3 _ r4.
                                    revision_number (lookup "revision" item) attribute n there reads
                                    ∙ ap (λ k. some (k.revision)) (sym (job_post_init-eq _ r4))
