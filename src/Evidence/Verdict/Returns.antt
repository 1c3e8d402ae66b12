-- ===== src/Evidence/Verdict/Returns.antt =====
-- The check of the declared paths before an evaluation is enough for the evaluation to return.
use kosa_aws.Base.{
  All, Bool, List, Option, String, [], false, is_empty, none, refl, some, true, ◌++◌, ◌∷◌, ◌≡◌, ◌≢◌,
}
use kosa_aws.Errors.{bind_ok, deterministic_evaluation_error, err, ok, ok_inj}
use kosa_aws.Evidence.Binding.{
  EvidenceCapabilityBinding, EvidenceExpectation, all_equal, all_false, all_in, all_true,
  judged_paths, no_public_ingress, non_empty, none_equal,
}
use kosa_aws.Evidence.Json.{Json}
use kosa_aws.Evidence.Lookup.{document_path_present, document_path_values, values}
use kosa_aws.Evidence.Lookup.Present.{present_at-values}
use kosa_aws.Evidence.Path.{parse_document_path}
use kosa_aws.Evidence.Verdict.{
  DeterministicVerdict, Observation, decide_document, meets, observe, observe_all, observe_bindings,
  observe_paths, satisfies, verdict_from_observations,
}
use kosa_aws.Evidence.Verdict.Outcome.{verdict_of}

-- A predicate that reads any value; only `NO_PUBLIC_INGRESS` refuses some.
abbrev pub Reads : EvidenceCapabilityBinding → Type 0
Reads b = (e : EvidenceExpectation) × (b.expectation ≡ some e) × (e ≢ no_public_ingress)

-- Ready for `decide`: a predicate, at least one judged path, and each of them present.
pub record Prepared (d : Json) (b : EvidenceCapabilityBinding) : Type 0 where
  pub reads : Reads b
  pub judges : is_empty (judged_paths b) ≡ false
  pub present : All (λ path. document_path_present d path ≡ ok true) (judged_paths b)

path_values :
    (d : Json) (path : String)
    → document_path_present d path ≡ ok true
    → (vs : List Json) × (document_path_values d path ≡ ok vs) × (is_empty vs ≡ false)
unfolding document_path_present document_path_values
path_values d path h =
    let (segments, hs, h1) = bind_ok (parse_document_path path) _ h in
    (values segments d, rw hs refl, (present_at-values segments d (ok_inj h1)).0)

not_empty_append : {A : Type 0} (xs ys : List A) → is_empty xs ≡ false → is_empty (xs ++ ys) ≡ false
not_empty_append [] ys h = cc
not_empty_append (x ∷ xs) ys h = refl

module _ (casefold : String → String) where
  meets-returns :
      (b : EvidenceCapabilityBinding) (e : EvidenceExpectation) (v : Json)
      → e ≢ no_public_ingress
      → (s : Bool) × (meets casefold b e v ≡ ok s)
  unfolding meets
  meets-returns b all_true v h = (_, refl)
  meets-returns b all_false v h = (_, refl)
  meets-returns b non_empty v h = (_, refl)
  meets-returns b all_equal v h = (_, refl)
  meets-returns b none_equal v h = (_, refl)
  meets-returns b all_in v h = (_, refl)
  meets-returns b no_public_ingress v h = absurd (h refl)

  chosen-returns :
      (b : EvidenceCapabilityBinding) (v : Json) (o : Option EvidenceExpectation)
      (e : EvidenceExpectation)
      → o ≡ some e
      → e ≢ no_public_ingress
      → (s : Bool) × (elim o [
        | none ↦ err deterministic_evaluation_error
        | some e ↦ meets casefold b e v
      ]
          ≡ ok s)
  chosen-returns b v none e h n = cc
  chosen-returns b v (some e') e h n = meets-returns b e' v λ k. n cc

  satisfies-returns :
      (b : EvidenceCapabilityBinding) (v : Json)
      → Reads b
      → (s : Bool) × (satisfies casefold b v ≡ ok s)
  unfolding satisfies
  satisfies-returns b v (e, he, hn) = chosen-returns b v b.expectation e he hn

  observe_all-returns :
      (b : EvidenceCapabilityBinding) (path : String) (vs : List Json)
      → Reads b
      → (os : List Observation) × (observe_all casefold b path vs ≡ ok os)
        × (is_empty vs ≡ false → is_empty os ≡ false)
  unfolding observe_all observe
  observe_all-returns b path [] r = ([], refl, λ h. h)
  observe_all-returns b path (v ∷ vs) r =
      let (s, hs) = satisfies-returns b v r in
      let (os, ho, _) = observe_all-returns b path vs r in
      (record { path = path; satisfied = s } ∷ os, rw (hs, ho) refl, λ _. refl)

  observe_paths-returns :
      (b : EvidenceCapabilityBinding) (d : Json) (paths : List String)
      → Reads b
      → All (λ path. document_path_present d path ≡ ok true) paths
      → (os : List Observation) × (observe_paths casefold b d paths ≡ ok os)
        × (is_empty paths ≡ false → is_empty os ≡ false)
  unfolding observe_paths
  observe_paths-returns b d [] r h = ([], refl, λ k. k)
  observe_paths-returns b d (path ∷ paths) r (h, hs) =
      let (vs, hv, some_value) = path_values d path h in
      let (os, ho, some_observation) = observe_all-returns b path vs r in
      let (rest, hr, _) = observe_paths-returns b d paths r hs in
      (
        os ++ rest,
        rw (hv, some_value, ho, hr) refl,
        λ _. not_empty_append os rest (some_observation some_value),
      )

  observe_bindings-returns :
      (bs : List EvidenceCapabilityBinding) (d : Json)
      → All (Prepared d) bs
      → (os : List Observation) × (observe_bindings casefold bs d ≡ ok os)
        × (is_empty bs ≡ false → is_empty os ≡ false)
  unfolding observe_bindings
  observe_bindings-returns [] d h = ([], refl, λ k. k)
  observe_bindings-returns (b ∷ bs) d (p, ps) =
      let (os, ho, some_observation) =
        observe_paths-returns b d (judged_paths b) p.reads p.present in
      let (rest, hr, _) = observe_bindings-returns bs d ps in
      (os ++ rest, rw (ho, hr) refl, λ _. not_empty_append os rest (some_observation p.judges))

  -- If every binding has a predicate other than `NO_PUBLIC_INGRESS`, judges a path and has all its
  -- judged paths present in the document, then `decide` returns a verdict: none of its refusals is
  -- reached.
  pub decide_document-returns :
      (bs : List EvidenceCapabilityBinding) (d : Json)
      → is_empty bs ≡ false
      → All (Prepared d) bs
      → (v : DeterministicVerdict) × (decide_document casefold bs d ≡ ok v)
  unfolding decide_document verdict_from_observations
  decide_document-returns bs d some_binding h =
      let (os, ho, some_observation) = observe_bindings-returns bs d h in
      (verdict_of os, rw (some_binding, ho, some_observation some_binding) refl)
