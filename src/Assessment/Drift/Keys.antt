-- ===== src/Assessment/Drift/Keys.antt =====
-- Which coordinates have a DRIFT result.
use mathlib.Core.Path.{subst}
use kosa_aws.Assessment.Drift.{
  Key, add_keys, by_rule, decision, derive_drift_results, drift_each, drift_result, has_key, key_eq,
  key_of, ordered_keys, present_one, require_comparable, result_at,
}
use kosa_aws.Assessment.Results.{EvaluationResult, same_perspective}
use kosa_aws.Base.{
  Bool, Bool-cases, List, Option, [], ap, arith, eq_iff, false, if◌then◌else◌, inl, inr, map, none,
  not, refl, some, sym, true, ◌++◌, ◌||◌, ◌↔◌, ◌∙◌, ◌∷◌, ◌≡◌,
}
use kosa_aws.Errors.{bind_ok, ok, ok_inj, require_ok}
use kosa_aws.Evidence.Binding.{EvaluationPerspective, aws_actual, drift_view, iac}

pub key_eq_iff : (a b : Key) → (key_eq a b ≡ true) ↔ (a ≡ b)
unfolding key_eq
key_eq_iff a b =
    let resources = eq_iff a.resource_id b.resource_id in
    let rules = eq_iff a.rule_id b.rule_id in
    let versions = eq_iff a.rule_version b.rule_version in
    (
      λ h. ground (arith, resources, rules, versions, h),
      λ h. ground (arith, resources, rules, versions, h),
    )

-- A result that is there has this key.
abbrev KeyIs : Key → Option EvaluationResult → Type 0
KeyIs k none = Unit
KeyIs k (some r) = key_of r ≡ k

result_at-key : (rs : List EvaluationResult) (k : Key) → KeyIs k (result_at rs k)
unfolding result_at
result_at-key [] k = tt
result_at-key (r ∷ rs) k = elim (Bool-cases (key_eq (key_of r) k)) [
  | inl same ↦ rw same ((key_eq_iff (key_of r) k).0 same)
  | inr differ ↦ rw differ (result_at-key rs k)
]

present_one-key :
    (k : Key) (i a : Option EvaluationResult) {p : EvaluationResult}
    → KeyIs k i
    → KeyIs k a
    → present_one i a ≡ ok p
    → key_of p ≡ k
present_one-key k i (some a) hi ha h = ap key_of (sym (ok_inj h)) ∙ ha
present_one-key k (some i) none hi ha h = ap key_of (sym (ok_inj h)) ∙ hi
present_one-key k none none hi ha h = cc

drift_result-key :
    (k : Key) (i a : Option EvaluationResult) {r : EvaluationResult}
    → KeyIs k i
    → KeyIs k a
    → drift_result i a ≡ ok r
    → (key_of r ≡ k) × (r.perspective ≡ drift_view) × (r.status ≡ (decision i a).0)
unfolding drift_result key_of
drift_result-key k i a {r} hi ha h =
    let (p, hp, h1) = bind_ok (present_one i a) _ h in
    let (_, _, h2) = bind_ok (require_comparable i a) _ h1 in
    subst
      (λ (r : EvaluationResult).
        (key_of r ≡ k) × (r.perspective ≡ drift_view) × (r.status ≡ (decision i a).0))
      (ok_inj h2) (present_one-key k i a hi ha hp, refl, refl)

-- The results stand beside the keys, each one the comparison at its key.
abbrev pub Compares :
    List EvaluationResult → List EvaluationResult → List Key → List EvaluationResult → Type 0
Compares is actuals [] [] = Unit
Compares is actuals (k ∷ ks) (r ∷ rs) =
    (key_of r ≡ k)
    × (r.perspective ≡ drift_view)
    × (r.status ≡ (decision (result_at is k) (result_at actuals k)).0)
    × Compares is actuals ks rs
Compares is actuals _ _ = ⊥

drift_each-Compares :
    (is actuals : List EvaluationResult) (ks : List Key) {rs : List EvaluationResult}
    → drift_each is actuals ks ≡ ok rs
    → Compares is actuals ks rs
unfolding drift_each
drift_each-Compares is actuals [] h = subst (Compares is actuals []) (ok_inj h) tt
drift_each-Compares is actuals (k ∷ ks) h =
    let (r, hr, h1) = bind_ok (drift_result (result_at is k) (result_at actuals k)) _ h in
    let (rest, hrest, h2) = bind_ok (drift_each is actuals ks) _ h1 in
    let (key, view, status) =
      drift_result-key k _ _ (result_at-key is k) (result_at-key actuals k) hr in
    subst (Compares is actuals (k ∷ ks)) (ok_inj h2)
      (key, view, status, drift_each-Compares is actuals ks hrest)

by_rule-same :
    (rs : List EvaluationResult) (p : EvaluationPerspective) (seen : List Key)
    {out : List EvaluationResult}
    → by_rule rs p seen ≡ ok out
    → out ≡ rs
unfolding by_rule
by_rule-same [] p seen h = sym (ok_inj h)
by_rule-same (r ∷ rs) p seen h =
    let (_, h1) = require_ok (same_perspective r.perspective p) _ _ h in
    let (_, h2) = require_ok (not (has_key seen (key_of r))) _ _ h1 in
    let (rest, hr, h3) = bind_ok (by_rule rs p (key_of r ∷ seen)) _ h2 in
    sym (ok_inj h3) ∙ ap (λ x. r ∷ x) (by_rule-same rs p (key_of r ∷ seen) hr)

-- A key of the results, of the first list or of the second.
abbrev pub keys_of : List EvaluationResult → List Key
keys_of rs = map key_of rs

has_key-append :
    (ks ls : List Key) (k : Key) → has_key (ks ++ ls) k ≡ (has_key ks k || has_key ls k)
unfolding has_key
has_key-append [] ls k = refl
has_key-append (l ∷ ks) ls k = ground (arith, has_key-append ks ls k)

has_key-same :
    (ks : List Key) (k l : Key) → has_key ks k ≡ true → key_eq k l ≡ true → has_key ks l ≡ true
has_key-same ks k l h same = subst (λ x. has_key ks x ≡ true) ((key_eq_iff k l).0 same) h

has_key-cons :
    (l : Key) (ks : List Key) (k : Key) → has_key (l ∷ ks) k ≡ (key_eq l k || has_key ks k)
unfolding has_key
has_key-cons l ks k = refl

empty_key : (k : Key) → has_key [] k ≡ false
unfolding has_key
empty_key k = refl

added :
    (b : Bool) (keys : List Key) (l k : Key)
    → (has_key keys l ≡ b)
    → has_key (if b then keys else keys ++ (l ∷ [])) k ≡ (has_key keys k || key_eq l k)
added true keys l k h = elim (Bool-cases (key_eq l k)) [
  | inl same ↦ ground (arith, has_key-same keys l k h same, same)
  | inr differ ↦ ground (arith, differ)
]
added false keys l k h =
    ground (arith, has_key-append keys (l ∷ []) k, has_key-cons l [] k, empty_key k)

add_keys-has :
    (keys : List Key) (rs : List EvaluationResult) (k : Key)
    → has_key (add_keys keys rs) k ≡ (has_key keys k || has_key (keys_of rs) k)
unfolding add_keys
add_keys-has keys [] k = ground (arith, empty_key k)
add_keys-has keys (r ∷ rs) k = ground (
  arith,
  add_keys-has (if has_key keys (key_of r) then keys else keys ++ (key_of r ∷ [])) rs k,
  added (has_key keys (key_of r)) keys (key_of r) k refl,
  has_key-cons (key_of r) (keys_of rs) k,
)

-- No key stands twice.
abbrev pub Distinct : List Key → Type 0
Distinct [] = Unit
Distinct (k ∷ ks) = (has_key ks k ≡ false) × Distinct ks

key_eq-flip : (k l : Key) → key_eq k l ≡ false → key_eq l k ≡ false
key_eq-flip k l h = elim (Bool-cases (key_eq l k)) [
  | inl same ↦ cc (h, (key_eq_iff k l).1 (sym ((key_eq_iff l k).0 same)))
  | inr differ ↦ differ
]

append-Distinct :
    (ks : List Key) (l : Key) → Distinct ks → has_key ks l ≡ false → Distinct (ks ++ (l ∷ []))
append-Distinct [] l d h = (empty_key l, tt)
append-Distinct (k ∷ ks) l (new, d) h =
    let apart = key_eq-flip k l (ground (arith, has_key-cons k ks l, h)) in
    (
      ground (arith, has_key-append ks (l ∷ []) k, has_key-cons l [] k, empty_key k, new, apart),
      append-Distinct ks l d (ground (arith, has_key-cons k ks l, h)),
    )

added-Distinct :
    (b : Bool) (keys : List Key) (l : Key)
    → has_key keys l ≡ b
    → Distinct keys
    → Distinct (if b then keys else keys ++ (l ∷ []))
added-Distinct true keys l h d = d
added-Distinct false keys l h d = append-Distinct keys l d h

add_keys-Distinct :
    (keys : List Key) (rs : List EvaluationResult) → Distinct keys → Distinct (add_keys keys rs)
unfolding add_keys
add_keys-Distinct keys [] d = d
add_keys-Distinct keys (r ∷ rs) d =
    add_keys-Distinct (if has_key keys (key_of r) then keys else keys ++ (key_of r ∷ [])) rs
      (added-Distinct (has_key keys (key_of r)) keys (key_of r) refl d)

-- The derived results stand one to one beside distinct keys, and these are exactly the keys of the IaC and
-- of the Actual results: each one is a DRIFT result of its coordinate, with the status of the comparison of
-- the two results there.
pub derive_drift_results-Compares :
    (is actuals : List EvaluationResult) {rs : List EvaluationResult}
    → derive_drift_results is actuals ≡ ok rs
    → (ks : List Key) × Compares is actuals ks rs
      × Distinct ks
      × ((k : Key) → has_key ks k ≡ (has_key (keys_of is) k || has_key (keys_of actuals) k))
unfolding derive_drift_results ordered_keys
derive_drift_results-Compares is actuals {rs} h =
    let (xs, hx, h1) = bind_ok (by_rule is iac []) _ h in
    let (ys, hy, h2) = bind_ok (by_rule actuals aws_actual []) _ h1 in
    let plain_each : drift_each is actuals (ordered_keys is actuals) ≡ ok rs =
      rw (by_rule-same is iac [] hx, by_rule-same actuals aws_actual [] hy) at h2 in
    (
      ordered_keys is actuals,
      drift_each-Compares is actuals (ordered_keys is actuals) plain_each,
      add_keys-Distinct (add_keys [] is) actuals (add_keys-Distinct [] is tt),
      λ k.
          ground
            (arith, add_keys-has (add_keys [] is) actuals k, add_keys-has [] is k, empty_key k),
    )
