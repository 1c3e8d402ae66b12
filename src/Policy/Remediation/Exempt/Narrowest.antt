-- ===== src/Policy/Remediation/Exempt/Narrowest.antt =====
-- Which exception is selected: the least of those in force, whatever their order.
use mathlib.Core.Path.{subst}
use mathlib.Core.Option.{some-injective}
use kosa_aws.Assessment.Findings.{Finding}
use kosa_aws.Base.{
  Bool, Bool-cases, In, In-kept, List, Option, String, [], ap, arith, false, if◌then◌else◌, inl,
  inr, is_some, leb, none, refl, some, text_lt, text_lt-connected, text_lt_trans, true, ℕ, ◌↔◌, ◌∷◌,
  ◌≡◌,
}
use kosa_aws.Errors.{Result, bind_ok, ok, ok_inj, require_ok}
use kosa_aws.Policy.Remediation.{RemediationException, covers, is_in_force_for}
use kosa_aws.Policy.Remediation.Exempt.{
  in_force, key_lt, narrowest, narrowest_of, select_in_force_exception,
}

-- The exception is addressed at the finding, and was approved before it was evaluated and has not expired.
abbrev pub Exempts : (String → Option ℕ) → RemediationException → Finding → String → ℕ → ℕ → Type 0
Exempts instant e finding customer_id evaluated_at moment =
    (covers e customer_id finding.rule_id finding.rule_version finding.resource_id ≡ ok true)
    × (is_in_force_for instant e evaluated_at moment ≡ ok true)

key_lt_trans :
    (a b c : RemediationException) → key_lt a b ≡ true → key_lt b c ≡ true → key_lt a c ≡ true
unfolding key_lt
key_lt_trans a b c p q = ground (arith, text_lt_trans a.exception_id b.exception_id c.exception_id)

-- Of two exceptions of which neither comes first, both have one identifier and one width.
key_lt-connected :
    (a b : RemediationException)
    → key_lt a b ≡ false
    → key_lt b a ≡ false
    → (a.exception_id ≡ b.exception_id) × (is_some a.resource_id ≡ is_some b.resource_id)
unfolding key_lt
key_lt-connected a b p q = ground (arith, text_lt-connected a.exception_id b.exception_id)

-- `e` is one of the exceptions and none of them comes before it.
abbrev Least : RemediationException → List RemediationException → Type 0
Least e es = In e es × ((x : RemediationException) → In x es → key_lt x e ≡ false)

key_lt-same :
    (a b c : RemediationException)
    → b.exception_id ≡ c.exception_id
    → is_some b.resource_id ≡ is_some c.resource_id
    → key_lt a b ≡ false
    → key_lt a c ≡ false
unfolding key_lt
key_lt-same a b c ids widths p = rw (ids, widths) at p

-- What does not come before one that does not come before a third does not come before that one.
key_lt-negative :
    (a b c : RemediationException) → key_lt a b ≡ false → key_lt b c ≡ false → key_lt a c ≡ false
key_lt-negative a b c p q = elim (Bool-cases (key_lt c b)) [
  | inl less ↦ ground (arith, key_lt_trans a c b)
  | inr more ↦ let (ids, widths) = key_lt-connected b c q more in key_lt-same a b c ids widths p
]

text_lt-irreflexive : (s : String) → text_lt s s ≡ false
unfolding text_lt
text_lt-irreflexive String.[] = refl
text_lt-irreflexive (String.◌∷◌ c s) = ground (arith, text_lt-irreflexive s)

key_lt-irreflexive : (a : RemediationException) → key_lt a a ≡ false
unfolding key_lt
key_lt-irreflexive a = ground (arith, text_lt-irreflexive a.exception_id)

-- One comparison of the minimum, by its outcome.
Least-cons :
    (best e m : RemediationException) (es : List RemediationException) (b : Bool)
    → key_lt e best ≡ b
    → Least m ((if b then e else best) ∷ es)
    → Least m (best ∷ (e ∷ es))
Least-cons best e m es true less (found, least) = (
  inr found,
  λ x i. elim i [
    | inl is_best ↦ rw is_best (ground (arith, key_lt_trans e best m, least e (inl refl)))
    | inr rest ↦ least x rest
  ],
)
Least-cons best e m es false more (found, least) = (
  elim found [ inl is_best ↦ inl is_best | inr rest ↦ inr (inr rest) ],
  λ x i. elim i [
    | inl is_best ↦ least x (inl is_best)
    | inr (inl is_e) ↦ rw is_e (key_lt-negative e best m more (least best (inl refl)))
    | inr (inr rest) ↦ least x (inr rest)
  ],
)

narrowest-Least :
    (best : RemediationException) (es : List RemediationException)
    → Least (narrowest best es) (best ∷ es)
unfolding narrowest
narrowest-Least best [] =
    (inl refl, λ x i. elim i [ inl e ↦ rw e (key_lt-irreflexive best) | inr never ↦ absurd never ])
narrowest-Least best (e ∷ es) =
    Least-cons best e _ es (key_lt e best) refl
      (narrowest-Least (if key_lt e best then e else best) es)

matches_iff :
    (a b : Result Bool) (covered matches : Bool)
    → a ≡ ok covered
    → (if covered then b else ok false) ≡ ok matches
    → (matches ≡ true) ↔ ((a ≡ ok true) × (b ≡ ok true))
matches_iff a b covered matches p q = ground arith

narrowest_of-Least :
    (ms : List RemediationException) {e : RemediationException}
    → narrowest_of ms ≡ some e
    → Least e ms
narrowest_of-Least [] {e} h = absurd (let wrong : (none ≡ some e) = h in cc wrong)
narrowest_of-Least (m ∷ ms) {e} h =
    subst (λ y. Least y (m ∷ ms)) (some-injective _ _ h) (narrowest-Least m ms)

narrowest_of-none :
    (ms : List RemediationException) (x : RemediationException) → narrowest_of ms ≡ none → ¬ In x ms
narrowest_of-none [] x h never = never
narrowest_of-none (m ∷ ms) x h i =
    let wrong : (some (narrowest m ms) ≡ none) = h in absurd (cc wrong)

-- The identifier of a selection, and whether it is for one resource.
abbrev pub id_of : Option RemediationException → Option String
id_of none = none
id_of (some e) = some e.exception_id

abbrev pub width_of : Option RemediationException → Option Bool
width_of none = none
width_of (some e) = some (is_some e.resource_id)

module _ (instant : String → Option ℕ) (finding : Finding) (customer_id : String)
    (evaluated_at moment : ℕ) where
  -- What the loop keeps are the exceptions of the list that exempt the finding.
  in_force-Exempts :
      (es : List RemediationException) {ms : List RemediationException}
      → in_force instant finding customer_id evaluated_at moment es ≡ ok ms
      → (x : RemediationException)
      → In x ms ↔ (In x es × Exempts instant x finding customer_id evaluated_at moment)
  unfolding in_force
  in_force-Exempts [] {ms} h x =
      subst (λ ms. In x ms ↔ (⊥ × Exempts instant x finding customer_id evaluated_at moment))
        (ok_inj h) (λ never. absurd never, λ n. absurd n.0)
  in_force-Exempts (e ∷ es) h x =
      let (covered, covers_e, h1) = bind_ok (covers e customer_id _ _ _) _ h in
      let forced : Result Bool = is_in_force_for instant e evaluated_at moment in
      let (matches, force, h2) = bind_ok (if covered then forced else ok false) _ h1 in
      let (rest, e2, h3) =
        bind_ok (in_force instant finding customer_id evaluated_at moment es) _ h2 in
      subst
        (λ ms.
          In x ms ↔ (In x (e ∷ es) × Exempts instant x finding customer_id evaluated_at moment))
        (ok_inj h3)
        (In-kept (λ y. Exempts instant y finding customer_id evaluated_at moment) e x rest es
          matches (matches_iff _ forced covered matches covers_e force) (in_force-Exempts es e2 x))

  -- What a selection says: a least one of the exceptions of the list that exempt the finding, or that
  -- there is none.
  abbrev pub Selects : Option RemediationException → List RemediationException → Type 0
  Selects none es =
      (x : RemediationException)
      → In x es
      → ¬ Exempts instant x finding customer_id evaluated_at moment
  Selects (some e) es =
      In e es
      × Exempts instant e finding customer_id evaluated_at moment
      × ((x : RemediationException)
          → In x es
          → Exempts instant x finding customer_id evaluated_at moment
          → key_lt x e ≡ false)

  -- Where `select_in_force_exception` returns an exception, it is one of the list that exempts the finding
  -- and none that exempts it is narrower or has a smaller identifier at the same width; where it returns
  -- none, no exception of the list exempts the finding.
  pub select_in_force_exception-Selects :
      (es : List RemediationException) (selected : Option RemediationException)
      → select_in_force_exception instant finding customer_id evaluated_at moment es ≡ ok selected
      → Selects selected es
  unfolding select_in_force_exception
  select_in_force_exception-Selects es selected h =
      let (_, h1) = require_ok (leb evaluated_at moment) _ _ h in
      let (ms, e, h2) =
        bind_ok (in_force instant finding customer_id evaluated_at moment es) _ h1 in
      of_matches ms selected (in_force-Exempts es e) (ok_inj h2)
    where
      of_matches :
          (ms : List RemediationException) (selected : Option RemediationException)
          → ((x : RemediationException)
              → In x ms ↔ (In x es × Exempts instant x finding customer_id evaluated_at moment))
          → narrowest_of ms ≡ selected
          → Selects selected es
      of_matches ms none iff e = λ x i exempts. narrowest_of-none ms x e ((iff x).1 (i, exempts))
      of_matches ms (some first) iff e =
          let (found, least) = narrowest_of-Least ms e in
          let (listed, exempts) = (iff first).0 found in
          (listed, exempts, λ x i applies. least x ((iff x).1 (i, applies)))

  -- Two lists of the same exceptions, in whatever order and number, select exceptions of one identifier
  -- and one width, or both none.
  pub select_in_force_exception-order :
      (es fs : List RemediationException) (a b : Option RemediationException)
      → ((x : RemediationException) → In x es ↔ In x fs)
      → select_in_force_exception instant finding customer_id evaluated_at moment es ≡ ok a
      → select_in_force_exception instant finding customer_id evaluated_at moment fs ≡ ok b
      → (id_of a ≡ id_of b) × (width_of a ≡ width_of b)
  select_in_force_exception-order es fs a b same p q =
      agree a b (select_in_force_exception-Selects es a p)
        (select_in_force_exception-Selects fs b q)
    where
      agree :
          (a b : Option RemediationException)
          → Selects a es
          → Selects b fs
          → (id_of a ≡ id_of b) × (width_of a ≡ width_of b)
      agree none none p q = (refl, refl)
      agree none (some f) p (i, exempts, _) = absurd (p f ((same f).1 i) exempts)
      agree (some e) none (i, exempts, _) q = absurd (q e ((same e).0 i) exempts)
      agree (some e) (some f) (i, ei, least_e) (j, ej, least_f) =
          let (ids, widths) =
            key_lt-connected e f (least_f e ((same e).0 i) ei) (least_e f ((same f).1 j) ej) in
          (ap some ids, ap some widths)
