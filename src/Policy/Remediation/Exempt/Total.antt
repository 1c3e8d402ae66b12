-- ===== src/Policy/Remediation/Exempt/Total.antt =====
-- Exceptions that were constructed can be compared with every moment, so a selection among them returns.
-- The names that a constructed finding has.
use kosa_aws.Assessment.Findings.{Finding}
use kosa_aws.Base.{
  All, Bool, List, Option, String, [], arith, false, if◌then◌else◌, is_blank, leb, ltb, none, refl,
  some, true, ℕ, ◌&&◌, ◌<◌, ◌==◌, ◌∷◌, ◌≡◌,
}
use kosa_aws.Errors.{bind_ok, ok, require_ok, ◌>>=◌}
use kosa_aws.Jobs.Model.{require_non_empty_string, require_optional_non_empty_string}
use kosa_aws.Policy.Remediation.{
  RemediationException, covers, exception_post_init, is_in_force_for,
  require_offset_aware_timestamp,
}
use kosa_aws.Policy.Remediation.Exempt.{in_force, narrowest_of, select_in_force_exception}

pub record Named (f : Finding) : Type 0 where
  pub finding_id : is_blank f.finding_id ≡ false
  pub resource_id : is_blank f.resource_id ≡ false
  pub rule_id : is_blank f.rule_id ≡ false
  pub rule_version : is_blank f.rule_version ≡ false

-- The result of `require_non_empty_string` on a text that is not blank.
pub named_ok : (s : String) → is_blank s ≡ false → require_non_empty_string s ≡ ok tt
unfolding require_non_empty_string
named_ok s h = rw h

-- The exception is addressed at the customer, the rule's version and the resource.
abbrev pub addresses : RemediationException → String → Finding → Bool
addresses e customer_id f =
    customer_id == e.customer_id
    && f.rule_id == e.rule_id
    && f.rule_version == e.rule_version
    && elim e.resource_id [ none ↦ true | some r ↦ r == f.resource_id ]

-- The end of a round of the loop.
keeps :
    (e : RemediationException) (covered lasts : Bool) (rest : List RemediationException)
    → ((if covered then ok lasts else ok false) >>= λ kept. ok (if kept then e ∷ rest else rest))
      ≡ ok (if covered && lasts then e ∷ rest else rest)
keeps e true lasts rest = refl
keeps e false lasts rest = refl

module _ (instant : String → Option ℕ) where
  -- The exception has passed the checks of its constructor.
  abbrev pub Made : RemediationException → Type 0
  Made e = exception_post_init instant e ≡ ok e

  -- The identifier of a constructed exception is not blank, and both its times are read.
  pub record Times (e : RemediationException) : Type 0 where
    pub is_named : require_non_empty_string e.exception_id ≡ ok tt
    pub approved : ℕ
    pub expires : ℕ
    pub approves : require_offset_aware_timestamp instant e.approved_at ≡ ok approved
    pub ends : require_offset_aware_timestamp instant e.expires_at ≡ ok expires
    pub is_later : approved < expires
    pub has_ticket : require_optional_non_empty_string e.ticket_reference ≡ ok tt

  pub Made-Times : (e : RemediationException) → Made e → Times e
  unfolding exception_post_init
  Made-Times e h =
      let (u, is_named, h1) = bind_ok (require_non_empty_string e.exception_id) _ h in
      let (_, _, h2) = bind_ok (require_non_empty_string e.customer_id) _ h1 in
      let (_, _, h3) = bind_ok (require_non_empty_string e.rule_id) _ h2 in
      let (_, _, h4) = bind_ok (require_non_empty_string e.rule_version) _ h3 in
      let (_, _, h5) = bind_ok (require_non_empty_string e.approved_by) _ h4 in
      let (_, _, h6) = bind_ok (require_optional_non_empty_string e.resource_id) _ h5 in
      let (_, has_ticket, h7) =
        bind_ok (require_optional_non_empty_string e.ticket_reference) _ h6 in
      let (a, approves, h8) = bind_ok (require_offset_aware_timestamp instant e.approved_at) _ h7 in
      let (x, ends, h9) = bind_ok (require_offset_aware_timestamp instant e.expires_at) _ h8 in
      let (later, _) = require_ok (ltb a x) _ _ h9 in
      record {
        is_named = is_named;
        approved = a;
        expires = x;
        approves = approves;
        ends = ends;
        is_later = ground arith;
        has_ticket = has_ticket;
      }

  -- Whether an exception is in force, by its two times.
  pub is_in_force_for-Times :
      (e : RemediationException) (times : Times e) (evaluated_at moment : ℕ)
      → is_in_force_for instant e evaluated_at moment
        ≡ ok (leb times.approved evaluated_at && ltb moment times.expires)
  unfolding is_in_force_for
  is_in_force_for-Times e times evaluated_at moment = rw (times.approves, times.ends) (ground arith)

  module _ (f : Finding) (is_named : Named f) (customer_id : String)
      (has_customer : require_non_empty_string customer_id ≡ ok tt) where
    covers_returns :
        (e : RemediationException)
        → covers e customer_id f.rule_id f.rule_version f.resource_id
          ≡ ok (addresses e customer_id f)
    unfolding covers
    covers_returns e =
        rw
          (
            has_customer,
            named_ok f.rule_id is_named.rule_id,
            named_ok f.rule_version is_named.rule_version,
            named_ok f.resource_id is_named.resource_id,
          )
          refl

    in_force-returns :
        (evaluated_at moment : ℕ) (es : List RemediationException)
        → All Made es
        → (ms : List RemediationException) × (in_force instant f customer_id evaluated_at moment es
            ≡ ok ms)
    unfolding in_force
    in_force-returns evaluated_at moment [] made = ([], refl)
    in_force-returns evaluated_at moment (e ∷ es) (made_e, made) =
        let (rest, returns) = in_force-returns evaluated_at moment es made in
        let times = Made-Times e made_e in
        let forced = is_in_force_for-Times e times evaluated_at moment in
        let lasts = leb times.approved evaluated_at && ltb moment times.expires in
        (
          if addresses e customer_id f && lasts then e ∷ rest else rest,
          rw (covers_returns e, forced, returns) (keeps e (addresses e customer_id f) lasts rest),
        )

    -- A selection among constructed exceptions, at a moment not before the evaluation, returns.
    pub select_in_force_exception-returns :
        (evaluated_at moment : ℕ) (es : List RemediationException)
        → leb evaluated_at moment ≡ true
        → All Made es
        → (selected : Option RemediationException) × (select_in_force_exception instant f
              customer_id evaluated_at moment es
            ≡ ok selected)
    unfolding select_in_force_exception
    select_in_force_exception-returns evaluated_at moment es later made =
        let (ms, returns) = in_force-returns evaluated_at moment es made in
        (narrowest_of ms, rw (later, returns) refl)
