-- ===== src/Jobs/Repository/View.antt =====
-- What a table holds as consistent reads see it, and how the writes that are carried out change it.
use mathlib.Core.Option.{some-injective}
use text.Mathlib.TextLemmas.{append_cancel_left}
use kosa_aws.Base.{
  Bool, Bool-cases, Option, String, ap, arith, eq_iff, false, if◌then◌else◌, inl, inr, nat_eq,
  nat_eq_iff, none, not, refl, some, sym, true, ℕ, ◌&&◌, ◌==◌, ◌||◌, ◌∙◌, ◌≡◌,
}
use kosa_aws.Errors.{
  Result, bind_ok, duplicate_job, err, invalid_job_mutation, ok, ok_inj, stored_data_error,
}
use kosa_aws.Jobs.Item.{Item, customer_pk, item_from_job, job_from_item, job_sk}
use kosa_aws.Jobs.Item.RoundTrip.{IsNamed, job_from_item-item_from_job}
use kosa_aws.Jobs.Lifecycle.Total.{IsValid}
use kosa_aws.Jobs.Model.{Job, require_non_empty_string}
use kosa_aws.Jobs.Repository.{
  create_job, get_job, is_queued, put_job, read_result, scoped, update_job,
}
use kosa_aws.Jobs.Repository.Updates.{at_key, put_written, update_job-Commits}
use kosa_aws.Jobs.Repository.Writers.{same_key}
use kosa_aws.Jobs.Table.{DynamoTable, absent}
-- What the abstract store answers for a customer and a job.
use mathlib.Core.Option.{some-injective}
use text.Mathlib.TextLemmas.{append_cancel_left}
use kosa_aws.Base.{
  Bool, Bool-cases, Option, String, ap, arith, eq_iff, false, if◌then◌else◌, inl, inr, nat_eq,
  nat_eq_iff, none, not, refl, some, sym, true, ℕ, ◌&&◌, ◌==◌, ◌||◌, ◌∙◌, ◌≡◌,
}
use kosa_aws.Errors.{
  Result, bind_ok, duplicate_job, err, invalid_job_mutation, ok, ok_inj, stored_data_error,
}
use kosa_aws.Jobs.Item.RoundTrip.{IsNamed, job_from_item-item_from_job}
use kosa_aws.Jobs.Lifecycle.Total.{IsValid}
use kosa_aws.Jobs.Model.{Job, require_non_empty_string}
use kosa_aws.Jobs.Repository.{
  create_job, get_job, is_queued, put_job, read_result, scoped, update_job,
}
use kosa_aws.Jobs.Repository.Updates.{at_key, put_written, update_job-Commits}
use kosa_aws.Jobs.Repository.Writers.{same_key}
use kosa_aws.Jobs.Table.{DynamoTable, absent}

abbrev pub Store : Type 0
Store = String → String → Result (Option Job)

-- The second store is the first one with the job in it.
abbrev pub Sets : Store → Job → Store → Type 0
Sets s job s' =
    (customer_id job_id : String)
    → s' customer_id job_id ≡ (
        if job.customer_id == customer_id && job.job_id == job_id
        then ok (some job)
        else s customer_id job_id)

module _ (db : DynamoTable) where
  open db use {Table, stored, get_item, get_item-stored, written_holds, written_stored}

  -- What a consistent read of the job returns.
  abbrev pub view : Table → Store
  view t customer_id job_id =
      read_result db customer_id (some (stored t (customer_pk customer_id) (job_sk job_id)))

  -- A job as the constructors make them.
  abbrev pub Constructed : Job → Type 0
  Constructed job = IsValid job × IsNamed job.error

  -- The table changed exactly at the job's key.
  abbrev pub Writes : Table → Job → Table → Type 0
  Writes t job t' =
      (pk sk : String)
      → stored t' pk sk ≡ (
          if customer_pk job.customer_id == pk && job_sk job.job_id == sk
          then some (item_from_job job)
          else stored t pk sk)

  is_fresh :
      (job : Job)
      → (not (nat_eq job.revision 0) || not (is_queued job.status)) ≡ false
      → (job.revision ≡ 0) × (is_queued job.status ≡ true)
  is_fresh job fit = ground (arith, fit, nat_eq_iff job.revision 0)

  pub create_job-Writes :
      (job : Job) (t : Table)
      → (create_job db job t).0 ≡ ok tt
      → ((job.revision ≡ 0) × (is_queued job.status ≡ true))
        × (at_key db t job ≡ none)
        × Writes t job (create_job db job t).1
  unfolding create_job put_job
  create_job-Writes job t h =
      elim (Bool-cases (not (nat_eq job.revision 0) || not (is_queued job.status))) [
        | inl unfit ↦ absurd (
            let wrong : (err invalid_job_mutation ≡ ok tt) = rw (unfit, create_job) at h in
            cc wrong)
        | inr fit ↦
            let pk = customer_pk job.customer_id in
            let sk = job_sk job.job_id in
            let item = item_from_job job in
            let done = put_written db duplicate_job _ (rw (fit, create_job, put_job) at h) in
            rw (fit, create_job)
              (
                is_fresh job fit,
                written_holds t pk sk item absent done,
                written_stored t pk sk item absent done,
              )
      ]

  pub update_job-Writes :
      (job : Job) (expected : ℕ) (before t : Table)
      → (update_job db job expected before t).0 ≡ ok tt
      → Writes t job (update_job db job expected before t).1
  update_job-Writes job expected before t h pk sk =
      let done = update_job-Commits db job expected before t h in
      elim (Bool-cases (customer_pk job.customer_id == pk && job_sk job.job_id == sk)) [
        | inl same ↦
            let (pks, sks) =
              same_key db (customer_pk job.customer_id) pk (job_sk job.job_id) sk same in
            rw same (rw (sym pks, sym sks) done.stores)
        | inr differ ↦ rw differ (done.others pk sk differ)
      ]

  pk_injective : (a b : String) → customer_pk a ≡ customer_pk b → a ≡ b
  unfolding customer_pk
  pk_injective a b h = append_cancel_left "CUSTOMER#" a b h

  sk_injective : (a b : String) → job_sk a ≡ job_sk b → a ≡ b
  unfolding job_sk
  sk_injective a b h = append_cancel_left "JOB#" a b h

  -- The keys agree exactly where the identifiers do.
  key_test :
      (a b j k : String)
      → (customer_pk a == customer_pk b && job_sk j == job_sk k) ≡ (a == b && j == k)
  key_test a b j k = elim (Bool-cases (a == b && j == k)) [
    | inl same ↦
        let (ab, jk) = same_key db a b j k same in
        let pks = (eq_iff (customer_pk a) (customer_pk b)).1 (ap customer_pk ab) in
        let sks = (eq_iff (job_sk j) (job_sk k)).1 (ap job_sk jk) in ground (arith, same, pks, sks)
    | inr differ ↦ ground (
      arith,
      differ,
      eq_iff (customer_pk a) (customer_pk b),
      eq_iff (job_sk j) (job_sk k),
      eq_iff a b,
      eq_iff j k,
      pk_injective a b,
      sk_injective j k,
    )
  ]

  -- What `get_job` makes of an item that was read.
  item_read :
      (customer_id : String) (o : Option Item) {job : Job}
      → read_result db customer_id (some o) ≡ ok (some job)
      → (item : Item) × (o ≡ some item) × (job_from_item item ≡ ok job)
  item_read customer_id none h = absurd (cc)
  item_read customer_id (some item) {job} h =
      let (parsed, parses, scopes) = bind_ok (job_from_item item) _ h in
      (item, refl, parses ∙ ap ok (in_scope parsed scopes))
    where
      in_scope : (parsed : Job) → scoped db customer_id parsed ≡ ok (some job) → parsed ≡ job
      in_scope parsed h = elim (Bool-cases (parsed.customer_id == customer_id)) [
        | inl same ↦ some-injective parsed job (ok_inj (rw same at h))
        | inr differ ↦
            absurd
              (let wrong : (err stored_data_error ≡ ok (some job)) = rw differ at h in cc wrong)
      ]

  pub view-item :
      (t : Table) (customer_id job_id : String) {job : Job}
      → view t customer_id job_id ≡ ok (some job)
      → (item : Item) × (stored t (customer_pk customer_id) (job_sk job_id) ≡ some item)
        × (job_from_item item ≡ ok job)
  view-item t customer_id job_id h =
      item_read customer_id (stored t (customer_pk customer_id) (job_sk job_id)) h

  pub get_job-view :
      (t : Table) (customer_id job_id : String) {answer : Option Job}
      → get_job db t customer_id job_id ≡ ok answer
      → view t customer_id job_id ≡ ok answer
  unfolding get_job
  get_job-view t customer_id job_id {answer} h =
      let (_, _, h1) = bind_ok (require_non_empty_string customer_id) _ h in
      let (_, _, h2) = bind_ok (require_non_empty_string job_id) _ h1 in
      of_read (get_item t (customer_pk customer_id) (job_sk job_id)) refl h2
    where
      of_read :
          (o : Option (Option Item))
          → get_item t (customer_pk customer_id) (job_sk job_id) ≡ o
          → read_result db customer_id o ≡ ok answer
          → view t customer_id job_id ≡ ok answer
      of_read none e h = absurd (cc)
      of_read (some o) e h =
          ap (λ p. read_result db customer_id (some p)) (sym (get_item-stored t _ _ o e)) ∙ h

  read_written :
      (job : Job) (customer_id job_id : String) (o : Option Item) (b : Bool)
      → Constructed job
      → (job.customer_id == customer_id && job.job_id == job_id) ≡ b
      → read_result db customer_id (some (if b then some (item_from_job job) else o))
        ≡ (if b then ok (some job) else read_result db customer_id (some o))
  read_written job customer_id job_id o true (valid, named_error) same =
      let mine : ((job.customer_id == customer_id) ≡ true) = ground (arith, same) in
      rw (job_from_item-item_from_job job valid named_error, mine) refl
  read_written job customer_id job_id o false constructed differ = refl

  -- The abstract store after a write.
  pub Writes-Sets :
      (t t' : Table) (job : Job) → Constructed job → Writes t job t' → Sets (view t) job (view t')
  Writes-Sets t t' job constructed writes customer_id job_id =
      let there = stored t (customer_pk customer_id) (job_sk job_id) in
      ap (λ o. read_result db customer_id (some o))
        (writes (customer_pk customer_id) (job_sk job_id)
          ∙ ap (λ b. if b then some (item_from_job job) else there)
              (key_test job.customer_id customer_id job.job_id job_id))
      ∙ read_written job customer_id job_id there
          (job.customer_id == customer_id && job.job_id == job_id) constructed refl
