-- ===== src/Jobs/Repository/Writers.antt =====
-- Optimistic concurrency: of the updates that expect one revision of a job, only one can succeed.
use kosa_aws.Base.{
  Bool-cases, Option, String, ap, arith, eq_iff, inl, inr, none, refl, some, sym, true, ℕ, ◌&&◌,
  ◌+◌, ◌==◌, ◌∙◌, ◌≡◌, ◌≢◌, ◌≤◌,
}
use kosa_aws.Errors.{ok}
use kosa_aws.Jobs.Item.{Item, customer_pk, item_from_job, job_sk, stored_number}
use kosa_aws.Jobs.Model.{Job}
use kosa_aws.Jobs.Repository.{update_job}
use kosa_aws.Jobs.Repository.Updates.{at_key, update_job-Commits}
use kosa_aws.Jobs.Table.{DynamoTable, Holds, revision_is}

module _ (db : DynamoTable) where
  open db use {Table}

  -- `Later t u`: successful updates, of any jobs and by any writers, lead from `t` to `u`.
  pub data Later (t : Table) : Table → Type 0 where
    now : Later t t
    after :
        {u v : Table}
        → Later t u
        → (job : Job) (expected : ℕ) (before : Table)
        → (update_job db job expected before u).0 ≡ ok tt
        → v ≡ (update_job db job expected before u).1
        → Later t v

  -- A stored item with a revision that is at least `n`.
  pub record AtLeast (n : ℕ) (o : Option Item) : Type 0 where
    pub item : Item
    pub revision : ℕ
    pub is_stored : o ≡ some item
    pub is_read : stored_number "revision" item ≡ some revision
    pub bound : n ≤ revision

  pub held-revision : (n e : ℕ) (o : Option Item) → Holds (revision_is e) o → AtLeast n o → n ≤ e
  held-revision n e none h a = elim h [ ]
  held-revision n e (some item) h a = ground (arith, a.is_stored, a.is_read, a.bound)

  pub written_revision :
      (job : Job) → stored_number "revision" (item_from_job job) ≡ some job.revision
  unfolding stored_number item_from_job
  written_revision job = refl

  pub same_key : (p q r s : String) → (p == q && r == s) ≡ true → (p ≡ q) × (r ≡ s)
  same_key p q r s h = ground (arith, eq_iff p q, eq_iff r s)

  pub moves_key :
      (t : Table) (j k : Job)
      → customer_pk k.customer_id ≡ customer_pk j.customer_id
      → job_sk k.job_id ≡ job_sk j.job_id
      → at_key db t k ≡ at_key db t j
  moves_key t j k p q = cc

  step-AtLeast :
      (job k : Job) (expected : ℕ) (before u : Table) {n : ℕ}
      → (update_job db k expected before u).0 ≡ ok tt
      → AtLeast n (at_key db u job)
      → AtLeast n (at_key db (update_job db k expected before u).1 job)
  step-AtLeast job k expected before u {n} h a =
      let done = update_job-Commits db k expected before u h in
      elim (Bool-cases (
        customer_pk k.customer_id == customer_pk job.customer_id
        && job_sk k.job_id == job_sk job.job_id)) [
          | inl same ↦
              let (pk, sk) = same_key _ _ _ _ same in
              let after = (update_job db k expected before u).1 in
              let held =
                held-revision n expected (at_key db u k) done.held
                  (rw (moves_key u job k pk sk) a) in
              record {
                item = item_from_job k;
                revision = k.revision;
                is_stored = sym (moves_key after job k pk sk) ∙ done.stores;
                is_read = written_revision k;
                bound = omega (arith, done.revision, held);
              }
          | inr differ ↦ rw (done.others _ _ differ) a
        ]

  Later-AtLeast :
      (job : Job) {n : ℕ} {t u : Table}
      → AtLeast n (at_key db t job)
      → Later t u
      → AtLeast n (at_key db u job)
  Later-AtLeast job a now = a
  Later-AtLeast job {n} a (after {u = u} l k expected before h e) =
      rw e (step-AtLeast job k expected before u h (Later-AtLeast job a l))

  -- Once an update that expects a revision has succeeded, no other update of the same job that expects
  -- the same revision succeeds, whatever it read before and however many successful updates of any
  -- jobs come in between: no write is lost.
  pub update_job-excludes :
      (job other : Job) (expected : ℕ) (before before' t u : Table)
      → other.customer_id ≡ job.customer_id
      → other.job_id ≡ job.job_id
      → (update_job db job expected before t).0 ≡ ok tt
      → Later (update_job db job expected before t).1 u
      → (update_job db other expected before' u).0 ≢ ok tt
  update_job-excludes job other expected before before' t u same_customer same_job h l wins =
      let first = update_job-Commits db job expected before t h in
      let second = update_job-Commits db other expected before' u wins in
      let start : AtLeast (expected + 1) (at_key db (update_job db job expected before t).1 job) =
        record {
          item = item_from_job job;
          revision = job.revision;
          is_stored = first.stores;
          is_read = written_revision job;
          bound = omega (arith, first.revision);
        } in
      let there = Later-AtLeast job start l in
      let same = moves_key u job other (ap customer_pk same_customer) (ap job_sk same_job) in
      absurd (
        omega (
          arith,
          held-revision (expected + 1) expected (at_key db u other) second.held (rw same there),
        ))
