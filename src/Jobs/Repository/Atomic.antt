-- ===== src/Jobs/Repository/Atomic.antt =====
-- The repository refines an atomic store: an update that reads at one time and writes at another acts, where
-- it returns, as one transition of the job that is stored when it writes.
use mathlib.Core.Path.{subst}
use mathlib.Core.Option.{some-injective}
use kosa_aws.Base.{
  Bool-cases, Option, ap, arith, if◌then◌else◌, inl, inr, none, refl, some, suc, sym, true, ℕ, ◌&&◌,
  ◌+◌, ◌==◌, ◌∙◌, ◌≡◌, ◌≤◌, ◌⊎◌,
}
use kosa_aws.Errors.{ok}
use kosa_aws.Jobs.Item.{Item, customer_pk, item_from_job, job_sk, stored_number}
use kosa_aws.Jobs.Item.Revision.{job_from_item-revision}
use kosa_aws.Jobs.Lifecycle.{transition_job}
use kosa_aws.Jobs.Model.{Job}
use kosa_aws.Jobs.Repository.{create_job, is_queued, read_result, replay, update_job}
use kosa_aws.Jobs.Repository.Updates.{Commits, at_key, update_job-Commits}
use kosa_aws.Jobs.Repository.View.{
  Constructed, Sets, Store, Writes, Writes-Sets, create_job-Writes, get_job-view, update_job-Writes,
  view, view-item,
}
use kosa_aws.Jobs.Repository.Writers.{AtLeast, held-revision, moves_key, same_key, written_revision}
use kosa_aws.Jobs.Table.{DynamoTable, Holds, revision_is}

-- Creations of new jobs and transitions of stored ones, one after the other.
pub data Steps (s : Store) : Store → Type 0 where
  begins : Steps s s
  creates :
      {t u : Store}
      → Steps s t
      → (job : Job) → t job.customer_id job.job_id ≡ ok none
      → (job.revision ≡ 0) × (is_queued job.status ≡ true)
      → Sets t job u
      → Steps s u
  moves :
      {t u : Store}
      → Steps s t
      → (job current : Job) (expected : ℕ) → t job.customer_id job.job_id ≡ ok (some current)
      → current.revision ≡ expected
      → transition_job current (replay job expected) ≡ ok job
      → Sets t job u
      → Steps s u

module _ (db : DynamoTable) where
  open db use {Table, get_item}

  -- `Reaches t u`: calls that returned, of any writers, lead from `t` to `u`. An update may have read an
  -- earlier table.
  pub data Reaches : Table → Table → Type 0 where
    starts : {t : Table} → Reaches t t
    created :
        {t u v : Table}
        → Reaches t u
        → (job : Job) → Constructed db job
        → (create_job db job u).0 ≡ ok tt
        → v ≡ (create_job db job u).1
        → Reaches t v
    updated :
        {t u v : Table}
        → Reaches t u
        → (job : Job) (expected : ℕ) (before : Table) → Constructed db job
        → Reaches before u
        → (update_job db job expected before u).0 ≡ ok tt
        → v ≡ (update_job db job expected before u).1
        → Reaches t v

  -- Until the job is written again, its item stays; from then on its revision is higher.
  abbrev Kept : ℕ → Item → Option Item → Type 0
  Kept n item o = (o ≡ some item) ⊎ AtLeast db (suc n) o

  Kept-write :
      (job other : Job) (n : ℕ) (item : Item) (t t' : Table)
      → Writes db t other t'
      → (Kept n item (at_key db t other) → suc n ≤ other.revision)
      → Kept n item (at_key db t job)
      → Kept n item (at_key db t' job)
  Kept-write job other n item t t' writes rises kept =
      elim (Bool-cases (
        customer_pk other.customer_id == customer_pk job.customer_id
        && job_sk other.job_id == job_sk job.job_id)) [
          | inl same ↦
              let (pk, sk) =
                same_key db (customer_pk other.customer_id) (customer_pk job.customer_id)
                  (job_sk other.job_id) (job_sk job.job_id) same in
              let one_key = moves_key db t job other pk sk in
              inr (record {
                item = item_from_job other;
                revision = other.revision;
                is_stored = changed ∙ rw same refl;
                is_read = written_revision db other;
                bound = rises (subst (Kept n item) (sym one_key) kept);
              })
          | inr differ ↦ subst (Kept n item) (sym (changed ∙ rw differ refl)) kept
        ]
    where
      changed : at_key db t' job ≡ (
          if customer_pk other.customer_id == customer_pk job.customer_id
            && job_sk other.job_id == job_sk job.job_id
          then some (item_from_job other)
          else at_key db t job)
      changed = writes (customer_pk job.customer_id) (job_sk job.job_id)

  update_rises :
      (other : Job) (n expected : ℕ) (item : Item) (o : Option Item)
      → stored_number "revision" item ≡ some n
      → Holds (revision_is expected) o
      → other.revision ≡ expected + 1
      → Kept n item o
      → suc n ≤ other.revision
  update_rises other n expected item o numbered holds raised (inl here) =
      let at_item : Holds (revision_is expected) (some item) =
        subst (Holds (revision_is expected)) here holds in
      let same = some-injective n expected (sym numbered ∙ at_item) in omega (arith, same, raised)
  update_rises other n expected item o numbered holds raised (inr later) =
      omega (arith, raised, held-revision db (suc n) expected o holds later)

  Reaches-Kept :
      (job : Job) (n : ℕ) (item : Item) {t u : Table}
      → stored_number "revision" item ≡ some n
      → Reaches t u
      → at_key db t job ≡ some item
      → Kept n item (at_key db u job)
  Reaches-Kept job n item numbered starts here = inl here
  Reaches-Kept job n item numbered (created {u = u} {v = v} l other con h e) here =
      let (_, free, writes) = create_job-Writes db other u h in
      Kept-write job other n item u v (subst (Writes db u other) (sym e) writes)
        (λ kept. absurd (no_item _ free kept)) (Reaches-Kept job n item numbered l here)
    where
      no_item : (o : Option Item) → o ≡ none → ¬ Kept n item o
      no_item none p (inl e) = cc
      no_item (some i) p k = cc
      no_item none p (inr later) = let wrong = later.is_stored in cc wrong
  Reaches-Kept job n item numbered (updated {u = u} {v = v} l other expected before con r h e)
        here =
      let done = update_job-Commits db other expected before u h in
      Kept-write job other n item u v
        (subst (Writes db u other) (sym e) (update_job-Writes db other expected before u h))
        (update_rises other n expected item (at_key db u other) numbered done.held done.revision)
        (Reaches-Kept job n item numbered l here)

  -- The job that a successful update has read is the one that is stored when it writes.
  update_job-current :
      (job : Job) (expected : ℕ) (before u : Table)
      → (done : Commits db job expected before u (update_job db job expected before u).1)
      → Reaches before u
      → view db u job.customer_id job.job_id ≡ ok (some done.current)
  update_job-current job expected before u done r =
      let seen = get_job-view db before job.customer_id job.job_id done.reads in
      let (item, there, parses) = view-item db before job.customer_id job.job_id seen in
      let numbered = job_from_item-revision item parses in
      elim (Reaches-Kept job done.current.revision item numbered r there) [
        | inl still ↦ ap (λ o. read_result db job.customer_id (some o)) (still ∙ sym there) ∙ seen
        | inr later ↦ absurd (
            omega (
              arith,
              done.was_expected,
              held-revision db (suc done.current.revision) expected (at_key db u job) done.held
                  later,
            ))
      ]

  -- Whatever writers are at work and however old the tables are that they have read, the tables that their
  -- successful calls produce are, as consistent reads see them, produced by an atomic store: each creation
  -- puts a new job where there was none, and each update is one allowed transition of the job stored at that
  -- moment, of which it expects the revision.
  pub Reaches-Steps : {t u : Table} → Reaches t u → Steps (view db t) (view db u)
  Reaches-Steps starts = begins
  Reaches-Steps (created {u = u} {v = v} l job con h e) =
      let (fresh, free, writes) = create_job-Writes db job u h in
      creates (Reaches-Steps l) job (ap (λ o. read_result db job.customer_id (some o)) free) fresh
        (Writes-Sets db u v job con (subst (Writes db u job) (sym e) writes))
  Reaches-Steps (updated {u = u} {v = v} l job expected before con r h e) =
      let done = update_job-Commits db job expected before u h in
      moves (Reaches-Steps l) job done.current expected
        (update_job-current job expected before u done r) done.was_expected done.transition
        (Writes-Sets db u v job con
          (subst (Writes db u job) (sym e) (update_job-Writes db job expected before u h)))
