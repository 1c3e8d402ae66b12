-- ===== src/Jobs/Outbox/Delivery.antt =====
-- What a sweep of the outbox has called, and what its count says.
use kosa_aws.Base.{
  Bool-cases, List, [], ap, arith, if◌then◌else◌, inl, inr, nat_eq, refl, true, ℕ, ◌+◌, ◌∙◌, ◌∷◌,
  ◌≡◌, ◌≢◌,
}
use kosa_aws.Errors.{err, ok, value_error}
use kosa_aws.Jobs.Model.{WorkflowTask}
use kosa_aws.Jobs.Outbox.{
  Log, WorkflowOutboxEntry, World, dispatch_all, dispatch_entry, dispatch_pending, mark_dispatched,
  publish, record_failure,
}

-- The tasks whose publishing was tried, the last one first.
abbrev pub published : Log → List WorkflowTask
published [] = []
published (event ∷ log) = elim event.effect [
  | publish task ↦ task ∷ published log
  | _ ↦ published log
]

-- The number of entries that were marked as dispatched.
abbrev pub marks : Log → ℕ
marks [] = 0
marks (event ∷ log) =
    (if event.returned then (elim event.effect [ mark_dispatched _ ↦ 1 | _ ↦ 0 ]) else 0)
    + marks log

-- The last call published the task, and returned.
abbrev pub LastSent : WorkflowTask → Log → Type 0
LastSent task [] = ⊥
LastSent task (event ∷ log) = (event.effect ≡ publish task) × (event.returned ≡ true)

-- Every call that marks an entry comes directly after the entry's task was published.
abbrev pub IsOrdered : Log → Type 0
IsOrdered [] = Unit
IsOrdered (event ∷ log) =
    ((entry : WorkflowOutboxEntry) → event.effect ≡ mark_dispatched entry → LastSent entry.task log)
    × IsOrdered log

publish≢mark :
    {task : WorkflowTask} {entry : WorkflowOutboxEntry} → publish task ≢ mark_dispatched entry
publish≢mark p = ground arith

failure≢mark : {e entry : WorkflowOutboxEntry} → record_failure e ≢ mark_dispatched entry
failure≢mark p = ground arith

marked_entry :
    {e entry : WorkflowOutboxEntry} → mark_dispatched e ≡ mark_dispatched entry → e ≡ entry
marked_entry p = cc

abbrev pub tasks_onto : List WorkflowOutboxEntry → List WorkflowTask → List WorkflowTask
tasks_onto [] tasks = tasks
tasks_onto (entry ∷ entries) tasks = tasks_onto entries (entry.task ∷ tasks)

module _ (world : World) where
  dispatch_entry-IsOrdered :
      (entry : WorkflowOutboxEntry) (log : Log)
      → IsOrdered log
      → IsOrdered (dispatch_entry world entry log).1
  unfolding dispatch_entry
  dispatch_entry-IsOrdered entry log h = elim (Bool-cases (world (publish entry.task) log)) [
    | inr unmade ↦
        rw unmade ((λ _ p. absurd (failure≢mark p)), ((λ _ p. absurd (publish≢mark p)), h))
    | inl sent ↦
        let log1 : Log = record { effect = publish entry.task; returned = true } ∷ log in
        let mark_fits : (x : WorkflowOutboxEntry)
            → mark_dispatched entry ≡ mark_dispatched x
            → LastSent x.task log1 =
          λ x p. (ap (λ (y : WorkflowOutboxEntry). publish y.task) (marked_entry p), refl) in
        let after : IsOrdered log1 = ((λ _ p. absurd (publish≢mark p)), h) in
        elim (Bool-cases (world (mark_dispatched entry) log1)) [
          | inl marked ↦ rw (sent, marked) (mark_fits, after)
          | inr unmade ↦ rw (sent, unmade) ((λ _ p. absurd (failure≢mark p)), (mark_fits, after))
        ]
  ]

  dispatch_entry-published :
      (entry : WorkflowOutboxEntry) (log : Log)
      → published (dispatch_entry world entry log).1 ≡ entry.task ∷ published log
  unfolding dispatch_entry
  dispatch_entry-published entry log = ground arith

  dispatch_entry-marks :
      (entry : WorkflowOutboxEntry) (log : Log)
      → marks (dispatch_entry world entry log).1
        ≡ (if (dispatch_entry world entry log).0 then 1 else 0) + marks log
  unfolding dispatch_entry
  dispatch_entry-marks entry log = ground arith

  dispatch_all-IsOrdered :
      (entries : List WorkflowOutboxEntry) (count : ℕ) (log : Log)
      → IsOrdered log
      → IsOrdered (dispatch_all world entries count log).1
  unfolding dispatch_all
  dispatch_all-IsOrdered [] count log h = h
  dispatch_all-IsOrdered (entry ∷ entries) count log h =
      dispatch_all-IsOrdered entries _ _ (dispatch_entry-IsOrdered entry log h)

  dispatch_all-published :
      (entries : List WorkflowOutboxEntry) (count : ℕ) (log : Log)
      → published (dispatch_all world entries count log).1 ≡ tasks_onto entries (published log)
  unfolding dispatch_all
  dispatch_all-published [] count log = refl
  dispatch_all-published (entry ∷ entries) count log =
      dispatch_all-published entries _ _
      ∙ ap (tasks_onto entries) (dispatch_entry-published entry log)

  dispatch_all-marks :
      (entries : List WorkflowOutboxEntry) (count : ℕ) (log : Log)
      → marks (dispatch_all world entries count log).1 + count
        ≡ (dispatch_all world entries count log).0 + marks log
  unfolding dispatch_all
  dispatch_all-marks [] count log = omega arith
  dispatch_all-marks (entry ∷ entries) count log = ground (
    arith,
    dispatch_all-marks entries (if (dispatch_entry world entry log).0 then count + 1 else count)
        (dispatch_entry world entry log).1,
    dispatch_entry-marks entry log,
  )

  -- A sweep that lists its entries tries to publish each entry's task once, in order; it marks an entry
  -- only directly after its task was published; and it returns the number of entries it has marked.
  pub dispatch_pending-delivers :
      (limit : ℕ) (entries : List WorkflowOutboxEntry) (log : Log) {count : ℕ}
      → IsOrdered log
      → (dispatch_pending world limit (ok entries) log).0 ≡ ok count
      → let after = (dispatch_pending world limit (ok entries) log).1 in
        (published after ≡ tasks_onto entries (published log))
        × IsOrdered after
        × (marks after ≡ count + marks log)
  unfolding dispatch_pending
  dispatch_pending-delivers limit entries log {count} h e = elim (Bool-cases (nat_eq limit 0)) [
    | inl none_asked ↦ absurd (
        let wrong : (err value_error ≡ ok count) = rw (none_asked, dispatch_pending) at e in
        cc wrong)
    | inr some_asked ↦
        let counted : (ok (dispatch_all world entries 0 log).0 ≡ ok count) =
          rw (some_asked, dispatch_pending) at e in
        rw (some_asked, dispatch_pending)
          (
            dispatch_all-published entries 0 log,
            dispatch_all-IsOrdered entries 0 log h,
            ground (arith, dispatch_all-marks entries 0 log),
          )
  ]
