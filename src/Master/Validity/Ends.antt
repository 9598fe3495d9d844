-- ===== src/Master/Validity/Ends.antt =====
-- `finish`: a job that reaches a terminal status is settled.
use cvdbench.Base.{ℕ, ◌≡◌, refl, true, Option, none, some}
use cvdbench.Base.Map.{is_some}
use cvdbench.Proto.Reports.{
  JobStatus, unspecified, pending, preparing, running, completed, failed, cancelled, FileEntry,
}
use cvdbench.Queues.Bounded.{BoundedQueue, close}
use cvdbench.Metrics.{Platform}
use cvdbench.Master.State.{JobRecord, JobError}
use cvdbench.Master.Job.{is_terminal_status}
use cvdbench.Master.Terminal.{finish}
use cvdbench.Master.Validity.{core, IsValid, Stands, IsClosed, IsSettled, IsSettledIf}

close-IsClosed :
    (o : Option (BoundedQueue FileEntry))
    → IsClosed (elim o [ none ↦ none | some q ↦ some (close q) ])
unfolding close
close-IsClosed none = tt
close-IsClosed (some q) = refl

first_time :
    (now : ℕ) (o : Option ℕ) → is_some (elim o [ none ↦ some now | some t ↦ some t ]) ≡ true
first_time now none = refl
first_time now (some t) = refl

module _ ⦃pf : Platform⦄ (st : JobStatus) (error : Option JobError) (now : ℕ) (r : JobRecord) where
  finish-IsSettled : IsSettled (core (finish st error now r))
  unfolding finish
  finish-IsSettled =
      (refl, first_time now r.terminal_at_ms, refl, close-IsClosed r.file_queue, refl)

module _ ⦃pf : Platform⦄ (error : Option JobError) (now : ℕ) (r : JobRecord) where
  finish-Stands :
      (st : JobStatus)
      → is_terminal_status st ≡ true
      → Stands st (core r)
      → Stands st (core (finish st error now r))
  unfolding finish
  finish-Stands unspecified e s = cc
  finish-Stands pending e s = cc
  finish-Stands preparing e s = cc
  finish-Stands running e s = cc
  finish-Stands completed e s = s
  finish-Stands failed e s = s
  finish-Stands cancelled e s = s

  pub finish-IsSettledIf :
      (st : JobStatus) → IsSettledIf (is_terminal_status st) (core (finish st error now r))
  finish-IsSettledIf unspecified = tt
  finish-IsSettledIf pending = tt
  finish-IsSettledIf preparing = tt
  finish-IsSettledIf running = tt
  finish-IsSettledIf completed = finish-IsSettled completed error now r
  finish-IsSettledIf failed = finish-IsSettled failed error now r
  finish-IsSettledIf cancelled = finish-IsSettled cancelled error now r

  -- The new status must be terminal and must fit the record.
  pub finish-IsValid :
      (st : JobStatus)
      → is_terminal_status st ≡ true
      → Stands st (core r)
      → IsValid r
      → IsValid (finish st error now r)
  unfolding finish
  finish-IsValid st e s v = record {
    within = v.within;
    distinct = v.distinct;
    ready_distinct = v.ready_distinct;
    ready_assigned = v.ready_assigned;
    results_distinct = v.results_distinct;
    results_run = v.results_run;
    stands = finish-Stands st e s;
    settled = finish-IsSettledIf st;
    redacted = v.redacted;
  }
