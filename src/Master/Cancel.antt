-- ===== src/Master/Cancel.antt =====
-- The effect of `delete_job` on a job that is not finished.
use cvdbench.Base.{
  if◌then◌else◌, All, ◌≡◌, ◌≢◌, refl, ap, ◌∙◌, true, false, Bool-cases, inl, inr, List, [], ◌∷◌,
  none, some, Text, text_eq, if_pos, arith,
}
use cvdbench.Base.Map.{Map, lookup, keys, lookup-remove, lookup-insert_self}
use cvdbench.Base.Sets.{contains, delete, All-contains}
use cvdbench.Proto.Reports.{JobStatus, cancelled}
use cvdbench.Metrics.{Platform}
use cvdbench.Master.State.{JobRecord, MasterState, Now}
use cvdbench.Master.Job.{is_terminal, is_pending}
use cvdbench.Master.Pending
use cvdbench.Master.Events.{emit_for_job, finalize_stream, terminate}
use cvdbench.Master.Terminal.{finish, release_worker, release_workers}
use cvdbench.Master.Replies.{ok}
use cvdbench.Master.Delete.{leave_queue, cancel_job, delete_job}
use cvdbench.Master.Changes.Clients.{leave_queue-jobs}

-- A release keeps who points elsewhere, and drops who points at the job.
lookup-release_worker :
    (j v w : Text) (active : Map Text)
    → lookup w (release_worker j v active) ≡ some j
    → (lookup w active ≡ some j) × (v ≢ w)
unfolding release_worker
lookup-release_worker j v w active e = ground (arith, lookup-remove w v active)

lookup-release_workers :
    (j w : Text) (ws : List Text) (active : Map Text)
    → lookup w (release_workers j ws active) ≡ some j
    → (lookup w active ≡ some j) × (contains w ws ≡ false)
unfolding release_workers contains
lookup-release_workers j w [] active e = (e, refl)
lookup-release_workers j w (v ∷ ws) active e =
    let (before, absent) = lookup-release_workers j w ws (release_worker j v active) e in
    let (bound, other) = lookup-release_worker j v w active before in
    (bound, ground (arith, other, absent))

remove-delete : (j : Text) (queue : List Text) → (Pending.remove queue j).0 ≡ delete j queue
unfolding Pending.remove delete
remove-delete j [] = refl
remove-delete j (k ∷ queue) = ground (arith, remove-delete j queue)

leave_queue-queue :
    (st : JobStatus) (j : Text) (s : MasterState)
    → (leave_queue st j s).pending_queue
      ≡ (if is_pending st then delete j s.pending_queue else s.pending_queue)
unfolding leave_queue
leave_queue-queue st j s = elim (Bool-cases (is_pending st)) [
  | inl e ↦ rw e (remove-delete j s.pending_queue)
  | inr e ↦ rw e refl
]

leave_queue-subscribers :
    (st : JobStatus) (j : Text) (s : MasterState) → (leave_queue st j s).subscribers ≡ s.subscribers
unfolding leave_queue
leave_queue-subscribers st j s = elim (Bool-cases (is_pending st)) [ inl e ↦ rw e | inr e ↦ rw e ]

-- What a cancelled job leaves in the master.
pub record IsCancelled (j : Text) (r : JobRecord) (s : MasterState) : Type 0 where
  pub found : JobRecord
  pub stored : lookup j s.jobs ≡ some found
  pub status : found.status ≡ cancelled
  pub stopped : found.cancel_flag ≡ true
  pub unbound : All (λ w. lookup w s.worker_active_jobs ≢ some j) (keys r.worker_assignments)
  pub unwatched : lookup j s.subscribers ≡ none

module _ ⦃pf : Platform⦄ (j : Text) (now : Now) (r : JobRecord) (s : MasterState) where
  delete_open :
      lookup j s.jobs ≡ some r
      → is_terminal r ≡ false
      → delete_job j now s ≡ (ok tt, cancel_job j now r s)
  unfolding delete_job
  delete_open e t = rw (e, delete_job) (rw t refl)

  cancel_job-IsCancelled : IsCancelled j r (cancel_job j now r s)
  unfolding cancel_job finish emit_for_job finalize_stream terminate
  cancel_job-IsCancelled = record {
    found = finish cancelled r.error now.unix_ms r;
    stored = ap (lookup j) (leave_queue-jobs r.status j _) ∙ lookup-insert_self j _ s.jobs;
    status = refl;
    stopped = refl;
    unbound =
        All-contains _ (keys r.worker_assignments)
          (λ w h e. cc (h, (lookup-release_workers j w (keys r.worker_assignments) _ e).1));
    unwatched =
        ap (lookup j) (leave_queue-subscribers r.status j _)
        ∙ lookup-remove j j _
        ∙ if_pos (text_eq j j) refl _ _;
  }

  -- `delete_job` of a job that is not terminal succeeds; then the job is cancelled, its flag tells the
  -- manifest tasks to stop, none of its workers is bound to it any more, no watcher is left, and the
  -- queue is as before but for the job's first entry, which is gone if the job was pending.
  pub delete_job-IsCancelled :
      lookup j s.jobs ≡ some r
      → is_terminal r ≡ false
      → ((delete_job j now s).0 ≡ ok tt)
        × IsCancelled j r (delete_job j now s).1
        × ((delete_job j now s).1.pending_queue
            ≡ (if is_pending r.status then delete j s.pending_queue else s.pending_queue))
  unfolding cancel_job emit_for_job finalize_stream
  delete_job-IsCancelled e t =
      rw (delete_open e t) (refl, cancel_job-IsCancelled, leave_queue-queue r.status j _)
