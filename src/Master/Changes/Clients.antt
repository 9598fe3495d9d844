-- ===== src/Master/Changes/Clients.antt =====
-- The records that `delete_job`, `watch_job` and the manifest's tasks change.
use cvdbench.Base.{◌≡◌, refl, some, Text, Bool, Bool-cases, Option-cases, inl, inr, arith}
use cvdbench.Base.Map.{lookup, insert}
use cvdbench.Proto.Reports.{JobStatus, failed, cancelled, FileEntry}
use cvdbench.Queues.Bounded.{BoundedQueue, push, acquire, then_append}
use cvdbench.Metrics.{Platform}
use cvdbench.Master.State.{JobRecord, MasterState, ManifestScanStats, Now, manifest_reader}
use cvdbench.Master.Job.{is_terminal, is_pending}
use cvdbench.Master.Events.{emit_for_job, finalize_stream}
use cvdbench.Master.Terminal.{finish}
use cvdbench.Master.Delete.{delete_job, cancel_job, leave_queue}
use cvdbench.Master.Watch.{watch_job}
use cvdbench.Master.Manifest.{fail_job_due_to_manifest}
use cvdbench.Master.Calls.{adjust, after_push, push_entry}
use cvdbench.Master.Changes.{quiet, ended, queued, Ops, stop, chain, Changes, unchanged, only}

pub leave_queue-jobs :
    (st : JobStatus) (j : Text) (s : MasterState) → (leave_queue st j s).jobs ≡ s.jobs
unfolding leave_queue
leave_queue-jobs st j s = elim (Bool-cases (is_pending st)) [ inl e ↦ rw e | inr e ↦ rw e ]

-- A push that finds the queue open leaves it open.
acquire-closed :
    (q : BoundedQueue FileEntry) (e : FileEntry)
    → (after_push q (then_append e (acquire q))).closed ≡ q.closed
unfolding acquire then_append
acquire-closed q e = ground arith

module _ ⦃pf : Platform⦄ where
  cancel_job-jobs :
      (j : Text) (now : Now) (r : JobRecord) (s : MasterState)
      → (cancel_job j now r s).jobs ≡ insert j (finish cancelled r.error now.unix_ms r) s.jobs
  unfolding cancel_job emit_for_job finalize_stream
  cancel_job-jobs j now r s = leave_queue-jobs r.status j _

  pub delete_job-Changes :
      (j : Text) (now : Now) (s : MasterState) → Changes s.jobs (delete_job j now s).1.jobs
  unfolding delete_job
  delete_job-Changes j now s = elim (Option-cases (lookup j s.jobs)) [
    | inl l ↦ rw (l, delete_job) unchanged
    | inr (r, l) ↦
        rw (l, delete_job)
          (elim (Bool-cases (is_terminal r)) [
            | inl t ↦ rw t unchanged
            | inr t ↦ rw t (
                rw cancel_job-jobs (
                  only j r _ l
                    (chain stop (ended cancelled r.error now.unix_ms t (inr refl) refl))))
          ])
  ]

  pub watch_job-jobs :
      (j : Text) (now : Now) (s : MasterState) → (watch_job j now s).1.jobs ≡ s.jobs
  unfolding watch_job
  watch_job-jobs j now s = elim (Option-cases (lookup j s.jobs)) [
    | inl l ↦ rw (l, watch_job) refl
    | inr (r, l) ↦
        rw (l, watch_job)
          (elim (Bool-cases (is_terminal r)) [ inl t ↦ rw t refl | inr t ↦ rw t refl ])
  ]

  pub fail_job-Changes :
      (j reason : Text) (now : Now) (s : MasterState)
      → Changes s.jobs (fail_job_due_to_manifest j reason now s).jobs
  unfolding fail_job_due_to_manifest emit_for_job finalize_stream
  fail_job-Changes j reason now s = elim (Option-cases (lookup j s.jobs)) [
    | inl l ↦ rw (l, fail_job_due_to_manifest) unchanged
    | inr (r, l) ↦
        rw (l, fail_job_due_to_manifest)
          (elim (Bool-cases (is_terminal r)) [
            | inl t ↦ rw t unchanged
            | inr t ↦ rw t (
                only j r _ l (
                  chain stop
                    (ended failed (some (manifest_reader reason)) now.unix_ms t (inl refl) refl)))
          ])
  ]

  pub adjust-Changes :
      (j : Text) (f : JobRecord → JobRecord) (s : MasterState)
      → ((r : JobRecord) → Ops r (f r))
      → Changes s.jobs (adjust j f s).jobs
  unfolding adjust
  adjust-Changes j f s ops = elim (Option-cases (lookup j s.jobs)) [
    | inl l ↦ rw (l, adjust) unchanged
    | inr (r, l) ↦ rw (l, adjust) (only j r _ l (ops r))
  ]

  pub push_entry-Ops : (e : FileEntry) (r : JobRecord) → Ops r (push_entry e r)
  unfolding push_entry push
  push_entry-Ops e r = elim (Option-cases r.file_queue) [
    | inl q ↦ chain stop (
        quiet (rw (q, push_entry) refl) refl
          (record { job_id = refl; created_at_ms = refl; credentials = refl; mount_point = refl }))
    | inr (q, p) ↦
        chain stop
          (queued q (after_push q (push e q)) p (acquire-closed q e) (rw (p, push_entry) refl))
  ]

  -- What the manifest's tasks count is no part of the core.
  pub counted-Ops :
      (done : Bool) (stats : ManifestScanStats) (r : JobRecord)
      → Ops r (record r { manifest_done = done; manifest_scan_stats = stats })
  counted-Ops done stats r = chain stop (
      quiet refl refl
        (record { job_id = refl; created_at_ms = refl; credentials = refl; mount_point = refl }))
