-- ===== src/Master/Changes/Reports.antt =====
-- The records that `fetch_file_batch`, `report_progress` and `report_result` change.
use cvdbench.Base.{ℕ, ◌≡◌, refl, Option, none, some, Text, Bool-cases, Option-cases, inl, inr}
use cvdbench.Base.Int.{ℤ}
use cvdbench.Base.Map.{lookup, insert, contains_key}
use cvdbench.Base.Sets.{contains}
use cvdbench.Proto.Reports.{
  JobStatus, unspecified, pending, preparing, running, completed, failed, cancelled, WorkerProgress,
  WorkerResult,
}
use cvdbench.Queues.Bounded.{drain_up_to}
use cvdbench.WorkerId.{validate, Checked-cases}
use cvdbench.Metrics.{Platform}
use cvdbench.Master.State.{JobRecord, MasterState, Now}
use cvdbench.Master.Job.{is_cancelled, is_terminal, touch}
use cvdbench.Master.Events.{emit_for_job, finalize_stream}
use cvdbench.Master.Batch.{fetch_file_batch, batch_known, batch_by_status, take_batch, batch_limit}
use cvdbench.Master.Progress.{report_progress, progress_known, filter_per_op}
use cvdbench.Master.Result.{report_result, result_known, settle, leave, conclude, takes_result}
use cvdbench.Master.Changes.{
  Op, quiet, concluded, queued, Ops, stop, chain, Changes, unchanged, only, touch-Op,
}

module _ ⦃pf : Platform⦄ where
  batch_running-Changes :
      (j w : Text) (n : ℕ) (now : Now) (r : JobRecord) (s : MasterState)
      → lookup j s.jobs ≡ some r
      → Changes s.jobs (batch_by_status running j w n now r s).1.jobs
  unfolding batch_by_status take_batch touch drain_up_to
  batch_running-Changes j w n now r s e = elim (Option-cases r.file_queue) [
    | inl q ↦ rw (q, batch_by_status) unchanged
    | inr (q, p) ↦
        rw (p, batch_by_status)
          (only j r _ e (
            chain (chain stop (touch-Op w now.instant r)) (queued q (drain_up_to n q) p refl refl)))
  ]

  batch_by_status-Changes :
      (st : JobStatus) (j w : Text) (n : ℕ) (now : Now) (r : JobRecord) (s : MasterState)
      → lookup j s.jobs ≡ some r
      → Changes s.jobs (batch_by_status st j w n now r s).1.jobs
  unfolding batch_by_status
  batch_by_status-Changes unspecified j w n now r s e = unchanged
  batch_by_status-Changes pending j w n now r s e = unchanged
  batch_by_status-Changes preparing j w n now r s e = unchanged
  batch_by_status-Changes running j w n now r s e = batch_running-Changes j w n now r s e
  batch_by_status-Changes completed j w n now r s e = unchanged
  batch_by_status-Changes failed j w n now r s e = unchanged
  batch_by_status-Changes cancelled j w n now r s e =
      only j r _ e (chain stop (touch-Op w now.instant r))

  batch_known-Changes :
      (j w : Text) (n : ℕ) (now : Now) (r : JobRecord) (s : MasterState)
      → lookup j s.jobs ≡ some r
      → Changes s.jobs (batch_known j w n now r s).1.jobs
  unfolding batch_known
  batch_known-Changes j w n now r s e = elim (Bool-cases (contains w r.run_workers)) [
    | inl c ↦ rw c (batch_by_status-Changes r.status j w n now r s e)
    | inr c ↦ rw c unchanged
  ]

  pub fetch_file_batch-Changes :
      (j w : Text) (n : ℤ) (now : Now) (s : MasterState)
      → Changes s.jobs (fetch_file_batch j w n now s).1.jobs
  unfolding fetch_file_batch
  fetch_file_batch-Changes j w n now s = elim (Checked-cases (validate w)) [
    | inr (x, e) ↦ rw (e, fetch_file_batch) unchanged
    | inl e ↦ elim (Option-cases (lookup j s.jobs)) [
      | inl l ↦ rw (e, fetch_file_batch) (rw (l, fetch_file_batch) unchanged)
      | inr (r, l) ↦
          rw (e, fetch_file_batch)
            (rw (l, fetch_file_batch) (batch_known-Changes j w (batch_limit n) now r s l))
    ]
  ]

  -- The last progress of a worker is no part of the core.
  told-Op :
      (p : WorkerProgress) (r : JobRecord)
      → Op r (record r { latest_progress = insert p.worker_id p r.latest_progress })
  told-Op p r =
      quiet refl refl
        (record { job_id = refl; created_at_ms = refl; credentials = refl; mount_point = refl })

  progress_known-Changes :
      (j : Text) (p : WorkerProgress) (now : Now) (r : JobRecord) (s : MasterState)
      → lookup j s.jobs ≡ some r
      → Changes s.jobs (progress_known j p now r s).1.jobs
  unfolding progress_known emit_for_job
  progress_known-Changes j p now r s e =
      let touched : Ops r (touch p.worker_id now.instant r) =
        chain stop (touch-Op p.worker_id now.instant r) in
      elim (Bool-cases (is_cancelled r.status)) [
        | inl c ↦ rw c (only j r _ e touched)
        | inr c ↦ elim (Bool-cases (is_terminal r)) [
          | inl t ↦ rw (c, t) unchanged
          | inr t ↦ elim (Bool-cases (contains_key p.worker_id r.worker_assignments)) [
            | inr k ↦ rw (c, t, k) unchanged
            | inl k ↦ rw (c, t, k) (only j r _ e (chain touched (told-Op p _)))
          ]
        ]
      ]

  pub report_progress-Changes :
      (j : Text) (p : Option WorkerProgress) (now : Now) (s : MasterState)
      → Changes s.jobs (report_progress j p now s).1.jobs
  unfolding report_progress
  report_progress-Changes j none now s = unchanged
  report_progress-Changes j (some p) now s = elim (Checked-cases (validate p.worker_id)) [
    | inr (x, e) ↦ rw (e, report_progress) unchanged
    | inl e ↦ elim (Option-cases (lookup j s.jobs)) [
      | inl l ↦ rw (e, report_progress) (rw (l, report_progress) unchanged)
      | inr (r, l) ↦
          rw (e, report_progress)
            (rw (l, report_progress) (progress_known-Changes j (filter_per_op p) now r s l))
    ]
  ]

  settle-jobs :
      (j : Text) (x : WorkerResult) (now : Now) (r : JobRecord) (s : MasterState)
      → (settle j x now r s).jobs ≡ insert j (conclude x now.unix_ms r).0 s.jobs
  unfolding settle emit_for_job finalize_stream
  settle-jobs j x now r s = elim (Bool-cases (conclude x now.unix_ms r).1) [
    | inl e ↦ rw e
    | inr e ↦ rw e
  ]

  result_known-Changes :
      (j : Text) (x : WorkerResult) (now : Now) (r : JobRecord) (s : MasterState)
      → lookup j s.jobs ≡ some r
      → Changes s.jobs (result_known j x now r s).1.jobs
  unfolding result_known leave
  result_known-Changes j x now r s e =
      let touched : Ops r (touch x.worker_id now.instant r) =
        chain stop (touch-Op x.worker_id now.instant r) in
      elim (Bool-cases (contains x.worker_id r.run_workers)) [
        | inr c ↦ rw c unchanged
        | inl c ↦ elim (Bool-cases (takes_result r.status)) [
          | inr t ↦ rw (c, t) unchanged
          | inl t ↦ elim (Bool-cases (contains_key x.worker_id r.worker_results)) [
            | inl k ↦ rw (c, t, k) (only j r _ e touched)
            | inr k ↦
                rw (c, t, k)
                  (rw settle-jobs (only j r _ e (chain touched (concluded x now.unix_ms t c refl))))
          ]
        ]
      ]

  pub report_result-Changes :
      (j : Text) (x : Option WorkerResult) (now : Now) (s : MasterState)
      → Changes s.jobs (report_result j x now s).1.jobs
  unfolding report_result leave
  report_result-Changes j none now s = unchanged
  report_result-Changes j (some x) now s = elim (Checked-cases (validate x.worker_id)) [
    | inr (y, e) ↦ rw (e, report_result) unchanged
    | inl e ↦ elim (Option-cases (lookup j s.jobs)) [
      | inl l ↦ rw (e, report_result) (rw (l, report_result) unchanged)
      | inr (r, l) ↦
          rw (e, report_result) (rw (l, report_result) (result_known-Changes j x now r s l))
    ]
  ]
