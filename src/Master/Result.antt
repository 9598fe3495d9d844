-- ===== src/Master/Result.antt =====
-- `report_result` of crates/cvd-master/src/service/worker_rpc.rs: the end of a worker's run.
use cvdbench.Base.{ℕ, Bool, true, false, Option, none, some, Text, if◌then◌else◌, length, ◌==◌}
use cvdbench.Base.Map.{lookup, insert, contains_key}
use cvdbench.Base.Sets.{contains}
use cvdbench.Proto.Reports.{
  WorkerResult, WorkerPhase, finished, JobStatus, running, completed, failed, cancelled,
  status_change,
}
use cvdbench.WorkerId.{validate, valid, invalid}
use cvdbench.Metrics.{Platform}
use cvdbench.Master.State.{JobRecord, JobError, MasterState, Now, reported, reported_failure}
use cvdbench.Master.Job.{touch, is_cancelled}
use cvdbench.Master.Events.{emit_for_job, finalize_stream}
use cvdbench.Master.Terminal.{finish, release_worker}
use cvdbench.Master.Replies.{
  Reply, ok, refused, bad_worker_id, result_required, ReportResultResponse,
}

-- RUNNING and CANCELLED jobs take results.
abbrev pub takes_result : JobStatus → Bool
takes_result s = elim s [ running ↦ true | cancelled ↦ true | _ ↦ false ]

-- `release`, with the answer.
unfoldable pub leave : Text → Text → Bool → MasterState → ReportResultResponse × MasterState
unfolding release_worker
leave job_id worker_id unknown s = (
  record { unknown_job = unknown },
  record s { worker_active_jobs = release_worker job_id worker_id s.worker_active_jobs },
)

-- The worker's last progress; a cancelled job keeps no result.
unfoldable pub store_result : WorkerResult → JobRecord → JobRecord
store_result result r =
    let r' = record r {
      latest_progress =
          insert result.worker_id
            (record {
              worker_id = result.worker_id;
              elapsed_ms = result.effective_duration_ms;
              per_op = result.per_op;
              phase = if result.success then finished else WorkerPhase.unspecified;
            })
            r.latest_progress;
    } in
    if is_cancelled r.status
    then r'
    else record r' { worker_results = insert result.worker_id result r'.worker_results }

unfoldable pub failure_reason : WorkerResult → JobError
failure_reason result = elim result.error [
  | some e ↦ reported e
  | none ↦ reported_failure result.worker_id
]

-- The status to which the stored result takes the job, if any. `r` has the result.
unfoldable pub outcome : WorkerResult → JobRecord → Option (JobStatus × Option JobError)
unfolding failure_reason
outcome result r =
    if is_cancelled r.status
    then none
    else if result.success
    then (if length r.worker_results == length r.run_workers
        then some (completed, r.error)
        else none)
    else some (failed, some (failure_reason result))

module _ ⦃pf : Platform⦄ where
  -- The record with the result in it, and whether the job became terminal by it.
  unfoldable pub conclude : WorkerResult → ℕ → JobRecord → JobRecord × Bool
  unfolding outcome store_result finish
  conclude result now_ms r = elim (outcome result (store_result result r)) [
    | none ↦ (store_result result r, false)
    | some (status, error) ↦ (finish status error now_ms (store_result result r), true)
  ]

  unfoldable pub settle : Text → WorkerResult → Now → JobRecord → MasterState → MasterState
  unfolding conclude finalize_stream
  settle job_id result now r s =
      let (r', became_terminal) = conclude result now.unix_ms r in
      let s' = record s { jobs = insert job_id r' s.jobs } in
      if became_terminal then finalize_stream (emit_for_job s' r' status_change now) job_id else s'

  unfoldable pub result_known :
      Text → WorkerResult → Now → JobRecord → MasterState → ReportResultResponse × MasterState
  unfolding settle leave touch
  result_known job_id result now r s =
      let w = result.worker_id in
      let r' = touch w now.instant r in
      if contains w r.run_workers
      then (if takes_result r.status
          then (if contains_key w r.worker_results
              then leave job_id w false (record s { jobs = insert job_id r' s.jobs })
              else leave job_id w false (settle job_id result now r' s))
          else leave job_id w true s)
      else leave job_id w true s

  unfoldable pub report_result :
      Text → Option WorkerResult → Now → MasterState → Reply ReportResultResponse × MasterState
  unfolding result_known leave
  report_result job_id none now s = (refused result_required, s)
  report_result job_id (some result) now s = elim (validate result.worker_id) [
    | invalid e ↦ (refused (bad_worker_id e), s)
    | valid ↦ elim (lookup job_id s.jobs) [
      | none ↦ let (response, s') = leave job_id result.worker_id true s in (ok response, s')
      | some r ↦ let (response, s') = result_known job_id result now r s in (ok response, s')
    ]
  ]
