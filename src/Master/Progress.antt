-- ===== src/Master/Progress.antt =====
-- `report_progress` of crates/cvd-master/src/service/worker_rpc.rs.
use cvdbench.Base.{Bool, true, false, [], Option, none, some, Text, if◌then◌else◌}
use cvdbench.Base.Map.{lookup, insert, contains_key}
use cvdbench.Proto.Reports.{WorkerProgress, WorkerPhase, progress, warmup, measuring}
use cvdbench.WorkerId.{validate, valid, invalid}
use cvdbench.Master.State.{JobRecord, MasterState, Now}
use cvdbench.Master.Job.{touch, is_terminal, is_cancelled}
use cvdbench.Master.Events.{emit_for_job}
use cvdbench.Master.Replies.{
  Reply, ok, refused, bad_worker_id, progress_required, ReportProgressResponse,
}

abbrev pub phase_allows_per_op : WorkerPhase → Bool
phase_allows_per_op p = elim p [ warmup ↦ true | measuring ↦ true | _ ↦ false ]

-- Metrics count only while the worker warms up or measures.
unfoldable pub filter_per_op : WorkerProgress → WorkerProgress
filter_per_op p = if phase_allows_per_op p.phase then p else record p { per_op = [] }

unfoldable pub progress_known :
    Text → WorkerProgress → Now → JobRecord → MasterState → ReportProgressResponse × MasterState
unfolding touch
progress_known job_id p now r s =
    let touched = touch p.worker_id now.instant r in
    let told = record touched { latest_progress = insert p.worker_id p touched.latest_progress } in
    if is_cancelled r.status
    then (
      record { cancelled = true; unknown_job = false },
      record s { jobs = insert job_id touched s.jobs },
    )
    else if is_terminal r
    then (record { cancelled = false; unknown_job = true }, s)
    else if contains_key p.worker_id r.worker_assignments
    then (
      record { cancelled = false; unknown_job = false },
      emit_for_job (record s { jobs = insert job_id told s.jobs }) told progress now,
    )
    else (record { cancelled = false; unknown_job = true }, s)

unfoldable pub report_progress :
    Text → Option WorkerProgress → Now → MasterState → Reply ReportProgressResponse × MasterState
unfolding progress_known filter_per_op
report_progress job_id none now s = (refused progress_required, s)
report_progress job_id (some p) now s = elim (validate p.worker_id) [
  | invalid e ↦ (refused (bad_worker_id e), s)
  | valid ↦ elim (lookup job_id s.jobs) [
    | none ↦ (ok (record { cancelled = false; unknown_job = true }), s)
    | some r ↦
        let (response, s') = progress_known job_id (filter_per_op p) now r s in (ok response, s')
  ]
]
