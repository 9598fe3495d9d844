-- ===== src/Master/Ready.antt =====
-- crates/cvd-master/src/scheduler/ready.rs: the barrier before the common start.
use cvdbench.Base.{
  ℕ, ◌+◌, ◌^◌, Bool, true, false, ◌&&◌, ◌||◌, not, Option, none, some, Text, if◌then◌else◌, ltb,
  length, ◌==◌,
}
use cvdbench.Base.Int.{ℤ, pos, negsuc, wrap_i64}
use cvdbench.Base.Map.{lookup, insert, keys, contains_key}
use cvdbench.Base.Sets.{add}
use cvdbench.Proto.Reports.{running, failed, status_change}
use cvdbench.WorkerId.{validate, valid, invalid}
use cvdbench.Metrics.{Platform}
use cvdbench.Master.State.{JobRecord, MasterState, SchedulerConfig, Now, as_millis, ready_failure}
use cvdbench.Master.Job.{touch, is_terminal, is_pending, is_preparing, is_cancelled}
use cvdbench.Master.Events.{emit_for_job, finalize_stream}
use cvdbench.Master.Terminal.{finish, release_workers}
use cvdbench.Master.Replies.{
  Reply, ok, refused, bad_worker_id, ReportReadyResponse, unknown_ready, closed_ready,
}

abbrev pub is_zero : ℤ → Bool
is_zero (pos n) = n == 0
is_zero (negsuc n) = false

-- `i64::try_from(start_delay.as_millis()).unwrap_or(5_000)`.
abbrev pub delay_ms : SchedulerConfig → ℕ
delay_ms c = if ltb (as_millis c.start_delay) (2 ^ 63) then as_millis c.start_delay else 5_000

-- The conditions under which the barrier opens.
unfoldable pub barrier_opens : JobRecord → Bool
barrier_opens r =
    is_preparing r.status
    && is_zero r.start_at_ms
    && not (length r.run_workers == 0)
    && (length r.ready_workers == length r.run_workers)

unfoldable pub open_barrier : SchedulerConfig → Now → JobRecord → JobRecord
unfolding wrap_i64
open_barrier config now r = record r {
  start_at_ms = wrap_i64 (pos (now.unix_ms + delay_ms config));
  status = running;
}

-- A worker is ready: it is counted, and the last one starts the job. The second part says if it did.
unfoldable pub mark_ready : SchedulerConfig → Text → Now → JobRecord → JobRecord × Bool
unfolding barrier_opens open_barrier
mark_ready config worker_id now r =
    let r' = record r { ready_workers = add worker_id r.ready_workers } in
    if is_preparing r.status || is_pending r.status
    then (if barrier_opens r' then (open_barrier config now r', true) else (r', false))
    else (r, false)

unfoldable pub ready_ok :
    Text → Text → Now → JobRecord → MasterState → ReportReadyResponse × MasterState
unfolding mark_ready
ready_ok job_id worker_id now r s =
    let (r', just_started) = mark_ready s.config.scheduler worker_id now r in
    let s' = record s { jobs = insert job_id r' s.jobs } in
    (
      record {
        cancelled = false;
        unknown_job = false;
        start_at_ms = r'.start_at_ms;
        master_now_ms = now.unix_ms;
      },
      if just_started then emit_for_job s' r' status_change now else s',
    )

module _ ⦃pf : Platform⦄ where
  unfoldable pub fail_ready : Text → Text → Text → Now → JobRecord → MasterState → MasterState
  unfolding finish finalize_stream
  fail_ready job_id worker_id reason now r s =
      let r' = finish failed (some (ready_failure worker_id reason)) now.unix_ms r in
      let s' = emit_for_job (record s { jobs = insert job_id r' s.jobs }) r' status_change now in
      finalize_stream
        (record s' {
          worker_active_jobs =
              release_workers job_id (keys r'.worker_assignments) s'.worker_active_jobs;
        })
        job_id

  -- The worker could not prepare: a PREPARING job fails, any other ignores it.
  unfoldable pub ready_error :
      Text → Text → Text → Now → JobRecord → MasterState → ReportReadyResponse × MasterState
  unfolding fail_ready unknown_ready closed_ready
  ready_error job_id worker_id reason now r s =
      if is_preparing r.status
      then (closed_ready false now, fail_ready job_id worker_id reason now r s)
      else (unknown_ready now, record s { jobs = insert job_id r s.jobs })

  -- The worker has a slot: any word of it shows that it is alive.
  unfoldable pub ready_assigned :
      Text → Text → Option Text → Now → JobRecord → MasterState → ReportReadyResponse × MasterState
  unfolding ready_error ready_ok
  ready_assigned job_id worker_id error now r s = elim error [
    | some reason ↦ ready_error job_id worker_id reason now r s
    | none ↦ ready_ok job_id worker_id now r s
  ]

  unfoldable pub ready_known :
      Text → Text → Option Text → Now → JobRecord → MasterState → ReportReadyResponse × MasterState
  unfolding ready_assigned unknown_ready closed_ready touch
  ready_known job_id worker_id error now r s =
      if is_cancelled r.status
      then (closed_ready true now, s)
      else if is_terminal r
      then (unknown_ready now, s)
      else if contains_key worker_id r.worker_assignments
      then ready_assigned job_id worker_id error now (touch worker_id now.instant r) s
      else (unknown_ready now, s)

  unfoldable pub report_ready :
      Text → Text → Option Text → Now → MasterState → Reply ReportReadyResponse × MasterState
  unfolding ready_known unknown_ready
  report_ready job_id worker_id error now s = elim (validate worker_id) [
    | invalid e ↦ (refused (bad_worker_id e), s)
    | valid ↦ elim (lookup job_id s.jobs) [
      | none ↦ (ok (unknown_ready now), s)
      | some r ↦
          let (response, s') = ready_known job_id worker_id error now r s in (ok response, s')
    ]
  ]
